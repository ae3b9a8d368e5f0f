-- ===== src/Privileges/Checks.antt =====
-- include/memcached/privileges.h, Connection::checkPrivilege of daemon/connection.cc, and the functions
-- that the chains of daemon/mcbp_privileges.cc store.
use memcached.Common.{
  ℕ, ◌≡◌, refl, sym, ap, ◌∙◌, ◌↔◌, Bool, true, false, ◌||◌, if◌then◌else◌, ◌==◌, arith, suc,
}
use memcached.Chain.{Returns, Addressed}

pub data Privilege : Type 0 where
  read write simple_stats stats bucket_management : Privilege
  node_management session_management audit audit_management dcp_consumer : Privilege
  dcp_producer tap_producer tap_consumer meta_read meta_write : Privilege
  idle_connection xattr_read xattr_write collection_management : Privilege

pub data PrivilegeAccess : Type 0 where
  ok fail stale : PrivilegeAccess

-- What checkPrivilege reads of a connection. `testing` is whether MEMCACHED_UNIT_TESTS is set in the
-- environment.
pub record Subject : Type 0 where
  pub is_admin : Bool
  pub testing : Bool

granted : Privilege → PrivilegeAccess
granted read = ok
granted write = ok
granted simple_stats = ok
granted stats = fail
granted bucket_management = fail
granted node_management = ok
granted session_management = fail
granted audit = fail
granted audit_management = fail
granted dcp_consumer = ok
granted dcp_producer = ok
granted tap_producer = ok
granted tap_consumer = ok
granted meta_read = ok
granted meta_write = ok
granted idle_connection = ok
granted xattr_read = fail
granted xattr_write = fail
granted collection_management = fail

unfoldable pub check_privilege : Privilege → Subject → PrivilegeAccess
unfolding granted
check_privilege privilege c = if c.is_admin || c.testing then ok else granted privilege

-- `require<T>` for each privilege, and `empty`.
pub data Check : Type 0 where
  require : Privilege → Check
  empty : Check

unfoldable pub run_check : Check → Subject → PrivilegeAccess
run_check (require privilege) c = check_privilege privilege c
run_check empty c = ok

abbrev pub privilege_number : Privilege → ℕ
privilege_number read = 0
privilege_number write = 1
privilege_number simple_stats = 2
privilege_number stats = 3
privilege_number bucket_management = 4
privilege_number node_management = 5
privilege_number session_management = 6
privilege_number audit = 7
privilege_number audit_management = 8
privilege_number dcp_consumer = 9
privilege_number dcp_producer = 10
privilege_number tap_producer = 11
privilege_number tap_consumer = 12
privilege_number meta_read = 13
privilege_number meta_write = 14
privilege_number idle_connection = 15
privilege_number xattr_read = 16
privilege_number xattr_write = 17
privilege_number collection_management = 18

-- Some address for each function.
abbrev pub check_address : Check → ℕ
check_address empty = 0
check_address (require privilege) = suc (privilege_number privilege)

abbrev privilege_at : ℕ → Privilege
privilege_at n =
    if n == 0
    then read
    else if n == 1
    then write
    else if n == 2
    then simple_stats
    else if n == 3
    then stats
    else if n == 4
    then bucket_management
    else if n == 5
    then node_management
    else if n == 6
    then session_management
    else if n == 7
    then audit
    else if n == 8
    then audit_management
    else if n == 9
    then dcp_consumer
    else if n == 10
    then dcp_producer
    else if n == 11
    then tap_producer
    else if n == 12
    then tap_consumer
    else if n == 13
    then meta_read
    else if n == 14
    then meta_write
    else if n == 15
    then idle_connection
    else if n == 16
    then xattr_read
    else if n == 17
    then xattr_write
    else collection_management

privilege_at-number : (p : Privilege) → privilege_at (privilege_number p) ≡ p
privilege_at-number read = refl
privilege_at-number write = refl
privilege_at-number simple_stats = refl
privilege_at-number stats = refl
privilege_at-number bucket_management = refl
privilege_at-number node_management = refl
privilege_at-number session_management = refl
privilege_at-number audit = refl
privilege_at-number audit_management = refl
privilege_at-number dcp_consumer = refl
privilege_at-number dcp_producer = refl
privilege_at-number tap_producer = refl
privilege_at-number tap_consumer = refl
privilege_at-number meta_read = refl
privilege_at-number meta_write = refl
privilege_at-number idle_connection = refl
privilege_at-number xattr_read = refl
privilege_at-number xattr_write = refl
privilege_at-number collection_management = refl

pub check_address_injective : (f g : Check) → check_address f ≡ check_address g → f ≡ g
check_address_injective empty empty e = refl
check_address_injective empty (require q) e = absurd (omega arith)
check_address_injective (require p) empty e = absurd (omega arith)
check_address_injective (require p) (require q) e = ap require (
    sym (privilege_at-number p)
    ∙ ap privilege_at (let n : privilege_number p ≡ privilege_number q = omega arith in n)
    ∙ privilege_at-number q)

instance abbrev pub check_addressed : Addressed Check
check_addressed = record { address = check_address; address_injective = check_address_injective }

abbrev pub is_ok : PrivilegeAccess → Bool
is_ok ok = true
is_ok _ = false

pub is_ok_iff : (r : PrivilegeAccess) → (is_ok r ≡ true) ↔ (r ≡ ok)
is_ok_iff ok = (λ _. refl, λ _. refl)
is_ok_iff _ = (λ e. cc, λ e. cc)

instance abbrev pub access_returns : Returns PrivilegeAccess
access_returns = record { success = ok; succeeded = is_ok; succeeded_iff = is_ok_iff }
