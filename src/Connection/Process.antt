-- ===== src/Connection/Process.antt =====
-- Running a packet that has been read: mcbp_complete_nread, process_bin_packet and
-- validate_bin_header of daemon/mcbp_executors.cc. Logging and auditing are left out.
use memcached.Common.{
  ℕ, ◌+◌, ◌-◌, ◌==◌, leb, if◌then◌else◌, Bool, Option, none, some, Bool-cases, inl, inr, ◌≡◌, ◌≤◌,
  ◌↔◌, arith,
}
use memcached.Protocol.{Status, success, einval, eaccess, auth_stale, Packet, magic_res}
use memcached.Protocol.Wire.{read_packet}
use memcached.Chain.Table.{Chains}
use memcached.Validators.Names.{Validator}
use memcached.Validators.Table.{validate_command}
use memcached.Privileges.Checks.{Check, Subject, ok, fail, stale}
use memcached.Privileges.Table.{invoke_privileges}
use memcached.Connection.{Connection, Environment, conn_closing, set_state, mcbp_write_packet}
use memcached.Connection.Receive.{header_size, close_after}

-- The code that runs a command: its executor, where it has one, and process_bin_unknown_packet, which
-- asks the engine; and the handlers of responses.
pub record Handlers : Type 0 where
  pub executor : ℕ → Option (Connection → Connection)
  pub unknown : Connection → Connection
  pub response_handler : ℕ → Option (Connection → Connection)

-- The chains that a packet goes through: those of the privileges and those of the connection's bucket.
pub record Rules : Type 0 where
  pub privileges : Chains Check
  pub validators : Chains Validator
  pub testing : Bool

unfoldable pub validate_bin_header : Connection → Status
validate_bin_header c =
    if leb (c.header.keylen + c.header.extlen) c.header.bodylen then success else einval

-- Where the packet that has been read starts in the buffer.
abbrev pub packet_at : Connection → ℕ
packet_at c = c.read.curr - (c.header.bodylen + header_size)

-- McbpConnection::getPacket
unfoldable pub get_packet : Connection → Packet
get_packet c = read_packet (λ i. c.read.memory (packet_at c + i))

and_then : Status → Status → Status
and_then success next = next
and_then status next = status

-- The header check and then the bucket's chain of the opcode.
unfoldable pub packet_status : Rules → Connection → Status
unfolding and_then
packet_status rules c =
    and_then (validate_bin_header c)
      (validate_command rules.validators c.header.opcode (get_packet c))

unfoldable pub execute : Handlers → Connection → Connection
execute handlers c = elim (handlers.executor c.header.opcode) [
  | none ↦ handlers.unknown c
  | some executor ↦ executor c
]

abbrev pub subject : Rules → Connection → Subject
subject rules c = record { is_admin = c.admin; testing = rules.testing }

-- `result` is what the checks of the packet have come to.
unfoldable pub run_checked : Handlers → Environment → Connection → Status → Connection
run_checked handlers env c success = execute handlers c
run_checked handlers env c result = close_after env result c

unfoldable pub process_bin_packet : Handlers → Rules → Environment → Connection → Connection
process_bin_packet handlers rules env c =
    elim (invoke_privileges rules.privileges c.header.opcode (subject rules c)) [
      | fail ↦ mcbp_write_packet env eaccess c
      | ok ↦ run_checked handlers env c (packet_status rules c)
      | stale ↦ mcbp_write_packet env auth_stale c
    ]

unfoldable pub mcbp_complete_nread : Handlers → Rules → Environment → Connection → Connection
mcbp_complete_nread handlers rules env c =
    if c.header.magic == magic_res
    then elim (handlers.response_handler c.header.opcode) [
      | none ↦ set_state conn_closing c
      | some handler ↦ handler c
    ]
    else process_bin_packet handlers rules env c

-- A packet passes its checks exactly where its body is at least as long as key and extras together
-- and the chain of its opcode accepts it.
pub packet_status_iff :
    (rules : Rules) (c : Connection)
    → (packet_status rules c ≡ success) ↔ (
        (c.header.keylen + c.header.extlen ≤ c.header.bodylen)
        × (validate_command rules.validators c.header.opcode (get_packet c) ≡ success))
unfolding packet_status validate_bin_header and_then
packet_status_iff rules c =
    elim (Bool-cases (leb (c.header.keylen + c.header.extlen) c.header.bodylen)) [
      | inl fits ↦ (λ h. (ground arith, rw fits at h), λ h. rw fits h.1)
      | inr over ↦ (λ h. absurd (einval≢success (rw over at h)), λ h. absurd (ground arith))
    ]
  where
    einval≢success : einval ≡ success → ⊥
    einval≢success e = cc
