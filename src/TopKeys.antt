-- ===== src/TopKeys.antt =====
-- The keys used most recently: daemon/topkeys.h, daemon/topkeys.cc and the hash of daemon/buffer.h.
-- A pointer to an element of `storage` is its index. A shard's mutex is held throughout each operation,
-- so that each is one step.
pub mod Lru
pub mod Counts
pub mod Storage
pub mod Visited
pub mod Distinct
pub mod Refines
pub mod Whole
pub mod Lost
use Prim.Native.Nat.{bit_and, bit_xor}
use memcached.Common.{
  ℕ, zero, suc, ◌+◌, ◌-◌, ◌*◌, ◌%◌, ◌^◌, Bool, true, false, ◌&&◌, ltb, ◌==◌, if◌then◌else◌, Option,
  none, some, List, [], ◌∷◌, ◌++◌, length,
}

-- `topkey_t`: the KeyId and the topkey_item_t. A key is its bytes.
pub record Topkey : Type 0 where
  pub hash : ℕ
  pub key : List ℕ
  pub ti_ctime : ℕ
  pub ti_access_count : ℕ

-- `max_keys`, the list from the most recently used to the least, and the storage.
pub record Shard : Type 0 where
  pub max_keys : ℕ
  pub list : List ℕ
  pub storage : List Topkey

-- `size_t(base[ii])` of a char, which is signed
unfoldable pub size_of_char : ℕ → ℕ
size_of_char c = if ltb c 128 then c else 2 ^ 64 - 256 + c

-- The loop of hash_array; `rv` is the value so far.
unfoldable pub hash_array : ℕ → List ℕ → ℕ
unfolding size_of_char
hash_array rv [] = rv
hash_array rv (c ∷ base) =
    hash_array (bit_xor ((rv * 2 ^ 5 % 2 ^ 64 + rv) % 2 ^ 64) (size_of_char c)) base

-- The operator of std::hash<const_sized_buffer>.
unfoldable pub hash_fn : List ℕ → ℕ
unfolding hash_array
hash_fn key = hash_array 5381 key

-- std::string::compare with a buffer, against 0
unfoldable pub same_key : List ℕ → List ℕ → Bool
same_key [] [] = true
same_key (a ∷ xs) (b ∷ ys) = a == b && same_key xs ys
same_key _ _ = false

-- The test of searchForKey: the hash, then the full compare.
unfoldable pub matches : ℕ → List ℕ → Topkey → Bool
unfolding same_key
matches key_hash key topkey = topkey.hash == key_hash && same_key topkey.key key

-- The loop of searchForKey; `i` is the index of the first element.
unfoldable pub search_for_key : ℕ → List ℕ → ℕ → List Topkey → Option ℕ
unfolding matches
search_for_key key_hash key i [] = none
search_for_key key_hash key i (topkey ∷ storage) =
    let rest = search_for_key key_hash key (suc i) storage in
    if matches key_hash key topkey then some i else rest

infixl 5 ◌>>=◌
abbrev pub ◌>>=◌ {ℓ κ} : {A : Type ℓ} {B : Type κ} → Option A → (A → Option B) → Option B
none >>= f = none
some a >>= f = f a

-- Reading through a pointer; none is undefined behaviour.
unfoldable pub get_elem? {ℓ} : {A : Type ℓ} → List A → ℕ → Option A
get_elem? [] i = none
get_elem? (x ∷ xs) zero = some x
get_elem? (x ∷ xs) (suc i) = get_elem? xs i

-- Writing through a pointer.
unfoldable pub set_elem {ℓ} : {A : Type ℓ} → List A → ℕ → A → List A
set_elem [] i y = []
set_elem (x ∷ xs) zero y = y ∷ xs
set_elem (x ∷ xs) (suc i) y = x ∷ set_elem xs i y

-- `list.back()` beside the list without it; on an empty list the source's behaviour is undefined.
unfoldable pub pop_back {ℓ} : {A : Type ℓ} → List A → Option (List A × A)
pop_back [] = none
pop_back (x ∷ []) = some ([], x)
pop_back (x ∷ y ∷ xs) = do (rest, last) ← pop_back (y ∷ xs); some (x ∷ rest, last)

-- The list without the node that std::find returns; where it returns `end()`, the splice is undefined.
unfoldable pub unlink : ℕ → List ℕ → Option (List ℕ)
unlink i [] = none
unlink i (j ∷ list) =
    let rest = unlink i list in if j == i then some list else do list' ← rest; some (j ∷ list')

-- `topkey_item_t(ct)` under a key.
unfoldable pub fresh_topkey : ℕ → List ℕ → ℕ → Topkey
fresh_topkey key_hash key ct = record {
  hash = key_hash;
  key = key;
  ti_ctime = ct;
  ti_access_count = 0;
}

-- The largest int.
abbrev pub int_max : ℕ
int_max = 2 ^ 31 - 1

abbrev pub counted : Topkey → Topkey
counted t = record t { ti_access_count = t.ti_access_count + 1 }

-- `ti_access_count++`; the count is an int, whose overflow is undefined behaviour.
unfoldable pub count_access : Topkey → Option Topkey
count_access t = if ltb t.ti_access_count int_max then some (counted t) else none

-- What the allocator answers during an access: all it is asked for, no memory for the key's string, or
-- none for the node of the list. The storage has been reserved.
pub data Allocation : Type 0 where
  allocated no_string no_node : Allocation

-- The lowest key's element is used again; none for its index is std::bad_alloc.
unfoldable pub reuse : Allocation → Shard → List ℕ → ℕ → List ℕ → ℕ → ℕ → Option (Option ℕ × Shard)
unfolding get_elem? set_elem fresh_topkey
reuse no_string s rest found_key key key_hash ct = do
  topkey ← get_elem? s.storage found_key
  some (
    none,
    record s { storage = set_elem s.storage found_key (record topkey { hash = key_hash }) },
  )
reuse _ s rest found_key key key_hash ct = some (
  some found_key,
  record s {
    list = found_key ∷ rest;
    storage = set_elem s.storage found_key (fresh_topkey key_hash key ct);
  },
)

-- A new element at the end of the storage; without a node, it is left out of the list.
unfoldable pub emplace : Allocation → Shard → List ℕ → ℕ → ℕ → Option ℕ × Shard
unfolding fresh_topkey
emplace allocated s key key_hash ct = (
  some (length s.storage),
  record s {
    list = length s.storage ∷ s.list;
    storage = s.storage ++ fresh_topkey key_hash key ct ∷ [];
  },
)
emplace no_string s key key_hash ct = (none, s)
emplace no_node s key key_hash ct =
    (none, record s { storage = s.storage ++ fresh_topkey key_hash key ct ∷ [] })

-- The branch for a key that is not stored: the index of its element, and the shard with it at the front.
unfoldable pub place : Allocation → Shard → List ℕ → ℕ → ℕ → Option (Option ℕ × Shard)
unfolding pop_back reuse emplace
place allocation s key key_hash ct =
    if length s.storage == s.max_keys
    then (do (rest, found_key) ← pop_back s.list; reuse allocation s rest found_key key key_hash ct)
    else some (emplace allocation s key key_hash ct)

-- The branch for a key that is.
unfoldable pub shuffle : Shard → ℕ → Option (Option ℕ × Shard)
unfolding unlink
shuffle s found_key = do
  rest ← unlink found_key s.list
  some (some found_key, record s { list = found_key ∷ rest })

-- The last step: the access is counted through the pointer, and true is returned; std::bad_alloc makes
-- it false.
unfoldable pub count_at : Option ℕ × Shard → Option (Bool × Shard)
unfolding get_elem? set_elem count_access
count_at (none, s) = some (false, s)
count_at (some i, s) = do
  topkey ← get_elem? s.storage i
  topkey' ← count_access topkey
  some (true, record s { storage = set_elem s.storage i topkey' })

-- Shard::updateKey; none is undefined behaviour.
unfoldable pub shard_update_key : Allocation → Shard → List ℕ → ℕ → ℕ → Option (Bool × Shard)
unfolding search_for_key place shuffle count_at
shard_update_key allocation s key key_hash ct =
    elim (search_for_key key_hash key 0 s.storage) [
      | none ↦ place allocation s key key_hash ct
      | some found_key ↦ shuffle s found_key
    ]
    >>= count_at

-- Shard::accept_visitor: the elements that the visitor is given, in order.
unfoldable pub accept_visitor : List Topkey → List ℕ → Option (List Topkey)
unfolding get_elem?
accept_visitor storage [] = some []
accept_visitor storage (i ∷ list) = do
  topkey ← get_elem? storage i
  rest ← accept_visitor storage list
  some (topkey ∷ rest)

-- A shard after the constructor: setMaxKeys with a size that is not negative.
unfoldable pub set_max_keys : ℕ → Shard
set_max_keys mkeys = record { max_keys = mkeys; list = []; storage = [] }

abbrev pub num_shards : ℕ
num_shards = 8

-- The eight shards that TopKeys::TopKeys makes.
unfoldable pub new_topkeys : ℕ → List Shard
unfolding set_max_keys
new_topkeys mkeys = fill num_shards
  where
    fill : ℕ → List Shard
    fill zero = []
    fill (suc n) = set_max_keys mkeys ∷ fill n

-- The index that getShard uses.
unfoldable pub get_shard : ℕ → ℕ
get_shard key_hash = bit_and key_hash 0x7

-- TopKeys::updateKey; none is undefined behaviour. A key that is null or empty is an assertion's
-- failure, and the callers give neither.
unfoldable pub update_key : Allocation → List Shard → List ℕ → ℕ → Option (List Shard)
unfolding hash_fn get_shard get_elem? set_elem shard_update_key
update_key allocation shards key operation_time = do
  let key_hash = hash_fn key
  let i = get_shard key_hash
  shard ← get_elem? shards i
  (updated, shard') ← shard_update_key allocation shard key key_hash operation_time
  some (set_elem shards i shard')
