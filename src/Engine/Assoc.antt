-- ===== src/Engine/Assoc.antt =====
-- The hash table of the default engine: engines/default_engine/assoc.c and assoc.h. It doubles its size
-- while it is in use: the maintenance thread moves the items over, bucket by bucket. What is done under
-- the table's lock is one step.
-- A chain is the list of its items. `hash & hashmask(n)` is the rest of the division by 2^n.
pub mod Chains
pub mod Move
pub mod Valid
pub mod Steps
pub mod Maintenance
pub mod Represents
pub mod Refines
pub mod Expansion
use memcached.Common.{
  ℕ, zero, suc, ◌+◌, ◌-◌, ◌*◌, ◌/◌, ◌%◌, ◌^◌, Bool, true, false, not, ◌&&◌, ltb, leb, ◌==◌,
  if◌then◌else◌, Option, none, some, List, [], ◌∷◌, length,
}

-- An item as the table sees it: its address, and its key, the bucket's index included, which does not
-- change while the item is in the table.
pub record HashItem : Type 0 where
  pub address : ℕ
  pub key : List ℕ

abbrev pub HashTable : Type 0
HashTable = ℕ → List HashItem

pub record Assoc : Type 0 where
  pub hashpower : ℕ
  pub primary_hashtable : HashTable
  pub old_hashtable : HashTable
  pub hash_items : ℕ
  pub expanding : Bool
  pub expand_bucket : ℕ

unfoldable pub hashsize : ℕ → ℕ
hashsize n = 2 ^ n

abbrev pub no_items : HashTable
no_items bucket = []

-- assoc_consruct, where there is memory.
unfoldable pub assoc_consruct : ℕ → Assoc
assoc_consruct hashpower = record {
  hashpower = hashpower;
  primary_hashtable = no_items;
  old_hashtable = no_items;
  hash_items = 0;
  expanding = false;
  expand_bucket = 0;
}

-- `memcmp(a, b, n) == 0`
unfoldable pub same_bytes : ℕ → List ℕ → List ℕ → Bool
same_bytes zero xs ys = true
same_bytes (suc n) (x ∷ xs) (y ∷ ys) = x == y && same_bytes n xs ys
same_bytes (suc n) _ _ = false

unfoldable pub same_hash_key : List ℕ → List ℕ → Bool
unfolding same_bytes
same_hash_key key it_key = length key == length it_key && same_bytes (length key) key it_key

-- The loop of assoc_find over a chain.
unfoldable pub chain_find : List ℕ → List HashItem → Option HashItem
chain_find key [] = none
chain_find key (it ∷ chain) = if same_hash_key key it.key then some it else chain_find key chain

-- What assoc_delete leaves of a chain: _hashitem_before finds the place, and the item there is cut out.
unfoldable pub chain_delete : List ℕ → List HashItem → List HashItem
chain_delete key [] = []
chain_delete key (it ∷ chain) =
    if same_hash_key key it.key then chain else it ∷ chain_delete key chain

-- Whether a hash is looked up in the old table still.
unfoldable pub in_old : Assoc → ℕ → Bool
unfolding hashsize
in_old a hash = a.expanding && leb a.expand_bucket (hash % hashsize (a.hashpower - 1))

unfoldable pub chain_of : Assoc → ℕ → List HashItem
unfolding in_old hashsize
chain_of a hash =
    if in_old a hash
    then a.old_hashtable (hash % hashsize (a.hashpower - 1))
    else a.primary_hashtable (hash % hashsize a.hashpower)

unfoldable pub put_chain : HashTable → ℕ → List HashItem → HashTable
put_chain table bucket chain i = if i == bucket then chain else table i

unfoldable pub set_chain : Assoc → ℕ → List HashItem → Assoc
unfolding in_old hashsize
set_chain a hash chain =
    if in_old a hash
    then record a {
      old_hashtable = put_chain a.old_hashtable (hash % hashsize (a.hashpower - 1)) chain;
    }
    else record a {
      primary_hashtable = put_chain a.primary_hashtable (hash % hashsize a.hashpower) chain;
    }

unfoldable pub assoc_find : Assoc → ℕ → List ℕ → Option HashItem
assoc_find a hash key = chain_find key (chain_of a hash)

-- Whether the memory for the table is there, and whether the thread starts.
unfoldable pub assoc_expand : Bool → Bool → Assoc → Assoc
assoc_expand allocated started a =
    let kept = record a { old_hashtable = a.primary_hashtable } in
    let grown = record kept {
      primary_hashtable = no_items;
      hashpower = kept.hashpower + 1;
      expanding = true;
      expand_bucket = 0;
    } in
    if allocated
    then (if started then grown else record grown {
      hashpower = grown.hashpower - 1;
      expanding = false;
      primary_hashtable = grown.old_hashtable;
    })
    else record kept { primary_hashtable = kept.old_hashtable }

unfoldable pub count_items : ℕ → Assoc → Assoc
count_items n a = record a { hash_items = n }

unfoldable pub is_full : Assoc → Bool
unfolding hashsize
is_full a = not a.expanding && ltb (hashsize a.hashpower * 3 / 2) a.hash_items

-- assoc_insert behind its assertion.
unfoldable pub put_item : Bool → Bool → Assoc → ℕ → HashItem → Assoc
put_item allocated started a hash it =
    let linked = set_chain a hash (it ∷ chain_of a hash) in
    let counted = count_items ((a.hash_items + 1) % 2 ^ 32) linked in
    if is_full counted then assoc_expand allocated started counted else counted

-- `none` is the assertion that there is no such key yet.
unfoldable pub assoc_insert : Bool → Bool → Assoc → ℕ → HashItem → Option Assoc
assoc_insert allocated started a hash it = elim (assoc_find a hash it.key) [
  | none ↦ some (put_item allocated started a hash it)
  | some it' ↦ none
]

-- assoc_delete, where `*before` is an item.
unfoldable pub cut_item : Assoc → ℕ → List ℕ → Assoc
cut_item a hash key =
    let unlinked = set_chain a hash (chain_delete key (chain_of a hash)) in
    count_items ((a.hash_items + 2 ^ 32 - 1) % 2 ^ 32) unlinked

-- `none` is the assertion that there is such a key.
unfoldable pub assoc_delete : Assoc → ℕ → List ℕ → Option Assoc
assoc_delete a hash key = elim (assoc_find a hash key) [
  | none ↦ none
  | some it ↦ some (cut_item a hash key)
]

module _ (crc32c : List ℕ → ℕ) where
  -- The loop of the maintenance thread over a chain of the old table.
  unfoldable pub move_items : ℕ → List HashItem → HashTable → HashTable
  move_items hashpower [] table = table
  move_items hashpower (it ∷ chain) table =
      let bucket = crc32c it.key % hashsize hashpower in
      move_items hashpower chain (put_chain table bucket (it ∷ table bucket))

  -- One round of the loop of the maintenance thread over `ii`.
  unfoldable pub move_bucket : Assoc → Assoc
  move_bucket a =
      let chain = a.old_hashtable a.expand_bucket in
      record a {
        primary_hashtable = move_items a.hashpower chain a.primary_hashtable;
        old_hashtable = put_chain a.old_hashtable a.expand_bucket [];
        expand_bucket = a.expand_bucket + 1;
        expanding = not (a.expand_bucket + 1 == hashsize (a.hashpower - 1));
      }

  -- That loop, for the rounds that hash_bulk_move leaves: what the thread does under the lock.
  unfoldable pub maintain : ℕ → Assoc → Assoc
  maintain zero a = a
  maintain (suc rounds) a =
      let rest = maintain rounds (move_bucket a) in if a.expanding then rest else a
