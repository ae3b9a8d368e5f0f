-- ===== src/Engine/Assoc/Valid.antt =====
-- The hash table of engines/default_engine/assoc.c before, in and after an expansion: where its items
-- stand, and what its steps find.
use memcached.Engine.Assoc.{
  HashItem, HashTable, Assoc, hashsize, chain_find, in_old, chain_of, set_chain,
}
use memcached.Engine.Assoc.Chains.{Distinct}
use memcached.Engine.Assoc.Move.{put_chain_all, put_chain_self, Placed}
use memcached.Common.{
  ℕ, ◌-◌, ◌%◌, ◌^◌, ◌<◌, ◌≤◌, ◌≡◌, refl, inl, inr, true, ◌&&◌, leb, Bool-cases, if◌then◌else◌,
  Option, List, [], All, arith,
}

module _ (crc32c : List ℕ → ℕ) where
  -- In an expansion the chains of the old table from `expand_bucket` on have not been moved.
  pub record Expanding (a : Assoc) : Type 0 where
    pub positive : 0 < a.hashpower
    pub within : a.expand_bucket < hashsize (a.hashpower - 1)
    pub old_placed : Placed crc32c (a.hashpower - 1) a.old_hashtable
    pub old_distinct : (b : ℕ) → Distinct (a.old_hashtable b)
    pub unmoved :
        (c : ℕ) → a.expand_bucket ≤ c % hashsize (a.hashpower - 1) → a.primary_hashtable c ≡ []

  pub record IsValid (a : Assoc) : Type 0 where
    pub placed : Placed crc32c a.hashpower a.primary_hashtable
    pub distinct : (b : ℕ) → Distinct (a.primary_hashtable b)
    pub growing : a.expanding ≡ true → Expanding a

  -- The item under a key.
  abbrev pub look : Assoc → List ℕ → Option HashItem
  look a key = chain_find key (chain_of a (crc32c key))

  in_old-expanding : (a : Assoc) (hash : ℕ) → in_old a hash ≡ true → a.expanding ≡ true
  unfolding in_old
  in_old-expanding a hash h = ground arith

  pub chain_of-Distinct : (a : Assoc) (hash : ℕ) → IsValid a → Distinct (chain_of a hash)
  unfolding chain_of
  chain_of-Distinct a hash v = elim (Bool-cases (in_old a hash)) [
    | inl old ↦ rw old ((v.growing (in_old-expanding a hash old)).old_distinct _)
    | inr new ↦ rw new (v.distinct _)
  ]

  -- The power of the table that has a hash's chain.
  abbrev pub power_of : Assoc → ℕ → ℕ
  power_of a hash = if in_old a hash then a.hashpower - 1 else a.hashpower

  abbrev pub Belong : Assoc → ℕ → List HashItem → Type 0
  Belong a hash =
      All (λ it. crc32c it.key % hashsize (power_of a hash) ≡ hash % hashsize (power_of a hash))

  pub chain_of-Belong : (a : Assoc) (hash : ℕ) → IsValid a → Belong a hash (chain_of a hash)
  unfolding chain_of
  chain_of-Belong a hash v = elim (Bool-cases (in_old a hash)) [
    | inl old ↦ rw old ((v.growing (in_old-expanding a hash old)).old_placed _)
    | inr new ↦ rw new (v.placed _)
  ]

  pub chain_of-set_chain_self :
      (a : Assoc) (hash : ℕ) (chain : List HashItem)
      → chain_of (set_chain a hash chain) hash ≡ chain
  unfolding chain_of set_chain in_old
  chain_of-set_chain_self a hash chain =
      elim (Bool-cases (a.expanding && leb a.expand_bucket (hash % hashsize (a.hashpower - 1)))) [
        | inl old ↦ rw (old, old) (put_chain_self a.old_hashtable _ chain)
        | inr new ↦ rw (new, new) (put_chain_self a.primary_hashtable _ chain)
      ]

  look_old :
      (k : List ℕ) (a : Assoc) (table : HashTable)
      → ((i : ℕ) → chain_find k (table i) ≡ chain_find k (a.old_hashtable i))
      → look (record a { old_hashtable = table }) k ≡ look a k
  unfolding chain_of in_old
  look_old k a table same = ground (arith, same (crc32c k % 2 ^ (a.hashpower - 1)))

  look_primary :
      (k : List ℕ) (a : Assoc) (table : HashTable)
      → ((i : ℕ) → chain_find k (table i) ≡ chain_find k (a.primary_hashtable i))
      → look (record a { primary_hashtable = table }) k ≡ look a k
  unfolding chain_of in_old
  look_primary k a table same = ground (arith, same (crc32c k % 2 ^ a.hashpower))

  -- A key that is found alike in the new chain is found alike everywhere.
  pub look-set_chain :
      (k : List ℕ) (a : Assoc) (hash : ℕ) (chain : List HashItem)
      → chain_find k chain ≡ chain_find k (chain_of a hash)
      → look (set_chain a hash chain) k ≡ look a k
  unfolding set_chain chain_of
  look-set_chain k a hash chain alike = elim (Bool-cases (in_old a hash)) [
    | inl old ↦ rw old (
        look_old k a _ (
          put_chain_all (λ i l. chain_find k l ≡ chain_find k (a.old_hashtable i)) a.old_hashtable
            (hash % hashsize (a.hashpower - 1)) chain (rw old at alike) (λ i. refl)))
    | inr new ↦ rw new (
        look_primary k a _ (
          put_chain_all (λ i l. chain_find k l ≡ chain_find k (a.primary_hashtable i))
            a.primary_hashtable (hash % hashsize a.hashpower) chain (rw new at alike) (λ i. refl)))
  ]
