-- ===== src/Engine/Assoc/Move.antt =====
-- A round of the maintenance thread of engines/default_engine/assoc.c: the items of one chain are moved to
-- the chains of the larger table.
use memcached.Engine.Assoc.{
  HashItem, HashTable, hashsize, chain_find, put_chain, move_items, same_hash_key,
}
use memcached.Engine.Assoc.Chains.{
  Distinct, same_hash_key_cases, same_hash_key_self, chain_find-head, chain_find-tail,
  same_hash_key_iff,
}
use memcached.Common.{
  ℕ, zero, suc, ◌-◌, ◌%◌, ◌^◌, ◌<◌, ◌≡◌, refl, sym, ◌∙◌, ap, subst, ◌≢◌, inl, inr, ◌==◌, ==_iff,
  ==_false, Bool-cases, Option, none, some, List, [], ◌∷◌, All, arith, false,
}
use native.Mathlib.Nat.{pow-suc, mod-mod_of_dvd, dvd-mul_right}

pub hashsize_pos : (n : ℕ) → 0 < hashsize n
unfolding hashsize
hashsize_pos zero = omega arith
hashsize_pos (suc n) = omega (arith, hashsize_pos n, pow-suc 2 n)

-- The bucket of the table that was half as large.
pub half_bucket :
    (hash n : ℕ) → 0 < n → hash % hashsize n % hashsize (n - 1) ≡ hash % hashsize (n - 1)
unfolding hashsize
half_bucket hash zero h = elim h [ ]
half_bucket hash (suc n) h =
    let before : suc n - 1 ≡ n = omega arith in
    rw (before, pow-suc 2 n) (mod-mod_of_dvd (2 ^ n) hash (dvd-mul_right (2 ^ n) 2))

-- What holds of the new chain at its place, and of the others at theirs, holds everywhere.
pub put_chain_all {κ} :
    (P : ℕ → List HashItem → Type κ) (table : HashTable) (bucket : ℕ) (chain : List HashItem)
    → P bucket chain
    → ((i : ℕ) → P i (table i))
    → (i : ℕ) → P i (put_chain table bucket chain i)
unfolding put_chain
put_chain_all P table bucket chain new old i = elim (Bool-cases (i == bucket)) [
  | inl here ↦ rw here (subst (λ b. P b chain) (sym ((==_iff i bucket).0 here)) new)
  | inr elsewhere ↦ rw elsewhere (old i)
]

pub put_chain_self :
    (table : HashTable) (bucket : ℕ) (chain : List HashItem)
    → put_chain table bucket chain bucket ≡ chain
unfolding put_chain
put_chain_self table bucket chain = rw ((==_iff bucket bucket).1 refl)

pub put_chain_ne :
    (table : HashTable) (bucket : ℕ) (chain : List HashItem) {i : ℕ}
    → i ≢ bucket
    → put_chain table bucket chain i ≡ table i
unfolding put_chain
put_chain_ne table bucket chain {i} ne = rw (==_false {a = i} {b = bucket} ne)

abbrev pub or_else : Option HashItem → Option HashItem → Option HashItem
or_else none found = found
or_else (some it) found = some it

module _ (crc32c : List ℕ → ℕ) (hashpower : ℕ) where
  abbrev pub place : List ℕ → ℕ
  place key = crc32c key % hashsize hashpower

  abbrev push : HashItem → HashTable → HashTable
  push it table = put_chain table (place it.key) (it ∷ table (place it.key))

  -- Where no item belongs, the chain stays.
  pub move_items_elsewhere :
      (chain : List HashItem) (table : HashTable) (b : ℕ)
      → All (λ it. b ≢ place it.key) chain
      → move_items crc32c hashpower chain table b ≡ table b
  unfolding move_items
  move_items_elsewhere [] table b ne = refl
  move_items_elsewhere (it ∷ chain) table b ne =
      move_items_elsewhere chain (push it table) b ne.1 ∙ put_chain_ne table (place it.key) _ ne.0

  chain_find-push_self :
      (it : HashItem) (table : HashTable)
      → chain_find it.key (push it table (place it.key)) ≡ some it
  chain_find-push_self it table = rw (put_chain_self table (place it.key)) (chain_find-head it _)

  -- Pushing an item changes what is found under its key only.
  chain_find-push_other :
      (k : List ℕ) (it : HashItem) (table : HashTable) (b : ℕ)
      → k ≢ it.key
      → chain_find k (push it table b) ≡ chain_find k (table b)
  chain_find-push_other k it table b ne =
      put_chain_all (λ i chain. chain_find k chain ≡ chain_find k (table i)) table (place it.key)
        (it ∷ table (place it.key))
        (elim (same_hash_key_cases k it.key) [
          | inl same ↦ absurd (ne same)
          | inr other ↦ chain_find-tail k it (table (place it.key)) other
        ])
        (λ i. refl) b

  -- A key of the chain is found in the table afterwards, and every other as before.
  pub chain_find-move_items :
      (k : List ℕ) (chain : List HashItem) (table : HashTable)
      → Distinct chain
      → chain_find k (move_items crc32c hashpower chain table (place k))
        ≡ or_else (chain_find k chain) (chain_find k (table (place k)))
  unfolding move_items chain_find
  chain_find-move_items k [] table d = refl
  chain_find-move_items k (it ∷ chain) table d =
      chain_find-move_items k chain (push it table) d.1 ∙ elim (same_hash_key_cases k it.key) [
        | inl same ↦ rw (same, d.0, same_hash_key_self it.key) (chain_find-push_self it table)
        | inr other ↦ rw other (
            ap (or_else (chain_find k chain))
              (chain_find-push_other k it table (place k) (different k it other)))
      ]
    where
      different : (k : List ℕ) (it : HashItem) → same_hash_key k it.key ≡ false → k ≢ it.key
      different k it other e = cc (other, (same_hash_key_iff k it.key).1 e)

  -- Every item stands in the bucket of its key.
  abbrev pub Placed : HashTable → Type 0
  Placed table = (b : ℕ) → All (λ it. place it.key ≡ b) (table b)

  abbrev pub AllDistinct : HashTable → Type 0
  AllDistinct table = (b : ℕ) → Distinct (table b)

  pub move_items-Placed :
      (chain : List HashItem) (table : HashTable)
      → Placed table
      → Placed (move_items crc32c hashpower chain table)
  unfolding move_items
  move_items-Placed [] table placed = placed
  move_items-Placed (it ∷ chain) table placed = move_items-Placed chain (push it table) (
      put_chain_all (λ i l. All (λ it'. place it'.key ≡ i) l) table (place it.key)
        (it ∷ table (place it.key)) (refl, placed (place it.key)) placed)

  abbrev pub AllNew : HashTable → List HashItem → Type 0
  AllNew table = All (λ it. chain_find it.key (table (place it.key)) ≡ none)

  AllNew-push :
      (it : HashItem) (chain : List HashItem) (table : HashTable)
      → chain_find it.key chain ≡ none
      → AllNew table chain
      → AllNew (push it table) chain
  unfolding chain_find
  AllNew-push it [] table new fresh = tt
  AllNew-push it (j ∷ chain) table new fresh = elim (same_hash_key_cases it.key j.key) [
    | inl same ↦ cc (new, chain_find-head j chain, same)
    | inr other ↦ (
      chain_find-push_other j.key it table (place j.key)
            (λ e. cc (other, (same_hash_key_iff it.key j.key).1 (sym e)))
          ∙ fresh.0,
      AllNew-push it chain table (rw other at new) fresh.1,
    )
  ]

  pub move_items-AllDistinct :
      (chain : List HashItem) (table : HashTable)
      → AllDistinct table
      → Distinct chain
      → AllNew table chain
      → AllDistinct (move_items crc32c hashpower chain table)
  unfolding move_items
  move_items-AllDistinct [] table distinct d fresh = distinct
  move_items-AllDistinct (it ∷ chain) table distinct d fresh =
      move_items-AllDistinct chain (push it table)
        (put_chain_all (λ i l. Distinct l) table (place it.key) (it ∷ table (place it.key))
          (fresh.0, distinct (place it.key)) distinct)
        d.1 (AllNew-push it chain table d.0 fresh.1)
