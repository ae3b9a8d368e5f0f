-- ===== src/Engine/Assoc/Chains.antt =====
-- Chains of the default engine's hash table, engines/default_engine/assoc.c: finding and deleting by key.
use memcached.Engine.Assoc.{HashItem, same_bytes, same_hash_key, chain_find, chain_delete}
use memcached.Common.{
  ◌+◌, ℕ, ◌≡◌, refl, sym, ◌∙◌, ap, ap₂, ◌≢◌, ◌↔◌, ◌⊎◌, inl, inr, true, false, ◌&&◌, ◌==◌, ==_iff,
  and-true, Bool-cases, if◌then◌else◌, none, some, List, [], ◌∷◌, length, All, arith,
}

same_bytes-eq :
    (xs ys : List ℕ) → length xs ≡ length ys → same_bytes (length xs) xs ys ≡ true → xs ≡ ys
unfolding same_bytes
same_bytes-eq [] [] l h = refl
same_bytes-eq [] (y ∷ ys) l h = absurd (omega arith)
same_bytes-eq (x ∷ xs) [] l h = absurd (omega arith)
same_bytes-eq (x ∷ xs) (y ∷ ys) l h =
    let (first, others) = and-true (x == y) (same_bytes (length xs) xs ys) h in
    ap₂ (λ a l. a ∷ l) ((==_iff x y).0 first) (same_bytes-eq xs ys (omega arith) others)

same_bytes_self : (xs : List ℕ) → same_bytes (length xs) xs xs ≡ true
unfolding same_bytes
same_bytes_self [] = refl
same_bytes_self (x ∷ xs) = rw ((==_iff x x).1 refl) (same_bytes_self xs)

-- The keys are compared byte by byte.
pub same_hash_key_iff : (key it_key : List ℕ) → (same_hash_key key it_key ≡ true) ↔ (key ≡ it_key)
unfolding same_hash_key
same_hash_key_iff key it_key = (to, from)
  where
    to : (length key == length it_key && same_bytes (length key) key it_key) ≡ true → key ≡ it_key
    to h =
        let (lengths, bytes) = and-true (length key == length it_key) _ h in
        same_bytes-eq key it_key ((==_iff (length key) (length it_key)).0 lengths) bytes

    from : key ≡ it_key → (length key == length it_key && same_bytes (length key) key it_key) ≡ true
    from e = rw (← e, (==_iff (length key) (length key)).1 refl) (same_bytes_self key)

pub same_hash_key_self : (key : List ℕ) → same_hash_key key key ≡ true
same_hash_key_self key = (same_hash_key_iff key key).1 refl

pub same_hash_key-false : {k j : List ℕ} → k ≢ j → same_hash_key k j ≡ false
same_hash_key-false {k} {j} ne = elim (Bool-cases (same_hash_key k j)) [
  | inl same ↦ absurd (ne ((same_hash_key_iff k j).0 same))
  | inr other ↦ other
]

pub same_hash_key_cases : (k j : List ℕ) → (k ≡ j) ⊎ (same_hash_key k j ≡ false)
same_hash_key_cases k j = elim (Bool-cases (same_hash_key k j)) [
  | inl same ↦ inl ((same_hash_key_iff k j).0 same)
  | inr other ↦ inr other
]

-- No key twice.
abbrev pub Distinct : List HashItem → Type 0
Distinct [] = Unit
Distinct (it ∷ chain) = (chain_find it.key chain ≡ none) × Distinct chain

pub chain_find-head :
    (it : HashItem) (chain : List HashItem) → chain_find it.key (it ∷ chain) ≡ some it
unfolding chain_find
chain_find-head it chain = rw (same_hash_key_self it.key)

pub chain_find-tail :
    (key : List ℕ) (it : HashItem) (chain : List HashItem)
    → same_hash_key key it.key ≡ false
    → chain_find key (it ∷ chain) ≡ chain_find key chain
unfolding chain_find
chain_find-tail key it chain other = rw other

pub chain_find-delete_self :
    (key : List ℕ) (chain : List HashItem)
    → Distinct chain
    → chain_find key (chain_delete key chain) ≡ none
unfolding chain_find chain_delete
chain_find-delete_self key [] d = refl
chain_find-delete_self key (it ∷ chain) d = elim (same_hash_key_cases key it.key) [
  | inl same ↦ rw (same, same_hash_key_self it.key) d.0
  | inr other ↦ rw (other, chain_find) (rw other (chain_find-delete_self key chain d.1))
]

pub chain_find-delete_ne :
    (k key : List ℕ) (chain : List HashItem)
    → k ≢ key
    → chain_find k (chain_delete key chain) ≡ chain_find k chain
unfolding chain_find chain_delete
chain_find-delete_ne k key [] ne = refl
chain_find-delete_ne k key (it ∷ chain) ne = elim (same_hash_key_cases key it.key) [
  | inl same ↦ rw (← same, same_hash_key_self key, same_hash_key-false ne)
  | inr other ↦ rw other (
      ap (λ r. if same_hash_key k it.key then some it else r) (chain_find-delete_ne k key chain ne))
]

pub All-chain_delete {κ} :
    (P : HashItem → Type κ) (key : List ℕ) (chain : List HashItem)
    → All P chain
    → All P (chain_delete key chain)
unfolding chain_delete
All-chain_delete P key [] all = tt
All-chain_delete P key (it ∷ chain) all = elim (Bool-cases (same_hash_key key it.key)) [
  | inl same ↦ rw same all.1
  | inr other ↦ rw other (all.0, All-chain_delete P key chain all.1)
]

pub Distinct-chain_delete :
    (key : List ℕ) (chain : List HashItem) → Distinct chain → Distinct (chain_delete key chain)
unfolding chain_delete
Distinct-chain_delete key [] d = tt
Distinct-chain_delete key (it ∷ chain) d = elim (same_hash_key_cases key it.key) [
  | inl same ↦ rw (same, same_hash_key_self it.key) d.1
  | inr other ↦ rw other (
    chain_find-delete_ne it.key key chain
          (λ e. cc (other, (same_hash_key_iff key it.key).1 (sym e)))
        ∙ d.0,
    Distinct-chain_delete key chain d.1,
  )
]

-- What is found has the key.
pub key-chain_find :
    (key : List ℕ) (chain : List HashItem) {it : HashItem}
    → chain_find key chain ≡ some it
    → it.key ≡ key
unfolding chain_find
key-chain_find key [] h = cc
key-chain_find key (it ∷ chain) h = elim (same_hash_key_cases key it.key) [
  | inl same ↦ cc (chain_find-head it chain, same, h)
  | inr other ↦ key-chain_find key chain (rw other at h)
]

-- A key that hashes elsewhere is not found.
pub chain_find_elsewhere :
    (place : List ℕ → ℕ) (b : ℕ) (key : List ℕ) (chain : List HashItem)
    → All (λ it. place it.key ≡ b) chain
    → place key ≢ b
    → chain_find key chain ≡ none
unfolding chain_find
chain_find_elsewhere place b key [] all ne = refl
chain_find_elsewhere place b key (it ∷ chain) all ne =
    rw (same_hash_key-false {k = key} {j = it.key} (λ e. ne (ap place e ∙ all.0)))
      (chain_find_elsewhere place b key chain all.1 ne)

pub length-chain_delete :
    (key : List ℕ) (chain : List HashItem) {it : HashItem}
    → chain_find key chain ≡ some it
    → length (chain_delete key chain) + 1 ≡ length chain
unfolding chain_find chain_delete
length-chain_delete key [] h = cc
length-chain_delete key (it ∷ chain) {it = got} h = elim (Bool-cases (same_hash_key key it.key)) [
  | inl same ↦ rw same (omega arith)
  | inr other ↦ rw other (omega (arith, length-chain_delete key chain {it = got} (rw other at h)))
]

pub ne_of_same_hash_key : {k j : List ℕ} → same_hash_key k j ≡ false → k ≢ j
ne_of_same_hash_key {k} {j} other e = cc (other, (same_hash_key_iff k j).1 e)
