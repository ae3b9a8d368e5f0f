-- ===== src/TopKeys/Distinct.antt =====
-- No two elements of a shard's storage have the same key.
use memcached.TopKeys.{Topkey, matches, fresh_topkey, counted, get_elem?, set_elem, same_key}
use memcached.TopKeys.Storage.{append-cases, get_elem?-set_elem, get_elem?-set_elem_ne}
use memcached.Common.{
  ℕ, ◌<◌, ◌≡◌, refl, sym, ◌∙◌, inl, inr, Bool, true, false, ◌==◌, ==_iff, and-true, ap₂, Bool-cases,
  some, List, [], ◌∷◌, ◌++◌, length, arith,
}

-- No two elements have the same key.
abbrev pub Distinct : List Topkey → Type 0
Distinct storage =
    (key_hash : ℕ) (key : List ℕ) (i j : ℕ) (t u : Topkey)
    → get_elem? storage i ≡ some t
    → get_elem? storage j ≡ some u
    → matches key_hash key t ≡ true
    → matches key_hash key u ≡ true
    → i ≡ j

-- An element with the key of `t` can only stand at `i`.
abbrev pub Alone : List Topkey → ℕ → Topkey → Type 0
Alone storage i t =
    (key_hash : ℕ) (key : List ℕ) (j : ℕ) (u : Topkey)
    → get_elem? storage j ≡ some u
    → matches key_hash key t ≡ true
    → matches key_hash key u ≡ true
    → j ≡ i

pub Distinct-set_elem :
    (storage : List Topkey) (i : ℕ) (t : Topkey)
    → i < length storage
    → Alone storage i t
    → Distinct storage
    → Distinct (set_elem storage i t)
Distinct-set_elem storage i t inside alone distinct h k j j' u u' got got' same same' =
    elim (Bool-cases (i == j)) [
      | inl e ↦ elim (Bool-cases (i == j')) [
        | inl e' ↦ sym ((==_iff i j).0 e) ∙ (==_iff i j').0 e'
        | inr n' ↦
            sym ((==_iff i j).0 e)
            ∙ sym (alone h k j' u' (sym (kept j' n') ∙ got') (front j u e got same) same')
      ]
      | inr n ↦ elim (Bool-cases (i == j')) [
        | inl e' ↦
            alone h k j u (sym (kept j n) ∙ got) (front j' u' e' got' same') same
            ∙ (==_iff i j').0 e'
        | inr n' ↦
            distinct h k j j' u u' (sym (kept j n) ∙ got) (sym (kept j' n') ∙ got') same same'
      ]
    ]
  where
    kept : (j : ℕ) → (i == j) ≡ false → get_elem? (set_elem storage i t) j ≡ get_elem? storage j
    kept j n = get_elem?-set_elem_ne storage i j t (ground arith)

    front :
        (j : ℕ) (u : Topkey)
        → (i == j) ≡ true
        → get_elem? (set_elem storage i t) j ≡ some u
        → matches h k u ≡ true
        → matches h k t ≡ true
    front j u e got same =
        let here : get_elem? (set_elem storage i t) j ≡ some t =
          rw (← (==_iff i j).0 e) (get_elem?-set_elem storage i t inside) in
        let equal : t ≡ u = cc in rw equal same

pub same_key-eq : (xs ys : List ℕ) → same_key xs ys ≡ true → xs ≡ ys
unfolding same_key
same_key-eq [] [] h = refl
same_key-eq [] (b ∷ ys) h = cc
same_key-eq (a ∷ xs) [] h = cc
same_key-eq (a ∷ xs) (b ∷ ys) h =
    let (first, others) = and-true (a == b) (same_key xs ys) h in
    ap₂ (λ x l. x ∷ l) ((==_iff a b).0 first) (same_key-eq xs ys others)

-- Where no stored element hxs the key, none hxs the key of its new element.
pub absent_absurd :
    (storage : List Topkey) (key_hash : ℕ) (key : List ℕ) (ct : ℕ)
    → ((j : ℕ) (u : Topkey) → get_elem? storage j ≡ some u → matches key_hash key u ≡ false)
    → (h : ℕ) (k : List ℕ) (j : ℕ) (u : Topkey) → get_elem? storage j ≡ some u
    → matches h k (counted (fresh_topkey key_hash key ct)) ≡ true
    → matches h k u ≡ true
    → ⊥
unfolding matches fresh_topkey
absent_absurd storage key_hash key ct absent h k j u at mine theirs =
    let (hashes, keys) = and-true (key_hash == h) (same_key key k) mine in
    let e : key_hash ≡ h = (==_iff key_hash h).0 hashes in
    let e' : key ≡ k = same_key-eq key k keys in
    let fails : matches h k u ≡ false = rw (← e, ← e') (absent j u at) in
    absurd (bool_absurd (matches h k u) theirs fails)
  where
    bool_absurd : (b : Bool) → b ≡ true → b ≡ false → ⊥
    bool_absurd true t f = absurd cc
    bool_absurd false t f = absurd cc

module _ (storage : List Topkey) (key_hash : ℕ) (key : List ℕ) (ct : ℕ)
    (absent : (j : ℕ) (u : Topkey)
      → get_elem? storage j ≡ some u
      → matches key_hash key u ≡ false) where
  abbrev pub blank : Topkey
  blank = fresh_topkey key_hash key ct

  pub Alone-append : Alone (storage ++ blank ∷ []) (length storage) (counted blank)
  Alone-append h k j u at mine theirs = elim (append-cases storage blank j at) [
    | inl before ↦ absurd (absent_absurd storage key_hash key ct absent h k j u before mine theirs)
    | inr last ↦ last.0
  ]

  pub Distinct-append : Distinct storage → Distinct (storage ++ blank ∷ [])
  unfolding matches
  Distinct-append distinct h k i j t u at at' same same' = elim (append-cases storage blank i at) [
    | inl before ↦ elim (append-cases storage blank j at') [
      | inl before' ↦ distinct h k i j t u before before' same same'
      | inr last' ↦
          absurd (
            absent_absurd storage key_hash key ct absent h k i t before (rw (← last'.1) same') same)
    ]
    | inr last ↦ elim (append-cases storage blank j at') [
      | inl before' ↦
          absurd (
            absent_absurd storage key_hash key ct absent h k j u before' (rw (← last.1) same) same')
      | inr last' ↦ last.0 ∙ sym last'.0
    ]
  ]
