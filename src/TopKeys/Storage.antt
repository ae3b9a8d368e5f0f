-- ===== src/TopKeys/Storage.antt =====
-- Lemmas on reading and writing the elements of a shard's storage, and on searching it.
use memcached.TopKeys.{Topkey, matches, search_for_key, get_elem?, set_elem}
use memcached.Common.{
  ℕ, zero, suc, ◌+◌, ◌≤◌, ◌<◌, ◌≡◌, refl, ap, ◌≢◌, ◌⊎◌, inl, inr, true, false, Bool-cases, none,
  some, List, [], ◌∷◌, ◌++◌, length, arith,
}
use memcached.TopKeys.Lru.{cut}

module _ {ℓ} {A : Type ℓ} where
  pub cut_all : (shown : List A) (n : ℕ) → length shown ≤ n → cut n shown ≡ shown
  unfolding cut
  cut_all [] n small = refl
  cut_all (t ∷ shown) zero small = absurd (omega arith)
  cut_all (t ∷ shown) (suc n) small = ap (◌∷◌ t) (cut_all shown n (omega arith))

  pub get_elem?-lt : (xs : List A) (i : ℕ) {x : A} → get_elem? xs i ≡ some x → i < length xs
  unfolding get_elem?
  get_elem?-lt [] i h = cc
  get_elem?-lt (x ∷ xs) zero h = omega arith
  get_elem?-lt (x ∷ xs) (suc i) h = omega (arith, get_elem?-lt xs i h)

  pub get_elem?_of_lt : (xs : List A) (i : ℕ) → i < length xs → (x : A) × (get_elem? xs i ≡ some x)
  unfolding get_elem?
  get_elem?_of_lt [] i h = absurd (omega arith)
  get_elem?_of_lt (x ∷ xs) zero h = (x, refl)
  get_elem?_of_lt (x ∷ xs) (suc i) h = get_elem?_of_lt xs i (omega arith)

  pub length-set_elem : (xs : List A) (i : ℕ) (y : A) → length (set_elem xs i y) ≡ length xs
  unfolding set_elem
  length-set_elem [] i y = refl
  length-set_elem (x ∷ xs) zero y = refl
  length-set_elem (x ∷ xs) (suc i) y = ap suc (length-set_elem xs i y)

  pub get_elem?-set_elem :
      (xs : List A) (i : ℕ) (y : A) → i < length xs → get_elem? (set_elem xs i y) i ≡ some y
  unfolding get_elem? set_elem
  get_elem?-set_elem [] i y h = absurd (omega arith)
  get_elem?-set_elem (x ∷ xs) zero y h = refl
  get_elem?-set_elem (x ∷ xs) (suc i) y h = get_elem?-set_elem xs i y (omega arith)

  pub get_elem?-set_elem_ne :
      (xs : List A) (i j : ℕ) (y : A) → i ≢ j → get_elem? (set_elem xs i y) j ≡ get_elem? xs j
  unfolding get_elem? set_elem
  get_elem?-set_elem_ne [] i j y h = refl
  get_elem?-set_elem_ne (x ∷ xs) zero zero y h = absurd (h refl)
  get_elem?-set_elem_ne (x ∷ xs) zero (suc j) y h = refl
  get_elem?-set_elem_ne (x ∷ xs) (suc i) zero y h = refl
  get_elem?-set_elem_ne (x ∷ xs) (suc i) (suc j) y h =
      get_elem?-set_elem_ne xs i j y (λ e. h (ap suc e))

  pub set_elem-set_elem :
      (xs : List A) (i : ℕ) (y z : A) → set_elem (set_elem xs i y) i z ≡ set_elem xs i z
  unfolding set_elem
  set_elem-set_elem [] i y z = refl
  set_elem-set_elem (x ∷ xs) zero y z = refl
  set_elem-set_elem (x ∷ xs) (suc i) y z = ap (◌∷◌ x) (set_elem-set_elem xs i y z)

  pub get_elem?-append :
      (xs ys : List A) (i : ℕ) → i < length xs → get_elem? (xs ++ ys) i ≡ get_elem? xs i
  unfolding get_elem?
  get_elem?-append [] ys i h = absurd (omega arith)
  get_elem?-append (x ∷ xs) ys zero h = refl
  get_elem?-append (x ∷ xs) ys (suc i) h = get_elem?-append xs ys i (omega arith)

  pub get_elem?-append_end : (xs : List A) (y : A) → get_elem? (xs ++ y ∷ []) (length xs) ≡ some y
  unfolding get_elem?
  get_elem?-append_end [] y = refl
  get_elem?-append_end (x ∷ xs) y = get_elem?-append_end xs y

  pub append-cases :
      (xs : List A) (y : A) (i : ℕ) {x : A}
      → get_elem? (xs ++ y ∷ []) i ≡ some x
      → (get_elem? xs i ≡ some x) ⊎ ((i ≡ length xs) × (x ≡ y))
  unfolding get_elem?
  append-cases [] y zero h = inr (refl, cc)
  append-cases [] y (suc i) h = cc
  append-cases (x ∷ xs) y zero h = inl h
  append-cases (x ∷ xs) y (suc i) h = elim (append-cases xs y i h) [
    | inl before ↦ inl before
    | inr last ↦ inr (ap suc last.0, last.1)
  ]

module _ (key_hash : ℕ) (key : List ℕ) where
  pub search-none_cons :
      (start : ℕ) (u : Topkey) (storage : List Topkey)
      → search_for_key key_hash key start (u ∷ storage) ≡ none
      → (matches key_hash key u ≡ false) × (search_for_key key_hash key (suc start) storage ≡ none)
  unfolding search_for_key
  search-none_cons start u storage h = elim (Bool-cases (matches key_hash key u)) [
    | inl same ↦ absurd (ground arith)
    | inr other ↦ (other, ground arith)
  ]

  pub search-none :
      (start : ℕ) (storage : List Topkey) (i : ℕ) {t : Topkey}
      → search_for_key key_hash key start storage ≡ none
      → get_elem? storage i ≡ some t
      → matches key_hash key t ≡ false
  unfolding search_for_key get_elem?
  search-none start [] i h g = cc
  search-none start (u ∷ storage) zero {t} h g =
      let same : u ≡ t = cc in rw (← same) (search-none_cons start u storage h).0
  search-none start (u ∷ storage) (suc i) h g =
      search-none (suc start) storage i (search-none_cons start u storage h).1 g

  pub search-some :
      (start : ℕ) (storage : List Topkey) (found : ℕ)
      → search_for_key key_hash key start storage ≡ some found
      → (i : ℕ) × (t : Topkey) × (found ≡ start + i)
        × (get_elem? storage i ≡ some t)
        × (matches key_hash key t ≡ true)
  unfolding search_for_key get_elem?
  search-some start [] found h = cc
  search-some start (u ∷ storage) found h = elim (Bool-cases (matches key_hash key u)) [
    | inl same ↦ (0, u, ground arith, refl, same)
    | inr other ↦
        let (i, t, at, got, same) = search-some (suc start) storage found (ground arith) in
        (suc i, t, omega arith, got, same)
  ]
