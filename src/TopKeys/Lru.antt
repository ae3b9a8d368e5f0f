-- ===== src/TopKeys/Lru.antt =====
-- The words that the theorems on a shard's list are stated in.
use memcached.TopKeys.{◌>>=◌}
use memcached.Common.{
  ℕ, zero, suc, ◌≡◌, Bool, false, ◌||◌, ◌==◌, if◌then◌else◌, Option, none, some, List, [], ◌∷◌,
}

unfoldable pub mem : ℕ → List ℕ → Bool
mem i [] = false
mem i (j ∷ list) = j == i || mem i list

abbrev pub Nodup : List ℕ → Type 0
Nodup [] = Unit
Nodup (i ∷ list) = (mem i list ≡ false) × Nodup list

-- The list without what lies behind its first `n` elements.
unfoldable pub cut {ℓ} : {A : Type ℓ} → ℕ → List A → List A
cut n [] = []
cut zero (x ∷ shown) = []
cut (suc n) (x ∷ shown) = x ∷ cut n shown

-- The first element that passes the test, and the list without it.
unfoldable pub extract {ℓ} : {A : Type ℓ} → (A → Bool) → List A → Option (A × List A)
extract p [] = none
extract p (x ∷ xs) =
    let rest = extract p xs in if p x then some (x, xs) else do (y, ys) ← rest; some (y, x ∷ ys)
