-- ===== src/TopKeys/Counts.antt =====
-- How often the elements of a shard's storage have been accessed, at most.
use memcached.TopKeys.{Topkey, get_elem?, set_elem}
use memcached.Common.{ℕ, zero, suc, ◌≤◌, ◌≡◌, some, List, [], ◌∷◌, All, arith}

-- No element has been accessed more than `n` times.
abbrev pub CountsUpTo : ℕ → List Topkey → Type 0
CountsUpTo n storage = All (λ t. t.ti_access_count ≤ n) storage

pub CountsUpTo-weaken :
    (storage : List Topkey) {m n : ℕ} → m ≤ n → CountsUpTo m storage → CountsUpTo n storage
CountsUpTo-weaken [] le counts = tt
CountsUpTo-weaken (t ∷ storage) le counts =
    (omega (arith, counts.0), CountsUpTo-weaken storage le counts.1)

pub CountsUpTo-get_elem? :
    {n : ℕ} (storage : List Topkey) (i : ℕ) {t : Topkey}
    → CountsUpTo n storage
    → get_elem? storage i ≡ some t
    → t.ti_access_count ≤ n
unfolding get_elem?
CountsUpTo-get_elem? [] i counts got = cc
CountsUpTo-get_elem? {n = n} (t ∷ storage) zero counts got = ground (arith, counts.0)
CountsUpTo-get_elem? (t ∷ storage) (suc i) counts got = CountsUpTo-get_elem? storage i counts.1 got

pub CountsUpTo-set_elem :
    {n : ℕ} (storage : List Topkey) (i : ℕ) (t : Topkey)
    → CountsUpTo n storage
    → t.ti_access_count ≤ n
    → CountsUpTo n (set_elem storage i t)
unfolding set_elem
CountsUpTo-set_elem [] i t counts new = tt
CountsUpTo-set_elem (u ∷ storage) zero t counts new = (new, counts.1)
CountsUpTo-set_elem (u ∷ storage) (suc i) t counts new =
    (counts.0, CountsUpTo-set_elem storage i t counts.1 new)
