-- ===== src/Histogram/Counted.antt =====
-- Every time is counted_all once, in an array's element that exists and whose range it falls in.
use memcached.Histogram.{Histogram, reset, add, plus}
use memcached.Common.{ℕ, ◌+◌, ◌%◌, ◌^◌, ◌≡◌, some, List, [], ◌∷◌, length}

abbrev pub sum : List ℕ → ℕ
sum [] = 0
sum (x ∷ xs) = x + sum xs

abbrev pub counted_all : Histogram → ℕ
counted_all h = h.ns + sum h.usec + sum h.msec + sum h.halfsec + sum h.wayout

-- The arrays have their sizes, and the counters together are the total, as far as 32 bits go.
pub record IsCounted (h : Histogram) : Type 0 where
  pub usec_size : length h.usec ≡ 100
  pub msec_size : length h.msec ≡ 50
  pub halfsec_size : length h.halfsec ≡ 10
  pub wayout_size : length h.wayout ≡ 5
  pub all : counted_all h % 2 ^ 32 ≡ h.total % 2 ^ 32

-- The histograms that are made of a new one by adding times and other such histograms.
pub data Made : Histogram → Type 0 where
  new : Made reset
  added : (h h' : Histogram) (nsec : ℕ) → Made h → add nsec h ≡ some h' → Made h'
  merged : (h other : Histogram) → Made h → Made other → Made (plus h other)
