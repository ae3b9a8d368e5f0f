-- ===== src/Histogram.antt =====
-- Timings of commands: TimingHistogram of daemon/timing_histogram.h and daemon/timing_histogram.cc. Each
-- counter is atomic; the model takes each operation as one step.
pub mod Ranges
pub mod Counted
use memcached.Common.{
  ℕ, zero, suc, ◌+◌, ◌/◌, ◌%◌, ◌^◌, Bool, true, false, ltb, ◌==◌, if◌then◌else◌, Option, none, some,
  List, [], ◌∷◌,
}

-- The counters are uint32, and `total` is uint64.
pub record Histogram : Type 0 where
  pub ns : ℕ
  pub usec : List ℕ
  pub msec : List ℕ
  pub halfsec : List ℕ
  pub wayout : List ℕ
  pub total : ℕ

abbrev pub zeroes : ℕ → List ℕ
zeroes zero = []
zeroes (suc n) = 0 ∷ zeroes n

unfoldable pub reset : Histogram
reset = record {
  ns = 0;
  usec = zeroes 100;
  msec = zeroes 50;
  halfsec = zeroes 10;
  wayout = zeroes 5;
  total = 0;
}

-- `fetch_add(1)` on an array's element; none is an index outside the array.
unfoldable pub bump : ℕ → List ℕ → Option (List ℕ)
bump i [] = none
bump zero (x ∷ xs) = some ((x + 1) % 2 ^ 32 ∷ xs)
bump (suc i) (x ∷ xs) = elim (bump i xs) [ none ↦ none | some ys ↦ some (x ∷ ys) ]

-- The counter that a time is for.
pub data Bucket : Type 0 where
  in_ns : Bucket
  in_usec in_msec in_halfsec in_wayout : ℕ → Bucket

unfoldable pub wayout_of : ℕ → Bucket
wayout_of sec =
    if ltb sec 10
    then in_wayout 0
    else if ltb sec 20
    then in_wayout 1
    else if ltb sec 40
    then in_wayout 2
    else if ltb sec 80
    then in_wayout 3
    else in_wayout 4

unfoldable pub bucket_of : ℕ → Bucket
unfolding wayout_of
bucket_of nsec =
    let us = nsec / 1000 in
    let ms = us / 1000 in
    let hs = ms / 500 in
    if us == 0
    then in_ns
    else if ltb us 1000
    then in_usec (us / 10)
    else if ltb ms 50
    then in_msec ms
    else if ltb hs 10
    then in_halfsec hs
    else wayout_of (hs / 2)

unfoldable pub count : Bucket → Histogram → Option Histogram
unfolding bump
count in_ns h = some (record h { ns = (h.ns + 1) % 2 ^ 32 })
count (in_usec i) h = elim (bump i h.usec) [ none ↦ none | some xs ↦ some (record h { usec = xs }) ]
count (in_msec i) h = elim (bump i h.msec) [ none ↦ none | some xs ↦ some (record h { msec = xs }) ]
count (in_halfsec i) h = elim (bump i h.halfsec) [
  | none ↦ none
  | some xs ↦ some (record h { halfsec = xs })
]
count (in_wayout i) h = elim (bump i h.wayout) [
  | none ↦ none
  | some xs ↦ some (record h { wayout = xs })
]

-- TimingHistogram::add
unfoldable pub add : ℕ → Histogram → Option Histogram
unfolding bucket_of count
add nsec h = elim (count (bucket_of nsec) h) [
  | none ↦ none
  | some h' ↦ some (record h' { total = (h.total + 1) % 2 ^ 64 })
]

-- The loops of operator+=, over arrays of one size.
unfoldable pub add_all : List ℕ → List ℕ → List ℕ
add_all (x ∷ xs) (y ∷ ys) = (x + y) % 2 ^ 32 ∷ add_all xs ys
add_all xs _ = xs

-- operator+=
unfoldable pub plus : Histogram → Histogram → Histogram
unfolding add_all
plus h other = record {
  ns = (h.ns + other.ns) % 2 ^ 32;
  usec = add_all h.usec other.usec;
  msec = add_all h.msec other.msec;
  halfsec = add_all h.halfsec other.halfsec;
  wayout = add_all h.wayout other.wayout;
  total = (h.total + other.total) % 2 ^ 64;
}
