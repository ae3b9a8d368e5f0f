-- ===== src/Histogram/Ranges.antt =====
-- The element of an array that a time is counted in exists, and its range has the time.
use memcached.Histogram.{
  Bucket, in_ns, in_usec, in_msec, in_halfsec, in_wayout, wayout_of, bucket_of,
}
use memcached.Common.{
  ℕ, ◌+◌, ◌*◌, ◌/◌, ◌^◌, ◌≤◌, ◌<◌, ◌≡◌, refl, ◌⊎◌, inl, inr, false, ltb, ◌==◌, Bool-cases, ltb→lt,
  ==_iff, arith,
}

-- The element exists, and its range, in microseconds or milliseconds or seconds, has the time. The first
-- element of `halfsec` starts at 50 ms.
abbrev pub InRange : ℕ → Bucket → Type 0
InRange nsec in_ns = nsec < 1000
InRange nsec (in_usec i) = (i < 100) × (i * 10 ≤ nsec / 1000) × (nsec / 1000 < (i + 1) * 10)
InRange nsec (in_msec i) = (i < 50) × (0 < i) × (i ≤ nsec / 1000000) × (nsec / 1000000 < i + 1)
InRange nsec (in_halfsec i) =
    (i < 10) × (50 ≤ nsec / 1000000) × (i * 500 ≤ nsec / 1000000) × (nsec / 1000000 < (i + 1) * 500)
InRange nsec (in_wayout i) =
    (i < 5) × (5 * 2 ^ i ≤ nsec / 1000000000) × ((i ≡ 4) ⊎ (nsec / 1000000000 < 10 * 2 ^ i))

wayout-InRange :
    (nsec : ℕ)
    → ltb (nsec / 1000 / 1000 / 500) 10 ≡ false
    → InRange nsec (wayout_of (nsec / 1000 / 1000 / 500 / 2))
unfolding wayout_of
wayout-InRange nsec n =
    let sec = nsec / 1000 / 1000 / 500 / 2 in
    let low : 10 ≤ nsec / 1000 / 1000 / 500 = ground arith in
    elim (Bool-cases (ltb sec 10)) [
      | inl e ↦ rw e (omega arith, omega arith, inr (let lt = ltb→lt sec 10 e in omega arith))
      | inr n0 ↦ elim (Bool-cases (ltb sec 20)) [
        | inl e ↦
            rw (n0, e)
              (
                omega arith,
                (let le : 10 ≤ sec = ground arith in omega arith),
                inr (let lt = ltb→lt sec 20 e in omega arith),
              )
        | inr n1 ↦ elim (Bool-cases (ltb sec 40)) [
          | inl e ↦
              rw (n0, n1, e)
                (
                  omega arith,
                  (let le : 20 ≤ sec = ground arith in omega arith),
                  inr (let lt = ltb→lt sec 40 e in omega arith),
                )
          | inr n2 ↦ elim (Bool-cases (ltb sec 80)) [
            | inl e ↦
                rw (n0, n1, n2, e)
                  (
                    omega arith,
                    (let le : 40 ≤ sec = ground arith in omega arith),
                    inr (let lt = ltb→lt sec 80 e in omega arith),
                  )
            | inr n3 ↦
                rw (n0, n1, n2, n3)
                  (omega arith, (let le : 80 ≤ sec = ground arith in omega arith), inl refl)
          ]
        ]
      ]
    ]

pub bucket_of-InRange : (nsec : ℕ) → InRange nsec (bucket_of nsec)
unfolding bucket_of
bucket_of-InRange nsec = elim (Bool-cases (nsec / 1000 == 0)) [
  | inl e ↦ rw e (let none_yet = (==_iff _ _).0 e in omega arith)
  | inr n0 ↦ elim (Bool-cases (ltb (nsec / 1000) 1000)) [
    | inl e ↦ rw (n0, e) ((let lt = ltb→lt _ _ e in omega arith), omega arith, omega arith)
    | inr n1 ↦
        let us : 1000 ≤ nsec / 1000 = ground arith in
        elim (Bool-cases (ltb (nsec / 1000 / 1000) 50)) [
          | inl e ↦ rw (n0, n1, e) (ltb→lt _ _ e, omega arith, omega arith, omega arith)
          | inr n2 ↦
              let ms : 50 ≤ nsec / 1000 / 1000 = ground arith in
              elim (Bool-cases (ltb (nsec / 1000 / 1000 / 500) 10)) [
                | inl e ↦ rw (n0, n1, n2, e) (ltb→lt _ _ e, omega arith, omega arith, omega arith)
                | inr n3 ↦ rw (n0, n1, n2, n3) (wayout-InRange nsec n3)
              ]
        ]
  ]
]
