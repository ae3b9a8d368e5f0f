-- ===== src/Sasl/Compare.antt =====
-- cbsasl_secure_compare answers 0 exactly where the two secrets are the same.
use Prim.Native.Nat.{bit_or, bit_xor}
use memcached.Sasl.{int_of_char, compare_loop, cbsasl_secure_compare}
use memcached.Common.Bits.{bit_or-zero, bit_xor-zero, bit_xor_self}
use memcached.Common.{
  ℕ, zero, suc, ◌+◌, ◌%◌, ◌^◌, ◌≤◌, ◌<◌, ◌≡◌, refl, ◌↔◌, inl, inr, true, ltb, Bool-cases, arith,
}

int_of_char-injective : (a b : ℕ) → a < 256 → b < 256 → int_of_char a ≡ int_of_char b → a ≡ b
unfolding int_of_char
int_of_char-injective a b ha hb e = ground arith

-- What the loop has gathered stays.
compare_loop-acc :
    (a b : ℕ → ℕ) (blen left xx bi acc : ℕ) → compare_loop a b blen left xx bi acc ≡ 0 → acc ≡ 0
unfolding compare_loop
compare_loop-acc a b blen zero xx bi acc h = h
compare_loop-acc a b blen (suc left) xx bi acc h =
    (bit_or-zero acc _ (compare_loop-acc a b blen left (xx + 1) _ _ h)).0

-- With equal lengths the two indices go together.
compare_loop-same :
    (a b : ℕ → ℕ) (blen left xx acc : ℕ)
    → xx + left ≡ blen
    → compare_loop a b blen left xx xx acc ≡ 0
    → ((i : ℕ) → a i < 256)
    → ((i : ℕ) → b i < 256)
    → (i : ℕ) → xx ≤ i
    → i < blen
    → a i ≡ b i
unfolding compare_loop
compare_loop-same a b blen zero xx acc e h ha hb i from to = absurd (omega arith)
compare_loop-same a b blen (suc left) xx acc e h ha hb i from to =
    let more : ltb xx blen ≡ true = ground arith in
    let rest : compare_loop a b blen left (xx + 1) (xx + 1)
          (bit_or acc (bit_xor (int_of_char (a xx)) (int_of_char (b xx))))
        ≡ 0 =
      rw more at h in
    elim (Bool-cases (ltb xx i)) [
      | inl later ↦
          compare_loop-same a b blen left (xx + 1) _ (omega arith) rest ha hb i (ground arith) to
      | inr here ↦
          let e' : xx ≡ i = ground arith in
          let gathered = compare_loop-acc a b blen left (xx + 1) (xx + 1) _ rest in
          let differ = (bit_or-zero acc _ gathered).1 in
          rw (← e') (int_of_char-injective (a xx) (b xx) (ha xx) (hb xx) (bit_xor-zero _ _ differ))
    ]

compare_loop-zero :
    (a b : ℕ → ℕ) (blen left xx : ℕ)
    → xx + left ≡ blen
    → ((i : ℕ) → i < blen → a i ≡ b i)
    → compare_loop a b blen left xx xx 0 ≡ 0
unfolding compare_loop
compare_loop-zero a b blen zero xx e same = refl
compare_loop-zero a b blen (suc left) xx e same =
    let more : ltb xx blen ≡ true = ground arith in
    let equal : bit_xor (int_of_char (a xx)) (int_of_char (b xx)) ≡ 0 =
      rw (same xx (omega arith)) (bit_xor_self (int_of_char (b xx))) in
    rw (more, equal) (compare_loop-zero a b blen left (xx + 1) (omega arith) same)

-- For secrets of less than 2^32 bytes, cbsasl_secure_compare answers 0 exactly where their lengths
-- and all their bytes are the same.
pub secure_compare_iff :
    (a b : ℕ → ℕ) (alen blen : ℕ)
    → alen < 2 ^ 32
    → blen < 2 ^ 32
    → ((i : ℕ) → a i < 256)
    → ((i : ℕ) → b i < 256)
    → (cbsasl_secure_compare a alen b blen ≡ 0) ↔ ((alen ≡ blen) × ((i : ℕ) → i < blen → a i ≡ b i))
unfolding cbsasl_secure_compare
secure_compare_iff a b alen blen small small' ha hb = (forward, backward)
  where
    lengths : bit_xor (alen % 2 ^ 32) (blen % 2 ^ 32) ≡ 0 → alen ≡ blen
    lengths e = let same = bit_xor-zero _ _ e in omega arith

    forward :
        cbsasl_secure_compare a alen b blen ≡ 0 → (alen ≡ blen) × ((i : ℕ) → i < blen → a i ≡ b i)
    forward h =
        let e = lengths (compare_loop-acc a b blen alen 0 0 _ h) in
        (e, λ i lt. compare_loop-same a b blen alen 0 _ (omega arith) h ha hb i (omega arith) lt)

    backward :
        (alen ≡ blen) × ((i : ℕ) → i < blen → a i ≡ b i) → cbsasl_secure_compare a alen b blen ≡ 0
    backward (e, same) =
        let start : bit_xor (alen % 2 ^ 32) (blen % 2 ^ 32) ≡ 0 =
          rw e (bit_xor_self (blen % 2 ^ 32)) in
        rw start (compare_loop-zero a b blen alen 0 (omega arith) same)
