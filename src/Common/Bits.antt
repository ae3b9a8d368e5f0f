-- ===== src/Common/Bits.antt =====
-- Bounds and zeroes of the native operations on binary digits, by their definition on digits.
use Prim.Native.Nat.{
  ℕ, zero, suc, ◌/◌, ◌%◌, ◌≤◌, min, max, bit_and, bit_or, bit_xor, digits, differ, bit_and-bitwise,
  bit_or-bitwise, bit_xor-bitwise,
}
use mathlib.Core.Path.{◌≡◌, refl}
use native.Mathlib.Omega.{arith}

min-digits-le : (n a b : ℕ) → digits (λ y. 0) min n a b ≤ b
min-digits-le zero a b = omega arith
min-digits-le (suc n) zero b = omega arith
min-digits-le (suc n) (suc a) b = omega (arith, min-digits-le n (suc a / 2) (b / 2))

-- A mask bounds what it leaves.
pub bit_and-le : (a b : ℕ) → bit_and a b ≤ b
bit_and-le a b = omega (arith, bit_and-bitwise a b, min-digits-le a a b)

max-digits-zero : (n a b : ℕ) → a ≤ n → digits (λ y. y) max n a b ≡ 0 → (a ≡ 0) × (b ≡ 0)
max-digits-zero zero zero b h e = (refl, e)
max-digits-zero zero (suc a) b h e = absurd (omega arith)
max-digits-zero (suc n) zero b h e = (refl, e)
max-digits-zero (suc n) (suc a) b h e =
    let rest : digits (λ y. y) max n (suc a / 2) (b / 2) ≡ 0 = omega arith in
    let digit : max (suc a % 2) (b % 2) ≡ 0 = omega arith in
    let halves = max-digits-zero n (suc a / 2) (b / 2) (omega arith) rest in
    omega (arith, halves.0, halves.1)

-- Only two zeroes have no bit set between them.
pub bit_or-zero : (a b : ℕ) → bit_or a b ≡ 0 → (a ≡ 0) × (b ≡ 0)
bit_or-zero a b e = max-digits-zero a a b (omega arith) (omega (arith, bit_or-bitwise a b))

differ-zero : (x y : ℕ) → differ x y ≡ 0 → x ≡ y
differ-zero zero y h = omega arith
differ-zero (suc x) zero h = absurd (omega arith)
differ-zero (suc x) (suc y) h = omega (arith, differ-zero x y h)

differ-digits-zero : (n a b : ℕ) → a ≤ n → digits (λ y. y) differ n a b ≡ 0 → a ≡ b
differ-digits-zero zero zero b h e = omega arith
differ-digits-zero zero (suc a) b h e = absurd (omega arith)
differ-digits-zero (suc n) zero b h e = omega arith
differ-digits-zero (suc n) (suc a) b h e =
    let rest : digits (λ y. y) differ n (suc a / 2) (b / 2) ≡ 0 = omega arith in
    let digit : differ (suc a % 2) (b % 2) ≡ 0 = omega arith in
    omega (
      arith,
      differ-digits-zero n (suc a / 2) (b / 2) (omega arith) rest,
      differ-zero (suc a % 2) (b % 2) digit,
    )

-- Only equal numbers differ in no bit.
pub bit_xor-zero : (a b : ℕ) → bit_xor a b ≡ 0 → a ≡ b
bit_xor-zero a b e = differ-digits-zero a a b (omega arith) (omega (arith, bit_xor-bitwise a b))

differ_self : (x : ℕ) → differ x x ≡ 0
differ_self zero = refl
differ_self (suc x) = differ_self x

differ-digits_self : (n a : ℕ) → a ≤ n → digits (λ y. y) differ n a a ≡ 0
differ-digits_self zero zero h = refl
differ-digits_self zero (suc a) h = absurd (omega arith)
differ-digits_self (suc n) zero h = refl
differ-digits_self (suc n) (suc a) h =
    omega (arith, differ-digits_self n (suc a / 2) (omega arith), differ_self (suc a % 2))

pub bit_xor_self : (a : ℕ) → bit_xor a a ≡ 0
bit_xor_self a = omega (arith, bit_xor-bitwise a a, differ-digits_self a a (omega arith))
