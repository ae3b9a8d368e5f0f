-- ===== src/Subdoc/Encoder/Accepted.antt =====
-- The bytes of the encoder, utilities/subdoc_encoder.cc, as the server reads them.
use memcached.Subdoc.Encoder.{LookupSpec, store16, store32, encode_spec, encode_specs}
use memcached.Subdoc.Multi.{Spec, read_spec, spec_len}
use memcached.Subdoc.Tiling.{Tiles}
use memcached.Protocol.Wire.{load16, load32, ntohs-lt, ntohl-lt, ntohs-ntohs, ntohl-ntohl}
use memcached.Common.{
  ℕ, zero, suc, ◌+◌, ◌*◌, ◌/◌, ◌%◌, ◌^◌, ◌≤◌, ◌<◌, ◌≡◌, refl, sym, ◌∙◌, ap, ap₂, subst, Bool, true,
  false, List, [], ◌∷◌, ◌++◌, length, length-append, map, All, if◌then◌else◌, arith,
}
use mathlib.Core.List.{append_assoc}
use memcached.Protocol.{ntohs, ntohl}

-- The bytes as memory; what lies behind them is taken for 0.
abbrev pub memory_of : List ℕ → ℕ → ℕ
memory_of [] i = 0
memory_of (x ∷ xs) zero = x
memory_of (x ∷ xs) (suc i) = memory_of xs i

-- A spec as it is to be read.
abbrev pub spec_of : Bool → LookupSpec → Spec
spec_of mutator s = record {
  opcode = s.opcode;
  flags = s.flags;
  headerlen = if mutator then 8 else 4;
  pathlen = length s.path;
  valuelen = if mutator then length s.value else 0;
}

abbrev pub Short : LookupSpec → Type 0
Short s = (length s.path < 2 ^ 16) × (length s.value < 2 ^ 32)

memory_of-append : (xs ys : List ℕ) (i : ℕ) → memory_of (xs ++ ys) (length xs + i) ≡ memory_of ys i
memory_of-append [] ys i = ap (memory_of ys) (omega arith)
memory_of-append (x ∷ xs) ys i =
    ap (memory_of (x ∷ xs ++ ys)) (suc_add (length xs) i) ∙ memory_of-append xs ys i
  where
    suc_add : (a b : ℕ) → suc a + b ≡ suc (a + b)
    suc_add a b = omega arith

add_0 : (at : ℕ) → at ≡ at + 0
add_0 at = omega arith

add_add : (at m n : ℕ) → at + m + n ≡ at + (m + n)
add_add at m n = omega arith

pub shifted : (xs ys : List ℕ) → (λ i. memory_of (xs ++ ys) (length xs + i)) ≡ memory_of ys
shifted xs ys = λ k i. memory_of-append xs ys i k

-- A spec is read in the same way from memory that starts where it stands.
read_spec-shifted :
    (mutator : Bool) (body : ℕ → ℕ) (at : ℕ)
    → read_spec mutator body at ≡ read_spec mutator (λ i. body (at + i)) 0
unfolding read_spec load16 load32
read_spec-shifted true body at = λ k. record {
  opcode = body (add_0 at k);
  flags = body (at + 1);
  headerlen = 8;
  pathlen = ntohs (body (at + 2) + body (add_add at 2 1 k) * 2 ^ 8);
  valuelen = ntohl (
      body (at + 4)
      + body (add_add at 4 1 k) * 2 ^ 8
      + body (add_add at 4 2 k) * 2 ^ 16
      + body (add_add at 4 3 k) * 2 ^ 24);
}
read_spec-shifted false body at = λ k. record {
  opcode = body (add_0 at k);
  flags = body (at + 1);
  headerlen = 4;
  pathlen = ntohs (body (at + 2) + body (add_add at 2 1 k) * 2 ^ 8);
  valuelen = 0;
}

pub stored16 :
    (n : ℕ)
    → n < 2 ^ 16
    → ntohs (ntohs (n % 2 ^ 16) % 256 + ntohs (n % 2 ^ 16) / 2 ^ 8 % 256 * 2 ^ 8) ≡ n
stored16 n h =
    let same : ntohs n % 256 + ntohs n / 2 ^ 8 % 256 * 2 ^ 8 ≡ ntohs n =
      omega (arith, ntohs-lt n) in
    let whole : n % 2 ^ 16 ≡ n = omega arith in rw (whole, same) (ntohs-ntohs n h)

pub stored32 :
    (n : ℕ)
    → n < 2 ^ 32
    → ntohl (
        ntohl (n % 2 ^ 32) % 256
        + ntohl (n % 2 ^ 32) / 2 ^ 8 % 256 * 2 ^ 8
        + ntohl (n % 2 ^ 32) / 2 ^ 16 % 256 * 2 ^ 16
        + ntohl (n % 2 ^ 32) / 2 ^ 24 % 256 * 2 ^ 24)
      ≡ n
stored32 n h =
    let same : ntohl n % 256
          + ntohl n / 2 ^ 8 % 256 * 2 ^ 8
          + ntohl n / 2 ^ 16 % 256 * 2 ^ 16
          + ntohl n / 2 ^ 24 % 256 * 2 ^ 24
        ≡ ntohl n =
      omega (arith, ntohl-lt n) in
    let whole : n % 2 ^ 32 ≡ n = omega arith in rw (whole, same) (ntohl-ntohl n h)

read_spec-front :
    (mutator : Bool) (rest : List ℕ) (s : LookupSpec)
    → Short s
    → read_spec mutator (memory_of (encode_spec mutator s ++ rest)) 0 ≡ spec_of mutator s
unfolding read_spec encode_spec store16 store32 load16 load32
read_spec-front true rest s short = λ k. record {
  opcode = s.opcode;
  flags = s.flags;
  headerlen = 8;
  pathlen = stored16 (length s.path) short.0 k;
  valuelen = stored32 (length s.value) short.1 k;
}
read_spec-front false rest s short = λ k. record {
  opcode = s.opcode;
  flags = s.flags;
  headerlen = 4;
  pathlen = stored16 (length s.path) short.0 k;
  valuelen = 0;
}

read_spec-encode_spec :
    (mutator : Bool) (before rest : List ℕ) (s : LookupSpec)
    → Short s
    → read_spec mutator (memory_of (before ++ (encode_spec mutator s ++ rest))) (length before)
      ≡ spec_of mutator s
read_spec-encode_spec mutator before rest s short =
    read_spec-shifted mutator (memory_of (before ++ (encode_spec mutator s ++ rest)))
      (length before)
    ∙ ap (λ b. read_spec mutator b 0) (shifted before (encode_spec mutator s ++ rest))
    ∙ read_spec-front mutator rest s short

length-encode_spec :
    (mutator : Bool) (s : LookupSpec)
    → length (encode_spec mutator s) ≡ spec_len (spec_of mutator s)
unfolding encode_spec store16 store32 spec_len
length-encode_spec true s = omega (arith, length-append s.path s.value)
length-encode_spec false s = omega arith

spec_len_pos : (mutator : Bool) (s : LookupSpec) → 0 < spec_len (spec_of mutator s)
unfolding spec_len
spec_len_pos true s = omega arith
spec_len_pos false s = omega arith

-- The specs stand one behind the other.
pub encode_specs-Tiles :
    (mutator : Bool) (before : List ℕ) (specs : List LookupSpec)
    → All Short specs
    → Tiles mutator
        (memory_of (before ++ encode_specs mutator specs))
        (length before)
        (length (before ++ encode_specs mutator specs))
        (map (spec_of mutator) specs)
unfolding encode_specs
encode_specs-Tiles mutator before [] short = omega (arith, length-append before [])
encode_specs-Tiles mutator before (s ∷ specs) short =
    let rest = encode_specs mutator specs in
    let here = encode_spec mutator s in
    let size : length (before ++ here) ≡ length before + spec_len (spec_of mutator s) =
      length-append before here ∙ ap (λ n. length before + n) (length-encode_spec mutator s) in
    (
      sym (read_spec-encode_spec mutator before rest s short.0),
      omega (
        arith,
        length-append before (here ++ rest),
        length-append here rest,
        length-encode_spec mutator s,
        spec_len_pos mutator s,
      ),
      subst
          (λ l.
            Tiles mutator (memory_of l) (length before + spec_len (spec_of mutator s)) (length l)
              (map (spec_of mutator) specs))
          (append_assoc before here rest)
          (subst
            (λ n.
              Tiles mutator (memory_of ((before ++ here) ++ rest)) n
                (length ((before ++ here) ++ rest)) (map (spec_of mutator) specs))
            size (encode_specs-Tiles mutator (before ++ here) specs short.1)),
    )

-- There is one way to read specs up to the end.
pub Tiles-unique :
    (mutator : Bool) (body : ℕ → ℕ) (at end : ℕ) (xs ys : List Spec)
    → Tiles mutator body at end xs
    → Tiles mutator body at end ys
    → xs ≡ ys
Tiles-unique mutator body at end [] [] p q = refl
Tiles-unique mutator body at end [] (y ∷ ys) p q = absurd (omega (arith, p, q.1))
Tiles-unique mutator body at end (x ∷ xs) [] p q = absurd (omega (arith, p.1, q))
Tiles-unique mutator body at end (x ∷ xs) (y ∷ ys) p q =
    let same : x ≡ y = p.0 ∙ sym q.0 in
    ap₂ (λ a l. a ∷ l) same
      (Tiles-unique mutator body (at + spec_len x) end xs ys p.2
        (subst (λ s. Tiles mutator body (at + spec_len s) end ys) (sym same) q.2))

-- In network order a length below 2^24 that is not 0 has its lowest byte last, and another one set.
pub raw_length : (raw : ℕ) → ntohl raw < 2 ^ 24 → 0 < ntohl raw → 256 ≤ raw
unfolding ntohl
raw_length raw small pos = omega arith
