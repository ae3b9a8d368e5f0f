-- ===== src/Sasl/Username.antt =====
-- User names survive the encoding: decodeUsername gives back what encodeUsername was given.
use memcached.Sasl.{
  find_split, comma, equals, code, is_special, encode_loop, encode_username, decoded, unescape,
  decode_loop, decode_username,
}
use memcached.Common.{
  ℕ, zero, suc, ◌+◌, ◌≤◌, ◌<◌, ◌≡◌, refl, sym, ◌∙◌, ap, inl, inr, Bool, true, false, ◌==◌, ==_iff,
  if◌then◌else◌, Bool-cases, Option-cases, some, List, [], ◌∷◌, ◌++◌, length, arith,
}

-- Each character on its own.
unfoldable pub escaped : List ℕ → List ℕ
escaped [] = []
escaped (c ∷ cs) = (if is_special c then equals ∷ code c else c ∷ []) ++ escaped cs

append_assoc {ℓ} : {A : Type ℓ} (xs ys zs : List A) → (xs ++ ys) ++ zs ≡ xs ++ (ys ++ zs)
append_assoc [] ys zs = refl
append_assoc (x ∷ xs) ys zs = ap (◌∷◌ x) (append_assoc xs ys zs)

append_nil {ℓ} : {A : Type ℓ} (xs : List A) → xs ++ [] ≡ xs
append_nil [] = refl
append_nil (x ∷ xs) = ap (◌∷◌ x) (append_nil xs)

-- A character that is not special is only passed.
encode_loop-plain :
    (fuel : ℕ) (before : List ℕ) (c : ℕ) (rest : List ℕ)
    → is_special c ≡ false
    → encode_loop (suc fuel) before (c ∷ rest) ≡ encode_loop (suc fuel) (before ++ c ∷ []) rest
unfolding encode_loop find_split
encode_loop-plain fuel before c rest plain = elim (Option-cases (find_split is_special rest)) [
  | inl absent ↦ rw (encode_loop, plain, absent) (ap some (sym (append_assoc before (c ∷ []) rest)))
  | inr ((skipped, found, after), e) ↦
      rw (encode_loop, plain, e)
        (ap (λ b. encode_loop fuel b (code found ++ after))
          (sym (append_assoc before (c ∷ []) (skipped ++ equals ∷ []))))
]

encode_loop-special :
    (fuel : ℕ) (before : List ℕ) (c : ℕ) (rest : List ℕ)
    → is_special c ≡ true
    → encode_loop (suc fuel) before (c ∷ rest)
      ≡ encode_loop fuel (before ++ equals ∷ []) (code c ++ rest)
unfolding encode_loop find_split
encode_loop-special fuel before c rest special = rw (encode_loop, special) refl

-- The two characters of a code are passed.
encode_loop-code :
    (fuel : ℕ) (before : List ℕ) (c : ℕ) (rest : List ℕ)
    → encode_loop (suc fuel) before (code c ++ rest)
      ≡ encode_loop (suc fuel) (before ++ code c) rest
encode_loop-code fuel before c rest = elim (Bool-cases (c == comma)) [
  | inl e ↦ rw e (two 0x32 0x43 refl refl)
  | inr e ↦ rw e (two 0x33 0x44 refl refl)
]
  where
    two :
        (x y : ℕ)
        → is_special x ≡ false
        → is_special y ≡ false
        → encode_loop (suc fuel) before (x ∷ y ∷ rest)
          ≡ encode_loop (suc fuel) (before ++ x ∷ y ∷ []) rest
    two x y hx hy =
        encode_loop-plain fuel before x (y ∷ rest) hx
        ∙ encode_loop-plain fuel (before ++ x ∷ []) y rest hy
        ∙ ap (λ b. encode_loop (suc fuel) b rest) (append_assoc before (x ∷ []) (y ∷ []))

encode_loop-escaped :
    (fuel : ℕ) (before rest : List ℕ)
    → length rest < fuel
    → encode_loop fuel before rest ≡ some (before ++ escaped rest)
unfolding escaped encode_loop find_split
encode_loop-escaped zero before rest enough = absurd (omega arith)
encode_loop-escaped (suc fuel) before [] enough = refl
encode_loop-escaped (suc zero) before (c ∷ rest) enough = absurd (omega arith)
encode_loop-escaped (suc (suc n)) before (c ∷ rest) enough = elim (Bool-cases (is_special c)) [
  | inl special ↦
      encode_loop-special (suc n) before c rest special
      ∙ encode_loop-code n (before ++ equals ∷ []) c rest
      ∙ encode_loop-escaped (suc n) ((before ++ equals ∷ []) ++ code c) rest (omega arith)
      ∙ rw special (
          ap some (
            append_assoc (before ++ equals ∷ []) (code c) (escaped rest)
            ∙ append_assoc before (equals ∷ []) (code c ++ escaped rest)))
  | inr plain ↦
      encode_loop-plain (suc n) before c rest plain
      ∙ encode_loop-escaped (suc (suc n)) (before ++ c ∷ []) rest (omega arith)
      ∙ rw plain (ap some (append_assoc before (c ∷ []) (escaped rest)))
]

-- x
pub encode_username-escaped :
    (username : List ℕ) → encode_username username ≡ some (escaped username)
unfolding encode_username
encode_username-escaped username =
    encode_loop-escaped (length username + 1) [] username (omega arith)

abbrev is_equals : ℕ → Bool
is_equals c = c == equals

decode_loop-plain :
    (fuel : ℕ) (before : List ℕ) (c : ℕ) (rest : List ℕ)
    → is_equals c ≡ false
    → decode_loop (suc fuel) before (c ∷ rest) ≡ decode_loop (suc fuel) (before ++ c ∷ []) rest
unfolding decode_loop find_split
decode_loop-plain fuel before c rest plain = elim (Option-cases (find_split is_equals rest)) [
  | inl absent ↦
      rw (decode_loop, plain, absent) (ap decoded (sym (append_assoc before (c ∷ []) rest)))
  | inr ((skipped, found, after), e) ↦ elim (Option-cases (unescape after)) [
    | inl bad ↦ rw (decode_loop, plain, e, bad) refl
    | inr ((c', rest'), good) ↦
        rw (decode_loop, plain, e, good)
          (ap (λ b. decode_loop fuel b rest')
            (sym (append_assoc before (c ∷ []) (skipped ++ c' ∷ []))))
  ]
]

unescape-code :
    (c : ℕ) (rest : List ℕ) → is_special c ≡ true → unescape (code c ++ rest) ≡ some (c, rest)
unfolding unescape
unescape-code c rest special = elim (Bool-cases (c == comma)) [
  | inl e ↦ rw ((==_iff c comma).0 e) refl
  | inr e ↦ let same : c ≡ equals = ground arith in rw same refl
]

decode_loop-special :
    (fuel : ℕ) (before : List ℕ) (c : ℕ) (rest : List ℕ)
    → is_special c ≡ true
    → decode_loop (suc fuel) before (equals ∷ code c ++ rest)
      ≡ decode_loop fuel (before ++ c ∷ []) rest
unfolding decode_loop find_split
decode_loop-special fuel before c rest special = rw (decode_loop, unescape-code c rest special) refl

decode_loop-escaped :
    (fuel : ℕ) (before username : List ℕ)
    → length username < fuel
    → decode_loop fuel before (escaped username) ≡ decoded (before ++ username)
unfolding escaped decode_loop find_split
decode_loop-escaped zero before username enough = absurd (omega arith)
decode_loop-escaped (suc fuel) before [] enough = refl
decode_loop-escaped (suc fuel) before (c ∷ rest) enough = elim (Bool-cases (is_special c)) [
  | inl special ↦ rw special (
      decode_loop-special fuel before c (escaped rest) special
      ∙ decode_loop-escaped fuel (before ++ c ∷ []) rest (omega arith)
      ∙ ap decoded (append_assoc before (c ∷ []) rest))
  | inr plain ↦
      let apart : is_equals c ≡ false = ground arith in
      rw plain (
        decode_loop-plain fuel before c (escaped rest) apart
        ∙ decode_loop-escaped (suc fuel) (before ++ c ∷ []) rest (omega arith)
        ∙ ap decoded (append_assoc before (c ∷ []) rest))
]

escaped-length : (username : List ℕ) → length username ≤ length (escaped username)
unfolding escaped
escaped-length [] = omega arith
escaped-length (c ∷ rest) = elim (Bool-cases (is_special c)) [
  | inl special ↦ rw special (elim (Bool-cases (c == comma)) [
    | inl e ↦ rw e (omega (arith, escaped-length rest))
    | inr e ↦ rw e (omega (arith, escaped-length rest))
  ])
  | inr plain ↦ rw plain (omega (arith, escaped-length rest))
]

-- The loop of encodeUsername ends on every user name, and decodeUsername ends on what it returns and
-- gives the user name back.
pub decode_username-encode_username :
    (username : List ℕ)
    → (encoding : List ℕ) × (encode_username username ≡ some encoding)
      × (decode_username encoding ≡ decoded username)
unfolding decode_username
decode_username-encode_username username = (
  escaped username,
  encode_username-escaped username,
  decode_loop-escaped (length (escaped username) + 1) [] username
      (omega (arith, escaped-length username)),
)
