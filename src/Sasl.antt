-- ===== src/Sasl.antt =====
-- The parts of cbsasl that work on the client's bytes: the comparison of secrets in cbsasl/strcmp.c, the
-- user names of cbsasl/scram-sha/stringutils.cc and the messages of cbsasl/plain/plain.cc.
pub mod Compare
pub mod Username
pub mod Plain
use Prim.Native.Nat.{bit_or, bit_xor}
use memcached.Common.{
  ℕ, zero, suc, ◌+◌, ◌-◌, ◌%◌, ◌^◌, Bool, true, false, ◌||◌, not, ltb, ◌==◌, if◌then◌else◌, Option,
  none, some, List, [], ◌∷◌, ◌++◌, length, ◌&&◌,
}

-- A char, which is signed, as the 32 bits of an int.
unfoldable pub int_of_char : ℕ → ℕ
int_of_char c = if ltb c 128 then c else 2 ^ 32 - 256 + c

-- The loop of cbsasl_secure_compare, with how many rounds are left. The counter `yi` has no use.
unfoldable pub compare_loop : (a b : ℕ → ℕ) (blen left xx bi acc : ℕ) → ℕ
unfolding int_of_char
compare_loop a b blen zero xx bi acc = acc
compare_loop a b blen (suc left) xx bi acc =
    compare_loop a b blen left (xx + 1) (if ltb bi blen then bi + 1 else bi)
      (bit_or acc (bit_xor (int_of_char (a xx)) (int_of_char (b bi))))

-- The two memories are functions, since the loop can read b[blen].
unfoldable pub cbsasl_secure_compare : (ℕ → ℕ) → ℕ → (ℕ → ℕ) → ℕ → ℕ
unfolding compare_loop
cbsasl_secure_compare a alen b blen =
    compare_loop a b blen alen 0 0 (bit_xor (alen % 2 ^ 32) (blen % 2 ^ 32))

-- `none` where the source throws.
unfoldable pub sasl_prep : List ℕ → Option (List ℕ)
sasl_prep string = if all_allowed string then some string else none
  where
    all_allowed : List ℕ → Bool
    all_allowed [] = true
    all_allowed (c ∷ string) =
        let rest = all_allowed string in if ltb 127 c || ltb c 32 || c == 127 then false else rest

-- std::string::find and find_first_of from an index on: what is skipped, the character, and the rest.
unfoldable pub find_split : (ℕ → Bool) → List ℕ → Option (List ℕ × ℕ × List ℕ)
find_split wanted [] = none
find_split wanted (c ∷ cs) = if wanted c then some ([], c, cs) else elim (find_split wanted cs) [
  | none ↦ none
  | some (skipped, found, after) ↦ some (c ∷ skipped, found, after)
]

abbrev pub comma : ℕ
comma = 0x2c

abbrev pub equals : ℕ
equals = 0x3d

-- What comes behind the '=' in the place of a comma or an equals sign.
abbrev pub code : ℕ → List ℕ
code c = if c == comma then 0x32 ∷ 0x43 ∷ [] else 0x33 ∷ 0x44 ∷ []

abbrev pub is_special : ℕ → Bool
is_special c = c == comma || c == equals

-- The loop of encodeUsername, with fuel: the string up to `index`, and from there on.
unfoldable pub encode_loop : ℕ → List ℕ → List ℕ → Option (List ℕ)
unfolding find_split
encode_loop zero before rest = none
encode_loop (suc fuel) before rest = elim (find_split is_special rest) [
  | none ↦ some (before ++ rest)
  | some (skipped, found, after) ↦
      encode_loop fuel (before ++ (skipped ++ equals ∷ [])) (code found ++ after)
]

unfoldable pub encode_username : List ℕ → Option (List ℕ)
unfolding encode_loop
encode_username username = encode_loop (length username + 1) [] username

pub data Decoded : Type 0 where
  decoded : List ℕ → Decoded
  runtime_error out_of_fuel : Decoded

-- The character that an escape sequence stands for.
unfoldable pub unescape : List ℕ → Option (ℕ × List ℕ)
unescape (x ∷ y ∷ after) =
    if x == 0x32 && y == 0x43
    then some (comma, after)
    else if x == 0x33 && y == 0x44
    then some (equals, after)
    else none
unescape _ = none

-- The loop of decodeUsername.
unfoldable pub decode_loop : ℕ → List ℕ → List ℕ → Decoded
unfolding find_split unescape
decode_loop zero before rest = out_of_fuel
decode_loop (suc fuel) before rest = elim (find_split (λ c. c == equals) rest) [
  | none ↦ decoded (before ++ rest)
  | some (skipped, found, after) ↦ elim (unescape after) [
    | none ↦ runtime_error
    | some (c, rest') ↦ decode_loop fuel (before ++ (skipped ++ c ∷ [])) rest'
  ]
]

unfoldable pub decode_username : List ℕ → Decoded
unfolding decode_loop
decode_username username = decode_loop (length username + 1) [] username

-- A loop of PlainServerBackend::start up to the next null character: what it passes, and the rest.
unfoldable pub to_null : List ℕ → List ℕ × List ℕ
to_null [] = ([], [])
to_null (c ∷ input) =
    let rest = to_null input in if c == 0 then ([], c ∷ input) else (c ∷ rest.0, rest.1)

-- What follows the user name; none is CBSASL_BADPARAM.
unfoldable pub after_user : List ℕ × List ℕ → Option (List ℕ × List ℕ)
unfolding to_null
after_user (user, []) = none
after_user (user, _ ∷ password) = some (user, (to_null password).0)

-- What follows the authorisation identity: there has to be something behind its null character.
unfoldable pub after_identity : List ℕ → Option (List ℕ × List ℕ)
unfolding to_null after_user
after_identity [] = none
after_identity (_ ∷ []) = none
after_identity (_ ∷ c ∷ after) = after_user (to_null (c ∷ after))

-- The user name and the password that the message holds.
unfoldable pub plain_message : List ℕ → Option (List ℕ × List ℕ)
unfolding to_null after_identity
plain_message input = after_identity (to_null input).1

-- The message of PlainClientBackend::start: its authorisation identity is empty.
unfoldable pub plain_client : List ℕ → List ℕ → List ℕ
plain_client user password = 0 ∷ user ++ 0 ∷ password
