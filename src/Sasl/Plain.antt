-- ===== src/Sasl/Plain.antt =====
-- The server reads the user name and the password out of a PLAIN message that the client put in.
use memcached.Sasl.{to_null, after_user, after_identity, plain_message, plain_client}
use memcached.Common.{
  ℕ, ◌≡◌, refl, Bool, true, false, ◌==◌, if◌then◌else◌, some, List, [], ◌∷◌, ◌++◌, ◌∙◌, arith,
}

-- No null character.
abbrev pub no_null : List ℕ → Bool
no_null [] = true
no_null (c ∷ cs) = if c == 0 then false else no_null cs

to_null-append : (s rest : List ℕ) → no_null s ≡ true → to_null (s ++ 0 ∷ rest) ≡ (s, 0 ∷ rest)
unfolding to_null
to_null-append [] rest h = refl
to_null-append (c ∷ s) rest h = ground (arith, to_null-append s rest)

to_null-end : (s : List ℕ) → no_null s ≡ true → to_null s ≡ (s, [])
unfolding to_null
to_null-end [] h = refl
to_null-end (c ∷ s) h = ground (arith, to_null-end s)

after_identity-user :
    (user password : List ℕ)
    → after_identity (0 ∷ user ++ 0 ∷ password) ≡ after_user (to_null (user ++ 0 ∷ password))
unfolding after_identity
after_identity-user [] password = refl
after_identity-user (c ∷ user) password = refl

-- From the message that a PLAIN client makes of a user name and a password without null characters,
-- the server reads that user name and that password.
pub plain_message-plain_client :
    (user password : List ℕ)
    → no_null user ≡ true
    → no_null password ≡ true
    → plain_message (plain_client user password) ≡ some (user, password)
unfolding plain_message plain_client to_null after_user
plain_message-plain_client user password h h' =
    after_identity-user user password
    ∙ rw (to_null-append user password h, to_null-end password h') refl
