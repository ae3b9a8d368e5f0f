-- ===== src/Examples/Login.antt =====
-- The theorems on SASL, at a user name with a comma and a short password.
use memcached.Sasl.{
  cbsasl_secure_compare, encode_username, decode_username, decoded, plain_message, plain_client,
}
use memcached.Sasl.Compare.{secure_compare_iff}
use memcached.Sasl.Username.{decode_username-encode_username}
use memcached.Sasl.Plain.{plain_message-plain_client}
use memcached.Common.{ℕ, ◌≡◌, refl, ◌↔◌, ◌<◌, some, List, [], ◌∷◌, arith}

secure_compare_iff_example :
    (cbsasl_secure_compare (λ i. 0x70) 3 (λ i. 0x71) 4 ≡ 0)
    ↔ (◌≡◌ {A = ℕ} 3 4 × ((i : ℕ) → i < 4 → ◌≡◌ {A = ℕ} 0x70 0x71))
secure_compare_iff_example =
    secure_compare_iff (λ i. 0x70) (λ i. 0x71) 3 4 (omega arith) (omega arith) (λ i. omega arith)
      (λ i. omega arith)

decode_username-encode_username_example :
    (encoding : List ℕ) × (encode_username (0x61 ∷ 0x2c ∷ []) ≡ some encoding)
    × (decode_username encoding ≡ decoded (0x61 ∷ 0x2c ∷ []))
decode_username-encode_username_example = decode_username-encode_username (0x61 ∷ 0x2c ∷ [])

plain_message-plain_client_example :
    plain_message (plain_client (0x61 ∷ []) (0x70 ∷ 0x77 ∷ [])) ≡ some (0x61 ∷ [], 0x70 ∷ 0x77 ∷ [])
plain_message-plain_client_example =
    plain_message-plain_client (0x61 ∷ []) (0x70 ∷ 0x77 ∷ []) refl refl
