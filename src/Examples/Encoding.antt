-- ===== src/Examples/Encoding.antt =====
-- The theorem on the encoder, at a mutation with an expiry and one path.
use memcached.Subdoc.Single.{invalid_flags}
use memcached.Subdoc.Encoder.{SubdocMultiCmd, encode, include_expiry, encode_common, encode_specs}
use memcached.Subdoc.Encoder.Accepted.{memory_of, spec_of}
use memcached.Subdoc.Encoder.RoundTrip.{IsEncodable, subdoc_create_context-encode}
use memcached.Subdoc.Traits.{
  Command, multi_mutation_traits, subdoc_multi_mutation_traits, get_subdoc_cmd_traits,
}
use memcached.Subdoc.Multi.{subdoc_multi_validator, check_spec}
use memcached.Subdoc.Context.{SubdocCmdContext, Buffer, request_value, subdoc_create_context}
use memcached.Subdoc.Decode.{operations}
use memcached.Protocol.{success}
use memcached.Protocol.Wire.{read_packet}
use memcached.Common.{ℕ, ◌≡◌, refl, inl, true, false, [], ◌∷◌, map, some, arith}

abbrev upsert_p : SubdocMultiCmd
upsert_p = record {
  command = 0xd1;
  key = 0x6b ∷ [];
  cas = 0;
  expiry = 60;
  encode_zero_expiry_on_wire = false;
  specs = record { opcode = 0xc8; flags = 0; path = 0x70 ∷ []; value = 0x31 ∷ [] } ∷ [];
}

upsert_p-IsEncodable : IsEncodable multi_mutation_traits upsert_p
unfolding include_expiry multi_mutation_traits encode_common encode_specs check_spec
    get_subdoc_cmd_traits invalid_flags
upsert_p-IsEncodable = record {
  has_key = omega arith;
  fits_minimum = omega arith;
  small = omega arith;
  expires = inl refl;
  some_specs = omega arith;
  few_specs = omega arith;
  short = ((omega arith, omega arith), tt);
  valid = (refl, tt);
}

-- An object for every path.
abbrev any_root : Command → (ℕ → ℕ) → Buffer → ℕ
any_root command body path = 2

subdoc_create_context-encode_example :
    (subdoc_multi_validator multi_mutation_traits (read_packet (memory_of (encode true upsert_p)))
      ≡ success)
    × ((done : SubdocCmdContext) × (subdoc_create_context any_root 1 17 subdoc_multi_mutation_traits
            (read_packet (memory_of (encode true upsert_p)))
            (request_value (read_packet (memory_of (encode true upsert_p))))
          ≡ some done)
        × (done.ops ≡ operations true 5 (map (spec_of true) upsert_p.specs)))
unfolding subdoc_multi_mutation_traits multi_mutation_traits include_expiry
subdoc_create_context-encode_example =
    subdoc_create_context-encode multi_mutation_traits upsert_p upsert_p-IsEncodable any_root 1
      subdoc_multi_mutation_traits refl refl
