-- ===== src/Subdoc/Encoder/RoundTrip.antt =====
-- Requests of the encoder, utilities/subdoc_encoder.cc, at the server: the validator and the executor of
-- daemon/subdocument.cc.
use memcached.Subdoc.Encoder.{
  LookupSpec, SubdocMultiCmd, store16, store32, store64, include_expiry, encode_specs,
  encode_common, populate_header, encode,
}
use memcached.Subdoc.Encoder.Accepted.{
  memory_of, spec_of, Short, shifted, stored16, stored32, encode_specs-Tiles, Tiles-unique,
  raw_length,
}
use memcached.Subdoc.Traits.{SubdocMultiCmdTraits, SubdocCmdTraits, Command, multi}
use memcached.Subdoc.Multi.{subdoc_multi_validator, multi_static_checks}
use memcached.Subdoc.Tiling.{Tiles, Checked, subdoc_multi_validator_iff}
use memcached.Subdoc.Context.{SubdocCmdContext, Buffer, request_value, subdoc_create_context}
use memcached.Subdoc.Decode.{operations, subdoc_create_context-multi}
use memcached.Protocol.Wire.{load16, load32, read_header, read_packet}
use memcached.Protocol.{ntohs, ntohl, Packet, HeaderFits, success}
use memcached.Common.{
  ℕ, suc, ◌+◌, ◌^◌, ◌≤◌, ◌<◌, ◌≡◌, refl, ◌∙◌, ap, ap₂, ◌⊎◌, inl, inr, Bool, true, false, List, [],
  ◌∷◌, ◌++◌, length, length-append, map, All, if◌then◌else◌, ltb, ◌==◌, ==_false, Bool-cases, some,
  arith,
}

abbrev pub extlen_of : SubdocMultiCmd → ℕ
extlen_of cmd = if include_expiry cmd then 4 else 0

abbrev pub body_of : Bool → SubdocMultiCmd → List ℕ
body_of mutator cmd = encode_common cmd ++ encode_specs mutator cmd.specs

-- What the commands of the encoder have to be for the server to take them.
pub record IsEncodable (traits : SubdocMultiCmdTraits) (cmd : SubdocMultiCmd) : Type 0 where
  pub has_key : 0 < length cmd.key
  pub fits_minimum : length cmd.key + extlen_of cmd + traits.min_value_len ≤ 256
  pub small : length (body_of traits.is_mutator cmd) < 2 ^ 24
  pub expires : (traits.is_mutator ≡ true) ⊎ (include_expiry cmd ≡ false)
  pub some_specs : 1 ≤ length cmd.specs
  pub few_specs : length cmd.specs ≤ 16
  pub short : All Short cmd.specs
  pub valid : Checked traits.is_mutator (map (spec_of traits.is_mutator) cmd.specs)

ntohs_zero : ntohs 0 ≡ 0
unfolding ntohs
ntohs_zero = refl

checks_pass :
    (traits : SubdocMultiCmdTraits) (req : Packet)
    → req.magic ≡ 0x80
    → req.datatype ≡ 0
    → 0 < ntohs req.keylen
    → ntohs req.keylen + req.extlen + traits.min_value_len ≤ req.bodylen
    → (req.extlen ≡ 0) ⊎ ((traits.is_mutator ≡ true) × (req.extlen ≡ 4))
    → multi_static_checks traits req ≡ false
unfolding multi_static_checks
checks_pass traits req magic datatype key minimum extras =
    let keyed : (req.keylen == 0) ≡ false = ==_false (λ e. no_key (ap ntohs e)) in
    let long : ltb req.bodylen (ntohs req.keylen + req.extlen + traits.min_value_len) ≡ false =
      ground arith in
    rw (magic, datatype, keyed, long)
      (elim extras [
        | inl none ↦ rw none (without traits.is_mutator)
        | inr (mutates, four) ↦ rw (mutates, four) refl
      ])
  where
    no_key : ntohs req.keylen ≡ ntohs 0 → ⊥
    no_key e = let zero_key : ntohs 0 ≡ 0 = ntohs_zero in absurd (omega arith)

    without : (b : Bool) → (if b then false else false) ≡ false
    without true = refl
    without false = refl

module _ (traits : SubdocMultiCmdTraits) (cmd : SubdocMultiCmd) (can : IsEncodable traits cmd) where
  abbrev request : Packet
  request = read_packet (memory_of (encode traits.is_mutator cmd))

  length-encode_common : length (encode_common cmd) ≡ length cmd.key + extlen_of cmd
  unfolding encode_common store32
  length-encode_common = elim (Bool-cases (include_expiry cmd)) [
    | inl e ↦ rw e (omega arith)
    | inr e ↦ rw e (omega arith)
  ]

  body_lem : request.body ≡ memory_of (body_of traits.is_mutator cmd)
  unfolding read_packet encode populate_header store16 store32 store64
  body_lem =
      shifted (populate_header cmd (length (body_of traits.is_mutator cmd)))
        (body_of traits.is_mutator cmd)

  keylen_lem : ntohs request.keylen ≡ length cmd.key
  unfolding read_packet read_header encode populate_header load16 store16 store32 store64
  keylen_lem = stored16 (length cmd.key) (let h = can.fits_minimum in omega arith)

  extlen_lem : request.extlen ≡ extlen_of cmd
  unfolding read_packet read_header encode populate_header store16 store32 store64
  extlen_lem = refl

  bodylen_lem : ntohl request.bodylen ≡ length (body_of traits.is_mutator cmd)
  unfolding read_packet read_header encode populate_header load32 store16 store32 store64
  bodylen_lem = stored32 (length (body_of traits.is_mutator cmd)) (let h = can.small in omega arith)

  length_body :
      length (body_of traits.is_mutator cmd)
      ≡ length cmd.key + extlen_of cmd + length (encode_specs traits.is_mutator cmd.specs)
  length_body = omega (
    arith,
    length-append (encode_common cmd) (encode_specs traits.is_mutator cmd.specs),
    length-encode_common,
  )

  magic_lem : request.magic ≡ 0x80
  unfolding read_packet read_header encode populate_header
  magic_lem = refl

  datatype_lem : request.datatype ≡ 0
  unfolding read_packet read_header encode populate_header store16
  datatype_lem = refl

  checks_lem : multi_static_checks traits request ≡ false
  checks_lem =
      checks_pass traits request magic_lem datatype_lem
        (let h = can.has_key in omega (arith, keylen_lem))
        (let h = can.fits_minimum in
          let n = can.small in
          let k = can.has_key in
          omega (
            arith,
            keylen_lem,
            extlen_lem,
            raw_length request.bodylen (omega (arith, bodylen_lem))
                (omega (arith, bodylen_lem, length_body)),
          ))
        (extras can.expires)
    where
      extras :
          (traits.is_mutator ≡ true) ⊎ (include_expiry cmd ≡ false)
          → (request.extlen ≡ 0) ⊎ ((traits.is_mutator ≡ true) × (request.extlen ≡ 4))
      extras (inr none) = inl (extlen_lem ∙ rw none refl)
      extras (inl mutates) = elim (Bool-cases (include_expiry cmd)) [
        | inl e ↦ inr (mutates, extlen_lem ∙ rw e refl)
        | inr e ↦ inl (extlen_lem ∙ rw e refl)
      ]

  length-map :
      (specs : List LookupSpec) → length (map (spec_of traits.is_mutator) specs) ≡ length specs
  length-map [] = refl
  length-map (s ∷ specs) = ap suc (length-map specs)

  tiled :
      Tiles traits.is_mutator request.body
        (ntohs request.keylen + request.extlen)
        (ntohl request.bodylen)
        (map (spec_of traits.is_mutator) cmd.specs)
  tiled =
      let starts : length (encode_common cmd) ≡ ntohs request.keylen + request.extlen =
        omega (arith, length-encode_common, keylen_lem, extlen_lem) in
      rw (body_lem, ← starts, bodylen_lem)
        (encode_specs-Tiles traits.is_mutator (encode_common cmd) cmd.specs can.short)

  accepted : subdoc_multi_validator traits request ≡ success
  accepted = (subdoc_multi_validator_iff traits request).1 (
    checks_lem,
    (
      record {
        specs = map (spec_of traits.is_mutator) cmd.specs;
        tiled = tiled;
        checked = can.valid;
        bounded = rw (length-map cmd.specs) can.few_specs;
      },
      rw (length-map cmd.specs) can.some_specs,
    ),
  )

  -- Take a multi-path command of the encoder with a key, 1 to 16 specs that are valid each, paths
  -- below 2^16 and values below 2^32 bytes, a body below 2^24 bytes, and an expiry only for a
  -- mutation, where key, extras and the shortest value allowed make up at most 256 bytes. The
  -- server's validator for multi-path commands of the same kind, lookups or mutations, accepts what
  -- is encoded, and subdoc_create_context with their traits then succeeds with the operations that
  -- the command's specs give, in their order.
  pub subdoc_create_context-encode :
      (get_root_type : Command → (ℕ → ℕ) → Buffer → ℕ) (root : ℕ) (command : SubdocCmdTraits)
      → command.path ≡ multi
      → command.is_mutator ≡ traits.is_mutator
      → (subdoc_multi_validator traits request ≡ success)
        × ((done : SubdocCmdContext) × (subdoc_create_context get_root_type root 17 command request
                (request_value request)
              ≡ some done)
            × (done.ops
                ≡ operations traits.is_mutator
                    (length cmd.key + extlen_of cmd)
                    (map (spec_of traits.is_mutator) cmd.specs)))
  subdoc_create_context-encode get_root_type root command path same =
      let fits : HeaderFits request =
        omega (arith, keylen_lem, extlen_lem, bodylen_lem, length_body) in
      let (v, done, pos, ran, ops, inside) =
        subdoc_create_context-multi get_root_type root traits command request path same fits
          accepted in
      let read : v.specs ≡ map (spec_of traits.is_mutator) cmd.specs =
        Tiles-unique traits.is_mutator request.body (ntohs request.keylen + request.extlen)
          (ntohl request.bodylen) v.specs _ v.tiled tiled in
      let starts : ntohs request.keylen + request.extlen ≡ length cmd.key + extlen_of cmd =
        omega (arith, keylen_lem, extlen_lem) in
      (accepted, (done, ran, ops ∙ ap₂ (operations traits.is_mutator) starts read))
