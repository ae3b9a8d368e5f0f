-- ===== src/Subdoc/Decode.antt =====
-- The executor's decoding of a request on several paths meets the validator's.
use memcached.Common.{
  ℕ, zero, suc, ◌+◌, ◌≤◌, ◌<◌, ◌≡◌, refl, sym, ap, ap₂, subst₂, ◌∙◌, Bool, true, false, List, [],
  ◌∷◌, ◌++◌, some, ltb, length, All, arith,
}
use mathlib.Core.List.{append-nil, append_assoc}
use memcached.Protocol.{HeaderFits, success, Packet, ntohs, ntohl}
use memcached.Protocol.Wire.{ntohl-lt}
use memcached.Subdoc.Traits.{Command, SubdocCmdTraits, SubdocMultiCmdTraits, multi, multi_max_paths}
use memcached.Subdoc.Multi.{Spec, read_spec, spec_len, subdoc_multi_validator}
use memcached.Subdoc.Context.{
  SubdocCmdContext, OperationSpec, Buffer, request_value, operation, add_operation, decode_specs,
  subdoc_create_context,
}
use memcached.Subdoc.Tiling.{Tiles, ValidSpecs, subdoc_multi_validator_iff}

-- The operations that stand for a list of specs, the first of which is at `at`.
abbrev pub operations : Bool → ℕ → List Spec → List OperationSpec
operations mutator at [] = []
operations mutator at (spec ∷ specs) =
    operation mutator at spec ∷ operations mutator (at + spec_len spec) specs

-- A buffer that ends no later than the body.
abbrev pub Within : ℕ → Buffer → Type 0
Within end buffer = buffer.at + buffer.len ≤ end

abbrev pub InBody : ℕ → OperationSpec → Type 0
InBody end op = Within end op.path × Within end op.value

Tiles-le :
    (mutator : Bool) (body : ℕ → ℕ) (at end : ℕ) (specs : List Spec)
    → Tiles mutator body at end specs
    → at ≤ end
Tiles-le mutator body at end [] e = omega arith
Tiles-le mutator body at end (spec ∷ specs) (e, lt, rest) = omega arith

operation-InBody :
    (mutator : Bool) (at end : ℕ) (spec : Spec)
    → at + spec_len spec ≤ end
    → InBody end (operation mutator at spec)
unfolding operation spec_len
operation-InBody mutator at end spec h = ground arith

operations-InBody :
    (mutator : Bool) (body : ℕ → ℕ) (at end : ℕ) (specs : List Spec)
    → Tiles mutator body at end specs
    → All (InBody end) (operations mutator at specs)
operations-InBody mutator body at end [] t = tt
operations-InBody mutator body at end (spec ∷ specs) (e, lt, rest) = (
  operation-InBody mutator at end spec (Tiles-le mutator body _ end specs rest),
  operations-InBody mutator body (at + spec_len spec) end specs rest,
)

-- The executor's step over a spec is the spec's length.
operation_step :
    (mutator : Bool) (body : ℕ → ℕ) (at : ℕ)
    → let spec = read_spec mutator body at in
      let op = operation mutator at spec in
      spec.headerlen + op.path.len + op.value.len ≡ spec_len spec
unfolding operation spec_len read_spec
operation_step true body at = refl
operation_step false body at = refl

request_value_lem :
    (req : Packet)
    → HeaderFits req
    → ((request_value req).at + 0 ≡ ntohs req.keylen + req.extlen)
      × ((request_value req).at + (request_value req).len ≡ ntohl req.bodylen)
unfolding request_value
request_value_lem req fits = (omega arith, omega (arith, ntohl-lt req.bodylen))

module _ (get_root_type : Command → (ℕ → ℕ) → Buffer → ℕ) (root : ℕ) where
  decode_specs_lem :
      (fuel : ℕ) (mutator : Bool) (body : ℕ → ℕ) (value : Buffer) (offset : ℕ)
      (context : SubdocCmdContext) (specs : List Spec)
      → length specs < fuel
      → Tiles mutator body (value.at + offset) (value.at + value.len) specs
      → (done : SubdocCmdContext) × (decode_specs get_root_type root fuel mutator body value offset
            context
          ≡ some done)
        × (done.ops ≡ context.ops ++ operations mutator (value.at + offset) specs)
  unfolding decode_specs add_operation
  decode_specs_lem zero mutator body value offset context specs fuel tiled = absurd (omega arith)
  decode_specs_lem (suc fuel) mutator body value offset context [] enough tiled =
      (context, ground arith, sym (append-nil context.ops))
  decode_specs_lem (suc fuel) mutator body value offset context (spec ∷ specs) enough
        (e, lt, rest) =
      let at : ℕ = value.at + offset in
      let read = read_spec mutator body at in
      let op = operation mutator at read in
      let next : ℕ = offset + (read.headerlen + op.path.len + op.value.len) in
      let moved : value.at + next ≡ at + spec_len spec =
        omega (arith, operation_step mutator body at, ap spec_len e) in
      let rest' : Tiles mutator body (value.at + next) (value.at + value.len) specs =
        rw moved rest in
      let (done, run, ops) =
        decode_specs_lem fuel mutator body value next
          (add_operation get_root_type root body read.flags op context) specs (omega arith) rest' in
      let more : ltb offset value.len ≡ true = ground arith in
      (
        done,
        rw more run,
        ops
            ∙ append_assoc context.ops (op ∷ []) _
            ∙ ap₂
                (λ (s : Spec) (n : ℕ).
                  context.ops ++ operation mutator at s ∷ operations mutator n specs)
                (sym e) moved,
      )

  create_context_decodes :
      (fuel : ℕ) (traits : SubdocCmdTraits) (req : Packet) (value : Buffer)
      → traits.path ≡ multi
      → subdoc_create_context get_root_type root fuel traits req value
        ≡ decode_specs get_root_type root fuel traits.is_mutator req.body value 0
            (record { ops = []; jroot_type = root })
  unfolding subdoc_create_context
  create_context_decodes fuel traits req value path = rw (path, subdoc_create_context)

  -- A request on several paths that the header check and its validator accept is decoded, with fuel
  -- for 17 rounds, into the operations of exactly the specs that the validator has read, at least
  -- one of them, and no path or value of these operations reaches behind the request's body.
  pub subdoc_create_context-multi :
      (validated : SubdocMultiCmdTraits) (traits : SubdocCmdTraits) (req : Packet)
      → traits.path ≡ multi
      → traits.is_mutator ≡ validated.is_mutator
      → HeaderFits req
      → subdoc_multi_validator validated req ≡ success
      → (v : ValidSpecs validated.is_mutator req.body
          (ntohs req.keylen + req.extlen)
          (ntohl req.bodylen)
          multi_max_paths)
        × (done : SubdocCmdContext) × (1 ≤ length v.specs)
        × (subdoc_create_context get_root_type root 17 traits req (request_value req) ≡ some done)
        × (done.ops ≡ operations validated.is_mutator (ntohs req.keylen + req.extlen) v.specs)
        × All (InBody (ntohl req.bodylen)) done.ops
  subdoc_create_context-multi validated traits req path same fits valid =
      let (static, (v, pos)) = (subdoc_multi_validator_iff validated req).0 valid in
      let value : Buffer = request_value req in
      let (starts, ends) = request_value_lem req fits in
      let tiled : Tiles validated.is_mutator req.body (value.at + 0) (value.at + value.len)
          v.specs =
        subst₂ (λ (a e : ℕ). Tiles validated.is_mutator req.body a e v.specs) (sym starts)
          (sym ends) v.tiled in
      let (done, run, ops) =
        decode_specs_lem 17 validated.is_mutator req.body value 0
          (record { ops = []; jroot_type = root }) v.specs (omega (arith, v.bounded)) tiled in
      let ops' : done.ops
          ≡ operations validated.is_mutator (ntohs req.keylen + req.extlen) v.specs =
        ops ∙ ap (λ (n : ℕ). operations validated.is_mutator n v.specs) starts in
      (
        v,
        done,
        pos,
        create_context_decodes 17 traits req value path ∙ rw same run,
        ops',
        rw ops' (
            operations-InBody validated.is_mutator req.body (ntohs req.keylen + req.extlen)
              (ntohl req.bodylen) v.specs v.tiled),
      )
