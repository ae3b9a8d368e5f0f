-- ===== src/Subdoc/Multi.antt =====
-- The commands on several paths: subdoc_multi_validator of daemon/subdocument_validators.cc.
use memcached.Common.{
  ℕ, zero, suc, ◌+◌, Bool, true, false, not, ◌&&◌, ◌||◌, ◌==◌, ◌!=◌, ltb, if◌then◌else◌,
}
use memcached.Protocol.{
  Status, success, einval, subdoc_invalid_combo, Packet, magic_req, raw_bytes, ntohs, ntohl,
}
use memcached.Protocol.Wire.{load16, load32}
use memcached.Subdoc.Traits.{
  SubdocMultiCmdTraits, Command, subdoc_path_max_length, multi_max_paths, get_subdoc_cmd_traits,
  multi_lookup_traits, multi_mutation_traits,
}
use memcached.Subdoc.Single.{invalid_flags}

-- An operation spec as it stands at an offset of the body: for a mutation 8 bytes (opcode, flags,
-- path length, value length), for a lookup the first 4, and then the path and the value.
pub record Spec : Type 0 where
  pub opcode : ℕ
  pub flags : ℕ
  pub headerlen : ℕ
  pub pathlen : ℕ
  pub valuelen : ℕ

unfoldable pub read_spec : Bool → (ℕ → ℕ) → ℕ → Spec
read_spec true body at = record {
  opcode = body at;
  flags = body (at + 1);
  headerlen = 8;
  pathlen = ntohs (load16 body (at + 2));
  valuelen = ntohl (load32 body (at + 4));
}
read_spec false body at = record {
  opcode = body at;
  flags = body (at + 1);
  headerlen = 4;
  pathlen = ntohs (load16 body (at + 2));
  valuelen = 0;
}

unfoldable pub spec_len : Spec → ℕ
spec_len spec = spec.headerlen + spec.pathlen + spec.valuelen

is_invalid : Command → Bool
is_invalid Command.invalid = true
is_invalid _ = false

unfoldable pub xor : Bool → Bool → Bool
xor true b = not b
xor false b = b

-- The checks of is_valid_multipath_spec on a decoded spec.
unfoldable pub check_spec : Bool → Spec → Status
unfolding is_invalid xor
check_spec mutator spec =
    let op_traits = get_subdoc_cmd_traits spec.opcode in
    if is_invalid op_traits.command
    then subdoc_invalid_combo
    else if xor mutator op_traits.is_mutator
    then subdoc_invalid_combo
    else if invalid_flags spec.flags op_traits.valid_flags
    then einval
    else if ltb subdoc_path_max_length spec.pathlen
    then einval
    else if not op_traits.allow_empty_path && spec.pathlen == 0
    then einval
    else if (if op_traits.request_has_value then spec.valuelen == 0 else spec.valuelen != 0)
    then einval
    else success

is_success : Status → Bool
is_success success = true
is_success _ = false

-- The status, and the spec's length, which is left at 0 where the spec is refused.
unfoldable pub is_valid_multipath_spec : SubdocMultiCmdTraits → (ℕ → ℕ) → ℕ → Status × ℕ
unfolding is_success
is_valid_multipath_spec traits body at =
    let spec = read_spec traits.is_mutator body at in
    let status = check_spec traits.is_mutator spec in
    (status, if is_success status then spec_len spec else 0)

-- The loop's end: a refused spec, or how many specs were read and up to where.
pub data Scan : Type 0 where
  refused : Status → Scan
  scanned : ℕ → ℕ → Scan

-- The loop over the specs, by the rounds that MULTI_MAX_PATHS leaves.
unfoldable pub scan_specs : ℕ → SubdocMultiCmdTraits → (ℕ → ℕ) → ℕ → ℕ → ℕ → Scan
unfolding is_success
scan_specs zero traits body bodylen path_index body_validated = scanned path_index body_validated
scan_specs (suc rounds) traits body bodylen path_index body_validated =
    let (status, len) = is_valid_multipath_spec traits body body_validated in
    let rest = scan_specs rounds traits body bodylen (path_index + 1) (body_validated + len) in
    if ltb body_validated bodylen
    then (if is_success status then rest else refused status)
    else scanned path_index body_validated

-- `path_index == 0 || body_validated != bodylen` after the loop
unfoldable pub multi_verdict : ℕ → Scan → Status
multi_verdict bodylen (refused status) = status
multi_verdict bodylen (scanned path_index body_validated) =
    if path_index == 0 || body_validated != bodylen then subdoc_invalid_combo else success

-- The static checks. The minimum is compared with the length as it stands in the packet, in network
-- order.
unfoldable pub multi_static_checks : SubdocMultiCmdTraits → Packet → Bool
multi_static_checks traits req =
    let minimum_body_len = ntohs req.keylen + req.extlen + traits.min_value_len in
    (req.magic != magic_req
      || req.keylen == 0
      || ltb req.bodylen minimum_body_len
      || req.datatype != raw_bytes)
    || (if traits.is_mutator then req.extlen != 0 && req.extlen != 4 else req.extlen != 0)

unfoldable pub subdoc_multi_validator : SubdocMultiCmdTraits → Packet → Status
subdoc_multi_validator traits req =
    let bodylen = ntohl req.bodylen in
    let start = ntohs req.keylen + req.extlen in
    if multi_static_checks traits req
    then einval
    else multi_verdict bodylen (scan_specs multi_max_paths traits req.body bodylen 0 start)

unfoldable pub subdoc_multi_lookup_validator : Packet → Status
subdoc_multi_lookup_validator = subdoc_multi_validator multi_lookup_traits

unfoldable pub subdoc_multi_mutation_validator : Packet → Status
subdoc_multi_mutation_validator = subdoc_multi_validator multi_mutation_traits
