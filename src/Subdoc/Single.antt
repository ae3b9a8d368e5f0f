-- ===== src/Subdoc/Single.antt =====
-- subdoc_validator of daemon/subdocument_validators.cc, and its instances for the commands on one
-- path. The request's extras stand at the start of the body: the path's length (16 bits), the flags.
use Prim.Native.Nat.{bit_and}
use memcached.Common.{ℕ, ◌-◌, Bool, not, ◌&&◌, ◌||◌, ◌==◌, ◌!=◌, ltb, if◌then◌else◌}
use memcached.Protocol.{Status, success, einval, Packet, magic_req, raw_bytes, ntohs, ntohl}
use memcached.Protocol.Wire.{load16}
use memcached.Validators.Dcp.{sub32}
use memcached.Subdoc.Traits.{
  SubdocCmdTraits, subdoc_path_max_length, subdoc_basic_extras_len, subdoc_expiry_extras_len,
  get_subdoc_cmd_traits,
}
use memcached.Subdoc.Traits

-- `flags & ~valid_flags` of two bytes
unfoldable pub invalid_flags : ℕ → ℕ → Bool
invalid_flags flags valid_flags = bit_and flags (255 - valid_flags) != 0

unfoldable pub pathlen_of : Packet → ℕ
pathlen_of req = ntohs (load16 req.body 0)

-- bodylen - keylen - extlen - pathlen, in 32 bits
unfoldable pub valuelen_of : Packet → ℕ
unfolding pathlen_of
valuelen_of req =
    sub32 (sub32 (sub32 (ntohl req.bodylen) (ntohs req.keylen)) req.extlen) (pathlen_of req)

unfoldable pub subdoc_validator : SubdocCmdTraits → Packet → Status
subdoc_validator traits req =
    let keylen = ntohs req.keylen in
    let extlen = req.extlen in
    let subdoc_flags = req.body 2 in
    let pathlen = pathlen_of req in
    let valuelen = valuelen_of req in
    if req.magic != magic_req
      || keylen == 0
      || ltb subdoc_path_max_length pathlen
      || req.datatype != raw_bytes
    then einval
    else if (if traits.request_has_value then valuelen == 0 else valuelen != 0)
    then einval
    else if invalid_flags subdoc_flags traits.valid_flags
    then einval
    else if not traits.allow_empty_path && pathlen == 0
    then einval
    else if (if traits.is_mutator
        then extlen != subdoc_basic_extras_len && extlen != subdoc_expiry_extras_len
        else extlen != subdoc_basic_extras_len)
    then einval
    else success

unfoldable pub subdoc_get_validator : Packet → Status
subdoc_get_validator = subdoc_validator Traits.subdoc_get_traits

unfoldable pub subdoc_exists_validator : Packet → Status
subdoc_exists_validator = subdoc_validator Traits.subdoc_exists_traits

unfoldable pub subdoc_dict_add_validator : Packet → Status
subdoc_dict_add_validator = subdoc_validator Traits.subdoc_dict_add_traits

unfoldable pub subdoc_dict_upsert_validator : Packet → Status
subdoc_dict_upsert_validator = subdoc_validator Traits.subdoc_dict_upsert_traits

unfoldable pub subdoc_delete_validator : Packet → Status
subdoc_delete_validator = subdoc_validator Traits.subdoc_delete_traits

unfoldable pub subdoc_replace_validator : Packet → Status
subdoc_replace_validator = subdoc_validator Traits.subdoc_replace_traits

unfoldable pub subdoc_array_push_last_validator : Packet → Status
subdoc_array_push_last_validator = subdoc_validator Traits.subdoc_array_push_last_traits

unfoldable pub subdoc_array_push_first_validator : Packet → Status
subdoc_array_push_first_validator = subdoc_validator Traits.subdoc_array_push_first_traits

unfoldable pub subdoc_array_insert_validator : Packet → Status
subdoc_array_insert_validator = subdoc_validator Traits.subdoc_array_insert_traits

unfoldable pub subdoc_array_add_unique_validator : Packet → Status
subdoc_array_add_unique_validator = subdoc_validator Traits.subdoc_array_add_unique_traits

unfoldable pub subdoc_counter_validator : Packet → Status
subdoc_counter_validator = subdoc_validator Traits.subdoc_counter_traits

unfoldable pub subdoc_get_count_validator : Packet → Status
subdoc_get_count_validator = subdoc_validator Traits.subdoc_get_count_traits
