-- ===== src/Validators/Bucket.antt =====
-- The validators of daemon/mcbp_validators.cc for buckets, vbuckets and TAP.
use memcached.Common.{ℕ, Bool, ◌||◌, ◌==◌, ◌!=◌, ltb, if◌then◌else◌, not}
use memcached.Protocol.{Status, success, einval, Packet, magic_req, raw_bytes, ntohs, ntohl}
use memcached.Protocol.Wire.{load16, load32}
use memcached.Validators.Dcp.{reject, sub32, sizeof_uint32}

-- MAX_BUCKET_NAME_LENGTH of daemon/buckets.h
abbrev pub max_bucket_name_length : ℕ
max_bucket_name_length = 100

-- sizeof(protocol_binary_request_tap_no_extras::message.body)
abbrev pub sizeof_tap_body : ℕ
sizeof_tap_body = 8

unfoldable pub create_bucket_validator : Packet → Status
create_bucket_validator req =
    let klen = ntohs req.keylen in
    let blen = ntohl req.bodylen in
    let extlen = req.extlen in
    reject (
      req.magic != magic_req
      || extlen != 0
      || klen == 0
      || ltb max_bucket_name_length klen
      || sub32 blen klen == 0
      || req.datatype != raw_bytes)

unfoldable pub list_bucket_validator : Packet → Status
list_bucket_validator req = reject (
    req.magic != magic_req
    || req.keylen != 0
    || req.extlen != 0
    || req.bodylen != 0
    || req.datatype != raw_bytes)

unfoldable pub delete_bucket_validator : Packet → Status
delete_bucket_validator req = reject (
    req.magic != magic_req
    || req.keylen == 0
    || req.extlen != 0
    || req.bodylen == 0
    || req.datatype != raw_bytes)

unfoldable pub select_bucket_validator : Packet → Status
select_bucket_validator req =
    let klen = ntohs req.keylen in
    let blen = ntohl req.bodylen in
    reject (
      req.magic != magic_req
      || klen != blen
      || req.extlen != 0
      || ltb 1023 klen
      || req.datatype != raw_bytes)

-- is_valid_vbucket_state_t
unfoldable pub is_valid_vbucket_state : ℕ → Bool
is_valid_vbucket_state state = state == 1 || state == 2 || state == 3 || state == 4

unfoldable pub get_all_vb_seqnos_validator : Packet → Status
unfolding is_valid_vbucket_state
get_all_vb_seqnos_validator req =
    let klen = ntohs req.keylen in
    let blen = ntohl req.bodylen in
    let extlen = req.extlen in
    let state = ntohl (load32 req.body 0) in
    if req.magic != magic_req
      || klen != 0
      || extlen != blen
      || req.cas != 0
      || req.datatype != raw_bytes
    then einval
    else if extlen != 0
    then if extlen != sizeof_uint32
      then einval
      else if not (is_valid_vbucket_state state)
      then einval
      else success
    else success

unfoldable pub tap_validator : Packet → Status
tap_validator req =
    let bodylen = ntohl req.bodylen in
    let enginelen = ntohs (load16 req.body 0) in
    reject (ltb bodylen sizeof_tap_body || ltb bodylen enginelen)

unfoldable pub get_collections_validator : Packet → Status
get_collections_validator req = success
