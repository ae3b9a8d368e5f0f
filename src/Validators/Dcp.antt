-- ===== src/Validators/Dcp.antt =====
-- The DCP validators of daemon/mcbp_validators.cc. Each returns its verdict on a packet.
use memcached.Common.{ℕ, ◌+◌, ◌-◌, ◌*◌, ◌%◌, ◌^◌, Bool, ◌||◌, ◌==◌, ◌!=◌, ltb, if◌then◌else◌}
use memcached.Protocol.{Status, success, einval, Packet, magic_req, raw_bytes, ntohs, ntohl, htonl}

-- `if (bad) return EINVAL; return SUCCESS;`
abbrev pub reject : Bool → Status
reject bad = if bad then einval else success

-- uint32_t a - b
abbrev pub sub32 : ℕ → ℕ → ℕ
sub32 a b = (a + 2 ^ 32 - b) % 2 ^ 32

abbrev pub sizeof_uint64 : ℕ
sizeof_uint64 = 8

abbrev pub sizeof_uint32 : ℕ
sizeof_uint32 = 4

abbrev pub sizeof_uint16 : ℕ
sizeof_uint16 = 2

abbrev pub sizeof_uint8 : ℕ
sizeof_uint8 = 1

unfoldable pub dcp_open_validator : Packet → Status
dcp_open_validator req =
    reject
      (req.magic != magic_req || req.extlen != 8 || req.keylen == 0 || req.datatype != raw_bytes)

unfoldable pub dcp_add_stream_validator : Packet → Status
dcp_add_stream_validator req = reject (
    req.magic != magic_req
    || req.extlen != 4
    || req.keylen != 0
    || req.bodylen != htonl 4
    || req.datatype != raw_bytes)

unfoldable pub dcp_close_stream_validator : Packet → Status
dcp_close_stream_validator req = reject (
    req.magic != magic_req
    || req.extlen != 0
    || req.keylen != 0
    || req.bodylen != 0
    || req.datatype != raw_bytes)

unfoldable pub dcp_get_failover_log_validator : Packet → Status
dcp_get_failover_log_validator req = reject (
    req.magic != magic_req
    || req.extlen != 0
    || req.keylen != 0
    || req.bodylen != 0
    || req.datatype != raw_bytes)

unfoldable pub dcp_stream_req_validator : Packet → Status
dcp_stream_req_validator req = reject (
    req.magic != magic_req
    || req.extlen != 5 * sizeof_uint64 + 2 * sizeof_uint32
    || req.keylen != 0
    || req.datatype != raw_bytes)

unfoldable pub dcp_stream_end_validator : Packet → Status
dcp_stream_end_validator req = reject (
    req.magic != magic_req
    || req.extlen != 4
    || req.keylen != 0
    || req.bodylen != htonl 4
    || req.datatype != raw_bytes)

unfoldable pub dcp_snapshot_marker_validator : Packet → Status
dcp_snapshot_marker_validator req = reject (
    req.magic != magic_req
    || req.extlen != 20
    || req.keylen != 0
    || req.bodylen != htonl 20
    || req.datatype != raw_bytes)

unfoldable pub dcp_mutation_validator : Packet → Status
dcp_mutation_validator req = reject (
    req.magic != magic_req
    || req.extlen != 2 * sizeof_uint64 + 3 * sizeof_uint32 + sizeof_uint16 + sizeof_uint8
    || req.keylen == 0
    || req.bodylen == 0)

unfoldable pub dcp_deletion_validator : Packet → Status
dcp_deletion_validator req =
    reject
      (req.magic != magic_req || req.extlen != 2 * sizeof_uint64 + sizeof_uint16 || req.keylen == 0)

unfoldable pub dcp_expiration_validator : Packet → Status
dcp_expiration_validator req =
    let klen = ntohs req.keylen in
    let bodylen = sub32 (sub32 (ntohl req.bodylen) klen) req.extlen in
    reject (
      req.magic != magic_req
      || req.extlen != 2 * sizeof_uint64 + sizeof_uint16
      || req.keylen == 0
      || bodylen != 0)

unfoldable pub dcp_flush_validator : Packet → Status
dcp_flush_validator req = reject (
    req.magic != magic_req
    || req.extlen != 0
    || req.keylen != 0
    || req.bodylen != 0
    || req.datatype != raw_bytes)

unfoldable pub dcp_set_vbucket_state_validator : Packet → Status
dcp_set_vbucket_state_validator req =
    let state = req.body 0 in
    if req.magic != magic_req
      || req.extlen != 1
      || req.keylen != 0
      || ntohl req.bodylen != 1
      || req.datatype != raw_bytes
    then einval
    else if ltb state 1 || ltb 4 state
    then einval
    else success

unfoldable pub dcp_noop_validator : Packet → Status
dcp_noop_validator req = reject (
    req.magic != magic_req
    || req.extlen != 0
    || req.keylen != 0
    || req.bodylen != 0
    || req.datatype != raw_bytes)

unfoldable pub dcp_buffer_acknowledgement_validator : Packet → Status
dcp_buffer_acknowledgement_validator req = reject (
    req.magic != magic_req
    || req.extlen != 4
    || req.keylen != 0
    || req.bodylen != ntohl 4
    || req.datatype != raw_bytes)

unfoldable pub dcp_control_validator : Packet → Status
dcp_control_validator req =
    let nkey = ntohs req.keylen in
    let nval = sub32 (ntohl req.bodylen) nkey in
    reject (
      req.magic != magic_req
      || req.extlen != 0
      || nkey == 0
      || nval == 0
      || req.datatype != raw_bytes)
