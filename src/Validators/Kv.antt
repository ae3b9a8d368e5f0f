-- ===== src/Validators/Kv.antt =====
-- The validators of daemon/mcbp_validators.cc for the commands on keys.
use memcached.Common.{◌+◌, ◌&&◌, ◌||◌, ◌==◌, ◌!=◌, if◌then◌else◌}
use memcached.Protocol.{Status, einval, not_supported, Packet, magic_req, raw_bytes, ntohs, ntohl}
use memcached.Protocol.Wire.{load32}
use memcached.Validators.Dcp.{reject}

unfoldable pub flush_validator : Packet → Status
flush_validator req =
    let extlen = req.extlen in
    let bodylen = ntohl req.bodylen in
    let expiration = load32 req.body 0 in
    if extlen != 0 && extlen != 4
    then einval
    else if bodylen != extlen
    then einval
    else if extlen == 4 && expiration != 0
    then not_supported
    else reject
        (req.magic != magic_req || req.keylen != 0 || req.datatype != raw_bytes || req.cas != 0)

unfoldable pub add_validator : Packet → Status
add_validator req =
    reject (req.magic != magic_req || req.extlen != 8 || req.keylen == 0 || req.cas != 0)

unfoldable pub set_replace_validator : Packet → Status
set_replace_validator req = reject (req.magic != magic_req || req.extlen != 8 || req.keylen == 0)

unfoldable pub append_prepend_validator : Packet → Status
append_prepend_validator req = reject (req.magic != magic_req || req.extlen != 0 || req.keylen == 0)

unfoldable pub get_validator : Packet → Status
get_validator req =
    let klen = ntohs req.keylen in
    let blen = ntohl req.bodylen in
    reject (
      req.magic != magic_req
      || req.extlen != 0
      || klen == 0
      || klen != blen
      || req.datatype != raw_bytes
      || req.cas != 0)

unfoldable pub delete_validator : Packet → Status
delete_validator req =
    let klen = ntohs req.keylen in
    let blen = ntohl req.bodylen in
    reject (
      req.magic != magic_req
      || req.extlen != 0
      || klen == 0
      || klen != blen
      || req.datatype != raw_bytes)

unfoldable pub stat_validator : Packet → Status
stat_validator req =
    let klen = ntohs req.keylen in
    let blen = ntohl req.bodylen in
    reject (
      req.magic != magic_req
      || req.extlen != 0
      || klen != blen
      || req.cas != 0
      || req.datatype != raw_bytes)

unfoldable pub arithmetic_validator : Packet → Status
arithmetic_validator req =
    let klen = ntohs req.keylen in
    let blen = ntohl req.bodylen in
    let extlen = req.extlen in
    reject (
      req.magic != magic_req
      || extlen != 20
      || klen == 0
      || klen + extlen != blen
      || req.datatype != raw_bytes)

unfoldable pub observe_seqno_validator : Packet → Status
observe_seqno_validator req =
    let bodylen = ntohl req.bodylen in
    reject (
      req.magic != magic_req
      || req.extlen != 0
      || req.keylen != 0
      || bodylen != 8
      || req.datatype != raw_bytes)
