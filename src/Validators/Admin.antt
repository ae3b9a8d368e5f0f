-- ===== src/Validators/Admin.antt =====
-- The validators of daemon/mcbp_validators.cc for session, administration and maintenance commands.
use memcached.Common.{ℕ, ◌+◌, ◌%◌, ◌||◌, ◌==◌, ◌!=◌, ltb, leb}
use memcached.Protocol.{Status, Packet, magic_req, raw_bytes, ntohs, ntohl}
use memcached.Protocol.Wire.{load64}
use memcached.Validators.Dcp.{reject, sub32, sizeof_uint64, sizeof_uint8}

-- IOCTL_KEY_LENGTH and IOCTL_VAL_LENGTH of daemon/memcached.h
abbrev pub ioctl_key_length : ℕ
ioctl_key_length = 128

abbrev pub ioctl_val_length : ℕ
ioctl_val_length = 128

unfoldable pub isasl_refresh_validator : Packet → Status
isasl_refresh_validator req = reject (
    req.magic != magic_req
    || req.extlen != 0
    || req.keylen != 0
    || req.bodylen != 0
    || req.cas != 0
    || req.datatype != raw_bytes)

unfoldable pub ssl_certs_refresh_validator : Packet → Status
ssl_certs_refresh_validator req = reject (
    req.magic != magic_req
    || req.extlen != 0
    || req.keylen != 0
    || req.bodylen != 0
    || req.cas != 0
    || req.datatype != raw_bytes)

unfoldable pub verbosity_validator : Packet → Status
verbosity_validator req = reject (
    req.magic != magic_req
    || req.extlen != 4
    || req.keylen != 0
    || req.cas != 0
    || ntohl req.bodylen != 4
    || req.datatype != raw_bytes)

unfoldable pub hello_validator : Packet → Status
hello_validator req =
    let len = sub32 (ntohl req.bodylen) (ntohs req.keylen) in
    reject (
      req.magic != magic_req
      || req.extlen != 0
      || len % 2 != 0
      || req.cas != 0
      || req.datatype != raw_bytes)

unfoldable pub version_validator : Packet → Status
version_validator req = reject (
    req.magic != magic_req
    || req.extlen != 0
    || req.keylen != 0
    || req.bodylen != 0
    || req.cas != 0
    || req.datatype != raw_bytes)

unfoldable pub quit_validator : Packet → Status
quit_validator req = reject (
    req.magic != magic_req
    || req.extlen != 0
    || req.keylen != 0
    || req.bodylen != 0
    || req.datatype != raw_bytes
    || req.cas != 0)

unfoldable pub sasl_list_mech_validator : Packet → Status
sasl_list_mech_validator req = reject (
    req.magic != magic_req
    || req.extlen != 0
    || req.keylen != 0
    || req.bodylen != 0
    || req.cas != 0
    || req.datatype != raw_bytes)

unfoldable pub sasl_auth_validator : Packet → Status
sasl_auth_validator req = reject (
    req.magic != magic_req
    || req.extlen != 0
    || req.keylen == 0
    || req.cas != 0
    || req.datatype != raw_bytes)

unfoldable pub noop_validator : Packet → Status
noop_validator req = reject (
    req.magic != magic_req
    || req.extlen != 0
    || req.keylen != 0
    || req.bodylen != 0
    || req.datatype != raw_bytes
    || req.cas != 0)

unfoldable pub get_cmd_timer_validator : Packet → Status
get_cmd_timer_validator req =
    let klen = ntohs req.keylen in
    let blen = ntohl req.bodylen in
    let extlen = req.extlen in
    reject (
      req.magic != magic_req
      || extlen != 1
      || klen + extlen != blen
      || req.cas != 0
      || req.datatype != raw_bytes)

unfoldable pub set_ctrl_token_validator : Packet → Status
set_ctrl_token_validator req =
    let new_cas = load64 req.body 0 in
    reject (
      req.magic != magic_req
      || req.extlen != sizeof_uint64
      || req.keylen != 0
      || ntohl req.bodylen != sizeof_uint64
      || req.datatype != raw_bytes
      || new_cas == 0)

unfoldable pub get_ctrl_token_validator : Packet → Status
get_ctrl_token_validator req = reject (
    req.magic != magic_req
    || req.extlen != 0
    || req.keylen != 0
    || req.bodylen != 0
    || req.cas != 0
    || req.datatype != raw_bytes)

unfoldable pub init_complete_validator : Packet → Status
init_complete_validator req = reject (
    req.magic != magic_req
    || req.extlen != 0
    || req.keylen != 0
    || req.bodylen != 0
    || req.datatype != raw_bytes)

unfoldable pub ioctl_get_validator : Packet → Status
ioctl_get_validator req =
    let klen = ntohs req.keylen in
    let blen = ntohl req.bodylen in
    reject (
      req.magic != magic_req
      || req.extlen != 0
      || klen == 0
      || klen != blen
      || ltb ioctl_key_length klen
      || req.cas != 0
      || req.datatype != raw_bytes)

unfoldable pub ioctl_set_validator : Packet → Status
ioctl_set_validator req =
    let klen = ntohs req.keylen in
    let vallen = sub32 (ntohl req.bodylen) klen in
    reject (
      req.magic != magic_req
      || req.extlen != 0
      || req.cas != 0
      || klen == 0
      || ltb ioctl_key_length klen
      || ltb ioctl_val_length vallen
      || req.datatype != raw_bytes)

unfoldable pub audit_put_validator : Packet → Status
audit_put_validator req = reject (
    req.magic != magic_req
    || req.extlen != 4
    || req.keylen != 0
    || req.cas != 0
    || leb (ntohl req.bodylen) 4
    || req.datatype != raw_bytes)

unfoldable pub audit_config_reload_validator : Packet → Status
audit_config_reload_validator req = reject (
    req.magic != magic_req
    || req.extlen != 0
    || req.keylen != 0
    || req.bodylen != 0
    || req.cas != 0
    || req.datatype != raw_bytes)

unfoldable pub get_adjusted_time_validator : Packet → Status
get_adjusted_time_validator req = reject (
    req.magic != magic_req
    || req.extlen != 0
    || req.keylen != 0
    || req.bodylen != 0
    || req.cas != 0
    || req.datatype != raw_bytes)

unfoldable pub set_drift_counter_state_validator : Packet → Status
set_drift_counter_state_validator req = reject (
    req.magic != magic_req
    || req.extlen != sizeof_uint8 + sizeof_uint64
    || req.keylen != 0
    || ntohl req.bodylen != sizeof_uint8 + sizeof_uint64
    || req.datatype != raw_bytes)

unfoldable pub shutdown_validator : Packet → Status
shutdown_validator req = reject (
    req.magic != magic_req
    || req.extlen != 0
    || req.keylen != 0
    || req.bodylen != 0
    || req.cas == 0
    || req.datatype != raw_bytes)
