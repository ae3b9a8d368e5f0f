-- ===== src/Protocol.antt =====
-- The binary protocol's data (include/memcached/protocol_binary.h): the response codes, the request
-- header and the packet that the validators and executors look at. The fields of a header are the
-- numbers that a little-endian host reads from the packet's bytes, so a length of more than a byte
-- is in network order until `ntohs` or `ntohl` swaps it.
pub mod Opcodes
pub mod Wire
use memcached.Common.{ℕ, ◌+◌, ◌*◌, ◌/◌, ◌%◌, ◌^◌, ◌<◌, ◌≤◌, ◌≡◌, Bool, ◌==◌, leb}

-- protocol_binary_response_status
pub data Status : Type 0 where
  success key_enoent key_eexists e2big einval not_stored delta_badval not_my_vbucket : Status
  no_bucket auth_stale auth_error auth_continue erange rollback eaccess not_initialized : Status
  unknown_command enomem not_supported einternal ebusy etmpfail : Status
  subdoc_path_enoent subdoc_path_mismatch subdoc_path_einval subdoc_path_e2big : Status
  subdoc_doc_e2deep subdoc_value_cantinsert subdoc_doc_notjson subdoc_num_erange : Status
  subdoc_delta_einval subdoc_path_eexists subdoc_value_etoodeep subdoc_invalid_combo : Status
  subdoc_multi_path_failure : Status

abbrev pub magic_req : ℕ
magic_req = 0x80

abbrev pub magic_res : ℕ
magic_res = 0x81

abbrev pub raw_bytes : ℕ
raw_bytes = 0

-- protocol_binary_request_header
pub record Header : Type 0 where
  pub magic : ℕ  -- uint8
  pub opcode : ℕ  -- uint8
  pub keylen : ℕ  -- uint16
  pub extlen : ℕ  -- uint8
  pub datatype : ℕ  -- uint8
  pub vbucket : ℕ  -- uint16
  pub bodylen : ℕ  -- uint32
  pub opaque : ℕ  -- uint32
  pub cas : ℕ  -- uint64

-- A packet in memory: its header and the bytes behind it, by their offset from the header's end.
-- What lies beyond the body is memory too, which the code can read.
pub record Packet : Type 0 where
  pub header : Header
  pub open header use *
  pub body : ℕ → ℕ

-- mcbp::datatype::is_raw and is_valid
unfoldable pub is_raw : ℕ → Bool
is_raw datatype = datatype == raw_bytes

unfoldable pub is_valid : ℕ → Bool
is_valid datatype = leb datatype 7

-- The platform's byte swaps, which turn network order into a little-endian host's and back.
unfoldable pub ntohs : ℕ → ℕ
ntohs x = x % 256 * 256 + x / 256 % 256

unfoldable pub ntohl : ℕ → ℕ
ntohl x = x % 256 * 2 ^ 24 + x / 2 ^ 8 % 256 * 2 ^ 16 + x / 2 ^ 16 % 256 * 2 ^ 8 + x / 2 ^ 24 % 256

-- htons and htonl are the same swaps.
abbrev pub htons : ℕ → ℕ
htons x = ntohs x

abbrev pub htonl : ℕ → ℕ
htonl x = ntohl x

-- The widths of the fields that are compared with more than a constant.
pub record HasWidths (h : Header) : Type 0 where
  pub keylen_width : h.keylen < 2 ^ 16
  pub extlen_width : h.extlen < 2 ^ 8
  pub bodylen_width : h.bodylen < 2 ^ 32

-- What validate_bin_header of daemon/mcbp_executors.cc has checked before a validator runs.
abbrev pub HeaderFits : Packet → Type 0
HeaderFits req = ntohs req.keylen + req.extlen ≤ ntohl req.bodylen
