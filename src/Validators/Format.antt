-- ===== src/Validators/Format.antt =====
-- The format of each command as a table: how long its extras, key and value are, which cas it takes, and
-- whether it must be raw bytes. The commands that docs/BinaryProtocol.md describes have their extras, key
-- and value from there, but for the value of append_prepend, which the document asks for and the comment
-- in daemon/mcbp_validators.cc lets be empty.
use memcached.Common.{ℕ, ◌+◌, ◌-◌, ◌%◌, ◌≤◌, ◌≡◌, Option, none, some}
use memcached.Protocol.{Packet, magic_req, ntohs, ntohl}
use memcached.Validators.Names.{
  Validator, dcp_open, dcp_add_stream, dcp_close_stream, dcp_snapshot_marker, dcp_deletion,
  dcp_expiration, dcp_flush, dcp_get_failover_log, dcp_mutation, dcp_set_vbucket_state, dcp_noop,
  dcp_buffer_acknowledgement, dcp_control, dcp_stream_end, dcp_stream_req, isasl_refresh,
  ssl_certs_refresh, verbosity, hello, version, quit, sasl_list_mech, sasl_auth, noop, flush, get,
  delete, stat, arithmetic, get_cmd_timer, set_ctrl_token, get_ctrl_token, init_complete, ioctl_get,
  ioctl_set, audit_put, audit_config_reload, shutdown, observe_seqno, get_adjusted_time,
  set_drift_counter_state, subdoc_get, subdoc_exists, subdoc_dict_add, subdoc_dict_upsert,
  subdoc_delete, subdoc_replace, subdoc_array_push_last, subdoc_array_push_first,
  subdoc_array_insert, subdoc_array_add_unique, subdoc_counter, subdoc_multi_lookup,
  subdoc_multi_mutation, subdoc_get_count, set_replace, add, append_prepend, create_bucket,
  list_bucket, delete_bucket, select_bucket, get_all_vb_seqnos, tap, get_collections,
}

-- What is asked of a number.
pub data Rule : Type 0 where
  any even : Rule
  exactly at_least : ℕ → Rule
  between : ℕ → ℕ → Rule

abbrev pub Fits : Rule → ℕ → Type 0
Fits any n = Unit {0}
Fits even n = n % 2 ≡ 0
Fits (exactly m) n = n ≡ m
Fits (at_least m) n = m ≤ n
Fits (between lo hi) n = (lo ≤ n) × (n ≤ hi)

pub record Format : Type 0 where
  pub extras : Rule
  pub key : Rule
  pub value : Rule
  pub cas : Rule
  pub datatype : Rule

-- The value is what the body holds behind the extras and the key.
abbrev pub value_length : Packet → ℕ
value_length req = ntohl req.bodylen - (ntohs req.keylen + req.extlen)

pub record Conforms (format : Format) (req : Packet) : Type 0 where
  pub magic : req.magic ≡ magic_req
  pub extras : Fits format.extras req.extlen
  pub key : Fits format.key (ntohs req.keylen)
  pub value : Fits format.value (value_length req)
  pub cas : Fits format.cas req.cas
  pub datatype : Fits format.datatype req.datatype

-- The formats of the commands whose validity the header alone decides.
abbrev formatted : Rule → Rule → Rule → Rule → Rule → Option Format
formatted extras key value cas datatype =
    some (record { extras = extras; key = key; value = value; cas = cas; datatype = datatype })

unfoldable pub format_of : Validator → Option Format
format_of dcp_open = formatted (exactly 8) (at_least 1) any any (exactly 0)
format_of dcp_add_stream = formatted (exactly 4) (exactly 0) (exactly 0) any (exactly 0)
format_of dcp_close_stream = formatted (exactly 0) (exactly 0) (exactly 0) any (exactly 0)
format_of dcp_snapshot_marker = formatted (exactly 20) (exactly 0) (exactly 0) any (exactly 0)
format_of dcp_deletion = formatted (exactly 18) (at_least 1) any any any
format_of dcp_expiration = formatted (exactly 18) (at_least 1) (exactly 0) any any
format_of dcp_flush = formatted (exactly 0) (exactly 0) (exactly 0) any (exactly 0)
format_of dcp_get_failover_log = formatted (exactly 0) (exactly 0) (exactly 0) any (exactly 0)
format_of dcp_mutation = formatted (exactly 31) (at_least 1) any any any
format_of dcp_noop = formatted (exactly 0) (exactly 0) (exactly 0) any (exactly 0)
format_of dcp_buffer_acknowledgement = formatted (exactly 4) (exactly 0) (exactly 0) any (exactly 0)
format_of dcp_control = formatted (exactly 0) (at_least 1) (at_least 1) any (exactly 0)
format_of dcp_stream_end = formatted (exactly 4) (exactly 0) (exactly 0) any (exactly 0)
format_of dcp_stream_req = formatted (exactly 48) (exactly 0) any any (exactly 0)
format_of isasl_refresh = formatted (exactly 0) (exactly 0) (exactly 0) (exactly 0) (exactly 0)
format_of ssl_certs_refresh = formatted (exactly 0) (exactly 0) (exactly 0) (exactly 0) (exactly 0)
format_of verbosity = formatted (exactly 4) (exactly 0) (exactly 0) (exactly 0) (exactly 0)
format_of hello = formatted (exactly 0) any even (exactly 0) (exactly 0)
format_of version = formatted (exactly 0) (exactly 0) (exactly 0) (exactly 0) (exactly 0)
format_of quit = formatted (exactly 0) (exactly 0) (exactly 0) (exactly 0) (exactly 0)
format_of sasl_list_mech = formatted (exactly 0) (exactly 0) (exactly 0) (exactly 0) (exactly 0)
format_of sasl_auth = formatted (exactly 0) (at_least 1) any (exactly 0) (exactly 0)
format_of noop = formatted (exactly 0) (exactly 0) (exactly 0) (exactly 0) (exactly 0)
format_of get = formatted (exactly 0) (at_least 1) (exactly 0) (exactly 0) (exactly 0)
format_of delete = formatted (exactly 0) (at_least 1) (exactly 0) any (exactly 0)
format_of stat = formatted (exactly 0) any (exactly 0) (exactly 0) (exactly 0)
format_of arithmetic = formatted (exactly 20) (at_least 1) (exactly 0) any (exactly 0)
format_of get_cmd_timer = formatted (exactly 1) any (exactly 0) (exactly 0) (exactly 0)
format_of get_ctrl_token = formatted (exactly 0) (exactly 0) (exactly 0) (exactly 0) (exactly 0)
format_of init_complete = formatted (exactly 0) (exactly 0) (exactly 0) any (exactly 0)
format_of ioctl_get = formatted (exactly 0) (between 1 128) (exactly 0) (exactly 0) (exactly 0)
format_of ioctl_set = formatted (exactly 0) (between 1 128) (between 0 128) (exactly 0) (exactly 0)
format_of audit_put = formatted (exactly 4) (exactly 0) (at_least 1) (exactly 0) (exactly 0)
format_of audit_config_reload =
    formatted (exactly 0) (exactly 0) (exactly 0) (exactly 0) (exactly 0)
format_of shutdown = formatted (exactly 0) (exactly 0) (exactly 0) (at_least 1) (exactly 0)
format_of observe_seqno = formatted (exactly 0) (exactly 0) (exactly 8) any (exactly 0)
format_of get_adjusted_time = formatted (exactly 0) (exactly 0) (exactly 0) (exactly 0) (exactly 0)
format_of set_drift_counter_state = formatted (exactly 9) (exactly 0) (exactly 0) any (exactly 0)
format_of set_replace = formatted (exactly 8) (at_least 1) any any any
format_of add = formatted (exactly 8) (at_least 1) any (exactly 0) any
format_of append_prepend = formatted (exactly 0) (at_least 1) any any any
format_of create_bucket = formatted (exactly 0) (between 1 100) (at_least 1) any (exactly 0)
format_of list_bucket = formatted (exactly 0) (exactly 0) (exactly 0) any (exactly 0)
format_of delete_bucket = formatted (exactly 0) (at_least 1) any any (exactly 0)
format_of select_bucket = formatted (exactly 0) (between 0 1023) (exactly 0) any (exactly 0)
format_of dcp_set_vbucket_state = none
format_of flush = none
format_of set_ctrl_token = none
format_of subdoc_get = none
format_of subdoc_exists = none
format_of subdoc_dict_add = none
format_of subdoc_dict_upsert = none
format_of subdoc_delete = none
format_of subdoc_replace = none
format_of subdoc_array_push_last = none
format_of subdoc_array_push_first = none
format_of subdoc_array_insert = none
format_of subdoc_array_add_unique = none
format_of subdoc_counter = none
format_of subdoc_multi_lookup = none
format_of subdoc_multi_mutation = none
format_of subdoc_get_count = none
format_of get_all_vb_seqnos = none
format_of tap = none
format_of get_collections = none
