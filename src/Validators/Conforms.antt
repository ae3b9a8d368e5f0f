-- ===== src/Validators/Conforms.antt =====
-- The validators that look at the header alone accept a packet exactly when it has the format that the
-- table states for their command.
mod Lengths
mod Dcp
mod Admin
mod Kv
mod Bucket
use memcached.Common.{◌≡◌, sym, subst, ◌↔◌, Option, some, arith}
use memcached.Protocol.{HeaderFits, Packet, HasWidths, success, Status}
use memcached.Validators.Names.{
  Validator, validate, dcp_open, dcp_add_stream, dcp_close_stream, dcp_snapshot_marker,
  dcp_deletion, dcp_expiration, dcp_flush, dcp_get_failover_log, dcp_mutation,
  dcp_set_vbucket_state, dcp_noop, dcp_buffer_acknowledgement, dcp_control, dcp_stream_end,
  dcp_stream_req, isasl_refresh, ssl_certs_refresh, verbosity, hello, version, quit, sasl_list_mech,
  sasl_auth, noop, flush, get, delete, stat, arithmetic, get_cmd_timer, set_ctrl_token,
  get_ctrl_token, init_complete, ioctl_get, ioctl_set, audit_put, audit_config_reload, shutdown,
  observe_seqno, get_adjusted_time, set_drift_counter_state, subdoc_get, subdoc_exists,
  subdoc_dict_add, subdoc_dict_upsert, subdoc_delete, subdoc_replace, subdoc_array_push_last,
  subdoc_array_push_first, subdoc_array_insert, subdoc_array_add_unique, subdoc_counter,
  subdoc_multi_lookup, subdoc_multi_mutation, subdoc_get_count, set_replace, add, append_prepend,
  create_bucket, list_bucket, delete_bucket, select_bucket, get_all_vb_seqnos, tap, get_collections,
}
use memcached.Validators.Format.{Format, Conforms, format_of}
use mathlib.Core.Option.{some-injective}
use Lengths.{Facts, known_lengths}
use Dcp.{
  dcp_open_validator-Conforms, dcp_add_stream_validator-Conforms,
  dcp_close_stream_validator-Conforms, dcp_snapshot_marker_validator-Conforms,
  dcp_deletion_validator-Conforms, dcp_expiration_validator-Conforms, dcp_flush_validator-Conforms,
  dcp_get_failover_log_validator-Conforms, dcp_mutation_validator-Conforms,
  dcp_noop_validator-Conforms, dcp_buffer_acknowledgement_validator-Conforms,
  dcp_control_validator-Conforms, dcp_stream_end_validator-Conforms,
  dcp_stream_req_validator-Conforms,
}
use Admin.{
  isasl_refresh_validator-Conforms, ssl_certs_refresh_validator-Conforms,
  verbosity_validator-Conforms, hello_validator-Conforms, version_validator-Conforms,
  quit_validator-Conforms, sasl_list_mech_validator-Conforms, sasl_auth_validator-Conforms,
  noop_validator-Conforms, get_cmd_timer_validator-Conforms, get_ctrl_token_validator-Conforms,
  init_complete_validator-Conforms, ioctl_get_validator-Conforms, ioctl_set_validator-Conforms,
  audit_put_validator-Conforms, audit_config_reload_validator-Conforms, shutdown_validator-Conforms,
  get_adjusted_time_validator-Conforms, set_drift_counter_state_validator-Conforms,
}
use Kv.{
  get_validator-Conforms, delete_validator-Conforms, stat_validator-Conforms,
  arithmetic_validator-Conforms, observe_seqno_validator-Conforms, set_replace_validator-Conforms,
  add_validator-Conforms, append_prepend_validator-Conforms,
}
use Bucket.{
  create_bucket_validator-Conforms, list_bucket_validator-Conforms,
  delete_bucket_validator-Conforms, select_bucket_validator-Conforms,
}

-- Where the table has the format `known`, a fact about `known` is one about the table's entry.
known_format :
    {known f : Format} {req : Packet} {status : Status}
    → some known ≡ some f
    → (status ≡ success) ↔ Conforms known req
    → (status ≡ success) ↔ Conforms f req
known_format {known} {f} {req} {status} e =
    subst (λ (o : Format). (status ≡ success) ↔ Conforms o req) (some-injective known f e)

validator_by_format :
    (v : Validator) (req : Packet) (f : Format)
    → Facts req
    → format_of v ≡ some f
    → (validate v req ≡ success) ↔ Conforms f req
unfolding format_of validate
validator_by_format dcp_open req f facts e = known_format e (dcp_open_validator-Conforms req facts)
validator_by_format dcp_add_stream req f facts e =
    known_format e (dcp_add_stream_validator-Conforms req facts)
validator_by_format dcp_close_stream req f facts e =
    known_format e (dcp_close_stream_validator-Conforms req facts)
validator_by_format dcp_snapshot_marker req f facts e =
    known_format e (dcp_snapshot_marker_validator-Conforms req facts)
validator_by_format dcp_deletion req f facts e =
    known_format e (dcp_deletion_validator-Conforms req facts)
validator_by_format dcp_expiration req f facts e =
    known_format e (dcp_expiration_validator-Conforms req facts)
validator_by_format dcp_flush req f facts e =
    known_format e (dcp_flush_validator-Conforms req facts)
validator_by_format dcp_get_failover_log req f facts e =
    known_format e (dcp_get_failover_log_validator-Conforms req facts)
validator_by_format dcp_mutation req f facts e =
    known_format e (dcp_mutation_validator-Conforms req facts)
validator_by_format dcp_set_vbucket_state req f facts e = absurd (cc)
validator_by_format dcp_noop req f facts e = known_format e (dcp_noop_validator-Conforms req facts)
validator_by_format dcp_buffer_acknowledgement req f facts e =
    known_format e (dcp_buffer_acknowledgement_validator-Conforms req facts)
validator_by_format dcp_control req f facts e =
    known_format e (dcp_control_validator-Conforms req facts)
validator_by_format dcp_stream_end req f facts e =
    known_format e (dcp_stream_end_validator-Conforms req facts)
validator_by_format dcp_stream_req req f facts e =
    known_format e (dcp_stream_req_validator-Conforms req facts)
validator_by_format isasl_refresh req f facts e =
    known_format e (isasl_refresh_validator-Conforms req facts)
validator_by_format ssl_certs_refresh req f facts e =
    known_format e (ssl_certs_refresh_validator-Conforms req facts)
validator_by_format verbosity req f facts e =
    known_format e (verbosity_validator-Conforms req facts)
validator_by_format hello req f facts e = known_format e (hello_validator-Conforms req facts)
validator_by_format version req f facts e = known_format e (version_validator-Conforms req facts)
validator_by_format quit req f facts e = known_format e (quit_validator-Conforms req facts)
validator_by_format sasl_list_mech req f facts e =
    known_format e (sasl_list_mech_validator-Conforms req facts)
validator_by_format sasl_auth req f facts e =
    known_format e (sasl_auth_validator-Conforms req facts)
validator_by_format noop req f facts e = known_format e (noop_validator-Conforms req facts)
validator_by_format flush req f facts e = absurd (cc)
validator_by_format get req f facts e = known_format e (get_validator-Conforms req facts)
validator_by_format delete req f facts e = known_format e (delete_validator-Conforms req facts)
validator_by_format stat req f facts e = known_format e (stat_validator-Conforms req facts)
validator_by_format arithmetic req f facts e =
    known_format e (arithmetic_validator-Conforms req facts)
validator_by_format get_cmd_timer req f facts e =
    known_format e (get_cmd_timer_validator-Conforms req facts)
validator_by_format set_ctrl_token req f facts e = absurd (cc)
validator_by_format get_ctrl_token req f facts e =
    known_format e (get_ctrl_token_validator-Conforms req facts)
validator_by_format init_complete req f facts e =
    known_format e (init_complete_validator-Conforms req facts)
validator_by_format ioctl_get req f facts e =
    known_format e (ioctl_get_validator-Conforms req facts)
validator_by_format ioctl_set req f facts e =
    known_format e (ioctl_set_validator-Conforms req facts)
validator_by_format audit_put req f facts e =
    known_format e (audit_put_validator-Conforms req facts)
validator_by_format audit_config_reload req f facts e =
    known_format e (audit_config_reload_validator-Conforms req facts)
validator_by_format shutdown req f facts e = known_format e (shutdown_validator-Conforms req facts)
validator_by_format observe_seqno req f facts e =
    known_format e (observe_seqno_validator-Conforms req facts)
validator_by_format get_adjusted_time req f facts e =
    known_format e (get_adjusted_time_validator-Conforms req facts)
validator_by_format set_drift_counter_state req f facts e =
    known_format e (set_drift_counter_state_validator-Conforms req facts)
validator_by_format subdoc_get req f facts e = absurd (cc)
validator_by_format subdoc_exists req f facts e = absurd (cc)
validator_by_format subdoc_dict_add req f facts e = absurd (cc)
validator_by_format subdoc_dict_upsert req f facts e = absurd (cc)
validator_by_format subdoc_delete req f facts e = absurd (cc)
validator_by_format subdoc_replace req f facts e = absurd (cc)
validator_by_format subdoc_array_push_last req f facts e = absurd (cc)
validator_by_format subdoc_array_push_first req f facts e = absurd (cc)
validator_by_format subdoc_array_insert req f facts e = absurd (cc)
validator_by_format subdoc_array_add_unique req f facts e = absurd (cc)
validator_by_format subdoc_counter req f facts e = absurd (cc)
validator_by_format subdoc_multi_lookup req f facts e = absurd (cc)
validator_by_format subdoc_multi_mutation req f facts e = absurd (cc)
validator_by_format subdoc_get_count req f facts e = absurd (cc)
validator_by_format set_replace req f facts e =
    known_format e (set_replace_validator-Conforms req facts)
validator_by_format add req f facts e = known_format e (add_validator-Conforms req facts)
validator_by_format append_prepend req f facts e =
    known_format e (append_prepend_validator-Conforms req facts)
validator_by_format create_bucket req f facts e =
    known_format e (create_bucket_validator-Conforms req facts)
validator_by_format list_bucket req f facts e =
    known_format e (list_bucket_validator-Conforms req facts)
validator_by_format delete_bucket req f facts e =
    known_format e (delete_bucket_validator-Conforms req facts)
validator_by_format select_bucket req f facts e =
    known_format e (select_bucket_validator-Conforms req facts)
validator_by_format get_all_vb_seqnos req f facts e = absurd (cc)
validator_by_format tap req f facts e = absurd (cc)
validator_by_format get_collections req f facts e = absurd (cc)

-- For each validator with an entry in the table of formats: on a packet that passed the header check
-- it accepts exactly the packets that conform to the entry, which says how long the extras, the key
-- and the value are and what cas and data type may be. In the entry of append and prepend the value
-- may be empty, although docs/BinaryProtocol.md says that there must be one.
pub validate_iff_Conforms :
    (v : Validator) (req : Packet) (f : Format)
    → HasWidths req.header
    → HeaderFits req
    → format_of v ≡ some f
    → (validate v req ≡ success) ↔ Conforms f req
validate_iff_Conforms v req f w fits = validator_by_format v req f (known_lengths req w fits)
