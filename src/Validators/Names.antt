-- ===== src/Validators/Names.antt =====
-- The validator functions as the values that the chains of daemon/mcbp_validators.h store, and the
-- template arguments of these chains.
use memcached.Protocol.{Status, Packet}
use memcached.Subdoc.Multi.{subdoc_multi_lookup_validator, subdoc_multi_mutation_validator}
use memcached.Subdoc.Single.{
  subdoc_get_validator, subdoc_exists_validator, subdoc_dict_add_validator,
  subdoc_dict_upsert_validator, subdoc_delete_validator, subdoc_replace_validator,
  subdoc_array_push_last_validator, subdoc_array_push_first_validator,
  subdoc_array_insert_validator, subdoc_array_add_unique_validator, subdoc_counter_validator,
  subdoc_get_count_validator,
}
use memcached.Validators.Admin.{
  isasl_refresh_validator, ssl_certs_refresh_validator, verbosity_validator, hello_validator,
  version_validator, quit_validator, sasl_list_mech_validator, sasl_auth_validator, noop_validator,
  get_cmd_timer_validator, set_ctrl_token_validator, get_ctrl_token_validator,
  init_complete_validator, ioctl_get_validator, ioctl_set_validator, audit_put_validator,
  audit_config_reload_validator, shutdown_validator, get_adjusted_time_validator,
  set_drift_counter_state_validator,
}
use memcached.Validators.Bucket.{
  create_bucket_validator, list_bucket_validator, delete_bucket_validator, select_bucket_validator,
  get_all_vb_seqnos_validator, tap_validator, get_collections_validator,
}
use memcached.Validators.Dcp.{
  dcp_open_validator, dcp_add_stream_validator, dcp_close_stream_validator,
  dcp_snapshot_marker_validator, dcp_deletion_validator, dcp_expiration_validator,
  dcp_flush_validator, dcp_get_failover_log_validator, dcp_mutation_validator,
  dcp_set_vbucket_state_validator, dcp_noop_validator, dcp_buffer_acknowledgement_validator,
  dcp_control_validator, dcp_stream_end_validator, dcp_stream_req_validator,
}
use memcached.Validators.Kv.{
  flush_validator, get_validator, delete_validator, stat_validator, arithmetic_validator,
  observe_seqno_validator, set_replace_validator, add_validator, append_prepend_validator,
}

-- The validator functions by name: what a function pointer in a chain can be.
pub data Validator : Type 0 where
  dcp_open dcp_add_stream dcp_close_stream dcp_snapshot_marker : Validator
  dcp_deletion dcp_expiration dcp_flush dcp_get_failover_log : Validator
  dcp_mutation dcp_set_vbucket_state dcp_noop dcp_buffer_acknowledgement : Validator
  dcp_control dcp_stream_end dcp_stream_req isasl_refresh : Validator
  ssl_certs_refresh verbosity hello version : Validator
  quit sasl_list_mech sasl_auth noop : Validator
  flush get delete stat : Validator
  arithmetic get_cmd_timer set_ctrl_token get_ctrl_token : Validator
  init_complete ioctl_get ioctl_set audit_put : Validator
  audit_config_reload shutdown observe_seqno get_adjusted_time : Validator
  set_drift_counter_state subdoc_get subdoc_exists subdoc_dict_add : Validator
  subdoc_dict_upsert subdoc_delete subdoc_replace subdoc_array_push_last : Validator
  subdoc_array_push_first subdoc_array_insert subdoc_array_add_unique subdoc_counter : Validator
  subdoc_multi_lookup subdoc_multi_mutation subdoc_get_count set_replace : Validator
  add append_prepend create_bucket list_bucket : Validator
  delete_bucket select_bucket get_all_vb_seqnos tap : Validator
  get_collections : Validator

unfoldable pub validate : Validator → Packet → Status
validate dcp_open = dcp_open_validator
validate dcp_add_stream = dcp_add_stream_validator
validate dcp_close_stream = dcp_close_stream_validator
validate dcp_snapshot_marker = dcp_snapshot_marker_validator
validate dcp_deletion = dcp_deletion_validator
validate dcp_expiration = dcp_expiration_validator
validate dcp_flush = dcp_flush_validator
validate dcp_get_failover_log = dcp_get_failover_log_validator
validate dcp_mutation = dcp_mutation_validator
validate dcp_set_vbucket_state = dcp_set_vbucket_state_validator
validate dcp_noop = dcp_noop_validator
validate dcp_buffer_acknowledgement = dcp_buffer_acknowledgement_validator
validate dcp_control = dcp_control_validator
validate dcp_stream_end = dcp_stream_end_validator
validate dcp_stream_req = dcp_stream_req_validator
validate isasl_refresh = isasl_refresh_validator
validate ssl_certs_refresh = ssl_certs_refresh_validator
validate verbosity = verbosity_validator
validate hello = hello_validator
validate version = version_validator
validate quit = quit_validator
validate sasl_list_mech = sasl_list_mech_validator
validate sasl_auth = sasl_auth_validator
validate noop = noop_validator
validate flush = flush_validator
validate get = get_validator
validate delete = delete_validator
validate stat = stat_validator
validate arithmetic = arithmetic_validator
validate get_cmd_timer = get_cmd_timer_validator
validate set_ctrl_token = set_ctrl_token_validator
validate get_ctrl_token = get_ctrl_token_validator
validate init_complete = init_complete_validator
validate ioctl_get = ioctl_get_validator
validate ioctl_set = ioctl_set_validator
validate audit_put = audit_put_validator
validate audit_config_reload = audit_config_reload_validator
validate shutdown = shutdown_validator
validate observe_seqno = observe_seqno_validator
validate get_adjusted_time = get_adjusted_time_validator
validate set_drift_counter_state = set_drift_counter_state_validator
validate subdoc_get = subdoc_get_validator
validate subdoc_exists = subdoc_exists_validator
validate subdoc_dict_add = subdoc_dict_add_validator
validate subdoc_dict_upsert = subdoc_dict_upsert_validator
validate subdoc_delete = subdoc_delete_validator
validate subdoc_replace = subdoc_replace_validator
validate subdoc_array_push_last = subdoc_array_push_last_validator
validate subdoc_array_push_first = subdoc_array_push_first_validator
validate subdoc_array_insert = subdoc_array_insert_validator
validate subdoc_array_add_unique = subdoc_array_add_unique_validator
validate subdoc_counter = subdoc_counter_validator
validate subdoc_multi_lookup = subdoc_multi_lookup_validator
validate subdoc_multi_mutation = subdoc_multi_mutation_validator
validate subdoc_get_count = subdoc_get_count_validator
validate set_replace = set_replace_validator
validate add = add_validator
validate append_prepend = append_prepend_validator
validate create_bucket = create_bucket_validator
validate list_bucket = list_bucket_validator
validate delete_bucket = delete_bucket_validator
validate select_bucket = select_bucket_validator
validate get_all_vb_seqnos = get_all_vb_seqnos_validator
validate tap = tap_validator
validate get_collections = get_collections_validator
