-- ===== src/Validators/Table.antt =====
-- McbpValidatorChains of daemon/mcbp_validators.h: which validators each opcode has, and the
-- dispatch to them.
use memcached.Common.{ℕ, List, [], ◌∷◌}
use memcached.Protocol.{Status, Packet}
use memcached.Protocol.Opcodes
use memcached.Chain.{invoke}
use memcached.Chain.Table.{Chains, no_chains, push_all}
use memcached.Validators.Names.{
  Validator, validate, dcp_open, dcp_add_stream, dcp_close_stream, dcp_snapshot_marker,
  dcp_deletion, dcp_expiration, dcp_flush, dcp_get_failover_log, dcp_mutation,
  dcp_set_vbucket_state, dcp_noop, dcp_buffer_acknowledgement, dcp_control, dcp_stream_end,
  dcp_stream_req, isasl_refresh, ssl_certs_refresh, verbosity, hello, version, quit, sasl_list_mech,
  sasl_auth, noop, flush, get, delete, stat, arithmetic, get_cmd_timer, set_ctrl_token,
  get_ctrl_token, init_complete, ioctl_get, ioctl_set, audit_put, audit_config_reload, shutdown,
  observe_seqno, get_adjusted_time, set_drift_counter_state, subdoc_get, subdoc_exists,
  subdoc_dict_add, subdoc_dict_upsert, subdoc_delete, subdoc_replace, subdoc_array_push_last,
  subdoc_array_push_first, subdoc_array_insert, subdoc_array_add_unique, subdoc_counter,
  subdoc_multi_lookup, subdoc_multi_mutation, subdoc_get_count, set_replace, add, append_prepend,
  create_bucket, list_bucket, delete_bucket, select_bucket, get_all_vb_seqnos, tap, get_collections,
}
use memcached.Validators.Addresses.{validator_addressed, status_returns}

-- The calls of initializeMcbpValidatorChains, in order.
unfoldable pub validator_calls : List (ℕ × Validator)
validator_calls =
    (Opcodes.cmd_dcp_open, dcp_open)
    ∷ (Opcodes.cmd_dcp_add_stream, dcp_add_stream)
    ∷ (Opcodes.cmd_dcp_close_stream, dcp_close_stream)
    ∷ (Opcodes.cmd_dcp_snapshot_marker, dcp_snapshot_marker)
    ∷ (Opcodes.cmd_dcp_deletion, dcp_deletion)
    ∷ (Opcodes.cmd_dcp_expiration, dcp_expiration)
    ∷ (Opcodes.cmd_dcp_flush, dcp_flush)
    ∷ (Opcodes.cmd_dcp_get_failover_log, dcp_get_failover_log)
    ∷ (Opcodes.cmd_dcp_mutation, dcp_mutation)
    ∷ (Opcodes.cmd_dcp_set_vbucket_state, dcp_set_vbucket_state)
    ∷ (Opcodes.cmd_dcp_noop, dcp_noop)
    ∷ (Opcodes.cmd_dcp_buffer_acknowledgement, dcp_buffer_acknowledgement)
    ∷ (Opcodes.cmd_dcp_control, dcp_control)
    ∷ (Opcodes.cmd_dcp_stream_end, dcp_stream_end)
    ∷ (Opcodes.cmd_dcp_stream_req, dcp_stream_req)
    ∷ (Opcodes.cmd_isasl_refresh, isasl_refresh)
    ∷ (Opcodes.cmd_ssl_certs_refresh, ssl_certs_refresh)
    ∷ (Opcodes.cmd_verbosity, verbosity)
    ∷ (Opcodes.cmd_hello, hello)
    ∷ (Opcodes.cmd_version, version)
    ∷ (Opcodes.cmd_quit, quit)
    ∷ (Opcodes.cmd_quitq, quit)
    ∷ (Opcodes.cmd_sasl_list_mechs, sasl_list_mech)
    ∷ (Opcodes.cmd_sasl_auth, sasl_auth)
    ∷ (Opcodes.cmd_sasl_step, sasl_auth)
    ∷ (Opcodes.cmd_noop, noop)
    ∷ (Opcodes.cmd_flush, flush)
    ∷ (Opcodes.cmd_flushq, flush)
    ∷ (Opcodes.cmd_get, get)
    ∷ (Opcodes.cmd_getq, get)
    ∷ (Opcodes.cmd_getk, get)
    ∷ (Opcodes.cmd_getkq, get)
    ∷ (Opcodes.cmd_delete, delete)
    ∷ (Opcodes.cmd_deleteq, delete)
    ∷ (Opcodes.cmd_stat, stat)
    ∷ (Opcodes.cmd_increment, arithmetic)
    ∷ (Opcodes.cmd_incrementq, arithmetic)
    ∷ (Opcodes.cmd_decrement, arithmetic)
    ∷ (Opcodes.cmd_decrementq, arithmetic)
    ∷ (Opcodes.cmd_get_cmd_timer, get_cmd_timer)
    ∷ (Opcodes.cmd_set_ctrl_token, set_ctrl_token)
    ∷ (Opcodes.cmd_get_ctrl_token, get_ctrl_token)
    ∷ (Opcodes.cmd_init_complete, init_complete)
    ∷ (Opcodes.cmd_ioctl_get, ioctl_get)
    ∷ (Opcodes.cmd_ioctl_set, ioctl_set)
    ∷ (Opcodes.cmd_audit_put, audit_put)
    ∷ (Opcodes.cmd_audit_config_reload, audit_config_reload)
    ∷ (Opcodes.cmd_shutdown, shutdown)
    ∷ (Opcodes.cmd_observe_seqno, observe_seqno)
    ∷ (Opcodes.cmd_get_adjusted_time, get_adjusted_time)
    ∷ (Opcodes.cmd_set_drift_counter_state, set_drift_counter_state)
    ∷ (Opcodes.cmd_subdoc_get, subdoc_get)
    ∷ (Opcodes.cmd_subdoc_exists, subdoc_exists)
    ∷ (Opcodes.cmd_subdoc_dict_add, subdoc_dict_add)
    ∷ (Opcodes.cmd_subdoc_dict_upsert, subdoc_dict_upsert)
    ∷ (Opcodes.cmd_subdoc_delete, subdoc_delete)
    ∷ (Opcodes.cmd_subdoc_replace, subdoc_replace)
    ∷ (Opcodes.cmd_subdoc_array_push_last, subdoc_array_push_last)
    ∷ (Opcodes.cmd_subdoc_array_push_first, subdoc_array_push_first)
    ∷ (Opcodes.cmd_subdoc_array_insert, subdoc_array_insert)
    ∷ (Opcodes.cmd_subdoc_array_add_unique, subdoc_array_add_unique)
    ∷ (Opcodes.cmd_subdoc_counter, subdoc_counter)
    ∷ (Opcodes.cmd_subdoc_multi_lookup, subdoc_multi_lookup)
    ∷ (Opcodes.cmd_subdoc_multi_mutation, subdoc_multi_mutation)
    ∷ (Opcodes.cmd_subdoc_get_count, subdoc_get_count)
    ∷ (Opcodes.cmd_setq, set_replace)
    ∷ (Opcodes.cmd_set, set_replace)
    ∷ (Opcodes.cmd_addq, add)
    ∷ (Opcodes.cmd_add, add)
    ∷ (Opcodes.cmd_replaceq, set_replace)
    ∷ (Opcodes.cmd_replace, set_replace)
    ∷ (Opcodes.cmd_appendq, append_prepend)
    ∷ (Opcodes.cmd_append, append_prepend)
    ∷ (Opcodes.cmd_prependq, append_prepend)
    ∷ (Opcodes.cmd_prepend, append_prepend)
    ∷ (Opcodes.cmd_create_bucket, create_bucket)
    ∷ (Opcodes.cmd_list_buckets, list_bucket)
    ∷ (Opcodes.cmd_delete_bucket, delete_bucket)
    ∷ (Opcodes.cmd_select_bucket, select_bucket)
    ∷ (Opcodes.cmd_get_all_vb_seqnos, get_all_vb_seqnos)
    ∷ (Opcodes.cmd_tap_mutation, tap)
    ∷ (Opcodes.cmd_tap_checkpoint_end, tap)
    ∷ (Opcodes.cmd_tap_checkpoint_start, tap)
    ∷ (Opcodes.cmd_tap_delete, tap)
    ∷ (Opcodes.cmd_tap_flush, tap)
    ∷ (Opcodes.cmd_tap_opaque, tap)
    ∷ (Opcodes.cmd_tap_vbucket_set, tap)
    ∷ []

unfoldable pub initialize_mcbp_validator_chains : Chains Validator → Chains Validator
unfolding validator_calls
initialize_mcbp_validator_chains chains = push_all validator_calls chains

-- The calls of enableCollections.
unfoldable pub collection_calls : List (ℕ × Validator)
collection_calls =
    (Opcodes.cmd_get, get_collections)
    ∷ (Opcodes.cmd_getq, get_collections)
    ∷ (Opcodes.cmd_getk, get_collections)
    ∷ (Opcodes.cmd_getkq, get_collections)
    ∷ []

unfoldable pub enable_collections : Chains Validator → Chains Validator
unfolding collection_calls
enable_collections chains = push_all collection_calls chains

-- McbpValidatorChains::invoke on the chains of a bucket
unfoldable pub validate_command : Chains Validator → ℕ → Packet → Status
validate_command chains command req = invoke validate (chains command) req

-- The chains of a bucket (daemon/memcached.cc initialises them once for each).
unfoldable pub mcbp_validator_chains : Chains Validator
mcbp_validator_chains = initialize_mcbp_validator_chains no_chains
