-- ===== src/Privileges/Table.antt =====
-- McbpPrivilegeChains of daemon/mcbp_privileges.cc: what each opcode requires.
use memcached.Common.{ℕ, List, [], ◌∷◌, Bool, if◌then◌else◌}
use memcached.Protocol.Opcodes
use memcached.Chain.{invoke, is_empty}
use memcached.Chain.Table.{Chains, no_chains, push_all}
use memcached.Privileges.Checks.{
  PrivilegeAccess, fail, Subject, Check, require, empty, run_check, check_addressed, access_returns,
  read, write, simple_stats, bucket_management, node_management, session_management, audit,
  dcp_consumer, dcp_producer, tap_producer, tap_consumer, meta_read, meta_write,
}

-- The calls of `setup` in the constructor, in order.
unfoldable pub privilege_calls : List (ℕ × Check)
privilege_calls =
    (Opcodes.cmd_get, require read)
    ∷ (Opcodes.cmd_getq, require read)
    ∷ (Opcodes.cmd_getk, require read)
    ∷ (Opcodes.cmd_getkq, require read)
    ∷ (Opcodes.cmd_set, require write)
    ∷ (Opcodes.cmd_setq, require write)
    ∷ (Opcodes.cmd_add, require write)
    ∷ (Opcodes.cmd_addq, require write)
    ∷ (Opcodes.cmd_replace, require write)
    ∷ (Opcodes.cmd_replaceq, require write)
    ∷ (Opcodes.cmd_delete, require write)
    ∷ (Opcodes.cmd_deleteq, require write)
    ∷ (Opcodes.cmd_append, require write)
    ∷ (Opcodes.cmd_appendq, require write)
    ∷ (Opcodes.cmd_prepend, require write)
    ∷ (Opcodes.cmd_prependq, require write)
    ∷ (Opcodes.cmd_increment, require read)
    ∷ (Opcodes.cmd_increment, require write)
    ∷ (Opcodes.cmd_incrementq, require read)
    ∷ (Opcodes.cmd_incrementq, require write)
    ∷ (Opcodes.cmd_decrement, require read)
    ∷ (Opcodes.cmd_decrement, require write)
    ∷ (Opcodes.cmd_decrementq, require read)
    ∷ (Opcodes.cmd_decrementq, require write)
    ∷ (Opcodes.cmd_quit, empty)
    ∷ (Opcodes.cmd_quitq, empty)
    ∷ (Opcodes.cmd_flush, require write)
    ∷ (Opcodes.cmd_flushq, require write)
    ∷ (Opcodes.cmd_noop, empty)
    ∷ (Opcodes.cmd_version, empty)
    ∷ (Opcodes.cmd_stat, require simple_stats)
    ∷ (Opcodes.cmd_verbosity, require node_management)
    ∷ (Opcodes.cmd_touch, require write)
    ∷ (Opcodes.cmd_gat, require read)
    ∷ (Opcodes.cmd_gat, require write)
    ∷ (Opcodes.cmd_gatq, require read)
    ∷ (Opcodes.cmd_gatq, require write)
    ∷ (Opcodes.cmd_hello, empty)
    ∷ (Opcodes.cmd_sasl_list_mechs, empty)
    ∷ (Opcodes.cmd_sasl_auth, empty)
    ∷ (Opcodes.cmd_sasl_step, empty)
    ∷ (Opcodes.cmd_ioctl_get, require node_management)
    ∷ (Opcodes.cmd_ioctl_set, require node_management)
    ∷ (Opcodes.cmd_config_validate, require node_management)
    ∷ (Opcodes.cmd_config_reload, require node_management)
    ∷ (Opcodes.cmd_audit_put, require audit)
    ∷ (Opcodes.cmd_audit_config_reload, require node_management)
    ∷ (Opcodes.cmd_shutdown, require node_management)
    ∷ (Opcodes.cmd_set_vbucket, require bucket_management)
    ∷ (Opcodes.cmd_get_vbucket, require node_management)
    ∷ (Opcodes.cmd_del_vbucket, require bucket_management)
    ∷ (Opcodes.cmd_tap_connect, require tap_producer)
    ∷ (Opcodes.cmd_tap_mutation, require tap_consumer)
    ∷ (Opcodes.cmd_tap_delete, require tap_consumer)
    ∷ (Opcodes.cmd_tap_flush, require tap_consumer)
    ∷ (Opcodes.cmd_tap_opaque, empty)
    ∷ (Opcodes.cmd_tap_vbucket_set, require tap_consumer)
    ∷ (Opcodes.cmd_tap_checkpoint_start, require tap_consumer)
    ∷ (Opcodes.cmd_tap_checkpoint_end, require tap_consumer)
    ∷ (Opcodes.cmd_get_all_vb_seqnos, require meta_read)
    ∷ (Opcodes.cmd_dcp_open, empty)
    ∷ (Opcodes.cmd_dcp_add_stream, require dcp_producer)
    ∷ (Opcodes.cmd_dcp_close_stream, require dcp_producer)
    ∷ (Opcodes.cmd_dcp_stream_req, require dcp_producer)
    ∷ (Opcodes.cmd_dcp_get_failover_log, require dcp_producer)
    ∷ (Opcodes.cmd_dcp_stream_end, require dcp_consumer)
    ∷ (Opcodes.cmd_dcp_snapshot_marker, require dcp_consumer)
    ∷ (Opcodes.cmd_dcp_mutation, require dcp_consumer)
    ∷ (Opcodes.cmd_dcp_deletion, require dcp_consumer)
    ∷ (Opcodes.cmd_dcp_expiration, require dcp_consumer)
    ∷ (Opcodes.cmd_dcp_flush, require dcp_consumer)
    ∷ (Opcodes.cmd_dcp_set_vbucket_state, require dcp_consumer)
    ∷ (Opcodes.cmd_dcp_noop, empty)
    ∷ (Opcodes.cmd_dcp_buffer_acknowledgement, empty)
    ∷ (Opcodes.cmd_dcp_control, empty)
    ∷ (Opcodes.cmd_stop_persistence, require node_management)
    ∷ (Opcodes.cmd_start_persistence, require node_management)
    ∷ (Opcodes.cmd_set_param, require node_management)
    ∷ (Opcodes.cmd_get_replica, require read)
    ∷ (Opcodes.cmd_create_bucket, require bucket_management)
    ∷ (Opcodes.cmd_delete_bucket, require bucket_management)
    ∷ (Opcodes.cmd_list_buckets, empty)
    ∷ (Opcodes.cmd_select_bucket, empty)
    ∷ (Opcodes.cmd_observe_seqno, require meta_read)
    ∷ (Opcodes.cmd_observe, require meta_read)
    ∷ (Opcodes.cmd_evict_key, require node_management)
    ∷ (Opcodes.cmd_get_locked, require read)
    ∷ (Opcodes.cmd_unlock_key, require read)
    ∷ (Opcodes.cmd_last_closed_checkpoint, require meta_read)
    ∷ (Opcodes.cmd_deregister_tap_client, require tap_producer)
    ∷ (Opcodes.cmd_reset_replication_chain, require node_management)
    ∷ (Opcodes.cmd_get_meta, require meta_read)
    ∷ (Opcodes.cmd_getq_meta, require meta_read)
    ∷ (Opcodes.cmd_set_with_meta, require meta_write)
    ∷ (Opcodes.cmd_setq_with_meta, require meta_write)
    ∷ (Opcodes.cmd_add_with_meta, require meta_write)
    ∷ (Opcodes.cmd_addq_with_meta, require meta_write)
    ∷ (Opcodes.cmd_snapshot_vb_states, require meta_write)
    ∷ (Opcodes.cmd_vbucket_batch_count, require meta_write)
    ∷ (Opcodes.cmd_del_with_meta, require meta_write)
    ∷ (Opcodes.cmd_delq_with_meta, require meta_write)
    ∷ (Opcodes.cmd_create_checkpoint, require node_management)
    ∷ (Opcodes.cmd_notify_vbucket_update, require meta_write)
    ∷ (Opcodes.cmd_enable_traffic, require meta_write)
    ∷ (Opcodes.cmd_disable_traffic, require meta_write)
    ∷ (Opcodes.cmd_change_vb_filter, require tap_producer)
    ∷ (Opcodes.cmd_checkpoint_persistence, require node_management)
    ∷ (Opcodes.cmd_return_meta, require meta_read)
    ∷ (Opcodes.cmd_return_meta, require meta_write)
    ∷ (Opcodes.cmd_compact_db, require node_management)
    ∷ (Opcodes.cmd_set_cluster_config, require node_management)
    ∷ (Opcodes.cmd_get_cluster_config, empty)
    ∷ (Opcodes.cmd_get_random_key, require read)
    ∷ (Opcodes.cmd_seqno_persistence, require node_management)
    ∷ (Opcodes.cmd_get_keys, require read)
    ∷ (Opcodes.cmd_set_drift_counter_state, require node_management)
    ∷ (Opcodes.cmd_get_adjusted_time, require node_management)
    ∷ (Opcodes.cmd_subdoc_get, require read)
    ∷ (Opcodes.cmd_subdoc_exists, require read)
    ∷ (Opcodes.cmd_subdoc_dict_add, require write)
    ∷ (Opcodes.cmd_subdoc_dict_upsert, require write)
    ∷ (Opcodes.cmd_subdoc_delete, require write)
    ∷ (Opcodes.cmd_subdoc_replace, require write)
    ∷ (Opcodes.cmd_subdoc_array_push_last, require write)
    ∷ (Opcodes.cmd_subdoc_array_push_first, require write)
    ∷ (Opcodes.cmd_subdoc_array_insert, require write)
    ∷ (Opcodes.cmd_subdoc_array_add_unique, require write)
    ∷ (Opcodes.cmd_subdoc_get_count, require read)
    ∷ (Opcodes.cmd_subdoc_counter, require read)
    ∷ (Opcodes.cmd_subdoc_counter, require write)
    ∷ (Opcodes.cmd_subdoc_multi_lookup, require read)
    ∷ (Opcodes.cmd_subdoc_multi_mutation, require read)
    ∷ (Opcodes.cmd_subdoc_multi_mutation, require write)
    ∷ (Opcodes.cmd_scrub, require node_management)
    ∷ (Opcodes.cmd_isasl_refresh, require node_management)
    ∷ (Opcodes.cmd_ssl_certs_refresh, require node_management)
    ∷ (Opcodes.cmd_get_cmd_timer, require node_management)
    ∷ (Opcodes.cmd_set_ctrl_token, require session_management)
    ∷ (Opcodes.cmd_get_ctrl_token, require session_management)
    ∷ (Opcodes.cmd_init_complete, require node_management)
    ∷ []

-- Those that are made only where MEMCACHED_UNIT_TESTS is set.
unfoldable pub test_calls : List (ℕ × Check)
test_calls = (0xe3, empty) ∷ (0xeb, empty) ∷ (0xff, empty) ∷ []

unfoldable pub privilege_chains : Bool → Chains Check
unfolding privilege_calls test_calls
privilege_chains testing =
    if testing
    then push_all test_calls (push_all privilege_calls no_chains)
    else push_all privilege_calls no_chains

-- McbpPrivilegeChains::invoke: a command with no rule is refused.
unfoldable pub invoke_privileges : Chains Check → ℕ → Subject → PrivilegeAccess
unfolding is_empty
invoke_privileges chains command c =
    if is_empty (chains command) then fail else invoke run_check (chains command) c
