-- ===== src/Protocol/Opcodes.antt =====
-- protocol_binary_command: the opcodes, by the source's names.
use memcached.Common.{ℕ}

abbrev pub cmd_get : ℕ
cmd_get = 0x00

abbrev pub cmd_set : ℕ
cmd_set = 0x01

abbrev pub cmd_add : ℕ
cmd_add = 0x02

abbrev pub cmd_replace : ℕ
cmd_replace = 0x03

abbrev pub cmd_delete : ℕ
cmd_delete = 0x04

abbrev pub cmd_increment : ℕ
cmd_increment = 0x05

abbrev pub cmd_decrement : ℕ
cmd_decrement = 0x06

abbrev pub cmd_quit : ℕ
cmd_quit = 0x07

abbrev pub cmd_flush : ℕ
cmd_flush = 0x08

abbrev pub cmd_getq : ℕ
cmd_getq = 0x09

abbrev pub cmd_noop : ℕ
cmd_noop = 0x0a

abbrev pub cmd_version : ℕ
cmd_version = 0x0b

abbrev pub cmd_getk : ℕ
cmd_getk = 0x0c

abbrev pub cmd_getkq : ℕ
cmd_getkq = 0x0d

abbrev pub cmd_append : ℕ
cmd_append = 0x0e

abbrev pub cmd_prepend : ℕ
cmd_prepend = 0x0f

abbrev pub cmd_stat : ℕ
cmd_stat = 0x10

abbrev pub cmd_setq : ℕ
cmd_setq = 0x11

abbrev pub cmd_addq : ℕ
cmd_addq = 0x12

abbrev pub cmd_replaceq : ℕ
cmd_replaceq = 0x13

abbrev pub cmd_deleteq : ℕ
cmd_deleteq = 0x14

abbrev pub cmd_incrementq : ℕ
cmd_incrementq = 0x15

abbrev pub cmd_decrementq : ℕ
cmd_decrementq = 0x16

abbrev pub cmd_quitq : ℕ
cmd_quitq = 0x17

abbrev pub cmd_flushq : ℕ
cmd_flushq = 0x18

abbrev pub cmd_appendq : ℕ
cmd_appendq = 0x19

abbrev pub cmd_prependq : ℕ
cmd_prependq = 0x1a

abbrev pub cmd_verbosity : ℕ
cmd_verbosity = 0x1b

abbrev pub cmd_touch : ℕ
cmd_touch = 0x1c

abbrev pub cmd_gat : ℕ
cmd_gat = 0x1d

abbrev pub cmd_gatq : ℕ
cmd_gatq = 0x1e

abbrev pub cmd_hello : ℕ
cmd_hello = 0x1f

abbrev pub cmd_sasl_list_mechs : ℕ
cmd_sasl_list_mechs = 0x20

abbrev pub cmd_sasl_auth : ℕ
cmd_sasl_auth = 0x21

abbrev pub cmd_sasl_step : ℕ
cmd_sasl_step = 0x22

abbrev pub cmd_ioctl_get : ℕ
cmd_ioctl_get = 0x23

abbrev pub cmd_ioctl_set : ℕ
cmd_ioctl_set = 0x24

abbrev pub cmd_config_validate : ℕ
cmd_config_validate = 0x25

abbrev pub cmd_config_reload : ℕ
cmd_config_reload = 0x26

abbrev pub cmd_audit_put : ℕ
cmd_audit_put = 0x27

abbrev pub cmd_audit_config_reload : ℕ
cmd_audit_config_reload = 0x28

abbrev pub cmd_shutdown : ℕ
cmd_shutdown = 0x29

abbrev pub cmd_rget : ℕ
cmd_rget = 0x30

abbrev pub cmd_rset : ℕ
cmd_rset = 0x31

abbrev pub cmd_rsetq : ℕ
cmd_rsetq = 0x32

abbrev pub cmd_rappend : ℕ
cmd_rappend = 0x33

abbrev pub cmd_rappendq : ℕ
cmd_rappendq = 0x34

abbrev pub cmd_rprepend : ℕ
cmd_rprepend = 0x35

abbrev pub cmd_rprependq : ℕ
cmd_rprependq = 0x36

abbrev pub cmd_rdelete : ℕ
cmd_rdelete = 0x37

abbrev pub cmd_rdeleteq : ℕ
cmd_rdeleteq = 0x38

abbrev pub cmd_rincr : ℕ
cmd_rincr = 0x39

abbrev pub cmd_rincrq : ℕ
cmd_rincrq = 0x3a

abbrev pub cmd_rdecr : ℕ
cmd_rdecr = 0x3b

abbrev pub cmd_rdecrq : ℕ
cmd_rdecrq = 0x3c

abbrev pub cmd_set_vbucket : ℕ
cmd_set_vbucket = 0x3d

abbrev pub cmd_get_vbucket : ℕ
cmd_get_vbucket = 0x3e

abbrev pub cmd_del_vbucket : ℕ
cmd_del_vbucket = 0x3f

abbrev pub cmd_tap_connect : ℕ
cmd_tap_connect = 0x40

abbrev pub cmd_tap_mutation : ℕ
cmd_tap_mutation = 0x41

abbrev pub cmd_tap_delete : ℕ
cmd_tap_delete = 0x42

abbrev pub cmd_tap_flush : ℕ
cmd_tap_flush = 0x43

abbrev pub cmd_tap_opaque : ℕ
cmd_tap_opaque = 0x44

abbrev pub cmd_tap_vbucket_set : ℕ
cmd_tap_vbucket_set = 0x45

abbrev pub cmd_tap_checkpoint_start : ℕ
cmd_tap_checkpoint_start = 0x46

abbrev pub cmd_tap_checkpoint_end : ℕ
cmd_tap_checkpoint_end = 0x47

abbrev pub cmd_get_all_vb_seqnos : ℕ
cmd_get_all_vb_seqnos = 0x48

abbrev pub cmd_dcp_open : ℕ
cmd_dcp_open = 0x50

abbrev pub cmd_dcp_add_stream : ℕ
cmd_dcp_add_stream = 0x51

abbrev pub cmd_dcp_close_stream : ℕ
cmd_dcp_close_stream = 0x52

abbrev pub cmd_dcp_stream_req : ℕ
cmd_dcp_stream_req = 0x53

abbrev pub cmd_dcp_get_failover_log : ℕ
cmd_dcp_get_failover_log = 0x54

abbrev pub cmd_dcp_stream_end : ℕ
cmd_dcp_stream_end = 0x55

abbrev pub cmd_dcp_snapshot_marker : ℕ
cmd_dcp_snapshot_marker = 0x56

abbrev pub cmd_dcp_mutation : ℕ
cmd_dcp_mutation = 0x57

abbrev pub cmd_dcp_deletion : ℕ
cmd_dcp_deletion = 0x58

abbrev pub cmd_dcp_expiration : ℕ
cmd_dcp_expiration = 0x59

abbrev pub cmd_dcp_flush : ℕ
cmd_dcp_flush = 0x5a

abbrev pub cmd_dcp_set_vbucket_state : ℕ
cmd_dcp_set_vbucket_state = 0x5b

abbrev pub cmd_dcp_noop : ℕ
cmd_dcp_noop = 0x5c

abbrev pub cmd_dcp_buffer_acknowledgement : ℕ
cmd_dcp_buffer_acknowledgement = 0x5d

abbrev pub cmd_dcp_control : ℕ
cmd_dcp_control = 0x5e

abbrev pub cmd_dcp_reserved4 : ℕ
cmd_dcp_reserved4 = 0x5f

abbrev pub cmd_stop_persistence : ℕ
cmd_stop_persistence = 0x80

abbrev pub cmd_start_persistence : ℕ
cmd_start_persistence = 0x81

abbrev pub cmd_set_param : ℕ
cmd_set_param = 0x82

abbrev pub cmd_get_replica : ℕ
cmd_get_replica = 0x83

abbrev pub cmd_create_bucket : ℕ
cmd_create_bucket = 0x85

abbrev pub cmd_delete_bucket : ℕ
cmd_delete_bucket = 0x86

abbrev pub cmd_list_buckets : ℕ
cmd_list_buckets = 0x87

abbrev pub cmd_select_bucket : ℕ
cmd_select_bucket = 0x89

abbrev pub cmd_observe_seqno : ℕ
cmd_observe_seqno = 0x91

abbrev pub cmd_observe : ℕ
cmd_observe = 0x92

abbrev pub cmd_evict_key : ℕ
cmd_evict_key = 0x93

abbrev pub cmd_get_locked : ℕ
cmd_get_locked = 0x94

abbrev pub cmd_unlock_key : ℕ
cmd_unlock_key = 0x95

abbrev pub cmd_last_closed_checkpoint : ℕ
cmd_last_closed_checkpoint = 0x97

abbrev pub cmd_deregister_tap_client : ℕ
cmd_deregister_tap_client = 0x9e

abbrev pub cmd_reset_replication_chain : ℕ
cmd_reset_replication_chain = 0x9f

abbrev pub cmd_get_meta : ℕ
cmd_get_meta = 0xa0

abbrev pub cmd_getq_meta : ℕ
cmd_getq_meta = 0xa1

abbrev pub cmd_set_with_meta : ℕ
cmd_set_with_meta = 0xa2

abbrev pub cmd_setq_with_meta : ℕ
cmd_setq_with_meta = 0xa3

abbrev pub cmd_add_with_meta : ℕ
cmd_add_with_meta = 0xa4

abbrev pub cmd_addq_with_meta : ℕ
cmd_addq_with_meta = 0xa5

abbrev pub cmd_snapshot_vb_states : ℕ
cmd_snapshot_vb_states = 0xa6

abbrev pub cmd_vbucket_batch_count : ℕ
cmd_vbucket_batch_count = 0xa7

abbrev pub cmd_del_with_meta : ℕ
cmd_del_with_meta = 0xa8

abbrev pub cmd_delq_with_meta : ℕ
cmd_delq_with_meta = 0xa9

abbrev pub cmd_create_checkpoint : ℕ
cmd_create_checkpoint = 0xaa

abbrev pub cmd_notify_vbucket_update : ℕ
cmd_notify_vbucket_update = 0xac

abbrev pub cmd_enable_traffic : ℕ
cmd_enable_traffic = 0xad

abbrev pub cmd_disable_traffic : ℕ
cmd_disable_traffic = 0xae

abbrev pub cmd_change_vb_filter : ℕ
cmd_change_vb_filter = 0xb0

abbrev pub cmd_checkpoint_persistence : ℕ
cmd_checkpoint_persistence = 0xb1

abbrev pub cmd_return_meta : ℕ
cmd_return_meta = 0xb2

abbrev pub cmd_compact_db : ℕ
cmd_compact_db = 0xb3

abbrev pub cmd_set_cluster_config : ℕ
cmd_set_cluster_config = 0xb4

abbrev pub cmd_get_cluster_config : ℕ
cmd_get_cluster_config = 0xb5

abbrev pub cmd_get_random_key : ℕ
cmd_get_random_key = 0xb6

abbrev pub cmd_seqno_persistence : ℕ
cmd_seqno_persistence = 0xb7

abbrev pub cmd_get_keys : ℕ
cmd_get_keys = 0xb8

abbrev pub cmd_set_drift_counter_state : ℕ
cmd_set_drift_counter_state = 0xc1

abbrev pub cmd_get_adjusted_time : ℕ
cmd_get_adjusted_time = 0xc2

abbrev pub cmd_subdoc_get : ℕ
cmd_subdoc_get = 0xc5

abbrev pub cmd_subdoc_exists : ℕ
cmd_subdoc_exists = 0xc6

abbrev pub cmd_subdoc_dict_add : ℕ
cmd_subdoc_dict_add = 0xc7

abbrev pub cmd_subdoc_dict_upsert : ℕ
cmd_subdoc_dict_upsert = 0xc8

abbrev pub cmd_subdoc_delete : ℕ
cmd_subdoc_delete = 0xc9

abbrev pub cmd_subdoc_replace : ℕ
cmd_subdoc_replace = 0xca

abbrev pub cmd_subdoc_array_push_last : ℕ
cmd_subdoc_array_push_last = 0xcb

abbrev pub cmd_subdoc_array_push_first : ℕ
cmd_subdoc_array_push_first = 0xcc

abbrev pub cmd_subdoc_array_insert : ℕ
cmd_subdoc_array_insert = 0xcd

abbrev pub cmd_subdoc_array_add_unique : ℕ
cmd_subdoc_array_add_unique = 0xce

abbrev pub cmd_subdoc_counter : ℕ
cmd_subdoc_counter = 0xcf

abbrev pub cmd_subdoc_multi_lookup : ℕ
cmd_subdoc_multi_lookup = 0xd0

abbrev pub cmd_subdoc_multi_mutation : ℕ
cmd_subdoc_multi_mutation = 0xd1

abbrev pub cmd_subdoc_get_count : ℕ
cmd_subdoc_get_count = 0xd2

abbrev pub cmd_scrub : ℕ
cmd_scrub = 0xf0

abbrev pub cmd_isasl_refresh : ℕ
cmd_isasl_refresh = 0xf1

abbrev pub cmd_ssl_certs_refresh : ℕ
cmd_ssl_certs_refresh = 0xf2

abbrev pub cmd_get_cmd_timer : ℕ
cmd_get_cmd_timer = 0xf3

abbrev pub cmd_set_ctrl_token : ℕ
cmd_set_ctrl_token = 0xf4

abbrev pub cmd_get_ctrl_token : ℕ
cmd_get_ctrl_token = 0xf5

abbrev pub cmd_init_complete : ℕ
cmd_init_complete = 0xf6

abbrev pub cmd_invalid : ℕ
cmd_invalid = 0xff
