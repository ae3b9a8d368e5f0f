-- ===== src/Validators/Addresses.antt =====
-- The addresses of the validators, by which a chain tells them apart.
use memcached.Common.{
  ℕ, ◌≡◌, refl, sym, ap, ◌∙◌, ◌↔◌, Bool, true, false, List, [], ◌∷◌, ◌==◌, if◌then◌else◌,
}
use memcached.Protocol.{Status, success}
use memcached.Chain.{Returns, Addressed}
use memcached.Validators.Names.{
  Validator, dcp_open, dcp_add_stream, dcp_close_stream, dcp_snapshot_marker, dcp_deletion,
  dcp_expiration, dcp_flush, dcp_get_failover_log, dcp_mutation, dcp_set_vbucket_state, dcp_noop,
  dcp_buffer_acknowledgement, dcp_control, dcp_stream_end, dcp_stream_req, isasl_refresh,
  ssl_certs_refresh, verbosity, hello, version, quit, sasl_list_mech, sasl_auth, noop, flush, get,
  delete, stat, arithmetic, get_cmd_timer, set_ctrl_token, get_ctrl_token, init_complete, ioctl_get,
  ioctl_set, audit_put, audit_config_reload, shutdown, observe_seqno, get_adjusted_time,
  set_drift_counter_state, subdoc_get, subdoc_exists, subdoc_dict_add, subdoc_dict_upsert,
  subdoc_delete, subdoc_replace, subdoc_array_push_last, subdoc_array_push_first,
  subdoc_array_insert, subdoc_array_add_unique, subdoc_counter, subdoc_multi_lookup,
  subdoc_multi_mutation, subdoc_get_count, set_replace, add, append_prepend, create_bucket,
  list_bucket, delete_bucket, select_bucket, get_all_vb_seqnos, tap, get_collections,
}

-- Some address for each function.
abbrev pub validator_address : Validator → ℕ
validator_address dcp_open = 0
validator_address dcp_add_stream = 1
validator_address dcp_close_stream = 2
validator_address dcp_snapshot_marker = 3
validator_address dcp_deletion = 4
validator_address dcp_expiration = 5
validator_address dcp_flush = 6
validator_address dcp_get_failover_log = 7
validator_address dcp_mutation = 8
validator_address dcp_set_vbucket_state = 9
validator_address dcp_noop = 10
validator_address dcp_buffer_acknowledgement = 11
validator_address dcp_control = 12
validator_address dcp_stream_end = 13
validator_address dcp_stream_req = 14
validator_address isasl_refresh = 15
validator_address ssl_certs_refresh = 16
validator_address verbosity = 17
validator_address hello = 18
validator_address version = 19
validator_address quit = 20
validator_address sasl_list_mech = 21
validator_address sasl_auth = 22
validator_address noop = 23
validator_address flush = 24
validator_address get = 25
validator_address delete = 26
validator_address stat = 27
validator_address arithmetic = 28
validator_address get_cmd_timer = 29
validator_address set_ctrl_token = 30
validator_address get_ctrl_token = 31
validator_address init_complete = 32
validator_address ioctl_get = 33
validator_address ioctl_set = 34
validator_address audit_put = 35
validator_address audit_config_reload = 36
validator_address shutdown = 37
validator_address observe_seqno = 38
validator_address get_adjusted_time = 39
validator_address set_drift_counter_state = 40
validator_address subdoc_get = 41
validator_address subdoc_exists = 42
validator_address subdoc_dict_add = 43
validator_address subdoc_dict_upsert = 44
validator_address subdoc_delete = 45
validator_address subdoc_replace = 46
validator_address subdoc_array_push_last = 47
validator_address subdoc_array_push_first = 48
validator_address subdoc_array_insert = 49
validator_address subdoc_array_add_unique = 50
validator_address subdoc_counter = 51
validator_address subdoc_multi_lookup = 52
validator_address subdoc_multi_mutation = 53
validator_address subdoc_get_count = 54
validator_address set_replace = 55
validator_address add = 56
validator_address append_prepend = 57
validator_address create_bucket = 58
validator_address list_bucket = 59
validator_address delete_bucket = 60
validator_address select_bucket = 61
validator_address get_all_vb_seqnos = 62
validator_address tap = 63
validator_address get_collections = 64

-- The inverse of `validator_address`, as a search.
abbrev function_at : ℕ → List Validator → Validator → Validator
function_at n [] default = default
function_at n (v ∷ vs) default = if validator_address v == n then v else function_at n vs default

abbrev all_validators : List Validator
all_validators =
    dcp_open ∷ dcp_add_stream ∷ dcp_close_stream ∷ dcp_snapshot_marker ∷ dcp_deletion
    ∷ dcp_expiration ∷ dcp_flush ∷ dcp_get_failover_log ∷ dcp_mutation ∷ dcp_set_vbucket_state
    ∷ dcp_noop ∷ dcp_buffer_acknowledgement ∷ dcp_control ∷ dcp_stream_end ∷ dcp_stream_req
    ∷ isasl_refresh ∷ ssl_certs_refresh ∷ verbosity ∷ hello ∷ version ∷ quit ∷ sasl_list_mech
    ∷ sasl_auth ∷ noop ∷ flush ∷ get ∷ delete ∷ stat ∷ arithmetic ∷ get_cmd_timer ∷ set_ctrl_token
    ∷ get_ctrl_token ∷ init_complete ∷ ioctl_get ∷ ioctl_set ∷ audit_put ∷ audit_config_reload
    ∷ shutdown ∷ observe_seqno ∷ get_adjusted_time ∷ set_drift_counter_state ∷ subdoc_get
    ∷ subdoc_exists ∷ subdoc_dict_add ∷ subdoc_dict_upsert ∷ subdoc_delete ∷ subdoc_replace
    ∷ subdoc_array_push_last ∷ subdoc_array_push_first ∷ subdoc_array_insert
    ∷ subdoc_array_add_unique ∷ subdoc_counter ∷ subdoc_multi_lookup ∷ subdoc_multi_mutation
    ∷ subdoc_get_count ∷ set_replace ∷ add ∷ append_prepend ∷ create_bucket ∷ list_bucket
    ∷ delete_bucket ∷ select_bucket ∷ get_all_vb_seqnos ∷ tap ∷ get_collections ∷ []

function_at-address : (v : Validator) → function_at (validator_address v) all_validators tap ≡ v
function_at-address dcp_open = refl
function_at-address dcp_add_stream = refl
function_at-address dcp_close_stream = refl
function_at-address dcp_snapshot_marker = refl
function_at-address dcp_deletion = refl
function_at-address dcp_expiration = refl
function_at-address dcp_flush = refl
function_at-address dcp_get_failover_log = refl
function_at-address dcp_mutation = refl
function_at-address dcp_set_vbucket_state = refl
function_at-address dcp_noop = refl
function_at-address dcp_buffer_acknowledgement = refl
function_at-address dcp_control = refl
function_at-address dcp_stream_end = refl
function_at-address dcp_stream_req = refl
function_at-address isasl_refresh = refl
function_at-address ssl_certs_refresh = refl
function_at-address verbosity = refl
function_at-address hello = refl
function_at-address version = refl
function_at-address quit = refl
function_at-address sasl_list_mech = refl
function_at-address sasl_auth = refl
function_at-address noop = refl
function_at-address flush = refl
function_at-address get = refl
function_at-address delete = refl
function_at-address stat = refl
function_at-address arithmetic = refl
function_at-address get_cmd_timer = refl
function_at-address set_ctrl_token = refl
function_at-address get_ctrl_token = refl
function_at-address init_complete = refl
function_at-address ioctl_get = refl
function_at-address ioctl_set = refl
function_at-address audit_put = refl
function_at-address audit_config_reload = refl
function_at-address shutdown = refl
function_at-address observe_seqno = refl
function_at-address get_adjusted_time = refl
function_at-address set_drift_counter_state = refl
function_at-address subdoc_get = refl
function_at-address subdoc_exists = refl
function_at-address subdoc_dict_add = refl
function_at-address subdoc_dict_upsert = refl
function_at-address subdoc_delete = refl
function_at-address subdoc_replace = refl
function_at-address subdoc_array_push_last = refl
function_at-address subdoc_array_push_first = refl
function_at-address subdoc_array_insert = refl
function_at-address subdoc_array_add_unique = refl
function_at-address subdoc_counter = refl
function_at-address subdoc_multi_lookup = refl
function_at-address subdoc_multi_mutation = refl
function_at-address subdoc_get_count = refl
function_at-address set_replace = refl
function_at-address add = refl
function_at-address append_prepend = refl
function_at-address create_bucket = refl
function_at-address list_bucket = refl
function_at-address delete_bucket = refl
function_at-address select_bucket = refl
function_at-address get_all_vb_seqnos = refl
function_at-address tap = refl
function_at-address get_collections = refl

pub address_injective : (f g : Validator) → validator_address f ≡ validator_address g → f ≡ g
address_injective f g e =
    sym (function_at-address f)
    ∙ ap (λ (n : ℕ). function_at n all_validators tap) e
    ∙ function_at-address g

instance abbrev pub validator_addressed : Addressed Validator
validator_addressed = record { address = validator_address; address_injective = address_injective }

abbrev pub is_success : Status → Bool
is_success success = true
is_success _ = false

pub is_success_iff : (s : Status) → (is_success s ≡ true) ↔ (s ≡ success)
is_success_iff success = (λ _. refl, λ _. refl)
is_success_iff _ = (λ e. cc, λ e. cc)

instance abbrev pub status_returns : Returns Status
status_returns = record {
  success = success;
  succeeded = is_success;
  succeeded_iff = is_success_iff;
}
