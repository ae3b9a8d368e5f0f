-- ===== src/Machine.antt =====
-- The state machine of a connection, daemon/statemachine_mcbp.cc: what its tasks read and change besides
-- the connection of Connection.antt, and what the outside answers while one task runs.
pub mod Completion
pub mod Commands
pub mod Loop
pub mod Closing
pub mod Pending
pub mod Stuck
use memcached.Common.{ℕ, zero, suc, Bool, true, false, ◌||◌, not, Option, none, some}
use memcached.Protocol.{
  Status, success, key_enoent, key_eexists, e2big, einval, not_stored, not_my_vbucket, no_bucket,
  auth_stale, erange, rollback, eaccess, enomem, not_supported, einternal, ebusy, etmpfail,
}
use memcached.Connection.{Connection, Task, Environment, conn_closing, set_state}
use memcached.Connection.Receive.{Received}
use memcached.Connection.Process.{Handlers, Rules}

-- ENGINE_ERROR_CODE
pub data EngineErrorCode : Type 0 where
  engine_success engine_key_enoent engine_key_eexists engine_enomem : EngineErrorCode
  engine_not_stored engine_einval engine_enotsup engine_ewouldblock engine_e2big : EngineErrorCode
  engine_want_more engine_disconnect engine_eaccess engine_not_my_vbucket : EngineErrorCode
  engine_tmpfail engine_erange engine_rollback engine_no_bucket engine_ebusy : EngineErrorCode
  engine_auth_stale engine_failed : EngineErrorCode

unfoldable pub engine_error_2_mcbp_protocol_error : EngineErrorCode → Status
engine_error_2_mcbp_protocol_error engine_eaccess = eaccess
engine_error_2_mcbp_protocol_error engine_success = success
engine_error_2_mcbp_protocol_error engine_key_enoent = key_enoent
engine_error_2_mcbp_protocol_error engine_key_eexists = key_eexists
engine_error_2_mcbp_protocol_error engine_enomem = enomem
engine_error_2_mcbp_protocol_error engine_tmpfail = etmpfail
engine_error_2_mcbp_protocol_error engine_not_stored = not_stored
engine_error_2_mcbp_protocol_error engine_einval = einval
engine_error_2_mcbp_protocol_error engine_enotsup = not_supported
engine_error_2_mcbp_protocol_error engine_e2big = e2big
engine_error_2_mcbp_protocol_error engine_not_my_vbucket = not_my_vbucket
engine_error_2_mcbp_protocol_error engine_erange = erange
engine_error_2_mcbp_protocol_error engine_rollback = rollback
engine_error_2_mcbp_protocol_error engine_no_bucket = no_bucket
engine_error_2_mcbp_protocol_error engine_ebusy = ebusy
engine_error_2_mcbp_protocol_error engine_auth_stale = auth_stale
engine_error_2_mcbp_protocol_error _ = einternal

-- An int that is counted down.
pub data ℤ : Type 0 where
  pos negsuc : ℕ → ℤ

-- A connection as the event loop drives it. `disconnects` counts the calls of the ON_DISCONNECT
-- callbacks, `thread` says whether the connection is still associated with one, and `port_conns` is
-- curr_conns of its port.
pub record Driven : Type 0 where
  pub connection : Connection
  pub aiostat : EngineErrorCode
  pub refcount : ℕ
  pub socket_closed : Bool
  pub registered : Bool
  pub num_events : ℤ
  pub iov_used : ℕ
  pub thread : Bool
  pub port_conns : ℕ
  pub disconnects : ℕ
  pub conn_yields : ℕ
  pub auth_cmds : ℕ
  pub auth_errors : ℕ

pub data TransmitResult : Type 0 where
  complete incomplete soft_error hard_error : TransmitResult

pub data CbsaslError : Type 0 where
  cbsasl_ok cbsasl_continue cbsasl_fail cbsasl_nomem cbsasl_badparam cbsasl_nomech : CbsaslError
  cbsasl_nouser cbsasl_pwerr : CbsaslError

-- What the rest of the server, the engine, the libraries and the network answer while one task runs.
-- `release` is how many references the ON_DISCONNECT callbacks give back; `ship_log` and `setup_tap_stream`
-- are what the tasks of other files do with the connection.
pub record World : Type 0 where
  pub env : Environment
  pub verbose : ℕ
  pub handlers : Handlers
  pub rules : Rules
  pub memcached_shutdown : Bool
  pub bucket_ready : Bool
  pub exit_on_connection_close : Bool
  pub is_pipe : Bool
  pub port_known : Bool
  pub ssl_pending : Bool
  pub max_reqs_per_event : ℕ
  pub recv : ℕ → ℕ → Received
  pub item_received : Received
  pub transmit : TransmitResult
  pub sasl_error : CbsaslError
  pub release : ℕ
  pub ship_log : Connection → Connection
  pub setup_tap_stream : Connection → Bool × Connection

-- What a task comes to: whether the loop goes on, and the connection; an exception, with what the task
-- had changed; or a loop of tryReadNetwork that was given too little fuel.
pub data Outcome : Type 0 where
  returns : Bool → Driven → Outcome
  throws : Driven → Outcome
  out_of_fuel : Outcome

abbrev pub with_connection : Driven → Connection → Driven
with_connection d c = record d { connection = c }

-- Connection::setState, from a task with a name to another.
unfoldable pub go : Task → Driven → Driven
unfolding set_state
go task d = record d { connection = set_state task d.connection }

-- The condition of is_bucket_dying; where it holds, the connection is shut down.
unfoldable pub is_bucket_dying : World → Bool
is_bucket_dying w = w.memcached_shutdown || not w.bucket_ready

-- McbpConnection::initateShutdown
unfoldable pub initate_shutdown : Driven → Driven
unfolding go
initate_shutdown d = go conn_closing d
