-- ===== src/Machine/Completion.antt =====
-- The tasks that a connection waits in for another thread's answer: what they send once it is there.
use memcached.Machine.{
  Driven, EngineErrorCode, engine_success, engine_ewouldblock, engine_disconnect,
  engine_error_2_mcbp_protocol_error, go,
}
use memcached.Connection.{Environment, conn_closing, write_response, mcbp_write_packet}
use memcached.Protocol.{Status, success, einternal}
use memcached.Common.{Bool, true, false}

-- The first statements of each: the answer is taken and the connection no longer blocks.
unfoldable pub taken : Driven → Driven
taken d = record d {
  aiostat = engine_success;
  connection = record d.connection { ewouldblock = false };
}

unfoldable pub send : Environment → EngineErrorCode → Driven → Driven
unfolding go engine_error_2_mcbp_protocol_error
send env engine_success d = record d { connection = write_response env d.connection }
send env engine_disconnect d = go conn_closing d
send env ret d = record d {
  connection = mcbp_write_packet env (engine_error_2_mcbp_protocol_error ret) d.connection;
}

unfoldable pub refresh : Environment → EngineErrorCode → Driven → Driven
unfolding send go
refresh env engine_ewouldblock d = go conn_closing d
refresh env ret d = send env ret d

unfoldable pub conn_refresh_cbsasl : Environment → Driven → Bool × Driven
unfolding taken refresh
conn_refresh_cbsasl env d = (true, refresh env d.aiostat (taken d))

unfoldable pub conn_refresh_ssl_certs : Environment → Driven → Bool × Driven
unfolding taken refresh
conn_refresh_ssl_certs env d = (true, refresh env d.aiostat (taken d))

unfoldable pub conn_flush : Environment → Driven → Bool × Driven
unfolding taken send
conn_flush env d = (true, send env d.aiostat (taken d))

unfoldable pub audit_status : EngineErrorCode → Status
audit_status engine_success = success
audit_status _ = einternal

unfoldable pub conn_audit_configuring : Environment → Driven → Bool × Driven
unfolding taken audit_status
conn_audit_configuring env d =
    let d' = taken d in
    (true, record d' { connection = mcbp_write_packet env (audit_status d.aiostat) d'.connection })

unfoldable pub answer_bucket : Environment → EngineErrorCode → Driven → Driven
unfolding go engine_error_2_mcbp_protocol_error
answer_bucket env engine_ewouldblock d = go conn_closing d
answer_bucket env engine_disconnect d = go conn_closing d
answer_bucket env ret d = record d {
  connection = mcbp_write_packet env (engine_error_2_mcbp_protocol_error ret) d.connection;
}

unfoldable pub conn_create_bucket : Environment → Driven → Bool × Driven
unfolding taken answer_bucket
conn_create_bucket env d = (true, answer_bucket env d.aiostat (taken d))

unfoldable pub conn_delete_bucket : Environment → Driven → Bool × Driven
unfolding taken answer_bucket
conn_delete_bucket env d = (true, answer_bucket env d.aiostat (taken d))
