-- ===== src/Machine/Loop.antt =====
-- Closing a connection, and the loop that runs the tasks: McbpConnection::runStateMachinery and
-- runEventLoop of daemon/connection_mcbp.cc, conn_close and conn_cleanup of daemon/connections.cc.
use memcached.Machine.{Driven, World, Outcome, returns, throws, out_of_fuel, pos, go}
use memcached.Machine.Completion.{
  conn_refresh_cbsasl, conn_refresh_ssl_certs, conn_flush, conn_audit_configuring,
  conn_create_bucket, conn_delete_bucket,
}
use memcached.Machine.Commands.{
  conn_new_cmd_task, conn_waiting_task, conn_read_task, conn_parse_cmd_task, conn_nread_task,
  conn_mwrite_task, conn_write_task, conn_ship_log_task, conn_sasl_auth_task,
}
use memcached.Connection
use memcached.Connection.{
  Connection, Task, conn_closing, conn_pending_close, conn_immediate_close, conn_destroyed,
  set_current_task,
}
use memcached.Common.{
  ℕ, ◌+◌, ◌-◌, Bool, true, false, ◌||◌, ◌&&◌, not, ltb, if◌then◌else◌, Option, none, some, List, [],
  ◌∷◌,
}

-- `perform_callbacks(ON_DISCONNECT, ...)`
unfoldable pub disconnect : World → Driven → Driven
disconnect w d = record d { disconnects = d.disconnects + 1; refcount = d.refcount - w.release }

unfoldable pub conn_closing_task : Driven → Bool × Driven
unfolding go
conn_closing_task d =
    let closed = record d { registered = false; socket_closed = true } in
    (
      true,
      go
          (if ltb 1 d.refcount || d.connection.ewouldblock
            then conn_pending_close
            else conn_immediate_close)
          closed,
    )

unfoldable pub conn_pending_close_task : World → Driven → Outcome
unfolding disconnect go
conn_pending_close_task w d =
    let d' = disconnect w d in
    if not d.socket_closed
    then throws d
    else if ltb 1 d'.refcount
    then returns false d'
    else returns true (go conn_immediate_close d')

unfoldable pub conn_cleanup : Driven → Driven
conn_cleanup d = record d {
  connection = record d.connection {
    admin = false;
    read = record d.connection.read { curr = 0; bytes = 0 };
    tap = false;
    dcp = false;
    start = 0;
  };
  thread = false;
  socket_closed = true;
}

-- conn_cleanup, and what conn_close does after it: the task is set, or the log line throws.
unfoldable pub conn_close : World → Driven → Outcome
unfolding conn_cleanup set_current_task
conn_close w d =
    let cleaned = conn_cleanup d in
    elim (set_current_task w.verbose conn_destroyed cleaned.connection) [
      | none ↦ throws cleaned
      | some c ↦ returns false (record cleaned { connection = c })
    ]

-- Here the task is conn_immediate_close, and conn_close's checks of it and of the socket hold.
unfoldable pub conn_immediate_close_task : World → Driven → Outcome
unfolding disconnect conn_close
conn_immediate_close_task w d =
    let counted = record d {
      port_conns = if w.port_known then d.port_conns - 1 else d.port_conns;
    } in
    let told = disconnect w counted in
    if not d.socket_closed
    then throws d
    else if not w.port_known && not w.is_pipe
    then throws d
    else if not d.thread
    then throws told
    else conn_close w told

abbrev pub returned : Bool × Driven → Outcome
returned (cont, d) = returns cont d

unfoldable pub run_task : World → Task → Driven → Outcome
unfolding conn_new_cmd_task conn_waiting_task conn_read_task conn_parse_cmd_task conn_nread_task
    conn_mwrite_task conn_write_task conn_ship_log_task conn_sasl_auth_task conn_closing_task
    conn_pending_close_task conn_immediate_close_task conn_refresh_cbsasl conn_refresh_ssl_certs
    conn_flush conn_audit_configuring conn_create_bucket conn_delete_bucket
run_task w Connection.conn_new_cmd d = returned (conn_new_cmd_task w d)
run_task w Connection.conn_waiting d = returned (conn_waiting_task w d)
run_task w Connection.conn_read d = conn_read_task w d
run_task w Connection.conn_parse_cmd d = conn_parse_cmd_task w d
run_task w Connection.conn_write d = returned (conn_write_task w d)
run_task w Connection.conn_nread d = conn_nread_task w d
run_task w conn_closing d = returned (conn_closing_task d)
run_task w Connection.conn_mwrite d = returned (conn_mwrite_task w d)
run_task w Connection.conn_ship_log d = conn_ship_log_task w d
run_task w Connection.conn_setup_tap_stream d =
    let (cont, c) = w.setup_tap_stream d.connection in returns cont (record d { connection = c })
run_task w conn_pending_close d = conn_pending_close_task w d
run_task w conn_immediate_close d = conn_immediate_close_task w d
run_task w Connection.conn_refresh_cbsasl d = returned (conn_refresh_cbsasl w.env d)
run_task w Connection.conn_refresh_ssl_certs d = returned (conn_refresh_ssl_certs w.env d)
run_task w Connection.conn_flush d = returned (conn_flush w.env d)
run_task w Connection.conn_audit_configuring d = returned (conn_audit_configuring w.env d)
run_task w Connection.conn_create_bucket d = returned (conn_create_bucket w.env d)
run_task w Connection.conn_delete_bucket d = returned (conn_delete_bucket w.env d)
run_task w Connection.conn_sasl_auth d = returned (conn_sasl_auth_task w d)
run_task w conn_destroyed d = returns false d

-- What a task's outcome means for the loop, which goes on as `rest`.
unfoldable pub continue : (Driven → Outcome) → Outcome → Outcome
continue rest (returns true d) = rest d
continue rest (returns false d) = returns false d
continue rest (throws d) = throws d
continue rest out_of_fuel = out_of_fuel

-- The loop `while (stateMachine->execute(*this))`, with what each task is answered; the list is the fuel.
unfoldable pub run_state_machinery : List World → Driven → Outcome
unfolding run_task continue
run_state_machinery [] d = out_of_fuel
run_state_machinery (w ∷ worlds) d =
    continue (λ d'. run_state_machinery worlds d') (run_task w d.connection.state d)

-- What runEventLoop does with an exception: the connection closes, and the loop runs once more.
unfoldable pub recover : List World → Outcome → Option Driven
unfolding run_state_machinery go
recover again (returns cont d) = some d
recover again (throws d) = elim (run_state_machinery again (go conn_closing d)) [
  | returns cont d' ↦ some d'
  | throws d' ↦ some d'
  | out_of_fuel ↦ none
]
recover again out_of_fuel = none

-- `which` is the event, and `again` what the tasks are answered after an exception.
unfoldable pub run_event_loop : ℕ → ℕ → List World → List World → Driven → Option Driven
unfolding recover run_state_machinery
run_event_loop max_reqs_per_event which worlds again d = recover again (
    run_state_machinery worlds (record d {
      connection = record d.connection { current_event = which };
      num_events = pos max_reqs_per_event;
    }))
