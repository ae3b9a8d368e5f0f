-- ===== src/Machine/Commands.antt =====
-- The tasks that take commands in and send responses out.
use Prim.Native.Nat.{bit_and}
use memcached.Machine.{
  Driven, World, Outcome, returns, out_of_fuel, ℤ, pos, negsuc, TransmitResult, complete,
  incomplete, soft_error, hard_error, CbsaslError, cbsasl_ok, cbsasl_continue, cbsasl_badparam, go,
  is_bucket_dying, initate_shutdown, engine_success,
}
use memcached.Connection.{
  Connection, NetBuf, Task, conn_new_cmd, conn_waiting, conn_read, conn_parse_cmd, conn_write,
  conn_closing, conn_mwrite, same_task, set_state, write_response, mcbp_write_packet, add_header,
}
use memcached.Connection.Receive.{
  memmove, try_read_mcbp_command, need_more, ReadResult, conn_nread_step,
}
use memcached.Connection.Network.{
  TryReadResult, no_data_received, data_received, socket_error, memory_error, try_read_network,
}
use memcached.Connection.Process.{mcbp_complete_nread}
use memcached.Protocol.{einval, auth_error, auth_continue, not_initialized}
use memcached.Common.{
  ℕ, zero, suc, ◌+◌, Bool, true, false, ◌||◌, ◌&&◌, not, ltb, ◌==◌, ◌!=◌, if◌then◌else◌, Option,
  none, some,
}

-- McbpConnection::shrinkBuffers, on the read buffer.
unfoldable pub shrink_buffers : Bool → NetBuf → NetBuf
shrink_buffers can_realloc read =
    if ltb 8192 read.size && ltb read.bytes 2048
    then record {
      memory = if read.curr != 0 then memmove 0 read.curr read.bytes read.memory else read.memory;
      size = if can_realloc then 2048 else read.size;
      curr = 0;
      bytes = read.bytes;
    }
    else read

-- reset_cmd_handler; `cmd` becomes -1 as an uint8_t, and the item and the command's context, which are
-- released, are not modelled.
unfoldable pub reset_cmd_handler : World → Driven → Driven
unfolding shrink_buffers go
reset_cmd_handler w d =
    let read = d.connection.read in
    let whole = record read { curr = if read.bytes == 0 then 0 else read.curr } in
    let shrunk = shrink_buffers w.env.can_realloc whole in
    let d' = record d { connection = record d.connection { cmd = 0xff; read = shrunk } } in
    go (if ltb 0 shrunk.bytes then conn_parse_cmd else conn_waiting) d'

unfoldable pub decremented : ℤ → ℤ
decremented (pos zero) = negsuc zero
decremented (pos (suc n)) = pos n
decremented (negsuc n) = negsuc (suc n)

unfoldable pub is_negative : ℤ → Bool
is_negative (pos n) = false
is_negative (negsuc n) = true

unfoldable pub conn_new_cmd_task : World → Driven → Bool × Driven
unfolding is_bucket_dying initate_shutdown decremented is_negative reset_cmd_handler go
conn_new_cmd_task w d =
    let started = record d {
      connection = record d.connection { start = 0 };
      num_events = decremented d.num_events;
    } in
    let yielding = record started { conn_yields = d.conn_yields + 1 } in
    let pending = ltb 0 d.connection.read.bytes || w.ssl_pending in
    if is_bucket_dying w
    then (true, initate_shutdown d)
    else if not (is_negative started.num_events)
    then (true, reset_cmd_handler w started)
    else if (pending || d.connection.dcp || d.connection.tap) && not w.env.can_update_event
    then (true, go conn_closing yielding)
    else (false, yielding)

unfoldable pub conn_waiting_task : World → Driven → Bool × Driven
unfolding is_bucket_dying initate_shutdown go
conn_waiting_task w d =
    if is_bucket_dying w
    then (true, initate_shutdown d)
    else if not w.env.can_update_event
    then (true, go conn_closing d)
    else (false, go conn_read d)

-- The switch of conn_read.
unfoldable pub after_read : World → TryReadResult → Driven → Driven
unfolding go
after_read w no_data_received d =
    if w.exit_on_connection_close then go conn_closing d else go conn_waiting d
after_read w data_received d = go conn_parse_cmd d
after_read w socket_error d = go conn_closing d
after_read w memory_error d = go conn_closing d

-- Six rounds of tryReadNetwork's loop are enough.
unfoldable pub conn_read_task : World → Driven → Outcome
unfolding is_bucket_dying initate_shutdown after_read
conn_read_task w d =
    if is_bucket_dying w
    then returns true (initate_shutdown d)
    else elim (try_read_network w.recv w.env.can_realloc w.is_pipe 6 0 d.connection.read) [
      | none ↦ out_of_fuel
      | some (result, read) ↦
          returns true
            (after_read w result (record d { connection = record d.connection { read = read } }))
    ]

abbrev pub has_response_handler : World → ℕ → Bool
has_response_handler w opcode = elim (w.handlers.response_handler opcode) [
  | none ↦ false
  | some handler ↦ true
]

-- The test `try_read_mcbp_command(c) == 0` and what follows it.
unfoldable pub or_wait : Task → ReadResult → Connection → Connection
or_wait task need_more c = set_state task c
or_wait task _ c = c

unfoldable pub conn_parse_cmd_task : World → Driven → Outcome
unfolding or_wait
conn_parse_cmd_task w d = elim (try_read_mcbp_command (has_response_handler w) w.env d.connection) [
  | none ↦ out_of_fuel
  | some (result, c) ↦
      let c' = or_wait conn_waiting result c in
      returns (not c'.ewouldblock) (record d { connection = c' })
]

-- With a command that blocks, the event is unregistered.
unfoldable pub conn_nread_task : World → Driven → Outcome
unfolding is_bucket_dying conn_nread_step
conn_nread_task w d =
    let step =
      conn_nread_step (mcbp_complete_nread w.handlers w.rules w.env) w.env (is_bucket_dying w)
        w.item_received d.connection in
    let completes = not (is_bucket_dying w) && d.connection.rlbytes == 0 in
    returns step.0 (record d {
      connection = step.1;
      registered = d.registered && not (completes && step.1.ewouldblock);
    })

-- The switch of conn_mwrite on what transmit answers, and whether the task ends there. With a hard
-- error transmit itself has set the task.
unfoldable pub after_transmit : TransmitResult → Driven → Bool × Bool × Driven
unfolding go
after_transmit complete d =
    let state = d.connection.state in
    if same_task state conn_mwrite || same_task state conn_write
    then (false, true, go d.connection.write_and_go d)
    else (true, true, go conn_closing d)
after_transmit incomplete d = (false, true, d)
after_transmit hard_error d = (false, true, go conn_closing d)
after_transmit soft_error d = (false, false, d)

unfoldable pub conn_mwrite_task : World → Driven → Bool × Driven
unfolding is_bucket_dying initate_shutdown after_transmit
conn_mwrite_task w d =
    let (ended, ret, d') = after_transmit w.transmit d in
    if ended
    then (true, d')
    else if is_bucket_dying w
    then (true, initate_shutdown d')
    else (ret, d')

unfoldable pub conn_write_task : World → Driven → Bool × Driven
unfolding conn_mwrite_task go
conn_write_task w d =
    if d.iov_used == 0 && not w.env.can_add_iov
    then (true, go conn_closing d)
    else conn_mwrite_task w d

-- isReadEvent and isWriteEvent: EV_READ and EV_WRITE.
unfoldable pub is_read_event : Connection → Bool
is_read_event c = bit_and c.current_event 2 != 0

unfoldable pub is_write_event : Connection → Bool
is_write_event c = bit_and c.current_event 4 != 0

-- The reading branch of conn_ship_log.
unfoldable pub ship_read : World → Driven → Option Driven
unfolding or_wait go
ship_read w d =
    let d' = record d { num_events = pos w.max_reqs_per_event } in
    if ltb 0 d.connection.read.bytes
    then elim (try_read_mcbp_command (has_response_handler w) w.env d.connection) [
      | none ↦ none
      | some (result, c) ↦ some (record d' { connection = or_wait conn_read result c })
    ]
    else some (go conn_read d')

-- The writing branch, and whether to go on.
unfoldable pub ship_write : World → Driven → Bool × Driven
unfolding decremented is_negative
ship_write w d =
    let n = decremented d.num_events in
    let shipped = w.ship_log (record d.connection { ewouldblock = false }) in
    if is_negative n
    then (false, record d { num_events = n })
    else (not shipped.ewouldblock, record d { num_events = n; connection = shipped })

-- The end of conn_ship_log.
unfoldable pub ship_update : World → Bool → Driven → Outcome
unfolding go
ship_update w cont d = returns cont (if w.env.can_update_event then d else go conn_closing d)

unfoldable pub conn_ship_log_task : World → Driven → Outcome
unfolding is_bucket_dying initate_shutdown is_read_event is_write_event ship_read ship_write
    ship_update
conn_ship_log_task w d =
    let (cont, shipped) = ship_write w d in
    if is_bucket_dying w
    then returns true (initate_shutdown d)
    else if d.socket_closed
    then returns false d
    else if is_read_event d.connection || ltb 0 d.connection.read.bytes
    then elim (ship_read w d) [ none ↦ out_of_fuel | some d' ↦ ship_update w true d' ]
    else if is_write_event d.connection
    then ship_update w cont shipped
    else ship_update w false d

unfoldable pub count_auth : ℕ → Driven → Driven
count_auth errors d = record d { auth_cmds = d.auth_cmds + 1; auth_errors = d.auth_errors + errors }

-- The switch of conn_sasl_auth.
unfoldable pub answer_sasl : World → CbsaslError → Driven → Driven
unfolding count_auth go
answer_sasl w cbsasl_ok d =
    count_auth 0 (record d { connection = write_response w.env d.connection })
answer_sasl w cbsasl_continue d =
    let c = add_header w.env auth_continue d.connection in
    if w.env.can_add_msg_hdr && w.env.can_add_iov
    then record d { connection = record (set_state conn_mwrite c) { write_and_go = conn_new_cmd } }
    else go conn_closing (record d { connection = c })
answer_sasl w cbsasl_badparam d =
    count_auth 1 (record d { connection = mcbp_write_packet w.env einval d.connection })
answer_sasl w _ d =
    let refused = mcbp_write_packet w.env not_initialized d.connection in
    if not w.env.server_initialized
    then record d { connection = record refused { write_and_go = conn_closing } }
    else count_auth 1 (record d { connection = mcbp_write_packet w.env auth_error d.connection })

unfoldable pub conn_sasl_auth_task : World → Driven → Bool × Driven
unfolding answer_sasl
conn_sasl_auth_task w d = (
  true,
  answer_sasl w w.sasl_error (record d {
    aiostat = engine_success;
    connection = record d.connection { ewouldblock = false };
  }),
)
