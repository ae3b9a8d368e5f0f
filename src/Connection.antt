-- ===== src/Connection.antt =====
-- A connection of the binary protocol: daemon/connection_mcbp.h, the tasks of
-- daemon/statemachine_mcbp.cc and the writing of a response in daemon/mcbp.cc.
pub mod Receive
pub mod Process
pub mod Gate
pub mod Outcome
pub mod Room
pub mod Assembly
pub mod Stream
pub mod Whole
pub mod Network
use memcached.Common.{
  ltb, ℕ, Bool, true, false, ◌||◌, ◌&&◌, not, ◌==◌, ◌!=◌, if◌then◌else◌, Option, none, some,
}
use memcached.Protocol.{Header, Status, success, not_my_vbucket}
use memcached.Protocol.Opcodes

-- The functions that a connection's current task can be.
pub data Task : Type 0 where
  conn_new_cmd conn_waiting conn_read conn_parse_cmd conn_write conn_nread conn_closing : Task
  conn_mwrite conn_ship_log conn_setup_tap_stream conn_pending_close conn_immediate_close : Task
  conn_refresh_cbsasl conn_refresh_ssl_certs conn_flush conn_audit_configuring : Task
  conn_create_bucket conn_delete_bucket conn_sasl_auth conn_destroyed : Task

-- Some address for each task, to compare them by.
abbrev pub task_address : Task → ℕ
task_address conn_new_cmd = 0
task_address conn_waiting = 1
task_address conn_read = 2
task_address conn_parse_cmd = 3
task_address conn_write = 4
task_address conn_nread = 5
task_address conn_closing = 6
task_address conn_mwrite = 7
task_address conn_ship_log = 8
task_address conn_setup_tap_stream = 9
task_address conn_pending_close = 10
task_address conn_immediate_close = 11
task_address conn_refresh_cbsasl = 12
task_address conn_refresh_ssl_certs = 13
task_address conn_flush = 14
task_address conn_audit_configuring = 15
task_address conn_create_bucket = 16
task_address conn_delete_bucket = 17
task_address conn_sasl_auth = 18
task_address conn_destroyed = 19

abbrev pub same_task : Task → Task → Bool
same_task a b = task_address a == task_address b

-- The read buffer: its bytes, its allocated size, the offset of `curr` from `buf`, and how many bytes
-- from `curr` on are unread.
pub record NetBuf : Type 0 where
  pub memory : ℕ → ℕ
  pub size : ℕ
  pub curr : ℕ
  pub bytes : ℕ

-- What mcbp_add_header takes from the connection for a response.
pub record Response : Type 0 where
  pub status : Status
  pub opcode : ℕ
  pub opaque : ℕ
  pub cas : ℕ

-- `header` is binary_header, whose lengths are in host order; `queued` is the response that the message
-- list holds.
pub record Connection : Type 0 where
  pub header : Header
  pub read : NetBuf
  pub ritem : ℕ
  pub rlbytes : ℕ
  pub state : Task
  pub write_and_go : Task
  pub admin : Bool
  pub is_authenticated : Bool
  pub supports_datatype : Bool
  pub tap : Bool
  pub dcp : Bool
  pub no_reply : Bool
  pub ewouldblock : Bool
  pub start : ℕ
  pub cas : ℕ
  pub cmd : ℕ
  pub current_event : ℕ
  pub queued : Option Response

-- What the server and the libraries answer while one event is handled. `vb_map` is what writing the
-- bucket's map comes to: none where the engine has no map function, and otherwise whether it was
-- written.
pub record Environment : Type 0 where
  pub server_initialized : Bool
  pub require_sasl : Bool
  pub max_packet_size : ℕ
  pub now : ℕ
  pub can_realloc : Bool
  pub can_add_msg_hdr : Bool
  pub can_add_iov : Bool
  pub can_update_event : Bool
  pub vb_map : Option Bool

abbrev pub ev_write : ℕ
ev_write = 4

-- getTaskName: every task but conn_destroyed has a name, for which it throws.
unfoldable pub has_task_name : Task → Bool
has_task_name conn_destroyed = false
has_task_name _ = true

-- McbpStateMachine::setCurrentTask, where its log line does not throw: moving to the same task changes
-- nothing.
unfoldable pub set_state : Task → Connection → Connection
set_state task c =
    let duplex = c.tap || c.dcp in
    let waits = same_task task conn_waiting && duplex in
    let target = if waits then conn_ship_log else task in
    let moves = not (same_task task c.state) in
    let starts =
      (same_task target conn_read && duplex)
      || same_task target conn_write
      || same_task target conn_mwrite in
    record c {
      state = if moves then target else c.state;
      current_event = if moves && waits then ev_write else c.current_event;
      start = if moves && starts then 0 else c.start;
    }

-- McbpStateMachine::setCurrentTask with its log line, under the server's verbosity; none is the exception
-- of getTaskName. Between two tasks that have a name it is set_state, which stands for it there: only
-- conn_close sets conn_destroyed, and no task moves on from there.
unfoldable pub set_current_task : ℕ → Task → Connection → Option Connection
unfolding set_state has_task_name
set_current_task verbose task c =
    let waits = same_task task conn_waiting && (c.tap || c.dcp) in
    let target = if waits then conn_ship_log else task in
    let logs =
      ltb 2 verbose || same_task target conn_closing || same_task target conn_setup_tap_stream in
    let named = has_task_name c.state && has_task_name target in
    if not (same_task task c.state) && logs && not named then none else some (set_state task c)

-- mcbp_add_header with addMsgHdr(true); what it queues.
unfoldable pub add_header : Environment → Status → Connection → Connection
add_header env status c = record c {
  queued =
      if env.can_add_msg_hdr && env.can_add_iov
      then some (record {
        status = status;
        opcode = c.header.opcode;
        opaque = c.header.opaque;
        cas = c.cas;
      })
      else none;
}

-- mcbp_write_response without data.
unfoldable pub write_response : Environment → Connection → Connection
unfolding add_header
write_response env c =
    if not c.no_reply || c.cmd == Opcodes.cmd_get || c.cmd == Opcodes.cmd_getk
    then (if env.can_add_msg_hdr && env.can_add_iov
        then record (set_state conn_mwrite (add_header env success c)) {
          write_and_go = conn_new_cmd;
        }
        else set_state conn_closing (add_header env success c))
    else set_state conn_new_cmd (record c { start = 0 })

-- The branches of mcbp_write_packet for errors.
unfoldable pub write_error : Environment → Status → Connection → Connection
write_error env status c = record (set_state conn_mwrite (add_header env status c)) {
  write_and_go = conn_new_cmd;
}

unfoldable pub write_vb_map : Environment → Connection → Connection
write_vb_map env c = elim env.vb_map [
  | none ↦ write_error env not_my_vbucket c
  | some true ↦ record (set_state conn_write c) { write_and_go = conn_new_cmd }
  | some false ↦ set_state conn_closing c
]

unfoldable pub mcbp_write_packet : Environment → Status → Connection → Connection
mcbp_write_packet env success c = write_response env c
mcbp_write_packet env not_my_vbucket c = write_vb_map env c
mcbp_write_packet env status c = write_error env status c
