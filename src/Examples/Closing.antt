-- ===== src/Examples/Closing.antt =====
-- The theorems on the state machine, on a connection that closes while another thread holds it.
use memcached.Examples.Reading.{arrived, no_handlers, rules, server}
use memcached.Machine.{Driven, World, returns, pos, complete, cbsasl_ok, engine_tmpfail}
use memcached.Machine.Closing.{Destroyed, Pending, run_state_machinery-closing}
use memcached.Machine.Pending.{events, events-Destroyed}
use memcached.Machine.Loop.{run_state_machinery}
use memcached.Machine.Stuck.{Stuck}
use memcached.Connection.{conn_closing, conn_pending_close, conn_immediate_close}
use memcached.Connection.Receive.{would_block}
use memcached.Common.{ℕ, ◌≡◌, refl, ◌<◌, ◌⊎◌, true, false, [], ◌∷◌, arith}

-- A world in which the callbacks give back some references.
abbrev releasing : ℕ → World
releasing n = record {
  env = server;
  verbose = 0;
  handlers = no_handlers;
  rules = rules;
  memcached_shutdown = false;
  bucket_ready = true;
  exit_on_connection_close = false;
  is_pipe = false;
  port_known = true;
  ssl_pending = false;
  max_reqs_per_event = 20;
  recv = λ at n. would_block;
  item_received = would_block;
  transmit = complete;
  sasl_error = cbsasl_ok;
  release = n;
  ship_log = λ c. c;
  setup_tap_stream = λ c. (false, c);
}

-- Its socket is open, and two references are held.
abbrev closing : Driven
closing = record {
  connection = record arrived { state = conn_closing };
  aiostat = engine_tmpfail;
  refcount = 2;
  socket_closed = false;
  registered = true;
  num_events = pos 20;
  iov_used = 0;
  thread = true;
  port_conns = 1;
  disconnects = 0;
  conn_yields = 0;
  auth_cmds = 0;
  auth_errors = 0;
}

run_state_machinery-closing_example :
    (d' : Driven) × (run_state_machinery (releasing 0 ∷ releasing 0 ∷ releasing 0 ∷ []) closing
      ≡ returns false d')
    × ((Pending conn_pending_close d' × (1 < d'.refcount)) ⊎ Destroyed d')
run_state_machinery-closing_example =
    run_state_machinery-closing (releasing 0) (releasing 0) (releasing 0) closing refl refl refl
      refl

abbrev pending : Driven
pending = record closing {
  connection = record arrived { state = conn_pending_close };
  socket_closed = true;
}

events-Destroyed_example :
    (d' : Driven) × (events ((releasing 0, releasing 0) ∷ (releasing 1, releasing 0) ∷ []) pending
      ≡ returns false d')
    × Destroyed d'
events-Destroyed_example =
    events-Destroyed (releasing 0) (releasing 0) ((releasing 1, releasing 0) ∷ []) pending
      (record { at = refl; socket = refl; owned = refl }) refl (omega arith)

-- The last task of a connection, on a server with a verbosity of 3.
abbrev last_task : Driven
last_task = record pending { connection = record arrived { state = conn_immediate_close } }

abbrev loud : World
loud = record (releasing 0) { verbose = 3 }
