-- ===== src/Machine/Closing.antt =====
-- From conn_closing on: a connection goes through conn_pending_close while others hold it, and is
-- destroyed.
use memcached.Machine.{Driven, World, Outcome, returns, go}
use memcached.Machine.Loop.{
  disconnect, conn_cleanup, conn_closing_task, conn_pending_close_task, conn_close,
  conn_immediate_close_task, run_task, continue, run_state_machinery,
}
use memcached.Connection.{
  Connection, Task, conn_closing, conn_pending_close, conn_immediate_close, conn_destroyed,
  set_state, has_task_name, set_current_task, same_task, conn_waiting, conn_ship_log,
}
use memcached.Common.{
  ℕ, some, arith, and-true, ◌-◌, ◌<◌, ◌≡◌, refl, ◌∙◌, ap, ◌⊎◌, inl, inr, Bool, true, false, ◌||◌,
  ◌&&◌, not, ltb, ltb→lt, if◌then◌else◌, Bool-cases, List, [], ◌∷◌,
}

-- The connection is destroyed: its socket is closed, no thread owns it, and no input is left.
pub record Destroyed (d : Driven) : Type 0 where
  pub task : d.connection.state ≡ conn_destroyed
  pub socket : d.socket_closed ≡ true
  pub detached : d.thread ≡ false
  pub no_input : d.connection.read.bytes ≡ 0
  pub simplex : (d.connection.tap || d.connection.dcp) ≡ false

-- It can still be closed: a thread owns it.
pub record Pending (task : Task) (d : Driven) : Type 0 where
  pub at : d.connection.state ≡ task
  pub socket : d.socket_closed ≡ true
  pub owned : d.thread ≡ true

-- The connection's port is known, or it is a pipe, and the server's verbosity is at most 2.
abbrev pub can_close : World → Bool
can_close w = (w.port_known || w.is_pipe) && not (ltb 2 w.verbose)

-- The connection that conn_close leaves where it does not throw.
abbrev closed : Driven → Driven
closed d =
    let cleaned = conn_cleanup d in
    record cleaned { connection = set_state conn_destroyed cleaned.connection }

pub set_state-immediate_close :
    (c : Connection)
    → c.state ≡ conn_pending_close
    → (set_state conn_immediate_close c).state ≡ conn_immediate_close
unfolding set_state
set_state-immediate_close c e = rw e refl

closed-Destroyed : (d : Driven) → d.connection.state ≡ conn_immediate_close → Destroyed (closed d)
unfolding conn_cleanup set_state
closed-Destroyed d at = record {
  task = rw at refl;
  socket = refl;
  detached = refl;
  no_input = refl;
  simplex = refl;
}

-- Between two tasks with names the log line does not throw, so that set_state is what is done.
set_current_task-set_state :
    (verbose : ℕ) (task : Task) (c : Connection)
    → has_task_name c.state ≡ true
    → has_task_name task ≡ true
    → set_current_task verbose task c ≡ some (set_state task c)
unfolding set_current_task has_task_name
set_current_task-set_state verbose task c from to =
    rw
      (
        set_current_task,
        from,
        target_named (same_task task conn_waiting && (c.tap || c.dcp)),
        silent (not (same_task task c.state)) _,
      )
      refl
  where
    target_named : (waits : Bool) → has_task_name (if waits then conn_ship_log else task) ≡ true
    target_named true = refl
    target_named false = to

    silent : (moves logs : Bool) → (moves && logs && false) ≡ false
    silent true true = refl
    silent true false = refl
    silent false logs = refl

set_destroyed :
    (verbose : ℕ) (c : Connection)
    → c.state ≡ conn_immediate_close
    → ltb 2 verbose ≡ false
    → set_current_task verbose conn_destroyed c ≡ some (set_state conn_destroyed c)
unfolding set_current_task has_task_name
set_destroyed verbose c at quiet = rw (set_current_task, at, quiet) refl

-- At a verbosity of at most 2 the closed connection is what is left.
conn_close-closed :
    (w : World) (d : Driven)
    → d.connection.state ≡ conn_immediate_close
    → ltb 2 w.verbose ≡ false
    → conn_close w d ≡ returns false (closed d)
unfolding conn_close
conn_close-closed w d at quiet =
    rw
      (
        conn_close,
        set_destroyed w.verbose (conn_cleanup d).connection (unfold conn_cleanup in at) quiet,
      )
      refl

-- What conn_immediate_close has done before it calls conn_close.
abbrev pub told : World → Driven → Driven
told w d =
    disconnect w (record d { port_conns = if w.port_known then d.port_conns - 1 else d.port_conns })

immediate-Destroyed :
    (w : World) (d : Driven)
    → Pending conn_immediate_close d
    → can_close w ≡ true
    → (run_task w conn_immediate_close d ≡ returns false (closed (told w d)))
      × Destroyed (closed (told w d))
unfolding run_task conn_immediate_close_task disconnect
immediate-Destroyed w d p known =
    let (accounted, quiet) = and-true (w.port_known || w.is_pipe) (not (ltb 2 w.verbose)) known in
    let port : (not w.port_known && not w.is_pipe) ≡ false =
      both w.port_known w.is_pipe accounted in
    (
      rw (p.socket, port, p.owned) (conn_close-closed w (told w d) p.at (ground (arith, quiet))),
      closed-Destroyed (told w d) p.at,
    )
  where
    both : (a b : Bool) → (a || b) ≡ true → (not a && not b) ≡ false
    both true b h = refl
    both false true h = refl
    both false false h = cc

-- One turn of the loop, whose task is known.
pub turn_lem :
    (w : World) (worlds : List World) (d : Driven) (task : Task) {outcome : Outcome}
    → d.connection.state ≡ task
    → run_task w task d ≡ outcome
    → run_state_machinery (w ∷ worlds) d ≡ continue (λ d'. run_state_machinery worlds d') outcome
unfolding run_state_machinery
turn_lem w worlds d task at ran =
    ap (continue (λ d'. run_state_machinery worlds d')) (ap (λ t. run_task w t d) at ∙ ran)

pub pending_task-held :
    (w : World) (d : Driven)
    → d.socket_closed ≡ true
    → ltb 1 (d.refcount - w.release) ≡ true
    → run_task w conn_pending_close d ≡ returns false (disconnect w d)
unfolding run_task conn_pending_close_task disconnect
pending_task-held w d closed held = rw (closed, held) refl

pub pending_task-free :
    (w : World) (d : Driven)
    → d.socket_closed ≡ true
    → ltb 1 (d.refcount - w.release) ≡ false
    → run_task w conn_pending_close d ≡ returns true (go conn_immediate_close (disconnect w d))
unfolding run_task conn_pending_close_task disconnect
pending_task-free w d closed held = rw (closed, held) refl

-- The tasks of one event on a connection that is pending: it stays pending, with fewer references, or it
-- is destroyed.
pub Pending-cases :
    (w w' : World) (d : Driven)
    → Pending conn_pending_close d
    → can_close w' ≡ true
    → (d' : Driven) × (run_state_machinery (w ∷ w' ∷ []) d ≡ returns false d')
      × ((Pending conn_pending_close d'
            × (d'.refcount ≡ d.refcount - w.release)
            × (1 < d'.refcount))
          ⊎ Destroyed d')
unfolding disconnect go continue
Pending-cases w w' d p known = elim (Bool-cases (ltb 1 (d.refcount - w.release))) [
  | inl held ↦ (
    disconnect w d,
    turn_lem w (w' ∷ []) d conn_pending_close p.at (pending_task-held w d p.socket held),
    inl (record { at = p.at; socket = p.socket; owned = p.owned }, refl, ltb→lt 1 _ held),
  )
  | inr free ↦
      let next = go conn_immediate_close (disconnect w d) in
      let at : next.connection.state ≡ conn_immediate_close =
        set_state-immediate_close d.connection p.at in
      let pending : Pending conn_immediate_close next = record {
        at = at;
        socket = p.socket;
        owned = p.owned;
      } in
      let (ran, destroyed) = immediate-Destroyed w' next pending known in
      (
        closed (told w' next),
        turn_lem w (w' ∷ []) d conn_pending_close p.at (pending_task-free w d p.socket free)
            ∙ turn_lem w' [] next conn_immediate_close at ran,
        inr destroyed,
      )
]

-- A destroyed connection stays as it is.
pub Destroyed-turn :
    (w : World) (worlds : List World) (d : Driven)
    → Destroyed d
    → run_state_machinery (w ∷ worlds) d ≡ returns false d
unfolding run_task continue
Destroyed-turn w worlds d h = turn_lem w worlds d conn_destroyed h.task refl

pub closing_task-busy :
    (w : World) (d : Driven)
    → (ltb 1 d.refcount || d.connection.ewouldblock) ≡ true
    → run_task w conn_closing d
      ≡ returns true (go conn_pending_close (record d { registered = false; socket_closed = true }))
unfolding run_task conn_closing_task
closing_task-busy w d busy = rw busy refl

pub closing_task-done :
    (w : World) (d : Driven)
    → (ltb 1 d.refcount || d.connection.ewouldblock) ≡ false
    → run_task w conn_closing d
      ≡ returns true
          (go conn_immediate_close (record d { registered = false; socket_closed = true }))
unfolding run_task conn_closing_task
closing_task-done w d done = rw done refl

pub set_state_from_closing :
    (c : Connection)
    → c.state ≡ conn_closing
    → ((set_state conn_pending_close c).state ≡ conn_pending_close)
      × ((set_state conn_immediate_close c).state ≡ conn_immediate_close)
unfolding set_state
set_state_from_closing c e = (rw e refl, rw e refl)

-- From conn_closing, with a thread that owns the connection, its port known or the connection a
-- pipe, and the server's verbosity at most 2, the loop of tasks ends after at most three tasks,
-- without an exception, and the connection is destroyed, or is pending with its socket closed and
-- more than one reference held.
pub run_state_machinery-closing :
    (w w' w'' : World) (d : Driven)
    → d.connection.state ≡ conn_closing
    → d.thread ≡ true
    → can_close w' ≡ true
    → can_close w'' ≡ true
    → (d' : Driven) × (run_state_machinery (w ∷ w' ∷ w'' ∷ []) d ≡ returns false d')
      × ((Pending conn_pending_close d' × (1 < d'.refcount)) ⊎ Destroyed d')
unfolding go continue
run_state_machinery-closing w w' w'' d at owned known known' =
    elim (Bool-cases (ltb 1 d.refcount || d.connection.ewouldblock)) [
      | inl busy ↦
          let next =
            go conn_pending_close (record d { registered = false; socket_closed = true }) in
          let (d', ran, cases) =
            Pending-cases w' w'' next
              (record {
                at = (set_state_from_closing d.connection at).0;
                socket = refl;
                owned = owned;
              })
              known' in
          (
            d',
            turn_lem w (w' ∷ w'' ∷ []) d conn_closing at (closing_task-busy w d busy) ∙ ran,
            elim cases [ inl held ↦ inl (held.0, held.2) | inr destroyed ↦ inr destroyed ],
          )
      | inr done ↦
          let next =
            go conn_immediate_close (record d { registered = false; socket_closed = true }) in
          let pending : Pending conn_immediate_close next = record {
            at = (set_state_from_closing d.connection at).1;
            socket = refl;
            owned = owned;
          } in
          let (ran, destroyed) = immediate-Destroyed w' next pending known in
          (
            closed (told w' next),
            turn_lem w (w' ∷ w'' ∷ []) d conn_closing at (closing_task-done w d done)
                ∙ turn_lem w' (w'' ∷ []) next conn_immediate_close pending.at ran,
            inr destroyed,
          )
    ]
