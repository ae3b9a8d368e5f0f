-- ===== src/Executor.antt =====
-- The executor of background tasks: daemon/executor.h, daemon/executor.cc and the task of daemon/task.h.
-- A task is a number. The executor's thread and the others take turns; what a thread does while it holds
-- a lock, and each acquisition of a task's mutex, is one action.
pub mod InHand
pub mod Handover
pub mod Fifo
use memcached.Common.{
  ℕ, Bool, true, false, not, ◌==◌, ◌!=◌, ◌||◌, if◌then◌else◌, Option, none, some, List, [], ◌∷◌,
  ◌++◌,
}

pub data Owner : Type 0 where
  free worker backend : Owner

-- Where Executor::run stands, and the task that it holds there.
pub data Stage : Type 0 where
  idle draining stopped : Stage
  popped executing blocked parked finished : (task : ℕ) → Stage

-- `executor_of` and `owner` are the tasks' executor pointers and mutexes; `completed` are the calls of
-- notifyExecutionComplete, the last one first.
pub record Executor : Type 0 where
  pub self : ℕ
  pub runq : List ℕ
  pub waitq : List ℕ
  pub shutdown : Bool
  pub stage : Stage
  pub executor_of : ℕ → Option ℕ
  pub owner : ℕ → Owner
  pub completed : List ℕ

pub data Error : Type 0 where
  logic_error runtime_error : Error

pub data Result {ℓ} (A : Type ℓ) : Type ℓ where
  ok : A → Result A
  throw : Error → Result A

unfoldable pub in_waitq : ℕ → List ℕ → Bool
in_waitq t [] = false
in_waitq t (u ∷ waitq) = u == t || in_waitq t waitq

-- `waitq[task] = task`
unfoldable pub insert : ℕ → List ℕ → List ℕ
unfolding in_waitq
insert t waitq = if in_waitq t waitq then waitq else t ∷ waitq

unfoldable pub erase : ℕ → List ℕ → List ℕ
erase t [] = []
erase t (u ∷ waitq) = let rest = erase t waitq in if u == t then waitq else u ∷ rest

unfoldable pub set_owner : ℕ → Owner → Executor → Executor
set_owner t o e = record e { owner = λ u. if u == t then o else e.owner u }

abbrev pub is_free : Owner → Bool
is_free free = true
is_free _ = false

abbrev pub is_backend : Owner → Bool
is_backend backend = true
is_backend _ = false

-- Task::setExecutor throws where the task belongs to another executor.
unfoldable pub elsewhere : Executor → ℕ → Bool
elsewhere e t = elim (e.executor_of t) [ none ↦ false | some other ↦ other != e.self ]

-- Executor::schedule.
unfoldable pub schedule : ℕ → Bool → Executor → Result Executor
unfolding elsewhere insert
schedule t runnable e =
    if elsewhere e t
    then throw logic_error
    else ok (record e {
      executor_of = λ u. if u == t then some e.self else e.executor_of u;
      runq = if runnable then e.runq ++ t ∷ [] else e.runq;
      waitq = if runnable then e.waitq else insert t e.waitq;
    })

-- Executor::makeRunnable.
unfoldable pub make_runnable : ℕ → Executor → Result Executor
unfolding in_waitq erase
make_runnable t e =
    if is_free (e.owner t)
    then throw logic_error
    else (if in_waitq t e.waitq
        then ok (record e { runq = e.runq ++ t ∷ []; waitq = erase t e.waitq })
        else throw runtime_error)

-- The actions of the executor's thread, and of the others. `call_execute` carries what the task's execute
-- returns.
pub data Action : Type 0 where
  pop lock_task put_in_waitq unlock_task notify see_shutdown see_drained : Action
  call_execute : Bool → Action
  backend_lock backend_unlock call_make_runnable : ℕ → Action
  call_schedule : ℕ → Bool → Action
  request_shutdown : Action

-- A caller's exception leaves the executor as it was.
unfoldable pub after_call : Executor → Result Executor → Executor
after_call e (ok e') = e'
after_call e (throw error) = e

-- The turn of Executor::run's loop that starts at `stage`; none where the thread has to wait, or stands
-- elsewhere.
unfoldable pub pop_front : Stage → Bool → List ℕ → Executor → Option Executor
pop_front idle false (t ∷ runq) e = some (record e { stage = popped t; runq = runq })
pop_front _ shutdown runq e = none

unfoldable pub take_mutex : Stage → Executor → Option Executor
unfolding set_owner
take_mutex (popped t) e =
    if is_free (e.owner t)
    then some (record (set_owner t worker e) { stage = executing t })
    else none
take_mutex _ e = none

unfoldable pub run_execute : Stage → Bool → Executor → Option Executor
unfolding set_owner
run_execute (executing t) true e = some (record (set_owner t free e) { stage = finished t })
run_execute (executing t) false e = some (record e { stage = blocked t })
run_execute _ result e = none

unfoldable pub park : Stage → Executor → Option Executor
unfolding insert
park (blocked t) e = some (record e { stage = parked t; waitq = insert t e.waitq })
park _ e = none

unfoldable pub unlock : Stage → Executor → Option Executor
unfolding set_owner
unlock (parked t) e = some (record (set_owner t free e) { stage = idle })
unlock _ e = none

unfoldable pub notify_done : Stage → Executor → Option Executor
notify_done (finished t) e = some (record e { stage = idle; completed = t ∷ e.completed })
notify_done _ e = none

unfoldable pub leave_loop : Stage → Bool → Executor → Option Executor
leave_loop idle true e = some (record e { stage = draining })
leave_loop _ shutdown e = none

unfoldable pub drained : Stage → List ℕ → Executor → Option Executor
drained draining [] e = some (record e { stage = stopped })
drained _ waitq e = none

unfoldable pub act : Action → Executor → Option Executor
unfolding pop_front take_mutex run_execute park unlock notify_done leave_loop drained set_owner
    after_call schedule make_runnable
act pop e = pop_front e.stage e.shutdown e.runq e
act lock_task e = take_mutex e.stage e
act (call_execute result) e = run_execute e.stage result e
act put_in_waitq e = park e.stage e
act unlock_task e = unlock e.stage e
act notify e = notify_done e.stage e
act see_shutdown e = leave_loop e.stage e.shutdown e
act see_drained e = drained e.stage e.waitq e
act (backend_lock t) e = if is_free (e.owner t) then some (set_owner t backend e) else none
act (backend_unlock t) e = if is_backend (e.owner t) then some (set_owner t free e) else none
act (call_make_runnable t) e = some (after_call e (make_runnable t e))
act (call_schedule t runnable) e = some (after_call e (schedule t runnable e))
act request_shutdown e = some (record e { shutdown = true })

-- Any interleaving.
unfoldable pub act_all : List Action → Executor → Option Executor
unfolding act
act_all [] e = some e
act_all (a ∷ actions) e = elim (act a e) [ none ↦ none | some e' ↦ act_all actions e' ]

-- A new executor whose thread has started, and tasks that no one has scheduled.
unfoldable pub new_executor : ℕ → Executor
new_executor self = record {
  self = self;
  runq = [];
  waitq = [];
  shutdown = false;
  stage = idle;
  executor_of = λ t. none;
  owner = λ t. free;
  completed = [];
}
