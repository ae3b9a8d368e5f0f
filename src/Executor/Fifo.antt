-- ===== src/Executor/Fifo.antt =====
-- The run queue is served in order, and to its end: the turns of Executor::run while no other thread
-- takes a mutex or asks for the shutdown.
use memcached.Executor.{
  Executor, Action, free, worker, idle, executing, set_owner, pop_front, take_mutex, run_execute,
  park, unlock, notify_done, insert, act, act_all, pop, lock_task, put_in_waitq, unlock_task,
  notify, call_execute,
}
use memcached.Common.{
  ℕ, ◌≡◌, refl, inl, inr, ==_iff, Bool, true, false, ◌==◌, Bool-cases, some, List, [], ◌∷◌, ◌++◌,
  length, arith, ◌∙◌,
}

-- One turn of the loop, by what the task's call_execute returns.
abbrev pub turn : Bool → List Action
turn true = pop ∷ lock_task ∷ call_execute true ∷ notify ∷ []
turn false = pop ∷ lock_task ∷ call_execute false ∷ put_in_waitq ∷ unlock_task ∷ []

abbrev pub turns : List Bool → List Action
turns [] = pop ∷ lock_task ∷ []
turns (result ∷ results) = turn result ++ turns results

-- The executor waits for work, it is not to stop, and no mutex is held.
pub record Idle (e : Executor) (runq : List ℕ) : Type 0 where
  pub waiting : e.stage ≡ idle
  pub goes_on : e.shutdown ≡ false
  pub unlocked : (t : ℕ) → e.owner t ≡ free
  pub queue : e.runq ≡ runq

-- The executor as it runs the first task of its queue.
abbrev begun : ℕ → List ℕ → Executor → Executor
begun t runq e = record (set_owner t worker e) { stage = executing t; runq = runq }

begin_lem :
    (t : ℕ) (runq : List ℕ) (actions : List Action) (e : Executor)
    → Idle e (t ∷ runq)
    → act_all (pop ∷ lock_task ∷ actions) e ≡ act_all actions (begun t runq e)
unfolding act_all act pop_front take_mutex set_owner
begin_lem t runq actions e r = rw (act_all, r.waiting, r.goes_on, r.queue) (rw (r.unlocked t) refl)

owner_given_back :
    (t : ℕ) (e : Executor)
    → ((u : ℕ) → e.owner u ≡ free)
    → (u : ℕ) → (set_owner t free (set_owner t worker e)).owner u ≡ free
unfolding set_owner
owner_given_back t e unlocked u = elim (Bool-cases (u == t)) [
  | inl same ↦ rw same refl
  | inr other ↦ rw (other) (unlocked u)
]

turn_lem :
    (t : ℕ) (runq : List ℕ) (result : Bool) (actions : List Action) (e : Executor)
    → Idle e (t ∷ runq)
    → (e' : Executor) × (act_all (turn result ++ actions) e ≡ act_all actions e') × Idle e' runq
unfolding act_all act run_execute notify_done park unlock set_owner
turn_lem t runq true actions e r =
    let e₁ = set_owner t free (set_owner t worker e) in
    (
      record e₁ { stage = idle; runq = runq; completed = t ∷ e.completed },
      begin_lem t runq (call_execute true ∷ notify ∷ actions) e r,
      record {
        waiting = refl;
        goes_on = r.goes_on;
        unlocked = owner_given_back t e r.unlocked;
        queue = refl;
      },
    )
turn_lem t runq false actions e r =
    let e₁ = set_owner t free (set_owner t worker e) in
    (
      record e₁ { stage = idle; runq = runq; waitq = insert t e.waitq },
      begin_lem t runq (call_execute false ∷ put_in_waitq ∷ unlock_task ∷ actions) e r,
      record {
        waiting = refl;
        goes_on = r.goes_on;
        unlocked = owner_given_back t e r.unlocked;
        queue = refl;
      },
    )

-- Where no mutex is held and the shutdown is not asked for, a task with n tasks before it in the run
-- queue is executed after n turns of the executor's thread, whatever these tasks return, with its
-- mutex held and the tasks behind it still queued.
pub turns-executing :
    (before : List ℕ) (t : ℕ) (after : List ℕ) (results : List Bool) (e : Executor)
    → Idle e (before ++ t ∷ after)
    → length results ≡ length before
    → (e' : Executor) × (act_all (turns results) e ≡ some e')
      × (e'.stage ≡ executing t)
      × (e'.owner t ≡ worker)
      × (e'.runq ≡ after)
unfolding act_all set_owner
turns-executing [] t after [] e r h =
    (begun t after e, begin_lem t after [] e r, refl, rw ((==_iff t t).1 refl) refl, refl)
turns-executing [] t after (result ∷ results) e r h = absurd (omega arith)
turns-executing (u ∷ before) t after [] e r h = absurd (omega arith)
turns-executing (u ∷ before) t after (result ∷ results) e r h =
    let (e₁, moved, ready) = turn_lem u (before ++ t ∷ after) result (turns results) e r in
    let (e', ran, stage, own, queue) =
      turns-executing before t after results e₁ ready (omega arith) in
    (e', moved ∙ ran, stage, own, queue)
