-- ===== src/Executor/Handover.antt =====
-- The handover of a task from the executor's thread to the one that serves it: whoever gets the mutex of a
-- task whose execution has begun finds the task in the wait queue, or the executor done with it.
use memcached.Executor.InHand.{
  InHand, executes, blocks, waits, executed, notified, some-subst, in_waitq-insert, in_waitq-erase,
  worker_apart, worker_not_backend, pop-InHand, lock-InHand, call_execute-InHand, park-InHand,
  unlock-InHand, notify_done-InHand, leave-InHand, drained-InHand, owner-InHand,
}
use memcached.Executor.{
  Executor, Action, ok, free, worker, backend, executing, finished, in_waitq, insert, erase,
  is_free, is_backend, elsewhere, schedule, make_runnable, after_call, act, act_all, pop, lock_task,
  put_in_waitq, unlock_task, notify, see_shutdown, see_drained, call_execute, backend_lock,
  backend_unlock, call_make_runnable, call_schedule, request_shutdown,
}
use memcached.Common.{
  ℕ, ◌≡◌, refl, sym, ◌∙◌, ◌≢◌, ◌⊎◌, inl, inr, Bool, true, false, ◌==◌, and-true, not, ◌&&◌,
  if◌then◌else◌, Bool-cases, Option-cases, none, some, List, [], ◌∷◌, ◌++◌, arith,
}

module _ (t : ℕ) (e : Executor) where
  make_runnable-InHand : (u : ℕ) → u ≢ t → InHand t e → InHand t (after_call e (make_runnable u e))
  unfolding make_runnable after_call
  make_runnable-InHand u n i = elim (Bool-cases (is_free (e.owner u))) [
    | inl unlocked ↦ rw unlocked i
    | inr locked ↦ elim (Bool-cases (in_waitq u e.waitq)) [
      | inl found ↦ rw (locked, found) (moved i)
      | inr missing ↦ rw (locked, missing) i
    ]
  ]
    where
      moved : InHand t e → InHand t (record e { runq = e.runq ++ u ∷ []; waitq = erase u e.waitq })
      moved (executes s own) = executes s own
      moved (blocks s own) = blocks s own
      moved (waits found) = waits (in_waitq-erase t u e.waitq n found)
      moved (executed done) = executed done
      moved (notified found) = notified found

  schedule-InHand :
      (u : ℕ) (runnable : Bool) → InHand t e → InHand t (after_call e (schedule u runnable e))
  unfolding schedule after_call
  schedule-InHand u runnable i = elim (Bool-cases (elsewhere e u)) [
    | inl other ↦ rw other i
    | inr own ↦ rw own (queued runnable i)
  ]
    where
      queued :
          (runnable : Bool)
          → InHand t e
          → InHand t (record e {
            executor_of = λ v. if v == u then some e.self else e.executor_of v;
            runq = if runnable then e.runq ++ u ∷ [] else e.runq;
            waitq = if runnable then e.waitq else insert u e.waitq;
          })
      queued runnable (executes s own) = executes s own
      queued runnable (blocks s own) = blocks s own
      queued true (waits found) = waits found
      queued false (waits found) = waits (in_waitq-insert t u e.waitq found)
      queued runnable (executed done) = executed done
      queued runnable (notified found) = notified found

-- The task is not made runnable by the action.
abbrev pub spares : ℕ → Action → Bool
spares t (call_make_runnable u) = not (u == t)
spares t _ = true

abbrev pub spare : ℕ → List Action → Bool
spare t [] = true
spare t (a ∷ actions) = spares t a && spare t actions

act-InHand :
    (t : ℕ) (a : Action) (e e' : Executor)
    → spares t a ≡ true
    → act a e ≡ some e'
    → InHand t e
    → InHand t e'
unfolding act
act-InHand t pop e e' n h i = pop-InHand t e e.stage e.shutdown e.runq e' refl h i
act-InHand t lock_task e e' n h i = lock-InHand t e e.stage e' refl h i
act-InHand t (call_execute result) e e' n h i = call_execute-InHand t e e.stage result e' refl h i
act-InHand t put_in_waitq e e' n h i = park-InHand t e e.stage e' refl h i
act-InHand t unlock_task e e' n h i = unlock-InHand t e e.stage e' refl h i
act-InHand t notify e e' n h i = notify_done-InHand t e e.stage e' refl h i
act-InHand t see_shutdown e e' n h i = leave-InHand t e e.stage e.shutdown e' refl h i
act-InHand t see_drained e e' n h i = drained-InHand t e e.stage e.waitq e' refl h i
act-InHand t (backend_lock u) e e' n h i = elim (Bool-cases (is_free (e.owner u))) [
  | inl unlocked ↦
      some-subst (InHand t) (sym (rw unlocked refl) ∙ h)
        (owner-InHand t e u backend (λ own. worker_apart (e.owner u) own unlocked) i)
  | inr locked ↦ let stuck : none ≡ some e' = sym (rw locked refl) ∙ h in absurd cc
]
act-InHand t (backend_unlock u) e e' n h i = elim (Bool-cases (is_backend (e.owner u))) [
  | inl theirs ↦
      some-subst (InHand t) (sym (rw theirs refl) ∙ h)
        (owner-InHand t e u free (λ own. worker_not_backend (e.owner u) own theirs) i)
  | inr other ↦ let stuck : none ≡ some e' = sym (rw other refl) ∙ h in absurd cc
]
act-InHand t (call_make_runnable u) e e' n h i =
    some-subst (InHand t) h (make_runnable-InHand t e u (ground arith) i)
act-InHand t (call_schedule u runnable) e e' n h i =
    some-subst (InHand t) h (schedule-InHand t e u runnable i)
act-InHand t request_shutdown e e' n h (executes s own) = some-subst (InHand t) h (executes s own)
act-InHand t request_shutdown e e' n h (blocks s own) = some-subst (InHand t) h (blocks s own)
act-InHand t request_shutdown e e' n h (waits found) = some-subst (InHand t) h (waits found)
act-InHand t request_shutdown e e' n h (executed done) = some-subst (InHand t) h (executed done)
act-InHand t request_shutdown e e' n h (notified found) = some-subst (InHand t) h (notified found)

act_all-InHand :
    (t : ℕ) (actions : List Action) (e e' : Executor)
    → spare t actions ≡ true
    → act_all actions e ≡ some e'
    → InHand t e
    → InHand t e'
unfolding act_all
act_all-InHand t [] e e' n h i = some-subst (InHand t) h i
act_all-InHand t (a ∷ actions) e e' n h i = elim (Option-cases (act a e)) [
  | inl stuck ↦ let ended : none ≡ some e' = sym (rw (act_all, stuck) refl) ∙ h in absurd cc
  | inr (e₁, moved) ↦
      let (first, others) = and-true (spares t a) (spare t actions) n in
      act_all-InHand t actions e₁ e' others (sym (rw (act_all, moved) refl) ∙ h)
        (act-InHand t a e e₁ first moved i)
]

make_runnable-waits :
    (t : ℕ) (e : Executor)
    → e.owner t ≡ backend
    → in_waitq t e.waitq ≡ true
    → make_runnable t e ≡ ok (record e { runq = e.runq ++ t ∷ []; waitq = erase t e.waitq })
unfolding make_runnable
make_runnable-waits t e own found = rw (own, found) refl

-- Let the executor's thread run a task and hold its mutex, and let any actions of all threads
-- follow, none of them making the task runnable. If another thread then has the task's mutex,
-- makeRunnable finds the task in the wait queue and moves it to the end of the run queue, or the
-- task's execution has completed.
pub act_all-make_runnable :
    (t : ℕ) (actions : List Action) (e e' : Executor)
    → e.stage ≡ executing t
    → e.owner t ≡ worker
    → spare t actions ≡ true
    → act_all actions e ≡ some e'
    → e'.owner t ≡ backend
    → (make_runnable t e' ≡ ok (record e' { runq = e'.runq ++ t ∷ []; waitq = erase t e'.waitq }))
      ⊎ (e'.stage ≡ finished t)
      ⊎ (in_waitq t e'.completed ≡ true)
act_all-make_runnable t actions e e' runs own others ran held =
    elim (act_all-InHand t actions e e' others ran (executes runs own)) [
      | executes s mine ↦ absurd cc
      | blocks s mine ↦ absurd cc
      | waits found ↦ inl (make_runnable-waits t e' held found)
      | executed done ↦ inr (inl done)
      | notified found ↦ inr (inr found)
    ]
