-- ===== src/Executor/InHand.antt =====
-- A task whose execution has begun is in some hand: how each turn of Executor::run leaves it.
use memcached.Executor.{
  Executor, Owner, Stage, free, worker, backend, idle, draining, popped, executing, blocked, parked,
  finished, in_waitq, insert, erase, set_owner, is_free, is_backend, pop_front, take_mutex,
  run_execute, park, unlock, notify_done, leave_loop, drained,
}
use memcached.Common.{
  ℕ, ◌≡◌, refl, sym, ◌∙◌, ◌≢◌, inl, inr, Bool, true, false, ◌==◌, ==_iff, Bool-cases, none, some,
  List, [], ◌∷◌, subst, arith,
}

pub data InHand (t : ℕ) (e : Executor) : Type 0 where
  executes : e.stage ≡ executing t → e.owner t ≡ worker → InHand t e
  blocks : e.stage ≡ blocked t → e.owner t ≡ worker → InHand t e
  waits : in_waitq t e.waitq ≡ true → InHand t e
  executed : e.stage ≡ finished t → InHand t e
  notified : in_waitq t e.completed ≡ true → InHand t e

pub some-subst {ℓ κ} : {A : Type ℓ} (P : A → Type κ) {a b : A} → some a ≡ some b → P a → P b
some-subst P e p = subst P (cc) p

pub in_waitq-insert :
    (t u : ℕ) (waitq : List ℕ) → in_waitq t waitq ≡ true → in_waitq t (insert u waitq) ≡ true
unfolding insert in_waitq
in_waitq-insert t u waitq h = ground arith

in_waitq-insert_self : (t : ℕ) (waitq : List ℕ) → in_waitq t (insert t waitq) ≡ true
unfolding insert in_waitq
in_waitq-insert_self t waitq = ground arith

pub in_waitq-erase :
    (t u : ℕ) (waitq : List ℕ) → u ≢ t → in_waitq t waitq ≡ true → in_waitq t (erase u waitq) ≡ true
unfolding erase in_waitq
in_waitq-erase t u [] n h = h
in_waitq-erase t u (v ∷ waitq) n h = ground (arith, in_waitq-erase t u waitq n)

set_owner-other :
    (t u : ℕ) (o : Owner) (e : Executor) → u ≢ t → (set_owner u o e).owner t ≡ e.owner t
unfolding set_owner
set_owner-other t u o e n = ground arith

pub worker_apart : (o : Owner) → o ≡ worker → is_free o ≡ true → ⊥
worker_apart worker h f = absurd cc
worker_apart free h f = absurd cc
worker_apart backend h f = absurd cc

pub worker_not_backend : (o : Owner) → o ≡ worker → is_backend o ≡ true → ⊥
worker_not_backend worker h f = absurd cc
worker_not_backend free h f = absurd cc
worker_not_backend backend h f = absurd cc

module _ (t : ℕ) (e : Executor) where
  pub pop-InHand :
      (stage : Stage) (shutdown : Bool) (runq : List ℕ) (e' : Executor)
      → e.stage ≡ stage
      → pop_front stage shutdown runq e ≡ some e'
      → InHand t e
      → InHand t e'
  unfolding pop_front
  pop-InHand idle false (u ∷ runq) e' at h (executes s own) = absurd cc
  pop-InHand idle false (u ∷ runq) e' at h (blocks s own) = absurd cc
  pop-InHand idle false (u ∷ runq) e' at h (waits found) = some-subst (InHand t) h (waits found)
  pop-InHand idle false (u ∷ runq) e' at h (executed done) = absurd cc
  pop-InHand idle false (u ∷ runq) e' at h (notified found) =
      some-subst (InHand t) h (notified found)
  pop-InHand _ shutdown runq e' at h i = cc

  taken-InHand :
      (u : ℕ)
      → e.stage ≡ popped u
      → InHand t e
      → InHand t (record (set_owner u worker e) { stage = executing u })
  unfolding set_owner
  taken-InHand u at (executes s own) = absurd cc
  taken-InHand u at (blocks s own) = absurd cc
  taken-InHand u at (waits found) = waits found
  taken-InHand u at (executed done) = absurd cc
  taken-InHand u at (notified found) = notified found

  pub lock-InHand :
      (stage : Stage) (e' : Executor)
      → e.stage ≡ stage
      → take_mutex stage e ≡ some e'
      → InHand t e
      → InHand t e'
  unfolding take_mutex
  lock-InHand (popped u) e' at h i = elim (Bool-cases (is_free (e.owner u))) [
    | inl unlocked ↦ some-subst (InHand t) (sym (rw unlocked refl) ∙ h) (taken-InHand u at i)
    | inr locked ↦ let stuck : none ≡ some e' = sym (rw locked refl) ∙ h in absurd cc
  ]
  lock-InHand _ e' at h i = cc

  pub call_execute-InHand :
      (stage : Stage) (result : Bool) (e' : Executor)
      → e.stage ≡ stage
      → run_execute stage result e ≡ some e'
      → InHand t e
      → InHand t e'
  unfolding run_execute set_owner
  call_execute-InHand (executing u) true e' at h (executes s own) =
      some-subst (InHand t) h (executed (cc))
  call_execute-InHand (executing u) true e' at h (blocks s own) = absurd cc
  call_execute-InHand (executing u) true e' at h (waits found) =
      some-subst (InHand t) h (waits found)
  call_execute-InHand (executing u) true e' at h (executed done) = absurd cc
  call_execute-InHand (executing u) true e' at h (notified found) =
      some-subst (InHand t) h (notified found)
  call_execute-InHand (executing u) false e' at h (executes s own) =
      some-subst (InHand t) h (blocks (cc) own)
  call_execute-InHand (executing u) false e' at h (blocks s own) = absurd cc
  call_execute-InHand (executing u) false e' at h (waits found) =
      some-subst (InHand t) h (waits found)
  call_execute-InHand (executing u) false e' at h (executed done) = absurd cc
  call_execute-InHand (executing u) false e' at h (notified found) =
      some-subst (InHand t) h (notified found)
  call_execute-InHand _ result e' at h i = cc

  pub park-InHand :
      (stage : Stage) (e' : Executor)
      → e.stage ≡ stage
      → park stage e ≡ some e'
      → InHand t e
      → InHand t e'
  unfolding park
  park-InHand (blocked u) e' at h (executes s own) = absurd cc
  park-InHand (blocked u) e' at h (blocks s own) =
      let same : u ≡ t = cc in
      some-subst (InHand t) h (waits (rw same (in_waitq-insert_self t e.waitq)))
  park-InHand (blocked u) e' at h (waits found) =
      some-subst (InHand t) h (waits (in_waitq-insert t u e.waitq found))
  park-InHand (blocked u) e' at h (executed done) = absurd cc
  park-InHand (blocked u) e' at h (notified found) = some-subst (InHand t) h (notified found)
  park-InHand _ e' at h i = cc

  pub unlock-InHand :
      (stage : Stage) (e' : Executor)
      → e.stage ≡ stage
      → unlock stage e ≡ some e'
      → InHand t e
      → InHand t e'
  unfolding unlock set_owner
  unlock-InHand (parked u) e' at h (executes s own) = absurd cc
  unlock-InHand (parked u) e' at h (blocks s own) = absurd cc
  unlock-InHand (parked u) e' at h (waits found) = some-subst (InHand t) h (waits found)
  unlock-InHand (parked u) e' at h (executed done) = absurd cc
  unlock-InHand (parked u) e' at h (notified found) = some-subst (InHand t) h (notified found)
  unlock-InHand _ e' at h i = cc

  pub notify_done-InHand :
      (stage : Stage) (e' : Executor)
      → e.stage ≡ stage
      → notify_done stage e ≡ some e'
      → InHand t e
      → InHand t e'
  unfolding notify_done in_waitq
  notify_done-InHand (finished u) e' at h (executes s own) = absurd cc
  notify_done-InHand (finished u) e' at h (blocks s own) = absurd cc
  notify_done-InHand (finished u) e' at h (waits found) = some-subst (InHand t) h (waits found)
  notify_done-InHand (finished u) e' at h (executed done) =
      let same : u ≡ t = cc in some-subst (InHand t) h (notified (rw ((==_iff u t).1 same) refl))
  notify_done-InHand (finished u) e' at h (notified found) =
      some-subst (InHand t) h (notified (ground arith))
  notify_done-InHand _ e' at h i = cc

  pub leave-InHand :
      (stage : Stage) (shutdown : Bool) (e' : Executor)
      → e.stage ≡ stage
      → leave_loop stage shutdown e ≡ some e'
      → InHand t e
      → InHand t e'
  unfolding leave_loop
  leave-InHand idle true e' at h (executes s own) = absurd cc
  leave-InHand idle true e' at h (blocks s own) = absurd cc
  leave-InHand idle true e' at h (waits found) = some-subst (InHand t) h (waits found)
  leave-InHand idle true e' at h (executed done) = absurd cc
  leave-InHand idle true e' at h (notified found) = some-subst (InHand t) h (notified found)
  leave-InHand _ shutdown e' at h i = cc

  pub drained-InHand :
      (stage : Stage) (waitq : List ℕ) (e' : Executor)
      → e.stage ≡ stage
      → drained stage waitq e ≡ some e'
      → InHand t e
      → InHand t e'
  unfolding drained
  drained-InHand draining [] e' at h (executes s own) = absurd cc
  drained-InHand draining [] e' at h (blocks s own) = absurd cc
  drained-InHand draining [] e' at h (waits found) = some-subst (InHand t) h (waits found)
  drained-InHand draining [] e' at h (executed done) = absurd cc
  drained-InHand draining [] e' at h (notified found) = some-subst (InHand t) h (notified found)
  drained-InHand _ waitq e' at h i = cc

  -- A mutex that another thread takes or gives back is not the worker's.
  owner-kept :
      (u : ℕ) (o : Owner)
      → (e.owner u ≡ worker → ⊥)
      → e.owner t ≡ worker
      → (set_owner u o e).owner t ≡ worker
  unfolding set_owner
  owner-kept u o apart own = elim (Bool-cases (t == u)) [
    | inl same ↦ absurd (apart (rw (← (==_iff t u).0 same) own))
    | inr other ↦ rw other own
  ]

  pub owner-InHand :
      (u : ℕ) (o : Owner) → (e.owner u ≡ worker → ⊥) → InHand t e → InHand t (set_owner u o e)
  unfolding set_owner
  owner-InHand u o apart (executes s own) = executes s (owner-kept u o apart own)
  owner-InHand u o apart (blocks s own) = blocks s (owner-kept u o apart own)
  owner-InHand u o apart (waits found) = waits found
  owner-InHand u o apart (executed done) = executed done
  owner-InHand u o apart (notified found) = notified found
