-- ===== src/Connection/Room.antt =====
-- The read buffer has room for the packet that is being read.
use memcached.Common.{
  ℕ, zero, suc, ◌+◌, ◌*◌, ◌≤◌, ◌<◌, ◌≡◌, refl, ◌⊎◌, inl, inr, true, false, some, ltb, ltb→lt,
  Bool-cases, arith,
}
use memcached.Connection.{
  Connection, Task, conn_nread, conn_closing, conn_mwrite, same_task, set_state,
}
use memcached.Connection.Receive.{grow}

-- With one round for each byte that is missing, and one more, the loop ends with a size that is enough
-- and, where it had to grow, less than twice what was asked for.
pub grow_lem :
    (fuel size nsize : ℕ)
    → 0 < nsize
    → size ≤ nsize + fuel
    → (n : ℕ) × (grow (suc fuel) size nsize ≡ some n)
      × (size ≤ n)
      × (nsize ≤ n)
      × ((n ≡ nsize) ⊎ (n < 2 * size))
unfolding grow
grow_lem zero size nsize pos enough =
    let done : ltb nsize size ≡ false = ground arith in
    (nsize, rw (grow, done) refl, ground arith, omega arith, inl refl)
grow_lem (suc fuel) size nsize pos enough = elim (Bool-cases (ltb nsize size)) [
  | inr done ↦ (nsize, rw (grow, done) refl, ground arith, omega arith, inl refl)
  | inl more ↦
      let lt : nsize < size = ltb→lt _ _ more in
      let (n, ran, big, grown, bound) =
        grow_lem fuel size (nsize * 2) (omega arith) (omega arith) in
      (n, rw (grow, more) ran, big, omega arith, inr (below size nsize n lt bound))
]
  where
    below : (size nsize n : ℕ) → nsize < size → (n ≡ nsize * 2) ⊎ (n < 2 * size) → n < 2 * size
    below size nsize n lt (inl same) = omega arith
    below size nsize n lt (inr less) = less

same_task-nread : (s : Task) → same_task conn_nread s ≡ true → s ≡ conn_nread
same_task-nread conn_nread e = refl
same_task-nread _ e = cc

pub set_state-nread : (c : Connection) → (set_state conn_nread c).state ≡ conn_nread
unfolding set_state
set_state-nread c = elim (Bool-cases (same_task conn_nread c.state)) [
  | inl same ↦ rw same (same_task-nread c.state same)
  | inr other ↦ rw other refl
]

same_task-closing : (s : Task) → same_task conn_closing s ≡ true → s ≡ conn_closing
same_task-closing conn_closing e = refl
same_task-closing _ e = cc

pub set_state-closing : (c : Connection) → (set_state conn_closing c).state ≡ conn_closing
unfolding set_state
set_state-closing c = elim (Bool-cases (same_task conn_closing c.state)) [
  | inl same ↦ rw same (same_task-closing c.state same)
  | inr other ↦ rw other refl
]

same_task-mwrite : (s : Task) → same_task conn_mwrite s ≡ true → s ≡ conn_mwrite
same_task-mwrite conn_mwrite e = refl
same_task-mwrite _ e = cc

pub set_state-mwrite : (c : Connection) → (set_state conn_mwrite c).state ≡ conn_mwrite
unfolding set_state
set_state-mwrite c = elim (Bool-cases (same_task conn_mwrite c.state)) [
  | inl same ↦ rw same (same_task-mwrite c.state same)
  | inr other ↦ rw other refl
]
