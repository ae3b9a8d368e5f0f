-- ===== src/Examples/Background.antt =====
-- The theorems on the executor, the hot keys, the timings and the clock, at small runs.
use memcached.Executor.{
  Executor, Action, ok, free, worker, backend, idle, executing, finished, in_waitq, erase,
  make_runnable, put_in_waitq, unlock_task, call_execute, backend_lock, act_all,
}
use memcached.Executor.Handover.{act_all-make_runnable}
use memcached.Executor.Fifo.{turns, turns-executing}
use memcached.TopKeys.{
  Shard, set_max_keys, new_topkeys, shard_update_key, search_for_key, Allocation, no_node,
}
use memcached.TopKeys.Lost.{shard_update_key-lost}
use memcached.TopKeys.Refines.{new-Shows}
use memcached.TopKeys.Whole.{update_keys, ranking, AllShow, new_topkeys-ranking}
use memcached.Histogram.{Histogram}
use memcached.Clock.{Clock}
use memcached.Common.{
  ℕ, length, ◌≡◌, refl, ◌⊎◌, true, false, ◌==◌, if◌then◌else◌, none, some, List, [], ◌∷◌, ◌++◌,
  arith,
}

-- Two tasks are queued, and none runs.
abbrev two_queued : Executor
two_queued = record {
  self = 1;
  runq = 5 ∷ 7 ∷ [];
  waitq = [];
  shutdown = false;
  stage = idle;
  executor_of = λ t. some 1;
  owner = λ t. free;
  completed = [];
}

turns-executing_example :
    (e' : Executor) × (act_all (turns (false ∷ [])) two_queued ≡ some e')
    × (e'.stage ≡ executing 7)
    × (e'.owner 7 ≡ worker)
    × (e'.runq ≡ [])
turns-executing_example =
    turns-executing (5 ∷ []) 7 [] (false ∷ []) two_queued
      (record { waiting = refl; goes_on = refl; unlocked = λ t. refl; queue = refl }) refl

-- Task 7 runs.
abbrev running : Executor
running = record {
  self = 1;
  runq = [];
  waitq = [];
  shutdown = false;
  stage = executing 7;
  executor_of = λ t. some 1;
  owner = λ t. if t == 7 then worker else free;
  completed = [];
}

-- It has blocked, and the thread that serves it has its mutex.
abbrev handed_over : Executor
handed_over = record {
  self = 1;
  runq = [];
  waitq = 7 ∷ [];
  shutdown = false;
  stage = idle;
  executor_of = λ t. some 1;
  owner =
      λ t. if t == 7 then backend else (if t == 7 then free else (if t == 7 then worker else free));
  completed = [];
}

abbrev handover : List Action
handover = call_execute false ∷ put_in_waitq ∷ unlock_task ∷ backend_lock 7 ∷ []

act_all-make_runnable_example :
    (make_runnable 7 handed_over
      ≡ ok (record handed_over { runq = [] ++ 7 ∷ []; waitq = erase 7 (7 ∷ []) }))
    ⊎ (handed_over.stage ≡ finished 7)
    ⊎ (in_waitq 7 [] ≡ true)
unfolding act_all
act_all-make_runnable_example =
    act_all-make_runnable 7 handover running handed_over refl refl refl refl refl

shard_update_key-lost_example :
    (s' : Shard) × (shard_update_key no_node (set_max_keys 2) (0x6b ∷ []) 9 100 ≡ some (false, s'))
    × ((allocation : Allocation) (later : ℕ)
        → shard_update_key allocation s' (0x6b ∷ []) 9 later ≡ none)
unfolding set_max_keys search_for_key
shard_update_key-lost_example =
    shard_update_key-lost (set_max_keys 2) [] (0x6b ∷ []) 9 100 (new-Shows 2) refl
      (λ e. omega (arith, e))

-- Three accesses to two keys.
abbrev accesses : List (List ℕ × ℕ)
accesses = (0x6b ∷ [], 1) ∷ (0x6c ∷ [], 2) ∷ (0x6b ∷ [], 3) ∷ []

new_topkeys-ranking_example :
    (shards : List Shard) × (update_keys (new_topkeys 1) accesses ≡ some shards)
    × AllShow 1 (length accesses) shards (λ i. ranking 1 i accesses [])
new_topkeys-ranking_example = new_topkeys-ranking 1 (omega arith) accesses (omega arith)

abbrev clock : Clock
clock = record {
  uptime = 100;
  epoch = 1000000000;
  monotonic_start = 5;
  check_system_time = 120;
  previous_time = some 1000000060;
}
