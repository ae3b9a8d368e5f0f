-- ===== src/TopKeys/Lost.antt =====
-- A key whose element is stored but not in the list, since the list's node could not be allocated.
use memcached.TopKeys.{
  Topkey, Shard, Allocation, no_node, matches, same_key, fresh_topkey, search_for_key, place,
  emplace, shuffle, unlink, count_at, shard_update_key,
}
use memcached.TopKeys.Lru.{mem}
use memcached.TopKeys.Refines.{Shows, room_out}
use memcached.Common.{
  ℕ, ap, suc, ◌+◌, ◌≡◌, refl, ◌≢◌, true, false, ◌==◌, ==_iff, ==_false, or-false, Bool-cases, inl,
  inr, none, some, List, [], ◌∷◌, ◌++◌, length, arith,
}

same_key_self : (key : List ℕ) → same_key key key ≡ true
unfolding same_key
same_key_self [] = refl
same_key_self (a ∷ key) = rw ((==_iff a a).1 refl) (same_key_self key)

matches-fresh_topkey :
    (key_hash : ℕ) (key : List ℕ) (ct : ℕ)
    → matches key_hash key (fresh_topkey key_hash key ct) ≡ true
unfolding matches fresh_topkey
matches-fresh_topkey key_hash key ct = rw ((==_iff key_hash key_hash).1 refl) (same_key_self key)

-- The new element behind a storage without the key is found.
search_for_key-append :
    (key_hash : ℕ) (key : List ℕ) (i : ℕ) (storage : List Topkey) (t : Topkey)
    → search_for_key key_hash key i storage ≡ none
    → matches key_hash key t ≡ true
    → search_for_key key_hash key i (storage ++ t ∷ []) ≡ some (i + length storage)
unfolding search_for_key
search_for_key-append key_hash key i [] t missed same = rw same (ap some (omega arith))
search_for_key-append key_hash key i (u ∷ storage) t missed same =
    elim (Bool-cases (matches key_hash key u)) [
      | inl here ↦ ground (arith, here)
      | inr other ↦
          rw
            (
              other,
              search_for_key-append key_hash key (suc i) storage t (ground (arith, other)) same,
            )
            (ap some (omega arith))
    ]

unlink-absent : (i : ℕ) (list : List ℕ) → mem i list ≡ false → unlink i list ≡ none
unfolding mem unlink
unlink-absent i [] out = refl
unlink-absent i (j ∷ list) out =
    let (first, rest) = or-false (j == i) (mem i list) out in
    rw (first, unlink-absent i list rest) refl

-- Let a shard's list and storage be in order as shard_update_key leaves them, a key not be stored,
-- and the storage have room. An access to the key for which the list's node cannot be allocated
-- answers false, and every later access to that key in the shard that it leaves has undefined
-- behaviour.
pub shard_update_key-lost :
    (s : Shard) (shown : List Topkey) (key : List ℕ) (key_hash ct : ℕ)
    → Shows s shown
    → search_for_key key_hash key 0 s.storage ≡ none
    → length s.storage ≢ s.max_keys
    → (s' : Shard) × (shard_update_key no_node s key key_hash ct ≡ some (false, s'))
      × ((allocation : Allocation) (later : ℕ)
          → shard_update_key allocation s' key key_hash later ≡ none)
unfolding shard_update_key place emplace count_at shuffle
shard_update_key-lost s shown key key_hash ct shows missed room =
    let blank = fresh_topkey key_hash key ct in
    (
      record s { storage = s.storage ++ blank ∷ [] },
      rw (missed, ==_false room) refl,
      λ allocation later.
          rw
            (
              search_for_key-append key_hash key 0 s.storage blank missed
                  (matches-fresh_topkey key_hash key ct),
              unlink-absent _ s.list (lost (0 + length s.storage) (omega arith)),
            )
            refl,
    )
  where
    lost : (n : ℕ) → n ≡ length s.storage → mem n s.list ≡ false
    lost n e = rw e (room_out s.storage s.list shows.visited)
