-- ===== src/TopKeys/Whole.antt =====
-- All eight shards, from their construction on: TopKeys::updateKey over any sequence of accesses.
use memcached.Common.Bits.{bit_and-le}
use memcached.TopKeys.{
  Topkey, Shard, set_max_keys, num_shards, new_topkeys, hash_fn, get_shard, get_elem?, set_elem,
  update_key, int_max, allocated, ◌>>=◌,
}
use memcached.TopKeys.Counts.{CountsUpTo, CountsUpTo-weaken}
use memcached.TopKeys.Storage.{get_elem?-lt, get_elem?-set_elem, get_elem?-set_elem_ne}
use memcached.TopKeys.Refines.{Shows, touch, new-Shows, shard_update_key-Shows}
use memcached.Common.{
  ℕ, zero, suc, ◌+◌, subst, ◌≤◌, ◌<◌, ◌≡◌, refl, ◌∙◌, inl, inr, ◌==◌, ==_iff, ==_absurd,
  if◌then◌else◌, Bool-cases, Option, some, List, [], ◌∷◌, length, arith,
}

-- The calls of updateKey, with all the memory that they ask for: a key and the time of the operation.
unfoldable pub update_keys : List Shard → List (List ℕ × ℕ) → Option (List Shard)
unfolding update_key
update_keys shards [] = some shards
update_keys shards ((key, time) ∷ calls) = do
  shards' ← update_key allocated shards key time
  update_keys shards' calls

-- What one shard is to show: the keys that hash to it, each moved to the front as it is used.
unfoldable pub ranking : ℕ → ℕ → List (List ℕ × ℕ) → List Topkey → List Topkey
unfolding hash_fn get_shard touch
ranking mkeys i [] shown = shown
ranking mkeys i ((key, time) ∷ calls) shown =
    ranking mkeys i calls
      (if get_shard (hash_fn key) == i then touch mkeys (hash_fn key) key time shown else shown)

-- Every shard shows its list, in which no key has been accessed more than `n` times.
abbrev pub AllShow : ℕ → ℕ → List Shard → (ℕ → List Topkey) → Type 0
AllShow mkeys n shards shown =
    (i : ℕ)
    → i < num_shards
    → (s : Shard) × (get_elem? shards i ≡ some s)
      × (s.max_keys ≡ mkeys)
      × CountsUpTo n s.storage
      × Shows s (shown i)

new_topkeys-AllShow : (mkeys : ℕ) → AllShow mkeys 0 (new_topkeys mkeys) (λ i. [])
unfolding new_topkeys set_max_keys get_elem?
new_topkeys-AllShow mkeys zero lt = (set_max_keys mkeys, refl, refl, tt, new-Shows mkeys)
new_topkeys-AllShow mkeys (suc zero) lt = (set_max_keys mkeys, refl, refl, tt, new-Shows mkeys)
new_topkeys-AllShow mkeys (suc (suc zero)) lt =
    (set_max_keys mkeys, refl, refl, tt, new-Shows mkeys)
new_topkeys-AllShow mkeys (suc (suc (suc zero))) lt =
    (set_max_keys mkeys, refl, refl, tt, new-Shows mkeys)
new_topkeys-AllShow mkeys (suc (suc (suc (suc zero)))) lt =
    (set_max_keys mkeys, refl, refl, tt, new-Shows mkeys)
new_topkeys-AllShow mkeys (suc (suc (suc (suc (suc zero))))) lt =
    (set_max_keys mkeys, refl, refl, tt, new-Shows mkeys)
new_topkeys-AllShow mkeys (suc (suc (suc (suc (suc (suc zero)))))) lt =
    (set_max_keys mkeys, refl, refl, tt, new-Shows mkeys)
new_topkeys-AllShow mkeys (suc (suc (suc (suc (suc (suc (suc zero))))))) lt =
    (set_max_keys mkeys, refl, refl, tt, new-Shows mkeys)
new_topkeys-AllShow mkeys (suc (suc (suc (suc (suc (suc (suc (suc i)))))))) lt =
    absurd (omega arith)

get_shard-lt : (key_hash : ℕ) → get_shard key_hash < num_shards
unfolding get_shard
get_shard-lt key_hash = omega (arith, bit_and-le key_hash 7)

replaced :
    (mkeys m : ℕ) (shards : List Shard) (shown : ℕ → List Topkey) (n : ℕ) (s : Shard)
    (touched : ℕ → List Topkey)
    → n < length shards
    → s.max_keys ≡ mkeys
    → CountsUpTo (suc m) s.storage
    → Shows s (touched n)
    → AllShow mkeys m shards shown
    → AllShow mkeys (suc m) (set_elem shards n s) (λ i. if n == i then touched i else shown i)
replaced mkeys m shards shown n s touched inside size counts shows all i lt =
    elim (Bool-cases (n == i)) [
      | inl same ↦
          let e : n ≡ i = (==_iff n i).0 same in
          rw same (s, rw (← e) (get_elem?-set_elem shards n s inside), size, counts, rw (← e) shows)
      | inr other ↦
          rw (other, get_elem?-set_elem_ne shards n i s (==_absurd n i other))
            (let (t, got, size', counts', shows') = all i lt in
              (t, got, size', CountsUpTo-weaken t.storage (omega arith) counts', shows'))
    ]

update_key-AllShow :
    (mkeys m : ℕ) (shards : List Shard) (shown : ℕ → List Topkey)
    → 0 < mkeys
    → m < int_max
    → AllShow mkeys m shards shown
    → (key : List ℕ) (time : ℕ)
    → (shards' : List Shard) × (update_key allocated shards key time ≡ some shards')
      × AllShow mkeys (suc m) shards' (λ i.
        if get_shard (hash_fn key) == i
        then touch mkeys (hash_fn key) key time (shown i)
        else shown i)
unfolding update_key
update_key-AllShow mkeys m shards shown positive below all key time =
    let h = hash_fn key in
    let n = get_shard h in
    let (s, got, size, counts, shows) = all n (get_shard-lt h) in
    let (s', updated, size', counts', shows') =
      shard_update_key-Shows s (shown n) shows (rw size positive) m counts below key h time in
    (
      set_elem shards n s',
      rw (got, updated) refl,
      replaced mkeys m shards shown n s' (λ i. touch mkeys h key time (shown i))
          (get_elem?-lt shards n got) (size' ∙ size) counts' (rw (← size) shows') all,
    )

-- As long as no count of accesses can come to exceed an int, no access has undefined behaviour, and each
-- shard shows what it is to show.
pub update_keys-AllShow :
    (mkeys m : ℕ) (shards : List Shard) (shown : ℕ → List Topkey)
    → 0 < mkeys
    → AllShow mkeys m shards shown
    → (calls : List (List ℕ × ℕ)) → m + length calls ≤ int_max
    → (shards' : List Shard) × (update_keys shards calls ≡ some shards')
      × AllShow mkeys (m + length calls) shards' (λ i. ranking mkeys i calls (shown i))
unfolding update_keys ranking
update_keys-AllShow mkeys m shards shown positive all [] few =
    (shards, refl, subst (λ n. AllShow mkeys n shards shown) (omega arith) all)
update_keys-AllShow mkeys m shards shown positive all ((key, time) ∷ calls) few =
    let (shards', updated, all') =
      update_key-AllShow mkeys m shards shown positive (omega arith) all key time in
    let (last, ran, showing) =
      update_keys-AllShow mkeys (suc m) shards' _ positive all' calls (omega arith) in
    (
      last,
      rw updated ran,
      subst (λ n. AllShow mkeys n last (λ i. ranking mkeys i ((key, time) ∷ calls) (shown i)))
          (omega arith) showing,
    )

-- With a size that is not 0, no sequence of at most 2^31 - 1 accesses to the hot keys that get all
-- the memory they ask for has undefined behaviour, and each of the eight shards then shows exactly
-- what a list of the most recently used keys shows that starts empty, takes the accesses to the keys
-- which hash to the shard, and is cut to the size.
pub new_topkeys-ranking :
    (mkeys : ℕ)
    → 0 < mkeys
    → (calls : List (List ℕ × ℕ)) → length calls ≤ int_max
    → (shards : List Shard) × (update_keys (new_topkeys mkeys) calls ≡ some shards)
      × AllShow mkeys (length calls) shards (λ i. ranking mkeys i calls [])
new_topkeys-ranking mkeys positive calls few =
    let (shards, ran, all) =
      update_keys-AllShow mkeys 0 (new_topkeys mkeys) (λ i. []) positive (new_topkeys-AllShow mkeys)
        calls (omega arith) in
    (
      shards,
      ran,
      subst (λ n. AllShow mkeys n shards (λ i. ranking mkeys i calls [])) (omega arith) all,
    )
