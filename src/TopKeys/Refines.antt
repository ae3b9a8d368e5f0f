-- ===== src/TopKeys/Refines.antt =====
-- A shard is a list of the entries used most recently: Shard::updateKey against the list alone.
use memcached.TopKeys.{
  Topkey, Shard, matches, fresh_topkey, int_max, counted, count_access, allocated, reuse, emplace,
  search_for_key, place, shuffle, count_at, shard_update_key, get_elem?, set_elem, accept_visitor,
  set_max_keys, ◌>>=◌,
}
use memcached.TopKeys.Counts.{
  CountsUpTo, CountsUpTo-weaken, CountsUpTo-get_elem?, CountsUpTo-set_elem,
}
use memcached.TopKeys.Lru.{Nodup, extract, mem, cut}
use memcached.TopKeys.Storage.{
  get_elem?-append_end, get_elem?-lt, get_elem?-set_elem, length-set_elem, search-none, search-some,
  set_elem-set_elem, cut_all,
}
use memcached.TopKeys.Visited.{
  accept_visitor-append, accept_visitor-lt, accept_visitor-set_elem, extract-accept_visitor,
  length-accept_visitor, pop_back_nonempty, unlink-accept_visitor,
}
use memcached.Common.{
  ℕ, suc, ◌-◌, ◌≤◌, ◌<◌, ◌≡◌, refl, sym, ltb, All-append, ◌∙◌, ap, ◌≢◌, inl, inr, true, false, ◌==◌,
  ==_iff, ==_false, Bool-cases, Option-cases, none, some, List, [], ◌∷◌, ◌++◌, length,
  length-append, arith,
}
use memcached.TopKeys.Distinct.{
  Alone, Distinct, absent_absurd, Alone-append, Distinct-append, Distinct-set_elem,
}

-- The list alone: the entry of the key moves to the front, or a new one does and the list is cut to its size.
unfoldable pub touch : ℕ → ℕ → List ℕ → ℕ → List Topkey → List Topkey
unfolding extract cut
touch max_keys key_hash key ct shown = elim (extract (matches key_hash key) shown) [
  | none ↦ counted (fresh_topkey key_hash key ct) ∷ cut (max_keys - 1) shown
  | some (t, rest) ↦ counted t ∷ rest
]

touch-some :
    (max_keys key_hash : ℕ) (key : List ℕ) (ct : ℕ) (shown : List Topkey) {t : Topkey}
    {rest : List Topkey}
    → extract (matches key_hash key) shown ≡ some (t, rest)
    → touch max_keys key_hash key ct shown ≡ counted t ∷ rest
unfolding touch
touch-some max_keys key_hash key ct shown e = rw (touch, e) refl

touch-none :
    (max_keys key_hash : ℕ) (key : List ℕ) (ct : ℕ) (shown : List Topkey)
    → extract (matches key_hash key) shown ≡ none
    → touch max_keys key_hash key ct shown
      ≡ counted (fresh_topkey key_hash key ct) ∷ cut (max_keys - 1) shown
unfolding touch cut
touch-none max_keys key_hash key ct shown e = rw (touch, e) refl

-- A shard's list holds the index of each stored element once, no two elements have the same key, and the
-- visitor is given `shown`.
pub record Shows (s : Shard) (shown : List Topkey) : Type 0 where
  pub bounded : length s.storage ≤ s.max_keys
  pub same_length : length s.list ≡ length s.storage
  pub complete : (i : ℕ) → i < length s.storage → mem i s.list ≡ true
  pub nodup : Nodup s.list
  pub distinct : Distinct s.storage
  pub visited : accept_visitor s.storage s.list ≡ some shown

pub new-Shows : (max_keys : ℕ) → Shows (set_max_keys max_keys) []
unfolding set_max_keys accept_visitor get_elem?
new-Shows max_keys = record {
  bounded = omega arith;
  same_length = refl;
  complete = λ i lt. absurd (omega arith);
  nodup = tt;
  distinct = λ h k i j t u a b m n. absurd (cc);
  visited = refl;
}

-- An element is written through the pointer at the list's front; no other element has its key.
written-Shows :
    (max_keys : ℕ) (storage : List Topkey) (rest : List ℕ) (i : ℕ) (t : Topkey)
    {shown : List Topkey}
    → i < length storage
    → length storage ≤ max_keys
    → suc (length rest) ≡ length storage
    → ((j : ℕ) → j < length storage → mem j (i ∷ rest) ≡ true)
    → mem i rest ≡ false
    → Nodup rest
    → accept_visitor storage rest ≡ some shown
    → Alone storage i t
    → Distinct storage
    → Shows
        (record { max_keys = max_keys; list = i ∷ rest; storage = set_elem storage i t })
        (t ∷ shown)
unfolding accept_visitor
written-Shows max_keys storage rest i t inside bounded long members out nodup visited alone
      distinct =
    let same_size = length-set_elem storage i t in
    record {
      bounded = rw same_size bounded;
      same_length = long ∙ sym same_size;
      complete = λ j lt. members j (rw (← same_size) lt);
      nodup = (out, nodup);
      distinct = Distinct-set_elem storage i t inside alone distinct;
      visited =
          rw
            (
              get_elem?-set_elem storage i t inside,
              accept_visitor-set_elem storage rest i t out,
              visited,
            )
            refl;
    }

-- A new index at the front of a list that holds all below it.
room_members :
    (list : List ℕ) (n : ℕ) {size : ℕ}
    → size ≡ suc n
    → ((j : ℕ) → j < n → mem j list ≡ true)
    → (j : ℕ) → j < size
    → mem j (n ∷ list) ≡ true
unfolding mem
room_members list n e complete j lt = elim (Bool-cases (n == j)) [
  | inl same ↦ rw same refl
  | inr other ↦ rw other (complete j (ground arith))
]

pub room_out :
    (storage : List Topkey) (list : List ℕ) {shown : List Topkey}
    → accept_visitor storage list ≡ some shown
    → mem (length storage) list ≡ false
room_out storage list visited = elim (Bool-cases (mem (length storage) list)) [
  | inl inside ↦
      let lt = accept_visitor-lt storage (length storage) list visited inside in
      absurd (omega arith)
  | inr out ↦ out
]

module _ (s : Shard) (shown : List Topkey) (shows : Shows s shown) (positive : 0 < s.max_keys)
    (n : ℕ) (counts : CountsUpTo n s.storage) (below : n < int_max) (key : List ℕ)
    (key_hash ct : ℕ) where
  abbrev updated : List Topkey
  updated = touch s.max_keys key_hash key ct shown

  fewer : (t : Topkey) → t.ti_access_count ≤ n → ltb t.ti_access_count int_max ≡ true
  fewer t le = ground arith

  -- the key is stored
  hit-Shows :
      (i : ℕ) (t : Topkey)
      → get_elem? s.storage i ≡ some t
      → matches key_hash key t ≡ true
      → (s' : Shard) × ((shuffle s i >>= count_at) ≡ some (true, s'))
        × (s'.max_keys ≡ s.max_keys)
        × CountsUpTo (suc n) s'.storage
        × Shows s' updated
  unfolding shuffle count_at count_access matches
  hit-Shows i t got same =
      let only : (j : ℕ) (u : Topkey)
          → get_elem? s.storage j ≡ some u
          → matches key_hash key u ≡ true
          → j ≡ i =
        λ j u at match. shows.distinct key_hash key j i u t at got match same in
      let (rest, shown', unlinked, rest_shown, found, out, distinct, members, long) =
        unlink-accept_visitor s.storage i (matches key_hash key) got same only s.list shows.visited
          (shows.complete i (get_elem?-lt s.storage i got)) shows.nodup in
      (
        record s { list = i ∷ rest; storage = set_elem s.storage i (counted t) },
        rw (unlinked, got, fewer t (CountsUpTo-get_elem? s.storage i counts got)) refl,
        refl,
        CountsUpTo-set_elem s.storage i (counted t)
            (CountsUpTo-weaken s.storage (omega arith) counts)
            (omega (arith, CountsUpTo-get_elem? s.storage i counts got)),
        rw (touch-some s.max_keys key_hash key ct shown found) (
            written-Shows s.max_keys s.storage rest i (counted t) (get_elem?-lt s.storage i got)
              shows.bounded (long ∙ shows.same_length) (λ j lt. members j ∙ shows.complete j lt) out
              distinct rest_shown
              (λ h k j u at mine theirs. shows.distinct h k j i u t at got theirs mine)
              shows.distinct),
      )

  -- the key is not stored, and the storage is full
  full-Shows :
      ((j : ℕ) (u : Topkey) → get_elem? s.storage j ≡ some u → matches key_hash key u ≡ false)
      → length s.storage ≡ s.max_keys
      → (s' : Shard) × ((place allocated s key key_hash ct >>= count_at) ≡ some (true, s'))
        × (s'.max_keys ≡ s.max_keys)
        × CountsUpTo (suc n) s'.storage
        × Shows s' updated
  unfolding place reuse count_at count_access fresh_topkey
  full-Shows absent full =
      let e : length s.list ≡ suc (s.max_keys - 1) = let same = shows.same_length in omega arith in
      let (rest, last, popped, rest_shown, out, distinct, members, long, bound) =
        pop_back_nonempty s.storage (s.max_keys - 1) s.list e shows.visited shows.nodup in
      let blank = fresh_topkey key_hash key ct in
      (
        record s { list = last ∷ rest; storage = set_elem s.storage last (counted blank) },
        rw
            (
              (==_iff _ _).1 full,
              popped,
              get_elem?-set_elem s.storage last blank bound,
              set_elem-set_elem s.storage last blank (counted blank),
            )
            refl,
        refl,
        CountsUpTo-set_elem s.storage last (counted blank)
            (CountsUpTo-weaken s.storage (omega arith) counts) (omega arith),
        rw
            (touch-none s.max_keys key_hash key ct shown
              (extract-accept_visitor s.storage (matches key_hash key) absent s.list shows.visited))
            (written-Shows s.max_keys s.storage rest last (counted blank) bound shows.bounded
              (long ∙ shows.same_length) (λ j lt. members j ∙ shows.complete j lt) out distinct
              rest_shown
              (λ h k j u at mine theirs.
                absurd (absent_absurd s.storage key_hash key ct absent h k j u at mine theirs))
              shows.distinct),
      )

  -- the key is not stored, and the storage has room
  room-Shows :
      ((j : ℕ) (u : Topkey) → get_elem? s.storage j ≡ some u → matches key_hash key u ≡ false)
      → length s.storage ≢ s.max_keys
      → (s' : Shard) × ((place allocated s key key_hash ct >>= count_at) ≡ some (true, s'))
        × (s'.max_keys ≡ s.max_keys)
        × CountsUpTo (suc n) s'.storage
        × Shows s' updated
  unfolding place emplace count_at count_access fresh_topkey
  room-Shows absent room =
      let blank = fresh_topkey key_hash key ct in
      let m = length s.storage in
      let grown = s.storage ++ blank ∷ [] in
      let size : length grown ≡ suc m = omega (arith, length-append s.storage (blank ∷ [])) in
      let less : suc m ≤ s.max_keys = let b = shows.bounded in omega arith in
      let short : length shown ≤ s.max_keys - 1 =
        let long = length-accept_visitor s.storage s.list shows.visited in
        let same = shows.same_length in omega arith in
      (
        record s { list = m ∷ s.list; storage = set_elem grown m (counted blank) },
        rw (==_false room, get_elem?-append_end s.storage blank) refl,
        refl,
        CountsUpTo-set_elem grown m (counted blank)
            (All-append (λ t. t.ti_access_count ≤ suc n) s.storage (blank ∷ [])
              (CountsUpTo-weaken s.storage (omega arith) counts) (omega arith, tt))
            (omega arith),
        rw
            (
              touch-none s.max_keys key_hash key ct shown (
                  extract-accept_visitor s.storage (matches key_hash key) absent s.list
                    shows.visited),
              cut_all shown (s.max_keys - 1) short,
            )
            (written-Shows s.max_keys grown s.list m (counted blank) (omega arith) (rw size less)
              (ap suc shows.same_length ∙ sym size) (room_members s.list m size shows.complete)
              (room_out s.storage s.list shows.visited) shows.nodup
              (accept_visitor-append s.storage s.list blank shows.visited)
              (Alone-append s.storage key_hash key ct absent)
              (Distinct-append s.storage key_hash key ct absent shows.distinct)),
      )

  pub shard_update_key-Shows :
      (s' : Shard) × (shard_update_key allocated s key key_hash ct ≡ some (true, s'))
      × (s'.max_keys ≡ s.max_keys)
      × CountsUpTo (suc n) s'.storage
      × Shows s' updated
  unfolding shard_update_key
  shard_update_key-Shows = elim (Option-cases (search_for_key key_hash key 0 s.storage)) [
    | inl missed ↦
        let absent : (j : ℕ) (u : Topkey)
            → get_elem? s.storage j ≡ some u
            → matches key_hash key u ≡ false =
          λ j u got. search-none key_hash key 0 s.storage j missed got in
        rw missed (elim (Bool-cases (length s.storage == s.max_keys)) [
          | inl full ↦ full-Shows absent ((==_iff _ _).0 full)
          | inr room ↦ room-Shows absent (ground arith)
        ])
    | inr (found, hit) ↦
        let (i, t, at, got, same) = search-some key_hash key 0 s.storage found hit in
        let e : found ≡ i = omega arith in rw (hit, e) (hit-Shows i t got same)
  ]
