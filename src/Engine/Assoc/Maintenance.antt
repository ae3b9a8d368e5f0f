-- ===== src/Engine/Assoc/Maintenance.antt =====
-- The rounds of the maintenance thread of engines/default_engine/assoc.c.
use memcached.Engine.Assoc.{
  HashItem, Assoc, hashsize, chain_find, in_old, chain_of, move_items, move_bucket, maintain,
}
use memcached.Engine.Assoc.Chains.{Distinct}
use memcached.Engine.Assoc.Move.{
  hashsize_pos, half_bucket, put_chain_all, put_chain_ne, or_else, place, AllNew,
  move_items_elsewhere, chain_find-move_items, move_items-Placed, move_items-AllDistinct,
}
use memcached.Engine.Assoc.Valid.{Expanding, IsValid, look}
use native.Mathlib.Nat.{mod-lt}
use memcached.Common.{
  if_ind, ltb, ltb→lt, ℕ, zero, suc, ◌+◌, ◌-◌, ◌%◌, ◌^◌, ◌<◌, ◌≡◌, refl, ◌∙◌, ap, ◌≢◌, inl, inr,
  true, false, leb, ◌==◌, ==_iff, Bool-cases, Option, none, some, List, [], ◌∷◌, All, arith,
}

module _ (crc32c : List ℕ → ℕ) where
  module _ (a : Assoc) (v : IsValid crc32c a) (e : Expanding crc32c a) where
    abbrev moving : List HashItem
    moving = a.old_hashtable a.expand_bucket

    -- The chains that take the items are empty before.
    moving_new : AllNew crc32c a.hashpower a.primary_hashtable moving
    unfolding chain_find
    moving_new = fresh moving (e.old_placed a.expand_bucket)
      where
        fresh :
            (chain : List HashItem)
            → All (λ it. place crc32c (a.hashpower - 1) it.key ≡ a.expand_bucket) chain
            → AllNew crc32c a.hashpower a.primary_hashtable chain
        fresh [] placed = tt
        fresh (it ∷ chain) placed = (
          rw
              (e.unmoved (place crc32c a.hashpower it.key)
                (omega (arith, half_bucket (crc32c it.key) a.hashpower e.positive, placed.0)))
              refl,
          fresh chain placed.1,
        )

    -- A bucket of another half is not touched.
    moving_elsewhere :
        (c : ℕ)
        → c % hashsize (a.hashpower - 1) ≢ a.expand_bucket
        → move_items crc32c a.hashpower moving a.primary_hashtable c ≡ a.primary_hashtable c
    moving_elsewhere c ne =
        move_items_elsewhere crc32c a.hashpower moving a.primary_hashtable c
          (others moving (e.old_placed a.expand_bucket))
      where
        others :
            (chain : List HashItem)
            → All (λ it. place crc32c (a.hashpower - 1) it.key ≡ a.expand_bucket) chain
            → All (λ it. c ≢ place crc32c a.hashpower it.key) chain
        others [] placed = tt
        others (it ∷ chain) placed = (
          λ same. ne (
              ap (λ x. x % hashsize (a.hashpower - 1)) same
              ∙ half_bucket (crc32c it.key) a.hashpower e.positive
              ∙ placed.0),
          others chain placed.1,
        )

    pub move_bucket-IsValid : IsValid crc32c (move_bucket crc32c a)
    unfolding move_bucket
    move_bucket-IsValid = record {
      placed = move_items-Placed crc32c a.hashpower moving a.primary_hashtable v.placed;
      distinct =
          move_items-AllDistinct crc32c a.hashpower moving a.primary_hashtable v.distinct
            (e.old_distinct a.expand_bucket) moving_new;
      growing = λ g. record {
        positive = e.positive;
        within = let w = e.within in ground arith;
        old_placed =
            put_chain_all (λ i l. All (λ it. crc32c it.key % hashsize (a.hashpower - 1) ≡ i) l)
              a.old_hashtable a.expand_bucket [] tt e.old_placed;
        old_distinct =
            put_chain_all (λ i l. Distinct l) a.old_hashtable a.expand_bucket [] tt e.old_distinct;
        unmoved =
            λ c late. moving_elsewhere c (λ same. absurd (omega arith)) ∙ e.unmoved c (omega arith);
      };
    }

    abbrev old_place : List ℕ → ℕ
    old_place key = crc32c key % 2 ^ (a.hashpower - 1)

    half : (k : List ℕ) → place crc32c a.hashpower k % hashsize (a.hashpower - 1) ≡ old_place k
    unfolding hashsize
    half k = half_bucket (crc32c k) a.hashpower e.positive

    look_moved :
        (k : List ℕ)
        → a.expanding ≡ true
        → old_place k < a.expand_bucket
        → look crc32c (move_bucket crc32c a) k ≡ look crc32c a k
    unfolding move_bucket chain_of in_old
    look_moved k g before =
        let stays : leb (a.expand_bucket + 1) (old_place k) ≡ false = ground arith in
        let stayed : leb a.expand_bucket (old_place k) ≡ false = ground arith in
        rw (stays, stayed)
          (ground (
            arith,
            moving_elsewhere (place crc32c a.hashpower k) (λ same. absurd (omega (arith, half k))),
          ))

    or_else-none : (found : Option HashItem) → or_else found none ≡ found
    or_else-none none = refl
    or_else-none (some it) = refl

    look_moving :
        (k : List ℕ)
        → a.expanding ≡ true
        → old_place k ≡ a.expand_bucket
        → look crc32c (move_bucket crc32c a) k ≡ look crc32c a k
    unfolding move_bucket chain_of in_old chain_find
    look_moving k g here =
        let moves : leb (a.expand_bucket + 1) (old_place k) ≡ false = ground arith in
        let waited : leb a.expand_bucket (old_place k) ≡ true = ground arith in
        let empty : a.primary_hashtable (place crc32c a.hashpower k) ≡ [] =
          e.unmoved (place crc32c a.hashpower k) (omega (arith, half k)) in
        ground (
          arith,
          moves,
          waited,
          g,
          chain_find-move_items crc32c a.hashpower k moving a.primary_hashtable
              (e.old_distinct a.expand_bucket),
          or_else-none (chain_find k moving),
          empty,
        )

    look_waiting :
        (k : List ℕ)
        → a.expanding ≡ true
        → a.expand_bucket < old_place k
        → look crc32c (move_bucket crc32c a) k ≡ look crc32c a k
    unfolding move_bucket chain_of in_old hashsize
    look_waiting k g behind =
        let inside : old_place k < 2 ^ (a.hashpower - 1) =
          mod-lt (crc32c k) (hashsize_pos (a.hashpower - 1)) in
        ground (
          arith,
          put_chain_ne a.old_hashtable a.expand_bucket [] {i = old_place k}
              (λ same. absurd (omega arith)),
        )

    -- A key is found as before, whether its chain was moved before, is moved now, or waits.
    pub look-move_bucket :
        (k : List ℕ) → a.expanding ≡ true → look crc32c (move_bucket crc32c a) k ≡ look crc32c a k
    look-move_bucket k g = elim (Bool-cases (ltb (old_place k) a.expand_bucket)) [
      | inl moved ↦ look_moved k g (ltb→lt _ _ moved)
      | inr not_moved ↦ elim (Bool-cases (old_place k == a.expand_bucket)) [
        | inl now ↦ look_moving k g ((==_iff _ _).0 now)
        | inr later ↦ look_waiting k g (ground arith)
      ]
    ]

  pub maintain-IsValid :
      (rounds : ℕ) (a : Assoc) → IsValid crc32c a → IsValid crc32c (maintain crc32c rounds a)
  unfolding maintain
  maintain-IsValid zero a v = v
  maintain-IsValid (suc rounds) a v =
      if_ind (IsValid crc32c) a.expanding _ a
        (λ growing.
          maintain-IsValid rounds (move_bucket crc32c a)
            (move_bucket-IsValid a v (v.growing growing)))
        (λ still. v)

  -- What the maintenance thread does is not seen.
  pub look-maintain :
      (rounds : ℕ) (a : Assoc) (k : List ℕ)
      → IsValid crc32c a
      → look crc32c (maintain crc32c rounds a) k ≡ look crc32c a k
  unfolding maintain
  look-maintain zero a k v = refl
  look-maintain (suc rounds) a k v =
      if_ind (λ b. look crc32c b k ≡ look crc32c a k) a.expanding _ a
        (λ growing.
          look-maintain rounds (move_bucket crc32c a) k
            (move_bucket-IsValid a v (v.growing growing))
          ∙ look-move_bucket a v (v.growing growing) k growing)
        (λ still. refl)

  pub hash_items-maintain :
      (rounds : ℕ) (a : Assoc) → (maintain crc32c rounds a).hash_items ≡ a.hash_items
  unfolding maintain move_bucket
  hash_items-maintain zero a = refl
  hash_items-maintain (suc rounds) a =
      if_ind (λ b. b.hash_items ≡ a.hash_items) a.expanding _ a
        (λ growing. hash_items-maintain rounds (move_bucket crc32c a)) (λ still. refl)
