-- ===== src/Engine/Assoc/Expansion.antt =====
-- The end of an expansion of the hash table in engines/default_engine/assoc.c.
use memcached.Engine.Assoc.{
  HashItem, Assoc, hashsize, chain_of, chain_delete, in_old, set_chain, count_items, is_full,
  put_item, cut_item, assoc_find, assoc_insert, assoc_delete, move_bucket, maintain,
}
use memcached.Engine.Assoc.Represents.{Represents}
use memcached.Engine.Assoc.Refines.{
  Op, insert, delete, find, maintenance, on_table, on_list, Agree, step-Agree,
}
use memcached.Common.{
  ℕ, zero, suc, ◌+◌, ◌-◌, ◌%◌, ◌^◌, ◌≤◌, ◌≡◌, refl, ◌∙◌, ap, subst, ◌⊎◌, inl, inr, Bool, true,
  false, if_ind, Option-cases, Bool-cases, Option, none, some, List, [], ◌∷◌, arith,
}

-- The buckets that the maintenance thread may move in these steps.
abbrev pub rounds_of : List Op → ℕ
rounds_of [] = 0
rounds_of (maintenance rounds ∷ ops) = rounds + rounds_of ops
rounds_of (insert allocated started it ∷ ops) = rounds_of ops
rounds_of (delete key ∷ ops) = rounds_of ops
rounds_of (find key ∷ ops) = rounds_of ops

-- In the steps there comes a state with no expansion, unless an assertion fails before.
pub data Settles (crc32c : List ℕ → ℕ) : Assoc → List Op → Type 0 where
  settled : {a : Assoc} {ops : List Op} → a.expanding ≡ false → Settles crc32c a ops
  aborted :
      {a : Assoc} {op : Op} {ops : List Op}
      → on_table crc32c op a ≡ none
      → Settles crc32c a (op ∷ ops)
  later :
      {a a' : Assoc} {op : Op} {ops : List Op} {found : Option HashItem}
      → on_table crc32c op a ≡ some (found, a')
      → Settles crc32c a' ops
      → Settles crc32c a (op ∷ ops)

-- The same stage of the same expansion, but for some buckets.
pub record Further (n : ℕ) (a a' : Assoc) : Type 0 where
  pub size : a'.hashpower ≡ a.hashpower
  pub moved : a'.expand_bucket ≡ a.expand_bucket + n

module _ (crc32c : List ℕ → ℕ) where
  maintain_progress :
      (rounds : ℕ) (a : Assoc)
      → ((maintain crc32c rounds a).expanding ≡ false) ⊎ Further rounds a (maintain crc32c rounds a)
  unfolding maintain move_bucket
  maintain_progress zero a = inr (record { size = refl; moved = omega arith })
  maintain_progress (suc rounds) a =
      if_ind (λ b. (b.expanding ≡ false) ⊎ Further (suc rounds) a b) a.expanding _ a
        (λ growing. elim (maintain_progress rounds (move_bucket crc32c a)) [
          | inl still ↦ inl still
          | inr f ↦ inr (record { size = f.size; moved = let m = f.moved in omega arith })
        ])
        (λ still. inl still)

  set_chain-Further :
      (a : Assoc) (hash : ℕ) (chain : List HashItem) → Further 0 a (set_chain a hash chain)
  unfolding set_chain
  set_chain-Further a hash chain =
      if_ind (Further 0 a) (in_old a hash) _ _ (λ old. record { size = refl; moved = omega arith })
        (λ new. record { size = refl; moved = omega arith })

  expanding-set_chain :
      (a : Assoc) (hash : ℕ) (chain : List HashItem)
      → (set_chain a hash chain).expanding ≡ a.expanding
  unfolding set_chain
  expanding-set_chain a hash chain =
      if_ind (λ (b : Assoc). b.expanding ≡ a.expanding) (in_old a hash) _ _ (λ old. refl)
        (λ new. refl)

  is_full-growing : (a : Assoc) → a.expanding ≡ true → is_full a ≡ false
  unfolding is_full
  is_full-growing a growing = ground arith

  -- The table does not grow again while it grows.
  put_item-Further :
      (allocated started : Bool) (a : Assoc) (hash : ℕ) (it : HashItem)
      → a.expanding ≡ true
      → Further 0 a (put_item allocated started a hash it)
  unfolding put_item count_items
  put_item-Further allocated started a hash it growing =
      let f = set_chain-Further a hash (it ∷ chain_of a hash) in
      let room =
        is_full-growing
          (count_items ((a.hash_items + 1) % 2 ^ 32) (set_chain a hash (it ∷ chain_of a hash)))
          (expanding-set_chain a hash (it ∷ chain_of a hash) ∙ growing) in
      rw room (record { size = f.size; moved = f.moved })

  cut_item-Further : (a : Assoc) (hash : ℕ) (key : List ℕ) → Further 0 a (cut_item a hash key)
  unfolding cut_item count_items
  cut_item-Further a hash key =
      let f = set_chain-Further a hash (chain_delete key (chain_of a hash)) in
      record { size = f.size; moved = f.moved }

  inserted :
      (allocated started : Bool) (a : Assoc) (it : HashItem) {f : Option HashItem} {a' : Assoc}
      → a.expanding ≡ true
      → on_table crc32c (insert allocated started it) a ≡ some (f, a')
      → Further 0 a a'
  unfolding on_table assoc_insert
  inserted allocated started a it growing e =
      elim (Option-cases (assoc_find a (crc32c it.key) it.key)) [
        | inl new ↦
            subst (Further 0 a) {x = put_item allocated started a (crc32c it.key) it} (ground arith)
              (put_item-Further allocated started a (crc32c it.key) it growing)
        | inr (it', there) ↦ absurd (ground arith)
      ]

  deleted :
      (a : Assoc) (key : List ℕ) {f : Option HashItem} {a' : Assoc}
      → on_table crc32c (delete key) a ≡ some (f, a')
      → Further 0 a a'
  unfolding on_table assoc_delete
  deleted a key e = elim (Option-cases (assoc_find a (crc32c key) key)) [
    | inl missing ↦ absurd (ground arith)
    | inr (it, there) ↦
        subst (Further 0 a) {x = cut_item a (crc32c key) key} (ground arith)
          (cut_item-Further a (crc32c key) key)
  ]

  step-Progress :
      (op : Op) (a : Assoc) {f : Option HashItem} {a' : Assoc}
      → a.expanding ≡ true
      → on_table crc32c op a ≡ some (f, a')
      → (a'.expanding ≡ false) ⊎ Further (rounds_of (op ∷ [])) a a'
  unfolding on_table
  step-Progress (insert allocated started it) a growing e =
      inr (inserted allocated started a it growing e)
  step-Progress (delete key) a growing e = inr (deleted a key e)
  step-Progress (find key) a growing e =
      inr (subst (Further 0 a) {x = a} (ground arith) (record { size = refl; moved = omega arith }))
  step-Progress (maintenance rounds) a {a' = a'} growing e =
      let same : maintain crc32c rounds a ≡ a' = ground arith in
      subst (λ b. (b.expanding ≡ false) ⊎ Further (rounds + 0) a b) same
        (elim (maintain_progress rounds a) [
          | inl still ↦ inl still
          | inr g ↦ inr (record { size = g.size; moved = let m = g.moved in omega arith })
        ])

  next_items :
      (op : Op) (a : Assoc) (items : List HashItem) {f : Option HashItem} {a' : Assoc}
      → Represents crc32c a items
      → on_table crc32c op a ≡ some (f, a')
      → (items' : List HashItem) × Represents crc32c a' items'
  next_items op a items {f} {a'} r e =
      held (on_list op items)
        (subst (λ s. Agree crc32c s (on_list op items)) e (step-Agree crc32c op a items r))
    where
      held :
          (l : Option (Option HashItem × List HashItem))
          → Agree crc32c (some (f, a')) l
          → (items' : List HashItem) × Represents crc32c a' items'
      held none agree = absurd agree
      held (some (f', items')) agree = (items', agree.1)

  rounds_of-step :
      (op : Op) (ops : List Op) → rounds_of (op ∷ ops) ≡ rounds_of (op ∷ []) + rounds_of ops
  rounds_of-step (insert allocated started it) ops = omega arith
  rounds_of-step (delete key) ops = omega arith
  rounds_of-step (find key) ops = omega arith
  rounds_of-step (maintenance rounds) ops = omega arith

  -- Where the hash table represents a list of items, and the maintenance thread may move as many
  -- buckets in a sequence of calls as the old table has left, the sequence reaches a state in which
  -- the table is not being expanded, or fails an assertion before.
  pub expansion-Settles :
      (ops : List Op) (a : Assoc) (items : List HashItem)
      → Represents crc32c a items
      → hashsize (a.hashpower - 1) ≤ a.expand_bucket + rounds_of ops
      → Settles crc32c a ops
  expansion-Settles [] a items r enough = elim (Bool-cases a.expanding) [
    | inl growing ↦ let w = (r.valid.growing growing).within in absurd (omega arith)
    | inr still ↦ settled still
  ]
  expansion-Settles (op ∷ ops) a items r enough = elim (Bool-cases a.expanding) [
    | inl growing ↦ elim (Option-cases (on_table crc32c op a)) [
      | inl failed ↦ aborted failed
      | inr ((f, a'), e) ↦
          let (items', r') = next_items op a items r e in
          elim (step-Progress op a growing e) [
            | inl still ↦ later e (settled still)
            | inr g ↦ later e (
                expansion-Settles ops a' items' r' (
                  omega (arith, g.moved, rounds_of-step op ops, ap (λ n. hashsize (n - 1)) g.size)))
          ]
    ]
    | inr still ↦ settled still
  ]
