-- ===== src/Engine/Assoc/Refines.antt =====
-- The hash table of engines/default_engine/assoc.c in use: any steps of its users and of its maintenance
-- thread, against a list of the items.
use memcached.Engine.Assoc.Represents.{Represents, put_item-Represents, cut_item-Represents}
use memcached.Engine.Assoc.{
  HashItem, Assoc, chain_find, chain_delete, in_old, chain_of, put_item, cut_item, assoc_find,
  assoc_insert, assoc_delete, assoc_consruct, maintain,
}
use memcached.Engine.Assoc.Steps.{assoc_consruct-IsValid}
use memcached.Engine.Assoc.Maintenance.{maintain-IsValid, look-maintain, hash_items-maintain}
use memcached.Common.{
  ℕ, ◌≡◌, refl, sym, ◌∙◌, subst, subst₂, inl, inr, Bool, Option-cases, Option, none, some, List, [],
  ◌∷◌, arith,
}

-- A call, with the answers of the allocator and of the thread library where the table grows, or the
-- maintenance thread's hold of the lock with hash_bulk_move.
pub data Op : Type 0 where
  insert : Bool → Bool → HashItem → Op
  delete find : List ℕ → Op
  maintenance : ℕ → Op

-- What one step returns, with the state; `none` is a failed assertion.
abbrev pub Step : Type 0 → Type 0
Step S = Option (Option HashItem × S)

abbrev quiet : {S : Type 0} → Option S → Step S
quiet none = none
quiet (some s) = some (none, s)

abbrev pub after : {R S : Type 0} → Step S → (Option HashItem → S → Option R) → Option R
after none next = none
after (some (f, s)) next = next f s

-- Any steps: what the last of them found, and so on to the first.
abbrev pub run_from :
    {S : Type 0}
    → (Op → S → Step S)
    → List Op
    → S
    → List (Option HashItem)
    → Option (List (Option HashItem) × S)
run_from step [] s found = some (found, s)
run_from step (op ∷ ops) s found = after (step op s) (λ f s'. run_from step ops s' (f ∷ found))

unfoldable pub on_list : Op → List HashItem → Step (List HashItem)
on_list (insert allocated started it) items = elim (chain_find it.key items) [
  | none ↦ some (none, it ∷ items)
  | some it' ↦ none
]
on_list (delete key) items = elim (chain_find key items) [
  | none ↦ none
  | some it ↦ some (none, chain_delete key items)
]
on_list (find key) items = some (chain_find key items, items)
on_list (maintenance rounds) items = some (none, items)

module _ (crc32c : List ℕ → ℕ) where
  unfoldable pub on_table : Op → Assoc → Step Assoc
  on_table (insert allocated started it) a =
      quiet (assoc_insert allocated started a (crc32c it.key) it)
  on_table (delete key) a = quiet (assoc_delete a (crc32c key) key)
  on_table (find key) a = some (assoc_find a (crc32c key) key, a)
  on_table (maintenance rounds) a = some (none, maintain crc32c rounds a)

  -- Both fail, or both return the same, and the table has what the list has.
  abbrev pub Agree : {R : Type 0} → Option (R × Assoc) → Option (R × List HashItem) → Type 0
  Agree none none = Unit
  Agree (some (r, a)) (some (r', items)) = (r ≡ r') × Represents crc32c a items
  Agree _ _ = ⊥

  Agree-by :
      {R : Type 0} {s s' : Option (R × Assoc)} {l l' : Option (R × List HashItem)}
      → s ≡ s'
      → l ≡ l'
      → Agree s' l'
      → Agree s l
  Agree-by {R} p q = subst₂ (Agree {R = R}) (sym p) (sym q)

  pub step-Agree :
      (op : Op) (a : Assoc) (items : List HashItem)
      → Represents crc32c a items
      → Agree (on_table op a) (on_list op items)
  unfolding on_table on_list assoc_insert assoc_delete assoc_find
  step-Agree (insert allocated started it) a items r =
      elim (Option-cases (chain_find it.key items)) [
        | inl new ↦
            Agree-by {s = on_table (insert allocated started it) a}
              {s' = some (none, put_item allocated started a (crc32c it.key) it)}
              {l' = some (none, it ∷ items)} (ground (arith, r.same it.key)) (ground arith)
              (refl, put_item-Represents crc32c allocated started a items it r new)
        | inr (it', there) ↦
            Agree-by {s = on_table (insert allocated started it) a} {s' = none} {l' = none}
              (ground (arith, r.same it.key)) (ground arith) tt
      ]
  step-Agree (delete key) a items r = elim (Option-cases (chain_find key items)) [
    | inl missing ↦
        Agree-by {s = on_table (delete key) a} {s' = none} {l' = none} (ground (arith, r.same key))
          (ground arith) tt
    | inr (it, there) ↦
        Agree-by {s = on_table (delete key) a} {s' = some (none, cut_item a (crc32c key) key)}
          {l' = some (none, chain_delete key items)} (ground (arith, r.same key)) (ground arith)
          (refl, cut_item-Represents crc32c a items key {it = it} r there)
  ]
  step-Agree (find key) a items r = (r.same key, r)
  step-Agree (maintenance rounds) a items r = (
    refl,
    record {
      valid = maintain-IsValid crc32c rounds a r.valid;
      same = λ key. look-maintain crc32c rounds a key r.valid ∙ r.same key;
      counted = hash_items-maintain crc32c rounds a ∙ r.counted;
      once = r.once;
    },
  )

  after-Agree :
      {R : Type 0} (s : Step Assoc) (l : Step (List HashItem))
      (on_s : Option HashItem → Assoc → Option (R × Assoc))
      (on_l : Option HashItem → List HashItem → Option (R × List HashItem))
      → Agree s l
      → ((f : Option HashItem) (a : Assoc) (items : List HashItem)
          → Represents crc32c a items
          → Agree (on_s f a) (on_l f items))
      → Agree (after s on_s) (after l on_l)
  after-Agree none none on_s on_l agree rest = tt
  after-Agree none (some l) on_s on_l agree rest = absurd agree
  after-Agree (some s) none on_s on_l agree rest = absurd agree
  after-Agree (some (f, a)) (some (f', items)) on_s on_l agree rest =
      subst (λ x. Agree (on_s x a) (on_l f' items)) (sym agree.0) (rest f' a items agree.1)

  run-Agree :
      (ops : List Op) (a : Assoc) (items : List HashItem) (found : List (Option HashItem))
      → Represents crc32c a items
      → Agree (run_from on_table ops a found) (run_from on_list ops items found)
  run-Agree [] a items found r = (refl, r)
  run-Agree (op ∷ ops) a items found r =
      after-Agree (on_table op a) (on_list op items) _ _ (step-Agree op a items r)
        (λ f a' items' r'. run-Agree ops a' items' (f ∷ found) r')

  pub assoc_consruct-Represents : (n : ℕ) → Represents crc32c (assoc_consruct n) []
  unfolding assoc_consruct chain_find chain_of in_old
  assoc_consruct-Represents n = record {
    valid = assoc_consruct-IsValid crc32c n;
    same = λ key. refl;
    counted = refl;
    once = tt;
  }

  -- From a new hash table of any size, every sequence of inserts, deletes, finds and rounds of the
  -- maintenance thread fails an assertion exactly where a list of the items does that takes each key
  -- once, whatever the allocator and the thread library answer. Otherwise all finds return what they
  -- do on the list, and in the end the table has the list's items, each in the chain where it is
  -- looked up, and hash_items counts them modulo 2^32.
  pub assoc_run_refines :
      (n : ℕ) (ops : List Op)
      → Agree (run_from on_table ops (assoc_consruct n) []) (run_from on_list ops [] [])
  assoc_run_refines n ops = run-Agree ops (assoc_consruct n) [] [] (assoc_consruct-Represents n)
