-- ===== src/Engine/Items/Sound.antt =====
-- The items of engines/default_engine/items.c: which are in the hash table and in the
-- least-recently-used lists, and what stays when one of them changes.
use memcached.Engine.Assoc.{HashItem, chain_find, chain_delete, same_hash_key}
use memcached.Engine.Assoc.Chains.{
  Distinct, same_hash_key_cases, same_hash_key_self, ne_of_same_hash_key, chain_find-head,
  chain_find-tail,
}
use memcached.Engine.Assoc.Represents.{Represents}
use memcached.Engine.Items.{
  Item, DefaultEngine, power_largest, set_item, set_lru, is_head, is_tail, unqueue,
}
use memcached.Common.{
  ℕ, ◌<◌, ◌≡◌, refl, sym, ◌∙◌, ap, subst, ◌≢◌, inl, inr, true, false, ◌==◌, ==_iff, ==_false,
  ==_absurd, if_ind, Bool-cases, none, some, List, [], ◌∷◌, All,
}

-- The item that the table has under a key.
pub record Holds (i : Item) (h : HashItem) : Type 0 where
  pub same_key : i.key ≡ h.key
  pub is_linked : i.linked ≡ true
  pub not_slabbed : i.slabbed ≡ false
  pub in_class : i.slabs_clsid < power_largest

abbrev pub Queued : Item → ℕ → Type 0
Queued i c = (i.linked ≡ true) × (i.slabs_clsid ≡ c)

-- The table and the lists have linked items only, each one in its place.
pub record IsSound (crc32c : List ℕ → ℕ) (e : DefaultEngine) : Type 0 where
  pub held : List HashItem
  pub represents : Represents crc32c e.assoc held
  pub holds : All (λ h. Holds (e.items h.address) h) held
  pub queued : (c : ℕ) → All (λ a. Queued (e.items a) c) (e.lru c)

-- Only the item at `it` may be another one.
abbrev pub Frame : ℕ → DefaultEngine → DefaultEngine → Type 0
Frame it e e' = (a : ℕ) → a ≢ it → e'.items a ≡ e.items a

pub items-set_item_self : (it : ℕ) (i : Item) (e : DefaultEngine) → (set_item it i e).items it ≡ i
unfolding set_item
items-set_item_self it i e = rw ((==_iff it it).1 refl)

pub items-set_item_ne : (it : ℕ) (i : Item) (e : DefaultEngine) → Frame it e (set_item it i e)
unfolding set_item
items-set_item_ne it i e a ne = rw (==_false {a = a} {b = it} ne)

-- What holds of a changed list, and of the others, holds of all.
pub set_lru_all {κ} :
    (P : ℕ → List ℕ → Type κ) (c : ℕ) (queue : List ℕ) (e : DefaultEngine)
    → P c queue
    → ((d : ℕ) → d ≢ c → P d (e.lru d))
    → (d : ℕ) → P d ((set_lru c queue e).lru d)
unfolding set_lru
set_lru_all P c queue e new old d = elim (Bool-cases (d == c)) [
  | inl here ↦ rw here (subst (λ b. P b queue) (sym ((==_iff d c).0 here)) new)
  | inr elsewhere ↦ rw elsewhere (old d (==_absurd d c elsewhere))
]

pub lru-set_lru_self :
    (c : ℕ) (queue : List ℕ) (e : DefaultEngine) → (set_lru c queue e).lru c ≡ queue
unfolding set_lru
lru-set_lru_self c queue e = rw ((==_iff c c).1 refl)

pub All-map {ℓ κ ν} :
    {A : Type ℓ} {P : A → Type κ} {Q : A → Type ν} (xs : List A)
    → ((x : A) → P x → Q x)
    → All P xs
    → All Q xs
All-map [] f all = tt
All-map (x ∷ xs) f all = (f x all.0, All-map xs f all.1)

pub All-unqueue {κ} :
    (P : ℕ → Type κ) (it : ℕ) (queue : List ℕ)
    → All P queue
    → All (λ a. P a × (a ≢ it)) (unqueue it queue)
unfolding unqueue
All-unqueue P it [] all = tt
All-unqueue P it (a ∷ queue) all =
    if_ind (All (λ a. P a × (a ≢ it))) (a == it) _ _ (λ same. All-unqueue P it queue all.1)
      (λ other. ((all.0, ==_absurd a it other), All-unqueue P it queue all.1))

pub is_head-false : (it : ℕ) (queue : List ℕ) → All (λ a. a ≢ it) queue → is_head it queue ≡ false
unfolding is_head
is_head-false it [] all = refl
is_head-false it (a ∷ queue) all = ==_false {a = a} {b = it} all.0

pub is_tail-false : (it : ℕ) (queue : List ℕ) → All (λ a. a ≢ it) queue → is_tail it queue ≡ false
unfolding is_tail
is_tail-false it [] all = refl
is_tail-false it (a ∷ []) all = ==_false {a = a} {b = it} all.0
is_tail-false it (a ∷ b ∷ queue) all = is_tail-false it (b ∷ queue) all.1

-- What is found is one of the items.
pub All-chain_find {κ} :
    (P : HashItem → Type κ) (key : List ℕ) (chain : List HashItem) {h : HashItem}
    → All P chain
    → chain_find key chain ≡ some h
    → P h
unfolding chain_find
All-chain_find P key [] all e = absurd (cc e)
All-chain_find P key (it ∷ chain) {h} all e = elim (Bool-cases (same_hash_key key it.key)) [
  | inl same ↦ subst P (some_eq (rw same at e)) all.0
  | inr other ↦ All-chain_find P key chain all.1 (rw other at e)
]
  where
    some_eq : {x y : HashItem} → some x ≡ some y → x ≡ y
    some_eq p = cc

-- After a deletion no other item has the key.
pub All-chain_delete_ne :
    (key : List ℕ) (chain : List HashItem)
    → Distinct chain
    → All (λ h. h.key ≢ key) (chain_delete key chain)
unfolding chain_delete
All-chain_delete_ne key [] d = tt
All-chain_delete_ne key (it ∷ chain) d = elim (same_hash_key_cases key it.key) [
  | inl same ↦ rw (same, same_hash_key_self it.key) (not_found it.key chain d.0)
  | inr other ↦ rw other (
    (λ e. ne_of_same_hash_key {k = key} {j = it.key} other (sym e)),
    All-chain_delete_ne key chain d.1,
  )
]
  where
    not_found :
        (k : List ℕ) (chain : List HashItem)
        → chain_find k chain ≡ none
        → All (λ h. h.key ≢ k) chain
    not_found k [] e = tt
    not_found k (h ∷ chain) e = elim (same_hash_key_cases k h.key) [
      | inl same ↦ absurd (cc (e, chain_find-head h chain, same))
      | inr other ↦ (
        (λ p. ne_of_same_hash_key {k = k} {j = h.key} other (sym p)),
        not_found k chain (sym (chain_find-tail k h chain other) ∙ e),
      )
    ]

pub All-zip {ℓ κ ν} :
    {A : Type ℓ} (P : A → Type κ) (Q : A → Type ν) (xs : List A)
    → All P xs
    → All Q xs
    → All (λ x. P x × Q x) xs
All-zip P Q [] p q = tt
All-zip P Q (x ∷ xs) p q = ((p.0, q.0), All-zip P Q xs p.1 q.1)

module _ (crc32c : List ℕ → ℕ) where
  -- An item that is not linked is in no list.
  pub unlinked_elsewhere :
      (it : ℕ) (e : DefaultEngine)
      → IsSound crc32c e
      → (e.items it).linked ≡ false
      → (c : ℕ) → All (λ a. a ≢ it) (e.lru c)
  unlinked_elsewhere it e s off c =
      All-map (e.lru c) (λ a q same. cc (q.0, off, ap (λ x. (e.items x).linked) same)) (s.queued c)

  -- An item that is not linked may change at will.
  pub set_item-IsSound :
      (it : ℕ) (i : Item) (e : DefaultEngine)
      → IsSound crc32c e
      → (e.items it).linked ≡ false
      → IsSound crc32c (set_item it i e)
  unfolding set_item
  set_item-IsSound it i e s off = record {
    held = s.held;
    represents = s.represents;
    holds =
        All-map s.held
          (λ h holds.
            subst (λ j. Holds j h)
              (sym (
                items-set_item_ne it i e h.address
                  (λ same. cc (off, holds.is_linked, ap (λ x. (e.items x).linked) same))))
              holds)
          s.holds;
    queued = λ c.
        All-map (e.lru c)
          (λ a q.
            subst (λ j. Queued j c)
              (sym (
                items-set_item_ne it i e a
                  (λ same. cc (q.0, off, ap (λ x. (e.items x).linked) same))))
              q)
          (s.queued c);
  }
