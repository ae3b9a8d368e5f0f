-- ===== src/Engine/Items/Apart.antt =====
-- What the calls of engines/default_engine/items.c on one key leave alone.
use memcached.Engine.Assoc.{HashItem, chain_find}
use memcached.Engine.Assoc.Chains.{key-chain_find}
use memcached.Engine.Assoc.Valid.{look}
use memcached.Engine.Items.{DefaultEngine, set_item, do_item_release}
use memcached.Engine.Items.Sound.{
  Holds, IsSound, Frame, All-chain_find, items-set_item_self, items-set_item_ne, set_item-IsSound,
}
use memcached.Engine.Items.Unlink.{freed_engine, freed_engine-IsSound, item_free_lem}
use memcached.Engine.Items.Get.{doc_of, doc_at, content, Aside}
use memcached.Common.{
  if◌then◌else◌, ℕ, ◌-◌, ◌≡◌, refl, sym, ◌∙◌, ap, subst, ◌≢◌, inl, inr, false, ◌==◌, ==_iff,
  Bool-cases, Option, none, some, List, ◌∷◌, arith,
}

module _ (crc32c : List ℕ → ℕ) where
  -- What is under other keys, and the items with other keys, are as before.
  pub record Apart (key : List ℕ) (e e' : DefaultEngine) : Type 0 where
    pub looks : (k : List ℕ) → k ≢ key → look crc32c e'.assoc k ≡ look crc32c e.assoc k
    pub items : (a : ℕ) → (e.items a).key ≢ key → e'.items a ≡ e.items a

  pub Apart-trans :
      {key : List ℕ} {e e' e'' : DefaultEngine}
      → Apart key e e'
      → Apart key e' e''
      → Apart key e e''
  Apart-trans {key = key} p q = record {
    looks = λ k ne. q.looks k ne ∙ p.looks k ne;
    items = λ a ne. q.items a (subst (λ i. i.key ≢ key) (sym (p.items a ne)) ne) ∙ p.items a ne;
  }

  pub Aside-Apart : {key : List ℕ} {e e' : DefaultEngine} → Aside crc32c key e e' → Apart key e e'
  Aside-Apart a = record { looks = a.kept; items = λ x ne. a.items x (λ same. absurd (ne same)) }

  -- A change to an item with the key.
  pub Frame-Apart :
      (it : ℕ) {key : List ℕ} {e e' : DefaultEngine}
      → (e.items it).key ≡ key
      → Frame it e e'
      → ((k : List ℕ) → k ≢ key → look crc32c e'.assoc k ≡ look crc32c e.assoc k)
      → Apart key e e'
  Frame-Apart it {e = e} same frame looks = record {
    looks = looks;
    items = λ a ne. frame a (λ p. ne (ap (λ x. (e.items x).key) p ∙ same));
  }

  -- The documents under other keys are as before.
  pub content-Apart :
      (key : List ℕ) (e e' : DefaultEngine)
      → IsSound crc32c e
      → Apart key e e'
      → (k : List ℕ) → k ≢ key
      → content crc32c e' k ≡ content crc32c e k
  content-Apart key e e' s p k ne =
      ap (doc_at e') (p.looks k ne) ∙ same_docs (look crc32c e.assoc k) refl
    where
      same_docs : (o : Option HashItem) → look crc32c e.assoc k ≡ o → doc_at e' o ≡ doc_at e o
      same_docs none there = refl
      same_docs (some h) there =
          let at_key : chain_find k s.held ≡ some h = sym (s.represents.same k) ∙ there in
          let holds = All-chain_find (λ g. Holds (e.items g.address) g) k s.held s.holds at_key in
          ap (λ i. some (doc_of i))
            (p.items h.address
              (λ q. ne (sym (holds.same_key ∙ key-chain_find k s.held at_key) ∙ q)))

  -- What do_item_release has done to an item that is not linked.
  pub record Released (it : ℕ) (e e' : DefaultEngine) : Type 0 where
    pub sound : IsSound crc32c e'
    pub table : e'.assoc ≡ e.assoc
    pub frame : Frame it e e'
    pub cas_id : e'.cas_id ≡ e.cas_id

  freed-Released :
      (it : ℕ) (e e' : DefaultEngine)
      → Released it e e'
      → (e'.items it).linked ≡ false
      → Released it e (freed_engine it e')
  freed-Released it e e' r off = record {
    sound = freed_engine-IsSound crc32c it e' r.sound off;
    table = unfold set_item in r.table;
    frame = λ a ne. items-set_item_ne it _ _ a ne ∙ r.frame a ne;
    cas_id = unfold set_item in r.cas_id;
  }

  pub do_item_release-unlinked :
      (it : ℕ) (e : DefaultEngine)
      → IsSound crc32c e
      → (e.items it).linked ≡ false
      → (e' : DefaultEngine) × (do_item_release it e ≡ some e')
        × Released it e e'
        × (e'.freed ≡ (if (e.items it).refcount - 1 == 0 then it ∷ e.freed else e.freed))
  unfolding do_item_release
  do_item_release-unlinked it e s off = elim (Bool-cases ((e.items it).refcount - 1 == 0)) [
    | inl last ↦ (
      freed_engine it released,
      ground (
        arith,
        item_free_lem crc32c it released sound still_off
            (ap (λ i. i.refcount) now ∙ (==_iff _ 0).0 last),
      ),
      released-freed,
      unfold set_item in rw last refl,
    )
    | inr more ↦ (released, ground arith, first, unfold set_item in rw more refl)
  ]
    where
      released : DefaultEngine
      released = set_item it (let i = e.items it in record i { refcount = i.refcount - 1 }) e

      now : released.items it ≡ (let i = e.items it in record i { refcount = i.refcount - 1 })
      now = items-set_item_self it _ e

      sound : IsSound crc32c released
      sound = set_item-IsSound crc32c it _ e s off

      still_off : (released.items it).linked ≡ false
      still_off = ap (λ i. i.linked) now ∙ off

      first : Released it e released
      first = record {
        sound = sound;
        table = unfold set_item in refl;
        frame = items-set_item_ne it _ e;
        cas_id = unfold set_item in refl;
      }

      released-freed : Released it e (freed_engine it released)
      released-freed = freed-Released it e released first still_off
