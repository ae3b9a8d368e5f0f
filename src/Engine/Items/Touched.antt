-- ===== src/Engine/Items/Touched.antt =====
-- Changes of the time and the references of an item, in engines/default_engine/items.c.
use memcached.Engine.Items.{
  Item, DefaultEngine, power_largest, set_item, do_item_release, take_reference,
}
use memcached.Engine.Items.Sound.{IsSound, Frame, items-set_item_self, items-set_item_ne, All-map}
use memcached.Common.{
  ℕ, ◌+◌, ◌-◌, ◌%◌, ◌^◌, ◌<◌, ◌≡◌, refl, sym, ◌∙◌, subst, inl, inr, true, ◌==◌, ==_iff, Bool-cases,
  some, List, arith, ==_absurd, ap,
}

-- The same item, but for its time and its references.
pub record SameDoc (i j : Item) : Type 0 where
  pub key : j.key ≡ i.key
  pub linked : j.linked ≡ i.linked
  pub slabbed : j.slabbed ≡ i.slabbed
  pub slabs_clsid : j.slabs_clsid ≡ i.slabs_clsid
  pub with_cas : j.with_cas ≡ i.with_cas
  pub cas : j.cas ≡ i.cas
  pub exptime : j.exptime ≡ i.exptime
  pub flags : j.flags ≡ i.flags
  pub datatype : j.datatype ≡ i.datatype
  pub value : j.value ≡ i.value

pub SameDoc-trans : {i j k : Item} → SameDoc i j → SameDoc j k → SameDoc i k
SameDoc-trans p q = record {
  key = q.key ∙ p.key;
  linked = q.linked ∙ p.linked;
  slabbed = q.slabbed ∙ p.slabbed;
  slabs_clsid = q.slabs_clsid ∙ p.slabs_clsid;
  with_cas = q.with_cas ∙ p.with_cas;
  cas = q.cas ∙ p.cas;
  exptime = q.exptime ∙ p.exptime;
  flags = q.flags ∙ p.flags;
  datatype = q.datatype ∙ p.datatype;
  value = q.value ∙ p.value;
}

pub SameDoc-of :
    (i : Item) (time refcount : ℕ) → SameDoc i (record i { time = time; refcount = refcount })
SameDoc-of i time refcount = record {
  key = refl;
  linked = refl;
  slabbed = refl;
  slabs_clsid = refl;
  with_cas = refl;
  cas = refl;
  exptime = refl;
  flags = refl;
  datatype = refl;
  value = refl;
}

module _ (crc32c : List ℕ → ℕ) where
  -- The table is the same, and so are the items, but for the time and the references of one.
  pub record Touched (it : ℕ) (e e' : DefaultEngine) : Type 0 where
    pub sound : IsSound crc32c e'
    pub table : e'.assoc ≡ e.assoc
    pub frame : Frame it e e'
    pub doc : SameDoc (e.items it) (e'.items it)
    pub cas_id : e'.cas_id ≡ e.cas_id
    pub oldest_live : e'.oldest_live ≡ e.oldest_live
    pub freed : e'.freed ≡ e.freed

  pub Touched-trans :
      {it : ℕ} {e e' e'' : DefaultEngine} → Touched it e e' → Touched it e' e'' → Touched it e e''
  Touched-trans p q = record {
    sound = q.sound;
    table = q.table ∙ p.table;
    frame = λ a ne. q.frame a ne ∙ p.frame a ne;
    doc = SameDoc-trans p.doc q.doc;
    cas_id = q.cas_id ∙ p.cas_id;
    oldest_live = q.oldest_live ∙ p.oldest_live;
    freed = q.freed ∙ p.freed;
  }

  pub set_item-Touched :
      (it : ℕ) (j : Item) (e : DefaultEngine)
      → IsSound crc32c e
      → SameDoc (e.items it) j
      → Touched it e (set_item it j e)
  set_item-Touched it j e s same = record {
    sound = sound;
    table = unfold set_item in refl;
    frame = items-set_item_ne it j e;
    doc = subst (SameDoc (e.items it)) (sym (items-set_item_self it j e)) same;
    cas_id = unfold set_item in refl;
    oldest_live = unfold set_item in refl;
    freed = unfold set_item in refl;
  }
    where
      changed : (a : ℕ) → SameDoc (e.items a) ((set_item it j e).items a)
      changed a = elim (Bool-cases (a == it)) [
        | inl here ↦
            subst (λ b. SameDoc (e.items b) ((set_item it j e).items b))
              (sym ((==_iff a it).0 here))
              (subst (SameDoc (e.items it)) (sym (items-set_item_self it j e)) same)
        | inr other ↦
            subst (SameDoc (e.items a)) (sym (items-set_item_ne it j e a (==_absurd a it other)))
              (SameDoc-of (e.items a) (e.items a).time (e.items a).refcount)
      ]

      sound : IsSound crc32c (set_item it j e)
      sound = record {
        held = s.held;
        represents = unfold set_item in s.represents;
        holds =
            All-map s.held
              (λ g holds.
                let c = changed g.address in
                record {
                  same_key = c.key ∙ holds.same_key;
                  is_linked = c.linked ∙ holds.is_linked;
                  not_slabbed = c.slabbed ∙ holds.not_slabbed;
                  in_class = subst (λ n. n < power_largest) (sym c.slabs_clsid) holds.in_class;
                })
              s.holds;
        queued = λ c.
            unfold set_item in
            All-map (e.lru c) (λ a q. ((changed a).linked ∙ q.0, (changed a).slabs_clsid ∙ q.1))
              (s.queued c);
      }

  -- do_item_get counts its reference.
  pub take_reference-Touched :
      (it : ℕ) (e : DefaultEngine) → IsSound crc32c e → Touched it e (take_reference it e)
  unfolding take_reference
  take_reference-Touched it e s =
      set_item-Touched it _ e s
        (SameDoc-of (e.items it) (e.items it).time (((e.items it).refcount + 1) % 2 ^ 16))

  -- A reference to a linked item is given back.
  pub do_item_release-linked :
      (it : ℕ) (e : DefaultEngine)
      → IsSound crc32c e
      → (e.items it).linked ≡ true
      → (e' : DefaultEngine) × (do_item_release it e ≡ some e') × Touched it e e'
  unfolding do_item_release
  do_item_release-linked it e s on = (
    set_item it (let i = e.items it in record i { refcount = i.refcount - 1 }) e,
    ground arith,
    set_item-Touched it _ e s
        (SameDoc-of (e.items it) (e.items it).time ((e.items it).refcount - 1)),
  )

  pub refcount-take_reference :
      (it : ℕ) (e : DefaultEngine)
      → ((take_reference it e).items it).refcount ≡ ((e.items it).refcount + 1) % 2 ^ 16
  unfolding take_reference
  refcount-take_reference it e = ap (λ i. i.refcount) (items-set_item_self it _ e)
