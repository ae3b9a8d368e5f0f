-- ===== src/Engine/Items/Get.antt =====
-- do_item_get of engines/default_engine/items.c: the item under a key, unless it is dead.
use memcached.Engine.Assoc.{HashItem, chain_find, assoc_find}
use memcached.Engine.Assoc.Chains.{key-chain_find}
use memcached.Engine.Assoc.Valid.{look}
use memcached.Engine.Items.{
  power_largest, Item, DefaultEngine, is_dead, take_reference, item_get_cas,
}
use memcached.Engine.Items.Calls.{do_item_get, got_dead, got_item}
use memcached.Engine.Items.Sound.{Holds, IsSound, All-chain_find}
use memcached.Engine.Items.Unlink.{do_item_unlink_lem}
use memcached.Engine.Items.Touched.{
  SameDoc, Touched-trans, take_reference-Touched, refcount-take_reference,
}
use memcached.Engine.Items.Update.{do_item_update_lem}
use memcached.Common.{
  ℕ, ◌+◌, ◌%◌, ◌^◌, ◌<◌, ◌≡◌, refl, sym, ◌∙◌, ap, subst, ◌≢◌, inl, inr, true, false, if◌then◌else◌,
  Bool-cases, Option-cases, Option, none, some, List, arith,
}

-- What a client sees of an item.
pub record Doc : Type 0 where
  pub value : List ℕ
  pub flags : ℕ
  pub datatype : ℕ
  pub exptime : ℕ
  pub cas : ℕ

abbrev pub doc_of : Item → Doc
doc_of i = record {
  value = i.value;
  flags = i.flags;
  datatype = i.datatype;
  exptime = i.exptime;
  cas = item_get_cas i;
}

abbrev pub doc_at : DefaultEngine → Option HashItem → Option Doc
doc_at e none = none
doc_at e (some h) = some (doc_of (e.items h.address))

abbrev pub live_at : ℕ → DefaultEngine → Option HashItem → Option Doc
live_at now e none = none
live_at now e (some h) =
    let i = e.items h.address in if is_dead now e.oldest_live i then none else some (doc_of i)

module _ (crc32c : List ℕ → ℕ) where
  -- The document under a key, dead or not.
  abbrev pub content : DefaultEngine → List ℕ → Option Doc
  content e key = doc_at e (look crc32c e.assoc key)

  -- The document under a key, where it is not dead.
  abbrev pub live : ℕ → DefaultEngine → List ℕ → Option Doc
  live now e key = live_at now e (look crc32c e.assoc key)

  -- What do_item_get returns: nothing, and no document is left; or an item of the table with the document.
  pub data Got (now : ℕ) (key : List ℕ) (e : DefaultEngine)
      : Option ℕ → DefaultEngine → Type 0 where
    missing :
        {e' : DefaultEngine}
        → live now e key ≡ none
        → look crc32c e'.assoc key ≡ none
        → Got now key e none e'
    found :
        {e' : DefaultEngine} (h : HashItem)
        → h.key ≡ key
        → live now e key ≡ some (doc_of (e'.items h.address))
        → look crc32c e'.assoc key ≡ some h
        → Got now key e (some h.address) e'

  -- Other items and keys are as before.
  pub record Aside (key : List ℕ) (e e' : DefaultEngine) : Type 0 where
    pub sound : IsSound crc32c e'
    pub kept : (k : List ℕ) → k ≢ key → look crc32c e'.assoc k ≡ look crc32c e.assoc k
    pub items :
        (a : ℕ) → ((e.items a).key ≡ key → (e.items a).linked ≡ false) → e'.items a ≡ e.items a
    pub cas_id : e'.cas_id ≡ e.cas_id
    pub oldest_live : e'.oldest_live ≡ e.oldest_live

  -- A live item is found: it has one reference more, and no memory is given back.
  pub record Counted (key : List ℕ) (h : HashItem) (e e' : DefaultEngine) : Type 0 where
    pub there : look crc32c e'.assoc key ≡ some h
    pub doc : SameDoc (e.items h.address) (e'.items h.address)
    pub freed : e'.freed ≡ e.freed
    pub refcount : (e'.items h.address).refcount ≡ ((e.items h.address).refcount + 1) % 2 ^ 16

  pub doc_of-SameDoc : (i j : Item) → SameDoc i j → doc_of j ≡ doc_of i
  unfolding item_get_cas
  doc_of-SameDoc i j d = ground (arith, d.value, d.flags, d.datatype, d.exptime, d.cas, d.with_cas)

  module _ (now : ℕ) (key : List ℕ) (e : DefaultEngine) (s : IsSound crc32c e) where
    pub held_as :
        (h : HashItem)
        → look crc32c e.assoc key ≡ some h
        → (chain_find h.key s.held ≡ some h) × (h.key ≡ key)
    held_as h there =
        let at_key : chain_find key s.held ≡ some h = sym (s.represents.same key) ∙ there in
        let same = key-chain_find key s.held at_key in
        (ap (λ k. chain_find k s.held) same ∙ at_key, same)

    apart :
        (h : HashItem)
        → Holds (e.items h.address) h
        → h.key ≡ key
        → (a : ℕ) → ((e.items a).key ≡ key → (e.items a).linked ≡ false)
        → a ≢ h.address
    apart h holds same a other p = cc (
      other (ap (λ x. (e.items x).key) p ∙ holds.same_key ∙ same),
      ap (λ x. (e.items x).linked) p,
      holds.is_linked,
    )

    pub holding : (h : HashItem) → chain_find h.key s.held ≡ some h → Holds (e.items h.address) h
    holding h at_key = All-chain_find (λ g. Holds (e.items g.address) g) h.key s.held s.holds at_key

    get_absent : look crc32c e.assoc key ≡ none → do_item_get crc32c now key e ≡ some (none, e)
    unfolding do_item_get assoc_find
    get_absent absent = ground (arith, absent)

    Aside-self : Aside key e e
    Aside-self = record {
      sound = s;
      kept = λ k ne. refl;
      items = λ a other. refl;
      cas_id = refl;
      oldest_live = refl;
    }

    get_dead :
        (h : HashItem)
        → look crc32c e.assoc key ≡ some h
        → is_dead now e.oldest_live (e.items h.address) ≡ true
        → (e' : DefaultEngine) × (do_item_get crc32c now key e ≡ some (none, e'))
          × Got now key e none e'
          × Aside key e e'
    unfolding do_item_get assoc_find got_dead
    get_dead h there dead =
        let (at_key, same) = held_as h there in
        let (e', unlinked, u) = do_item_unlink_lem crc32c e s h at_key in
        (
          e',
          ground (arith, there, dead, unlinked),
          missing (ap (live_at now e) there ∙ rw dead)
              (subst (λ k. look crc32c e'.assoc k ≡ none) same u.gone),
          record {
            sound = u.sound;
            kept = λ k ne. u.kept k (λ p. ne (p ∙ same));
            items = λ a other. u.frame a (apart h (holding h at_key) same a other);
            cas_id = u.cas_id;
            oldest_live = u.oldest_live;
          },
        )

    pub get_live :
        (h : HashItem)
        → look crc32c e.assoc key ≡ some h
        → is_dead now e.oldest_live (e.items h.address) ≡ false
        → (e' : DefaultEngine) × (do_item_get crc32c now key e ≡ some (some h.address, e'))
          × Got now key e (some h.address) e'
          × Aside key e e'
          × Counted key h e e'
    unfolding do_item_get assoc_find got_item
    get_live h there alive =
        let (at_key, same) = held_as h there in
        let holds = holding h at_key in
        let t = take_reference-Touched crc32c h.address e s in
        let (e', updated, t', refs) =
          do_item_update_lem crc32c now h.address (take_reference h.address e) t.sound
            (t.doc.linked ∙ holds.is_linked)
            (subst (λ c. c < power_largest) (sym t.doc.slabs_clsid) holds.in_class)
            (t.doc.slabbed ∙ holds.not_slabbed) in
        let all = Touched-trans crc32c t t' in
        (
          e',
          ground (arith, there, alive, updated),
          found h same
              (ap (live_at now e) there
                ∙ rw alive (
                    ap some
                      (sym (doc_of-SameDoc (e.items h.address) (e'.items h.address) all.doc))))
              (ap (λ t. look crc32c t key) all.table ∙ there),
          record {
            sound = all.sound;
            kept = λ k ne. ap (λ t. look crc32c t k) all.table;
            items = λ a other. all.frame a (apart h holds same a other);
            cas_id = all.cas_id;
            oldest_live = all.oldest_live;
          },
          record {
            there = ap (λ t. look crc32c t key) all.table ∙ there;
            doc = all.doc;
            freed = all.freed;
            refcount = refs ∙ refcount-take_reference crc32c h.address e;
          },
        )

    -- do_item_get returns, and what it returns is what there is.
    pub do_item_get_lem :
        (r : Option ℕ) × (e' : DefaultEngine) × (do_item_get crc32c now key e ≡ some (r, e'))
        × Got now key e r e'
        × Aside key e e'
    do_item_get_lem = elim (Option-cases (look crc32c e.assoc key)) [
      | inl absent ↦
          (none, e, get_absent absent, missing (ap (live_at now e) absent) absent, Aside-self)
      | inr (h, there) ↦ elim (Bool-cases (is_dead now e.oldest_live (e.items h.address))) [
        | inl dead ↦ let (e', ran, g, a) = get_dead h there dead in (none, e', ran, g, a)
        | inr alive ↦
            let (e', ran, g, a, counted) = get_live h there alive in (some h.address, e', ran, g, a)
      ]
    ]
