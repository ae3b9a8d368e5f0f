-- ===== src/Engine/Items/Link.antt =====
-- Bringing an item into the hash table and into its list: do_item_link of engines/default_engine/items.c.
use memcached.Engine.Assoc.{HashItem, Assoc, chain_find, assoc_insert, put_item}
use memcached.Engine.Assoc.Chains.{chain_find-head, chain_find-tail, same_hash_key-false}
use memcached.Engine.Assoc.Valid.{look}
use memcached.Engine.Assoc.Represents.{Represents, put_item-Represents, assoc_insert_lem}
use memcached.Engine.Items.{
  Item, DefaultEngine, power_largest, set_item, set_lru, set_assoc, is_head, item_link_q,
  item_set_cas, mark_linked, count_linked,
}
use memcached.Engine.Items.Calls.{do_item_link}
use memcached.Engine.Items.Sound.{
  Holds, Queued, IsSound, Frame, items-set_item_self, items-set_item_ne, set_lru_all, All-map,
  is_head-false, unlinked_elsewhere,
}
use memcached.Common.{
  ==_iff, ℕ, ◌+◌, ◌%◌, ◌^◌, ◌<◌, ◌≡◌, refl, sym, ◌∙◌, ap, subst, ◌≢◌, Bool, true, false, if_ind,
  none, some, List, ◌∷◌, All, arith,
}

-- An item that a client has filled in, not linked yet.
pub record IsNew (i : Item) : Type 0 where
  pub unlinked : i.linked ≡ false
  pub unslabbed : i.slabbed ≡ false
  pub class : i.slabs_clsid < power_largest

-- The item as do_item_link leaves it.
abbrev pub linked_as : ℕ → ℕ → Item → Item
linked_as now cas_id i = item_set_cas cas_id (record i { linked = true; time = now })

-- item_set_cas changes the CAS value at most.
pub record SameButCas (i j : Item) : Type 0 where
  pub key : j.key ≡ i.key
  pub linked : j.linked ≡ i.linked
  pub slabbed : j.slabbed ≡ i.slabbed
  pub slabs_clsid : j.slabs_clsid ≡ i.slabs_clsid
  pub refcount : j.refcount ≡ i.refcount
  pub time : j.time ≡ i.time
  pub exptime : j.exptime ≡ i.exptime
  pub flags : j.flags ≡ i.flags
  pub datatype : j.datatype ≡ i.datatype
  pub value : j.value ≡ i.value

pub item_set_cas_lem : (cas : ℕ) (i : Item) → SameButCas i (item_set_cas cas i)
unfolding item_set_cas
item_set_cas_lem cas i = if_ind (SameButCas i) i.with_cas _ _ (λ yes_cas. same) (λ no_cas. same')
  where
    same : SameButCas i (record i { cas = cas })
    same = record {
      key = refl;
      linked = refl;
      slabbed = refl;
      slabs_clsid = refl;
      refcount = refl;
      time = refl;
      exptime = refl;
      flags = refl;
      datatype = refl;
      value = refl;
    }

    same' : SameButCas i i
    same' = record {
      key = refl;
      linked = refl;
      slabbed = refl;
      slabs_clsid = refl;
      refcount = refl;
      time = refl;
      exptime = refl;
      flags = refl;
      datatype = refl;
      value = refl;
    }

abbrev pub in_queue : ℕ → DefaultEngine → DefaultEngine
in_queue it e = let clsid = (e.items it).slabs_clsid in set_lru clsid (it ∷ e.lru clsid) e

pub item_link_q_lem :
    (it : ℕ) (e : DefaultEngine)
    → (e.items it).slabs_clsid < power_largest
    → (e.items it).slabbed ≡ false
    → is_head it (e.lru (e.items it).slabs_clsid) ≡ false
    → item_link_q it e ≡ some (in_queue it e)
unfolding item_link_q
item_link_q_lem it e class unslabbed behind = ground arith

items-count_linked :
    (it : ℕ) (a : Assoc) (e : DefaultEngine)
    → (count_linked it a e).items it ≡ item_set_cas ((e.cas_id + 1) % 2 ^ 64) (e.items it)
unfolding count_linked set_item
items-count_linked it a e = ground (arith, (==_iff it it).1 refl)

items-mark_linked :
    (now it : ℕ) (e : DefaultEngine)
    → (mark_linked now it e).items it
      ≡ (let i = e.items it in record i { linked = true; time = now })
unfolding mark_linked
items-mark_linked now it e = items-set_item_self it _ e

module _ (crc32c : List ℕ → ℕ) where
  -- What do_item_link has done.
  pub record Linked (now : ℕ) (it : ℕ) (e e' : DefaultEngine) : Type 0 where
    pub sound : IsSound crc32c e'
    pub there :
        look crc32c e'.assoc (e.items it).key
        ≡ some (record { address = it; key = (e.items it).key })
    pub kept :
        (key : List ℕ) → key ≢ (e.items it).key → look crc32c e'.assoc key ≡ look crc32c e.assoc key
    pub frame : Frame it e e'
    pub item : e'.items it ≡ linked_as now ((e.cas_id + 1) % 2 ^ 64) (e.items it)
    pub cas_id : e'.cas_id ≡ (e.cas_id + 1) % 2 ^ 64
    pub oldest_live : e'.oldest_live ≡ e.oldest_live

  module _ (allocated started : Bool) (now it : ℕ) (e : DefaultEngine) (s : IsSound crc32c e)
      (new : IsNew (e.items it)) (absent : chain_find (e.items it).key s.held ≡ none) where
    abbrev key : List ℕ
    key = (e.items it).key

    abbrev entry : HashItem
    entry = record { address = it; key = key }

    abbrev table : Assoc
    table = put_item allocated started e.assoc (crc32c key) entry

    abbrev counted : DefaultEngine
    counted = count_linked it table (mark_linked now it e)

    counted_item : counted.items it ≡ linked_as now ((e.cas_id + 1) % 2 ^ 64) (e.items it)
    unfolding mark_linked set_item
    counted_item =
        items-count_linked it table (mark_linked now it e)
        ∙ ap (item_set_cas ((e.cas_id + 1) % 2 ^ 64)) (items-mark_linked now it e)

    counted-Frame : Frame it e counted
    unfolding count_linked mark_linked set_assoc
    counted-Frame a ne = items-set_item_ne it _ _ a ne ∙ items-set_item_ne it _ e a ne

    abbrev queued_in : ℕ → DefaultEngine
    queued_in c = set_lru c (it ∷ e.lru c) counted

    marked : Item
    marked = let i = e.items it in record i { linked = true; time = now }

    same : SameButCas marked (counted.items it)
    unfolding marked
    same =
        subst (SameButCas (let i = e.items it in record i { linked = true; time = now }))
          (sym counted_item)
          (item_set_cas_lem ((e.cas_id + 1) % 2 ^ 64)
            (let i = e.items it in record i { linked = true; time = now }))

    elsewhere : (a : ℕ) → (e.items a).linked ≡ true → a ≢ it
    elsewhere a on p = cc (on, new.unlinked, ap (λ x. (e.items x).linked) p)

    linked_queues :
        (c : ℕ) → All (λ a. Queued (counted.items a) c) ((queued_in (e.items it).slabs_clsid).lru c)
    unfolding set_lru count_linked mark_linked set_assoc set_item marked
    linked_queues =
        set_lru_all (λ c queue. All (λ a. Queued (counted.items a) c) queue)
          (e.items it).slabs_clsid (it ∷ e.lru (e.items it).slabs_clsid) counted
          ((same.linked, same.slabs_clsid), others (e.items it).slabs_clsid) (λ d ne. others d)
      where
        others : (c : ℕ) → All (λ a. Queued (counted.items a) c) (e.lru c)
        others c =
            All-map (e.lru c)
              (λ a q. subst (λ j. Queued j c) (sym (counted-Frame a (elsewhere a q.0))) q)
              (s.queued c)

    linked_table : Represents crc32c table (entry ∷ s.held)
    linked_table =
        put_item-Represents crc32c allocated started e.assoc s.held entry s.represents absent

    linked-IsSound : IsSound crc32c (queued_in (e.items it).slabs_clsid)
    unfolding set_lru count_linked mark_linked set_assoc set_item marked
    linked-IsSound = record {
      held = entry ∷ s.held;
      represents = linked_table;
      holds = (
        record {
          same_key = same.key;
          is_linked = same.linked;
          not_slabbed = same.slabbed ∙ new.unslabbed;
          in_class = subst (λ c. c < power_largest) (sym same.slabs_clsid) new.class;
        },
        All-map s.held
            (λ g holds.
              subst (λ j. Holds j g)
                (sym (counted-Frame g.address (elsewhere g.address holds.is_linked))) holds)
            s.holds,
      );
      queued = linked_queues;
    }

    queued_in-Linked : Linked now it e (queued_in (e.items it).slabs_clsid)
    unfolding set_lru count_linked mark_linked set_assoc set_item
    queued_in-Linked = record {
      sound = linked-IsSound;
      there = linked_table.same key ∙ chain_find-head entry s.held;
      kept = λ k ne.
          linked_table.same k
          ∙ chain_find-tail k entry s.held (same_hash_key-false {k = k} {j = key} ne)
          ∙ sym (s.represents.same k);
      frame = counted-Frame;
      item = counted_item;
      cas_id = refl;
      oldest_live = refl;
    }

    same_class : (counted.items it).slabs_clsid ≡ (e.items it).slabs_clsid
    unfolding marked
    same_class = same.slabs_clsid

    queue_after : Linked now it e (in_queue it counted)
    unfolding count_linked mark_linked set_assoc set_item
    queue_after =
        subst (λ c. Linked now it e (set_lru c (it ∷ e.lru c) counted)) (sym same_class)
          queued_in-Linked

    linked_q : item_link_q it counted ≡ some (in_queue it counted)
    unfolding marked
    linked_q =
        item_link_q_lem it counted (subst (λ c. c < power_largest) (sym same_class) new.class)
          (same.slabbed ∙ new.unslabbed)
          (is_head-false it _ (unlinked_elsewhere_after (counted.items it).slabs_clsid))
      where
        unlinked_elsewhere_after : (c : ℕ) → All (λ a. a ≢ it) (counted.lru c)
        unlinked_elsewhere_after c =
            unfold count_linked in
            unfold mark_linked in
            unfold set_assoc in unfold set_item in unlinked_elsewhere crc32c it e s new.unlinked c

    inserted :
        assoc_insert allocated started (mark_linked now it e).assoc (crc32c key) entry ≡ some table
    unfolding mark_linked set_item
    inserted = assoc_insert_lem crc32c allocated started e.assoc s.held entry s.represents absent

    pub do_item_link_lem :
        (e' : DefaultEngine) × (do_item_link crc32c allocated started now it e ≡ some e')
        × Linked now it e e'
    unfolding do_item_link
    do_item_link_lem =
        let off = new.unlinked in
        let good = new.unslabbed in
        (in_queue it counted, ground (arith, inserted, linked_q), queue_after)
