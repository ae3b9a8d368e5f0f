-- ===== src/Engine/Items/Unlink.antt =====
-- Taking an item out of the hash table and of its list: item_free and do_item_unlink of
-- engines/default_engine/items.c.
use memcached.Engine.Assoc.{HashItem, chain_find, chain_delete, cut_item}
use memcached.Engine.Assoc.Chains.{chain_find-delete_ne, chain_find-delete_self, All-chain_delete}
use memcached.Engine.Assoc.Valid.{look}
use memcached.Engine.Assoc.Represents.{cut_item-Represents, assoc_delete_lem}
use memcached.Engine.Items.{
  DefaultEngine, power_largest, set_item, set_lru, set_assoc, unqueue, item_free, item_unlink_q,
  unlinked_item, free_unused,
}
use memcached.Engine.Items.Calls.{do_item_unlink, take_out}
use memcached.Engine.Items.Sound.{
  Holds, Queued, IsSound, Frame, items-set_item_self, items-set_item_ne, set_lru_all, All-map,
  All-unqueue, is_head-false, is_tail-false, All-chain_find, All-chain_delete_ne, All-zip,
  unlinked_elsewhere, set_item-IsSound,
}
use memcached.Common.{
  ℕ, ◌<◌, ◌≡◌, refl, sym, ◌∙◌, ap, subst, ◌≢◌, inl, inr, true, false, ◌==◌, ==_iff, Bool-cases,
  none, some, List, ◌∷◌, All, arith,
}

-- item_free, where its assertions hold.
abbrev log_freed : ℕ → DefaultEngine → DefaultEngine
log_freed it e = record e { freed = it ∷ e.freed }

abbrev pub freed_engine : ℕ → DefaultEngine → DefaultEngine
freed_engine it e =
    set_item it (let i = e.items it in record i { slabs_clsid = 0; slabbed = true })
      (log_freed it e)

-- item_unlink_q, where its assertion holds.
abbrev pub out_of_queue : ℕ → DefaultEngine → DefaultEngine
out_of_queue it e =
    let clsid = (e.items it).slabs_clsid in set_lru clsid (unqueue it (e.lru clsid)) e

pub item_unlink_q_lem :
    (it : ℕ) (e : DefaultEngine)
    → (e.items it).slabs_clsid < power_largest
    → item_unlink_q it e ≡ some (out_of_queue it e)
unfolding item_unlink_q
item_unlink_q_lem it e class = ground arith

module _ (crc32c : List ℕ → ℕ) where
  log_freed-IsSound :
      (it : ℕ) (e : DefaultEngine) → IsSound crc32c e → IsSound crc32c (log_freed it e)
  log_freed-IsSound it e s = record {
    held = s.held;
    represents = s.represents;
    holds = s.holds;
    queued = s.queued;
  }

  pub item_free_lem :
      (it : ℕ) (e : DefaultEngine)
      → IsSound crc32c e
      → (e.items it).linked ≡ false
      → (e.items it).refcount ≡ 0
      → item_free it e ≡ some (freed_engine it e)
  unfolding item_free
  item_free_lem it e s off unused =
      let others = unlinked_elsewhere crc32c it e s off (e.items it).slabs_clsid in
      ground (
        arith,
        is_head-false it (e.lru (e.items it).slabs_clsid) others,
        is_tail-false it (e.lru (e.items it).slabs_clsid) others,
      )

  -- What do_item_unlink has done when the item under a key is out of the table and of its list.
  pub record Unlinked (e : DefaultEngine) (h : HashItem) (e' : DefaultEngine) : Type 0 where
    pub sound : IsSound crc32c e'
    pub gone : look crc32c e'.assoc h.key ≡ none
    pub kept : (key : List ℕ) → key ≢ h.key → look crc32c e'.assoc key ≡ look crc32c e.assoc key
    pub frame : Frame h.address e e'
    pub off : (e'.items h.address).linked ≡ false
    pub refcount : (e'.items h.address).refcount ≡ (e.items h.address).refcount
    pub cas_id : e'.cas_id ≡ e.cas_id
    pub oldest_live : e'.oldest_live ≡ e.oldest_live
    pub freed : (e.items h.address).refcount ≢ 0 → e'.freed ≡ e.freed

  pub freed_engine-IsSound :
      (it : ℕ) (e : DefaultEngine)
      → IsSound crc32c e
      → (e.items it).linked ≡ false
      → IsSound crc32c (freed_engine it e)
  freed_engine-IsSound it e s off =
      set_item-IsSound crc32c it _ (log_freed it e) (log_freed-IsSound it e s) off

  -- What was freed is not in the table any more.
  freed-Unlinked :
      (e : DefaultEngine) (h : HashItem) (e' : DefaultEngine)
      → (e.items h.address).refcount ≡ 0
      → Unlinked e h e'
      → Unlinked e h (freed_engine h.address e')
  unfolding set_item
  freed-Unlinked e h e' unused u = record {
    sound = freed_engine-IsSound h.address e' u.sound u.off;
    gone = u.gone;
    kept = u.kept;
    frame = λ a ne. items-set_item_ne h.address _ (log_freed h.address e') a ne ∙ u.frame a ne;
    off = ap (λ i. i.linked) (items-set_item_self h.address _ (log_freed h.address e')) ∙ u.off;
    refcount =
        ap (λ i. i.refcount) (items-set_item_self h.address _ (log_freed h.address e'))
        ∙ u.refcount;
    cas_id = u.cas_id;
    oldest_live = u.oldest_live;
    freed = λ used. absurd (used unused);
  }

  free_unused_lem :
      (e : DefaultEngine) (h : HashItem) (e1 : DefaultEngine)
      → (e1.items h.address).slabs_clsid < power_largest
      → Unlinked e h (out_of_queue h.address e1)
      → (e' : DefaultEngine) × (free_unused h.address e1 ≡ some e') × Unlinked e h e'
  unfolding free_unused
  free_unused_lem e h e1 class u =
      elim (Bool-cases (((out_of_queue h.address e1).items h.address).refcount == 0)) [
        | inl unused ↦ (
          freed_engine h.address (out_of_queue h.address e1),
          rw (item_unlink_q_lem h.address e1 class, unused)
              (item_free_lem h.address (out_of_queue h.address e1) u.sound u.off
                ((==_iff _ 0).0 unused)),
          freed-Unlinked e h (out_of_queue h.address e1) (sym u.refcount ∙ (==_iff _ 0).0 unused) u,
        )
        | inr used ↦ (out_of_queue h.address e1, rw (item_unlink_q_lem h.address e1 class, used), u)
      ]

  module _ (e : DefaultEngine) (s : IsSound crc32c e) (h : HashItem)
      (found : chain_find h.key s.held ≡ some h) where
    holding : Holds (e.items h.address) h
    holding = All-chain_find (λ g. Holds (e.items g.address) g) h.key s.held s.holds found

    abbrev clsid : ℕ
    clsid = (e.items h.address).slabs_clsid

    abbrev taken : DefaultEngine
    taken = unlinked_item h.address (cut_item e.assoc (crc32c h.key) h.key) e

    abbrev unlinked : DefaultEngine
    unlinked = set_lru clsid (unqueue h.address (e.lru clsid)) taken

    unlinked-Frame : Frame h.address e unlinked
    unfolding set_lru set_assoc unlinked_item
    unlinked-Frame a ne = items-set_item_ne h.address _ e a ne

    changed_item :
        unlinked.items h.address ≡ (let i = e.items h.address in record i { linked = false })
    unfolding set_lru set_assoc unlinked_item
    changed_item = items-set_item_self h.address _ e

    apart : (g : HashItem) → Holds (e.items g.address) g → g.key ≢ h.key → g.address ≢ h.address
    apart g holds ne same =
        ne (sym holds.same_key ∙ ap (λ a. (e.items a).key) same ∙ holding.same_key)

    unlinked_queues : (c : ℕ) → All (λ a. Queued (unlinked.items a) c) (unlinked.lru c)
    unfolding set_lru set_assoc set_item unlinked_item
    unlinked_queues =
        set_lru_all (λ c queue. All (λ a. Queued (unlinked.items a) c) queue) clsid
          (unqueue h.address (e.lru clsid)) taken
          (All-map (unqueue h.address (e.lru clsid))
            (λ a both. subst (λ j. Queued j clsid) (sym (unlinked-Frame a both.1)) both.0)
            (All-unqueue (λ a. Queued (e.items a) clsid) h.address (e.lru clsid) (s.queued clsid)))
          (λ d ne.
            All-map (e.lru d)
              (λ a q.
                subst (λ j. Queued j d)
                  (sym (
                    unlinked-Frame a
                      (λ same. ne (sym q.1 ∙ ap (λ x. (e.items x).slabs_clsid) same))))
                  q)
              (s.queued d))

    unlinked-IsSound : IsSound crc32c unlinked
    unfolding set_lru set_assoc set_item unlinked_item
    unlinked-IsSound = record {
      held = chain_delete h.key s.held;
      represents = cut_item-Represents crc32c e.assoc s.held h.key {it = h} s.represents found;
      holds =
          All-map (chain_delete h.key s.held)
            (λ g both.
              subst (λ j. Holds j g) (sym (unlinked-Frame g.address (apart g both.0 both.1)))
                both.0)
            (All-zip (λ g. Holds (e.items g.address) g) (λ g. g.key ≢ h.key)
              (chain_delete h.key s.held)
              (All-chain_delete (λ g. Holds (e.items g.address) g) h.key s.held s.holds)
              (All-chain_delete_ne h.key s.held s.represents.once));
      queued = unlinked_queues;
    }

    unlinked-Unlinked : Unlinked e h unlinked
    unfolding set_lru set_assoc set_item unlinked_item
    unlinked-Unlinked =
        let table = cut_item-Represents crc32c e.assoc s.held h.key {it = h} s.represents found in
        record {
          sound = unlinked-IsSound;
          gone = table.same h.key ∙ chain_find-delete_self h.key s.held s.represents.once;
          kept = λ key ne.
              table.same key
              ∙ chain_find-delete_ne key h.key s.held ne
              ∙ sym (s.represents.same key);
          frame = unlinked-Frame;
          off = ap (λ i. i.linked) changed_item;
          refcount = ap (λ i. i.refcount) changed_item;
          cas_id = refl;
          oldest_live = refl;
          freed = λ used. refl;
        }

    same_class : (taken.items h.address).slabs_clsid ≡ clsid
    unfolding set_lru set_assoc unlinked_item
    same_class = ap (λ i. i.slabs_clsid) changed_item

    queue_left : Unlinked e h (out_of_queue h.address taken)
    unfolding unlinked_item set_assoc set_item
    queue_left =
        subst (λ c. Unlinked e h (set_lru c (unqueue h.address (e.lru c)) taken)) (sym same_class)
          unlinked-Unlinked

    pub do_item_unlink_lem :
        (e' : DefaultEngine) × (do_item_unlink crc32c h.address e ≡ some e') × Unlinked e h e'
    unfolding do_item_unlink take_out
    do_item_unlink_lem =
        let (e', freed, u) =
          free_unused_lem e h taken
            (subst (λ c. c < power_largest) (sym same_class) holding.in_class) queue_left in
        let deleted = assoc_delete_lem crc32c e.assoc s.held h.key {it = h} s.represents found in
        (e', ground (arith, holding.is_linked, holding.same_key), u)
