-- ===== src/Engine/Items/Update.antt =====
-- The place of an item in its list: do_item_update of engines/default_engine/items.c.
use memcached.Engine.Items.{
  ◌>>=◌, DefaultEngine, power_largest, item_update_interval, set_item, set_lru, is_head, unqueue,
  item_link_q, item_unlink_q, do_item_update,
}
use memcached.Engine.Items.Sound.{
  Queued, IsSound, set_lru_all, lru-set_lru_self, All-map, All-unqueue, is_head-false,
  items-set_item_self,
}
use memcached.Engine.Items.Unlink.{out_of_queue, item_unlink_q_lem}
use memcached.Engine.Items.Link.{in_queue, item_link_q_lem}
use memcached.Common.{
  ℕ, ◌+◌, ◌-◌, ◌%◌, ◌^◌, ◌<◌, ◌≡◌, refl, sym, ◌∙◌, ap, subst, ◌≢◌, inl, inr, true, false, ltb,
  Bool-cases, some, List, ◌∷◌, All, arith,
}
use memcached.Engine.Items.Touched.{SameDoc-of, Touched, Touched-trans, set_item-Touched}

module _ (crc32c : List ℕ → ℕ) where
  out_of_queue-Touched :
      (it : ℕ) (e : DefaultEngine) → IsSound crc32c e → Touched crc32c it e (out_of_queue it e)
  unfolding set_lru
  out_of_queue-Touched it e s = record {
    sound = record {
      held = s.held;
      represents = s.represents;
      holds = s.holds;
      queued =
          set_lru_all (λ c queue. All (λ a. Queued (e.items a) c) queue) (e.items it).slabs_clsid
            (unqueue it (e.lru (e.items it).slabs_clsid)) e
            (All-map (unqueue it (e.lru (e.items it).slabs_clsid)) (λ a both. both.0)
              (All-unqueue (λ a. Queued (e.items a) (e.items it).slabs_clsid) it
                (e.lru (e.items it).slabs_clsid) (s.queued (e.items it).slabs_clsid)))
            (λ d ne. s.queued d);
    };
    table = refl;
    frame = λ a ne. refl;
    doc = SameDoc-of (e.items it) (e.items it).time (e.items it).refcount;
    cas_id = refl;
    oldest_live = refl;
    freed = refl;
  }

  in_queue-Touched :
      (it : ℕ) (e : DefaultEngine)
      → IsSound crc32c e
      → (e.items it).linked ≡ true
      → Touched crc32c it e (in_queue it e)
  unfolding set_lru
  in_queue-Touched it e s on = record {
    sound = record {
      held = s.held;
      represents = s.represents;
      holds = s.holds;
      queued =
          set_lru_all (λ c queue. All (λ a. Queued (e.items a) c) queue) (e.items it).slabs_clsid
            (it ∷ e.lru (e.items it).slabs_clsid) e ((on, refl), s.queued (e.items it).slabs_clsid)
            (λ d ne. s.queued d);
    };
    table = refl;
    frame = λ a ne. refl;
    doc = SameDoc-of (e.items it) (e.items it).time (e.items it).refcount;
    cas_id = refl;
    oldest_live = refl;
    freed = refl;
  }

  module _ (now it : ℕ) (e : DefaultEngine) (s : IsSound crc32c e) (on : (e.items it).linked ≡ true)
      (class : (e.items it).slabs_clsid < power_largest) (kept : (e.items it).slabbed ≡ false) where
    abbrev retimed : DefaultEngine
    retimed = set_item it (let i = e.items it in record i { time = now }) (out_of_queue it e)

    retimed-Touched : Touched crc32c it e retimed
    unfolding set_lru
    retimed-Touched =
        let out = out_of_queue-Touched it e s in
        Touched-trans crc32c out (
          set_item-Touched crc32c it _ (out_of_queue it e) out.sound
            (SameDoc-of (e.items it) now (e.items it).refcount))

    -- The item is the head of no list when it is queued again.
    retimed_behind : is_head it (retimed.lru (retimed.items it).slabs_clsid) ≡ false
    unfolding set_item
    retimed_behind =
        subst (λ c. is_head it (retimed.lru c) ≡ false) (sym (retimed-Touched.doc.slabs_clsid))
          (ap (is_head it) (
              lru-set_lru_self (e.items it).slabs_clsid
                (unqueue it (e.lru (e.items it).slabs_clsid)) e)
            ∙ is_head-false it (unqueue it (e.lru (e.items it).slabs_clsid)) others)
      where
        others : All (λ a. a ≢ it) (unqueue it (e.lru (e.items it).slabs_clsid))
        others =
            All-map (unqueue it (e.lru (e.items it).slabs_clsid)) (λ a both. both.1)
              (All-unqueue (λ a. Queued (e.items a) (e.items it).slabs_clsid) it
                (e.lru (e.items it).slabs_clsid) (s.queued (e.items it).slabs_clsid))

    requeued_lem :
        (item_unlink_q it e >>= λ e'.
        item_link_q it (set_item it (let i = e.items it in record i { time = now }) e'))
        ≡ some (in_queue it retimed)
    requeued_lem =
        let t = retimed-Touched in
        rw (item_unlink_q_lem it e class) (
          item_link_q_lem it retimed (subst (λ c. c < power_largest) (sym t.doc.slabs_clsid) class)
            (t.doc.slabbed ∙ kept) retimed_behind)

    retimed_refcount : ((in_queue it retimed).items it).refcount ≡ (e.items it).refcount
    unfolding set_lru
    retimed_refcount = ap (λ i. i.refcount) (items-set_item_self it _ (out_of_queue it e))

    pub do_item_update_lem :
        (e' : DefaultEngine) × (do_item_update now it e ≡ some e')
        × Touched crc32c it e e'
        × ((e'.items it).refcount ≡ (e.items it).refcount)
    unfolding do_item_update
    do_item_update_lem =
        elim (Bool-cases (ltb (e.items it).time ((now + 2 ^ 32 - item_update_interval) % 2 ^ 32))) [
          | inl late ↦
              let t = retimed-Touched in
              (
                in_queue it retimed,
                ground (arith, requeued_lem),
                Touched-trans crc32c t (in_queue-Touched it retimed t.sound (t.doc.linked ∙ on)),
                retimed_refcount,
              )
          | inr recent ↦ (
            e,
            ground arith,
            record {
              sound = s;
              table = refl;
              frame = λ a ne. refl;
              doc = SameDoc-of (e.items it) (e.items it).time (e.items it).refcount;
              cas_id = refl;
              oldest_live = refl;
              freed = refl;
            },
            refl,
          )
        ]
