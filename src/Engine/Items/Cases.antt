-- ===== src/Engine/Items/Cases.antt =====
-- What do_store_item of engines/default_engine/items.c may do with a new item and the one under its key.
use memcached.Engine.Assoc.{HashItem, chain_find}
use memcached.Engine.Assoc.Valid.{look}
use memcached.Engine.Items.{DefaultEngine, do_item_update, do_item_release}
use memcached.Engine.Items.Calls.{do_item_link, do_item_replace}
use memcached.Engine.Items.Sound.{Holds, IsSound, Frame, All-chain_find}
use memcached.Engine.Items.Unlink.{do_item_unlink_lem}
use memcached.Engine.Items.Link.{IsNew, linked_as, do_item_link_lem}
use memcached.Engine.Items.Touched.{Touched, Touched-trans, do_item_release-linked}
use memcached.Engine.Items.Update.{do_item_update_lem}
use memcached.Engine.Items.Get.{Doc, doc_of, doc_at, content, Aside, doc_of-SameDoc}
use memcached.Engine.Items.Apart.{
  Apart, Apart-trans, Aside-Apart, Frame-Apart, do_item_release-unlinked,
}
use memcached.Common.{
  ℕ, ◌+◌, ◌%◌, ◌^◌, ◌≡◌, sym, ◌∙◌, ap, subst, ◌≢◌, Bool, false, Option, none, some, List, arith,
}

-- The document that is stored, with the next CAS value.
abbrev pub stored_doc : ℕ → ℕ → DefaultEngine → Doc
stored_doc now it e = doc_of (linked_as now ((e.cas_id + 1) % 2 ^ 64) (e.items it))

module _ (crc32c : List ℕ → ℕ) (allocated started : Bool) (now it : ℕ) (e : DefaultEngine)
    (new : IsNew (e.items it)) where
  abbrev key : List ℕ
  key = (e.items it).key

  -- The key has the document, if any; other keys have theirs.
  pub record Leaves (result : Option Doc) (e' : DefaultEngine) : Type 0 where
    pub sound : IsSound crc32c e'
    pub at_key : content crc32c e' key ≡ result
    pub apart : Apart crc32c key e e'

  module _ (e1 : DefaultEngine) (a : Aside crc32c key e e1) where
    pub same_item : e1.items it ≡ e.items it
    same_item = a.items it (λ same. new.unlinked)

    same_key : (e1.items it).key ≡ key
    same_key = ap (λ i. i.key) same_item

    still-IsNew : IsNew (e1.items it)
    still-IsNew = subst IsNew (sym same_item) new

    -- The item is linked in a state in which the key is free.
    pub link_in :
        (e2 : DefaultEngine)
        → IsSound crc32c e2
        → Apart crc32c key e e2
        → e2.items it ≡ e.items it
        → e2.cas_id ≡ e.cas_id
        → look crc32c e2.assoc key ≡ none
        → (e3 : DefaultEngine) × (do_item_link crc32c allocated started now it e2 ≡ some e3)
          × Leaves (some (stored_doc now it e)) e3
          × (look crc32c e3.assoc key ≡ some (record { address = it; key = key }))
          × Frame it e2 e3
    link_in e2 s2 apart same_item2 same_cas free =
        let s2_free : chain_find (e2.items it).key s2.held ≡ none =
          sym (s2.represents.same (e2.items it).key)
          ∙ ap (λ i. look crc32c e2.assoc i.key) same_item2
          ∙ free in
        let (e3, ran, l) =
          do_item_link_lem crc32c allocated started now it e2 s2 (subst IsNew (sym same_item2) new)
            s2_free in
        let there : look crc32c e3.assoc key ≡ some (record { address = it; key = key }) =
          subst (λ i. look crc32c e3.assoc i.key ≡ some (record { address = it; key = i.key }))
            same_item2 l.there in
        (
          e3,
          ran,
          record {
            sound = l.sound;
            at_key =
                ap (doc_at e3) there
                ∙ ap (λ i. some (doc_of i))
                    (l.item
                      ∙ ap (λ n. linked_as now ((n + 1) % 2 ^ 64) (e2.items it)) same_cas
                      ∙ ap (linked_as now ((e.cas_id + 1) % 2 ^ 64)) same_item2);
            apart = Apart-trans crc32c apart (
                Frame-Apart crc32c it (ap (λ i. i.key) same_item2) l.frame
                  (λ k ne. l.kept k (λ p. ne (p ∙ ap (λ i. i.key) same_item2))));
          },
          there,
          l.frame,
        )

    -- The item under the key is there already.
    module _ (h : HashItem) (same : h.key ≡ key) (there : look crc32c e1.assoc key ≡ some h) where
      at_key : chain_find h.key a.sound.held ≡ some h
      at_key = ap (λ k. chain_find k a.sound.held) same ∙ sym (a.sound.represents.same key) ∙ there

      holds : Holds (e1.items h.address) h
      holds =
          All-chain_find (λ g. Holds (e1.items g.address) g) h.key a.sound.held a.sound.holds at_key

      other_item : it ≢ h.address
      other_item p = cc (ap (λ x. (e1.items x).linked) p, holds.is_linked, still-IsNew.unlinked)

      key_before : (x : ℕ) → (e.items x).key ≢ key → x ≢ h.address
      key_before x ne p = ne (
          sym (ap (λ i. i.key) (a.items x (λ q. absurd (ne q))))
          ∙ ap (λ y. (e1.items y).key) p
          ∙ holds.same_key
          ∙ same)

      Touched-Leaves :
          (e2 : DefaultEngine)
          → Touched crc32c h.address e1 e2
          → Leaves (some (doc_of (e1.items h.address))) e2
      Touched-Leaves e2 t = record {
        sound = t.sound;
        at_key =
            ap (λ table. doc_at e2 (look crc32c table key)) t.table
            ∙ ap (doc_at e2) there
            ∙ ap some (doc_of-SameDoc crc32c (e1.items h.address) (e2.items h.address) t.doc);
        apart = Apart-trans crc32c (Aside-Apart crc32c a) (record {
          looks = λ k ne. ap (λ table. look crc32c table k) t.table;
          items =
              λ x ne. t.frame x (λ p. ne (ap (λ y. (e1.items y).key) p ∙ holds.same_key ∙ same));
        });
      }

      -- Nothing is done but to give the reference back.
      pub leave :
          (e2 : DefaultEngine) × (do_item_release h.address e1 ≡ some e2)
          × Leaves (some (doc_of (e1.items h.address))) e2
      leave =
          let (e2, ran, t) = do_item_release-linked crc32c h.address e1 a.sound holds.is_linked in
          (e2, ran, Touched-Leaves e2 t)

      pub update_and_leave :
          (e2 e3 : DefaultEngine) × (do_item_update now h.address e1 ≡ some e2)
          × (do_item_release h.address e2 ≡ some e3)
          × Leaves (some (doc_of (e1.items h.address))) e3
      update_and_leave =
          let (e2, updated, t, refs) =
            do_item_update_lem crc32c now h.address e1 a.sound holds.is_linked holds.in_class
              holds.not_slabbed in
          let (e3, ran, t') =
            do_item_release-linked crc32c h.address e2 t.sound (t.doc.linked ∙ holds.is_linked) in
          (e2, e3, updated, ran, Touched-Leaves e3 (Touched-trans crc32c t t'))

      -- The item takes the place of the one under the key, which is released.
      pub replace :
          (e3 e4 : DefaultEngine) × (do_item_replace crc32c allocated started now h.address it e1
            ≡ some e3)
          × (do_item_release h.address e3 ≡ some e4)
          × Leaves (some (stored_doc now it e)) e4
      unfolding do_item_replace
      replace =
          let (e2, unlinked, u) = do_item_unlink_lem crc32c e1 a.sound h at_key in
          let free = subst (λ k. look crc32c e2.assoc k ≡ none) same u.gone in
          let apart2 : Apart crc32c key e e2 = Apart-trans crc32c (Aside-Apart crc32c a) (
            Frame-Apart crc32c h.address (holds.same_key ∙ same) u.frame
              (λ k ne. u.kept k (λ p. ne (p ∙ same)))) in
          let (e3, linked, l, there3, frame3) =
            link_in e2 u.sound apart2 (u.frame it other_item ∙ same_item) (u.cas_id ∙ a.cas_id)
              free in
          let off : (e3.items h.address).linked ≡ false =
            ap (λ i. i.linked) (frame3 h.address (λ p. other_item (sym p))) ∙ u.off in
          let (e4, released, r, freed) = do_item_release-unlinked crc32c h.address e3 l.sound off in
          (
            e3,
            e4,
            ground (arith, holds.not_slabbed, unlinked, linked),
            released,
            record {
              sound = r.sound;
              at_key =
                  ap (λ table. doc_at e4 (look crc32c table key)) r.table
                  ∙ ap (doc_at e4) there3
                  ∙ ap (λ i. some (doc_of i)) (r.frame it other_item)
                  ∙ sym (ap (doc_at e3) there3)
                  ∙ l.at_key;
              apart = record {
                looks = λ k ne. ap (λ table. look crc32c table k) r.table ∙ l.apart.looks k ne;
                items = λ x ne. r.frame x (key_before x ne) ∙ l.apart.items x ne;
              };
            },
          )
