-- ===== src/Engine/Items/Store.antt =====
-- do_store_item of engines/default_engine/items.c: set, add, replace and CAS.
use memcached.Engine.Assoc.{HashItem}
use memcached.Engine.Assoc.Valid.{look}
use memcached.Engine.Items.{
  ◌>>=◌, DefaultEngine, StoreOperation, operation_add, operation_set, operation_replace,
  operation_cas, item_get_cas,
}
use memcached.Engine.Items.Calls.{store_action, release_old, do_store_item}
use memcached.Engine.Items.Sound.{IsSound}
use memcached.Engine.Items.Link.{IsNew}
use memcached.Engine.Items.Get.{
  Doc, doc_of, doc_at, content, live, Got, missing, found, Aside, do_item_get_lem,
}
use memcached.Engine.Items.Apart.{Aside-Apart, content-Apart}
use memcached.Machine.{
  EngineErrorCode, engine_success, engine_not_stored, engine_key_enoent, engine_key_eexists,
}
use memcached.Common.{
  ℕ, ◌≡◌, refl, sym, ap, subst, ◌≢◌, inl, inr, Bool, ◌==◌, if◌then◌else◌, Bool-cases, Option, none,
  some, List, arith,
}
use memcached.Engine.Items.Cases.{
  stored_doc, Leaves, same_item, link_in, leave, update_and_leave, replace,
}

-- What the four operations answer, by the CAS value of the new item and the document that is live under
-- the key.
abbrev pub outcome : StoreOperation → ℕ → Option Doc → EngineErrorCode
outcome operation_add cas (some old) = engine_not_stored
outcome operation_replace cas none = engine_not_stored
outcome operation_cas cas none = engine_key_enoent
outcome operation_cas cas (some old) = if cas == old.cas then engine_success else engine_key_eexists
outcome _ cas _ = engine_success

-- The document that is left under the key.
abbrev pub left_doc : EngineErrorCode → Doc → Option Doc → Option Doc
left_doc engine_success new old = some new
left_doc _ new old = old

module _ (crc32c : List ℕ → ℕ) (allocated started : Bool) (now it : ℕ) (e : DefaultEngine)
    (new : IsNew (e.items it)) where
  abbrev key : List ℕ
  key = (e.items it).key

  abbrev Answers : StoreOperation → Option ℕ → DefaultEngine → Option Doc → Type 0
  Answers operation old_it e1 old =
      (e' : DefaultEngine) × ((store_action crc32c allocated started now it operation old_it e1
          >>= λ r. release_old old_it r)
        ≡ some (outcome operation (item_get_cas (e.items it)) old, e'))
      × Leaves crc32c allocated started now it e new
          (left_doc (outcome operation (item_get_cas (e.items it)) old) (stored_doc now it e) old)
          e'

  Leaves-none :
      (e1 : DefaultEngine)
      → Aside crc32c key e e1
      → look crc32c e1.assoc key ≡ none
      → Leaves crc32c allocated started now it e new none e1
  Leaves-none e1 a free = record {
    sound = a.sound;
    at_key = ap (doc_at e1) free;
    apart = Aside-Apart crc32c a;
  }

  answer_missing :
      (operation : StoreOperation) (e1 : DefaultEngine)
      → Aside crc32c key e e1
      → look crc32c e1.assoc key ≡ none
      → Answers operation none e1 none
  unfolding store_action release_old
  answer_missing operation_replace e1 a free = (e1, refl, Leaves-none e1 a free)
  answer_missing operation_cas e1 a free = (e1, refl, Leaves-none e1 a free)
  answer_missing operation_add e1 a free =
      let (e2, ran, l, there, frame) =
        link_in crc32c allocated started now it e new e1 a e1 a.sound (Aside-Apart crc32c a)
          (same_item crc32c allocated started now it e new e1 a) a.cas_id free in
      (e2, ground (arith, ran), l)
  answer_missing operation_set e1 a free =
      let (e2, ran, l, there, frame) =
        link_in crc32c allocated started now it e new e1 a e1 a.sound (Aside-Apart crc32c a)
          (same_item crc32c allocated started now it e new e1 a) a.cas_id free in
      (e2, ground (arith, ran), l)

  answer_found :
      (operation : StoreOperation) (e1 : DefaultEngine) (h : HashItem)
      → Aside crc32c key e e1
      → h.key ≡ key
      → look crc32c e1.assoc key ≡ some h
      → Answers operation (some h.address) e1 (some (doc_of (e1.items h.address)))
  unfolding store_action release_old
  answer_found operation_add e1 h a same there =
      let (e2, e3, updated, released, l) =
        update_and_leave crc32c allocated started now it e new e1 a h same there in
      (e3, ground (arith, updated, released), l)
  answer_found operation_set e1 h a same there =
      let (e2, e3, replaced, released, l) =
        replace crc32c allocated started now it e new e1 a h same there in
      (e3, ground (arith, replaced, released), l)
  answer_found operation_replace e1 h a same there =
      let (e2, e3, replaced, released, l) =
        replace crc32c allocated started now it e new e1 a h same there in
      (e3, ground (arith, replaced, released), l)
  answer_found operation_cas e1 h a same there =
      elim (Bool-cases (item_get_cas (e.items it) == item_get_cas (e1.items h.address))) [
        | inl matches ↦
            let (e2, e3, replaced, released, l) =
              replace crc32c allocated started now it e new e1 a h same there in
            (
              e3,
              ground (
                arith,
                same_item crc32c allocated started now it e new e1 a,
                matches,
                replaced,
                released,
              ),
              rw matches l,
            )
        | inr other ↦
            let (e2, released, l) = leave crc32c allocated started now it e new e1 a h same there in
            (
              e2,
              ground (arith, same_item crc32c allocated started now it e new e1 a, other, released),
              rw other l,
            )
      ]

  answer :
      (operation : StoreOperation) (r : Option ℕ) (e1 : DefaultEngine)
      → Got crc32c now key e r e1
      → Aside crc32c key e e1
      → Answers operation r e1 (live crc32c now e key)
  answer operation none e1 (missing dead free) a =
      subst (Answers operation none e1) (sym dead) (answer_missing operation e1 a free)
  answer operation _ e1 (found h same alive there) a =
      subst (Answers operation (some h.address) e1) (sym alive)
        (answer_found operation e1 h a same there)

  -- Let the hash table and the lists of the default engine have linked items only, each one in its
  -- place, and let an item be filled in, not linked yet and of a slab class. Storing it by add, set,
  -- replace or CAS fails no assertion, leaves the engine so, and answers by the document that is
  -- live under its key. Where it answers success, its document with the next CAS value is under the
  -- key, else the live one, if any; documents under other keys stay.
  pub do_store_item_lem :
      (operation : StoreOperation)
      → IsSound crc32c e
      → (e' : DefaultEngine) × (do_store_item crc32c allocated started now it operation e
          ≡ some (outcome operation (item_get_cas (e.items it)) (live crc32c now e key), e'))
        × IsSound crc32c e'
        × (content crc32c e' key
            ≡ left_doc
                (outcome operation (item_get_cas (e.items it)) (live crc32c now e key))
                (stored_doc now it e)
                (live crc32c now e key))
        × ((k : List ℕ) → k ≢ key → content crc32c e' k ≡ content crc32c e k)
  unfolding do_store_item
  do_store_item_lem operation s =
      let (r, e1, got, g, a) = do_item_get_lem crc32c now key e s in
      let (e', ran, l) = answer operation r e1 g a in
      (e', rw got ran, l.sound, l.at_key, content-Apart crc32c key e e' s l.apart)
