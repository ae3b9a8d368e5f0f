-- ===== src/Engine/Items/Delete.antt =====
-- default_item_delete of engines/default_engine/default_engine.c: a document is taken out, and its memory
-- is given back with the last reference.
use memcached.Engine.Assoc.{HashItem}
use memcached.Engine.Assoc.Valid.{look}
use memcached.Engine.Items.{handled_vbucket, DefaultEngine, is_dead, item_get_cas}
use memcached.Engine.Items.Calls.{item_get, delete_found, delete_got, default_item_delete}
use memcached.Engine.Items.Sound.{IsSound}
use memcached.Engine.Items.Unlink.{do_item_unlink_lem}
use memcached.Engine.Items.Get.{
  Doc, doc_of, doc_of-SameDoc, doc_at, content, get_live, held_as, holding,
}
use memcached.Engine.Items.Apart.{Apart, Frame-Apart, do_item_release-unlinked}
use memcached.Machine.{
  EngineErrorCode, engine_success, engine_key_enoent, engine_key_eexists, engine_not_my_vbucket,
}
use memcached.Common.{
  ℕ, ◌+◌, ◌-◌, ◌<◌, ◌^◌, ◌≡◌, ◌∙◌, ap, subst, ◌≢◌, Bool, true, false, ◌&&◌, ◌||◌, ◌==◌,
  if◌then◌else◌, Option, none, some, List, ◌∷◌, arith,
}

-- What the call answers, by the CAS value of the client and the document that is live under the key.
abbrev pub delete_outcome : ℕ → Option Doc → EngineErrorCode
delete_outcome cas none = engine_key_enoent
delete_outcome cas (some old) =
    if cas == 0 || cas == old.cas then engine_success else engine_key_eexists

-- The document that is left under the key.
abbrev pub not_deleted : ℕ → Option Doc → Option Doc
not_deleted cas none = none
not_deleted cas (some old) = if cas == 0 || cas == old.cas then none else some old

-- What default_item_delete answers, by whether the engine handles the vbucket, whether the key could be
-- copied, and the document that is live under it.
abbrev pub delete_answer : Bool → Bool → ℕ → Option Doc → EngineErrorCode
delete_answer handled key_created cas old =
    if handled
    then delete_outcome cas (if key_created then old else none)
    else engine_not_my_vbucket

-- The document that it leaves, where `stored` is the one that was under the key, live or dead.
abbrev pub delete_leaves : Bool → Bool → ℕ → Option Doc → Option Doc → Option Doc
delete_leaves handled key_created cas old stored =
    if handled && key_created then not_deleted cas old else stored

module _ (crc32c : List ℕ → ℕ) where
  -- The document under the key is the given one, and other keys and items are as before.
  pub record Left (key : List ℕ) (doc : Option Doc) (e e' : DefaultEngine) : Type 0 where
    pub sound : IsSound crc32c e'
    pub at_key : content crc32c e' key ≡ doc
    pub apart : Apart crc32c key e e'

  module _ (cas : ℕ) (key : List ℕ) (e : DefaultEngine) (s : IsSound crc32c e) (h : HashItem)
      (same : h.key ≡ key) (there : look crc32c e.assoc key ≡ some h) where
    abbrev Deletes : Type 0
    Deletes =
        (e' : DefaultEngine) × (delete_found crc32c cas h.address e
          ≡ some (delete_outcome cas (some (doc_of (e.items h.address))), e'))
        × Left key (not_deleted cas (some (doc_of (e.items h.address)))) e e'

    -- The item is linked, and has the key.
    at_address : ((e.items h.address).key ≡ key) × ((e.items h.address).linked ≡ true)
    at_address =
        let (at_key, _) = held_as crc32c 0 key e s h there in
        let holds = holding crc32c 0 key e s h at_key in (holds.same_key ∙ same, holds.is_linked)

    pub delete_done :
        (cas == 0 || cas == item_get_cas (e.items h.address)) ≡ true
        → (e' : DefaultEngine) × (delete_found crc32c cas h.address e ≡ some (engine_success, e'))
          × Left key none e e'
          × ((e.items h.address).refcount ≢ 0
              → e'.freed
                ≡ (if (e.items h.address).refcount - 1 == 0 then h.address ∷ e.freed else e.freed))
    unfolding delete_found
    delete_done matches =
        let (at_key, _) = held_as crc32c 0 key e s h there in
        let (e1, unlinked, u) = do_item_unlink_lem crc32c e s h at_key in
        let (e', released, r, freed) = do_item_release-unlinked crc32c h.address e1 u.sound u.off in
        (
          e',
          ground (arith, matches, unlinked, released),
          record {
            sound = r.sound;
            at_key =
                ap (λ a. doc_at e' (look crc32c a key)) r.table
                ∙ ap (doc_at e') (subst (λ k. look crc32c e1.assoc k ≡ none) same u.gone);
            apart =
                Frame-Apart crc32c h.address at_address.0 (λ a ne. r.frame a ne ∙ u.frame a ne)
                  (λ k ne. ap (λ a. look crc32c a k) r.table ∙ u.kept k (λ p. ne (p ∙ same)));
          },
          λ used.
              freed
              ∙ ap (λ n. if n - 1 == 0 then h.address ∷ e1.freed else e1.freed) u.refcount
              ∙ ap (λ l. if (e.items h.address).refcount - 1 == 0 then h.address ∷ l else l)
                  (u.freed used),
        )

  module _ (now cas : ℕ) (key : List ℕ) (e : DefaultEngine) where
    abbrev Answers : Option ℕ → DefaultEngine → Option Doc → Type 0
    Answers r e1 old =
        (e' : DefaultEngine) × (delete_got crc32c cas r e1 ≡ some (delete_outcome cas old, e'))
        × Left key (not_deleted cas old) e e'

    -- Let the default engine have linked items only in its table and lists, each one in its place,
    -- and handle the vbucket, let the key be copied, and let no other thread call in between the
    -- three calls of default_item_delete. Where a live item is deleted and its count of references
    -- is below 65535, its memory is given back once if nobody else holds a reference, and not at all
    -- if somebody does.
    pub freed-default_item_delete :
        (vbucket : ℕ)
        → handled_vbucket e vbucket ≡ true
        → IsSound crc32c e
        → (h : HashItem) → look crc32c e.assoc key ≡ some h
        → is_dead now e.oldest_live (e.items h.address) ≡ false
        → (cas == 0 || cas == item_get_cas (e.items h.address)) ≡ true
        → (e.items h.address).refcount + 1 < 2 ^ 16
        → (e' : DefaultEngine) × (default_item_delete crc32c true now key cas vbucket e
            ≡ some (engine_success, e'))
          × (e'.freed
              ≡ (if (e.items h.address).refcount == 0 then h.address ∷ e.freed else e.freed))
    unfolding default_item_delete item_get delete_got
    freed-default_item_delete vbucket active s h there alive matches few =
        let (e1, got, g, a, c) = get_live crc32c now key e s h there alive in
        let counted : (e1.items h.address).refcount ≡ (e.items h.address).refcount + 1 =
          omega (arith, c.refcount, few) in
        let same_cas =
          ap (λ d. d.cas) (doc_of-SameDoc crc32c (e.items h.address) (e1.items h.address) c.doc) in
        let (e', ran, l, freed) =
          delete_done cas key e1 a.sound h (held_as crc32c now key e s h there).1 c.there
            (rw same_cas matches) in
        (
          e',
          rw (active, got) ran,
          freed (omega (arith, counted)) ∙ ground (arith, counted, c.freed),
        )
