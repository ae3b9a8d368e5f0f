-- ===== src/Engine/Items/Calls.antt =====
-- The calls on the items of engines/default_engine/items.c that look into the hash table.
use memcached.Machine.{
  EngineErrorCode, engine_success, engine_not_stored, engine_key_enoent, engine_key_eexists,
  engine_not_my_vbucket,
}
use memcached.Engine.Assoc.{assoc_find, assoc_insert, assoc_delete}
use memcached.Common.{◌||◌, ℕ, Bool, not, ◌&&◌, ◌==◌, if◌then◌else◌, Option, none, some, List}
use memcached.Engine.Items.{
  ◌>>=◌, assert, item_get_cas, item_link_q, mark_linked, count_linked, unlinked_item, free_unused,
  do_item_release, do_item_update, is_dead, handled_vbucket, take_reference, DefaultEngine,
  StoreOperation, operation_add, operation_replace, operation_cas,
}

-- The end of do_store_item.
unfoldable pub release_old :
    Option ℕ → EngineErrorCode × DefaultEngine → Option (EngineErrorCode × DefaultEngine)
release_old none r = some r
release_old (some old_it) (stored, e) = do_item_release old_it e >>= λ e'. some (stored, e')

module _ (crc32c : List ℕ → ℕ) where
  -- do_item_link; the two answers are those of the allocator and of the thread library, where the table
  -- grows.
  unfoldable pub do_item_link : Bool → Bool → ℕ → ℕ → DefaultEngine → Option DefaultEngine
  do_item_link allocated started now it e =
      let i = e.items it in
      assert (not i.linked && not i.slabbed) (mark_linked now it e) >>= λ e'.
      assoc_insert allocated started e'.assoc (crc32c i.key) (record { address = it; key = i.key })
      >>= λ a. item_link_q it (count_linked it a e')

  -- do_item_unlink, where the item is linked.
  unfoldable pub take_out : ℕ → DefaultEngine → Option DefaultEngine
  take_out it e =
      let i = e.items it in
      assoc_delete e.assoc (crc32c i.key) i.key >>= λ a. free_unused it (unlinked_item it a e)

  unfoldable pub do_item_unlink : ℕ → DefaultEngine → Option DefaultEngine
  do_item_unlink it e = if (e.items it).linked then take_out it e else some e

  -- do_item_replace
  unfoldable pub do_item_replace : Bool → Bool → ℕ → ℕ → ℕ → DefaultEngine → Option DefaultEngine
  do_item_replace allocated started now it new_it e = assert (not (e.items it).slabbed) e >>= λ e'.
      do_item_unlink it e' >>= λ e''. do_item_link allocated started now new_it e''

  -- The end of do_item_get, on an item that is not dead.
  unfoldable pub got_item : ℕ → ℕ → DefaultEngine → Option (Option ℕ × DefaultEngine)
  got_item now it e = do_item_update now it (take_reference it e) >>= λ e'. some (some it, e')

  unfoldable pub got_dead : ℕ → DefaultEngine → Option (Option ℕ × DefaultEngine)
  got_dead it e = do_item_unlink it e >>= λ e'. some (none, e')

  unfoldable pub do_item_get : ℕ → List ℕ → DefaultEngine → Option (Option ℕ × DefaultEngine)
  do_item_get now key e = elim (assoc_find e.assoc (crc32c key) key) [
    | none ↦ some (none, e)
    | some h ↦
        if is_dead now e.oldest_live (e.items h.address)
        then got_dead h.address e
        else got_item now h.address e
  ]

  -- The chain of tests in do_store_item: the result, and what is done to store.
  unfoldable pub store_action :
      Bool
      → Bool
      → ℕ
      → ℕ
      → StoreOperation
      → Option ℕ
      → DefaultEngine
      → Option (EngineErrorCode × DefaultEngine)
  store_action allocated started now it operation_add (some old_it) e =
      do_item_update now old_it e >>= λ e'. some (engine_not_stored, e')
  store_action allocated started now it operation_replace none e = some (engine_not_stored, e)
  store_action allocated started now it operation_cas none e = some (engine_key_enoent, e)
  store_action allocated started now it operation_cas (some old_it) e =
      let replaced =
        do_item_replace allocated started now old_it it e >>= λ e'. some (engine_success, e') in
      if item_get_cas (e.items it) == item_get_cas (e.items old_it)
      then replaced
      else some (engine_key_eexists, e)
  store_action allocated started now it _ (some old_it) e =
      do_item_replace allocated started now old_it it e >>= λ e'. some (engine_success, e')
  store_action allocated started now it _ none e =
      do_item_link allocated started now it e >>= λ e'. some (engine_success, e')

  unfoldable pub do_store_item :
      Bool
      → Bool
      → ℕ
      → ℕ
      → StoreOperation
      → DefaultEngine
      → Option (EngineErrorCode × DefaultEngine)
  do_store_item allocated started now it operation e =
      do_item_get now (e.items it).key e >>= λ (old_it, e').
      store_action allocated started now it operation old_it e' >>= λ r. release_old old_it r

  -- item_get; the answer is that of hash_key_create, which may find no memory for the key's copy.
  unfoldable pub item_get : Bool → ℕ → List ℕ → DefaultEngine → Option (Option ℕ × DefaultEngine)
  item_get key_created now key e = if key_created then do_item_get now key e else some (none, e)

  -- default_item_delete of default_engine.c where no other thread calls in between its item_get,
  -- item_unlink and item_release, which each take the lock. The CAS value is 0 where the client names none.
  unfoldable pub delete_found : ℕ → ℕ → DefaultEngine → Option (EngineErrorCode × DefaultEngine)
  delete_found cas it e =
      let deleted =
        do_item_unlink it e >>= λ e'. do_item_release it e' >>= λ e''. some (engine_success, e'') in
      let kept = do_item_release it e >>= λ e'. some (engine_key_eexists, e') in
      if cas == 0 || cas == item_get_cas (e.items it) then deleted else kept

  unfoldable pub delete_got :
      ℕ → Option ℕ → DefaultEngine → Option (EngineErrorCode × DefaultEngine)
  delete_got cas none e = some (engine_key_enoent, e)
  delete_got cas (some it) e = delete_found cas it e

  unfoldable pub default_item_delete :
      Bool → ℕ → List ℕ → ℕ → ℕ → DefaultEngine → Option (EngineErrorCode × DefaultEngine)
  default_item_delete key_created now key cas vbucket e =
      let deleted = item_get key_created now key e >>= λ (it, e'). delete_got cas it e' in
      if handled_vbucket e vbucket then deleted else some (engine_not_my_vbucket, e)
