-- ===== src/Examples/Storing.antt =====
-- The theorems on the default engine: a small table that grows, and a CAS on a stored document.
use memcached.Engine.Assoc.{
  HashItem, Assoc, assoc_consruct, put_item, hashsize, chain_find, same_hash_key, is_full,
  count_items, set_chain, assoc_expand,
}
use memcached.Engine.Assoc.Represents.{Represents, put_item-Represents}
use memcached.Engine.Assoc.Refines.{
  Op, insert, delete, find, maintenance, on_table, on_list, run_from, Agree, assoc_run_refines,
  assoc_consruct-Represents,
}
use memcached.Engine.Assoc.Expansion.{Settles, expansion-Settles}
use memcached.Engine.Items.{
  Item, DefaultEngine, operation_cas, is_dead, handled_vbucket, item_get_cas,
}
use memcached.Engine.Items.Calls.{do_store_item, default_item_delete}
use memcached.Engine.Items.Sound.{Queued, IsSound}
use memcached.Engine.Items.Link.{IsNew}
use memcached.Engine.Items.Get.{content, live}
use memcached.Engine.Items.Store.{outcome, left_doc, do_store_item_lem}
use memcached.Engine.Items.Cases.{stored_doc}
use memcached.Engine.Items.Delete.{freed-default_item_delete}
use memcached.Machine.{engine_success}
use memcached.Common.{
  ℕ, ◌+◌, ◌≡◌, refl, sym, ==_iff, ◌≢◌, true, false, ◌==◌, if◌then◌else◌, if_ind, some, List, [],
  ◌∷◌, All, arith, ◌≤◌, ◌-◌,
}

-- A hash of one byte.
abbrev first_byte : List ℕ → ℕ
first_byte [] = 0
first_byte (x ∷ xs) = x

abbrev item_a : HashItem
item_a = record { address = 1; key = 0x61 ∷ [] }

abbrev item_b : HashItem
item_b = record { address = 2; key = 0x62 ∷ [] }

-- The second item makes the table grow.
abbrev calls : List Op
calls =
    insert true true item_a
    ∷ insert true true item_b
    ∷ maintenance 1
    ∷ delete (0x61 ∷ [])
    ∷ find (0x62 ∷ [])
    ∷ []

assoc_run_refines_example :
    Agree first_byte
      (run_from (on_table first_byte) calls (assoc_consruct 0) [])
      (run_from on_list calls [] [])
assoc_run_refines_example = assoc_run_refines first_byte 0 calls

abbrev grown : Assoc
grown = put_item true true (put_item true true (assoc_consruct 0) 0x61 item_a) 0x62 item_b

grown-Represents : Represents first_byte grown (item_b ∷ item_a ∷ [])
unfolding chain_find same_hash_key
grown-Represents =
    put_item-Represents first_byte true true (put_item true true (assoc_consruct 0) 0x61 item_a)
      (item_a ∷ []) item_b
      (put_item-Represents first_byte true true (assoc_consruct 0) [] item_a
        (assoc_consruct-Represents first_byte 0) refl)
      refl

enough : hashsize (grown.hashpower - 1) ≤ grown.expand_bucket + 1
unfolding put_item is_full count_items set_chain assoc_consruct assoc_expand hashsize
enough = omega arith

expansion-Settles_example : Settles first_byte grown (find (0x61 ∷ []) ∷ maintenance 1 ∷ [])
expansion-Settles_example =
    expansion-Settles first_byte (find (0x61 ∷ []) ∷ maintenance 1 ∷ []) grown
      (item_b ∷ item_a ∷ []) grown-Represents enough

-- Address 1 holds a document that is stored, and the others new ones under the same key.
abbrev old_item : Item
old_item = record {
  time = 100;
  exptime = 0;
  flags = 0;
  with_cas = true;
  linked = true;
  slabbed = false;
  refcount = 0;
  slabs_clsid = 1;
  datatype = 0;
  cas = 7;
  key = 0x61 ∷ [];
  value = 0x31 ∷ [];
}

abbrev new_item : Item
new_item = record old_item { linked = false; refcount = 1; value = 0x32 ∷ [] }

abbrev engine : DefaultEngine
engine = record {
  assoc = put_item true true (assoc_consruct 16) 0x61 item_a;
  items = λ a. if a == 1 then old_item else new_item;
  lru = λ c. if c == 1 then 1 ∷ [] else [];
  cas_id = 7;
  oldest_live = 0;
  curr_items = 1;
  total_items = 1;
  freed = [];
  ignore_vbucket = false;
  vbucket_state = λ v. if v == 3 then 1 else 0;
}

engine-Represents : Represents first_byte engine.assoc (item_a ∷ [])
unfolding chain_find
engine-Represents =
    put_item-Represents first_byte true true (assoc_consruct 16) [] item_a
      (assoc_consruct-Represents first_byte 16) refl

engine-IsSound : IsSound first_byte engine
engine-IsSound = record {
  held = item_a ∷ [];
  represents = engine-Represents;
  holds = (
    record { same_key = refl; is_linked = refl; not_slabbed = refl; in_class = omega arith },
    tt,
  );
  queued = λ c. queued c;
}
  where
    queued : (c : ℕ) → All (λ a. Queued (engine.items a) c) (engine.lru c)
    queued c =
        if_ind (All (λ a. Queued (engine.items a) c)) (c == 1) (1 ∷ []) []
          (λ first. ((refl, sym ((==_iff c 1).0 first)), tt)) (λ other. tt)

engine-IsNew : IsNew (engine.items 2)
engine-IsNew = record { unlinked = refl; unslabbed = refl; class = omega arith }

do_store_item_lem_example :
    (e' : DefaultEngine) × (do_store_item first_byte true true 120 2 operation_cas engine
      ≡ some (
        outcome operation_cas (item_get_cas new_item) (live first_byte 120 engine (0x61 ∷ [])),
        e',
      ))
    × IsSound first_byte e'
    × (content first_byte e' (0x61 ∷ [])
        ≡ left_doc
            (outcome operation_cas (item_get_cas new_item) (live first_byte 120 engine (0x61 ∷ [])))
            (stored_doc 120 2 engine)
            (live first_byte 120 engine (0x61 ∷ [])))
    × ((k : List ℕ) → k ≢ 0x61 ∷ [] → content first_byte e' k ≡ content first_byte engine k)
do_store_item_lem_example =
    do_store_item_lem first_byte true true 120 2 engine engine-IsNew operation_cas engine-IsSound

freed-default_item_delete_example :
    (e' : DefaultEngine) × (default_item_delete first_byte true 120 (0x61 ∷ []) 7 3 engine
      ≡ some (engine_success, e'))
    × (e'.freed ≡ (if 0 == 0 then 1 ∷ [] else []))
unfolding chain_find same_hash_key is_dead item_get_cas handled_vbucket
freed-default_item_delete_example =
    freed-default_item_delete first_byte 120 7 (0x61 ∷ []) engine 3 refl engine-IsSound item_a
      (engine-Represents.same (0x61 ∷ [])) refl refl (omega arith)
