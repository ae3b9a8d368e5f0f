-- ===== src/Engine/Items.antt =====
-- The items of the default engine: engines/default_engine/items.c and items.h, on the hash table of
-- assoc.c. An item is an address; the least-recently-used lists are lists of addresses, the head first.
-- What is done under the lock of the items is one call, in which the clock stands. A result of `none` is
-- a failed assertion. No bucket is being deleted (force_delete); the statistics count items, not bytes.
pub mod Calls
pub mod Sound
pub mod Unlink
pub mod Link
pub mod Touched
pub mod Update
pub mod Get
pub mod Apart
pub mod Cases
pub mod Store
pub mod Delete
use memcached.Engine.Assoc.{Assoc, HashItem, assoc_find, assoc_insert, assoc_delete}
use memcached.Common.{
  ℕ, ◌+◌, ◌-◌, ◌%◌, ◌^◌, Bool, true, false, not, ◌&&◌, ◌||◌, ltb, leb, ◌==◌, ◌!=◌, if◌then◌else◌,
  Option, none, some, List, [], ◌∷◌, length,
}

-- A hash_item with the CAS value, the key and the data behind it; the bits of `iflag` are three fields.
pub record Item : Type 0 where
  pub time : ℕ
  pub exptime : ℕ
  pub flags : ℕ
  pub with_cas : Bool
  pub linked : Bool
  pub slabbed : Bool
  pub refcount : ℕ
  pub slabs_clsid : ℕ
  pub datatype : ℕ
  pub cas : ℕ
  pub key : List ℕ
  pub value : List ℕ

-- `cas_id` is the static variable of get_cas_id; `freed` are the calls of slabs_free, the last one first;
-- `vbucket_state` are the states in `vbucket_infos`.
pub record DefaultEngine : Type 0 where
  pub assoc : Assoc
  pub items : ℕ → Item
  pub lru : ℕ → List ℕ
  pub cas_id : ℕ
  pub oldest_live : ℕ
  pub curr_items : ℕ
  pub total_items : ℕ
  pub freed : List ℕ
  pub ignore_vbucket : Bool
  pub vbucket_state : ℕ → ℕ

abbrev pub power_largest : ℕ
power_largest = 200

abbrev pub item_update_interval : ℕ
item_update_interval = 60

infixl 5 ◌>>=◌
abbrev pub ◌>>=◌ {ℓ κ} : {A : Type ℓ} {B : Type κ} → Option A → (A → Option B) → Option B
none >>= f = none
some a >>= f = f a

abbrev pub vbucket_state_active : ℕ
vbucket_state_active = 1

-- handled_vbucket of default_engine.c, the test of VBUCKET_GUARD
unfoldable pub handled_vbucket : DefaultEngine → ℕ → Bool
handled_vbucket e vbid = e.ignore_vbucket || e.vbucket_state vbid == vbucket_state_active

-- cb_assert
abbrev pub assert : Bool → DefaultEngine → Option DefaultEngine
assert true e = some e
assert false e = none

unfoldable pub set_item : ℕ → Item → DefaultEngine → DefaultEngine
set_item it i e = record e { items = λ a. if a == it then i else e.items a }

unfoldable pub set_lru : ℕ → List ℕ → DefaultEngine → DefaultEngine
set_lru clsid queue e = record e { lru = λ c. if c == clsid then queue else e.lru c }

unfoldable pub item_get_cas : Item → ℕ
item_get_cas i = if i.with_cas then i.cas else 0

unfoldable pub item_set_cas : ℕ → Item → Item
item_set_cas val i = if i.with_cas then record i { cas = val } else i

unfoldable pub is_head : ℕ → List ℕ → Bool
is_head it [] = false
is_head it (a ∷ queue) = a == it

unfoldable pub is_tail : ℕ → List ℕ → Bool
is_tail it [] = false
is_tail it (a ∷ []) = a == it
is_tail it (a ∷ b ∷ queue) = is_tail it (b ∷ queue)

unfoldable pub unqueue : ℕ → List ℕ → List ℕ
unqueue it [] = []
unqueue it (a ∷ queue) = if a == it then unqueue it queue else a ∷ unqueue it queue

unfoldable pub item_free : ℕ → DefaultEngine → Option DefaultEngine
unfolding is_head is_tail
item_free it e =
    let i = e.items it in
    let queue = e.lru i.slabs_clsid in
    assert (not i.linked && (not (is_head it queue) && (not (is_tail it queue) && i.refcount == 0)))
      (set_item it (record i { slabs_clsid = 0; slabbed = true })
        (record e { freed = it ∷ e.freed }))

-- item_link_q
unfoldable pub item_link_q : ℕ → DefaultEngine → Option DefaultEngine
unfolding is_head
item_link_q it e =
    let i = e.items it in
    assert
      (ltb i.slabs_clsid power_largest && (not i.slabbed && not (is_head it (e.lru i.slabs_clsid))))
      (set_lru i.slabs_clsid (it ∷ e.lru i.slabs_clsid) e)

unfoldable pub item_unlink_q : ℕ → DefaultEngine → Option DefaultEngine
item_unlink_q it e =
    let i = e.items it in
    assert (ltb i.slabs_clsid power_largest)
      (set_lru i.slabs_clsid (unqueue it (e.lru i.slabs_clsid)) e)

unfoldable pub set_assoc : Assoc → DefaultEngine → DefaultEngine
set_assoc a e = record e { assoc = a }

unfoldable pub mark_linked : ℕ → ℕ → DefaultEngine → DefaultEngine
mark_linked now it e = set_item it (let i = e.items it in record i { linked = true; time = now }) e

-- What do_item_link does between the table, `a` by then, and the list; the CAS value is of get_cas_id.
unfoldable pub count_linked : ℕ → Assoc → DefaultEngine → DefaultEngine
count_linked it a e =
    let cas_id = (e.cas_id + 1) % 2 ^ 64 in
    set_item it (item_set_cas cas_id (e.items it)) (record (set_assoc a e) {
      curr_items = (e.curr_items + 1) % 2 ^ 64;
      total_items = (e.total_items + 1) % 2 ^ 64;
      cas_id = cas_id;
    })

-- What do_item_unlink does before the table's item is cut out of its list; the table is `a` by then.
unfoldable pub unlinked_item : ℕ → Assoc → DefaultEngine → DefaultEngine
unlinked_item it a e =
    let i = e.items it in
    record (set_assoc a (set_item it (record i { linked = false }) e)) {
      curr_items = (e.curr_items + 2 ^ 64 - 1) % 2 ^ 64;
    }

-- The end of do_item_unlink.
unfoldable pub free_unused : ℕ → DefaultEngine → Option DefaultEngine
free_unused it e =
    item_unlink_q it e >>= λ e'. if (e'.items it).refcount == 0 then item_free it e' else some e'

unfoldable pub do_item_release : ℕ → DefaultEngine → Option DefaultEngine
do_item_release it e =
    let i = e.items it in
    let released = set_item it (record i { refcount = i.refcount - 1 }) e in
    if i.refcount - 1 == 0 && not i.linked then item_free it released else some released

unfoldable pub do_item_update : ℕ → ℕ → DefaultEngine → Option DefaultEngine
do_item_update now it e =
    let i = e.items it in
    let requeued =
      item_unlink_q it e >>= λ e'. item_link_q it (set_item it (record i { time = now }) e') in
    let moved = assert (not i.slabbed) e >>= λ e'. if i.linked then requeued else some e' in
    if ltb i.time ((now + 2 ^ 32 - item_update_interval) % 2 ^ 32) then moved else some e

-- Whether do_item_get takes an item for dead: by a flush, or by its own time.
unfoldable pub is_dead : ℕ → ℕ → Item → Bool
is_dead now oldest_live i =
    oldest_live != 0 && (leb oldest_live now && leb i.time oldest_live)
    || i.exptime != 0 && leb i.exptime now

unfoldable pub take_reference : ℕ → DefaultEngine → DefaultEngine
take_reference it e =
    set_item it (let i = e.items it in record i { refcount = (i.refcount + 1) % 2 ^ 16 }) e

pub data StoreOperation : Type 0 where
  operation_add operation_set operation_replace operation_cas : StoreOperation
