-- ===== src/Engine/Assoc/Represents.antt =====
-- What the hash table of engines/default_engine/assoc.c holds, as a list of items, and the calls on it.
use memcached.Engine.Assoc.{
  assoc_delete, assoc_insert, assoc_find, HashItem, Assoc, chain_find, chain_delete, in_old,
  chain_of, set_chain, count_items, is_full, put_item, cut_item, assoc_find, assoc_insert,
  assoc_delete, assoc_expand, same_hash_key,
}
use memcached.Engine.Assoc.Chains.{
  Distinct, same_hash_key_cases, chain_find-head, chain_find-tail, chain_find-delete_self,
  chain_find-delete_ne, All-chain_delete, Distinct-chain_delete, length-chain_delete,
  ne_of_same_hash_key,
}
use memcached.Engine.Assoc.Valid.{
  IsValid, look, chain_of-Distinct, chain_of-Belong, chain_of-set_chain_self, look-set_chain,
}
use memcached.Engine.Assoc.Steps.{set_chain-IsValid, assoc_expand-IsValid, look-assoc_expand}
use memcached.Common.{
  ℕ, ◌+◌, ◌-◌, ◌%◌, ◌^◌, ◌≡◌, refl, sym, ◌∙◌, ◌⊎◌, inl, inr, Bool, true, false, if◌then◌else◌,
  if_ind, none, some, List, ◌∷◌, length, arith,
}

module _ (crc32c : List ℕ → ℕ) where
  pub record Represents (a : Assoc) (items : List HashItem) : Type 0 where
    pub valid : IsValid crc32c a
    pub same : (key : List ℕ) → look crc32c a key ≡ chain_find key items
    pub counted : a.hash_items ≡ length items % 2 ^ 32
    pub once : Distinct items

  look-count_items :
      (n : ℕ) (a : Assoc) (k : List ℕ) → look crc32c (count_items n a) k ≡ look crc32c a k
  unfolding count_items chain_of in_old
  look-count_items n a k = refl

  count_items-IsValid : (n : ℕ) (a : Assoc) → IsValid crc32c a → IsValid crc32c (count_items n a)
  unfolding count_items
  count_items-IsValid n a v = record {
    placed = v.placed;
    distinct = v.distinct;
    growing = λ g.
        let e = v.growing g in
        record {
          positive = e.positive;
          within = e.within;
          old_placed = e.old_placed;
          old_distinct = e.old_distinct;
          unmoved = e.unmoved;
        };
  }

  expand_if_full :
      (allocated started : Bool) (a : Assoc) (items : List HashItem)
      → Represents a items
      → Represents (if is_full a then assoc_expand allocated started a else a) items
  unfolding is_full assoc_expand
  expand_if_full allocated started a items r =
      if_ind (λ b. Represents b items) (is_full a) _ a
        (λ full.
          let still : a.expanding ≡ false = ground arith in
          record {
            valid = assoc_expand-IsValid crc32c allocated started a r.valid still;
            same = λ key. look-assoc_expand crc32c allocated started a key still ∙ r.same key;
            counted = hash_items-assoc_expand allocated started a ∙ r.counted;
            once = r.once;
          })
        (λ roomy. r)
    where
      hash_items-assoc_expand :
          (allocated started : Bool) (a : Assoc)
          → (assoc_expand allocated started a).hash_items ≡ a.hash_items
      hash_items-assoc_expand false started a = refl
      hash_items-assoc_expand true false a = refl
      hash_items-assoc_expand true true a = refl

  pub put_item-Represents :
      (allocated started : Bool) (a : Assoc) (items : List HashItem) (it : HashItem)
      → Represents a items
      → chain_find it.key items ≡ none
      → Represents (put_item allocated started a (crc32c it.key) it) (it ∷ items)
  unfolding put_item count_items
  put_item-Represents allocated started a items it r new =
      expand_if_full allocated started _ (it ∷ items) (record {
        valid = count_items-IsValid ((a.hash_items + 1) % 2 ^ 32) (set_chain a hash chain) (
            set_chain-IsValid crc32c a hash chain r.valid
              (r.same it.key ∙ new, chain_of-Distinct crc32c a hash r.valid)
              (refl, chain_of-Belong crc32c a hash r.valid));
        same = λ key.
            look-count_items ((a.hash_items + 1) % 2 ^ 32) (set_chain a hash chain) key
            ∙ found key (same_hash_key_cases key it.key);
        counted = counts (r.counted);
        once = (new, r.once);
      })
    where
      hash : ℕ
      hash = crc32c it.key

      chain : List HashItem
      chain = it ∷ chain_of a hash

      counts :
          a.hash_items ≡ length items % 2 ^ 32
          → (count_items ((a.hash_items + 1) % 2 ^ 32) (set_chain a hash chain)).hash_items
            ≡ length (it ∷ items) % 2 ^ 32
      counts c = omega arith

      found :
          (key : List ℕ)
          → (key ≡ it.key) ⊎ (same_hash_key key it.key ≡ false)
          → look crc32c (set_chain a hash chain) key ≡ chain_find key (it ∷ items)
      found key (inl mine) =
          rw (mine, chain_of-set_chain_self crc32c a hash chain)
            (chain_find-head it (chain_of a hash) ∙ sym (chain_find-head it items))
      found key (inr other) =
          look-set_chain crc32c key a hash chain (chain_find-tail key it (chain_of a hash) other)
          ∙ r.same key
          ∙ sym (chain_find-tail key it items other)

  pub cut_item-Represents :
      (a : Assoc) (items : List HashItem) (key : List ℕ) {it : HashItem}
      → Represents a items
      → chain_find key items ≡ some it
      → Represents (cut_item a (crc32c key) key) (chain_delete key items)
  unfolding cut_item count_items
  cut_item-Represents a items key r there = record {
    valid = count_items-IsValid ((a.hash_items + 2 ^ 32 - 1) % 2 ^ 32) (set_chain a hash chain) (
        set_chain-IsValid crc32c a hash chain r.valid
          (Distinct-chain_delete key (chain_of a hash) (chain_of-Distinct crc32c a hash r.valid))
          (All-chain_delete _ key (chain_of a hash) (chain_of-Belong crc32c a hash r.valid)));
    same = λ k.
        look-count_items ((a.hash_items + 2 ^ 32 - 1) % 2 ^ 32) (set_chain a hash chain) k
        ∙ found k (same_hash_key_cases k key);
    counted = omega (arith, r.counted, length-chain_delete key items there);
    once = Distinct-chain_delete key items r.once;
  }
    where
      hash : ℕ
      hash = crc32c key

      chain : List HashItem
      chain = chain_delete key (chain_of a hash)

      found :
          (k : List ℕ)
          → (k ≡ key) ⊎ (same_hash_key k key ≡ false)
          → look crc32c (set_chain a hash chain) k ≡ chain_find k (chain_delete key items)
      found k (inl mine) =
          rw (mine, chain_of-set_chain_self crc32c a hash chain)
            (chain_find-delete_self key (chain_of a hash) (chain_of-Distinct crc32c a hash r.valid)
              ∙ sym (chain_find-delete_self key items r.once))
      found k (inr other) =
          look-set_chain crc32c k a hash chain (
            chain_find-delete_ne k key (chain_of a hash)
              (ne_of_same_hash_key {k = k} {j = key} other))
          ∙ r.same k
          ∙ sym (chain_find-delete_ne k key items (ne_of_same_hash_key {k = k} {j = key} other))

  -- An item that is there is deleted.
  pub assoc_delete_lem :
      (a : Assoc) (items : List HashItem) (key : List ℕ) {it : HashItem}
      → Represents a items
      → chain_find key items ≡ some it
      → assoc_delete a (crc32c key) key ≡ some (cut_item a (crc32c key) key)
  unfolding assoc_delete assoc_find
  assoc_delete_lem a items key r there = ground (arith, r.same key)

  -- An item that is not there is inserted.
  pub assoc_insert_lem :
      (allocated started : Bool) (a : Assoc) (items : List HashItem) (it : HashItem)
      → Represents a items
      → chain_find it.key items ≡ none
      → assoc_insert allocated started a (crc32c it.key) it
        ≡ some (put_item allocated started a (crc32c it.key) it)
  unfolding assoc_insert assoc_find
  assoc_insert_lem allocated started a items it r new = ground (arith, r.same it.key)
