-- ===== src/Engine/Assoc/Steps.antt =====
-- The steps of engines/default_engine/assoc.c: a changed chain, and the start of an expansion.
use memcached.Engine.Assoc.{
  HashItem, Assoc, hashsize, in_old, chain_of, set_chain, assoc_expand, assoc_consruct,
}
use memcached.Engine.Assoc.Chains.{Distinct}
use memcached.Engine.Assoc.Move.{hashsize_pos, half_bucket, put_chain_all, put_chain_ne}
use memcached.Engine.Assoc.Valid.{IsValid, look, Belong}
use memcached.Common.{
  ℕ, ◌+◌, ◌-◌, ◌%◌, ◌<◌, ◌≡◌, refl, ◌∙◌, ap, inl, inr, Bool, true, false, Bool-cases, List, All,
  arith,
}

module _ (crc32c : List ℕ → ℕ) where
  pub assoc_consruct-IsValid : (n : ℕ) → IsValid crc32c (assoc_consruct n)
  unfolding assoc_consruct
  assoc_consruct-IsValid n = record {
    placed = λ b. tt;
    distinct = λ b. tt;
    growing = λ h. absurd (cc h);
  }

  -- Where a hash is looked up in the new table, its chain has been moved.
  moved_before :
      (a : Assoc) (hash : ℕ)
      → in_old a hash ≡ false
      → a.expanding ≡ true
      → hash % hashsize (a.hashpower - 1) < a.expand_bucket
  unfolding in_old hashsize
  moved_before a hash new growing = ground arith

  pub set_chain-IsValid :
      (a : Assoc) (hash : ℕ) (chain : List HashItem)
      → IsValid crc32c a
      → Distinct chain
      → Belong crc32c a hash chain
      → IsValid crc32c (set_chain a hash chain)
  unfolding set_chain
  set_chain-IsValid a hash chain v d belong = elim (Bool-cases (in_old a hash)) [
    | inl old ↦ rw old (record {
      placed = v.placed;
      distinct = v.distinct;
      growing = λ g.
          let e = v.growing g in
          record {
            positive = e.positive;
            within = e.within;
            old_placed =
                put_chain_all (λ i l. All (λ it. crc32c it.key % hashsize (a.hashpower - 1) ≡ i) l)
                  a.old_hashtable (hash % hashsize (a.hashpower - 1)) chain (rw old at belong)
                  e.old_placed;
            old_distinct =
                put_chain_all (λ i l. Distinct l) a.old_hashtable _ chain d e.old_distinct;
            unmoved = e.unmoved;
          };
    })
    | inr new ↦ rw new (record {
      placed =
          put_chain_all (λ i l. All (λ it. crc32c it.key % hashsize a.hashpower ≡ i) l)
            a.primary_hashtable (hash % hashsize a.hashpower) chain (rw new at belong) v.placed;
      distinct = put_chain_all (λ i l. Distinct l) a.primary_hashtable _ chain d v.distinct;
      growing = λ g.
          let e = v.growing g in
          record {
            positive = e.positive;
            within = e.within;
            old_placed = e.old_placed;
            old_distinct = e.old_distinct;
            unmoved = λ c late.
                put_chain_ne a.primary_hashtable (hash % hashsize a.hashpower) chain (λ same.
                  omega (
                    arith,
                    moved_before a hash new g,
                    half_bucket hash a.hashpower e.positive,
                    ap (λ x. x % hashsize (a.hashpower - 1)) same,
                  ))
                ∙ e.unmoved c late;
          };
    })
  ]

  -- An expansion begins, or it does not, for want of memory or of a thread; nothing is lost.
  pub assoc_expand-IsValid :
      (allocated started : Bool) (a : Assoc)
      → IsValid crc32c a
      → a.expanding ≡ false
      → IsValid crc32c (assoc_expand allocated started a)
  unfolding assoc_expand
  assoc_expand-IsValid false started a v still = record {
    placed = v.placed;
    distinct = v.distinct;
    growing = λ g. absurd (cc (still, g));
  }
  assoc_expand-IsValid true false a v still =
      let back : a.hashpower + 1 - 1 ≡ a.hashpower = omega arith in
      record { placed = rw back v.placed; distinct = v.distinct; growing = λ g. absurd (cc g) }
  assoc_expand-IsValid true true a v still =
      let back : a.hashpower + 1 - 1 ≡ a.hashpower = omega arith in
      record {
        placed = λ b. tt;
        distinct = λ b. tt;
        growing = λ g. record {
          positive = omega arith;
          within = hashsize_pos (a.hashpower + 1 - 1);
          old_placed = rw back v.placed;
          old_distinct = v.distinct;
          unmoved = λ c late. refl;
        };
      }

  pub look-assoc_expand :
      (allocated started : Bool) (a : Assoc) (k : List ℕ)
      → a.expanding ≡ false
      → look crc32c (assoc_expand allocated started a) k ≡ look crc32c a k
  unfolding assoc_expand chain_of in_old
  look-assoc_expand false started a k still = rw still refl
  look-assoc_expand true false a k still =
      let back : a.hashpower + 1 - 1 ≡ a.hashpower = omega arith in rw (still, back) refl
  look-assoc_expand true true a k still =
      let back : a.hashpower + 1 - 1 ≡ a.hashpower = omega arith in rw (still, back) (ground arith)
