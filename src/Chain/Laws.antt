-- ===== src/Chain/Laws.antt =====
-- What a chain's invocation returns, and what adding a function changes.
use memcached.Common.{
  ◌≡◌, refl, ap, ◌↔◌, inl, inr, ◌≢◌, Bool, true, false, List, [], ◌∷◌, ◌++◌, ◌==◌, ==_iff,
  Bool-cases, All, All-append, arith, subst,
}
use memcached.Chain.{Returns, Addressed, find, push_unique, invoke}

module _ {ℓ κ ι} {F : Type ℓ} {Args : Type κ} {R : Type ι} (call : F → Args → R)
    ⦃r : Returns R⦄ where
  abbrev pub Succeeds : Args → F → Type ι
  Succeeds args f = call f args ≡ r.success

  -- A chain succeeds exactly when each of its functions does.
  pub invoke_iff :
      (chain : List F) (args : Args)
      → (invoke call chain args ≡ r.success) ↔ All (Succeeds args) chain
  unfolding invoke
  invoke_iff [] args = (λ e. tt, λ t. refl)
  invoke_iff (f ∷ chain) args = elim (Bool-cases (r.succeeded (call f args))) [
    | inl passed ↦
        let e : call f args ≡ r.success = (r.succeeded_iff (call f args)).0 passed in
        let ih = invoke_iff chain args in
        (λ h. (e, ih.0 (rw passed at h)), λ all. rw passed (ih.1 all.1))
    | inr failed ↦ (
      λ h. absurd (clash failed ((r.succeeded_iff (call f args)).1 (rw failed at h))),
      λ all. absurd (clash failed ((r.succeeded_iff (call f args)).1 all.0)),
    )
  ]
    where
      clash : {b : Bool} → b ≡ false → b ≡ true → ⊥
      clash p q = cc

  -- Where it does not succeed, it returns what the first failing function returned.
  pub invoke_first_failure :
      (chain : List F) (args : Args)
      → invoke call chain args ≢ r.success
      → (before : List F) × (f : F) × (after : List F) × (chain ≡ before ++ f ∷ after)
        × All (Succeeds args) before
        × (call f args ≢ r.success)
        × (invoke call chain args ≡ call f args)
  unfolding invoke
  invoke_first_failure [] args h = absurd (h refl)
  invoke_first_failure (f ∷ chain) args h = elim (Bool-cases (r.succeeded (call f args))) [
    | inl passed ↦
        let (before, g, after, e, all, bad, same) =
          invoke_first_failure chain args (λ q. h (rw passed q)) in
        (
          f ∷ before,
          g,
          after,
          ap (◌∷◌ f) e,
          ((r.succeeded_iff (call f args)).0 passed, all),
          bad,
          rw passed same,
        )
    | inr failed ↦ ([], f, chain, refl, tt, (λ q. h (rw failed q)), rw failed)
  ]

module _ {ℓ} {F : Type ℓ} ⦃a : Addressed F⦄ where
  find-All {κ} : (P : F → Type κ) (f : F) (chain : List F) → find f chain ≡ true → All P chain → P f
  unfolding find
  find-All P f [] h all = cc
  find-All P f (g ∷ chain) h all = elim (Bool-cases (a.address g == a.address f)) [
    | inl same ↦ subst P (a.address_injective g f ((==_iff _ _).0 same)) all.0
    | inr other ↦ find-All P f chain (rw other at h) all.1
  ]

  All-split {κ} :
      (P : F → Type κ) (chain : List F) {f : F} → All P (chain ++ f ∷ []) → All P chain × P f
  All-split P [] h = (tt, h.0)
  All-split P (g ∷ chain) h = let rest = All-split P chain h.1 in ((h.0, rest.0), rest.1)

  -- A property holds of all functions after a push when it holds of the new one and of the old ones.
  pub All-push_unique {κ} :
      (P : F → Type κ) (f : F) (chain : List F) → All P (push_unique f chain) ↔ (P f × All P chain)
  unfolding push_unique
  All-push_unique P f chain = elim (Bool-cases (find f chain)) [
    | inl old ↦ (
      λ all. (let all' : All P chain = rw old at all in find-All P f chain old all', rw old at all),
      λ h. rw old h.1,
    )
    | inr new ↦ (
      λ all. let both = All-split P chain (rw new at all) in (both.1, both.0),
      λ h. rw new (All-append P chain (f ∷ []) h.1 (h.0, tt)),
    )
  ]

  find_append : (f : F) (chain : List F) → find f (chain ++ f ∷ []) ≡ true
  unfolding find
  find_append f [] = ground arith
  find_append f (g ∷ chain) = ground (arith, find_append f chain)

  -- Adding a function to a chain twice is the same as adding it once.
  pub push_unique_idem :
      (f : F) (chain : List F) → push_unique f (push_unique f chain) ≡ push_unique f chain
  unfolding push_unique
  push_unique_idem f chain = elim (Bool-cases (find f chain)) [
    | inl old ↦ rw (old, old)
    | inr new ↦ rw (new, find_append f chain)
  ]

module _ {κ ι} {F : Type 0} {Args : Type κ} {R : Type ι} (call : F → Args → R) ⦃a : Addressed F⦄
    ⦃r : Returns R⦄ where
  invoke_append :
      (f : F) (chain : List F) (args : Args)
      → call f args ≡ r.success
      → invoke call (chain ++ f ∷ []) args ≡ invoke call chain args
  unfolding invoke
  invoke_append f [] args ok = rw (ok, (r.succeeded_iff r.success).1 refl)
  invoke_append f (g ∷ chain) args ok = elim (Bool-cases (r.succeeded (call g args))) [
    | inl passed ↦ rw passed (invoke_append f chain args ok)
    | inr failed ↦ rw failed
  ]

  -- A function that succeeds changes nothing of what a chain returns.
  pub invoke-push_unique :
      (f : F) (chain : List F) (args : Args)
      → call f args ≡ r.success
      → invoke call (push_unique f chain) args ≡ invoke call chain args
  unfolding push_unique
  invoke-push_unique f chain args ok = elim (Bool-cases (find f chain)) [
    | inl old ↦ rw old
    | inr new ↦ rw new (invoke_append f chain args ok)
  ]
