-- ===== src/Chain/Table.antt =====
-- The chains of the 256 opcodes (`commandChains` in daemon/mcbp_validators.h and
-- daemon/mcbp_privileges.h), filled by a sequence of `push_unique` calls.
use memcached.Common.{
  ℕ, ◌≡◌, ◌↔◌, List, [], ◌∷◌, ◌==◌, ==_iff, if◌then◌else◌, Bool-cases, All, arith, inl, inr, ◌||◌,
  Bool, false,
}
use memcached.Chain.{Returns, Addressed, push_unique, invoke, Bool, is_empty, find, false}
use memcached.Chain.Laws.{Succeeds, invoke_iff, All-push_unique}

-- An opcode's chain; a command is one byte, so it is always in the array.
abbrev pub Chains : Type 0 → Type 0
Chains F = ℕ → List F

abbrev pub no_chains : {F : Type 0} → Chains F
no_chains command = []

module _ {F : Type 0} ⦃a : Addressed F⦄ where
  unfoldable pub push : ℕ → F → Chains F → Chains F
  push command f chains other =
      if other == command then push_unique f (chains other) else chains other

  -- The calls of an initialisation, in order.
  unfoldable pub push_all : List (ℕ × F) → Chains F → Chains F
  unfolding push
  push_all [] chains = chains
  push_all ((command, f) ∷ calls) chains = push_all calls (push command f chains)

  push-All :
      (P : F → Type 0) (command other : ℕ) (f : F) (chains : Chains F)
      → All P (push command f chains other) ↔ ((other ≡ command → P f) × All P (chains other))
  unfolding push
  push-All P command other f chains = elim (Bool-cases (other == command)) [
    | inl same ↦
        let iff = All-push_unique P f (chains other) in
        (
          λ h. let h' = iff.0 (rw same at h) in (λ _. h'.0, h'.1),
          λ h. rw same (iff.1 (h.0 ((==_iff _ _).0 same), h.1)),
        )
    | inr different ↦ (λ h. (λ e. absurd (ground arith), rw different at h), λ h. rw different h.1)
  ]

  abbrev pub Registered : (F → Type 0) → ℕ → List (ℕ × F) → Type 0
  Registered P command = All (λ (call : ℕ × F). command ≡ call.0 → P call.1)

  -- After the calls, all of an opcode's functions have a property exactly when all that were
  -- registered for it do, and those that were there before.
  pub push_all-All :
      (P : F → Type 0) (calls : List (ℕ × F)) (chains : Chains F) (command : ℕ)
      → All P (push_all calls chains command)
        ↔ (Registered P command calls × All P (chains command))
  unfolding push_all
  push_all-All P [] chains command = (λ h. (tt, h), λ h. h.1)
  push_all-All P ((c, f) ∷ calls) chains command =
      let ih = push_all-All P calls (push c f chains) command in
      let one = push-All P c command f chains in
      (
        λ h. let h1 = ih.0 h in let h2 = one.0 h1.1 in ((h2.0, h1.0), h2.1),
        λ h. ih.1 (h.0.1, one.1 (h.0.0, h.1)),
      )

module _ {F : Type 0} {Args : Type 0} {R : Type 0} (call : F → Args → R) ⦃a : Addressed F⦄
    ⦃r : Returns R⦄ where
  -- A command passes exactly when every function registered for its opcode passes it.
  pub invoke-push_all :
      (calls : List (ℕ × F)) (command : ℕ) (args : Args)
      → (invoke call (push_all calls no_chains command) args ≡ r.success)
        ↔ Registered (Succeeds call args) command calls
  invoke-push_all calls command args =
      let chain = invoke_iff call (push_all calls no_chains command) args in
      let all = push_all-All (Succeeds call args) calls no_chains command in
      (λ h. (all.0 (chain.0 h)).0, λ h. chain.1 (all.1 (h, tt)))

-- Whether some call registers a function for the opcode.
unfoldable pub has_rule : {F : Type 0} → ℕ → List (ℕ × F) → Bool
has_rule command [] = false
has_rule command ((c, f) ∷ calls) = command == c || has_rule command calls

module _ {F : Type 0} ⦃a : Addressed F⦄ where
  is_empty-push_unique : (f : F) (chain : List F) → is_empty (push_unique f chain) ≡ false
  unfolding is_empty push_unique find
  is_empty-push_unique f [] = ground arith
  is_empty-push_unique f (g ∷ chain) = ground arith

  is_empty-push :
      (command other : ℕ) (f : F) (chains : Chains F)
      → is_empty (push command f chains other)
        ≡ (if other == command then false else is_empty (chains other))
  unfolding push
  is_empty-push command other f chains = elim (Bool-cases (other == command)) [
    | inl same ↦ rw same (is_empty-push_unique f (chains other))
    | inr different ↦ rw different
  ]

  -- After the calls an opcode's chain is empty exactly when it was and no call registers for it.
  pub is_empty-push_all :
      (calls : List (ℕ × F)) (chains : Chains F) (command : ℕ)
      → is_empty (push_all calls chains command)
        ≡ (if has_rule command calls then false else is_empty (chains command))
  unfolding push_all has_rule
  is_empty-push_all [] chains command = ground arith
  is_empty-push_all ((c, f) ∷ calls) chains command =
      ground
        (arith, is_empty-push_all calls (push c f chains) command, is_empty-push c command f chains)
