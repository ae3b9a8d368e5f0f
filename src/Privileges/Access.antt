-- ===== src/Privileges/Access.antt =====
-- Which commands a connection may run.
use memcached.Common.{
  ℕ, ◌≡◌, ◌∙◌, refl, ◌↔◌, Bool, true, false, Bool-cases, inl, inr, List, ==_iff, sym, subst, ◌==◌,
  if◌then◌else◌, ◌∷◌, [], ◌∙◌, if◌then◌else◌,
}
use memcached.Chain.{is_empty}
use memcached.Chain.Table.{
  Registered, has_rule, push_all, no_chains, is_empty-push_all, invoke-push_all,
}
use memcached.Privileges.Checks.{
  ok, fail, Subject, Check, run_check, check_privilege, require, empty, check_addressed,
  access_returns,
}
use memcached.Privileges.Table.{privilege_calls, privilege_chains, invoke_privileges}
use memcached.Validators.Table.{validator_calls}

fail≢ok : fail ≡ ok → ⊥
fail≢ok e = cc

clash : {b : Bool} → b ≡ false → b ≡ true → ⊥
clash p q = cc

-- With the rules that are set up outside the unit tests, a command is let through exactly when some
-- rule is set up for its opcode and every check that is set up for it passes.
pub invoke_privileges_iff :
    (command : ℕ) (c : Subject)
    → (invoke_privileges (privilege_chains false) command c ≡ ok) ↔ (
        (has_rule command privilege_calls ≡ true)
        × Registered (λ check. run_check check c ≡ ok) command privilege_calls)
unfolding invoke_privileges privilege_chains is_empty
invoke_privileges_iff command c = elim (Bool-cases (has_rule command privilege_calls)) [
  | inl some_rule ↦
      let e : is_empty (push_all privilege_calls no_chains command) ≡ false =
        is_empty-push_all privilege_calls no_chains command ∙ rw some_rule refl in
      let iff = invoke-push_all run_check privilege_calls command c in
      (λ h. (some_rule, iff.0 (rw e at h)), λ h. rw e (iff.1 h.1))
  | inr no_rule ↦
      let e : is_empty (push_all privilege_calls no_chains command) ≡ true =
        is_empty-push_all privilege_calls no_chains command ∙ rw no_rule refl in
      (λ h. absurd (fail≢ok (rw e at h)), λ h. absurd (clash no_rule h.0))
]

passes_all :
    (calls : List (ℕ × Check)) (command : ℕ) (c : Subject)
    → c.is_admin ≡ true
    → Registered (λ check. run_check check c ≡ ok) command calls
unfolding run_check check_privilege
passes_all [] command c admin = tt
passes_all ((o, require p) ∷ calls) command c admin =
    ((λ _. rw admin), passes_all calls command c admin)
passes_all ((o, empty) ∷ calls) command c admin = ((λ _. refl), passes_all calls command c admin)

-- An administrator may run exactly the commands for which a rule is set up.
pub administrator_iff :
    (command : ℕ) (c : Subject)
    → c.is_admin ≡ true
    → (invoke_privileges (privilege_chains false) command c ≡ ok)
      ↔ (has_rule command privilege_calls ≡ true)
administrator_iff command c admin =
    let iff = invoke_privileges_iff command c in
    (λ h. (iff.0 h).0, λ rule. iff.1 (rule, passes_all privilege_calls command c admin))

-- The opcodes of calls that have no privilege rule.
unruled : {F : Type 0} → List (ℕ × F) → List ℕ
unruled [] = []
unruled ((c, f) ∷ calls) = if has_rule c privilege_calls then unruled calls else c ∷ unruled calls

unruled-covers :
    {F : Type 0} (calls : List (ℕ × F)) (command : ℕ)
    → unruled calls ≡ []
    → has_rule command calls ≡ true
    → has_rule command privilege_calls ≡ true
unfolding unruled has_rule
unruled-covers [] command none rule = cc
unruled-covers ((c, f) ∷ calls) command none rule = elim (Bool-cases (has_rule c privilege_calls)) [
  | inl ruled ↦ elim (Bool-cases (command == c)) [
    | inl same ↦
        subst (λ n. has_rule n privilege_calls ≡ true) (sym ((==_iff command c).0 same)) ruled
    | inr different ↦ unruled-covers calls command (rw ruled at none) (rw different at rule)
  ]
  | inr unset ↦ absurd (cons≢nil (rw unset at none))
]
  where
    cons≢nil : {n : ℕ} {rest : List ℕ} → n ∷ rest ≡ [] → ⊥
    cons≢nil e = cc

-- Every opcode for which a validator is registered has a privilege rule.
pub validated_commands_ruled :
    (command : ℕ)
    → has_rule command validator_calls ≡ true
    → has_rule command privilege_calls ≡ true
unfolding unruled validator_calls has_rule privilege_calls
validated_commands_ruled command rule = unruled-covers validator_calls command refl rule
