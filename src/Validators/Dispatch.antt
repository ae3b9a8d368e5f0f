-- ===== src/Validators/Dispatch.antt =====
-- What a bucket's chains decide on a command.
use memcached.Validators.Bucket.{get_collections_validator}
use memcached.Common.{
  ℕ, ◌≡◌, refl, ◌↔◌, ◌∙◌, ◌≢◌, List, [], ◌∷◌, ◌++◌, All, Bool-cases, inl, inr, ◌==◌,
}
use memcached.Protocol.{success, Packet}
use memcached.Chain.{invoke}
use memcached.Chain.Laws.{Succeeds, invoke_first_failure, invoke-push_unique}
use memcached.Chain.Table.{Chains, Registered, push, push_all, invoke-push_all}
use memcached.Validators.Names.{Validator, validate}
use memcached.Validators.Addresses.{validator_addressed, status_returns}
use memcached.Validators.Table.{
  validator_calls, collection_calls, initialize_mcbp_validator_chains, enable_collections,
  validate_command, mcbp_validator_chains,
}

-- A packet passes a new bucket's chains exactly when every validator that
-- initializeMcbpValidatorChains registers for its opcode accepts it.
pub validate_command_iff :
    (command : ℕ) (req : Packet)
    → (validate_command mcbp_validator_chains command req ≡ success)
      ↔ Registered (λ v. validate v req ≡ success) command validator_calls
unfolding validate_command mcbp_validator_chains initialize_mcbp_validator_chains
validate_command_iff command req = invoke-push_all validate validator_calls command req

-- Where a packet is refused, the verdict is that of the first validator of its opcode's chain that
-- refuses it, all validators before it having accepted it.
pub validate_command_refusal :
    (chains : Chains Validator) (command : ℕ) (req : Packet)
    → validate_command chains command req ≢ success
    → (before : List Validator) × (v : Validator) × (after : List Validator) × (chains command
        ≡ before ++ v ∷ after)
      × All (Succeeds validate req) before
      × (validate v req ≢ success)
      × (validate_command chains command req ≡ validate v req)
unfolding validate_command
validate_command_refusal chains command req h = invoke_first_failure validate (chains command) req h

push-neutral :
    (command other : ℕ) (v : Validator) (chains : Chains Validator) (req : Packet)
    → validate v req ≡ success
    → invoke validate (push command v chains other) req ≡ invoke validate (chains other) req
unfolding push
push-neutral command other v chains req ok = elim (Bool-cases (other == command)) [
  | inl same ↦ rw same (invoke-push_unique validate v (chains other) req ok)
  | inr different ↦ rw different
]

push_all-neutral :
    (calls : List (ℕ × Validator)) (chains : Chains Validator) (command : ℕ) (req : Packet)
    → All (λ (call : ℕ × Validator). validate call.1 req ≡ success) calls
    → invoke validate (push_all calls chains command) req ≡ invoke validate (chains command) req
unfolding push_all
push_all-neutral [] chains command req ok = refl
push_all-neutral ((c, v) ∷ calls) chains command req ok =
    push_all-neutral calls (push c v chains) command req ok.1
    ∙ push-neutral c command v chains req ok.0

-- Enabling collections changes no verdict on any packet, whatever the chains held before.
pub enable_collections-neutral :
    (chains : Chains Validator) (command : ℕ) (req : Packet)
    → validate_command (enable_collections chains) command req ≡ validate_command chains command req
unfolding validate_command enable_collections validate get_collections_validator
enable_collections-neutral chains command req =
    push_all-neutral collection_calls chains command req (refl, (refl, (refl, (refl, tt))))
