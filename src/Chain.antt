-- ===== src/Chain.antt =====
-- daemon/function_chain.h: a chain of functions that is invoked until one does not succeed. A
-- function is known by its address, as in the source's `operator==`.
pub mod Laws
pub mod Table
use memcached.Common.{
  ℕ, ◌≡◌, ◌↔◌, Bool, true, false, ◌||◌, List, [], ◌∷◌, ◌++◌, ◌==◌, if◌then◌else◌,
}

-- The template's `ReturnType` and `Success`, with the test for it.
pub record Returns {ℓ} (R : Type ℓ) : Type ℓ where
  pub success : R
  pub succeeded : R → Bool
  pub succeeded_iff : (r : R) → (succeeded r ≡ true) ↔ (r ≡ success)

-- The stored functions have addresses, different for different functions.
pub record Addressed {ℓ} (F : Type ℓ) : Type ℓ where
  pub address : F → ℕ
  pub address_injective : (f g : F) → address f ≡ address g → f ≡ g

module _ {ℓ} {F : Type ℓ} ⦃a : Addressed F⦄ where
  -- std::find over the chain
  unfoldable pub find : F → List F → Bool
  find f [] = false
  find f (g ∷ chain) = a.address g == a.address f || find f chain

  unfoldable pub push_unique : F → List F → List F
  unfolding find
  push_unique f chain = if find f chain then chain else chain ++ f ∷ []

module _ {ℓ κ ι} {F : Type ℓ} {Args : Type κ} {R : Type ι} (call : F → Args → R)
    ⦃r : Returns R⦄ where
  unfoldable pub invoke : List F → Args → R
  invoke [] args = r.success
  invoke (f ∷ chain) args =
      let rval = call f args in
      let rest = invoke chain args in if r.succeeded rval then rest else rval

-- `chain.empty()`
unfoldable pub is_empty {ℓ} : {F : Type ℓ} → List F → Bool
is_empty [] = true
is_empty (f ∷ chain) = false
