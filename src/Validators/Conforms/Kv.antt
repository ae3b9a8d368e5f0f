-- ===== src/Validators/Conforms/Kv.antt =====
-- The formats of the commands in Validators/Kv.antt.
use memcached.Common.{◌≡◌, ◌↔◌, arith}
use memcached.Protocol.{Packet, success}
use memcached.Validators.Format.{Conforms, any, exactly, at_least}
use memcached.Validators.Kv.{
  get_validator, delete_validator, stat_validator, arithmetic_validator, observe_seqno_validator,
  set_replace_validator, add_validator, append_prepend_validator,
}
use memcached.Validators.Conforms.Lengths.{Facts, format}

module _ (req : Packet) (facts : Facts req) where
  pub get_validator-Conforms :
      (get_validator req ≡ success)
      ↔ Conforms (format (exactly 0) (at_least 1) (exactly 0) (exactly 0) (exactly 0)) req
  unfolding get_validator
  get_validator-Conforms = (λ h. ground arith, λ c. ground arith)

  pub delete_validator-Conforms :
      (delete_validator req ≡ success)
      ↔ Conforms (format (exactly 0) (at_least 1) (exactly 0) any (exactly 0)) req
  unfolding delete_validator
  delete_validator-Conforms = (λ h. ground arith, λ c. ground arith)

  pub stat_validator-Conforms :
      (stat_validator req ≡ success)
      ↔ Conforms (format (exactly 0) any (exactly 0) (exactly 0) (exactly 0)) req
  unfolding stat_validator
  stat_validator-Conforms = (λ h. ground arith, λ c. ground arith)

  pub arithmetic_validator-Conforms :
      (arithmetic_validator req ≡ success)
      ↔ Conforms (format (exactly 20) (at_least 1) (exactly 0) any (exactly 0)) req
  unfolding arithmetic_validator
  arithmetic_validator-Conforms = (λ h. ground arith, λ c. ground arith)

  pub observe_seqno_validator-Conforms :
      (observe_seqno_validator req ≡ success)
      ↔ Conforms (format (exactly 0) (exactly 0) (exactly 8) any (exactly 0)) req
  unfolding observe_seqno_validator
  observe_seqno_validator-Conforms = (λ h. ground arith, λ c. ground arith)

  pub set_replace_validator-Conforms :
      (set_replace_validator req ≡ success)
      ↔ Conforms (format (exactly 8) (at_least 1) any any any) req
  unfolding set_replace_validator
  set_replace_validator-Conforms = (λ h. ground arith, λ c. ground arith)

  pub add_validator-Conforms :
      (add_validator req ≡ success)
      ↔ Conforms (format (exactly 8) (at_least 1) any (exactly 0) any) req
  unfolding add_validator
  add_validator-Conforms = (λ h. ground arith, λ c. ground arith)

  pub append_prepend_validator-Conforms :
      (append_prepend_validator req ≡ success)
      ↔ Conforms (format (exactly 0) (at_least 1) any any any) req
  unfolding append_prepend_validator
  append_prepend_validator-Conforms = (λ h. ground arith, λ c. ground arith)
