-- ===== src/Validators/Conforms/Admin.antt =====
-- The formats of the commands in Validators/Admin.antt.
use memcached.Common.{◌≡◌, ◌↔◌, arith}
use memcached.Protocol.{Packet, success}
use memcached.Validators.Format.{Conforms, any, even, exactly, at_least, between}
use memcached.Validators.Admin.{
  isasl_refresh_validator, ssl_certs_refresh_validator, verbosity_validator, hello_validator,
  version_validator, quit_validator, sasl_list_mech_validator, sasl_auth_validator, noop_validator,
  get_cmd_timer_validator, get_ctrl_token_validator, init_complete_validator, ioctl_get_validator,
  ioctl_set_validator, audit_put_validator, audit_config_reload_validator, shutdown_validator,
  get_adjusted_time_validator, set_drift_counter_state_validator,
}
use memcached.Validators.Conforms.Lengths.{Facts, format}

module _ (req : Packet) (facts : Facts req) where
  pub isasl_refresh_validator-Conforms :
      (isasl_refresh_validator req ≡ success)
      ↔ Conforms (format (exactly 0) (exactly 0) (exactly 0) (exactly 0) (exactly 0)) req
  unfolding isasl_refresh_validator
  isasl_refresh_validator-Conforms = (λ h. ground arith, λ c. ground arith)

  pub ssl_certs_refresh_validator-Conforms :
      (ssl_certs_refresh_validator req ≡ success)
      ↔ Conforms (format (exactly 0) (exactly 0) (exactly 0) (exactly 0) (exactly 0)) req
  unfolding ssl_certs_refresh_validator
  ssl_certs_refresh_validator-Conforms = (λ h. ground arith, λ c. ground arith)

  pub verbosity_validator-Conforms :
      (verbosity_validator req ≡ success)
      ↔ Conforms (format (exactly 4) (exactly 0) (exactly 0) (exactly 0) (exactly 0)) req
  unfolding verbosity_validator
  verbosity_validator-Conforms = (λ h. ground arith, λ c. ground arith)

  pub hello_validator-Conforms :
      (hello_validator req ≡ success)
      ↔ Conforms (format (exactly 0) any even (exactly 0) (exactly 0)) req
  unfolding hello_validator
  hello_validator-Conforms = (λ h. ground arith, λ c. ground arith)

  pub version_validator-Conforms :
      (version_validator req ≡ success)
      ↔ Conforms (format (exactly 0) (exactly 0) (exactly 0) (exactly 0) (exactly 0)) req
  unfolding version_validator
  version_validator-Conforms = (λ h. ground arith, λ c. ground arith)

  pub quit_validator-Conforms :
      (quit_validator req ≡ success)
      ↔ Conforms (format (exactly 0) (exactly 0) (exactly 0) (exactly 0) (exactly 0)) req
  unfolding quit_validator
  quit_validator-Conforms = (λ h. ground arith, λ c. ground arith)

  pub sasl_list_mech_validator-Conforms :
      (sasl_list_mech_validator req ≡ success)
      ↔ Conforms (format (exactly 0) (exactly 0) (exactly 0) (exactly 0) (exactly 0)) req
  unfolding sasl_list_mech_validator
  sasl_list_mech_validator-Conforms = (λ h. ground arith, λ c. ground arith)

  pub sasl_auth_validator-Conforms :
      (sasl_auth_validator req ≡ success)
      ↔ Conforms (format (exactly 0) (at_least 1) any (exactly 0) (exactly 0)) req
  unfolding sasl_auth_validator
  sasl_auth_validator-Conforms = (λ h. ground arith, λ c. ground arith)

  pub noop_validator-Conforms :
      (noop_validator req ≡ success)
      ↔ Conforms (format (exactly 0) (exactly 0) (exactly 0) (exactly 0) (exactly 0)) req
  unfolding noop_validator
  noop_validator-Conforms = (λ h. ground arith, λ c. ground arith)

  pub get_cmd_timer_validator-Conforms :
      (get_cmd_timer_validator req ≡ success)
      ↔ Conforms (format (exactly 1) any (exactly 0) (exactly 0) (exactly 0)) req
  unfolding get_cmd_timer_validator
  get_cmd_timer_validator-Conforms = (λ h. ground arith, λ c. ground arith)

  pub get_ctrl_token_validator-Conforms :
      (get_ctrl_token_validator req ≡ success)
      ↔ Conforms (format (exactly 0) (exactly 0) (exactly 0) (exactly 0) (exactly 0)) req
  unfolding get_ctrl_token_validator
  get_ctrl_token_validator-Conforms = (λ h. ground arith, λ c. ground arith)

  pub init_complete_validator-Conforms :
      (init_complete_validator req ≡ success)
      ↔ Conforms (format (exactly 0) (exactly 0) (exactly 0) any (exactly 0)) req
  unfolding init_complete_validator
  init_complete_validator-Conforms = (λ h. ground arith, λ c. ground arith)

  pub ioctl_get_validator-Conforms :
      (ioctl_get_validator req ≡ success)
      ↔ Conforms (format (exactly 0) (between 1 128) (exactly 0) (exactly 0) (exactly 0)) req
  unfolding ioctl_get_validator
  ioctl_get_validator-Conforms = (λ h. ground arith, λ c. ground arith)

  pub ioctl_set_validator-Conforms :
      (ioctl_set_validator req ≡ success)
      ↔ Conforms (format (exactly 0) (between 1 128) (between 0 128) (exactly 0) (exactly 0)) req
  unfolding ioctl_set_validator
  ioctl_set_validator-Conforms = (λ h. ground arith, λ c. ground arith)

  pub audit_put_validator-Conforms :
      (audit_put_validator req ≡ success)
      ↔ Conforms (format (exactly 4) (exactly 0) (at_least 1) (exactly 0) (exactly 0)) req
  unfolding audit_put_validator
  audit_put_validator-Conforms = (λ h. ground arith, λ c. ground arith)

  pub audit_config_reload_validator-Conforms :
      (audit_config_reload_validator req ≡ success)
      ↔ Conforms (format (exactly 0) (exactly 0) (exactly 0) (exactly 0) (exactly 0)) req
  unfolding audit_config_reload_validator
  audit_config_reload_validator-Conforms = (λ h. ground arith, λ c. ground arith)

  pub shutdown_validator-Conforms :
      (shutdown_validator req ≡ success)
      ↔ Conforms (format (exactly 0) (exactly 0) (exactly 0) (at_least 1) (exactly 0)) req
  unfolding shutdown_validator
  shutdown_validator-Conforms = (λ h. ground arith, λ c. ground arith)

  pub get_adjusted_time_validator-Conforms :
      (get_adjusted_time_validator req ≡ success)
      ↔ Conforms (format (exactly 0) (exactly 0) (exactly 0) (exactly 0) (exactly 0)) req
  unfolding get_adjusted_time_validator
  get_adjusted_time_validator-Conforms = (λ h. ground arith, λ c. ground arith)

  pub set_drift_counter_state_validator-Conforms :
      (set_drift_counter_state_validator req ≡ success)
      ↔ Conforms (format (exactly 9) (exactly 0) (exactly 0) any (exactly 0)) req
  unfolding set_drift_counter_state_validator
  set_drift_counter_state_validator-Conforms = (λ h. ground arith, λ c. ground arith)
