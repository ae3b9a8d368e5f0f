-- ===== src/Validators/Conforms/Dcp.antt =====
-- The formats of the commands in Validators/Dcp.antt.
use memcached.Common.{◌≡◌, ◌↔◌, arith}
use memcached.Protocol.{Packet, success}
use memcached.Validators.Format.{Conforms, any, exactly, at_least}
use memcached.Validators.Dcp.{
  dcp_open_validator, dcp_add_stream_validator, dcp_close_stream_validator,
  dcp_snapshot_marker_validator, dcp_deletion_validator, dcp_expiration_validator,
  dcp_flush_validator, dcp_get_failover_log_validator, dcp_mutation_validator, dcp_noop_validator,
  dcp_buffer_acknowledgement_validator, dcp_control_validator, dcp_stream_end_validator,
  dcp_stream_req_validator,
}
use memcached.Validators.Conforms.Lengths.{Facts, format}

module _ (req : Packet) (facts : Facts req) where
  pub dcp_open_validator-Conforms :
      (dcp_open_validator req ≡ success)
      ↔ Conforms (format (exactly 8) (at_least 1) any any (exactly 0)) req
  unfolding dcp_open_validator
  dcp_open_validator-Conforms = (λ h. ground arith, λ c. ground arith)

  pub dcp_add_stream_validator-Conforms :
      (dcp_add_stream_validator req ≡ success)
      ↔ Conforms (format (exactly 4) (exactly 0) (exactly 0) any (exactly 0)) req
  unfolding dcp_add_stream_validator
  dcp_add_stream_validator-Conforms = (λ h. ground arith, λ c. ground arith)

  pub dcp_close_stream_validator-Conforms :
      (dcp_close_stream_validator req ≡ success)
      ↔ Conforms (format (exactly 0) (exactly 0) (exactly 0) any (exactly 0)) req
  unfolding dcp_close_stream_validator
  dcp_close_stream_validator-Conforms = (λ h. ground arith, λ c. ground arith)

  pub dcp_snapshot_marker_validator-Conforms :
      (dcp_snapshot_marker_validator req ≡ success)
      ↔ Conforms (format (exactly 20) (exactly 0) (exactly 0) any (exactly 0)) req
  unfolding dcp_snapshot_marker_validator
  dcp_snapshot_marker_validator-Conforms = (λ h. ground arith, λ c. ground arith)

  pub dcp_deletion_validator-Conforms :
      (dcp_deletion_validator req ≡ success)
      ↔ Conforms (format (exactly 18) (at_least 1) any any any) req
  unfolding dcp_deletion_validator
  dcp_deletion_validator-Conforms = (λ h. ground arith, λ c. ground arith)

  pub dcp_expiration_validator-Conforms :
      (dcp_expiration_validator req ≡ success)
      ↔ Conforms (format (exactly 18) (at_least 1) (exactly 0) any any) req
  unfolding dcp_expiration_validator
  dcp_expiration_validator-Conforms = (λ h. ground arith, λ c. ground arith)

  pub dcp_flush_validator-Conforms :
      (dcp_flush_validator req ≡ success)
      ↔ Conforms (format (exactly 0) (exactly 0) (exactly 0) any (exactly 0)) req
  unfolding dcp_flush_validator
  dcp_flush_validator-Conforms = (λ h. ground arith, λ c. ground arith)

  pub dcp_get_failover_log_validator-Conforms :
      (dcp_get_failover_log_validator req ≡ success)
      ↔ Conforms (format (exactly 0) (exactly 0) (exactly 0) any (exactly 0)) req
  unfolding dcp_get_failover_log_validator
  dcp_get_failover_log_validator-Conforms = (λ h. ground arith, λ c. ground arith)

  pub dcp_mutation_validator-Conforms :
      (dcp_mutation_validator req ≡ success)
      ↔ Conforms (format (exactly 31) (at_least 1) any any any) req
  unfolding dcp_mutation_validator
  dcp_mutation_validator-Conforms = (λ h. ground arith, λ c. ground arith)

  pub dcp_noop_validator-Conforms :
      (dcp_noop_validator req ≡ success)
      ↔ Conforms (format (exactly 0) (exactly 0) (exactly 0) any (exactly 0)) req
  unfolding dcp_noop_validator
  dcp_noop_validator-Conforms = (λ h. ground arith, λ c. ground arith)

  pub dcp_buffer_acknowledgement_validator-Conforms :
      (dcp_buffer_acknowledgement_validator req ≡ success)
      ↔ Conforms (format (exactly 4) (exactly 0) (exactly 0) any (exactly 0)) req
  unfolding dcp_buffer_acknowledgement_validator
  dcp_buffer_acknowledgement_validator-Conforms = (λ h. ground arith, λ c. ground arith)

  pub dcp_control_validator-Conforms :
      (dcp_control_validator req ≡ success)
      ↔ Conforms (format (exactly 0) (at_least 1) (at_least 1) any (exactly 0)) req
  unfolding dcp_control_validator
  dcp_control_validator-Conforms = (λ h. ground arith, λ c. ground arith)

  pub dcp_stream_end_validator-Conforms :
      (dcp_stream_end_validator req ≡ success)
      ↔ Conforms (format (exactly 4) (exactly 0) (exactly 0) any (exactly 0)) req
  unfolding dcp_stream_end_validator
  dcp_stream_end_validator-Conforms = (λ h. ground arith, λ c. ground arith)

  pub dcp_stream_req_validator-Conforms :
      (dcp_stream_req_validator req ≡ success)
      ↔ Conforms (format (exactly 48) (exactly 0) any any (exactly 0)) req
  unfolding dcp_stream_req_validator
  dcp_stream_req_validator-Conforms = (λ h. ground arith, λ c. ground arith)
