-- ===== src/Examples/Validation.antt =====
-- The theorems on validators, on concrete packets.
use memcached.Common.{◌≡◌, refl, ◌↔◌, arith}
use memcached.Protocol.{success, HasWidths, ntohs, ntohl}
use memcached.Chain.Table.{Registered}
use memcached.Validators.Names.{validate, get}
use memcached.Validators.Addresses.{validator_addressed, status_returns}
use memcached.Validators.Table.{validator_calls, validate_command, mcbp_validator_chains}
use memcached.Validators.Format.{Format, Conforms, exactly, at_least, format_of}
use memcached.Validators.Conforms.{validate_iff_Conforms}
use memcached.Validators.Dispatch.{validate_command_iff}
use memcached.Examples.Packets.{get_k}

abbrev get_format : Format
get_format = record {
  extras = exactly 0;
  key = at_least 1;
  value = exactly 0;
  cas = exactly 0;
  datatype = exactly 0;
}

get_k_widths : HasWidths get_k.header
unfolding ntohs ntohl
get_k_widths = record {
  keylen_width = omega arith;
  extlen_width = omega arith;
  bodylen_width = omega arith;
}

validate_iff_Conforms_example : (validate get get_k ≡ success) ↔ Conforms get_format get_k
unfolding ntohs ntohl format_of
validate_iff_Conforms_example =
    validate_iff_Conforms get get_k get_format get_k_widths (omega arith) refl

validate_command_iff_example :
    (validate_command mcbp_validator_chains 0 get_k ≡ success)
    ↔ Registered (λ v. validate v get_k ≡ success) 0 validator_calls
validate_command_iff_example = validate_command_iff 0 get_k
