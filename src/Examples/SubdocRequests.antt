-- ===== src/Examples/SubdocRequests.antt =====
-- The theorems on sub-document requests, on concrete requests.
use memcached.Protocol.Wire.{load16}
use memcached.Common.{inl, ℕ, ◌≤◌, ◌≡◌, refl, ◌↔◌, false, some, length, All, arith, ◌-◌, ◌^◌}
use memcached.Protocol.{success, ntohs, ntohl}
use memcached.Subdoc.Traits.{
  Command, subdoc_get_traits, subdoc_dict_upsert_traits, subdoc_multi_lookup_traits,
  multi_lookup_traits, get_subdoc_cmd_traits,
}
use memcached.Subdoc.Single.{subdoc_validator, pathlen_of, invalid_flags}
use memcached.Subdoc.Multi.{
  subdoc_multi_validator, multi_static_checks, multi_verdict, scan_specs, is_valid_multipath_spec,
  check_spec, read_spec, spec_len,
}
use memcached.Subdoc.Context.{
  Buffer, SubdocCmdContext, request_value, create_single, subdoc_create_context,
}
use memcached.Subdoc.Tiling.{ValidSpecs, subdoc_multi_validator_iff}
use memcached.Subdoc.Bounds.{ValidSingle, subdoc_validator_iff, subdoc_path_overrun}
use memcached.Subdoc.Decode.{operations, InBody, subdoc_create_context-multi}
use memcached.Examples.Packets.{subdoc_get_p, long_path, lookup_p}

-- A root type for every path.
abbrev object_root : Command → (ℕ → ℕ) → Buffer → ℕ
object_root command body path = 2

lookup_p-valid : subdoc_multi_validator multi_lookup_traits lookup_p ≡ success
unfolding subdoc_multi_validator multi_static_checks ntohs ntohl multi_lookup_traits multi_verdict
    scan_specs is_valid_multipath_spec check_spec get_subdoc_cmd_traits read_spec invalid_flags
    load16 spec_len
lookup_p-valid = refl

subdoc_create_context-multi_example :
    (v : ValidSpecs false lookup_p.body 1 6 16) × (done : SubdocCmdContext) × (1 ≤ length v.specs)
    × (subdoc_create_context object_root 1 17 subdoc_multi_lookup_traits lookup_p
          (request_value lookup_p)
        ≡ some done)
    × (done.ops ≡ operations false 1 v.specs)
    × All (InBody 6) done.ops
unfolding ntohs ntohl multi_lookup_traits subdoc_multi_lookup_traits
subdoc_create_context-multi_example =
    subdoc_create_context-multi object_root 1 multi_lookup_traits subdoc_multi_lookup_traits
      lookup_p refl refl (omega arith) lookup_p-valid

subdoc_multi_validator_iff_example :
    (subdoc_multi_validator multi_lookup_traits lookup_p ≡ success) ↔ (
      (multi_static_checks multi_lookup_traits lookup_p ≡ false)
      × ((v : ValidSpecs false lookup_p.body 1 6 16) × (1 ≤ length v.specs)))
unfolding ntohs ntohl multi_lookup_traits
subdoc_multi_validator_iff_example = subdoc_multi_validator_iff multi_lookup_traits lookup_p

subdoc_validator_iff_example :
    (subdoc_validator subdoc_get_traits subdoc_get_p ≡ success)
    ↔ ValidSingle subdoc_get_traits subdoc_get_p
unfolding ntohs ntohl
subdoc_validator_iff_example = subdoc_validator_iff subdoc_get_traits subdoc_get_p (omega arith)

subdoc_path_overrun_example :
    (subdoc_validator subdoc_dict_upsert_traits long_path ≡ success)
    × All
        (λ op. 2 ^ 64 - 1024 ≤ op.value.len)
        (create_single object_root 1 subdoc_dict_upsert_traits long_path
          (request_value long_path)).ops
unfolding ntohs ntohl subdoc_dict_upsert_traits pathlen_of load16 invalid_flags
subdoc_path_overrun_example =
    subdoc_path_overrun object_root 1 subdoc_dict_upsert_traits long_path (omega arith)
      (omega arith) refl refl (omega arith) refl (omega arith) refl (inl refl)
