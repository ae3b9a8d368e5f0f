-- ===== src/Subdoc/Context.antt =====
-- subdoc_create_context of daemon/subdocument.cc: a request's operations, with the buffers that the
-- executor will read. A buffer is its offset in the packet's body and its length, a size_t.
-- Subdoc::Util::get_root_type of the subjson library is a parameter.
use Prim.Native.Nat.{bit_and}
use memcached.Common.{
  ℕ, zero, suc, ◌+◌, ◌-◌, ◌%◌, ◌^◌, Bool, ◌&&◌, ◌==◌, ◌!=◌, ltb, if◌then◌else◌, List, [], ◌∷◌, ◌++◌,
  Option, none, some,
}
use memcached.Protocol.{Packet, ntohs, ntohl}
use memcached.Validators.Dcp.{sub32}
use memcached.Subdoc.Traits.{
  SubdocCmdTraits, single, multi, Command, get_subdoc_cmd_traits, subdoc_flag_mkdir_p_mkdoc,
}
use memcached.Subdoc.Single.{pathlen_of}
use memcached.Subdoc.Multi.{Spec, read_spec}

-- const_sized_buffer
pub record Buffer : Type 0 where
  pub at : ℕ
  pub len : ℕ

-- The constructor also sets FLAG_MKDIR_P in the command where the flags ask for it. The status and
-- the result are no part of this: the executor sets them later.
pub record OperationSpec : Type 0 where
  pub traits : SubdocCmdTraits
  pub flag_mkdir_p : Bool
  pub path : Buffer
  pub value : Buffer

pub record SubdocCmdContext : Type 0 where
  pub ops : List OperationSpec
  pub jroot_type : ℕ

abbrev pub no_buffer : Buffer
no_buffer = record { at = 0; len = 0 }

-- size_t a - b
abbrev pub sub64 : ℕ → ℕ → ℕ
sub64 a b = (a + 2 ^ 64 - b) % 2 ^ 64

-- `flags & SUBDOC_FLAG_MKDOC`
unfoldable pub mkdoc : ℕ → Bool
mkdoc flags = bit_and flags 2 != 0

-- The buffer behind the key (subdoc_executor).
unfoldable pub request_value : Packet → Buffer
request_value req = record {
  at = req.extlen + ntohs req.keylen;
  len = sub32 (sub32 (ntohl req.bodylen) (ntohs req.keylen)) req.extlen;
}

-- SubdocCmdContext::OperationSpec::OperationSpec
unfoldable pub operation_spec : SubdocCmdTraits → ℕ → Buffer → Buffer → OperationSpec
operation_spec traits flags path value = record {
  traits = traits;
  flag_mkdir_p = bit_and flags subdoc_flag_mkdir_p_mkdoc != 0;
  path = path;
  value = value;
}

-- One operation of a request on several paths; a lookup has no value.
unfoldable pub operation : Bool → ℕ → Spec → OperationSpec
unfolding operation_spec
operation mutator at spec =
    let path_at = at + spec.headerlen in
    operation_spec (get_subdoc_cmd_traits spec.opcode) spec.flags
      (record { at = path_at; len = spec.pathlen })
      (if mutator then record { at = path_at + spec.pathlen; len = spec.valuelen } else no_buffer)

module _ (get_root_type : Command → (ℕ → ℕ) → Buffer → ℕ) (jsonsl_t_root : ℕ) where
  unfoldable pub create_single : SubdocCmdTraits → Packet → Buffer → SubdocCmdContext
  unfolding pathlen_of mkdoc operation_spec
  create_single traits req value =
      let flags = req.body 2 in
      let path : Buffer = record { at = value.at; len = pathlen_of req } in
      let rest : Buffer = record { at = value.at + path.len; len = sub64 value.len path.len } in
      record {
        ops =
            operation_spec traits flags path (if traits.request_has_value then rest else no_buffer)
            ∷ [];
        jroot_type =
            if mkdoc flags then get_root_type traits.command req.body path else jsonsl_t_root;
      }

  unfoldable pub add_operation : (ℕ → ℕ) → ℕ → OperationSpec → SubdocCmdContext → SubdocCmdContext
  unfolding mkdoc
  add_operation body flags op context = record {
    ops = context.ops ++ op ∷ [];
    jroot_type =
        if mkdoc flags && context.jroot_type == 0
        then get_root_type op.traits.command body op.path
        else context.jroot_type;
  }

  -- `while (offset < value.len)`; `none` when the fuel runs out.
  unfoldable pub decode_specs :
      ℕ → Bool → (ℕ → ℕ) → Buffer → ℕ → SubdocCmdContext → Option SubdocCmdContext
  decode_specs zero mutator body value offset context = none
  decode_specs (suc fuel) mutator body value offset context =
      let spec = read_spec mutator body (value.at + offset) in
      let op = operation mutator (value.at + offset) spec in
      let next = offset + (spec.headerlen + op.path.len + op.value.len) in
      let rest =
        decode_specs fuel mutator body value next (add_operation body spec.flags op context) in
      if ltb offset value.len then rest else some context

  unfoldable pub subdoc_create_context :
      ℕ → SubdocCmdTraits → Packet → Buffer → Option SubdocCmdContext
  subdoc_create_context fuel traits req value = elim traits.path [
    | single ↦ some (create_single traits req value)
    | multi ↦
        decode_specs fuel traits.is_mutator req.body value 0
          (record { ops = []; jroot_type = jsonsl_t_root })
  ]
