-- ===== src/Subdoc/Traits.antt =====
-- daemon/subdocument_traits.h and .cc: what is known of each sub-document command, and the codes of
-- daemon/subdocument_validators.h.
use memcached.Common.{ℕ, ◌+◌, Bool, true, false, ◌==◌, if◌then◌else◌}
use memcached.Protocol.Opcodes

-- Subdoc::Command
pub data Command : Type 0 where
  get exists dict_add dict_upsert remove replace array_append array_prepend array_insert : Command
  array_add_unique counter get_count invalid : Command

pub data SubdocPath : Type 0 where
  single multi : SubdocPath

abbrev pub subdoc_flag_none : ℕ
subdoc_flag_none = 0

-- SUBDOC_FLAG_MKDIR_P | SUBDOC_FLAG_MKDOC
abbrev pub subdoc_flag_mkdir_p_mkdoc : ℕ
subdoc_flag_mkdir_p_mkdoc = 0x01 + 0x02

abbrev pub subdoc_path_max_length : ℕ
subdoc_path_max_length = 1024

abbrev pub subdoc_basic_extras_len : ℕ
subdoc_basic_extras_len = 3

abbrev pub subdoc_expiry_extras_len : ℕ
subdoc_expiry_extras_len = subdoc_basic_extras_len + 4

abbrev pub multi_max_paths : ℕ
multi_max_paths = 16

pub record SubdocCmdTraits : Type 0 where
  pub command : Command
  pub valid_flags : ℕ
  pub request_has_value : Bool
  pub allow_empty_path : Bool
  pub response_has_value : Bool
  pub is_mutator : Bool
  pub path : SubdocPath

pub record SubdocMultiCmdTraits : Type 0 where
  pub min_value_len : ℕ
  pub is_mutator : Bool

unfoldable pub subdoc_get_traits : SubdocCmdTraits
subdoc_get_traits = record {
  command = get;
  valid_flags = subdoc_flag_none;
  request_has_value = false;
  allow_empty_path = false;
  response_has_value = true;
  is_mutator = false;
  path = single;
}

unfoldable pub subdoc_exists_traits : SubdocCmdTraits
subdoc_exists_traits = record {
  command = exists;
  valid_flags = subdoc_flag_none;
  request_has_value = false;
  allow_empty_path = false;
  response_has_value = false;
  is_mutator = false;
  path = single;
}

unfoldable pub subdoc_dict_add_traits : SubdocCmdTraits
subdoc_dict_add_traits = record {
  command = dict_add;
  valid_flags = subdoc_flag_mkdir_p_mkdoc;
  request_has_value = true;
  allow_empty_path = false;
  response_has_value = false;
  is_mutator = true;
  path = single;
}

unfoldable pub subdoc_dict_upsert_traits : SubdocCmdTraits
subdoc_dict_upsert_traits = record {
  command = dict_upsert;
  valid_flags = subdoc_flag_mkdir_p_mkdoc;
  request_has_value = true;
  allow_empty_path = false;
  response_has_value = false;
  is_mutator = true;
  path = single;
}

unfoldable pub subdoc_delete_traits : SubdocCmdTraits
subdoc_delete_traits = record {
  command = remove;
  valid_flags = subdoc_flag_none;
  request_has_value = false;
  allow_empty_path = false;
  response_has_value = false;
  is_mutator = true;
  path = single;
}

unfoldable pub subdoc_replace_traits : SubdocCmdTraits
subdoc_replace_traits = record {
  command = replace;
  valid_flags = subdoc_flag_none;
  request_has_value = true;
  allow_empty_path = false;
  response_has_value = false;
  is_mutator = true;
  path = single;
}

unfoldable pub subdoc_array_push_last_traits : SubdocCmdTraits
subdoc_array_push_last_traits = record {
  command = array_append;
  valid_flags = subdoc_flag_mkdir_p_mkdoc;
  request_has_value = true;
  allow_empty_path = true;
  response_has_value = false;
  is_mutator = true;
  path = single;
}

unfoldable pub subdoc_array_push_first_traits : SubdocCmdTraits
subdoc_array_push_first_traits = record {
  command = array_prepend;
  valid_flags = subdoc_flag_mkdir_p_mkdoc;
  request_has_value = true;
  allow_empty_path = true;
  response_has_value = false;
  is_mutator = true;
  path = single;
}

unfoldable pub subdoc_array_insert_traits : SubdocCmdTraits
subdoc_array_insert_traits = record {
  command = array_insert;
  valid_flags = subdoc_flag_none;
  request_has_value = true;
  allow_empty_path = false;
  response_has_value = false;
  is_mutator = true;
  path = single;
}

unfoldable pub subdoc_array_add_unique_traits : SubdocCmdTraits
subdoc_array_add_unique_traits = record {
  command = array_add_unique;
  valid_flags = subdoc_flag_mkdir_p_mkdoc;
  request_has_value = true;
  allow_empty_path = true;
  response_has_value = false;
  is_mutator = true;
  path = single;
}

unfoldable pub subdoc_counter_traits : SubdocCmdTraits
subdoc_counter_traits = record {
  command = counter;
  valid_flags = subdoc_flag_mkdir_p_mkdoc;
  request_has_value = true;
  allow_empty_path = false;
  response_has_value = true;
  is_mutator = true;
  path = single;
}

unfoldable pub subdoc_get_count_traits : SubdocCmdTraits
subdoc_get_count_traits = record {
  command = get_count;
  valid_flags = subdoc_flag_none;
  request_has_value = false;
  allow_empty_path = true;
  response_has_value = true;
  is_mutator = false;
  path = single;
}

unfoldable pub subdoc_multi_lookup_traits : SubdocCmdTraits
subdoc_multi_lookup_traits = record {
  command = invalid;
  valid_flags = subdoc_flag_none;
  request_has_value = true;
  allow_empty_path = true;
  response_has_value = true;
  is_mutator = false;
  path = multi;
}

unfoldable pub subdoc_multi_mutation_traits : SubdocCmdTraits
subdoc_multi_mutation_traits = record {
  command = invalid;
  valid_flags = subdoc_flag_none;
  request_has_value = true;
  allow_empty_path = true;
  response_has_value = true;
  is_mutator = true;
  path = multi;
}

-- Header + 1 byte path.
unfoldable pub multi_lookup_traits : SubdocMultiCmdTraits
multi_lookup_traits = record { min_value_len = 4 + 1; is_mutator = false }

unfoldable pub multi_mutation_traits : SubdocMultiCmdTraits
multi_mutation_traits = record { min_value_len = 8 + 1; is_mutator = true }

unfoldable pub invalid_traits : SubdocCmdTraits
invalid_traits = record {
  command = invalid;
  valid_flags = subdoc_flag_none;
  request_has_value = false;
  allow_empty_path = false;
  response_has_value = false;
  is_mutator = false;
  path = single;
}

-- The dynamic lookup, by a spec's opcode.
unfoldable pub get_subdoc_cmd_traits : ℕ → SubdocCmdTraits
unfolding subdoc_get_traits subdoc_exists_traits subdoc_dict_add_traits subdoc_dict_upsert_traits
    subdoc_delete_traits subdoc_replace_traits subdoc_array_push_last_traits
    subdoc_array_push_first_traits subdoc_array_insert_traits subdoc_array_add_unique_traits
    subdoc_counter_traits subdoc_get_count_traits invalid_traits
get_subdoc_cmd_traits cmd =
    if cmd == Opcodes.cmd_subdoc_get
    then subdoc_get_traits
    else if cmd == Opcodes.cmd_subdoc_exists
    then subdoc_exists_traits
    else if cmd == Opcodes.cmd_subdoc_dict_add
    then subdoc_dict_add_traits
    else if cmd == Opcodes.cmd_subdoc_dict_upsert
    then subdoc_dict_upsert_traits
    else if cmd == Opcodes.cmd_subdoc_delete
    then subdoc_delete_traits
    else if cmd == Opcodes.cmd_subdoc_replace
    then subdoc_replace_traits
    else if cmd == Opcodes.cmd_subdoc_array_push_last
    then subdoc_array_push_last_traits
    else if cmd == Opcodes.cmd_subdoc_array_push_first
    then subdoc_array_push_first_traits
    else if cmd == Opcodes.cmd_subdoc_array_insert
    then subdoc_array_insert_traits
    else if cmd == Opcodes.cmd_subdoc_array_add_unique
    then subdoc_array_add_unique_traits
    else if cmd == Opcodes.cmd_subdoc_counter
    then subdoc_counter_traits
    else if cmd == Opcodes.cmd_subdoc_get_count
    then subdoc_get_count_traits
    else invalid_traits
