-- ===== src/Build/Errors.antt =====
-- The errors of internal/build, with the values that their messages name.
use node_box.Prelude.{ℕ, String}

-- decodeModule
pub data ModuleError : Type 0 where
  file_is_empty : ModuleError
  not_an_object : String → ModuleError
  invalid_json : ModuleError

pub data Error : Type 0 where
  config_required : Error
  module_not_loaded : String → Error
  bad_module : String → ModuleError → Error
  key_conflict : String → String → String → Error
  via_matched_nothing upstream_matched_nothing : String → Error
  no_outbounds_array : Error
  undeclared_selector : String → Error
  unknown_detour : String → String → Error
  empty_document : Error
  not_array : String → Error
  not_object : String → ℕ → Error
  misplaced_endpoint : String → String → Error
  no_tag : String → ℕ → Error
  duplicate_tag : String → Error
  no_members non_string_member : String → String → Error
  undefined_member : String → String → String → Error
  undefined_detour : String → String → Error
  encode_failed : Error
  -- a type assertion without `ok` on a value of another type
  panic : Error
  -- of the model only
  out_of_fuel : Error
