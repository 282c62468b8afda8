-- ===== src/Build/Assemble.antt =====
-- internal/build/assemble.go: the modules of one output are merged by their top-level keys. What
-- json.Unmarshal makes of a text is a parameter. Go walks a section in the order of a map; the
-- model walks it in the order of its keys in the file.
pub mod Merge
use Prim.Native.Char.{code}
use node_box.Prelude.{
  ℕ, String, Bool, ◌||◌, Option, none, some, List, [], ◌∷◌, eqb, if◌then◌else◌, Result, ok, err,
  ◌>>=◌, fold_each, Dict, lookup, insert,
}
use node_box.Json.{Json, Fields, null, bool, num, str, arr, obj, end, field, put}
use node_box.TextUtil.{trim_space}
use node_box.Build.Errors.{
  Error, ModuleError, module_not_loaded, bad_module, key_conflict, file_is_empty, not_an_object,
  invalid_json,
}

abbrev pub Unmarshal : Type 0
Unmarshal = String → Option Json

unfoldable pub json_kind : ℕ → String
json_kind first =
    if eqb first b'['
    then "an array"
    else if eqb first 34
    then "a string"
    else if eqb first b't' || eqb first b'f'
    then "a boolean"
    else if eqb first b'n'
    then "null"
    else "a number"

-- a value decoded into map[string]any
section_of : Option Json → Result ModuleError Fields
section_of (some (obj m)) = ok m
section_of _ = err invalid_json

decode_trimmed : Unmarshal → String → Result ModuleError Fields
decode_trimmed unmarshal String.[] = err file_is_empty
decode_trimmed unmarshal (String.◌∷◌ c s) =
    if eqb (code c) b'{'
    then section_of (unmarshal (String.◌∷◌ c s))
    else err (not_an_object (json_kind (code c)))

unfoldable pub decode_module : Unmarshal → String → Result ModuleError Fields
unfolding decode_trimmed section_of
decode_module unmarshal raw = decode_trimmed unmarshal (trim_space raw)

-- The document, and the module that each of its keys came from.
pub record Assembly : Type 0 where
  pub doc : Fields
  pub owner : Dict String

-- the body of the loop over the keys of a section
unfoldable pub add_key : String → Assembly → String → Json → Result Error Assembly
add_key name s key value = elim (lookup key s.owner) [
  | some prev ↦ err (key_conflict prev name key)
  | none ↦ ok (record { doc = put key value s.doc; owner = insert key name s.owner })
]

unfoldable pub add_section : String → Assembly → Fields → Result Error Assembly
unfolding add_key
add_section name s end = ok s
add_section name s (field key value m) = do t ← add_key name s key value; add_section name t m

add_decoded : String → Assembly → Result ModuleError Fields → Result Error Assembly
add_decoded name s (ok section) = add_section name s section
add_decoded name s (err e) = err (bad_module name e)

add_loaded : Unmarshal → String → Assembly → Option String → Result Error Assembly
add_loaded unmarshal name s none = err (module_not_loaded name)
add_loaded unmarshal name s (some raw) = add_decoded name s (decode_module unmarshal raw)

-- the body of the loop over the modules
unfoldable pub add_module : Unmarshal → Dict String → Assembly → String → Result Error Assembly
unfolding add_loaded add_decoded add_section decode_module
add_module unmarshal modules s name = add_loaded unmarshal name s (lookup name modules)

unfoldable pub assemble : Unmarshal → Dict String → List String → Result Error Fields
unfolding add_module
assemble unmarshal modules names = do
  s ← fold_each (add_module unmarshal modules) (record { doc = end; owner = [] }) names
  ok s.doc
