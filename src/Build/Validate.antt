-- ===== src/Build/Validate.antt =====
-- internal/build/validate.go: the checks on a generated document. `IsWellFormed` in the child Spec
-- says what they are for.
pub mod Spec
pub mod Tags
pub mod Exact
use node_box.Prelude.{
  ℕ, suc, String, Bool, true, false, not, ◌&&◌, Option, none, some, List, [], ◌∷◌, ◌==◌,
  if◌then◌else◌, Result, ok, err, ◌>>=◌, ◌>>◌, fail_if, for_each, for_each_at, Names, has,
}
use node_box.Json.{Json, Fields, obj, end, field, get, as_text, as_array, array_of, as_object}
use node_box.Node
use node_box.Node.{Node}
use node_box.Build.Errors.{
  Error, empty_document, not_array, not_object, misplaced_endpoint, no_tag, duplicate_tag,
  no_members, non_string_member, undefined_member, undefined_detour, panic,
}

-- types whose nodes belong under "endpoints"
abbrev pub endpoint_types : Names
endpoint_types = "wireguard" ∷ "tailscale" ∷ "openvpn-client" ∷ []

-- types whose members are other outbounds
abbrev pub group_types : Names
group_types = "selector" ∷ "urltest" ∷ []

abbrev pub Check : Type 0
Check = Result Error (Unit {0})

check_object : String → ℕ → Json → Check
check_object section i (obj _) = ok tt
check_object section i _ = err (not_object section i)

check_array : String → Option (List Json) → Check
check_array section none = err (not_array section)
check_array section (some xs) = for_each_at (check_object section) 0 xs

check_value : String → Option Json → Check
check_value section none = ok tt
check_value section (some raw) = check_array section (as_array (some raw))

unfoldable pub check_array_section : Fields → String → Check
unfolding check_value check_array check_object
check_array_section doc section = check_value section (get section doc)

place_item : Json → Check
place_item (obj n) =
    fail_if (has (Node.type n) endpoint_types) (misplaced_endpoint (Node.tag n) (Node.type n))
place_item _ = ok tt

unfoldable pub check_endpoint_placement : Fields → Check
unfolding place_item
check_endpoint_placement doc = for_each place_item (array_of (get "outbounds" doc))

add_tag : String → ℕ → Option String → Names → Result Error Names
add_tag section i none tags = err (no_tag section i)
add_tag section i (some t) tags =
    if t == ""
    then err (no_tag section i)
    else if has t tags
    then err (duplicate_tag t)
    else ok (t ∷ tags)

collect_item : String → ℕ → Json → Names → Result Error Names
collect_item section i (obj n) tags = add_tag section i (as_text (get "tag" n)) tags
collect_item section i _ tags = err panic

collect_section : String → ℕ → List Json → Names → Result Error Names
collect_section section i [] tags = ok tags
collect_section section i (raw ∷ rest) tags =
    collect_item section i raw tags >>= λ t. collect_section section (suc i) rest t

unfoldable pub collect_tags : Fields → Result Error Names
unfolding collect_section collect_item add_tag
collect_tags doc = do
  tags ← collect_section "outbounds" 0 (array_of (get "outbounds" doc)) []
  collect_section "endpoints" 0 (array_of (get "endpoints" doc)) tags

check_name : Names → Node → Option String → Check
check_name tags n none = err (non_string_member (Node.type n) (Node.tag n))
check_name tags n (some name) =
    fail_if (not (has name tags)) (undefined_member (Node.type n) (Node.tag n) name)

check_member : Names → Node → Json → Check
check_member tags n m = check_name tags n (as_text (some m))

check_members : Names → Node → Option (List Json) → Check
check_members tags n none = err (no_members (Node.type n) (Node.tag n))
check_members tags n (some []) = err (no_members (Node.type n) (Node.tag n))
check_members tags n (some (m ∷ ms)) = for_each (check_member tags n) (m ∷ ms)

check_group : Names → Node → Check
check_group tags n =
    if has (Node.type n) group_types
    then check_members tags n (as_array (get "outbounds" n))
    else ok tt

check_detour : Names → Node → Check
check_detour tags n =
    fail_if (not (Node.detour n == "") && not (has (Node.detour n) tags))
      (undefined_detour (Node.tag n) (Node.detour n))

reference_item : Names → Json → Check
reference_item tags (obj n) = check_group tags n >> check_detour tags n
reference_item tags _ = err panic

unfoldable pub check_references : Fields → Names → Check
unfolding reference_item check_group check_members check_member check_name check_detour
check_references doc tags =
    for_each (reference_item tags) (array_of (get "outbounds" doc))
    >> for_each (reference_item tags) (array_of (get "endpoints" doc))

is_empty : Fields → Bool
is_empty end = true
is_empty (field _ _ _) = false

unfoldable pub validate_document : Fields → Check
unfolding is_empty check_array_section check_endpoint_placement collect_tags check_references
validate_document doc = do
  fail_if (is_empty doc) empty_document
  check_array_section doc "outbounds"
  check_array_section doc "endpoints"
  check_array_section doc "inbounds"
  check_endpoint_placement doc
  tags ← collect_tags doc
  check_references doc tags
