-- ===== src/Samples/Build.antt =====
-- internal/build on small documents and pools.
use node_box.Prelude.{String, ◌≡◌, refl, List, [], ◌∷◌, Dict, ok, err, ◌↔◌, has, lookup}
use node_box.Json.{Json, Fields, str, arr, obj, end, field, items, get, elements}
use node_box.Node
use node_box.Node.{Node}
use node_box.Build.Errors.{undefined_member, unknown_detour}
use node_box.Build.Validate.{validate_document}
use node_box.Build.Validate.Spec.{IsWellFormed}
use node_box.Build.Validate.Exact.{validate_document_iff}
use node_box.Build.Detours.{close_over_detours}
use node_box.Build.Detours.Reachable.{Outcome}
use node_box.Build.Detours.Closed.{close_over_detours-Outcome}

abbrev node : String → String → Node
node tag type = field "tag" (str tag) (field "type" (str type) end)

abbrev chained : String → String → Node
chained tag detour = field "tag" (str tag) (field "detour" (str detour) end)

abbrev selector : String → List Json → Node
selector tag ms =
    field "tag" (str tag) (field "type" (str "selector") (field "outbounds" (arr (items ms)) end))

abbrev document : List Json → Fields
document xs = field "outbounds" (arr (items xs)) end

abbrev good : Fields
good = document (obj (selector "proxy" (str "direct" ∷ [])) ∷ obj (node "direct" "direct") ∷ [])

good_is_accepted : validate_document good ≡ ok tt
unfolding validate_document items get elements has Node.tag Node.type Node.detour
good_is_accepted = refl

dangling_is_rejected :
    validate_document (document (obj (selector "proxy" (str "gone" ∷ [])) ∷ []))
    ≡ err (undefined_member "selector" "proxy" "gone")
unfolding validate_document items get elements has Node.tag Node.type Node.detour
dangling_is_rejected = refl

validate_document_iff_example : (validate_document good ≡ ok tt) ↔ IsWellFormed good
validate_document_iff_example = validate_document_iff good

abbrev pool : Dict Node
pool =
    ("relay", chained "relay" "up")
    ∷ ("up", node "up" "vless")
    ∷ ("lost", chained "lost" "gone")
    ∷ []

relay_needs_its_upstream : close_over_detours pool [] ("relay" ∷ []) ≡ ok ("up" ∷ "relay" ∷ [])
unfolding close_over_detours get has lookup Node.detour
relay_needs_its_upstream = refl

lost_detour : close_over_detours pool [] ("lost" ∷ []) ≡ err (unknown_detour "lost" "gone")
unfolding close_over_detours get has lookup Node.detour
lost_detour = refl

close_over_detours-Outcome_example :
    Outcome pool [] ("relay" ∷ []) (close_over_detours pool [] ("relay" ∷ []))
close_over_detours-Outcome_example = close_over_detours-Outcome pool [] ("relay" ∷ [])
