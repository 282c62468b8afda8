-- ===== src/Node.antt =====
-- internal/node/node.go: one sing-box outbound or endpoint, as a JSON object.
pub mod Laws
use node_box.Prelude.{String}
use node_box.Json.{Json, Items, Fields, null, bool, num, str, arr, obj, nil, cons, end, field}
use node_box.Json.{get, put, text_of}

abbrev pub Node : Type 0
Node = Fields

unfoldable pub tag : Node → String
tag n = text_of (get "tag" n)

unfoldable pub set_tag : String → Node → Node
set_tag t n = put "tag" (str t) n

unfoldable pub type : Node → String
type n = text_of (get "type" n)

unfoldable pub detour : Node → String
detour n = text_of (get "detour" n)

unfoldable pub set_detour : String → Node → Node
set_detour t n = put "detour" (str t) n

unfoldable mutual
  pub clone_map : Fields → Fields
  clone_map end = end
  clone_map (field k v m) = field k (clone_value v) (clone_map m)

  pub clone_value : Json → Json
  clone_value (obj m) = obj (clone_map m)
  clone_value (arr xs) = arr (clone_items xs)
  clone_value null = null
  clone_value (bool b) = bool b
  clone_value (num n) = num n
  clone_value (str s) = str s

  pub clone_items : Items → Items
  clone_items nil = nil
  clone_items (cons x xs) = cons (clone_value x) (clone_items xs)

unfoldable pub clone : Node → Node
clone n = clone_map n
