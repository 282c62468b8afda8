-- ===== src/Node/Laws.antt =====
-- internal/node/node.go: the setters of a node against its getters, and the clone.
use node_box.Prelude.{String, ◌≡◌, refl, ap, ap₂}
use node_box.Json.{
  Json, Items, Fields, null, bool, num, str, arr, obj, nil, cons, end, field, get-put,
}
use node_box.Node.{
  Node, tag, set_tag, detour, set_detour, clone, clone_map, clone_value, clone_items,
}

pub tag-set_tag : (t : String) (n : Node) → tag (set_tag t n) ≡ t
unfolding tag set_tag
tag-set_tag t n = rw get-put refl

pub tag-set_detour : (t : String) (n : Node) → tag (set_detour t n) ≡ tag n
unfolding tag set_detour
tag-set_detour t n = rw get-put refl

pub detour-set_detour : (t : String) (n : Node) → detour (set_detour t n) ≡ t
unfolding detour set_detour
detour-set_detour t n = rw get-put refl

-- A clone is the same value: what a deep copy adds is that no part is shared.
mutual
  unfolding clone_map clone_value clone_items

  clone_map-eq : (m : Fields) → clone_map m ≡ m
  clone_map-eq end = refl
  clone_map-eq (field k v m) = ap₂ (field k) (clone_value-eq v) (clone_map-eq m)

  clone_value-eq : (v : Json) → clone_value v ≡ v
  clone_value-eq (obj m) = ap obj (clone_map-eq m)
  clone_value-eq (arr xs) = ap arr (clone_items-eq xs)
  clone_value-eq null = refl
  clone_value-eq (bool b) = refl
  clone_value-eq (num n) = refl
  clone_value-eq (str s) = refl

  clone_items-eq : (xs : Items) → clone_items xs ≡ xs
  clone_items-eq nil = refl
  clone_items-eq (cons x xs) = ap₂ cons (clone_value-eq x) (clone_items-eq xs)

pub clone-eq : (n : Node) → clone n ≡ n
unfolding clone
clone-eq n = clone_map-eq n
