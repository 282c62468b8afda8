-- ===== src/Build/Validate/Spec.antt =====
-- What a generated document must satisfy, with no order of checks in it.
use node_box.Prelude.{
  String, ◌≢◌, Option, none, some, List, [], ◌++◌, map, All, In, Names, IsDistinct,
}
use node_box.Json.{Json, Fields, arr, str, end, get, array_of, objects, IsObject, elements}
use node_box.Node
use node_box.Node.{Node}
use node_box.Build.Validate.{endpoint_types, group_types}

-- the objects of one section
abbrev pub section_nodes : Fields → String → List Node
section_nodes doc section = objects (array_of (get section doc))

abbrev pub all_nodes : Fields → List Node
all_nodes doc = section_nodes doc "outbounds" ++ section_nodes doc "endpoints"

-- A section is absent, or an array of objects.
abbrev pub IsSection : Option Json → Type 0
IsSection none = Unit
IsSection (some (arr xs)) = All IsObject (elements xs)
IsSection (some _) = ⊥

abbrev pub IsPlaced : Node → Type 0
IsPlaced n = ¬ In (Node.type n) endpoint_types

-- A member is a text, and names a node of the document.
abbrev pub IsMember : Names → Json → Type 0
IsMember tags (str t) = In t tags
IsMember tags _ = ⊥

abbrev pub HasMembers : Names → Option Json → Type 0
HasMembers tags (some (arr xs)) = (elements xs ≢ []) × All (IsMember tags) (elements xs)
HasMembers tags _ = ⊥

-- A group has members, and each is defined.
abbrev pub IsGroupDefined : Names → Node → Type 0
IsGroupDefined tags n = In (Node.type n) group_types → HasMembers tags (get "outbounds" n)

-- A detour is absent, or names a node of the document.
abbrev pub IsDetourDefined : Names → Node → Type 0
IsDetourDefined tags n = Node.detour n ≢ "" → In (Node.detour n) tags

abbrev pub document_tags : Fields → Names
document_tags doc = map Node.tag (all_nodes doc)

pub record IsWellFormed (doc : Fields) : Type 0 where
  pub nonempty : doc ≢ end
  pub outbounds : IsSection (get "outbounds" doc)
  pub endpoints : IsSection (get "endpoints" doc)
  pub inbounds : IsSection (get "inbounds" doc)
  pub placed : All IsPlaced (section_nodes doc "outbounds")
  pub tagged : All (λ n. Node.tag n ≢ "") (all_nodes doc)
  pub distinct : IsDistinct (document_tags doc)
  pub groups : All (IsGroupDefined (document_tags doc)) (all_nodes doc)
  pub detours : All (IsDetourDefined (document_tags doc)) (all_nodes doc)
