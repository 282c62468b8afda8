-- ===== src/Build/Apply.antt =====
-- internal/build/apply.go: filling in selectors and inserting the nodes that they need. The objects
-- of doc["outbounds"] are shared by the slice that inject reads first: a change of one is a change
-- of the document, so the changed list is put back before nodes are appended.
pub mod Inserted
use node_box.Prelude.{
  String, Bool, false, not, ◌||◌, Option, none, some, List, [], ◌∷◌, ◌++◌, map, ◌==◌, if◌then◌else◌,
  Result, ok, err, ◌>>=◌, fold_each, is_nil, select, Names, has, Dict,
}
use mathlib.Core.Option
use node_box.Json.{
  Json, Fields, null, bool, num, str, arr, obj, get, put, items, as_text, as_array, array_of,
  objects,
}
use node_box.Node
use node_box.Node.{Node}
use node_box.Model.{Relay, SelectorRule, ConfigFile}
use node_box.TextUtil.{RuneClass}
use node_box.Build.Errors.{Error, no_outbounds_array, undeclared_selector, panic}
use node_box.Build.Validate.{endpoint_types}
use node_box.Build.Injector.{Injector, nodes_at, rules_for, members}
use node_box.Build.Detours.{close_over_detours}

-- the tags that one section declares
unfoldable pub declared_tags : List Json → Names
declared_tags xs = select (λ t. not (t == "")) (map Node.tag (objects xs))

unfoldable pub document_tags : Fields → Names
unfolding declared_tags
document_tags doc =
    declared_tags (array_of (get "outbounds" doc)) ++ declared_tags (array_of (get "endpoints" doc))

-- `t, ok := obj["tag"].(string); ok && t == tag`
unfoldable pub carries : String → Fields → Bool
carries tag m = elim (as_text (get "tag" m)) [ none ↦ false | some t ↦ t == tag ]

-- the texts of an array
unfoldable pub texts : List Json → Names
texts [] = []
texts (str t ∷ xs) = t ∷ texts xs
texts (null ∷ xs) = texts xs
texts (bool _ ∷ xs) = texts xs
texts (num _ ∷ xs) = texts xs
texts (arr _ ∷ xs) = texts xs
texts (obj _ ∷ xs) = texts xs

-- the tags that addMembers appends, given those that are listed
unfoldable pub new_members : Names → List Node → Names
new_members listed [] = []
new_members listed (n ∷ ns) =
    let known = new_members listed ns in
    let added = Node.tag n ∷ new_members (Node.tag n ∷ listed) ns in
    if has (Node.tag n) listed then known else added

unfoldable pub add_members : List Node → Fields → Fields
unfolding new_members texts
add_members ns selector =
    let existing = array_of (get "outbounds" selector) in
    put "outbounds" (arr (items (existing ++ map str (new_members (texts existing) ns)))) selector

-- findByTag, then a change of the object that it returns
unfoldable pub update_by_tag : (Fields → Fields) → String → List Json → Option (List Json)
unfolding carries
update_by_tag f tag [] = none
update_by_tag f tag (obj m ∷ xs) =
    let rest = Option.map (λ ys. obj m ∷ ys) (update_by_tag f tag xs) in
    if carries tag m then some (obj (f m) ∷ xs) else rest
update_by_tag f tag (x ∷ xs) = Option.map (λ ys. x ∷ ys) (update_by_tag f tag xs)

-- needed[n.Tag()] = true
unfoldable pub need : Names → List Node → Names
need needed [] = needed
need needed (n ∷ ns) = need (if has (Node.tag n) needed then needed else Node.tag n ∷ needed) ns

pub record Insertion : Type 0 where
  pub present : Names
  pub outbounds : List Node
  pub endpoints : List Node

-- the body of the loop of insert
unfoldable pub place : Names → Insertion → Node → Insertion
place needed s n =
    if not (has (Node.tag n) needed) || has (Node.tag n) s.present
    then s
    else if has (Node.type n) endpoint_types
    then record s { present = Node.tag n ∷ s.present; endpoints = s.endpoints ++ Node.clone n ∷ [] }
    else record s { present = Node.tag n ∷ s.present; outbounds = s.outbounds ++ Node.clone n ∷ [] }

unfoldable pub place_all : Names → Insertion → List Node → Insertion
unfolding place
place_all needed s [] = s
place_all needed s (n ∷ ns) = place_all needed (place needed s n) ns

unfoldable pub relay_nodes : Dict (List Node) → List Relay → List Node
relay_nodes relays [] = []
relay_nodes relays (r ∷ rs) = nodes_at r.name relays ++ relay_nodes relays rs

unfoldable pub candidates : Injector → List Node
unfolding relay_nodes
candidates inj = relay_nodes inj.relays inj.nodes.relays ++ inj.pool

-- doc["outbounds"].([]any) panics where it is no array
append_outbounds : List Node → Fields → Option (List Json) → Result Error Fields
append_outbounds ns doc none = err panic
append_outbounds ns doc (some xs) = ok (put "outbounds" (arr (items (xs ++ map obj ns))) doc)

unfoldable pub add_outbounds : List Node → Fields → Result Error Fields
unfolding append_outbounds
add_outbounds [] doc = ok doc
add_outbounds (n ∷ ns) doc = append_outbounds (n ∷ ns) doc (as_array (get "outbounds" doc))

unfoldable pub add_endpoints : List Node → Fields → Fields
add_endpoints [] doc = doc
add_endpoints (n ∷ ns) doc =
    put "endpoints" (arr (items (array_of (get "endpoints" doc) ++ map obj (n ∷ ns)))) doc

unfoldable pub insert_nodes : Injector → Fields → Names → Names → Result Error Fields
unfolding place_all candidates add_outbounds add_endpoints
insert_nodes inj doc needed present = do
  let s =
      place_all needed (record { present = present; outbounds = []; endpoints = [] })
        (candidates inj)
  doc' ← add_outbounds s.outbounds doc
  ok (add_endpoints s.endpoints doc')

module _ (so : RuneClass) where
  -- the body of the loop of inject over the rules: the outbounds and the needed tags
  unfoldable pub apply_rule :
      Injector → List Json × Names → SelectorRule → Result Error (List Json × Names)
  unfolding update_by_tag add_members need
  apply_rule inj (outbounds, needed) rule =
      let ns = members so inj rule in
      elim (update_by_tag (add_members ns) rule.tag outbounds) [
        | none ↦ err (undeclared_selector rule.tag)
        | some changed ↦ ok (changed, need needed ns)
      ]

  inject_rules : Injector → Fields → List SelectorRule → Option (List Json) → Result Error Fields
  inject_rules inj doc rules none = err no_outbounds_array
  inject_rules inj doc rules (some outbounds) = do
    (changed, needed) ← fold_each (apply_rule inj) (outbounds, []) rules
    closed ← close_over_detours inj.by_tag (document_tags doc) needed
    insert_nodes inj (put "outbounds" (arr (items changed)) doc) closed (document_tags doc)

  unfoldable pub inject : Injector → Fields → ConfigFile → Result Error Fields
  unfolding inject_rules apply_rule close_over_detours document_tags insert_nodes
  inject inj doc cf =
      let rules = rules_for inj cf.modules in
      if is_nil rules then ok doc else inject_rules inj doc rules (as_array (get "outbounds" doc))
