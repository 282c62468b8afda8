-- ===== src/Build/Injector.antt =====
-- internal/build/inject.go: the node pool, the relay nodes, and what a selector rule matches.
pub mod Selects
pub mod Pool
pub mod Relays
use node_box.Prelude.{
  String, Bool, true, false, not, ◌&&◌, ◌||◌, Option, none, some, List, [], ◌∷◌, ◌++◌, map, foldl,
  ◌==◌, if◌then◌else◌, Result, ok, err, fold_each, is_nil, select, Names, has, Dict, lookup, insert,
}
use node_box.Node
use node_box.Node.{Node}
use node_box.Model
use node_box.Model.{
  NodesConfig, NodeSelector, Subscription, Relay, Module, ConfigFile, SelectorRule,
}
use node_box.TextUtil.{RuneClass, concat, has_prefix, contains_ignore_emoji}
use node_box.Build.Errors.{Error, via_matched_nothing, upstream_matched_nothing}

-- `nodes` is inj.cfg.Nodes.
pub record Injector : Type 0 where
  pub nodes : NodesConfig
  pub pool : List Node
  pub relays : Dict (List Node)
  pub by_tag : Dict Node
  pub modules : Dict Module

unfoldable pub belongs_to : String → String → Bool
unfolding has_prefix concat
belongs_to tag sub_name = has_prefix tag (concat "[" (concat sub_name "] "))

abbrev pub relay_tag : Node → Node → String
relay_tag tmpl up = concat (Node.tag tmpl) (concat " " (Node.tag up))

unfoldable pub relay_node : Node → Node → Node
relay_node tmpl up =
    Node.set_detour (Node.tag up) (Node.set_tag (relay_tag tmpl up) (Node.clone tmpl))

-- The nodes that a map of slices holds under a name: nil where the name is missing.
unfoldable pub nodes_at : String → Dict (List Node) → List Node
nodes_at name m = elim (lookup name m) [ none ↦ [] | some ns ↦ ns ]

unfoldable pub index_modules : List Module → Dict Module
index_modules ms = foldl (λ (d : Dict Module) (m : Module). insert m.name m d) [] ms

-- the body of the loop over the nodes of one subscription
unfoldable pub add_node : Injector → Node → Injector
add_node inj n = if Node.tag n == "" then inj else elim (lookup (Node.tag n) inj.by_tag) [
  | some _ ↦ inj
  | none ↦ record inj { pool = inj.pool ++ n ∷ []; by_tag = insert (Node.tag n) n inj.by_tag }
]

unfoldable pub add_subscription : Dict (List Node) → Injector → Subscription → Injector
add_subscription nodes inj sub =
    if sub.enable then foldl add_node inj (nodes_at sub.name nodes) else inj

-- newInjector up to its call of buildRelays
unfoldable pub fill_pool : NodesConfig → List Module → Dict (List Node) → Injector
unfolding add_subscription add_node index_modules
fill_pool cfg modules nodes =
    foldl (add_subscription nodes)
      (record { nodes = cfg; pool = []; relays = []; by_tag = []; modules = index_modules modules })
      cfg.subscriptions

-- What one relay definition has produced so far.
pub record Pairing : Type 0 where
  pub generated : List Node
  pub seen : Names
  pub by_tag : Dict Node

-- if _, taken := byTag[tag]; !taken { byTag[tag] = n }
keep_or_add : String → Node → Dict Node → Option Node → Dict Node
keep_or_add tag n m (some _) = m
keep_or_add tag n m none = insert tag n m

unfoldable pub add_if_new : String → Node → Dict Node → Dict Node
unfolding keep_or_add
add_if_new tag n m = keep_or_add tag n m (lookup tag m)

unfoldable pub add_pair : Node → Pairing → Node → Pairing
unfolding add_if_new
add_pair tmpl p up = if has (relay_tag tmpl up) p.seen then p else record {
  generated = p.generated ++ relay_node tmpl up ∷ [];
  seen = relay_tag tmpl up ∷ p.seen;
  by_tag = add_if_new (relay_tag tmpl up) (relay_node tmpl up) p.by_tag;
}

unfoldable pub add_pairs : List Node → Pairing → Node → Pairing
unfolding add_pair
add_pairs upstreams p tmpl = foldl (add_pair tmpl) p upstreams

unfoldable pub pair_all : Dict Node → List Node → List Node → Pairing
unfolding add_pairs
pair_all by_tag templates upstreams =
    foldl (add_pairs upstreams) (record { generated = []; seen = []; by_tag = by_tag }) templates

unfoldable pub rules_of : Option Module → List SelectorRule
rules_of none = []
rules_of (some m) = m.selectors

unfoldable pub rules_for : Injector → List String → List SelectorRule
unfolding rules_of
rules_for inj [] = []
rules_for inj (name ∷ names) = rules_of (lookup name inj.modules) ++ rules_for inj names

module _ (so : RuneClass) where
  unfoldable pub any_keyword : String → List String → Bool
  any_keyword tag [] = false
  any_keyword tag (kw ∷ kws) =
      (not (kw == "") && contains_ignore_emoji so tag kw) || any_keyword tag kws

  unfoldable pub matches : String → List String → List String → Bool
  unfolding any_keyword
  matches tag include exclude =
      if not (is_nil include) && not (any_keyword tag include)
      then false
      else not (any_keyword tag exclude)

  -- the two conditions of the inner loop of resolve
  unfoldable pub picks : NodeSelector → Subscription → Node → Bool
  unfolding matches belongs_to
  picks sel sub n = belongs_to (Node.tag n) sub.name && matches (Node.tag n) sel.include sel.exclude

  unfoldable pub resolve_from : List Node → NodeSelector → List Subscription → List Node
  unfolding picks
  resolve_from pool sel [] = []
  resolve_from pool sel (sub ∷ subs) =
      let rest = resolve_from pool sel subs in
      if not sub.enable || not (has sub.name sel.from)
      then rest
      else select (picks sel sub) pool ++ rest

  unfoldable pub resolve : Injector → NodeSelector → List Node
  unfolding resolve_from
  resolve inj sel =
      if Model.is_empty sel then [] else resolve_from inj.pool sel inj.nodes.subscriptions

  unfoldable pub matched_tags : Injector → List NodeSelector → Names
  unfolding resolve
  matched_tags inj [] = []
  matched_tags inj (sel ∷ sels) = map Node.tag (resolve inj sel) ++ matched_tags inj sels

  unfoldable pub resolve_union : Injector → List NodeSelector → List Node
  unfolding matched_tags
  resolve_union inj sels =
      let matched = matched_tags inj sels in select (λ n. has (Node.tag n) matched) inj.pool

  unfoldable pub store_relay : Injector → String → Pairing → Injector
  store_relay inj name p = record inj {
    relays = insert name p.generated inj.relays;
    by_tag = p.by_tag;
  }

  -- the body of the loop of buildRelays
  unfoldable pub add_relay : Injector → Relay → Result Error Injector
  unfolding resolve_union store_relay pair_all
  add_relay inj r =
      let templates = resolve_union inj r.via in
      let upstreams = resolve_union inj r.upstream in
      if is_nil templates
      then err (via_matched_nothing r.name)
      else if is_nil upstreams
      then err (upstream_matched_nothing r.name)
      else ok (store_relay inj r.name (pair_all inj.by_tag templates upstreams))

  unfoldable pub build_relays : Injector → Result Error Injector
  unfolding add_relay
  build_relays inj = fold_each add_relay inj inj.nodes.relays

  unfoldable pub new_injector : NodesConfig → List Module → Dict (List Node) → Result Error Injector
  unfolding build_relays fill_pool
  new_injector cfg modules nodes = build_relays (fill_pool cfg modules nodes)

  unfoldable pub wanted_relays : Dict (List Node) → Names → List Relay → List Node
  wanted_relays relays wanted [] = []
  wanted_relays relays wanted (r ∷ rs) =
      let rest = wanted_relays relays wanted rs in
      if has r.name wanted then nodes_at r.name relays ++ rest else rest

  unfoldable pub members : Injector → SelectorRule → List Node
  unfolding wanted_relays resolve
  members inj rule =
      wanted_relays inj.relays rule.relays inj.nodes.relays ++ resolve inj rule.node_selector
