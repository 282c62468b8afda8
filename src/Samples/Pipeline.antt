-- ===== src/Samples/Pipeline.antt =====
-- A whole build: one module, one subscription, one output with one selector to fill.
use node_box.Prelude.{
  String, ◌≡◌, refl, true, false, none, some, List, [], ◌∷◌, Dict, ok, ◌↔◌, has, lookup, insert,
  pos, select, In,
}
use node_box.Json.{Fields, str, arr, obj, end, field, items, get, put, elements, objects}
use node_box.Node
use node_box.Node.{Node}
use node_box.Model.{NodesConfig, NodeSelector, Subscription, Module, ConfigFile, Config}
use node_box.TextUtil.{RuneClass, contains_ignore_emoji, concat, has_prefix, trim_space}
use node_box.Build.Injector.{
  fill_pool, resolve, members, new_injector, rules_for, index_modules, nodes_at, Injector,
}
use node_box.Build.Injector.Relays.{IsPaired, pair_all-IsPaired}
use node_box.Build.Apply.{place_all}
use node_box.Build.Apply.Inserted.{IsInserted, place_all-IsInserted}
use node_box.Build.Injector.{pair_all}
use node_box.Build.Injector.Pool.{IsFilled, fill_pool-IsFilled}
use node_box.Build.Injector.Selects.{PickedBy, resolve_iff}
use node_box.Build.Assemble.{Unmarshal, assemble}
use node_box.Build.Assemble.Merge.{IsMerge, assemble-IsMerge}
use node_box.Build.Apply.{inject}
use node_box.Build.Validate.{validate_document}
use node_box.Build.Generate.{File, Input, Marshal, build, build_one, remove_empty_top_level, encode}
use node_box.Build.Generate.Files.{Answers, build-Answers}

abbrev pub no_symbols : RuneClass
no_symbols r = false

abbrev pub airport : Subscription
airport = record {
  name = "air";
  url = "https://air.example";
  path = "";
  type = "clash";
  enable = true;
  emoji = none;
  remove_keywords = [];
  user_agent = "";
}

abbrev from_airport : NodeSelector
from_airport = record { from = "air" ∷ []; include = []; exclude = "JP" ∷ [] }

abbrev pub base_module : Module
base_module = record {
  name = "base";
  file = "base.json";
  from_url = "";
  path = "";
  selectors = record { tag = "proxy"; node_selector = from_airport; relays = [] } ∷ [];
}

abbrev pub nodes_config : NodesConfig
nodes_config = record {
  subscriptions = airport ∷ [];
  exclude_keywords = [];
  relays = [];
  emoji_overrides = [];
}

abbrev pub server : String → Node
server tag = field "tag" (str tag) (field "type" (str "vless") end)

abbrev delivered : Dict (List Node)
delivered = ("air", server "[air] HK" ∷ server "[air] JP" ∷ []) ∷ []

abbrev base_document : Fields
base_document = field "log" (obj end) (
    field "outbounds"
      (arr (
        items (
          obj (field "tag" (str "proxy") (field "type" (str "selector") end))
          ∷ obj (field "tag" (str "direct") (field "type" (str "direct") end))
          ∷ [])))
      end)

abbrev pub unmarshal : Unmarshal
unmarshal text = some (obj base_document)

abbrev pub marshal : Marshal
marshal doc = some "{}"

abbrev modules : Dict String
modules = ("base", "{...}") ∷ []

abbrev main : ConfigFile
main = record { name = "main"; path = "main.json"; modules = "base" ∷ [] }

abbrev pub config : Config
config = record {
  output = none;
  nodes = some nodes_config;
  modules = base_module ∷ [];
  configs = main ∷ [];
  update_schedule = some (record { type = "Hourly"; every = pos 0 });
  user_agent = "";
}

abbrev input : Input
input = record {
  config = some config;
  modules = modules;
  nodes = delivered;
  outputs = record { config = main; path = "/out/main.json" } ∷ [];
}

abbrev generated : List File
generated = record { name = "main"; path = "/out/main.json"; content = "{}\n" } ∷ []

base_is_the_document : assemble unmarshal modules ("base" ∷ []) ≡ ok base_document
unfolding assemble lookup insert put items get trim_space
base_is_the_document = refl

main_builds : build no_symbols unmarshal marshal input ≡ ok generated
unfolding build build_one assemble lookup insert put get items trim_space Node.tag Node.type
    Node.detour concat has_prefix has elements objects new_injector inject remove_empty_top_level
    validate_document encode select index_modules fill_pool rules_for nodes_at members
    contains_ignore_emoji Node.clone Node.clone_map
main_builds = refl

assemble-IsMerge_example : IsMerge unmarshal modules base_document ("base" ∷ [])
assemble-IsMerge_example =
    assemble-IsMerge unmarshal modules ("base" ∷ []) base_document base_is_the_document

build-Answers_example : Answers marshal input.outputs generated
build-Answers_example = build-Answers no_symbols unmarshal marshal input generated main_builds

fill_pool-IsFilled_example :
    IsFilled delivered nodes_config (fill_pool nodes_config (base_module ∷ []) delivered)
fill_pool-IsFilled_example = fill_pool-IsFilled delivered nodes_config (base_module ∷ [])

abbrev injector : Injector
injector = fill_pool nodes_config (base_module ∷ []) delivered

resolve_iff_example : In (server "[air] HK") (resolve no_symbols injector from_airport) ↔ (
    In (server "[air] HK") injector.pool
    × PickedBy no_symbols injector from_airport (Node.tag (server "[air] HK")))
resolve_iff_example = resolve_iff no_symbols injector from_airport (server "[air] HK")

pair_all-IsPaired_example :
    IsPaired injector.by_tag injector.pool injector.pool
      (pair_all injector.by_tag injector.pool injector.pool)
pair_all-IsPaired_example = pair_all-IsPaired injector.by_tag injector.pool injector.pool

place_all-IsInserted_example : IsInserted injector.pool ("[air] HK" ∷ []) ("direct" ∷ []) (
    place_all
      ("[air] HK" ∷ [])
      (record { present = "direct" ∷ []; outbounds = []; endpoints = [] })
      injector.pool)
place_all-IsInserted_example = place_all-IsInserted injector.pool ("[air] HK" ∷ []) ("direct" ∷ [])
