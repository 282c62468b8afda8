-- ===== src/Build/Generate.antt =====
-- internal/build/build.go: one document for each output. What encoding/json makes of a document is
-- a parameter. removeEmptyTopLevel also returns the removed names, which are only logged.
pub mod Files
use node_box.Prelude.{
  String, Bool, true, false, Option, none, some, List, [], ◌∷◌, ◌++◌, if◌then◌else◌, Result, ok,
  err, ◌>>=◌, ◌>>◌, fold_each, Dict,
}
use node_box.Json.{Json, Items, Fields, null, bool, num, str, arr, obj, nil, cons, end, field}
use node_box.Node.{Node}
use node_box.Model.{NodesConfig, Config, ConfigFile}
use node_box.TextUtil.{RuneClass, concat}
use node_box.Build.Errors.{Error, config_required, encode_failed}
use node_box.Build.Validate.{validate_document}
use node_box.Build.Assemble.{Unmarshal, assemble}
use node_box.Build.Injector.{Injector, new_injector}
use node_box.Build.Apply.{inject}

-- output.Target
pub record Target : Type 0 where
  pub config : ConfigFile
  pub path : String

-- output.File; Content is a text.
pub record File : Type 0 where
  pub name : String
  pub path : String
  pub content : String

pub record Input : Type 0 where
  pub config : Option Config
  pub modules : Dict String
  pub nodes : Dict (List Node)
  pub outputs : List Target

unfoldable pub is_empty_value : Json → Bool
is_empty_value null = true
is_empty_value (arr nil) = true
is_empty_value (obj end) = true
is_empty_value _ = false

unfoldable pub remove_empty_top_level : Fields → Fields
unfolding is_empty_value
remove_empty_top_level end = end
remove_empty_top_level (field k v m) =
    let rest = remove_empty_top_level m in if is_empty_value v then rest else field k v rest

abbrev pub Marshal : Type 0
Marshal = Fields → Option String

newline_after : Option String → Result Error String
newline_after none = err encode_failed
newline_after (some text) = ok (concat text "\n")

unfoldable pub encode : Marshal → Fields → Result Error String
unfolding newline_after
encode marshal doc = newline_after (marshal doc)

abbrev pub no_nodes : NodesConfig
no_nodes = record { subscriptions = []; exclude_keywords = []; relays = []; emoji_overrides = [] }

-- in.Config.Nodes, and the empty configuration where it is nil
abbrev pub nodes_config : Option NodesConfig → NodesConfig
nodes_config none = no_nodes
nodes_config (some n) = n

module _ (so : RuneClass) (unmarshal : Unmarshal) (marshal : Marshal) where
  unfoldable pub build_one : Input → Injector → Target → Result Error File
  unfolding encode
  build_one inp injector out = do
    doc ← assemble unmarshal inp.modules out.config.modules
    injected ← inject so injector doc out.config
    let final = remove_empty_top_level injected
    validate_document final
    content ← encode marshal final
    ok (record { name = out.config.name; path = out.path; content = content })

  -- the loop over the outputs
  unfoldable pub build_all : Input → Injector → List Target → Result Error (List File)
  unfolding build_one
  build_all inp injector [] = ok []
  build_all inp injector (out ∷ outs) = do
    f ← build_one inp injector out
    rest ← build_all inp injector outs
    ok (f ∷ rest)

  build_config : Input → Option Config → Result Error (List File)
  build_config inp none = err config_required
  build_config inp (some cfg) = do
    injector ← new_injector so (nodes_config cfg.nodes) cfg.modules inp.nodes
    build_all inp injector inp.outputs

  unfoldable pub build : Input → Result Error (List File)
  unfolding build_all build_config
  build inp = build_config inp inp.config
