-- ===== src/Model/Validate.antt =====
-- Config.Validate of internal/model/config.go and what it calls. The loops over named entries share
-- their first checks: a name that is not empty and that no earlier entry has.
pub mod Named
pub mod Spec
pub mod Sources
pub mod Entries
pub mod Exact
use Prim.Native.Char.{Char, code}
use node_box.Prelude.{
  ℕ, zero, suc, ◌+◌, ◌<◌, String, Bool, true, false, not, ◌&&◌, ◌||◌, Option, none, some, List, [],
  ◌∷◌, map, ◌==◌, eqb, ltb, leb, if◌then◌else◌, Result, ok, err, ◌>>=◌, ◌>>◌, fail_if, for_each,
  for_each_at, is_nil, Names, has, Dict, lookup, insert, is_zero, is_negative,
}
use node_box.Model.{
  NodeSelector, Relay, SelectorRule, Subscription, NodesConfig, EmojiRule, Module, ConfigFile,
  Schedule, Config,
}
use node_box.Model
use node_box.Model.Paths.{PathError, check_repo_rel_path}

-- Where an error is; a selector's place names its module.
pub data Section : Type 0 where
  subscriptions relays emoji_overrides modules configs : Section
  selectors : String → Section

pub data Error : Type 0 where
  parse_failed nodes_required : Error
  empty_name : Section → ℕ → Error
  duplicate_name : Section → ℕ → String → ℕ → Error
  bracket_in_name both_url_and_path no_url_or_path unknown_type : String → Error
  bad_path : Section → String → PathError → Error
  field_empty : String → String → Error
  field_selector_empty : String → String → ℕ → Error
  unknown_subscription : String → String → Error
  emoji_empty keywords_empty : ℕ → Error
  keyword_empty : ℕ → ℕ → Error
  modules_empty configs_empty : Error
  no_module_source many_module_sources : String → Error
  unknown_relay : String → String → Error
  selects_nothing : String → Error
  output_path_empty output_modules_empty : String → Error
  unknown_module module_twice : String → String → Error
  schedule_required every_required every_negative every_unused schedule_type_required : Error
  unknown_schedule_type : String → Error

abbrev pub Check : Type 0
Check = Result Error (Unit {0})

-- if prev, dup := seen[name]; dup
not_seen : Section → ℕ → String → Option ℕ → Check
not_seen section i name none = ok tt
not_seen section i name (some prev) = err (duplicate_name section i name prev)

-- One of the loops: the name's checks, then `body`, for each entry from index `i` on.
pub named_loop :
    {A : Type 0} → Section → (A → String) → (ℕ → A → Check) → ℕ → Dict ℕ → List A → Check
unfolding not_seen
named_loop section name body i seen [] = ok tt
named_loop section name body i seen (x ∷ xs) = do
  fail_if (name x == "") (empty_name section i)
  not_seen section i (name x) (lookup (name x) seen)
  body i x
  named_loop section name body (suc i) (insert (name x) i seen) xs

-- strings.ToLower, as far as the result is an ASCII letter: of the runes outside ASCII only U+0130
-- and U+212A become one.
lower : ℕ → ℕ
lower c =
    if leb b'A' c && leb c b'Z'
    then c + 32
    else if eqb c 0x130
    then b'i'
    else if eqb c 0x212A
    then b'k'
    else c

-- strings.ToLower(s) == word, for a word in ASCII
unfoldable pub lowers_to : String → String → Bool
unfolding lower
lowers_to String.[] String.[] = true
lowers_to String.[] (String.◌∷◌ d t) = false
lowers_to (String.◌∷◌ c s) String.[] = false
lowers_to (String.◌∷◌ c s) (String.◌∷◌ d t) = eqb (lower (code c)) (code d) && lowers_to s t

-- strings.ContainsAny(s, "[]")
unfoldable pub has_bracket : String → Bool
has_bracket String.[] = false
has_bracket (String.◌∷◌ c s) = (eqb (code c) b'[' || eqb (code c) b']') || has_bracket s

wrap_path : Section → String → Result PathError (Unit {0}) → Check
wrap_path section name (ok _) = ok tt
wrap_path section name (err e) = err (bad_path section name e)

-- an optional repository path, checked if it is set
pub check_path : Section → String → String → Check
unfolding wrap_path
check_path section name p =
    if p == "" then ok tt else wrap_path section name (check_repo_rel_path p)

pub check_subscription : ℕ → Subscription → Check
unfolding check_path
check_subscription i s = do
  fail_if (has_bracket s.name) (bracket_in_name s.name)
  fail_if (not (s.url == "") && not (s.path == "")) (both_url_and_path s.name)
  fail_if (s.url == "" && s.path == "") (no_url_or_path s.name)
  check_path subscriptions s.name s.path
  fail_if
      (not (
        lowers_to s.type "clash"
        || lowers_to s.type "singbox"
        || lowers_to s.type "xray"
        || lowers_to s.type "v2ray"))
      (unknown_type s.name)

unfoldable pub validate_subscriptions : NodesConfig → Check
unfolding named_loop check_subscription
validate_subscriptions n =
    named_loop subscriptions (λ s. s.name) check_subscription 0 [] n.subscriptions

abbrev pub subscription_names : NodesConfig → Names
subscription_names n = map (λ (s : Subscription). s.name) n.subscriptions

abbrev pub relay_names : NodesConfig → Names
relay_names n = map (λ (r : Relay). r.name) n.relays

-- NodeSelector.validate
check_from : Names → String → NodeSelector → Check
check_from subs at sel =
    for_each (λ name. fail_if (not (has name subs)) (unknown_subscription at name)) sel.from

check_field_selector : Names → String → String → ℕ → NodeSelector → Check
unfolding check_from
check_field_selector subs relay field j sel =
    fail_if (Model.is_empty sel) (field_selector_empty relay field j) >> check_from subs relay sel

check_field : Names → String → String → List NodeSelector → Check
unfolding check_field_selector
check_field subs relay field sels =
    fail_if (is_nil sels) (field_empty relay field)
    >> for_each_at (check_field_selector subs relay field) 0 sels

pub check_relay : Names → ℕ → Relay → Check
unfolding check_field
check_relay subs i r =
    check_field subs r.name "via" r.via >> check_field subs r.name "upstream" r.upstream

unfoldable pub validate_relays : NodesConfig → Check
unfolding named_loop check_relay
validate_relays n =
    named_loop relays (λ r. r.name) (check_relay (subscription_names n)) 0 [] n.relays

pub check_override : ℕ → EmojiRule → Check
check_override i r = do
  fail_if (r.emoji == "") (emoji_empty i)
  fail_if (is_nil r.keywords) (keywords_empty i)
  for_each_at (λ j kw. fail_if (kw == "") (keyword_empty i j)) 0 r.keywords

unfoldable pub validate_emoji_overrides : NodesConfig → Check
unfolding check_override
validate_emoji_overrides n = for_each_at check_override 0 n.emoji_overrides

check_rule : NodesConfig → ℕ → SelectorRule → Check
unfolding check_from
check_rule n i rule = do
  check_from (subscription_names n) rule.tag rule.node_selector
  for_each (λ name. fail_if (not (has name (relay_names n))) (unknown_relay rule.tag name))
      rule.relays
  fail_if (Model.is_empty rule.node_selector && is_nil rule.relays) (selects_nothing rule.tag)

unfoldable pub validate_selectors : NodesConfig → Module → Check
unfolding named_loop check_rule
validate_selectors n m = named_loop (selectors m.name) (λ r. r.tag) (check_rule n) 0 [] m.selectors

count_set : List String → ℕ
count_set [] = 0
count_set (s ∷ ss) = (if s == "" then 0 else 1) + count_set ss

pub check_module : NodesConfig → ℕ → Module → Check
unfolding check_path count_set validate_selectors
check_module n i m = do
  let set = count_set (m.file ∷ m.from_url ∷ m.path ∷ [])
  fail_if (eqb set 0) (no_module_source m.name)
  fail_if (ltb 1 set) (many_module_sources m.name)
  check_path modules m.name m.file
  validate_selectors n m

unfoldable pub validate_modules : NodesConfig → List Module → Check
unfolding named_loop check_module
validate_modules n ms =
    fail_if (is_nil ms) modules_empty >> named_loop modules (λ m. m.name) (check_module n) 0 [] ms

-- the inner loop of validateConfigs, over the modules that one output lists
check_listed : Names → String → Names → List String → Check
check_listed known config seen [] = ok tt
check_listed known config seen (name ∷ names) = do
  fail_if (not (has name known)) (unknown_module config name)
  fail_if (has name seen) (module_twice config name)
  check_listed known config (name ∷ seen) names

pub check_config : Names → ℕ → ConfigFile → Check
unfolding check_listed
check_config known i cf = do
  fail_if (cf.path == "") (output_path_empty cf.name)
  fail_if (is_nil cf.modules) (output_modules_empty cf.name)
  check_listed known cf.name [] cf.modules

abbrev pub module_names : List Module → Names
module_names ms = map (λ (m : Module). m.name) ms

unfoldable pub validate_configs : List Module → List ConfigFile → Check
unfolding named_loop check_config
validate_configs ms cs =
    fail_if (is_nil cs) configs_empty
    >> named_loop configs (λ c. c.name) (check_config (module_names ms)) 0 [] cs

unfoldable pub validate_schedule : Schedule → Check
unfolding lowers_to
validate_schedule s =
    if lowers_to s.type "interval"
    then fail_if (is_zero s.every) every_required >> fail_if (is_negative s.every) every_negative
    else if lowers_to s.type "hourly"
    then fail_if (not (is_zero s.every)) every_unused
    else if s.type == ""
    then err schedule_type_required
    else err (unknown_schedule_type s.type)

pub validate_nodes : Config → NodesConfig → Check
validate_nodes c n = do
  validate_subscriptions n
  validate_relays n
  validate_emoji_overrides n
  validate_modules n c.modules
  validate_configs c.modules c.configs

pub check_update_schedule : Option Schedule → Check
check_update_schedule none = err schedule_required
check_update_schedule (some s) = validate_schedule s

pub check_nodes : Config → Option NodesConfig → Check
check_nodes c none = err nodes_required
check_nodes c (some n) = validate_nodes c n

unfoldable pub validate : Config → Check
unfolding check_nodes validate_nodes check_update_schedule validate_subscriptions validate_relays
    validate_emoji_overrides validate_modules validate_configs validate_schedule
validate c = check_nodes c c.nodes >> check_update_schedule c.update_schedule
