-- ===== src/Model/Validate/Spec.antt =====
-- What a valid configuration is, with no order of checks in it.
use node_box.Prelude.{
  String, ◌≡◌, ◌≢◌, ◌⊎◌, true, false, some, List, [], ◌∷◌, All, In, Names, IsDistinct, is_zero,
  is_negative,
}
use node_box.Model.{
  NodeSelector, Relay, SelectorRule, Subscription, NodesConfig, EmojiRule, Module, ConfigFile,
  Schedule, Config,
}
use node_box.Model.Paths.Inside.{IsRepoPath}
use node_box.Model.Validate.{lowers_to, has_bracket, subscription_names, relay_names, module_names}
use node_box.Model.Validate.Named.{IsNamed}

abbrev pub subscription_types : Names
subscription_types = "clash" ∷ "singbox" ∷ "xray" ∷ "v2ray" ∷ []

pub record IsValidSubscription (s : Subscription) : Type 0 where
  pub no_brackets : has_bracket s.name ≡ false
  -- exactly one of url and path
  pub one_source : ((s.url ≢ "") × (s.path ≡ "")) ⊎ ((s.url ≡ "") × (s.path ≢ ""))
  pub inside : s.path ≢ "" → IsRepoPath s.path
  pub typed : (w : String) × In w subscription_types × (lowers_to s.type w ≡ true)

abbrev pub IsDeclared : Names → List String → Type 0
IsDeclared known names = All (λ name. In name known) names

-- A list of selectors, each of them naming declared subscriptions.
abbrev pub IsField : Names → List NodeSelector → Type 0
IsField subs sels = (sels ≢ []) × All (λ sel. (sel.from ≢ []) × IsDeclared subs sel.from) sels

abbrev pub IsValidRelay : Names → Relay → Type 0
IsValidRelay subs r = IsField subs r.via × IsField subs r.upstream

abbrev pub IsValidOverride : EmojiRule → Type 0
IsValidOverride r = (r.emoji ≢ "") × (r.keywords ≢ []) × All (λ kw. kw ≢ "") r.keywords

-- The rule names what is declared, and selects something.
abbrev pub IsValidRule : NodesConfig → SelectorRule → Type 0
IsValidRule n rule =
    IsDeclared (subscription_names n) rule.node_selector.from
    × IsDeclared (relay_names n) rule.relays
    × ((rule.node_selector.from ≢ []) ⊎ (rule.relays ≢ []))

-- Exactly one of the three is set.
abbrev pub IsOneOf : String → String → String → Type 0
IsOneOf a b c =
    ((a ≢ "") × (b ≡ "") × (c ≡ ""))
    ⊎ ((a ≡ "") × (b ≢ "") × (c ≡ ""))
    ⊎ ((a ≡ "") × (b ≡ "") × (c ≢ ""))

pub record IsValidModule (n : NodesConfig) (m : Module) : Type 0 where
  pub one_source : IsOneOf m.file m.from_url m.path
  pub inside : m.file ≢ "" → IsRepoPath m.file
  pub rules : IsNamed (λ (r : SelectorRule). r.tag) (IsValidRule n) m.selectors

abbrev pub IsValidConfigFile : Names → ConfigFile → Type 0
IsValidConfigFile known cf =
    (cf.path ≢ "") × (cf.modules ≢ []) × IsDeclared known cf.modules × IsDistinct cf.modules

-- An interval has a positive period, and an hourly schedule has none.
abbrev pub IsValidSchedule : Schedule → Type 0
IsValidSchedule s =
    ((lowers_to s.type "interval" ≡ true)
      × (is_zero s.every ≡ false)
      × (is_negative s.every ≡ false))
    ⊎ ((lowers_to s.type "hourly" ≡ true) × (is_zero s.every ≡ true))

pub record IsValidNodes (c : Config) (n : NodesConfig) : Type 0 where
  pub subscriptions : IsNamed (λ (s : Subscription). s.name) IsValidSubscription n.subscriptions
  pub relays : IsNamed (λ (r : Relay). r.name) (IsValidRelay (subscription_names n)) n.relays
  pub overrides : All IsValidOverride n.emoji_overrides
  pub has_modules : c.modules ≢ []
  pub modules : IsNamed (λ (m : Module). m.name) (IsValidModule n) c.modules
  pub has_configs : c.configs ≢ []
  pub configs :
      IsNamed (λ (f : ConfigFile). f.name) (IsValidConfigFile (module_names c.modules)) c.configs

pub record IsValid (c : Config) : Type 0 where
  pub nodes : (n : NodesConfig) × (c.nodes ≡ some n) × IsValidNodes c n
  pub schedule : (s : Schedule) × (c.update_schedule ≡ some s) × IsValidSchedule s
