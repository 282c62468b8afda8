-- ===== src/Model.antt =====
-- internal/model/config.go: the repository configuration, config.json, as it is decoded.
pub mod Paths
pub mod Validate
pub mod Bootstrap
use node_box.Prelude.{String, Bool, Option, List, ℤ, is_nil}

pub record OutputConfig : Type 0 where
  pub dir : String

pub record EmojiRule : Type 0 where
  pub emoji : String
  pub keywords : List String

pub record NodeSelector : Type 0 where
  pub from : List String
  pub include : List String
  pub exclude : List String

-- NodeSelector.IsEmpty
abbrev pub is_empty : NodeSelector → Bool
is_empty s = is_nil s.from

pub record Relay : Type 0 where
  pub name : String
  pub via : List NodeSelector
  pub upstream : List NodeSelector

pub record SelectorRule : Type 0 where
  pub tag : String
  pub node_selector : NodeSelector
  pub relays : List String

pub record Subscription : Type 0 where
  pub name : String
  pub url : String
  pub path : String
  pub type : String
  pub enable : Bool
  pub emoji : Option Bool
  pub remove_keywords : List String
  pub user_agent : String

pub record NodesConfig : Type 0 where
  pub subscriptions : List Subscription
  pub exclude_keywords : List String
  pub relays : List Relay
  pub emoji_overrides : List EmojiRule

pub record Module : Type 0 where
  pub name : String
  pub file : String
  pub from_url : String
  pub path : String
  pub selectors : List SelectorRule

pub record ConfigFile : Type 0 where
  pub name : String
  pub path : String
  pub modules : List String

-- Nanoseconds.
abbrev pub Duration : Type 0
Duration = ℤ

pub record Schedule : Type 0 where
  pub type : String
  pub every : Duration

pub record Config : Type 0 where
  pub output : Option OutputConfig
  pub nodes : Option NodesConfig
  pub modules : List Module
  pub configs : List ConfigFile
  pub update_schedule : Option Schedule
  pub user_agent : String
