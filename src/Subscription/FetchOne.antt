-- ===== src/Subscription/FetchOne.antt =====
-- fetchOne and read of internal/subscription/fetcher.go: one subscription, from its bytes to its
-- named nodes.
pub mod Pipeline
use node_box.Prelude.{
  String, Bool, true, false, Option, none, some, List, [], ◌∷◌, Result, ok, err, ◌>>=◌, ◌==◌,
  if◌then◌else◌, is_nil,
}
use node_box.Fetch.{Bytes, Client, Network, Request, Response}
use node_box.Fetch.Retry.{Context, RetryError, Attempted, get_with_retry, default_retry}
use node_box.Json.{Json}
use node_box.Model.{NodesConfig, Subscription}
use node_box.Node.{Node}
use node_box.Output.Target.{join}
use node_box.Subscription
use node_box.Subscription.Emoji.{EmojiTable, UpperCase, new_emoji_table}
use node_box.Subscription.Naming.{
  assign_tag_emoji, drop_excluded, prefix_tags, remove_keywords, strip_tag_emoji,
}
use node_box.Subscription.Process.{ProcessError, Processor, Processors, processor_for}
use node_box.TextUtil.{RuneClass}

pub record NamingRules : Type 0 where
  pub exclude : List String
  pub default_ua : String
  pub emoji : EmojiTable

unfoldable pub naming_rules : NodesConfig → String → NamingRules
unfolding new_emoji_table
naming_rules n user_agent = record {
  exclude = n.exclude_keywords;
  default_ua = user_agent;
  emoji = new_emoji_table n.emoji_overrides;
}

pub data OneError : Type 0 where
  read_file : String → OneError
  fetch : RetryError → OneError
  unsupported : ProcessError → OneError
  parse : ProcessError → OneError

-- What a fetcher is made of, and the host: the files below the snapshot and the network.
pub record Fetcher : Type 0 where
  pub client : Client
  pub base_dir : String
  pub files : String → Option Bytes
  pub net : Network
  pub ctx : Context
  pub processors : Processors
  pub so : RuneClass
  pub upper : UpperCase

abbrev pub map_err : {E F A : Type 0} → (E → F) → Result E A → Result F A
map_err f (ok a) = ok a
map_err f (err e) = err (f e)

abbrev pub file_bytes : String → Option Bytes → Result OneError Bytes
file_bytes path none = err (read_file path)
file_bytes path (some bs) = ok bs

abbrev pub response_body : Result RetryError Response → Result OneError Bytes
response_body (err e) = err (fetch e)
response_body (ok resp) = ok resp.body

unfoldable pub request_of : Subscription → String → Request
request_of sub default_ua = record {
  url = sub.url;
  user_agent = if sub.user_agent == "" then default_ua else sub.user_agent;
  headers = [];
  etag = "";
  max_bytes = 0;
}

unfoldable pub read : Fetcher → Subscription → String → Result OneError Bytes
unfolding request_of get_with_retry join
read f sub default_ua =
    if sub.path == ""
    then response_body
        (get_with_retry f.client f.net f.ctx (request_of sub default_ua) default_retry).outcome
    else file_bytes (join f.base_dir sub.path) (f.files (join f.base_dir sub.path))

-- `if len(sub.RemoveKeywords) > 0`
unfoldable pub cleaned : Subscription → List Node → List Node
unfolding remove_keywords
cleaned sub nodes =
    if is_nil sub.remove_keywords then nodes else remove_keywords nodes sub.remove_keywords

-- `if sub.Emoji != nil`
unfoldable pub emojified : Fetcher → NamingRules → Option Bool → List Node → List Node
unfolding assign_tag_emoji strip_tag_emoji
emojified f naming none nodes = nodes
emojified f naming (some true) nodes = assign_tag_emoji f.so f.upper nodes naming.emoji
emojified f naming (some false) nodes = strip_tag_emoji f.so nodes

-- the naming pipeline behind the parser
unfoldable pub name_nodes : Fetcher → NamingRules → Subscription → List Node → List Node
unfolding cleaned emojified prefix_tags drop_excluded
name_nodes f naming sub nodes =
    drop_excluded f.so (prefix_tags (emojified f naming sub.emoji (cleaned sub nodes)) sub.name)
      naming.exclude

unfoldable pub fetch_one : Fetcher → NamingRules → Subscription → Result OneError (List Node)
unfolding read name_nodes processor_for
fetch_one f naming sub = read f sub naming.default_ua >>= λ bytes.
    map_err unsupported (processor_for f.processors sub.type) >>= λ process.
    map_err parse (process bytes) >>= λ nodes. ok (name_nodes f naming sub nodes)
