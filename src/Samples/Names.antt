-- ===== src/Samples/Names.antt =====
-- A subscription read from a file of the snapshot: two proxies and an outbound that is none, one
-- proxy excluded by a keyword.
use node_box.Prelude.{
  String, ◌≡◌, ◌≢◌, ◌↔◌, refl, inl, true, false, none, some, List, [], ◌∷◌, ok, err, has, select,
  lookup,
}
use node_box.Build.Injector.{belongs_to}
use node_box.Fetch.{Cause}
use node_box.Json.{num, bool, Json, Fields, str, arr, obj, end, field, items, get, put, elements}
use node_box.Model.{Subscription}
use node_box.Model
use node_box.Model.Validate.{has_bracket}
use node_box.Node.{Node, tag, type, set_tag}
use node_box.Samples.Pipeline.{no_symbols}
use node_box.Subscription.Emoji.{UpperCase, new_emoji_table, contains_word, for_tag}
use node_box.Subscription.FetchOne.{Fetcher, NamingRules, fetch_one}
use node_box.Subscription.FetchOne.Pipeline.{
  IsRenamed, Parsed, fetch_one-IsRenamed, fetch_one-Kept, fetch_one-belongs_to,
}
use node_box.Subscription.Naming.Excluded.{Kept}
use node_box.Subscription.Process.{Decode, singbox_process}
use node_box.Subscription.Xray.{Readers, Url}
use node_box.Subscription.Xray.Process.{process, split_lines, decode_subscription}
use node_box.Subscription.Xray.Delivered.{Answers, process-Answers}
use node_box.Subscription.Process.SingBox.{Proxies, singbox_process_iff}
use node_box.Subscription.Removal.{glob, glob_to_regexp, remove_match}
use node_box.TextUtil.{trim_space, concat}
use node_box.TextUtil.Squeeze.{collapse_spaces, squeeze, collapse_spaces-eq-squeeze}

abbrev ascii_upper : UpperCase
ascii_upper c = c

abbrev proxy : String → Json
proxy t = obj (field "type" (str "ss") (field "tag" (str t) end))

abbrev document : Fields
document =
    field "outbounds"
      (arr (
        items (
          proxy "HK  (99 people) 01"
          ∷ proxy "expires soon"
          ∷ obj (field "type" (str "direct") end)
          ∷ [])))
      end

abbrev decode_any : Decode
decode_any bytes = some document

abbrev link_url : Url
link_url = record {
  scheme = "trojan";
  user = some (record { username = "pw"; password = none; text = "pw" });
  host = "h.example:443";
  hostname = "h.example";
  port = "443";
  path = "";
  fragment = "JP 01";
  query = ("sni", "s.example") ∷ [];
}

-- Every text is read as one URL, and no text as base64.
abbrev readers : Readers
readers = record {
  parse_url = λ s. some link_url;
  parse_query = λ s. none;
  query_unescape = λ s. some s;
  std_base64 = λ s. none;
  raw_std_base64 = λ s. none;
  url_base64 = λ s. none;
  raw_url_base64 = λ s. none;
  vmess = λ s. none;
  header_map = λ s. none;
  literal = λ z. "443";
}

abbrev links : String
links = "trojan://pw@h.example:443?sni=s.example#JP%2001\nvmess://x"

abbrev fetcher : Fetcher
fetcher = record {
  client = record { user_agent = "node-box"; max_bytes = 100 };
  base_dir = "/s";
  files = λ path. some [];
  net = record { takes_url = λ url. true; send = λ n r. err Cause.other };
  ctx = λ n. none;
  processors = record {
    convert = λ bytes. none;
    decode = decode_any;
    text = λ bytes. links;
    readers = readers;
  };
  so = no_symbols;
  upper = ascii_upper;
}

abbrev naming : NamingRules
naming = record { exclude = "expires" ∷ []; default_ua = "node-box"; emoji = [] }

abbrev from_file : Subscription
from_file = record {
  name = "air";
  url = "";
  path = "nodes.json";
  type = "singbox";
  enable = true;
  emoji = some false;
  remove_keywords = "(*)" ∷ [];
  user_agent = "";
}

abbrev delivered : Node
delivered = field "type" (str "ss") (field "tag" (str "[air] HK 01") end)

fetched : fetch_one fetcher naming from_file ≡ ok (delivered ∷ [])
unfolding fetch_one get elements items type has select tag set_tag put
fetched = refl

delivered_tag : tag delivered ≢ ""
unfolding tag get
delivered_tag e = cc

air_plain : has_bracket "air" ≡ false
unfolding has_bracket
air_plain = refl

fetch_one-belongs_to_example :
    (belongs_to (tag delivered) "air" ≡ true) ↔ ◌≡◌ {A = String} "air" "air"
fetch_one-belongs_to_example =
    fetch_one-belongs_to fetcher naming from_file (delivered ∷ []) fetched air_plain delivered
      (inl refl) delivered_tag "air" air_plain

fetch_one-Kept_example : Kept no_symbols ("expires" ∷ []) delivered
fetch_one-Kept_example =
    fetch_one-Kept fetcher naming from_file (delivered ∷ []) fetched delivered (inl refl)

fetch_one-IsRenamed_example :
    (raw : List Node) × Parsed fetcher naming from_file (delivered ∷ []) fetched raw
    × IsRenamed raw (delivered ∷ [])
fetch_one-IsRenamed_example = fetch_one-IsRenamed fetcher naming from_file (delivered ∷ []) fetched

collapse_spaces-eq-squeeze_example :
    collapse_spaces " a   b  " ≡ trim_space (squeeze false " a   b  ")
collapse_spaces-eq-squeeze_example = collapse_spaces-eq-squeeze " a   b  "

collapsed : collapse_spaces " a   b  " ≡ "a b"
unfolding collapse_spaces trim_space concat
collapsed = refl

greedy : remove_match "a (x) (y) b" (glob (glob_to_regexp "(*)")) ≡ "a  b"
unfolding remove_match glob_to_regexp
greedy = refl

-- Only the first occurrence is looked at: a keyword that stands as a word later on is missed.
first_occurrence_only : contains_word "RUSSIA US" "US" ≡ false
unfolding contains_word
first_occurrence_only = refl

abbrev overrides : List Model.EmojiRule
overrides = record { emoji = "H"; keywords = "HK" ∷ [] } ∷ []

overridden : for_tag ascii_upper (new_emoji_table overrides) "HK 01" ≡ "H"
unfolding for_tag new_emoji_table
overridden = refl

builtin : for_tag ascii_upper (new_emoji_table []) "香港 01" ≡ "🇭🇰"
unfolding for_tag new_emoji_table
builtin = refl

process-Answers_example :
    Answers readers (split_lines (decode_subscription readers links)) (process readers links)
process-Answers_example = process-Answers readers links

-- The link that does not convert is left out.
converted :
    process readers links
    ≡ ok (
        field "type" (str "trojan") (
          field "tag" (str "JP 01") (
            field "server" (str "h.example") (
              field "server_port" (num "443") (
                field "password" (str "pw") (
                  field "tls"
                    (obj (field "enabled" (bool true) (field "server_name" (str "s.example") end)))
                    end)))))
        ∷ [])
unfolding process lookup put select
converted = refl

singbox_process_iff_example :
    (singbox_process decode_any [] ≡ ok (delivered ∷ []))
    ↔ ((cfg : Fields) × (decode_any [] ≡ some cfg) × Proxies cfg (delivered ∷ []))
singbox_process_iff_example = singbox_process_iff decode_any [] (delivered ∷ [])
