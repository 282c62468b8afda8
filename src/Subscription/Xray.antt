-- ===== src/Subscription/Xray.antt =====
-- internal/subscription/xray: share links. This file has what the converter stands on: the parsed
-- URL, the readers that are parameters, and the helpers of utils.go and converter.go.
pub mod Transport
pub mod VMess
pub mod Urls
pub mod Shadowsocks
pub mod Links
pub mod Process
pub mod Typed
pub mod Delivered
use Prim.Native.Char.{Char, code}
use node_box.Prelude.{
  ℕ, zero, suc, ◌+◌, ◌-◌, ◌*◌, ◌^◌, String, Bool, true, false, not, ◌&&◌, ◌||◌, Option, none, some,
  List, [], ◌∷◌, map, ◌==◌, eqb, ltb, leb, if◌then◌else◌, Dict, lookup, Result, ok, err, ℤ, pos,
  negsuc,
}
use node_box.Node.{Node}
use node_box.Json.{Json, Fields, bool, num, str, arr, obj, end, field, items, put}
use node_box.Model.Validate.{lowers_to}
use node_box.TextUtil.{has_prefix, trim_space}

-- url.Values: the first value of each parameter
abbrev pub Query : Type 0
Query = Dict String

pub record Userinfo : Type 0 where
  pub username : String
  pub password : Option String
  pub text : String

pub record Url : Type 0 where
  pub scheme : String
  pub user : Option Userinfo
  pub host : String
  pub hostname : String
  pub port : String
  pub path : String
  pub fragment : String
  pub query : Query

-- A JSON value that is read as a number: a text, or a float64 as int() cuts it.
pub data AnyNumber : Type 0 where
  text : String → AnyNumber
  number : ℤ → AnyNumber
  nothing : AnyNumber

-- The JSON of a vmess link, without its field "type", which nothing reads.
pub record VMessConfig : Type 0 where
  pub ps : String
  pub add : String
  pub port : AnyNumber
  pub id : String
  pub aid : AnyNumber
  pub scy : String
  pub net : String
  pub host : String
  pub path : String
  pub tls : String
  pub sni : String
  pub alpn : String
  pub fp : String

-- net/url, encoding/base64 in its four variants, encoding/json, and the literal of a number.
pub record Readers : Type 0 where
  pub parse_url : String → Option Url
  pub parse_query : String → Option Query
  pub query_unescape : String → Option String
  pub std_base64 : String → Option String
  pub raw_std_base64 : String → Option String
  pub url_base64 : String → Option String
  pub raw_url_base64 : String → Option String
  pub vmess : String → Option VMessConfig
  pub header_map : String → Option (Dict String)
  pub literal : ℤ → String

abbrev pub text_or_empty : Option String → String
text_or_empty none = ""
text_or_empty (some s) = s

-- q.Get(k)
unfoldable pub query_get : String → Query → String
query_get k q = text_or_empty (lookup k q)

abbrev pub first_of : Option String → Option String → Option String
first_of none later = later
first_of (some s) later = some s

unfoldable pub try_base64_decode : Readers → String → Option String
unfolding trim_space
try_base64_decode r s =
    let t = trim_space s in
    if t == ""
    then none
    else first_of (r.std_base64 t)
        (first_of (r.raw_std_base64 t) (first_of (r.url_base64 t) (r.raw_url_base64 t)))

unfoldable pub is_likely_share_links : String → Bool
unfolding has_prefix
is_likely_share_links s =
    has_prefix s "vmess://"
    || has_prefix s "vless://"
    || has_prefix s "ss://"
    || has_prefix s "trojan://"

unfoldable pub query_bool : String → Bool
unfolding lowers_to
query_bool val = val == "1" || lowers_to val "true"

-- the unsigned digits of strconv.ParseInt
pub data Scanned : Type 0 where
  value : ℕ → Scanned
  syntax range : Scanned

unfoldable pub scan_digits : ℕ → String → Scanned
scan_digits n String.[] = value n
scan_digits n (String.◌∷◌ c s) =
    let rest = scan_digits (n * 10 + (code c - b'0')) s in
    if not (leb b'0' (code c) && leb (code c) b'9')
    then syntax
    else if leb (2 ^ 64) (n * 10 + (code c - b'0'))
    then range
    else rest

-- The value that strconv.Atoi returns, and whether it returns no error.
pub record Atoi : Type 0 where
  pub number : ℤ
  pub valid : Bool

abbrev pub negate : ℕ → ℤ
negate zero = pos zero
negate (suc n) = negsuc n

unfoldable pub to_int : Bool → Scanned → Atoi
to_int minus syntax = record { number = pos 0; valid = false }
to_int false range = record { number = pos (2 ^ 63 - 1); valid = false }
to_int true range = record { number = negate (2 ^ 63); valid = false }
to_int false (value n) =
    if leb (2 ^ 63) n
    then record { number = pos (2 ^ 63 - 1); valid = false }
    else record { number = pos n; valid = true }
to_int true (value n) =
    if ltb (2 ^ 63) n
    then record { number = negate (2 ^ 63); valid = false }
    else record { number = negate n; valid = true }

unfoldable pub scan_number : String → Scanned
unfolding scan_digits
scan_number String.[] = syntax
scan_number (String.◌∷◌ c s) = scan_digits 0 (String.◌∷◌ c s)

-- strconv.Atoi
unfoldable pub atoi : String → Atoi
unfolding to_int scan_number
atoi String.[] = to_int false syntax
atoi (String.◌∷◌ c s) =
    let minus = to_int true (scan_number s) in
    let plus = to_int false (scan_number s) in
    let plain = to_int false (scan_number (String.◌∷◌ c s)) in
    if eqb (code c) b'-' then minus else if eqb (code c) b'+' then plus else plain

abbrev pub valid_number : Atoi → Option ℤ
valid_number a = if a.valid then some a.number else none

-- parseAnyPort
unfoldable pub parse_any_port : AnyNumber → ℤ
unfolding atoi
parse_any_port (text s) = if (atoi s).valid then (atoi s).number else pos 0
parse_any_port (number z) = z
parse_any_port nothing = pos 0

unfoldable pub decode_fragment : Readers → String → String
decode_fragment r fragment = elim (r.query_unescape fragment) [ none ↦ fragment | some s ↦ s ]

abbrev pub cons_rune : Char → List String → List String
cons_rune c [] = String.◌∷◌ c String.[] ∷ []
cons_rune c (s ∷ ss) = String.◌∷◌ c s ∷ ss

-- strings.Split at one rune
unfoldable pub split_at : ℕ → String → List String
split_at sep String.[] = "" ∷ []
split_at sep (String.◌∷◌ c s) =
    let rest = split_at sep s in if eqb (code c) sep then "" ∷ rest else cons_rune c rest

-- `if v != "" { m[k] = v }`
unfoldable pub put_text : String → String → Fields → Fields
put_text k v m = if v == "" then m else put k (str v) m

abbrev pub enabled : Fields
enabled = field "enabled" (bool true) end

unfoldable pub put_alpn : String → Fields → Fields
unfolding split_at
put_alpn alpn tls =
    if alpn == "" then tls else put "alpn" (arr (items (map str (split_at b',' alpn)))) tls

abbrev pub utls : String → Json
utls fp = obj (field "enabled" (bool true) (field "fingerprint" (str fp) end))

unfoldable pub reality : Query → Json
unfolding put_text query_get
reality q =
    obj
      (put_text "short_id" (query_get "sid" q) (put_text "public_key" (query_get "pbk" q) enabled))

-- The fingerprint of the link, or chrome for reality.
unfoldable pub put_utls : String → String → Fields → Fields
put_utls security fp tls =
    if not (fp == "")
    then put "utls" (utls fp) tls
    else if security == "reality"
    then put "utls" (utls "chrome") tls
    else tls

pub data LinkError : Type 0 where
  empty_link invalid_url : LinkError
  unsupported_protocol : String → LinkError
  vmess_base64 vmess_json vmess_port vmess_name : LinkError
  vless_port : LinkError
  ss_method ss_port : LinkError
  trojan_port : LinkError

abbrev pub Parsed : Type 0
Parsed = Result LinkError Node

-- The fields that every node has.
abbrev pub base_node : Readers → String → String → String → ℤ → Fields → Fields
base_node r type tag server port rest = field "type" (str type) (
    field "tag" (str tag)
      (field "server" (str server) (field "server_port" (num (r.literal port)) rest)))
