-- ===== src/Subscription/Xray/Shadowsocks.antt =====
-- parseSS of internal/subscription/xray/converter.go, with both forms of a link.
use Prim.Native.Char.{Char, code}
use node_box.Prelude.{
  eqb, ℕ, String, ◌&&◌, ◌||◌, Option, none, some, ◌==◌, if◌then◌else◌, ok, err, ℤ, pos, is_zero,
}
use node_box.Json.{str, end, field}
use node_box.Node.{Node}
use node_box.TextUtil.Replace.{cut}
use node_box.Subscription.Xray.{
  Parsed, base_node, ss_method, ss_port, Userinfo, Url, Readers, Atoi, try_base64_decode, atoi,
  decode_fragment,
}

-- What parseSS finds out before it makes a node.
pub record Ss : Type 0 where
  pub method : String
  pub password : String
  pub host : String
  pub port : ℤ

abbrev no_ss : Ss
no_ss = record { method = ""; password = ""; host = ""; port = pos 0 }

-- method:password, where there is a colon
abbrev pub put_credentials : Option (String × String) → Ss → Ss
put_credentials none s = s
put_credentials (some (method, password)) s = record s { method = method; password = password }

abbrev decoded_user : Option String → Ss
decoded_user none = no_ss
decoded_user (some t) = put_credentials (cut t ":") no_ss

abbrev user_password : Readers → Userinfo → Option String → Ss
user_password r u (some password) = record no_ss { method = u.username; password = password }
user_password r u none = decoded_user (try_base64_decode r u.username)

unfoldable pub ss_user : Readers → Option Userinfo → Ss
unfolding cut try_base64_decode
ss_user r none = no_ss
ss_user r (some u) = user_password r u u.password

abbrev pub put_address : String → Option (String × String) → Ss → Ss
put_address address none s = record s { host = address; port = pos 8388 }
put_address address (some (host, port)) s = record s { host = host; port = (atoi port).number }

abbrev pub last_move : Char → String → ℕ → Option (String × String) → Option (String × String)
last_move c s sep (some (before, after)) = some (String.◌∷◌ c before, after)
last_move c s sep none = if eqb (code c) sep then some ("", s) else none

-- strings.LastIndex of one rune, as the texts around it
unfoldable pub cut_last : ℕ → String → Option (String × String)
cut_last sep String.[] = none
cut_last sep (String.◌∷◌ c s) = last_move c s sep (cut_last sep s)

abbrev pub put_legacy : Option (String × String) → Ss → Ss
put_legacy none s = s
put_legacy (some (user, address)) s =
    put_address address (cut address ":") (put_credentials (cut user ":") s)

abbrev legacy_text : Option String → Ss → Ss
legacy_text none s = s
legacy_text (some t) s = put_legacy (cut_last b'@' t) s

-- ss://BASE64(method:password@host:port)
unfoldable pub ss_legacy : Readers → Url → Ss → Ss
unfolding cut cut_last atoi try_base64_decode
ss_legacy r u s =
    if s.method == ""
    then legacy_text (try_base64_decode r (if u.host == "" then u.path else u.host)) s
    else s

abbrev pub port_or : ℤ → Atoi → ℤ
port_or port a = if is_zero port && a.valid then a.number else port

unfoldable pub ss_node : Readers → Url → Ss → ℤ → Node
unfolding decode_fragment
ss_node r u s port =
    base_node r "shadowsocks" (decode_fragment r u.fragment)
      (if s.host == "" then u.hostname else s.host) port
      (field "method" (str s.method) (field "password" (str s.password) end))

unfoldable pub ss_of : Readers → Url → Ss → Parsed
unfolding ss_node atoi
ss_of r u s =
    if s.method == "" || s.password == ""
    then err ss_method
    else if is_zero (port_or s.port (atoi u.port))
    then err ss_port
    else ok (ss_node r u s (port_or s.port (atoi u.port)))

unfoldable pub parse_ss : Readers → Url → Parsed
unfolding ss_of ss_legacy ss_user
parse_ss r u = ss_of r u (ss_legacy r u (ss_user r u.user))
