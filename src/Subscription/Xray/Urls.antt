-- ===== src/Subscription/Xray/Urls.antt =====
-- parseVLESS and parseTrojan of internal/subscription/xray/converter.go.
use node_box.Prelude.{
  String, Bool, true, not, ◌&&◌, ◌||◌, Option, none, some, ◌==◌, if◌then◌else◌, ok, err, ℤ,
}
use node_box.Json.{Fields, bool, str, obj, end, field, put}
use node_box.Node.{Node}
use node_box.Subscription.Xray.{
  Parsed, base_node, vless_port, trojan_port, Query, Userinfo, Url, Readers, query_get, query_bool,
  atoi, decode_fragment, put_text, enabled, put_alpn, reality, put_utls,
}
use node_box.Subscription.Xray.Transport.{set_transport}

abbrev user_text : Option Userinfo → String
user_text none = ""
user_text (some u) = u.text

abbrev sni_of : Query → String
sni_of q = if query_get "sni" q == "" then query_get "peer" q else query_get "sni" q

abbrev put_insecure : Bool → Fields → Fields
put_insecure insecure tls = if insecure then put "insecure" (bool true) tls else tls

abbrev put_reality : String → Query → Fields → Fields
put_reality security q tls = if security == "reality" then put "reality" (reality q) tls else tls

unfoldable pub vless_tls : String → Query → Fields
unfolding put_text put_alpn query_get query_bool reality put_utls
vless_tls security q = put_utls security (query_get "fp" q) (
    put_reality security q (
      put_insecure
        (query_bool (query_get "allowInsecure" q) || query_bool (query_get "allowinsecure" q))
        (put_alpn (query_get "alpn" q) (put_text "server_name" (sni_of q) enabled))))

unfoldable pub put_vless_tls : String → Query → Fields → Fields
unfolding vless_tls
put_vless_tls security q node =
    if not (security == "") && not (security == "none")
    then put "tls" (obj (vless_tls security q)) node
    else node

unfoldable pub put_flow : String → String → Fields → Fields
put_flow flow network node =
    if not (flow == "") && not (network == "ws") then put "flow" (str flow) node else node

unfoldable pub vless_node : Readers → Url → ℤ → Node
unfolding put_vless_tls put_flow put_text set_transport query_get decode_fragment
vless_node r u port =
    let q = u.query in
    let node =
      base_node r "vless" (decode_fragment r u.fragment) u.hostname port
        (field "uuid" (str (user_text u.user)) end) in
    set_transport r
      (put_text "packet_encoding" (query_get "packetEncoding" q) (
        put_flow (query_get "flow" q) (query_get "type" q)
          (put_vless_tls (query_get "security" q) q node)))
      (query_get "type" q) (query_get "host" q) q

unfoldable pub parse_vless : Readers → Url → Parsed
unfolding vless_node atoi
parse_vless r u =
    if (atoi u.port).valid then ok (vless_node r u (atoi u.port).number) else err vless_port

abbrev username_of : Option Userinfo → String
username_of none = ""
username_of (some u) = u.username

unfoldable pub trojan_tls : Query → Fields
unfolding put_text put_alpn query_get query_bool reality put_utls
trojan_tls q =
    let security = query_get "security" q in
    put_utls security (query_get "fp" q) (
      put_reality security q (
        put_insecure
          (query_bool (query_get "allowInsecure" q)
            || query_bool (query_get "allowinsecure" q)
            || query_bool (query_get "skip-cert-verify" q))
          (put_alpn (query_get "alpn" q) (put_text "server_name" (query_get "sni" q) enabled))))

unfoldable pub trojan_node : Readers → Url → ℤ → Node
unfolding trojan_tls set_transport query_get decode_fragment
trojan_node r u port =
    let node =
      base_node r "trojan" (decode_fragment r u.fragment) u.hostname port
        (field "password" (str (username_of u.user)) end) in
    set_transport r (put "tls" (obj (trojan_tls u.query)) node) (query_get "type" u.query)
      (query_get "host" u.query) u.query

unfoldable pub parse_trojan : Readers → Url → Parsed
unfolding trojan_node atoi
parse_trojan r u =
    if (atoi u.port).valid then ok (trojan_node r u (atoi u.port).number) else err trojan_port
