-- ===== src/Subscription/Xray/Typed.antt =====
-- internal/subscription/xray: what every node made from a share link has.
use node_box.Prelude.{
  String, ◌≡◌, inl, inr, refl, ◌∙◌, Bool, true, false, not, ◌&&◌, ◌||◌, Option, none, some, [], ◌∷◌,
  ◌==◌, if◌then◌else◌, ok, err, ℤ, is_zero, In, Names,
}
use node_box.Json.{Json, Fields, num, str, obj, get, put, get-put}
use node_box.Node.{Node}
use node_box.TextUtil.{trim_space}
use node_box.TextUtil.Replace.{cut_prefix}
use node_box.Subscription.Xray.{
  Query, Url, VMessConfig, Readers, Parsed, base_node, put_text, atoi, decode_fragment,
  try_base64_decode, parse_any_port, query_get,
}
use node_box.Subscription.Xray.Transport.{
  set_transport, ws_transport, grpc_transport, http_transport, upgrade_transport,
}
use node_box.Subscription.Xray.VMess.{
  vmess_tls, vmess_query, vmess_node, vmess_of, parse_vmess, vmess_decoded,
}
use node_box.Subscription.Xray.Urls.{
  put_vless_tls, vless_tls, put_flow, vless_node, parse_vless, trojan_tls, trojan_node,
  parse_trojan,
}
use node_box.Subscription.Xray.Shadowsocks.{
  Ss, ss_node, ss_of, parse_ss, port_or, ss_legacy, ss_user,
}
use node_box.Subscription.Xray.Links.{parse_scheme, parse_form, parse_link}

abbrev pub protocols : Names
protocols = "vmess" ∷ "vless" ∷ "shadowsocks" ∷ "trojan" ∷ []

module _ (r : Readers) where
  -- A protocol, a tag and a server as texts, and a port as a number.
  abbrev pub IsTyped : Node → Type 0
  IsTyped n =
      (protocol : String) × (tag : String) × (server : String) × (port : ℤ) × In protocol protocols
      × (get "type" n ≡ some (str protocol))
      × (get "tag" n ≡ some (str tag))
      × (get "server" n ≡ some (str server))
      × (get "server_port" n ≡ some (num (r.literal port)))

  -- The names of the four fields.
  abbrev IsOther : String → Type 0
  IsOther k =
      ((k == "type") ≡ false)
      × ((k == "tag") ≡ false)
      × ((k == "server") ≡ false)
      × ((k == "server_port") ≡ false)

  kept :
      (k j : String) (v w : Json) (n : Node)
      → (k == j) ≡ false
      → get j n ≡ some w
      → get j (put k v n) ≡ some w
  kept k j v w n other h = get-put k j v n ∙ rw other h

  put-IsTyped : (k : String) (v : Json) (n : Node) → IsOther k → IsTyped n → IsTyped (put k v n)
  put-IsTyped k v n (a, b, c, d) (protocol, tag, server, port, i, p, q, s, t) = (
    protocol,
    tag,
    server,
    port,
    i,
    kept k "type" v _ n a p,
    kept k "tag" v _ n b q,
    kept k "server" v _ n c s,
    kept k "server_port" v _ n d t,
  )

  if-IsTyped : (b : Bool) (x y : Node) → IsTyped x → IsTyped y → IsTyped (if b then x else y)
  if-IsTyped true x y p q = p
  if-IsTyped false x y p q = q

  base_node-IsTyped :
      (protocol tag server : String) (port : ℤ) (rest : Fields)
      → In protocol protocols
      → IsTyped (base_node r protocol tag server port rest)
  unfolding get
  base_node-IsTyped protocol tag server port rest i =
      (protocol, tag, server, port, i, refl, refl, refl, refl)

  set_transport-IsTyped :
      (n : Node) (network host : String) (q : Query)
      → IsTyped n
      → IsTyped (set_transport r n network host q)
  unfolding set_transport
  set_transport-IsTyped n network host q h =
      if-IsTyped (network == "ws") _ _ (transport (obj (ws_transport r host q))) (
        if-IsTyped (network == "grpc") _ _ (transport (obj (grpc_transport r q))) (
          if-IsTyped (network == "h2" || network == "http") _ _
            (transport (obj (http_transport host q)))
            (if-IsTyped (network == "httpupgrade") _ _
              (transport (obj (upgrade_transport r host q))) h)))
    where
      transport : (t : Json) → IsTyped (put "transport" t n)
      transport t = put-IsTyped "transport" t n (refl, refl, refl, refl) h

  put_text-IsTyped : (k v : String) (n : Node) → IsOther k → IsTyped n → IsTyped (put_text k v n)
  unfolding put_text
  put_text-IsTyped k v n other h = if-IsTyped (v == "") _ _ h (put-IsTyped k (str v) n other h)

  -- A link that is parsed gives such a node.
  abbrev pub Makes : Parsed → Type 0
  Makes (ok n) = IsTyped n
  Makes (err _) = Unit

  if-Makes : (b : Bool) (x y : Parsed) → Makes x → Makes y → Makes (if b then x else y)
  if-Makes true x y p q = p
  if-Makes false x y p q = q

  vmess_node-IsTyped : (v : VMessConfig) → IsTyped (vmess_node r v)
  unfolding vmess_node
  vmess_node-IsTyped v =
      let base = base_node-IsTyped "vmess" v.ps v.add (parse_any_port v.port) _ (inl refl) in
      set_transport-IsTyped _ v.net v.host (vmess_query v) (
        if-IsTyped (v.tls == "tls") _ _
          (put-IsTyped "tls" (obj (vmess_tls v)) _ (refl, refl, refl, refl) base) base)

  vmess_of-Makes : (o : Option VMessConfig) → Makes (vmess_of r o)
  unfolding vmess_of
  vmess_of-Makes none = tt
  vmess_of-Makes (some v) =
      if-Makes (is_zero (parse_any_port v.port)) _ _ tt
        (if-Makes (v.ps == "") _ _ tt (vmess_node-IsTyped v))

  parse_vmess-Makes : (raw : String) → Makes (parse_vmess r raw)
  unfolding parse_vmess
  parse_vmess-Makes raw = go (try_base64_decode r raw)
    where
      go : (o : Option String) → Makes (vmess_decoded r o)
      go none = tt
      go (some json) = vmess_of-Makes (r.vmess json)

  vless_node-IsTyped : (u : Url) (port : ℤ) → IsTyped (vless_node r u port)
  unfolding vless_node put_vless_tls put_flow
  vless_node-IsTyped u port =
      let q = u.query in
      let base =
        base_node-IsTyped "vless" (decode_fragment r u.fragment) u.hostname port _
          (inr (inl refl)) in
      let secured =
        if-IsTyped (not (query_get "security" q == "") && not (query_get "security" q == "none")) _
          _
          (put-IsTyped "tls" (obj (vless_tls (query_get "security" q) q)) _ (refl, refl, refl, refl)
            base)
          base in
      let flowing =
        if-IsTyped (not (query_get "flow" q == "") && not (query_get "type" q == "ws")) _ _
          (put-IsTyped "flow" (str (query_get "flow" q)) _ (refl, refl, refl, refl) secured)
          secured in
      set_transport-IsTyped _ (query_get "type" q) (query_get "host" q) q (
        put_text-IsTyped "packet_encoding" (query_get "packetEncoding" q) _ (refl, refl, refl, refl)
          flowing)

  parse_vless-Makes : (u : Url) → Makes (parse_vless r u)
  unfolding parse_vless
  parse_vless-Makes u =
      if-Makes (atoi u.port).valid _ _ (vless_node-IsTyped u (atoi u.port).number) tt

  trojan_node-IsTyped : (u : Url) (port : ℤ) → IsTyped (trojan_node r u port)
  unfolding trojan_node
  trojan_node-IsTyped u port =
      set_transport-IsTyped _ (query_get "type" u.query) (query_get "host" u.query) u.query (
        put-IsTyped "tls" (obj (trojan_tls u.query)) _ (refl, refl, refl, refl)
          (base_node-IsTyped "trojan" (decode_fragment r u.fragment) u.hostname port _
            (inr (inr (inr (inl refl))))))

  parse_trojan-Makes : (u : Url) → Makes (parse_trojan r u)
  unfolding parse_trojan
  parse_trojan-Makes u =
      if-Makes (atoi u.port).valid _ _ (trojan_node-IsTyped u (atoi u.port).number) tt

  ss_of-Makes : (u : Url) (s : Ss) → Makes (ss_of r u s)
  unfolding ss_of ss_node
  ss_of-Makes u s = if-Makes (s.method == "" || s.password == "") _ _ tt (
      if-Makes (is_zero (port_or s.port (atoi u.port))) _ _ tt (
        base_node-IsTyped "shadowsocks" (decode_fragment r u.fragment) _ _ _
          (inr (inr (inl refl)))))

  parse_scheme-Makes : (o : Option Url) → Makes (parse_scheme r o)
  unfolding parse_scheme parse_ss
  parse_scheme-Makes none = tt
  parse_scheme-Makes (some u) = if-Makes (u.scheme == "vless") _ _ (parse_vless-Makes u) (
      if-Makes (u.scheme == "ss") _ _ (ss_of-Makes u (ss_legacy r u (ss_user r u.user)))
        (if-Makes (u.scheme == "trojan") _ _ (parse_trojan-Makes u) tt))

  pub parse_link-Makes : (link : String) → Makes (parse_link r link)
  unfolding parse_link parse_form
  parse_link-Makes link =
      if-Makes (trim_space link == "") _ _ tt (go (cut_prefix (trim_space link) "vmess://"))
    where
      go : (o : Option String) → Makes (parse_form r (trim_space link) o)
      go (some raw) = parse_vmess-Makes raw
      go none = parse_scheme-Makes (r.parse_url (trim_space link))
