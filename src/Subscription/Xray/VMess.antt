-- ===== src/Subscription/Xray/VMess.antt =====
-- parseVMess of internal/subscription/xray/converter.go.
use node_box.Prelude.{
  String, Option, none, some, [], ◌∷◌, ◌==◌, if◌then◌else◌, ok, err, ℤ, pos, is_zero,
}
use node_box.Json.{Fields, num, str, obj, end, field, put}
use node_box.Node.{Node}
use node_box.Subscription.Xray.{
  Parsed, base_node, vmess_base64, vmess_json, vmess_port, vmess_name, Query, AnyNumber, text,
  number, nothing, VMessConfig, Readers, try_base64_decode, atoi, parse_any_port, put_text, enabled,
  put_alpn, utls,
}
use node_box.Subscription.Xray.Transport.{set_transport}

abbrev alter_id : AnyNumber → ℤ
alter_id (text s) = if (atoi s).valid then (atoi s).number else pos 0
alter_id (number z) = z
alter_id nothing = pos 0

unfoldable pub vmess_tls : VMessConfig → Fields
unfolding put_text put_alpn
vmess_tls v =
    let named = put_text "server_name" v.sni enabled in
    put_alpn v.alpn (if v.fp == "" then named else put "utls" (utls v.fp) named)

unfoldable pub vmess_query : VMessConfig → Query
vmess_query v = if v.path == "" then [] else ("path", v.path) ∷ []

unfoldable pub vmess_node : Readers → VMessConfig → Node
unfolding vmess_tls vmess_query set_transport
vmess_node r v =
    let node = base_node r "vmess" v.ps v.add (parse_any_port v.port) (
      field "uuid" (str v.id) (
        field "alter_id" (num (r.literal (alter_id v.aid)))
          (field "security" (str (if v.scy == "" then "auto" else v.scy)) end))) in
    set_transport r (if v.tls == "tls" then put "tls" (obj (vmess_tls v)) node else node) v.net
      v.host (vmess_query v)

unfoldable pub vmess_of : Readers → Option VMessConfig → Parsed
unfolding vmess_node parse_any_port
vmess_of r none = err vmess_json
vmess_of r (some v) =
    if is_zero (parse_any_port v.port)
    then err vmess_port
    else if v.ps == ""
    then err vmess_name
    else ok (vmess_node r v)

abbrev pub vmess_decoded : Readers → Option String → Parsed
vmess_decoded r none = err vmess_base64
vmess_decoded r (some json) = vmess_of r (r.vmess json)

unfoldable pub parse_vmess : Readers → String → Parsed
unfolding vmess_of try_base64_decode
parse_vmess r raw = vmess_decoded r (try_base64_decode r raw)
