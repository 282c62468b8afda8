-- ===== src/Subscription/Xray/Links.antt =====
-- parseLink of internal/subscription/xray/converter.go.
use node_box.Prelude.{String, Option, none, some, ◌==◌, if◌then◌else◌, err}
use node_box.TextUtil.{trim_space}
use node_box.TextUtil.Replace.{cut_prefix}
use node_box.Subscription.Xray.{Parsed, empty_link, invalid_url, unsupported_protocol, Url, Readers}
use node_box.Subscription.Xray.VMess.{parse_vmess}
use node_box.Subscription.Xray.Urls.{parse_vless, parse_trojan}
use node_box.Subscription.Xray.Shadowsocks.{parse_ss}

unfoldable pub parse_scheme : Readers → Option Url → Parsed
unfolding parse_vless parse_ss parse_trojan
parse_scheme r none = err invalid_url
parse_scheme r (some u) =
    if u.scheme == "vless"
    then parse_vless r u
    else if u.scheme == "ss"
    then parse_ss r u
    else if u.scheme == "trojan"
    then parse_trojan r u
    else err (unsupported_protocol u.scheme)

-- a link of the VMess form, or a URL
unfoldable pub parse_form : Readers → String → Option String → Parsed
unfolding parse_vmess parse_scheme
parse_form r link (some raw) = parse_vmess r raw
parse_form r link none = parse_scheme r (r.parse_url link)

unfoldable pub parse_link : Readers → String → Parsed
unfolding parse_form trim_space cut_prefix
parse_link r link =
    let t = trim_space link in
    if t == "" then err empty_link else parse_form r t (cut_prefix t "vmess://")
