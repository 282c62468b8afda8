-- ===== src/Subscription/Process.antt =====
-- internal/subscription/processor.go: the parsers of the subscription formats. The conversion of
-- Clash documents and json.Unmarshal are parameters.
pub mod SingBox
use node_box.Prelude.{
  String, Bool, true, false, not, ◌&&◌, ◌||◌, Option, none, some, List, [], ◌∷◌, ◌++◌, Names, has,
  Result, ok, err, ◌>>=◌, is_nil, select, if◌then◌else◌, ◌==◌,
}
use node_box.Json.{Json, Fields, arr, obj, get, elements, as_object}
use node_box.Fetch.{Bytes}
use node_box.Node.{Node, type}
use node_box.Model.Validate.{lowers_to}
use node_box.Subscription.Xray.{Readers}
use node_box.Subscription.Xray.Process
use node_box.Subscription.Xray.Process.{XrayError}

pub data ProcessError : Type 0 where
  unsupported : String → ProcessError
  parse_json : ProcessError
  parse_yaml : ProcessError
  must_be_array : String → ProcessError
  no_proxy_nodes : ProcessError
  xray : XrayError → ProcessError

-- Processor.Process
abbrev pub Processor : Type 0
Processor = Bytes → Result ProcessError (List Node)

-- json.Unmarshal into a map[string]any
abbrev pub Decode : Type 0
Decode = Bytes → Option Fields

abbrev pub non_proxy_types : Names
non_proxy_types = "direct" ∷ "block" ∷ "selector" ∷ "urltest" ∷ "dns" ∷ []

unfoldable pub is_proxy : Node → Bool
is_proxy n = not (type n == "" || has (type n) non_proxy_types)

-- the loop over one array: an item that is no object is skipped
unfoldable pub section_nodes : List Json → List Node
unfolding is_proxy
section_nodes [] = []
section_nodes (obj m ∷ xs) = let rest = section_nodes xs in if is_proxy m then m ∷ rest else rest
section_nodes (_ ∷ xs) = section_nodes xs

unfoldable pub read_section : String → Option Json → Result ProcessError (List Node)
unfolding section_nodes
read_section name none = ok []
read_section name (some (arr xs)) = ok (section_nodes (elements xs))
read_section name (some _) = err (must_be_array name)

unfoldable pub any_nodes : List Node → Result ProcessError (List Node)
any_nodes [] = err no_proxy_nodes
any_nodes (n ∷ ns) = ok (n ∷ ns)

-- the loop over the two sections, and the check behind it
unfoldable pub process_config : Fields → Result ProcessError (List Node)
unfolding read_section any_nodes
process_config cfg = read_section "outbounds" (get "outbounds" cfg) >>= λ outbounds.
    read_section "endpoints" (get "endpoints" cfg) >>= λ endpoints.
    any_nodes (outbounds ++ endpoints)

unfoldable pub process_decoded : Option Fields → Result ProcessError (List Node)
unfolding process_config
process_decoded none = err parse_json
process_decoded (some cfg) = process_config cfg

unfoldable pub singbox_process : Decode → Processor
unfolding process_decoded
singbox_process decode text = process_decoded (decode text)

-- One outbound of the converted Clash document: its Ignored flag, and what toNode makes of it.
pub record Outbound : Type 0 where
  pub ignored : Bool
  pub node : Option Node

pub record Converted : Type 0 where
  pub outbounds : List Outbound
  pub endpoints : List (Option Node)

-- yaml.Unmarshal, then convert.Clash2sing, whose error only reports proxies that it left out
abbrev pub Convert : Type 0
Convert = Bytes → Option Converted

abbrev pub add_node : Option Node → List Node → List Node
add_node none ns = ns
add_node (some n) ns = n ∷ ns

unfoldable pub outbound_nodes : List Outbound → List Node
outbound_nodes [] = []
outbound_nodes (ob ∷ obs) =
    let rest = outbound_nodes obs in if ob.ignored then rest else add_node ob.node rest

unfoldable pub endpoint_nodes : List (Option Node) → List Node
endpoint_nodes [] = []
endpoint_nodes (ep ∷ eps) = add_node ep (endpoint_nodes eps)

unfoldable pub converted_nodes : Option Converted → Result ProcessError (List Node)
unfolding outbound_nodes endpoint_nodes
converted_nodes none = err parse_yaml
converted_nodes (some c) = ok (outbound_nodes c.outbounds ++ endpoint_nodes c.endpoints)

unfoldable pub clash_process : Convert → Processor
unfolding converted_nodes
clash_process convert text = converted_nodes (convert text)

unfoldable pub xray_result : Result XrayError (List Node) → Result ProcessError (List Node)
xray_result (ok ns) = ok ns
xray_result (err e) = err (xray e)

-- xray.Processor, over the runes of the data
unfoldable pub xray_process : (Bytes → String) → Readers → Processor
unfolding xray_result Process.process
xray_process text readers bytes = xray_result (Process.process readers (text bytes))

-- What the parsers that the dispatch chooses from stand on.
pub record Processors : Type 0 where
  pub convert : Convert
  pub decode : Decode
  pub text : Bytes → String
  pub readers : Readers

unfoldable pub processor_for : Processors → String → Result ProcessError Processor
unfolding lowers_to clash_process singbox_process xray_process
processor_for ps sub_type =
    if lowers_to sub_type "clash"
    then ok (clash_process ps.convert)
    else if lowers_to sub_type "singbox"
    then ok (singbox_process ps.decode)
    else if lowers_to sub_type "xray" || lowers_to sub_type "v2ray"
    then ok (xray_process ps.text ps.readers)
    else err (unsupported sub_type)
