-- ===== src/Subscription/Xray/Process.antt =====
-- internal/subscription/xray/processor.go, decodeSubscription and splitLines of utils.go.
use node_box.Prelude.{
  String, Option, none, some, List, [], ◌∷◌, ◌==◌, if◌then◌else◌, Result, ok, err, is_nil, ◌&&◌,
  not, map, select,
}
use node_box.Node.{Node}
use node_box.TextUtil.{trim_space}
use node_box.Subscription.Xray.{
  Readers, try_base64_decode, is_likely_share_links, split_at, LinkError, Parsed,
}
use node_box.Subscription.Xray.Links.{parse_link}

pub data XrayError : Type 0 where
  no_links : XrayError
  all_links_failed : List LinkError → XrayError

abbrev decoded_or : String → Option String → String
decoded_or s none = s
decoded_or s (some t) = t

-- decodeSubscription, of the text of the data
unfoldable pub decode_subscription : Readers → String → String
unfolding trim_space is_likely_share_links try_base64_decode
decode_subscription r data_text =
    let s = trim_space data_text in
    if is_likely_share_links s then s else decoded_or s (try_base64_decode r s)

unfoldable pub split_lines : String → List String
unfolding trim_space split_at select
split_lines s = select (λ line. not (line == "")) (map trim_space (split_at b'\n' s))

-- The nodes and the errors of a list of lines, each in order.
pub record Converted : Type 0 where
  pub nodes : List Node
  pub errors : List LinkError

abbrev pub add_parsed : Parsed → Converted → Converted
add_parsed (ok n) c = record c { nodes = n ∷ c.nodes }
add_parsed (err e) c = record c { errors = e ∷ c.errors }

-- the loop over the lines
unfoldable pub convert_lines : Readers → List String → Converted
unfolding parse_link
convert_lines r [] = record { nodes = []; errors = [] }
convert_lines r (line ∷ lines) = add_parsed (parse_link r line) (convert_lines r lines)

unfoldable pub settle : Converted → Result XrayError (List Node)
settle c =
    if is_nil c.nodes && not (is_nil c.errors) then err (all_links_failed c.errors) else ok c.nodes

unfoldable pub process_lines : Readers → List String → Result XrayError (List Node)
unfolding convert_lines settle
process_lines r [] = err no_links
process_lines r (line ∷ lines) = settle (convert_lines r (line ∷ lines))

unfoldable pub process : Readers → String → Result XrayError (List Node)
unfolding process_lines split_lines decode_subscription
process r data_text = process_lines r (split_lines (decode_subscription r data_text))
