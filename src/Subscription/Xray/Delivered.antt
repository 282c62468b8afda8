-- ===== src/Subscription/Xray/Delivered.antt =====
-- Process of internal/subscription/xray/processor.go: what it returns.
use node_box.Prelude.{
  ℕ, suc, ◌+◌, String, ◌≡◌, ◌≢◌, refl, List, [], ◌∷◌, arith, Result, ok, err, length, All,
}
use node_box.Node.{Node}
use node_box.Subscription.Xray.{Readers, LinkError, Parsed}
use node_box.Subscription.Xray.Links.{parse_link}
use node_box.Subscription.Xray.Process.{
  XrayError, no_links, all_links_failed, Converted, add_parsed, convert_lines, settle,
  process_lines, split_lines, decode_subscription, process,
}
use node_box.Subscription.Xray.Typed.{IsTyped, Makes, parse_link-Makes}

module _ (r : Readers) where
  -- Every line gives a node or an error.
  abbrev IsConverted : ℕ → Converted → Type 0
  IsConverted n c = All (IsTyped r) c.nodes × (length c.nodes + length c.errors ≡ n)

  add_parsed-IsConverted :
      (n : ℕ) (p : Parsed) (c : Converted)
      → Makes r p
      → IsConverted n c
      → IsConverted (suc n) (add_parsed p c)
  add_parsed-IsConverted n (ok x) c m (a, e) = ((m, a), omega (arith, e))
  add_parsed-IsConverted n (err x) c m (a, e) = (a, omega (arith, e))

  convert_lines-IsConverted :
      (lines : List String) → IsConverted (length lines) (convert_lines r lines)
  unfolding convert_lines
  convert_lines-IsConverted [] = (tt, refl)
  convert_lines-IsConverted (line ∷ lines) =
      add_parsed-IsConverted (length lines) (parse_link r line) (convert_lines r lines)
        (parse_link-Makes r line) (convert_lines-IsConverted lines)

  -- Nodes, at least one and each with its fields; or no line at all; or an error for each line.
  abbrev pub Answers : List String → Result XrayError (List Node) → Type 0
  Answers lines (ok ns) = All (IsTyped r) ns × (ns ≢ [])
  Answers lines (err no_links) = lines ≡ []
  Answers lines (err (all_links_failed es)) = (lines ≢ []) × (length es ≡ length lines)

  settle-Answers :
      (line : String) (lines : List String) (ns : List Node) (es : List LinkError)
      → IsConverted (suc (length lines)) (record { nodes = ns; errors = es })
      → Answers (line ∷ lines) (settle (record { nodes = ns; errors = es }))
  unfolding settle
  settle-Answers line lines (n ∷ ns) es (a, e) = (a, λ q. cc)
  settle-Answers line lines [] (x ∷ es) (a, e) = (λ q. cc, omega (arith, e))
  settle-Answers line lines [] [] (a, e) = absurd (omega (arith, e))

  process_lines-Answers : (lines : List String) → Answers lines (process_lines r lines)
  unfolding process_lines
  process_lines-Answers [] = refl
  process_lines-Answers (line ∷ lines) =
      settle-Answers line lines (convert_lines r (line ∷ lines)).nodes
        (convert_lines r (line ∷ lines)).errors (convert_lines-IsConverted (line ∷ lines))

  -- Every node that the Xray parser returns has one of the four protocol names as its type, a
  -- tag and a server that are texts, and a port that is a number, and there is at least one; it
  -- fails otherwise: without a line, or with an error for each of the lines.
  pub process-Answers :
      (data_text : String)
      → Answers (split_lines (decode_subscription r data_text)) (process r data_text)
  unfolding process
  process-Answers data_text = process_lines-Answers (split_lines (decode_subscription r data_text))
