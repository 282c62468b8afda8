-- ===== src/Subscription/Process/SingBox.antt =====
-- singboxProcessor.Process of internal/subscription/processor.go: the nodes of a document.
use node_box.Prelude.{
  ok_inj, String, ◌≡◌, ◌≢◌, ◌↔◌, refl, sym, subst, ap, ap₂, ◌∙◌, Option, none, some, List, [], ◌∷◌,
  ◌++◌, select, ok, >>=-eq-ok, Bool, not, ◌&&◌, ◌==◌, has, arith,
}
use node_box.Json.{Json, Fields, null, bool, num, str, arr, obj, get, elements, objects}
use node_box.Node.{Node, type}
use node_box.Fetch.{Bytes}
use node_box.Subscription.Process.{
  Decode, is_proxy, section_nodes, read_section, any_nodes, process_config, process_decoded,
  singbox_process,
}

-- The items of a section: none where it is missing, and a section is an array.
abbrev pub IsSection : Option Json → List Json → Type 0
IsSection none items = items ≡ []
IsSection (some (arr xs)) items = items ≡ elements xs
IsSection (some _) items = ⊥

-- A node of a type that is set and is none of the five that sing-box has for itself.
pub is_upstream : Node → Bool
is_upstream n =
    not (type n == "")
    && not ("direct" == type n)
    && not ("block" == type n)
    && not ("selector" == type n)
    && not ("urltest" == type n)
    && not ("dns" == type n)

is_proxy-is_upstream : (n : Node) → is_proxy n ≡ is_upstream n
unfolding is_proxy is_upstream has
is_proxy-is_upstream n = ground arith

section_nodes-select : (xs : List Json) → section_nodes xs ≡ select is_upstream (objects xs)
unfolding section_nodes select objects
section_nodes-select [] = refl
section_nodes-select (obj m ∷ xs) = rw (is_proxy-is_upstream m, section_nodes-select xs) refl
section_nodes-select (null ∷ xs) = section_nodes-select xs
section_nodes-select (bool b ∷ xs) = section_nodes-select xs
section_nodes-select (num n ∷ xs) = section_nodes-select xs
section_nodes-select (str s ∷ xs) = section_nodes-select xs
section_nodes-select (arr ys ∷ xs) = section_nodes-select xs

abbrev pub proxies : List Json → List Node
proxies items = select is_upstream (objects items)

-- The proxies of a section that is missing or an array.
abbrev SectionOf : Option Json → List Node → Type 0
SectionOf o ns = (items : List Json) × IsSection o items × (ns ≡ proxies items)

read_section_iff :
    (name : String) (o : Option Json) (ns : List Node)
    → (read_section name o ≡ ok ns) ↔ SectionOf o ns
unfolding read_section select objects
read_section_iff name none ns =
    (λ h. ([], refl, sym (ok_inj h)), λ (items, s, e). ap ok (sym (e ∙ ap proxies s)))
read_section_iff name (some (arr xs)) ns = (
  λ h. (elements xs, refl, sym (ok_inj h) ∙ section_nodes-select (elements xs)),
  λ (items, s, e). ap ok (section_nodes-select (elements xs) ∙ sym (e ∙ ap proxies s)),
)
read_section_iff name (some null) ns = (λ h. cc, λ (_, b, _). absurd b)
read_section_iff name (some (bool _)) ns = (λ h. cc, λ (_, b, _). absurd b)
read_section_iff name (some (num _)) ns = (λ h. cc, λ (_, b, _). absurd b)
read_section_iff name (some (str _)) ns = (λ h. cc, λ (_, b, _). absurd b)
read_section_iff name (some (obj _)) ns = (λ h. cc, λ (_, b, _). absurd b)

any_nodes_iff : (found ns : List Node) → (any_nodes found ≡ ok ns) ↔ ((ns ≡ found) × (ns ≢ []))
unfolding any_nodes
any_nodes_iff [] ns = (λ h. cc, λ (e, n). absurd (n e))
any_nodes_iff (x ∷ found) ns =
    (λ h. (sym (ok_inj h), λ n. cc (ok_inj h, n)), λ (e, _). ap ok (sym e))

-- What a decoded document gives.
abbrev pub Proxies : Fields → List Node → Type 0
Proxies cfg ns =
    (outbounds : List Json) × (endpoints : List Json) × IsSection (get "outbounds" cfg) outbounds
    × IsSection (get "endpoints" cfg) endpoints
    × (ns ≡ proxies outbounds ++ proxies endpoints)
    × (ns ≢ [])

process_config_iff : (cfg : Fields) (ns : List Node) → (process_config cfg ≡ ok ns) ↔ Proxies cfg ns
unfolding process_config
process_config_iff cfg ns = (
  λ h.
      let (os, a, rest) = >>=-eq-ok (read_section "outbounds" (get "outbounds" cfg)) _ h in
      let (es, b, last) = >>=-eq-ok (read_section "endpoints" (get "endpoints" cfg)) _ rest in
      let (xs, s, p) = (read_section_iff "outbounds" (get "outbounds" cfg) os).0 a in
      let (ys, t, q) = (read_section_iff "endpoints" (get "endpoints" cfg) es).0 b in
      let (e, n) = (any_nodes_iff (os ++ es) ns).0 last in (xs, ys, s, t, e ∙ ap₂ ◌++◌ p q, n),
  λ (xs, ys, s, t, e, n).
      rw
        (
          (read_section_iff "outbounds" (get "outbounds" cfg) (proxies xs)).1 (xs, s, refl),
          (read_section_iff "endpoints" (get "endpoints" cfg) (proxies ys)).1 (ys, t, refl),
        )
        ((any_nodes_iff (proxies xs ++ proxies ys) ns).1 (e, n)),
)

-- The sing-box parser returns nodes exactly if the document decodes, each of the two sections is
-- missing or an array, and the nodes are those among the objects of the outbounds, then of the
-- endpoints, whose type is set and none of direct, block, selector, urltest and dns, at least one.
pub singbox_process_iff :
    (decode : Decode) (bytes : Bytes) (ns : List Node)
    → (singbox_process decode bytes ≡ ok ns)
      ↔ ((cfg : Fields) × (decode bytes ≡ some cfg) × Proxies cfg ns)
unfolding singbox_process process_decoded
singbox_process_iff decode bytes ns = go (decode bytes)
  where
    go :
        (o : Option Fields)
        → (process_decoded o ≡ ok ns) ↔ ((cfg : Fields) × (o ≡ some cfg) × Proxies cfg ns)
    go none = (λ h. cc, λ (_, e, _). cc)
    go (some cfg) = (
      λ h. (cfg, refl, (process_config_iff cfg ns).0 h),
      λ (c, e, found).
          subst (λ y. process_decoded y ≡ ok ns) (sym e) ((process_config_iff c ns).1 found),
    )
