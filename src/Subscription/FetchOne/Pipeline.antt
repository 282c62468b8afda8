-- ===== src/Subscription/FetchOne/Pipeline.antt =====
-- fetchOne of internal/subscription/fetcher.go: what the nodes that it delivers are.
use node_box.Prelude.{
  ok_inj, String, ◌≡◌, ◌≢◌, ◌⊎◌, ◌↔◌, ◌∙◌, inl, inr, refl, sym, subst, Bool, true, false, Option,
  none, some, List, [], ◌∷◌, map, arith, Bool-cases, In, In-map_inv, is_nil, select, ◌==◌, ◌||◌,
  eq_iff, if◌then◌else◌, Result, ok, err, >>=-eq-ok,
}
use node_box.Build.Injector.{belongs_to}
use node_box.Json.{get, get-put, str}
use node_box.Model.{Subscription}
use node_box.Node.{Node, tag, set_tag}
use node_box.Node.Laws.{tag-set_tag}
use node_box.Subscription.FetchOne.{
  Fetcher, NamingRules, cleaned, emojified, name_nodes, fetch_one, read, map_err,
}
use node_box.Subscription.Naming.{
  edit_tag, prefixed, prefix_tags, remove_keywords, assign_tag_emoji, strip_tag_emoji,
  drop_excluded, clean_tag, marked,
}
use node_box.Subscription.Removal.{compile_removals, remove_matches}
use node_box.Subscription.Process.{
  Processor, Processors, processor_for, clash_process, singbox_process, xray_process, unsupported,
}
use node_box.Fetch.{Bytes}
use node_box.Model.Validate.{has_bracket, lowers_to}
use node_box.Subscription.Naming.Excluded.{Kept, drop_excluded_iff}
use node_box.Subscription.Naming.Prefixed.{belongs_to-prefixed, belongs_to_unique}
use node_box.TextUtil.{RuneClass}

-- The lists that a list of nodes becomes when nodes are left out and tags are edited.
pub data IsRenamed : List Node → List Node → Type 0 where
  nothing : IsRenamed [] []
  leave : (n : Node) {ns ms : List Node} → IsRenamed ns ms → IsRenamed (n ∷ ns) ms
  keep :
      (n m : Node) {ns ms : List Node}
      → ((k : String) → k ≢ "tag" → get k m ≡ get k n)
      → IsRenamed ns ms
      → IsRenamed (n ∷ ns) (m ∷ ms)

abbrev SameFields : Node → Node → Type 0
SameFields n m = (k : String) → k ≢ "tag" → get k m ≡ get k n

edit_tag-SameFields : (edit : String → String) (n : Node) → SameFields n (edit_tag edit n)
unfolding edit_tag set_tag
edit_tag-SameFields edit n k other = elim (Bool-cases (tag n == "")) [
  | inl e ↦ rw e refl
  | inr e ↦ rw e (
      ground (
        arith,
        get-put "tag" k (str (edit (tag n))) n,
        eq_iff "tag" k,
        λ (q : "tag" ≡ k). other (sym q),
      ))
]

map-IsRenamed : (edit : String → String) (ns : List Node) → IsRenamed ns (map (edit_tag edit) ns)
map-IsRenamed edit [] = nothing
map-IsRenamed edit (n ∷ ns) =
    keep n (edit_tag edit n) (edit_tag-SameFields edit n) (map-IsRenamed edit ns)

same-IsRenamed : (ns : List Node) → IsRenamed ns ns
same-IsRenamed [] = nothing
same-IsRenamed (n ∷ ns) = keep n n (λ k other. refl) (same-IsRenamed ns)

select-IsRenamed : (p : Node → Bool) (ns : List Node) → IsRenamed ns (select p ns)
unfolding select
select-IsRenamed p [] = nothing
select-IsRenamed p (n ∷ ns) = elim (Bool-cases (p n)) [
  | inl t ↦ rw t (keep n n (λ k other. refl) (select-IsRenamed p ns))
  | inr f ↦ rw f (leave n (select-IsRenamed p ns))
]

IsRenamed-trans : {a b c : List Node} → IsRenamed a b → IsRenamed b c → IsRenamed a c
IsRenamed-trans nothing q = q
IsRenamed-trans (leave n p) q = leave n (IsRenamed-trans p q)
IsRenamed-trans (keep n m s p) (leave _ q) = leave n (IsRenamed-trans p q)
IsRenamed-trans (keep n m s p) (keep _ o t q) =
    keep n o (λ k other. t k other ∙ s k other) (IsRenamed-trans p q)

if-IsRenamed :
    (b : Bool) (ns : List Node) {xs ys : List Node}
    → IsRenamed ns xs
    → IsRenamed ns ys
    → IsRenamed ns (if b then xs else ys)
if-IsRenamed true ns p q = p
if-IsRenamed false ns p q = q

cleaned-IsRenamed : (sub : Subscription) (ns : List Node) → IsRenamed ns (cleaned sub ns)
unfolding cleaned remove_keywords
cleaned-IsRenamed sub ns = if-IsRenamed (is_nil sub.remove_keywords) ns (same-IsRenamed ns) (
    if-IsRenamed (is_nil (compile_removals sub.remove_keywords)) ns (same-IsRenamed ns)
      (map-IsRenamed (remove_matches (compile_removals sub.remove_keywords)) ns))

emojified-IsRenamed :
    (f : Fetcher) (naming : NamingRules) (o : Option Bool) (ns : List Node)
    → IsRenamed ns (emojified f naming o ns)
unfolding emojified assign_tag_emoji strip_tag_emoji
emojified-IsRenamed f naming none ns = same-IsRenamed ns
emojified-IsRenamed f naming (some true) ns = map-IsRenamed (marked f.so f.upper naming.emoji) ns
emojified-IsRenamed f naming (some false) ns = map-IsRenamed (clean_tag f.so) ns

drop_excluded-IsRenamed :
    (so : RuneClass) (ns : List Node) (kws : List String) → IsRenamed ns (drop_excluded so ns kws)
unfolding drop_excluded
drop_excluded-IsRenamed so ns [] = same-IsRenamed ns
drop_excluded-IsRenamed so ns (kw ∷ kws) = select-IsRenamed _ ns

name_nodes-IsRenamed :
    (f : Fetcher) (naming : NamingRules) (sub : Subscription) (ns : List Node)
    → IsRenamed ns (name_nodes f naming sub ns)
unfolding name_nodes prefix_tags
name_nodes-IsRenamed f naming sub ns = IsRenamed-trans (cleaned-IsRenamed sub ns) (
    IsRenamed-trans (emojified-IsRenamed f naming sub.emoji (cleaned sub ns)) (
      IsRenamed-trans (map-IsRenamed (prefixed sub.name) _)
        (drop_excluded-IsRenamed f.so _ naming.exclude)))

-- A node with a prefixed tag, or without one.
edit_tag-prefixed :
    (name : String) (n : Node)
    → (tag (edit_tag (prefixed name) n) ≡ "")
      ⊎ (belongs_to (tag (edit_tag (prefixed name) n)) name ≡ true)
unfolding edit_tag
edit_tag-prefixed name n = elim (Bool-cases (tag n == "")) [
  | inl e ↦ rw e (inl ((eq_iff (tag n) "").0 e))
  | inr e ↦ rw (e, tag-set_tag) (inr (belongs_to-prefixed name (tag n)))
]

-- Every node with a tag carries the prefix of the subscription, and no excluded keyword.
abbrev pub Owned : Fetcher → NamingRules → Subscription → Node → Type 0
Owned f naming sub n =
    ((tag n ≡ "") ⊎ (belongs_to (tag n) sub.name ≡ true)) × Kept f.so naming.exclude n

name_nodes-Owned :
    (f : Fetcher) (naming : NamingRules) (sub : Subscription) (ns : List Node) (n : Node)
    → In n (name_nodes f naming sub ns)
    → Owned f naming sub n
unfolding name_nodes prefix_tags
name_nodes-Owned f naming sub ns n i =
    let (j, kept) = (drop_excluded_iff f.so _ naming.exclude n).0 i in
    let (m, _, e) = In-map_inv (edit_tag (prefixed sub.name)) n _ j in
    (
      subst (λ y. (tag y ≡ "") ⊎ (belongs_to (tag y) sub.name ≡ true)) (sym e)
          (edit_tag-prefixed sub.name m),
      kept,
    )

map_err-ok :
    {E F A : Type 0} (wrap : E → F) (got : Result E A) {a : A}
    → map_err wrap got ≡ ok a
    → got ≡ ok a
map_err-ok wrap (ok b) h = cc
map_err-ok wrap (err e) h = cc

-- The parser of a type, in any spelling by capitals: Clash documents, sing-box documents, or links.
abbrev pub IsParserFor : Processors → String → Processor → Type 0
IsParserFor ps t process =
    ((lowers_to t "clash" ≡ true) × (process ≡ clash_process ps.convert))
    ⊎ (((lowers_to t "singbox" ≡ true) × (process ≡ singbox_process ps.decode))
        ⊎ (((lowers_to t "xray" ≡ true) ⊎ (lowers_to t "v2ray" ≡ true))
            × (process ≡ xray_process ps.text ps.readers)))

processor_for-IsParserFor :
    (ps : Processors) (t : String) (process : Processor)
    → processor_for ps t ≡ ok process
    → IsParserFor ps t process
unfolding processor_for lowers_to clash_process singbox_process xray_process
processor_for-IsParserFor ps t process h =
    go (lowers_to t "clash") (lowers_to t "singbox") (lowers_to t "xray") (lowers_to t "v2ray") refl
      refl refl refl h
  where
    go :
        (a b c d : Bool)
        → lowers_to t "clash" ≡ a
        → lowers_to t "singbox" ≡ b
        → lowers_to t "xray" ≡ c
        → lowers_to t "v2ray" ≡ d
        → (if a
            then ok (clash_process ps.convert)
            else if b
            then ok (singbox_process ps.decode)
            else if c || d
            then ok (xray_process ps.text ps.readers)
            else err (unsupported t))
          ≡ ok process
        → IsParserFor ps t process
    go true b c d p q r s e = inl (p, sym (ok_inj e))
    go false true c d p q r s e = inr (inl (q, sym (ok_inj e)))
    go false false true d p q r s e = inr (inr (inl r, sym (ok_inj e)))
    go false false false true p q r s e = inr (inr (inr s, sym (ok_inj e)))
    go false false false false p q r s e = cc

-- A fetch that succeeds went through every step.
module _ (f : Fetcher) (naming : NamingRules) (sub : Subscription) (ns : List Node)
    (done : fetch_one f naming sub ≡ ok ns) where
  abbrev pub Parsed : List Node → Type 0
  Parsed raw =
      (bytes : Bytes) × (process : Processor) × (read f sub naming.default_ua ≡ ok bytes)
      × IsParserFor f.processors sub.type process
      × (process bytes ≡ ok raw)

  fetch_one-steps : (raw : List Node) × Parsed raw × (ns ≡ name_nodes f naming sub raw)
  unfolding fetch_one
  fetch_one-steps =
      let (bytes, a, rest) = >>=-eq-ok (read f sub naming.default_ua) _ done in
      let (process, b, more) = >>=-eq-ok (map_err _ (processor_for f.processors sub.type)) _ rest in
      let (raw, c, last) = >>=-eq-ok (map_err _ (process bytes)) _ more in
      (
        raw,
        (
          bytes,
          process,
          a,
          processor_for-IsParserFor f.processors sub.type process (map_err-ok _ _ b),
          map_err-ok _ _ c,
        ),
        sym (ok_inj last),
      )

  -- A successful fetch read bytes, chose the parser of the type, in any spelling by capitals, and parsed a list of nodes, and
  -- what it delivers is that list, in order, with nodes left out and with no field but the tag
  -- changed.
  pub fetch_one-IsRenamed : (raw : List Node) × Parsed raw × IsRenamed raw ns
  fetch_one-IsRenamed =
      let (raw, p, e) = fetch_one-steps in
      (raw, p, subst (IsRenamed raw) (sym e) (name_nodes-IsRenamed f naming sub raw))

  fetch_one-Owned : (n : Node) → In n ns → Owned f naming sub n
  fetch_one-Owned n i =
      let (raw, p, e) = fetch_one-steps in name_nodes-Owned f naming sub raw n (subst (In n) e i)

  -- No node that a fetch delivers has a tag, other than the empty one, in which an exclusion
  -- keyword stands when stripEmoji has been over both, or as it is written if stripEmoji leaves
  -- nothing of the keyword. (stripEmoji leaves no space for an emoji that directly follows a letter.)
  pub fetch_one-Kept : (n : Node) → In n ns → Kept f.so naming.exclude n
  fetch_one-Kept n i = (fetch_one-Owned n i).1

  -- The tag of a node that a fetch of a subscription delivers, where it is not empty, is
  -- attributed by belongsTo to a name exactly if it is the name of that subscription; neither
  -- name has a bracket.
  pub fetch_one-belongs_to :
      has_bracket sub.name ≡ false
      → (n : Node) → In n ns
      → tag n ≢ ""
      → (other : String) → has_bracket other ≡ false
      → (belongs_to (tag n) other ≡ true) ↔ (other ≡ sub.name)
  fetch_one-belongs_to h n i named other k = elim (fetch_one-Owned n i).0 [
    | inl e ↦ absurd (named e)
    | inr mine ↦ (
      λ b. belongs_to_unique (tag n) other sub.name k h b mine,
      λ e. subst (λ y. belongs_to (tag n) y ≡ true) (sym e) mine,
    )
  ]
