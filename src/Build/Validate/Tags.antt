-- ===== src/Build/Validate/Tags.antt =====
-- collectTags of internal/build/validate.go: the documents that it passes, and its result.
use node_box.Prelude.{
  ℕ, suc, String, ◌≡◌, ◌≢◌, ◌⊎◌, refl, sym, ap, subst, ◌∙◌, inl, inr, List, [], ◌∷◌, ◌++◌, map,
  arith, eq_iff, ok, >>=-eq-ok, All, In, Names, IsDistinct, has_false→not, not→has_false,
}
use node_box.Json.{
  Json, Fields, null, bool, num, str, arr, obj, get, text_of, objects, IsObject, array_of,
}
use node_box.Node
use node_box.Node.{Node}
use node_box.Build.Validate.{add_tag, collect_item, collect_section, collect_tags}
use node_box.Build.Validate.Spec.{all_nodes, document_tags}

-- Tags enter the set in order, each nonempty and new.
abbrev Fresh : Names → List Node → Type 0
Fresh tags [] = Unit
Fresh tags (n ∷ ns) = (Node.tag n ≢ "") × (¬ In (Node.tag n) tags) × Fresh (Node.tag n ∷ tags) ns

abbrev with_tags : Names → List Node → Names
with_tags tags [] = tags
with_tags tags (n ∷ ns) = with_tags (Node.tag n ∷ tags) ns

collect_item-ok :
    (s : String) (i : ℕ) (n : Node) (tags t : Names)
    → collect_item s i (obj n) tags ≡ ok t
    → (Node.tag n ≢ "") × (¬ In (Node.tag n) tags) × (t ≡ Node.tag n ∷ tags)
unfolding collect_item add_tag Node.tag
collect_item-ok s i n tags t h = (
  ground (arith, eq_iff (text_of (get "tag" n)) ""),
  has_false→not _ tags (ground arith),
  ground arith,
)

collect_item_fresh :
    (s : String) (i : ℕ) (n : Node) (tags : Names)
    → Node.tag n ≢ ""
    → ¬ In (Node.tag n) tags
    → collect_item s i (obj n) tags ≡ ok (Node.tag n ∷ tags)
unfolding collect_item add_tag Node.tag
collect_item_fresh s i n tags h k =
    ground (arith, eq_iff (text_of (get "tag" n)) "", not→has_false (text_of (get "tag" n)) tags k)

collect_section-ok :
    (s : String) (i : ℕ) (xs : List Json) (tags t : Names)
    → collect_section s i xs tags ≡ ok t
    → All IsObject xs × Fresh tags (objects xs) × (t ≡ with_tags tags (objects xs))
unfolding collect_section objects collect_item
collect_section-ok s i [] tags t h = (tt, tt, ground arith)
collect_section-ok s i (obj n ∷ xs) tags t h =
    let (u, e, rest) = >>=-eq-ok (collect_item s i (obj n) tags) _ h in
    let (named, new, added) = collect_item-ok s i n tags u e in
    let (os, fresh, eq) = collect_section-ok s (suc i) xs u t rest in
    (
      (tt, os),
      (named, new, subst (λ v. Fresh v (objects xs)) added fresh),
      eq ∙ ap (λ v. with_tags v (objects xs)) added,
    )
collect_section-ok s i (null ∷ xs) tags t h = cc
collect_section-ok s i (bool _ ∷ xs) tags t h = cc
collect_section-ok s i (num _ ∷ xs) tags t h = cc
collect_section-ok s i (str _ ∷ xs) tags t h = cc
collect_section-ok s i (arr _ ∷ xs) tags t h = cc

collect_section-Fresh :
    (s : String) (i : ℕ) (xs : List Json) (tags : Names)
    → All IsObject xs
    → Fresh tags (objects xs)
    → collect_section s i xs tags ≡ ok (with_tags tags (objects xs))
unfolding collect_section objects
collect_section-Fresh s i [] tags os f = refl
collect_section-Fresh s i (obj n ∷ xs) tags os f =
    rw (collect_item_fresh s i n tags f.0 f.1)
      (collect_section-Fresh s (suc i) xs (Node.tag n ∷ tags) os.1 f.2)
collect_section-Fresh s i (null ∷ xs) tags os f = absurd os.0
collect_section-Fresh s i (bool _ ∷ xs) tags os f = absurd os.0
collect_section-Fresh s i (num _ ∷ xs) tags os f = absurd os.0
collect_section-Fresh s i (str _ ∷ xs) tags os f = absurd os.0
collect_section-Fresh s i (arr _ ∷ xs) tags os f = absurd os.0

Fresh-append :
    (tags : Names) (ns ms : List Node)
    → Fresh tags ns
    → Fresh (with_tags tags ns) ms
    → Fresh tags (ns ++ ms)
Fresh-append tags [] ms f g = g
Fresh-append tags (n ∷ ns) ms f g = (f.0, f.1, Fresh-append (Node.tag n ∷ tags) ns ms f.2 g)

Fresh-append_left : (tags : Names) (ns ms : List Node) → Fresh tags (ns ++ ms) → Fresh tags ns
Fresh-append_left tags [] ms f = tt
Fresh-append_left tags (n ∷ ns) ms f = (f.0, f.1, Fresh-append_left (Node.tag n ∷ tags) ns ms f.2)

Fresh-append_right :
    (tags : Names) (ns ms : List Node) → Fresh tags (ns ++ ms) → Fresh (with_tags tags ns) ms
Fresh-append_right tags [] ms f = f
Fresh-append_right tags (n ∷ ns) ms f = Fresh-append_right (Node.tag n ∷ tags) ns ms f.2

with_tags-append :
    (tags : Names) (ns ms : List Node)
    → with_tags tags (ns ++ ms) ≡ with_tags (with_tags tags ns) ms
with_tags-append tags [] ms = refl
with_tags-append tags (n ∷ ns) ms = with_tags-append (Node.tag n ∷ tags) ns ms

-- The set holds what it held and the tags of the nodes.
In-with_tags→ :
    (k : String) (tags : Names) (ns : List Node)
    → In k (with_tags tags ns)
    → In k (map Node.tag ns) ⊎ In k tags
In-with_tags→ k tags [] i = inr i
In-with_tags→ k tags (n ∷ ns) i = elim (In-with_tags→ k (Node.tag n ∷ tags) ns i) [
  | inl j ↦ inl (inr j)
  | inr (inl e) ↦ inl (inl e)
  | inr (inr j) ↦ inr j
]

In→with_tags :
    (k : String) (tags : Names) (ns : List Node)
    → In k (map Node.tag ns) ⊎ In k tags
    → In k (with_tags tags ns)
In→with_tags k tags [] (inr i) = i
In→with_tags k tags [] (inl i) = absurd i
In→with_tags k tags (n ∷ ns) (inl (inl e)) = In→with_tags k (Node.tag n ∷ tags) ns (inr (inl e))
In→with_tags k tags (n ∷ ns) (inl (inr i)) = In→with_tags k (Node.tag n ∷ tags) ns (inl i)
In→with_tags k tags (n ∷ ns) (inr i) = In→with_tags k (Node.tag n ∷ tags) ns (inr (inr i))

Fresh→named : (tags : Names) (ns : List Node) → Fresh tags ns → All (λ n. Node.tag n ≢ "") ns
Fresh→named tags [] f = tt
Fresh→named tags (n ∷ ns) f = (f.0, Fresh→named (Node.tag n ∷ tags) ns f.2)

Fresh→new :
    (k : String) (tags : Names) (ns : List Node)
    → Fresh tags ns
    → In k tags
    → ¬ In k (map Node.tag ns)
Fresh→new k tags [] f i = λ j. j
Fresh→new k tags (n ∷ ns) f i = λ j. elim j [
  | inl e ↦ f.1 (subst (λ v. In v tags) e i)
  | inr l ↦ Fresh→new k (Node.tag n ∷ tags) ns f.2 (inr i) l
]

Fresh→distinct : (tags : Names) (ns : List Node) → Fresh tags ns → IsDistinct (map Node.tag ns)
Fresh→distinct tags [] f = tt
Fresh→distinct tags (n ∷ ns) f = (
  Fresh→new (Node.tag n) (Node.tag n ∷ tags) ns f.2 (inl refl),
  Fresh→distinct (Node.tag n ∷ tags) ns f.2,
)

distinct→Fresh :
    (tags : Names) (ns : List Node)
    → All (λ n. Node.tag n ≢ "") ns
    → IsDistinct (map Node.tag ns)
    → ((k : String) → In k tags → ¬ In k (map Node.tag ns))
    → Fresh tags ns
distinct→Fresh tags [] a d new = tt
distinct→Fresh tags (n ∷ ns) a d new = (
  a.0,
  λ i. new (Node.tag n) i (inl refl),
  distinct→Fresh (Node.tag n ∷ tags) ns a.1 d.1 λ k i j. elim i [
    | inl e ↦ d.0 (subst (λ v. In v (map Node.tag ns)) e j)
    | inr l ↦ new k l (inr j)
  ],
)

-- The result of `collect_tags`: the sections hold objects, with distinct tags, which are the result.
pub record Collected (doc : Fields) (tags : Names) : Type 0 where
  pub outbounds : All IsObject (array_of (get "outbounds" doc))
  pub endpoints : All IsObject (array_of (get "endpoints" doc))
  pub named : All (λ n. Node.tag n ≢ "") (all_nodes doc)
  pub distinct : IsDistinct (document_tags doc)
  pub sound : (k : String) → In k tags → In k (document_tags doc)
  pub complete : (k : String) → In k (document_tags doc) → In k tags

pub collect_tags-Collected :
    (doc : Fields) (tags : Names) → collect_tags doc ≡ ok tags → Collected doc tags
unfolding collect_tags
collect_tags-Collected doc tags h =
    let (t, e, rest) =
      >>=-eq-ok (collect_section "outbounds" 0 (array_of (get "outbounds" doc)) []) _ h in
    let (o1, f1, q1) = collect_section-ok _ _ _ _ t e in
    let (o2, f2, q2) = collect_section-ok _ _ _ t tags rest in
    let ns = objects (array_of (get "outbounds" doc)) in
    let ms = objects (array_of (get "endpoints" doc)) in
    let fresh = Fresh-append [] ns ms f1 (subst (λ v. Fresh v ms) q1 f2) in
    let all = q2 ∙ ap (λ v. with_tags v ms) q1 ∙ sym (with_tags-append [] ns ms) in
    record {
      outbounds = o1;
      endpoints = o2;
      named = Fresh→named [] (all_nodes doc) fresh;
      distinct = Fresh→distinct [] (all_nodes doc) fresh;
      sound = λ k i. elim (In-with_tags→ k [] (all_nodes doc) (subst (λ v. In k v) all i)) [
        | inl j ↦ j
        | inr j ↦ absurd j
      ];
      complete = λ k i. subst (λ v. In k v) (sym all) (In→with_tags k [] (all_nodes doc) (inl i));
    }

pub collect_tags_total :
    (doc : Fields)
    → All IsObject (array_of (get "outbounds" doc))
    → All IsObject (array_of (get "endpoints" doc))
    → All (λ n. Node.tag n ≢ "") (all_nodes doc)
    → IsDistinct (document_tags doc)
    → (tags : Names) × (collect_tags doc ≡ ok tags)
unfolding collect_tags
collect_tags_total doc o1 o2 a d =
    let ns = objects (array_of (get "outbounds" doc)) in
    let ms = objects (array_of (get "endpoints" doc)) in
    let fresh = distinct→Fresh [] (all_nodes doc) a d (λ k i. absurd i) in
    (
      with_tags (with_tags [] ns) ms,
      rw
          (collect_section-Fresh "outbounds" 0 (array_of (get "outbounds" doc)) [] o1
            (Fresh-append_left [] ns ms fresh))
          (collect_section-Fresh "endpoints" 0 _ (with_tags [] ns) o2
            (Fresh-append_right [] ns ms fresh)),
    )
