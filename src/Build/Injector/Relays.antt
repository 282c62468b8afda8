-- ===== src/Build/Injector/Relays.antt =====
-- buildRelays of internal/build/inject.go: the relay nodes of one definition.
use node_box.Prelude.{
  String, ◌≡◌, ◌⊎◌, ◌∙◌, refl, sym, ap, subst, inl, inr, Option, none, some, List, [], ◌∷◌, ◌++◌,
  map, foldl, foldl_inv, arith, ◌==◌, eq_iff, Bool-cases, In, In-append_left, In-append_right,
  In-append_cases, In-map, In-map_inv, IsDistinct, IsDistinct-snoc, Names, has, has→In,
  has_false→not, Dict, lookup, lookup-insert, lookup-insert-some,
}
use node_box.Node
use node_box.Node.{Node}
use node_box.Node.Laws.{tag-set_tag, tag-set_detour, detour-set_detour}
use node_box.TextUtil.{concat}
use node_box.Build.Injector.{
  Pairing, relay_tag, relay_node, add_if_new, keep_or_add, add_pair, add_pairs, pair_all,
}

tag-relay_node : (t u : Node) → Node.tag (relay_node t u) ≡ relay_tag t u
unfolding relay_node
tag-relay_node t u = tag-set_detour (Node.tag u) _ ∙ tag-set_tag (relay_tag t u) (Node.clone t)

detour-relay_node : (t u : Node) → Node.detour (relay_node t u) ≡ Node.tag u
unfolding relay_node
detour-relay_node t u = detour-set_detour (Node.tag u) _

tags : List Node → Names
tags ns = map Node.tag ns

tags-snoc : (ns : List Node) (n : Node) → tags (ns ++ n ∷ []) ≡ tags ns ++ Node.tag n ∷ []
unfolding tags
tags-snoc [] n = refl
tags-snoc (m ∷ ns) n = ap (λ (l : Names). Node.tag m ∷ l) (tags-snoc ns n)

module _ (t : String) (n : Node) (d : Dict Node) where
  lookup-add_if_new :
      (k : String) (m : Node) → lookup k d ≡ some m → lookup k (add_if_new t n d) ≡ some m
  unfolding add_if_new keep_or_add
  lookup-add_if_new k m h = go (lookup t d) refl
    where
      go : (o : Option Node) → lookup t d ≡ o → lookup k (keep_or_add t n d o) ≡ some m
      go (some x) e = h
      go none e = elim (Bool-cases (t == k)) [
        | inl q ↦ let same : t ≡ k = (eq_iff t k).0 q in cc (e, h, same)
        | inr q ↦ ground (arith, lookup-insert t k n d)
      ]

  lookup-add_if_new_self : (m : Node) × (lookup t (add_if_new t n d) ≡ some m)
  unfolding add_if_new keep_or_add
  lookup-add_if_new_self = go (lookup t d) refl
    where
      go :
          (o : Option Node)
          → lookup t d ≡ o
          → (m : Node) × (lookup t (keep_or_add t n d o) ≡ some m)
      go (some x) e = (x, e)
      go none e = (n, ground (arith, lookup-insert t t n d, eq_iff t t))

  lookup-add_if_new_inv :
      (k : String) (m : Node)
      → lookup k (add_if_new t n d) ≡ some m
      → ((t ≡ k) × (n ≡ m)) ⊎ (lookup k d ≡ some m)
  unfolding add_if_new keep_or_add
  lookup-add_if_new_inv k m h = go (lookup t d) h
    where
      go :
          (o : Option Node)
          → lookup k (keep_or_add t n d o) ≡ some m
          → ((t ≡ k) × (n ≡ m)) ⊎ (lookup k d ≡ some m)
      go (some x) q = inr q
      go none q = lookup-insert-some t k n m d q

-- The template's tag and the upstream's, with a space between.
abbrev pub both_tags : Node → Node → String
both_tags t u = concat (Node.tag t) (concat " " (Node.tag u))

-- A node that chains a template to an upstream: it is dialled through the upstream.
abbrev pub IsRelay : List Node → List Node → Node → Type 0
IsRelay templates upstreams n =
    (t u : Node) × In t templates
    × In u upstreams
    × (n ≡ relay_node t u)
    × (Node.tag n ≡ both_tags t u)
    × (Node.detour n ≡ Node.tag u)

module _ (base : Dict Node) (templates upstreams : List Node) where
  -- What has been generated so far: `seen` holds its tags, and the index has each of them and is
  -- otherwise the index that was there before.
  record IsPairing (p : Pairing) : Type 0 where
    seen : (k : String) → In k p.seen → In k (tags p.generated)
    all_seen : (k : String) → In k (tags p.generated) → In k p.seen
    distinct : IsDistinct (tags p.generated)
    relays : (n : Node) → In n p.generated → IsRelay templates upstreams n
    kept : (k : String) (m : Node) → lookup k base ≡ some m → lookup k p.by_tag ≡ some m
    indexed : (k : String) → In k p.seen → (m : Node) × (lookup k p.by_tag ≡ some m)
    only :
        (k : String) (m : Node)
        → lookup k p.by_tag ≡ some m
        → (lookup k base ≡ some m) ⊎ (In m p.generated × (Node.tag m ≡ k))

  module _ (p : Pairing) (t u : Node) (y : IsPairing p) where
    fresh-IsPairing :
        In t templates
        → In u upstreams
        → (¬ In (relay_tag t u) p.seen)
        → IsPairing (record {
          generated = p.generated ++ relay_node t u ∷ [];
          seen = relay_tag t u ∷ p.seen;
          by_tag = add_if_new (relay_tag t u) (relay_node t u) p.by_tag;
        })
    fresh-IsPairing i j new =
        let n = relay_node t u in
        let k₀ = relay_tag t u in
        let e = tag-relay_node t u in
        let snoc : tags (p.generated ++ n ∷ []) ≡ tags p.generated ++ k₀ ∷ [] =
          tags-snoc p.generated n ∙ ap (λ k. tags p.generated ++ k ∷ []) e in
        record {
          seen = λ k h. subst (In k) (sym snoc) (elim h [
            | inl q ↦ In-append_right k (tags p.generated) (k₀ ∷ []) (inl q)
            | inr l ↦ In-append_left k (tags p.generated) (k₀ ∷ []) (y.seen k l)
          ]);
          all_seen = λ k h.
              elim (In-append_cases k (tags p.generated) (k₀ ∷ []) (subst (In k) snoc h)) [
                | inl l ↦ inr (y.all_seen k l)
                | inr (inl q) ↦ inl q
                | inr (inr b) ↦ absurd b
              ];
          distinct =
              subst IsDistinct (sym snoc)
                (IsDistinct-snoc (tags p.generated) k₀ y.distinct (λ l. new (y.all_seen k₀ l)));
          relays = λ m h. elim (In-append_cases m p.generated (n ∷ []) h) [
            | inl l ↦ y.relays m l
            | inr (inl q) ↦
                (t, u, i, j, q, ap Node.tag q ∙ e, ap Node.detour q ∙ detour-relay_node t u)
            | inr (inr b) ↦ absurd b
          ];
          kept = λ k m h. lookup-add_if_new k₀ n p.by_tag k m (y.kept k m h);
          indexed = λ k h. elim h [
            | inl q ↦
                subst (λ x. (m : Node) × (lookup x (add_if_new k₀ n p.by_tag) ≡ some m)) (sym q)
                  (lookup-add_if_new_self k₀ n p.by_tag)
            | inr l ↦ let (m, f) = y.indexed k l in (m, lookup-add_if_new k₀ n p.by_tag k m f)
          ];
          only = λ k m h. elim (lookup-add_if_new_inv k₀ n p.by_tag k m h) [
            | inl (q, r) ↦
                inr (
                  In-append_right m p.generated (n ∷ []) (inl (sym r)),
                  ap Node.tag (sym r) ∙ e ∙ q,
                )
            | inr l ↦ elim (y.only k m l) [
              | inl b ↦ inl b
              | inr (g, q) ↦ inr (In-append_left m p.generated (n ∷ []) g, q)
            ]
          ];
        }

  add_pair-IsPairing :
      (t u : Node) (p : Pairing)
      → In t templates
      → In u upstreams
      → IsPairing p
      → IsPairing (add_pair t p u)
  unfolding add_pair
  add_pair-IsPairing t u p i j y = elim (Bool-cases (has (relay_tag t u) p.seen)) [
    | inl e ↦ rw e y
    | inr e ↦ rw e (fresh-IsPairing p t u y i j (has_false→not (relay_tag t u) p.seen e))
  ]

  pair_all-IsPairing : IsPairing (pair_all base templates upstreams)
  unfolding pair_all add_pairs tags
  pair_all-IsPairing =
      foldl_inv IsPairing (add_pairs upstreams) _ templates
        (λ p t i y.
          foldl_inv IsPairing (add_pair t) p upstreams (λ q u j z. add_pair-IsPairing t u q i j z)
            y)
        (record {
          seen = λ k i. absurd i;
          all_seen = λ k i. absurd i;
          distinct = tt;
          relays = λ n i. absurd i;
          kept = λ k m h. h;
          indexed = λ k i. absurd i;
          only = λ k m h. inl h;
        })

-- Every pair is seen, and stays seen.
module _ (k : String) where
  add_pair-keeps : (t u : Node) (p : Pairing) → In k p.seen → In k (add_pair t p u).seen
  unfolding add_pair
  add_pair-keeps t u p i = elim (Bool-cases (has (relay_tag t u) p.seen)) [
    | inl e ↦ rw e i
    | inr e ↦ rw e (inr i)
  ]

  add_pairs-keeps :
      (t : Node) (us : List Node) (p : Pairing) → In k p.seen → In k (add_pairs us p t).seen
  unfolding add_pairs
  add_pairs-keeps t us p i =
      foldl_inv (λ q. In k q.seen) (add_pair t) p us (λ q u j h. add_pair-keeps t u q h) i

add_pair-seen : (t u : Node) (p : Pairing) → In (relay_tag t u) (add_pair t p u).seen
unfolding add_pair
add_pair-seen t u p = elim (Bool-cases (has (relay_tag t u) p.seen)) [
  | inl e ↦ rw e (has→In (relay_tag t u) p.seen e)
  | inr e ↦ rw e (inl refl)
]

add_pairs-seen :
    (t u : Node) (us : List Node) (p : Pairing)
    → In u us
    → In (relay_tag t u) (add_pairs us p t).seen
unfolding add_pairs
add_pairs-seen t u (v ∷ us) p (inr i) = add_pairs-seen t u us (add_pair t p v) i
add_pairs-seen t u (v ∷ us) p (inl e) =
    add_pairs-keeps (relay_tag t u) t us (add_pair t p v)
      (subst (λ x. In (relay_tag t u) (add_pair t p x).seen) e (add_pair-seen t u p))
add_pairs-seen t u [] p i = absurd i

all_pairs-seen :
    (t u : Node) (us ts : List Node) (p : Pairing)
    → In t ts
    → In u us
    → In (relay_tag t u) (foldl (add_pairs us) p ts).seen
all_pairs-seen t u us (v ∷ ts) p (inr i) j = all_pairs-seen t u us ts (add_pairs us p v) i j
all_pairs-seen t u us (v ∷ ts) p (inl e) j =
    foldl_inv (λ q. In (relay_tag t u) q.seen) (add_pairs us) (add_pairs us p v) ts
      (λ q w k h. add_pairs-keeps (relay_tag t u) w us q h)
      (subst (λ x. In (relay_tag t u) (add_pairs us p x).seen) e (add_pairs-seen t u us p j))
all_pairs-seen t u us [] p i j = absurd i

-- The nodes that one relay definition generates, and the index after it.
pub record IsPaired (base : Dict Node) (templates upstreams : List Node) (p : Pairing)
    : Type 0 where
  pub relays : (n : Node) → In n p.generated → IsRelay templates upstreams n
  pub complete :
      (t u : Node)
      → In t templates
      → In u upstreams
      → (n : Node) × In n p.generated × (Node.tag n ≡ both_tags t u)
  pub distinct : IsDistinct (map Node.tag p.generated)
  pub kept : (k : String) (m : Node) → lookup k base ≡ some m → lookup k p.by_tag ≡ some m
  pub indexed : (n : Node) → In n p.generated → (m : Node) × (lookup (Node.tag n) p.by_tag ≡ some m)
  pub only :
      (k : String) (m : Node)
      → lookup k p.by_tag ≡ some m
      → (lookup k base ≡ some m) ⊎ (In m p.generated × (Node.tag m ≡ k))

-- A relay definition generates a node for each pair of a template and an upstream, dialled through
-- the upstream and tagged by the two tags with a space between, each tag once and no other node; and the index gains an entry for
-- each of these tags that had none, and changes no other.
pub pair_all-IsPaired :
    (base : Dict Node) (templates upstreams : List Node)
    → IsPaired base templates upstreams (pair_all base templates upstreams)
unfolding tags pair_all
pair_all-IsPaired base templates upstreams =
    let y = pair_all-IsPairing base templates upstreams in
    let p = pair_all base templates upstreams in
    record {
      relays = y.relays;
      complete = λ t u i j.
          let (n, g, e) =
            In-map_inv Node.tag (relay_tag t u) p.generated
              (y.seen (relay_tag t u) (all_pairs-seen t u upstreams templates _ i j)) in
          (n, g, sym e);
      distinct = y.distinct;
      kept = y.kept;
      indexed =
          λ n g. y.indexed (Node.tag n) (y.all_seen (Node.tag n) (In-map Node.tag n p.generated g));
      only = y.only;
    }
