-- ===== src/Build/Apply/Inserted.antt =====
-- insert of internal/build/apply.go: what its loop puts into the two sections.
use node_box.Prelude.{
  String, ◌≡◌, ◌⊎◌, ◌∙◌, refl, sym, ap, subst, inl, inr, not, ◌||◌, List, [], ◌∷◌, ◌++◌, map,
  Bool-cases, In, In-append_left, In-append_right, In-append_cases, IsDistinct, IsDistinct-snoc,
  Names, has, has→In, has_false→not, In→has,
}
use node_box.Node
use node_box.Node.{Node}
use node_box.Node.Laws.{clone-eq}
use node_box.Build.Validate.{endpoint_types}
use node_box.Build.Apply.{Insertion, place, place_all}

tags : List Node → Names
tags ns = map Node.tag ns

tags-clone :
    (ns : List Node) (n : Node) → tags (ns ++ Node.clone n ∷ []) ≡ tags ns ++ Node.tag n ∷ []
unfolding tags
tags-clone [] n = ap (λ m. Node.tag m ∷ []) (clone-eq n)
tags-clone (m ∷ ns) n = ap (λ (l : Names). Node.tag m ∷ l) (tags-clone ns n)

tag_cases : (ns : List Node) (t k : String) → In k (tags ns ++ t ∷ []) → In k (tags ns) ⊎ (k ≡ t)
tag_cases ns t k i = elim (In-append_cases k (tags ns) (t ∷ []) i) [
  | inl h ↦ inl h
  | inr (inl e) ↦ inr e
  | inr (inr b) ↦ absurd b
]

module _ (candidates : List Node) (needed known : Names) where
  -- A needed candidate whose tag the document does not have.
  abbrev pub IsFresh : Node → Type 0
  IsFresh n = In n candidates × In (Node.tag n) needed × (¬ In (Node.tag n) known)

  -- What has been placed so far.
  record IsInsertion (s : Insertion) : Type 0 where
    outbounds : (n : Node) → In n s.outbounds → IsFresh n × (¬ In (Node.type n) endpoint_types)
    endpoints : (n : Node) → In n s.endpoints → IsFresh n × In (Node.type n) endpoint_types
    present :
        (k : String)
        → In k s.present
        → In k known ⊎ (In k (tags s.outbounds) ⊎ In k (tags s.endpoints))
    before : (k : String) → In k known → In k s.present
    outs : (k : String) → In k (tags s.outbounds) → In k s.present
    ends : (k : String) → In k (tags s.endpoints) → In k s.present
    distinct_outs : IsDistinct (tags s.outbounds)
    distinct_ends : IsDistinct (tags s.endpoints)
    apart : (k : String) → In k (tags s.outbounds) → ¬ In k (tags s.endpoints)

  module _ (s : Insertion) (n : Node) (y : IsInsertion s) (inside : In n candidates)
      (wanted : In (Node.tag n) needed) (new : ¬ In (Node.tag n) s.present) where
    fresh : ¬ In (Node.tag n) known
    fresh i = new (y.before (Node.tag n) i)

    outbound-IsInsertion :
        (¬ In (Node.type n) endpoint_types)
        → IsInsertion (record s {
          present = Node.tag n ∷ s.present;
          outbounds = s.outbounds ++ Node.clone n ∷ [];
        })
    unfolding tags
    outbound-IsInsertion typ =
        let snoc : tags (s.outbounds ++ Node.clone n ∷ []) ≡ tags s.outbounds ++ Node.tag n ∷ [] =
          tags-clone s.outbounds n in
        let old = λ (k : String) (i : In k (tags (s.outbounds ++ Node.clone n ∷ []))).
          tag_cases s.outbounds (Node.tag n) k (subst (In k) snoc i) in
        record {
          outbounds = λ m i. elim (In-append_cases m s.outbounds (Node.clone n ∷ []) i) [
            | inl h ↦ y.outbounds m h
            | inr (inl e) ↦
                let q : n ≡ m = sym (clone-eq n) ∙ sym e in
                subst (λ x. IsFresh x × (¬ In (Node.type x) endpoint_types)) q
                  ((inside, wanted, fresh), typ)
            | inr (inr b) ↦ absurd b
          ];
          endpoints = y.endpoints;
          present = λ k i. elim i [
            | inl e ↦ inr (
                inl (
                  subst (In k) (sym snoc)
                    (In-append_right k (tags s.outbounds) (Node.tag n ∷ []) (inl e))))
            | inr j ↦ elim (y.present k j) [
              | inl h ↦ inl h
              | inr (inl h) ↦ inr (
                  inl (
                    subst (In k) (sym snoc)
                      (In-append_left k (tags s.outbounds) (Node.tag n ∷ []) h)))
              | inr (inr h) ↦ inr (inr (h))
            ]
          ];
          before = λ k i. inr (y.before k i);
          outs = λ k i. elim (old k i) [ inl h ↦ inr (y.outs k h) | inr q ↦ inl q ];
          ends = λ k i. inr (y.ends k i);
          distinct_outs = subst IsDistinct (sym snoc) (
              IsDistinct-snoc (tags s.outbounds) (Node.tag n) y.distinct_outs
                (λ i. new (y.outs (Node.tag n) i)));
          distinct_ends = y.distinct_ends;
          apart = λ k i e. elim (old k i) [
            | inl h ↦ y.apart k h e
            | inr q ↦ new (subst (λ x. In x s.present) q (y.ends k e))
          ];
        }

    endpoint-IsInsertion :
        (In (Node.type n) endpoint_types)
        → IsInsertion (record s {
          present = Node.tag n ∷ s.present;
          endpoints = s.endpoints ++ Node.clone n ∷ [];
        })
    unfolding tags
    endpoint-IsInsertion typ =
        let snoc : tags (s.endpoints ++ Node.clone n ∷ []) ≡ tags s.endpoints ++ Node.tag n ∷ [] =
          tags-clone s.endpoints n in
        let old = λ (k : String) (i : In k (tags (s.endpoints ++ Node.clone n ∷ []))).
          tag_cases s.endpoints (Node.tag n) k (subst (In k) snoc i) in
        record {
          endpoints = λ m i. elim (In-append_cases m s.endpoints (Node.clone n ∷ []) i) [
            | inl h ↦ y.endpoints m h
            | inr (inl e) ↦
                let q : n ≡ m = sym (clone-eq n) ∙ sym e in
                subst (λ x. IsFresh x × (In (Node.type x) endpoint_types)) q
                  ((inside, wanted, fresh), typ)
            | inr (inr b) ↦ absurd b
          ];
          outbounds = y.outbounds;
          present = λ k i. elim i [
            | inl e ↦ inr (
                inr (
                  subst (In k) (sym snoc)
                    (In-append_right k (tags s.endpoints) (Node.tag n ∷ []) (inl e))))
            | inr j ↦ elim (y.present k j) [
              | inl h ↦ inl h
              | inr (inr h) ↦ inr (
                  inr (
                    subst (In k) (sym snoc)
                      (In-append_left k (tags s.endpoints) (Node.tag n ∷ []) h)))
              | inr (inl h) ↦ inr (inl (h))
            ]
          ];
          before = λ k i. inr (y.before k i);
          ends = λ k i. elim (old k i) [ inl h ↦ inr (y.ends k h) | inr q ↦ inl q ];
          outs = λ k i. inr (y.outs k i);
          distinct_ends = subst IsDistinct (sym snoc) (
              IsDistinct-snoc (tags s.endpoints) (Node.tag n) y.distinct_ends
                (λ i. new (y.ends (Node.tag n) i)));
          distinct_outs = y.distinct_outs;
          apart = λ k i e. elim (old k e) [
            | inl h ↦ y.apart k i h
            | inr q ↦ new (subst (λ x. In x s.present) q (y.outs k i))
          ];
        }

  place-IsInsertion :
      (s : Insertion) (n : Node) → In n candidates → IsInsertion s → IsInsertion (place needed s n)
  unfolding place
  place-IsInsertion s n i y = elim (Bool-cases (has (Node.tag n) needed)) [
    | inr w ↦ rw w y
    | inl w ↦ elim (Bool-cases (has (Node.tag n) s.present)) [
      | inl p ↦ rw (w, p) y
      | inr p ↦
          let wanted = has→In (Node.tag n) needed w in
          let new = has_false→not (Node.tag n) s.present p in
          elim (Bool-cases (has (Node.type n) endpoint_types)) [
            | inl e ↦
                rw (w, p, e)
                  (endpoint-IsInsertion s n y i wanted new (has→In (Node.type n) endpoint_types e))
            | inr e ↦
                rw (w, p, e)
                  (outbound-IsInsertion s n y i wanted new
                    (has_false→not (Node.type n) endpoint_types e))
          ]
    ]
  ]

  place_all-IsInsertion :
      (s : Insertion) (ns : List Node)
      → ((n : Node) → In n ns → In n candidates)
      → IsInsertion s
      → IsInsertion (place_all needed s ns)
  unfolding place_all
  place_all-IsInsertion s [] sub y = y
  place_all-IsInsertion s (n ∷ ns) sub y =
      place_all-IsInsertion (place needed s n) ns (λ m i. sub m (inr i))
        (place-IsInsertion s n (sub n (inl refl)) y)

place-keeps :
    (needed : Names) (s : Insertion) (n : Node) (k : String)
    → In k s.present
    → In k (place needed s n).present
unfolding place
place-keeps needed s n k i =
    elim (Bool-cases (not (has (Node.tag n) needed) || has (Node.tag n) s.present)) [
      | inl e ↦ rw e i
      | inr e ↦ elim (Bool-cases (has (Node.type n) endpoint_types)) [
        | inl t ↦ rw (e, t) (inr i)
        | inr t ↦ rw (e, t) (inr i)
      ]
    ]

place_all-keeps :
    (needed : Names) (s : Insertion) (ns : List Node) (k : String)
    → In k s.present
    → In k (place_all needed s ns).present
unfolding place_all
place_all-keeps needed s [] k i = i
place_all-keeps needed s (n ∷ ns) k i =
    place_all-keeps needed (place needed s n) ns k (place-keeps needed s n k i)

place-covers :
    (needed : Names) (s : Insertion) (n : Node)
    → In (Node.tag n) needed
    → In (Node.tag n) (place needed s n).present
unfolding place
place-covers needed s n w =
    let e = In→has (Node.tag n) needed w in
    elim (Bool-cases (has (Node.tag n) s.present)) [
      | inl p ↦ rw (e, p) (has→In (Node.tag n) s.present p)
      | inr p ↦ elim (Bool-cases (has (Node.type n) endpoint_types)) [
        | inl t ↦ rw (e, p, t) (inl refl)
        | inr t ↦ rw (e, p, t) (inl refl)
      ]
    ]

place_all-covers :
    (needed : Names) (s : Insertion) (ns : List Node) (n : Node)
    → In n ns
    → In (Node.tag n) needed
    → In (Node.tag n) (place_all needed s ns).present
unfolding place_all
place_all-covers needed s (m ∷ ns) n (inr i) w = place_all-covers needed (place needed s m) ns n i w
place_all-covers needed s (m ∷ ns) n (inl e) w =
    place_all-keeps needed (place needed s m) ns (Node.tag n)
      (subst (λ x. In (Node.tag n) (place needed s x).present) e (place-covers needed s n w))
place_all-covers needed s [] n i w = absurd i

-- The nodes that the loop inserts under each section, over all the candidates.
pub record IsInserted (candidates : List Node) (needed known : Names) (s : Insertion) : Type 0 where
  pub outbounds :
      (n : Node)
      → In n s.outbounds
      → IsFresh candidates needed known n × (¬ In (Node.type n) endpoint_types)
  pub endpoints :
      (n : Node)
      → In n s.endpoints
      → IsFresh candidates needed known n × In (Node.type n) endpoint_types
  pub complete :
      (n : Node)
      → In n candidates
      → In (Node.tag n) needed
      → In (Node.tag n) known
        ⊎ (In (Node.tag n) (map Node.tag s.outbounds) ⊎ In (Node.tag n) (map Node.tag s.endpoints))
  pub distinct_outbounds : IsDistinct (map Node.tag s.outbounds)
  pub distinct_endpoints : IsDistinct (map Node.tag s.endpoints)
  pub apart : (k : String) → In k (map Node.tag s.outbounds) → ¬ In k (map Node.tag s.endpoints)

-- The loop of insert places needed candidates only, none of a tag that the document has already,
-- those of an endpoint type under endpoints and the others under outbounds; no tag comes twice; and
-- the tag of every needed candidate is the document's or placed.
pub place_all-IsInserted :
    (candidates : List Node) (needed known : Names)
    → IsInserted candidates needed known
        (place_all needed (record { present = known; outbounds = []; endpoints = [] }) candidates)
unfolding tags
place_all-IsInserted candidates needed known =
    let start : Insertion = record { present = known; outbounds = []; endpoints = [] } in
    let y =
      place_all-IsInsertion candidates needed known start candidates (λ n i. i)
        (record {
          outbounds = λ n i. absurd i;
          endpoints = λ n i. absurd i;
          present = λ k i. inl i;
          before = λ k i. i;
          outs = λ k i. absurd i;
          ends = λ k i. absurd i;
          distinct_outs = tt;
          distinct_ends = tt;
          apart = λ k i. absurd i;
        }) in
    record {
      outbounds = y.outbounds;
      endpoints = y.endpoints;
      complete = λ n i w. y.present (Node.tag n) (place_all-covers needed start candidates n i w);
      distinct_outbounds = y.distinct_outs;
      distinct_endpoints = y.distinct_ends;
      apart = y.apart;
    }
