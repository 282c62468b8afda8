-- ===== src/Build/Detours/Closed.antt =====
-- closeOverDetours of internal/build/apply.go: how its result relates to what the detours reach.
use node_box.Prelude.{
  ℕ, zero, suc, ◌+◌, ◌≤◌, ◌<◌, String, ◌≡◌, ◌⊎◌, refl, sym, subst, inl, inr, false, Option, none,
  some, [], ◌∷◌, arith, ◌==◌, eq_iff, if◌then◌else◌, err, In, Names, has, Dict, lookup, length,
  Bool-cases, has→In, has_false→not, eq_false→ne,
}
use node_box.Node
use node_box.Node.{Node}
use node_box.Build.Errors.{unknown_detour}
use node_box.Build.Detours.{
  Move, skip, add, dangling, resolve_detour, follow_node, follow, close_loop, close_over_detours,
}
use node_box.Build.Detours.Reachable.{
  PointsAt, Chain, start, step, IsResolved, IsDangling, IsClosure, Outcome, closes, fails,
}

-- How many known tags are not needed yet.
missing : Dict Node → Names → ℕ
missing [] needed = 0
missing ((k, _) ∷ m) needed = (if has k needed then 0 else 1) + missing m needed

missing_mono :
    (m : Dict Node) (d : String) (needed : Names) → missing m (d ∷ needed) ≤ missing m needed
unfolding missing has
missing_mono [] d needed = omega arith
missing_mono ((k, _) ∷ m) d needed = ground (arith, missing_mono m d needed)

missing_drops :
    (m : Dict Node) (d : String) (needed : Names) (n : Node)
    → lookup d m ≡ some n
    → has d needed ≡ false
    → missing m (d ∷ needed) < missing m needed
unfolding missing has lookup
missing_drops [] d needed n h k = cc
missing_drops ((j, v) ∷ m) d needed n h k = elim (Bool-cases (j == d)) [
  | inl e ↦
      let same = (eq_iff j d).0 e in
      let fresh : has j needed ≡ false = subst (λ x. has x needed ≡ false) (sym same) k in
      ground (arith, missing_mono m d needed, eq_iff d j)
  | inr e ↦ ground (arith, missing_drops m d needed n (ground arith) k, missing_mono m d needed)
]

missing-le-length : (m : Dict Node) (needed : Names) → missing m needed ≤ length m
unfolding missing
missing-le-length [] needed = omega arith
missing-le-length ((k, v) ∷ m) needed = ground (arith, missing-le-length m needed)

module _ (by_tag : Dict Node) (present : Names) where
  -- What one round finds out.
  abbrev Finds : Names → String → Move → Type 0
  Finds needed tag skip = IsResolved by_tag present needed tag
  Finds needed tag (add d) =
      PointsAt by_tag tag d × (has d needed ≡ false) × (m : Node) × (lookup d by_tag ≡ some m)
  Finds needed tag (dangling t d) = (t ≡ tag) × IsDangling by_tag present tag d

  PointsAt-unique : {tag d e : String} → PointsAt by_tag tag d → PointsAt by_tag tag e → d ≡ e
  PointsAt-unique p q = cc (p.known, q.known, p.detour, q.detour)

  resolve_detour-Finds :
      (needed : Names) (tag : String) (d : String) (o : Option Node)
      → lookup d by_tag ≡ o
      → PointsAt by_tag tag d
      → has d needed ≡ false
      → Finds needed tag
          (elim o [ some _ ↦ add d | none ↦ if has d present then skip else dangling tag d ])
  resolve_detour-Finds needed tag d (some m) e p h = (p, h, m, e)
  resolve_detour-Finds needed tag d none e p h = elim (Bool-cases (has d present)) [
    | inl b ↦ rw b (λ d' q. inr (
      subst (λ x. lookup x by_tag ≡ none) (PointsAt-unique p q) e,
      subst (λ x. In x present) (PointsAt-unique p q) (has→In d present b),
    ))
    | inr b ↦ rw b (refl, record { points = p; unknown = e; absent = has_false→not d present b })
  ]

  follow_node-Finds :
      (needed : Names) (tag : String) (o : Option Node)
      → lookup tag by_tag ≡ o
      → Finds needed tag (follow_node by_tag present needed tag o)
  unfolding follow_node resolve_detour
  follow_node-Finds needed tag none e = λ d q. cc (e, q.known)
  follow_node-Finds needed tag (some n) e = elim (Bool-cases (Node.detour n == "")) [
    | inl b ↦
        rw b
          (λ d q. absurd (q.chained (cc (e, q.known, q.detour, (eq_iff (Node.detour n) "").0 b))))
    | inr b ↦
        let p : PointsAt by_tag tag (Node.detour n) = record {
          node = n;
          known = e;
          detour = refl;
          chained = eq_false→ne _ _ b;
        } in
        elim (Bool-cases (has (Node.detour n) needed)) [
          | inl h ↦
              rw (b, h)
                (λ d q. inl (subst (λ x. In x needed) (PointsAt-unique p q) (has→In _ needed h)))
          | inr h ↦
              rw (b, h)
                (resolve_detour-Finds needed tag (Node.detour n) (lookup (Node.detour n) by_tag)
                  refl p h)
        ]
  ]

  follow-Finds :
      (needed : Names) (tag : String) → Finds needed tag (follow by_tag present needed tag)
  unfolding follow
  follow-Finds needed tag = follow_node-Finds needed tag (lookup tag by_tag) refl

  IsResolved-mono :
      (s t : Names) (tag : String)
      → ((k : String) → In k s → In k t)
      → IsResolved by_tag present s tag
      → IsResolved by_tag present t tag
  IsResolved-mono s t tag sub r d p = elim (r d p) [ inl i ↦ inl (sub d i) | inr q ↦ inr q ]

  module _ (needed₀ : Names) where
    record Inv (queue needed : Names) : Type 0 where
      reached : (t : String) → In t needed → Chain by_tag needed₀ t
      queued : (t : String) → In t queue → In t needed
      base : (t : String) → In t needed₀ → In t needed
      pending : (t : String) → In t needed → In t queue ⊎ IsResolved by_tag present needed t

    Chain→In :
        (needed : Names) → Inv [] needed → {t : String} → Chain by_tag needed₀ t → In t needed
    Chain→In needed v (start i) = v.base _ i
    Chain→In needed v (step {tag} {d} m c p l) = elim (v.pending tag (Chain→In needed v c)) [
      | inl i ↦ absurd i
      | inr r ↦ elim (r d p) [ inl i ↦ i | inr q ↦ absurd (cc (l, q.0)) ]
    ]

    Inv→IsClosure : (needed : Names) → Inv [] needed → IsClosure by_tag present needed₀ needed
    Inv→IsClosure needed v = record {
      sound = v.reached;
      complete = λ t c. Chain→In needed v c;
      resolved = λ t i. elim (v.pending t i) [ inl j ↦ absurd j | inr r ↦ r ];
    }

    Inv-skip :
        (tag : String) (queue needed : Names)
        → Inv (tag ∷ queue) needed
        → IsResolved by_tag present needed tag
        → Inv queue needed
    Inv-skip tag queue needed v r = record {
      reached = v.reached;
      queued = λ t i. v.queued t (inr i);
      base = v.base;
      pending = λ t i. elim (v.pending t i) [
        | inl (inl e) ↦ inr (subst (IsResolved by_tag present needed) (sym e) r)
        | inl (inr j) ↦ inl j
        | inr s ↦ inr s
      ];
    }

    Inv-add :
        (tag d : String) (queue needed : Names) (m : Node)
        → Inv (tag ∷ queue) needed
        → PointsAt by_tag tag d
        → lookup d by_tag ≡ some m
        → Inv (d ∷ queue) (d ∷ needed)
    Inv-add tag d queue needed m v p l = record {
      reached = λ t i. elim i [
        | inl e ↦
            subst (Chain by_tag needed₀) (sym e)
              (step m (v.reached tag (v.queued tag (inl refl))) p l)
        | inr j ↦ v.reached t j
      ];
      queued = λ t i. elim i [ inl e ↦ inl e | inr j ↦ inr (v.queued t (inr j)) ];
      base = λ t i. inr (v.base t i);
      pending = λ t i. elim i [
        | inl e ↦ inl (inl e)
        | inr j ↦ elim (v.pending t j) [
          | inl (inl e) ↦
              inr (λ d' q. inl (inl (PointsAt-unique (subst (λ x. PointsAt by_tag x d') e q) p)))
          | inl (inr k) ↦ inl (inr k)
          | inr r ↦ inr (IsResolved-mono needed (d ∷ needed) t (λ k x. inr x) r)
        ]
      ];
    }

    close_loop-Outcome :
        (f : ℕ) (queue needed : Names)
        → Inv queue needed
        → length queue + missing by_tag needed < f
        → Outcome by_tag present needed₀ (close_loop f by_tag present queue needed)
    unfolding close_loop
    close_loop-Outcome f [] needed v h = closes (Inv→IsClosure needed v)
    close_loop-Outcome zero (tag ∷ queue) needed v h = absurd (omega arith)
    close_loop-Outcome (suc f) (tag ∷ queue) needed v h =
        go (follow by_tag present needed tag) (follow-Finds needed tag) (close_loop-Outcome f)
      where
        go :
            (mv : Move)
            → Finds needed tag mv
            → ((q n : Names)
                → Inv q n
                → length q + missing by_tag n < f
                → Outcome by_tag present needed₀ (close_loop f by_tag present q n))
            → Outcome by_tag present needed₀ (elim mv [
              | skip ↦ close_loop f by_tag present queue needed
              | add d ↦ close_loop f by_tag present (d ∷ queue) (d ∷ needed)
              | dangling t d ↦ err (unknown_detour t d)
            ])
        go skip r ih = ih queue needed (Inv-skip tag queue needed v r) (omega arith)
        go (add d) (p, new, m, l) ih =
            ih (d ∷ queue) (d ∷ needed) (Inv-add tag d queue needed m v p l)
              (omega (arith, missing_drops by_tag d needed m l new))
        go (dangling t d) (e, r) ih =
            fails (subst (Chain by_tag needed₀) (sym e) (v.reached tag (v.queued tag (inl refl))))
              (subst (λ x. IsDangling by_tag present x d) (sym e) r)

-- closeOverDetours ends within its fuel: with the exact set of tags that detours reach, each of
-- them resolved, or with the error that names a dangling detour of such a tag.
pub close_over_detours-Outcome :
    (by_tag : Dict Node) (present needed : Names)
    → Outcome by_tag present needed (close_over_detours by_tag present needed)
unfolding close_over_detours
close_over_detours-Outcome by_tag present needed =
    close_loop-Outcome by_tag present needed (suc (length needed + length by_tag)) needed needed
      (record {
        reached = λ t i. start i;
        queued = λ t i. i;
        base = λ t i. i;
        pending = λ t i. inl i;
      })
      (omega (arith, missing-le-length by_tag needed))
