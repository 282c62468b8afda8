-- ===== src/Build/Injector/Selects.antt =====
-- resolve and matches of internal/build/inject.go: which nodes a selector picks.
use node_box.Prelude.{
  String, ◌≡◌, ◌≢◌, ◌↔◌, refl, subst, inl, inr, true, false, not, ◌&&◌, ◌||◌, List, [], ◌∷◌, arith,
  ◌==◌, Bool-cases, is_nil, select, In, In-append_left, In-append_right, In-append_cases, In-select,
  In-select_inv, has, has→In, In→has, eq_false→ne, ne→eq_false,
}
use node_box.Node
use node_box.Node.{Node}
use node_box.Model.{NodeSelector, Subscription}
use node_box.Model
use node_box.TextUtil.{RuneClass, contains_ignore_emoji, concat}
use node_box.TextUtil.Occurs.{
  StartsWith, OccursIgnoringEmoji, has_prefix_iff, contains_ignore_emoji_iff,
}
use node_box.Build.Injector.{
  Injector, belongs_to, any_keyword, matches, picks, resolve_from, resolve,
}

-- The tag begins with the name in brackets and a space.
abbrev pub IsMarked : String → String → Type 0
IsMarked tag name = StartsWith tag (concat "[" (concat name "] "))

belongs_to_iff : (tag name : String) → (belongs_to tag name ≡ true) ↔ IsMarked tag name
unfolding belongs_to
belongs_to_iff tag name = has_prefix_iff tag (concat "[" (concat name "] "))

module _ (so : RuneClass) where
  -- A keyword that counts, and that the tag contains.
  pub record Hits (tag kw : String) : Type 0 where
    pub nonempty : kw ≢ ""
    pub contained : OccursIgnoringEmoji so tag kw

  any_keyword→Hits :
      (tag : String) (kws : List String)
      → any_keyword so tag kws ≡ true
      → (kw : String) × In kw kws × Hits tag kw
  unfolding any_keyword
  any_keyword→Hits tag [] h = cc
  any_keyword→Hits tag (kw ∷ kws) h =
      elim (Bool-cases (not (kw == "") && contains_ignore_emoji so tag kw)) [
        | inl e ↦ (
          kw,
          inl refl,
          record {
            nonempty = eq_false→ne kw "" (ground arith);
            contained = (contains_ignore_emoji_iff so tag kw).0 (ground arith);
          },
        )
        | inr e ↦ let (k, i, w) = any_keyword→Hits tag kws (ground arith) in (k, inr i, w)
      ]

  Hits→any_keyword :
      (tag : String) (kws : List String) (kw : String)
      → In kw kws
      → Hits tag kw
      → any_keyword so tag kws ≡ true
  unfolding any_keyword
  Hits→any_keyword tag (k ∷ kws) kw (inl e) w =
      ground (
        arith,
        e,
        ne→eq_false kw "" w.nonempty,
        (contains_ignore_emoji_iff so tag kw).1 w.contained,
      )
  Hits→any_keyword tag (k ∷ kws) kw (inr i) w = ground (arith, Hits→any_keyword tag kws kw i w)
  Hits→any_keyword tag [] kw i w = elim i [ ]

  -- The keyword lists admit the tag: one of `include` hits it, if there is any, and none of
  -- `exclude` does.
  pub record Admits (tag : String) (include exclude : List String) : Type 0 where
    pub included : include ≢ [] → (kw : String) × In kw include × Hits tag kw
    pub not_excluded : (kw : String) → In kw exclude → ¬ Hits tag kw

  is_nil-false : (xs : List String) → xs ≢ [] → is_nil xs ≡ false
  is_nil-false [] h = absurd (h refl)
  is_nil-false (x ∷ xs) h = refl

  matches→Admits :
      (tag : String) (include exclude : List String)
      → matches so tag include exclude ≡ true
      → Admits tag include exclude
  unfolding matches
  matches→Admits tag include exclude h = record {
    included = λ ne. any_keyword→Hits tag include (ground (arith, is_nil-false include ne));
    not_excluded = λ kw i w. ground (arith, Hits→any_keyword tag exclude kw i w);
  }

  not_any :
      (tag : String) (kws : List String)
      → ((kw : String) → In kw kws → ¬ Hits tag kw)
      → any_keyword so tag kws ≡ false
  not_any tag kws h = elim (Bool-cases (any_keyword so tag kws)) [
    | inl e ↦ let (kw, i, w) = any_keyword→Hits tag kws e in absurd (h kw i w)
    | inr e ↦ e
  ]

  Admits→matches :
      (tag : String) (include exclude : List String)
      → Admits tag include exclude
      → matches so tag include exclude ≡ true
  unfolding matches
  Admits→matches tag [] exclude a = ground (arith, not_any tag exclude a.not_excluded)
  Admits→matches tag (k ∷ ks) exclude a =
      let (kw, i, w) = a.included (λ e. cc) in
      ground (arith, not_any tag exclude a.not_excluded, Hits→any_keyword tag (k ∷ ks) kw i w)

  pub matches_iff :
      (tag : String) (include exclude : List String)
      → (matches so tag include exclude ≡ true) ↔ Admits tag include exclude
  matches_iff tag include exclude =
      (matches→Admits tag include exclude, Admits→matches tag include exclude)

  -- `sub` is an enabled subscription that the selector names, and that the tag belongs to.
  pub record PickedBy (inj : Injector) (sel : NodeSelector) (tag : String) : Type 0 where
    pub sub : Subscription
    pub declared : In sub inj.nodes.subscriptions
    pub enabled : sub.enable ≡ true
    pub named : In sub.name sel.from
    pub prefixed : IsMarked tag sub.name
    pub admitted : Admits tag sel.include sel.exclude

  module _ (inj : Injector) (sel : NodeSelector) (n : Node) where
    -- As `PickedBy`, by one of the subscriptions `subs`.
    PickedFrom : List Subscription → Type 0
    PickedFrom subs =
        (sub : Subscription) × In sub subs
        × (sub.enable ≡ true)
        × In sub.name sel.from
        × (picks so sel sub n ≡ true)

    resolve_from→ :
        (subs : List Subscription)
        → In n (resolve_from so inj.pool sel subs)
        → In n inj.pool × PickedFrom subs
    unfolding resolve_from PickedFrom
    resolve_from→ [] i = absurd i
    resolve_from→ (sub ∷ subs) i =
        let later = λ (j : In n (resolve_from so inj.pool sel subs)).
          let (m, (s, k, a, b, c)) = resolve_from→ subs j in
          let r : In n inj.pool × PickedFrom (sub ∷ subs) = (m, (s, inr k, a, b, c)) in r in
        elim (Bool-cases (not sub.enable || not (has sub.name sel.from))) [
          | inl e ↦ later (rw e at i)
          | inr e ↦ elim (In-append_cases n (select (picks so sel sub) inj.pool) _ (rw e at i)) [
            | inl j ↦
                let (m, h) = In-select_inv (picks so sel sub) n inj.pool j in
                (m, (sub, inl refl, ground arith, has→In sub.name sel.from (ground arith), h))
            | inr j ↦ later j
          ]
        ]

    →resolve_from :
        (subs : List Subscription)
        → In n inj.pool
        → (sub : Subscription) → In sub subs
        → sub.enable ≡ true
        → In sub.name sel.from
        → picks so sel sub n ≡ true
        → In n (resolve_from so inj.pool sel subs)
    unfolding resolve_from
    →resolve_from (s ∷ subs) m sub (inl e) on named h =
        let named' : has s.name sel.from ≡ true =
          subst (λ (x : Subscription). has x.name sel.from ≡ true) e
            (In→has sub.name sel.from named) in
        let on' : s.enable ≡ true = subst (λ (x : Subscription). x.enable ≡ true) e on in
        let h' : picks so sel s n ≡ true = subst (λ x. picks so sel x n ≡ true) e h in
        rw (on', named')
          (In-append_left n (select (picks so sel s) inj.pool) _
            (In-select (picks so sel s) n inj.pool m h'))
    →resolve_from (s ∷ subs) m sub (inr i) on named h =
        let rest = →resolve_from subs m sub i on named h in
        elim (Bool-cases (not s.enable || not (has s.name sel.from))) [
          | inl e ↦ rw e rest
          | inr e ↦ rw e (In-append_right n (select (picks so sel s) inj.pool) _ rest)
        ]
    →resolve_from [] m sub i on named h = elim i [ ]

    resolve→ : In n (resolve so inj sel) → In n inj.pool × PickedBy inj sel (Node.tag n)
    unfolding resolve picks PickedFrom
    resolve→ i = elim (Bool-cases (Model.is_empty sel)) [
      | inl e ↦ absurd (rw e at i)
      | inr e ↦
          let (m, (sub, k, on, named, h)) = resolve_from→ inj.nodes.subscriptions (rw e at i) in
          (
            m,
            record {
              sub = sub;
              declared = k;
              enabled = on;
              named = named;
              prefixed = (belongs_to_iff (Node.tag n) sub.name).0 (ground arith);
              admitted = (matches_iff (Node.tag n) sel.include sel.exclude).0 (ground arith);
            },
          )
    ]

    is_empty_false : (name : String) (xs : List String) → In name xs → is_nil xs ≡ false
    is_empty_false name (x ∷ xs) i = refl
    is_empty_false name [] i = elim i [ ]

    →resolve : In n inj.pool → PickedBy inj sel (Node.tag n) → In n (resolve so inj sel)
    unfolding resolve picks
    →resolve m p =
        let h = (matches_iff (Node.tag n) sel.include sel.exclude).1 p.admitted in
        rw (is_empty_false p.sub.name sel.from p.named) (
          →resolve_from inj.nodes.subscriptions m p.sub p.declared p.enabled p.named
            (ground (arith, (belongs_to_iff (Node.tag n) p.sub.name).1 p.prefixed, h)))

  -- A selector resolves to exactly the nodes of the pool that an enabled subscription it names
  -- marks with its name in brackets and a space, and that its keyword lists admit: a keyword hits
  -- a tag if it stands in it when stripEmoji has been over both, which leaves no space for an emoji
  -- that directly follows a letter.
  pub resolve_iff :
      (inj : Injector) (sel : NodeSelector) (n : Node)
      → In n (resolve so inj sel) ↔ (In n inj.pool × PickedBy inj sel (Node.tag n))
  resolve_iff inj sel n = (resolve→ inj sel n, λ h. →resolve inj sel n h.0 h.1)
