-- ===== src/Subscription/Naming/Excluded.antt =====
-- dropExcluded of internal/subscription/transform.go: which nodes stay.
use node_box.Prelude.{
  String, ◌≡◌, ◌↔◌, ◌⊎◌, inl, inr, refl, subst, true, List, [], ◌∷◌, arith, ◌==◌, eq_iff, In,
  In-select, In-select_inv, Bool-cases,
}
use node_box.Node.{Node, tag}
use node_box.TextUtil.{RuneClass, contains_ignore_emoji}
use node_box.TextUtil.Occurs.{OccursIgnoringEmoji, contains_ignore_emoji_iff}
use node_box.Subscription.Naming.{matches_any, keeps, drop_excluded}

module _ (so : RuneClass) where
  -- One of the keywords stands in the tag, as ContainsIgnoreEmoji compares them.
  abbrev pub Matches : String → List String → Type 0
  Matches t kws = (kw : String) × In kw kws × OccursIgnoringEmoji so t kw

  matches_any_iff : (t : String) (kws : List String) → (matches_any so t kws ≡ true) ↔ Matches t kws
  unfolding matches_any
  matches_any_iff t [] = (λ h. cc, λ (_, i, _). absurd i)
  matches_any_iff t (kw ∷ kws) =
      let tail = matches_any_iff t kws in
      (
        λ h. elim (Bool-cases (contains_ignore_emoji so t kw)) [
          | inl e ↦ (kw, inl refl, (contains_ignore_emoji_iff so t kw).0 e)
          | inr e ↦ let (k, i, m) = tail.0 (ground arith) in (k, inr i, m)
        ],
        λ (k, i, m). elim i [
          | inl e ↦
              rw
                ((contains_ignore_emoji_iff so t kw).1
                  (subst (λ y. OccursIgnoringEmoji so t y) e m))
                refl
          | inr j ↦ ground (arith, tail.1 (k, j, m))
        ],
      )

  -- A node without a tag, or with one that no keyword matches.
  abbrev pub Kept : List String → Node → Type 0
  Kept kws n = (tag n ≡ "") ⊎ (¬ Matches (tag n) kws)

  keeps_iff : (kws : List String) (n : Node) → (keeps so kws n ≡ true) ↔ Kept kws n
  unfolding keeps
  keeps_iff kws n = (
    λ h. elim (Bool-cases (tag n == "")) [
      | inl e ↦ inl ((eq_iff (tag n) "").0 e)
      | inr e ↦ inr (λ m. ground (arith, (matches_any_iff (tag n) kws).1 m))
    ],
    λ k. elim k [
      | inl e ↦ ground (arith, (eq_iff (tag n) "").1 e)
      | inr free ↦ elim (Bool-cases (matches_any so (tag n) kws)) [
        | inl m ↦ absurd (free ((matches_any_iff (tag n) kws).0 m))
        | inr m ↦ ground arith
      ]
    ],
  )

  pub drop_excluded_iff :
      (nodes : List Node) (kws : List String) (n : Node)
      → In n (drop_excluded so nodes kws) ↔ (In n nodes × Kept kws n)
  unfolding drop_excluded
  drop_excluded_iff nodes [] n = (λ i. (i, inr (λ (_, j, _). absurd j)), λ (i, _). i)
  drop_excluded_iff nodes (kw ∷ kws) n = (
    λ i.
        let (j, h) = In-select_inv (keeps so (kw ∷ kws)) n nodes i in
        (j, (keeps_iff (kw ∷ kws) n).0 h),
    λ (i, k). In-select (keeps so (kw ∷ kws)) n nodes i ((keeps_iff (kw ∷ kws) n).1 k),
  )
