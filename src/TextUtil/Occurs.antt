-- ===== src/TextUtil/Occurs.antt =====
-- strings.HasPrefix, strings.Contains and ContainsIgnoreEmoji of internal/textutil/match.go: what they
-- say of a text.
use text.Mathlib.TextEquality.{Char-path}
use node_box.Prelude.{
  Bool, if◌then◌else◌, String, ◌≡◌, ◌≢◌, ◌↔◌, ◌⊎◌, inl, inr, refl, sym, ap, subst, true, false,
  ◌==◌, arith, Bool-cases, eq_iff, eq_false→ne,
}
use node_box.TextUtil.Compared.{compared, strip_emoji-compared}
use node_box.TextUtil.{RuneClass, concat, has_prefix, contains, contains_ignore_emoji}

abbrev pub StartsWith : String → String → Type 0
StartsWith t p = (rest : String) × (t ≡ concat p rest)

-- It stands in the text, somewhere.
abbrev pub Occurs : String → String → Type 0
Occurs t p = (before after : String) × (t ≡ concat before (concat p after))

has_prefix-StartsWith : (t p : String) → has_prefix t p ≡ true → StartsWith t p
unfolding has_prefix concat
has_prefix-StartsWith t String.[] h = (t, refl)
has_prefix-StartsWith String.[] (String.◌∷◌ d p) h = cc
has_prefix-StartsWith (String.◌∷◌ c t) (String.◌∷◌ d p) h =
    let (rest, e) = has_prefix-StartsWith t p (ground arith) in
    (rest, cc (Char-path c d (ground arith), e))

has_prefix-concat : (p s : String) → has_prefix (concat p s) p ≡ true
unfolding has_prefix concat
has_prefix-concat String.[] s = ground arith
has_prefix-concat (String.◌∷◌ c p) s = ground (arith, has_prefix-concat p s)

pub has_prefix_iff : (t p : String) → (has_prefix t p ≡ true) ↔ StartsWith t p
has_prefix_iff t p = (
  has_prefix-StartsWith t p,
  λ (rest, e). subst (λ x. has_prefix x p ≡ true) (sym e) (has_prefix-concat p rest),
)

contains-Occurs : (t p : String) → contains t p ≡ true → Occurs t p
unfolding contains concat
contains-Occurs String.[] p h = let (rest, e) = has_prefix-StartsWith "" p h in ("", rest, e)
contains-Occurs (String.◌∷◌ c t) p h = elim (Bool-cases (has_prefix (String.◌∷◌ c t) p)) [
  | inl s ↦ let (rest, e) = has_prefix-StartsWith (String.◌∷◌ c t) p s in ("", rest, e)
  | inr n ↦
      let (before, after, e) = contains-Occurs t p (ground arith) in
      (String.◌∷◌ c before, after, ap (String.◌∷◌ c) e)
]

contains-concat : (before p after : String) → contains (concat before (concat p after)) p ≡ true
unfolding contains concat
contains-concat String.[] p after = starts (concat p after) (has_prefix-concat p after)
  where
    starts : (t : String) → has_prefix t p ≡ true → contains t p ≡ true
    starts String.[] h = h
    starts (String.◌∷◌ c t) h = rw h refl
contains-concat (String.◌∷◌ c before) p after = ground (arith, contains-concat before p after)

pub contains_iff : (t p : String) → (contains t p ≡ true) ↔ Occurs t p
contains_iff t p = (
  contains-Occurs t p,
  λ (before, after, e). subst (λ x. contains x p ≡ true) (sym e) (contains-concat before p after),
)

module _ (so : RuneClass) where
  -- The keyword is not empty, and stands in the text when both are taken as they are compared, or
  -- as it is written, if nothing of it is compared.
  abbrev pub OccursIgnoringEmoji : String → String → Type 0
  OccursIgnoringEmoji t kw =
      (kw ≢ "")
      × (((compared so kw ≢ "") × Occurs (compared so t) (compared so kw))
          ⊎ ((compared so kw ≡ "") × Occurs t kw))

  module _ (t kw ct ck : String) where
    Found : Type 0
    Found = (kw ≢ "") × (((ck ≢ "") × Occurs ct ck) ⊎ ((ck ≡ "") × Occurs t kw))

    found_iff :
        ((if kw == "" then false else if ck == "" then contains t kw else contains ct ck) ≡ true)
        ↔ Found
    unfolding Found
    found_iff = go (kw == "") (ck == "") refl refl
      where
        go :
            (x y : Bool)
            → (kw == "") ≡ x
            → (ck == "") ≡ y
            → ((if x then false else if y then contains t kw else contains ct ck) ≡ true)
              ↔ ((kw ≢ "") × (((ck ≢ "") × Occurs ct ck) ⊎ ((ck ≡ "") × Occurs t kw)))
        go true y e f = (λ h. cc, λ (n, _). absurd (n ((eq_iff kw "").0 e)))
        go false true e f = (
          λ h. (eq_false→ne kw "" e, inr ((eq_iff ck "").0 f, (contains_iff t kw).0 h)),
          λ (_, o). elim o [
            | inl (n, _) ↦ absurd (n ((eq_iff ck "").0 f))
            | inr (_, o) ↦ (contains_iff t kw).1 o
          ],
        )
        go false false e f = (
          λ h. (eq_false→ne kw "" e, inl (eq_false→ne ck "" f, (contains_iff ct ck).0 h)),
          λ (_, o). elim o [
            | inl (_, o) ↦ (contains_iff ct ck).1 o
            | inr (n, _) ↦ absurd (eq_false→ne ck "" f n)
          ],
        )

  pub contains_ignore_emoji_iff :
      (t kw : String) → (contains_ignore_emoji so t kw ≡ true) ↔ OccursIgnoringEmoji t kw
  unfolding contains_ignore_emoji Found
  contains_ignore_emoji_iff t kw =
      subst (λ b. (b ≡ true) ↔ OccursIgnoringEmoji t kw) (sym both_compared)
        (found_iff t kw (compared so t) (compared so kw))
    where
      both_compared : contains_ignore_emoji so t kw ≡ (
          if kw == ""
          then false
          else if compared so kw == ""
          then contains t kw
          else contains (compared so t) (compared so kw))
      both_compared = rw (strip_emoji-compared so kw, strip_emoji-compared so t) refl
