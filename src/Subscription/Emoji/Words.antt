-- ===== src/Subscription/Emoji/Words.antt =====
-- containsWord of internal/subscription/transform.go: what it says of a text.
use node_box.Prelude.{
  String, ◌≡◌, ◌↔◌, refl, sym, subst, Bool, true, Option, none, some, ◌&&◌, arith,
}
use node_box.TextUtil.Replace.{cut}
use node_box.TextUtil.Replace.Cut.{IsFirstCut, cut_iff, some_inj}
use node_box.Subscription.Emoji.{
  is_cjk_rune, first_rune, starts_word, ends_word, word_around, contains_word,
}

-- The first occurrence of the keyword stands between boundaries of its script.
abbrev pub StandsAsWord : String → String → Type 0
StandsAsWord s keyword =
    (before : String) × (after : String) × IsFirstCut s keyword before after
    × (starts_word (is_cjk_rune (first_rune keyword)) before ≡ true)
    × (ends_word (is_cjk_rune (first_rune keyword)) after ≡ true)

Around : Bool → Option (String × String) → Type 0
Around cjk o =
    (before : String) × (after : String) × (o ≡ some (before, after))
    × (starts_word cjk before ≡ true)
    × (ends_word cjk after ≡ true)

word_around_iff :
    (cjk : Bool) (o : Option (String × String)) → (word_around cjk o ≡ true) ↔ Around cjk o
unfolding word_around Around
word_around_iff cjk none = (λ h. cc, λ (b, a, e, _, _). cc)
word_around_iff cjk (some (b, a)) = (
  λ h. (b, a, refl, ground arith, ground arith),
  λ (c, d, e, p, q).
      subst (λ y. (starts_word cjk y.0 && ends_word cjk y.1) ≡ true) (sym (some_inj e))
        (ground arith),
)

-- containsWord holds exactly if the keyword stands in the text and, around its first occurrence,
-- there is on each side the end of the text or a boundary of the keyword's script.
pub contains_word_iff :
    (s keyword : String) → (contains_word s keyword ≡ true) ↔ StandsAsWord s keyword
unfolding contains_word Around
contains_word_iff s keyword =
    let i = word_around_iff (is_cjk_rune (first_rune keyword)) (cut s keyword) in
    (
      λ h. let (b, a, e, p, q) = i.0 h in (b, a, (cut_iff s keyword b a).0 e, p, q),
      λ (b, a, c, p, q). i.1 (b, a, (cut_iff s keyword b a).1 c, p, q),
    )
