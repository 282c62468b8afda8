-- ===== src/Subscription/Naming/Prefixed.antt =====
-- prefixTags of internal/subscription/transform.go, and belongsTo of internal/build/inject.go: a
-- prefix names one subscription only.
use text.Mathlib.TextEquality.{Char-path}
use node_box.Prelude.{String, ◌≡◌, refl, ap, true, false, arith}
use node_box.Build.Injector.{belongs_to}
use node_box.Model.Validate.{has_bracket}
use node_box.TextUtil.{concat, has_prefix}
use node_box.Subscription.Naming.{prefixed}

has_prefix-concat : (p s : String) → has_prefix (concat p s) p ≡ true
unfolding has_prefix concat
has_prefix-concat String.[] s = ground arith
has_prefix-concat (String.◌∷◌ c p) s = ground (arith, has_prefix-concat p s)

pub concat_assoc : (a b c : String) → concat (concat a b) c ≡ concat a (concat b c)
unfolding concat
concat_assoc String.[] b c = refl
concat_assoc (String.◌∷◌ x a) b c = ap (String.◌∷◌ x) (concat_assoc a b c)

-- Two names that stand before a bracket at the same place, without brackets of their own, are one.
closed_unique :
    (tag name other : String)
    → has_bracket name ≡ false
    → has_bracket other ≡ false
    → has_prefix tag (concat name "] ") ≡ true
    → has_prefix tag (concat other "] ") ≡ true
    → name ≡ other
unfolding concat has_prefix has_bracket
closed_unique tag String.[] String.[] h k p q = refl
closed_unique String.[] String.[] (String.◌∷◌ d other) h k p q = cc
closed_unique String.[] (String.◌∷◌ c name) other h k p q = cc
closed_unique (String.◌∷◌ x tag) String.[] (String.◌∷◌ d other) h k p q = ground arith
closed_unique (String.◌∷◌ x tag) (String.◌∷◌ c name) String.[] h k p q = ground arith
closed_unique (String.◌∷◌ x tag) (String.◌∷◌ c name) (String.◌∷◌ d other) h k p q = cc (
  Char-path c d (ground arith),
  closed_unique tag name other (ground arith) (ground arith) (ground arith) (ground arith),
)

pub belongs_to-prefixed : (name tag : String) → belongs_to (prefixed name tag) name ≡ true
unfolding belongs_to prefixed concat has_prefix
belongs_to-prefixed name tag =
    rw (← concat_assoc name "] " tag) (has_prefix-concat (concat name "] ") tag)

-- The prefix of a tag names one subscription only.
pub belongs_to_unique :
    (tag name other : String)
    → has_bracket name ≡ false
    → has_bracket other ≡ false
    → belongs_to tag name ≡ true
    → belongs_to tag other ≡ true
    → name ≡ other
unfolding belongs_to concat has_prefix
belongs_to_unique String.[] name other h k p q = cc
belongs_to_unique (String.◌∷◌ x tag) name other h k p q =
    closed_unique tag name other h k (ground arith) (ground arith)
