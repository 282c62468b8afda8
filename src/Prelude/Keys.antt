-- ===== src/Prelude/Keys.antt =====
-- `map[string]bool` as a list of names, and `map[string]V` as an association list. What the program
-- does with a map never depends on the order of its entries, except where a file says so.
use Prim.Native.String.{String}
use mathlib.Core.Path.{◌≡◌, refl, sym}
use mathlib.Core.Logic.{◌⊎◌, inl, inr}
use mathlib.Core.Bool.{Bool, true, false, ◌||◌}
use mathlib.Core.List.{List, [], ◌∷◌, ◌++◌}
use mathlib.Core.Option.{Option, none, some}
use native.Mathlib.Omega.{arith}
use text.Mathlib.Text.{◌==◌}
use text.Mathlib.TextEquality.{eq_iff}
use text.Mathlib.TextPositions.{eq_refl}
use node_box.Prelude.Tests.{if◌then◌else◌, Bool-cases}
use node_box.Prelude.Lists.{In, In-append_cases}

abbrev pub Names : Type 0
Names = List String

unfoldable pub has : String → Names → Bool
has k [] = false
has k (j ∷ s) = j == k || has k s

-- No name stands twice.
abbrev pub IsDistinct : Names → Type 0
IsDistinct [] = Unit
IsDistinct (k ∷ s) = (¬ In k s) × IsDistinct s

pub has→In : (k : String) (s : Names) → has k s ≡ true → In k s
unfolding has
has→In k [] h = cc
has→In k (j ∷ s) h = elim (Bool-cases (j == k)) [
  | inl e ↦ inl (sym ((eq_iff j k).0 e))
  | inr e ↦ inr (has→In k s (ground arith))
]

pub In→has : (k : String) (s : Names) → In k s → has k s ≡ true
unfolding has
In→has k (j ∷ s) (inl e) = ground (arith, eq_iff j k)
In→has k (j ∷ s) (inr i) = ground (arith, In→has k s i)
In→has k [] i = elim i [ ]

pub has_false→not : (k : String) (s : Names) → has k s ≡ false → ¬ In k s
has_false→not k s h i = ground (arith, In→has k s i)

pub not→has_false : (k : String) (s : Names) → (¬ In k s) → has k s ≡ false
not→has_false k s h = elim (Bool-cases (has k s)) [ inl e ↦ absurd (h (has→In k s e)) | inr e ↦ e ]

pub IsDistinct-snoc :
    (s : Names) (k : String) → IsDistinct s → (¬ In k s) → IsDistinct (s ++ k ∷ [])
IsDistinct-snoc [] k d new = (λ i. i, tt)
IsDistinct-snoc (j ∷ s) k d new = (
  λ i. elim (In-append_cases j s (k ∷ []) i) [
    | inl h ↦ d.0 h
    | inr (inl e) ↦ new (inl (sym e))
    | inr (inr b) ↦ b
  ],
  IsDistinct-snoc s k d.1 (λ i. new (inr i)),
)

pub has-append : (k : String) (s t : Names) → has k (s ++ t) ≡ (has k s || has k t)
unfolding has
has-append k [] t = refl
has-append k (j ∷ s) t = ground (arith, has-append k s t)

pub has-cons_self : (k : String) (s : Names) → has k (k ∷ s) ≡ true
unfolding has
has-cons_self k s = ground (arith, eq_refl k)

abbrev pub Dict : Type 0 → Type 0
Dict V = List (String × V)

module _ {V : Type 0} where
  unfoldable pub lookup : String → Dict V → Option V
  lookup key [] = none
  lookup key ((name, value) ∷ rest) =
      let later = lookup key rest in if name == key then some value else later

  unfoldable pub insert : String → V → Dict V → Dict V
  insert key new [] = (key, new) ∷ []
  insert key new ((name, value) ∷ rest) =
      let later = (name, value) ∷ insert key new rest in
      if name == key then (key, new) ∷ rest else later

  pub lookup-insert :
      (key asked : String) (new : V) (entries : Dict V)
      → lookup asked (insert key new entries)
        ≡ (if key == asked then some new else lookup asked entries)
  unfolding lookup insert
  lookup-insert key asked new [] = refl
  lookup-insert key asked new ((name, value) ∷ rest) =
      let ih = lookup-insert key asked new rest in
      ground (arith, eq_iff name asked, eq_iff name key, eq_iff key asked)

  -- What an absent key, and a present one, say of the map before an insertion.
  pub lookup-insert-none :
      (key asked : String) (new : V) (entries : Dict V)
      → lookup asked (insert key new entries) ≡ none
      → (¬ key ≡ asked) × (lookup asked entries ≡ none)
  lookup-insert-none key asked new entries h = elim (Bool-cases (key == asked)) [
    | inl e ↦ ground (arith, lookup-insert key asked new entries)
    | inr e ↦
        (λ q. ground (arith, eq_iff key asked), ground (arith, lookup-insert key asked new entries))
  ]

  pub lookup-insert-some :
      (key asked : String) (new old : V) (entries : Dict V)
      → lookup asked (insert key new entries) ≡ some old
      → ((key ≡ asked) × (new ≡ old)) ⊎ (lookup asked entries ≡ some old)
  lookup-insert-some key asked new old entries h = elim (Bool-cases (key == asked)) [
    | inl e ↦ inl ((eq_iff key asked).0 e, ground (arith, lookup-insert key asked new entries))
    | inr e ↦ inr (ground (arith, lookup-insert key asked new entries))
  ]
