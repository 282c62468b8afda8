-- ===== src/Output/Target/Under.antt =====
-- Within of internal/fsx/fsx.go, and where internal/output/target.go puts an output, described by the
-- components of a path.
use node_box.Prelude.{
  String, ◌≡◌, ◌≢◌, ◌↔◌, ◌==◌, ◌++◌, if◌then◌else◌, Bool, Option, arith, eq_iff, eq_false→ne,
  ne→eq_false, refl, sym, subst, true, false, none, some, List, [], ◌∷◌,
}
use text.Mathlib.TextPositions.{eq_refl}
use node_box.Model.{Config, OutputConfig}
use node_box.Output.Target.{
  destination, within, under, below, both, is_abs, components, clean, join, output_dir, base_dir,
}

-- It does not begin with a step up.
abbrev pub StaysBelow : List String → Type 0
StaysBelow [] = Unit
StaysBelow (c ∷ cs) = c ≢ ".."

-- Below the directory, or the directory itself, by components.
abbrev pub IsUnder : String → String → Type 0
IsUnder p dir =
    (is_abs p ≡ is_abs dir)
    × ((rest : List String) × (components p ≡ components dir ++ rest) × StaysBelow rest)

under-IsPrefix :
    (dir p : List String)
    → under dir p ≡ true
    → (rest : List String) × (p ≡ dir ++ rest) × StaysBelow rest
unfolding under below
under-IsPrefix [] [] h = ([], refl, tt)
under-IsPrefix [] (c ∷ p) h = (c ∷ p, refl, eq_false→ne c ".." (ground arith))
under-IsPrefix (d ∷ dir) [] h = cc
under-IsPrefix (d ∷ dir) (c ∷ p) h =
    let (rest, e, s) = under-IsPrefix dir p (ground arith) in
    let same : d ≡ c = (eq_iff d c).0 (ground arith) in (rest, cc (same, e), s)

under-true : (dir rest : List String) → StaysBelow rest → under dir (dir ++ rest) ≡ true
unfolding under below
under-true [] [] s = refl
under-true [] (c ∷ rest) s = ground (arith, ne→eq_false c ".." s)
under-true (d ∷ dir) rest s = ground (arith, under-true dir rest s, eq_refl d)

both-same : (a b : Bool) → (a ≡ b) → both a b ≡ true
unfolding both
both-same true b e = sym e
both-same false b e = rw (← e) refl

both-eq : (a b : Bool) → both a b ≡ true → a ≡ b
unfolding both
both-eq true b h = sym h
both-eq false true h = cc
both-eq false false h = refl

pub within_iff : (p dir : String) → (within p dir ≡ true) ↔ IsUnder p dir
unfolding within under both
within_iff p dir = (
  λ h. (
    both-eq (is_abs p) (is_abs dir) (ground arith),
    under-IsPrefix (components dir) (components p) (ground arith),
  ),
  λ (a, (rest, e, s)).
      let u : under (components dir) (components p) ≡ true =
        subst (λ x. under (components dir) x ≡ true) (sym e) (under-true (components dir) rest s) in
      rw (both-same (is_abs p) (is_abs dir) a, u) refl,
)

pub within-false : (p dir : String) → within p dir ≡ false → ¬ IsUnder p dir
within-false p dir h u = let t = (within_iff p dir).1 u in cc (t, h)

-- The output's path, cleaned; one that is relative is taken from the base.
abbrev pub placed_at : String → String → String
placed_at base p = if is_abs p then clean p else clean (join base p)

pub destination-placed_at : (base p : String) → destination base p ≡ placed_at base p
unfolding destination
destination-placed_at base p = refl

-- The directory that the configuration names, from the root where it is relative; or "out".
abbrev pub base_of : String → Option OutputConfig → String
base_of root none = join root "out"
base_of root (some o) =
    if o.dir == ""
    then join root "out"
    else if is_abs o.dir
    then clean o.dir
    else clean (join root o.dir)

pub base_dir-base_of : (root : String) (c : Config) → base_dir root c ≡ base_of root c.output
unfolding base_dir output_dir
base_dir-base_of root c = go c.output
  where
    go : (o : Option OutputConfig) → output_dir root o ≡ base_of root o
    go none = refl
    go (some o) = refl
