-- ===== src/TextUtil/Squeeze.antt =====
-- collapseSpaces of internal/subscription/transform.go: the loop of replacements, and the one pass
-- that it amounts to.
use Prim.Native.Char.{Char, code, char}
use text.Mathlib.TextEquality.{Char-path}
use node_box.Prelude.{
  ℕ, zero, suc, ◌≤◌, ◌<◌, String, ◌≡◌, refl, ap, sym, ◌∙◌, Bool, true, false, arith, if◌then◌else◌,
  eqb, ◌&&◌, Bool-cases, inl, inr,
}
use node_box.TextUtil.{concat, has_prefix, contains, trim_space}
use node_box.TextUtil.Replace.{size, replace_from, replace_all}

-- for strings.Contains(s, "  ") { s = strings.ReplaceAll(s, "  ", " ") }
unfoldable pub collapse_loop : ℕ → String → String
unfolding contains replace_all
collapse_loop zero s = s
collapse_loop (suc fuel) s =
    let rest = collapse_loop fuel (replace_all s "  " " ") in if contains s "  " then rest else s

-- A round shortens the text: as many rounds as it has runes are enough.
unfoldable pub collapse_spaces : String → String
unfolding collapse_loop size
collapse_spaces s = trim_space (collapse_loop (size s) s)

-- One pass that keeps the first space of each run: the first argument says that a space was just kept.
unfoldable pub squeeze : Bool → String → String
squeeze after String.[] = String.[]
squeeze after (String.◌∷◌ c s) =
    let rest = squeeze true s in
    let next = squeeze false s in
    if eqb (code c) 32 then (if after then rest else String.◌∷◌ c rest) else String.◌∷◌ c next

abbrev halve : String → String
halve s = replace_from 0 s "  " " "

space_eq : (c : Char) → eqb (code c) 32 ≡ true → char 32 tt ≡ c
space_eq c h = Char-path (char 32 tt) c (ground arith)

halve_cons :
    (c d : Char) (s : String)
    → halve (String.◌∷◌ c (String.◌∷◌ d s)) ≡ (
        if eqb (code c) 32 && eqb (code d) 32
        then String.◌∷◌ (char 32 tt) (halve s)
        else String.◌∷◌ c (halve (String.◌∷◌ d s)))
unfolding replace_from has_prefix size concat
halve_cons c d s = ground arith

squeeze-halve : (after : Bool) (s : String) → squeeze after (halve s) ≡ squeeze after s
unfolding squeeze replace_from has_prefix
squeeze-halve after String.[] = refl
squeeze-halve after (String.◌∷◌ c String.[]) = ground arith
squeeze-halve after (String.◌∷◌ c (String.◌∷◌ d s)) = rw (halve_cons c d s) (
    ground (
      arith,
      space_eq c,
      squeeze-halve true s,
      squeeze-halve true (String.◌∷◌ d s),
      squeeze-halve false (String.◌∷◌ d s),
    ))

size-halve : (s : String) → size (halve s) ≤ size s
unfolding size replace_from has_prefix
size-halve String.[] = omega arith
size-halve (String.◌∷◌ c String.[]) = ground arith
size-halve (String.◌∷◌ c (String.◌∷◌ d s)) =
    rw (halve_cons c d s) (ground (arith, size-halve s, size-halve (String.◌∷◌ d s)))

size-halve_lt : (s : String) → contains s "  " ≡ true → size (halve s) < size s
unfolding size replace_from has_prefix contains
size-halve_lt String.[] h = cc
size-halve_lt (String.◌∷◌ c String.[]) h = ground arith
size-halve_lt (String.◌∷◌ c (String.◌∷◌ d s)) h =
    rw (halve_cons c d s) (ground (arith, size-halve s, size-halve_lt (String.◌∷◌ d s)))

squeeze_done : (s : String) → contains s "  " ≡ false → squeeze false s ≡ s
unfolding squeeze has_prefix contains
squeeze_done String.[] h = refl
squeeze_done (String.◌∷◌ c String.[]) h = ground arith
squeeze_done (String.◌∷◌ c (String.◌∷◌ d s)) h = ground (arith, squeeze_done (String.◌∷◌ d s))

-- Enough rounds leave no run of spaces.
collapse_loop-eq : (fuel : ℕ) (s : String) → size s ≤ fuel → collapse_loop fuel s ≡ squeeze false s
unfolding collapse_loop replace_all
collapse_loop-eq zero String.[] h = ground (arith, squeeze_done "")
collapse_loop-eq zero (String.◌∷◌ c s) h = ground arith
collapse_loop-eq (suc fuel) s h = elim (Bool-cases (contains s "  ")) [
  | inl double ↦ rw double (
      collapse_loop-eq fuel (halve s) (omega (arith, size-halve_lt s double, h))
      ∙ squeeze-halve false s)
  | inr single ↦ rw single (sym (squeeze_done s single))
]

-- The loop of collapseSpaces ends within as many rounds as the text has runes, and its result is
-- the one pass that keeps the first space of each run, trimmed.
pub collapse_spaces-eq-squeeze : (s : String) → collapse_spaces s ≡ trim_space (squeeze false s)
unfolding collapse_spaces
collapse_spaces-eq-squeeze s = ap trim_space (collapse_loop-eq (size s) s (omega arith))
