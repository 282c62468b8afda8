-- ===== src/TextUtil/Compared.antt =====
-- stripEmoji of internal/textutil/match.go: what it leaves of a text, by the rune before each rune.
use Prim.Native.Char.{Char, code, char}
use node_box.Prelude.{
  ℕ, String, ◌≡◌, refl, ap, Bool, true, false, ◌&&◌, ◌||◌, Option, none, some, List, [], ◌∷◌, eqb,
  arith, if◌then◌else◌,
}
use node_box.TextUtil.{RuneClass, between, trim_space, is_emoji_rune, strip_loop, strip_emoji}

-- Regional indicators, variation selectors and their supplement, the zero width joiner, the
-- enclosing keycap, and the skin tones.
abbrev pub emoji_ranges : List (ℕ × ℕ)
emoji_ranges =
    (0x1F1E0, 0x1F1FF)
    ∷ (0xFE00, 0xFE0F)
    ∷ (0xE0100, 0xE01EF)
    ∷ (0x200D, 0x200D)
    ∷ (0x20E3, 0x20E3)
    ∷ (0x1F3FB, 0x1F3FF)
    ∷ []

abbrev pub in_ranges : ℕ → List (ℕ × ℕ) → Bool
in_ranges r [] = false
in_ranges r (range ∷ ranges) = between range.0 range.1 r || in_ranges r ranges

abbrev pub is_blank : ℕ → Bool
is_blank r = eqb r 32 || eqb r 9

module _ (so : RuneClass) where
  -- A symbol, or a rune of the ranges.
  abbrev pub is_emoji : ℕ → Bool
  is_emoji r = so r || in_ranges r emoji_ranges

  -- The rune before is there and is an emoji or a blank.
  abbrev pub is_gap : Option Char → Bool
  is_gap none = false
  is_gap (some c) = is_emoji (code c) || is_blank (code c)

  -- Emoji are left out, and so are blanks that follow an emoji or a blank; another blank is a space.
  abbrev pub without_emoji : Option Char → String → String
  without_emoji before String.[] = String.[]
  without_emoji before (String.◌∷◌ c s) =
      let rest = without_emoji (some c) s in
      if is_emoji (code c) || (is_blank (code c) && is_gap before)
      then rest
      else if is_blank (code c)
      then String.◌∷◌ (char 32 tt) rest
      else String.◌∷◌ c rest

  -- The text that is compared.
  abbrev pub compared : String → String
  compared s = trim_space (without_emoji none s)

  is_emoji_rune-is_emoji : (r : ℕ) → is_emoji_rune so r ≡ is_emoji r
  unfolding is_emoji_rune
  is_emoji_rune-is_emoji r = ground arith

  strip_loop-without_emoji :
      (before : Option Char) (s : String) → strip_loop so (is_gap before) s ≡ without_emoji before s
  unfolding strip_loop
  strip_loop-without_emoji before String.[] = refl
  strip_loop-without_emoji before (String.◌∷◌ c s) = rw (is_emoji_rune-is_emoji (code c)) (
      go (is_emoji (code c)) (is_blank (code c)) (is_gap before)
        (strip_loop-without_emoji (some c) s))
    where
      rest : String
      rest = without_emoji (some c) s

      go :
          (x y z : Bool)
          → strip_loop so (x || y) s ≡ rest
          → (if x
              then strip_loop so true s
              else if y
              then (if z
                  then strip_loop so true s
                  else String.◌∷◌ (char 32 tt) (strip_loop so true s))
              else String.◌∷◌ c (strip_loop so false s))
            ≡ (if x || (y && z)
                then rest
                else if y
                then String.◌∷◌ (char 32 tt) rest
                else String.◌∷◌ c rest)
      go true y z h = h
      go false true true h = h
      go false true false h = ap (String.◌∷◌ (char 32 tt)) h
      go false false z h = ap (String.◌∷◌ c) h

  pub strip_emoji-compared : (s : String) → strip_emoji so s ≡ compared s
  unfolding strip_emoji
  strip_emoji-compared s = ap trim_space (strip_loop-without_emoji none s)
