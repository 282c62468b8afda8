-- ===== src/TextUtil.antt =====
-- internal/textutil/match.go: comparing names without their emoji. A text is its sequence of
-- runes: the program's texts come from encoding/json, which yields valid UTF-8.
pub mod Compared
pub mod Occurs
pub mod Replace
pub mod Squeeze
use Prim.Native.Char.{Char, code, char}
use node_box.Prelude.{ℕ, String, Bool, true, false, ◌&&◌, ◌||◌, leb, eqb, if◌then◌else◌, ◌==◌}

-- The category `unicode.So` of the Unicode version of the Go library.
abbrev pub RuneClass : Type 0
RuneClass = ℕ → Bool

abbrev pub between : ℕ → ℕ → ℕ → Bool
between lo hi r = leb lo r && leb r hi

-- unicode.IsSpace
unfoldable pub is_space : ℕ → Bool
is_space r =
    between 9 13 r
    || eqb r 32
    || eqb r 0x85
    || eqb r 0xA0
    || eqb r 0x1680
    || between 0x2000 0x200A r
    || eqb r 0x2028
    || eqb r 0x2029
    || eqb r 0x202F
    || eqb r 0x205F
    || eqb r 0x3000

-- strings.TrimSpace
unfoldable pub trim_left : String → String
trim_left String.[] = String.[]
trim_left (String.◌∷◌ c s) =
    let rest = trim_left s in if is_space (code c) then rest else String.◌∷◌ c s

-- a rune before a text that is trimmed already
unfoldable pub push_trimmed : Char → String → String
push_trimmed c String.[] = if is_space (code c) then String.[] else String.◌∷◌ c String.[]
push_trimmed c (String.◌∷◌ d t) = String.◌∷◌ c (String.◌∷◌ d t)

unfoldable pub trim_right : String → String
unfolding push_trimmed
trim_right String.[] = String.[]
trim_right (String.◌∷◌ c s) = push_trimmed c (trim_right s)

-- s + t
unfoldable pub concat : String → String → String
concat String.[] t = t
concat (String.◌∷◌ c s) t = String.◌∷◌ c (concat s t)

unfoldable pub trim_space : String → String
unfolding trim_left trim_right is_space
trim_space s = trim_right (trim_left s)

-- strings.HasPrefix
unfoldable pub has_prefix : String → String → Bool
has_prefix s String.[] = true
has_prefix String.[] (String.◌∷◌ d t) = false
has_prefix (String.◌∷◌ c s) (String.◌∷◌ d t) = eqb (code c) (code d) && has_prefix s t

-- strings.Contains
unfoldable pub contains : String → String → Bool
unfolding has_prefix
contains String.[] t = has_prefix String.[] t
contains (String.◌∷◌ c s) t = has_prefix (String.◌∷◌ c s) t || contains s t

module _ (so : RuneClass) where
  unfoldable pub is_emoji_rune : ℕ → Bool
  is_emoji_rune r =
      so r
      || between 0x1F1E0 0x1F1FF r
      || between 0xFE00 0xFE0F r
      || between 0xE0100 0xE01EF r
      || eqb r 0x200D
      || eqb r 0x20E3
      || between 0x1F3FB 0x1F3FF r

  -- the loop of stripEmoji, from the value of prevWasSpace
  unfoldable pub strip_loop : Bool → String → String
  strip_loop prev String.[] = String.[]
  strip_loop prev (String.◌∷◌ c s) =
      let after_space = strip_loop true s in
      let after_rune = strip_loop false s in
      if is_emoji_rune (code c)
      then after_space
      else if eqb (code c) 32 || eqb (code c) 9
      then (if prev then after_space else String.◌∷◌ (char 32 tt) after_space)
      else String.◌∷◌ c after_rune

  unfoldable pub strip_emoji : String → String
  unfolding strip_loop is_emoji_rune trim_space
  strip_emoji s = trim_space (strip_loop false s)

  unfoldable pub contains_ignore_emoji : String → String → Bool
  unfolding strip_emoji contains
  contains_ignore_emoji s keyword =
      let clean_keyword = strip_emoji keyword in
      if keyword == ""
      then false
      else if clean_keyword == ""
      then contains s keyword
      else contains (strip_emoji s) clean_keyword
