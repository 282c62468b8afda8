-- ===== src/TextUtil/Replace.antt =====
-- The functions of Go's package strings that the naming of nodes uses, on texts of runes:
-- strings.ReplaceAll for a text to replace that is not empty, and strings.Index as the texts
-- around the first occurrence.
pub mod Cut
use Prim.Native.Char.{Char, code, char}
use node_box.Prelude.{
  ℕ, zero, suc, ◌+◌, ◌-◌, ◌≤◌, String, ◌≡◌, refl, ap, Bool, true, false, Option, none, some, arith,
  if◌then◌else◌, eqb,
}
use node_box.TextUtil.{concat, has_prefix, contains}

-- the number of runes
unfoldable pub size : String → ℕ
size String.[] = 0
size (String.◌∷◌ c s) = suc (size s)

-- What stands behind a prefix: strings.CutPrefix.
unfoldable pub cut_prefix : String → String → Option String
cut_prefix s String.[] = some s
cut_prefix String.[] (String.◌∷◌ d t) = none
cut_prefix (String.◌∷◌ c s) (String.◌∷◌ d t) =
    let rest = cut_prefix s t in if eqb (code c) (code d) then rest else none

abbrev move_cut : Char → Option (String × String) → Option (String × String)
move_cut c none = none
move_cut c (some (before, after)) = some (String.◌∷◌ c before, after)

abbrev cut_here : Option String → Option (String × String) → Option (String × String)
cut_here none later = later
cut_here (some rest) later = some ("", rest)

-- The texts before and after the first occurrence: strings.Index, and the slices around it.
unfoldable pub cut : String → String → Option (String × String)
unfolding cut_prefix
cut String.[] t = cut_here (cut_prefix String.[] t) none
cut (String.◌∷◌ c s) t = cut_here (cut_prefix (String.◌∷◌ c s) t) (move_cut c (cut s t))

-- The scan of strings.ReplaceAll. The first argument counts the runes of an occurrence that are
-- still to be passed over.
unfoldable pub replace_from : ℕ → String → String → String → String
unfolding has_prefix size
replace_from k String.[] old new = String.[]
replace_from (suc k) (String.◌∷◌ c s) old new = replace_from k s old new
replace_from zero (String.◌∷◌ c s) old new =
    let passed = replace_from (size old - 1) s old new in
    let next = replace_from 0 s old new in
    if has_prefix (String.◌∷◌ c s) old then concat new passed else String.◌∷◌ c next

unfoldable pub replace_all : String → String → String → String
unfolding replace_from
replace_all s old new = replace_from 0 s old new
