-- ===== src/Subscription/Removal.antt =====
-- removeKeywords of internal/subscription/transform.go: the deletions from one tag. A glob becomes
-- a regular expression of literals, `.` and `.*`, which always compiles; it is matched as package
-- regexp does, at the leftmost place, the first `.*` as far as it goes.
pub mod Literal
use Prim.Native.Char.{Char, code}
use node_box.Prelude.{
  ℕ, zero, suc, String, Bool, true, false, not, ◌&&◌, ◌||◌, Option, none, some, List, [], ◌∷◌,
  if◌then◌else◌, eqb, ◌==◌, foldl,
}
use node_box.TextUtil.Replace.{replace_all}
use node_box.TextUtil.Squeeze.{collapse_spaces}

-- What stands for one rune of the pattern: `.*`, `.`, or the rune itself, quoted.
pub data RegexpItem : Type 0 where
  any_run : RegexpItem
  any_one : RegexpItem
  quoted : Char → RegexpItem

abbrev pub Regexp : Type 0
Regexp = List RegexpItem

unfoldable pub regexp_item : Char → RegexpItem
regexp_item c = if eqb (code c) 42 then any_run else if eqb (code c) 63 then any_one else quoted c

unfoldable pub glob_to_regexp : String → Regexp
unfolding regexp_item
glob_to_regexp String.[] = []
glob_to_regexp (String.◌∷◌ c s) = regexp_item c ∷ glob_to_regexp s

abbrev pub one_more : Option ℕ → Option ℕ
one_more none = none
one_more (some n) = some (suc n)

abbrev pub or_else : Option ℕ → Option ℕ → Option ℕ
or_else (some n) later = some n
or_else none later = later

-- The number of runes of the match that starts at the text's head. `.` is any rune but a newline.
unfoldable pub match_length : Regexp → String → Option ℕ
match_length [] s = some 0
match_length (quoted c ∷ re) String.[] = none
match_length (quoted c ∷ re) (String.◌∷◌ d s) =
    let rest = one_more (match_length re s) in if eqb (code d) (code c) then rest else none
match_length (any_one ∷ re) String.[] = none
match_length (any_one ∷ re) (String.◌∷◌ d s) =
    let rest = one_more (match_length re s) in if eqb (code d) 10 then none else rest
match_length (any_run ∷ re) String.[] = match_length re String.[]
match_length (any_run ∷ re) (String.◌∷◌ d s) =
    let longer = one_more (match_length (any_run ∷ re) s) in
    let here = match_length re (String.◌∷◌ d s) in
    or_else (if eqb (code d) 10 then none else longer) here

-- A match of at least one rune is passed over; an empty one deletes nothing.
abbrev pub delete_match : Option ℕ → String → (ℕ → String) → String
delete_match none kept passed = kept
delete_match (some zero) kept passed = kept
delete_match (some (suc n)) kept passed = passed n

-- re.ReplaceAllString(s, ""): the first argument counts the runes of a match that are still to be
-- passed over.
unfoldable pub delete_from : ℕ → Regexp → String → String
unfolding match_length
delete_from k re String.[] = String.[]
delete_from (suc k) re (String.◌∷◌ c s) = delete_from k re s
delete_from zero re (String.◌∷◌ c s) =
    delete_match (match_length re (String.◌∷◌ c s)) (String.◌∷◌ c (delete_from 0 re s))
      (λ n. delete_from n re s)

pub data Removal : Type 0 where
  literal : String → Removal
  glob : Regexp → Removal

-- strings.ContainsAny(kw, "*?")
unfoldable pub has_wildcard : String → Bool
has_wildcard String.[] = false
has_wildcard (String.◌∷◌ c s) = eqb (code c) 42 || eqb (code c) 63 || has_wildcard s

unfoldable pub compile_removals : List String → List Removal
unfolding has_wildcard glob_to_regexp
compile_removals [] = []
compile_removals (kw ∷ kws) =
    let rest = compile_removals kws in
    if kw == ""
    then rest
    else (if not (has_wildcard kw) then literal kw else glob (glob_to_regexp kw)) ∷ rest

unfoldable pub remove_match : String → Removal → String
unfolding replace_all delete_from
remove_match tag (literal l) = replace_all tag l ""
remove_match tag (glob re) = delete_from 0 re tag

-- the loop over the matchers, and the tidying behind it
unfoldable pub remove_matches : List Removal → String → String
unfolding remove_match collapse_spaces
remove_matches matchers tag = collapse_spaces (foldl remove_match tag matchers)
