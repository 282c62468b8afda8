-- ===== src/Model/Paths.antt =====
-- checkRepoRelPath of internal/model/config.go, with the part of path.Clean that it reads: the
-- components of a relative path, last first, with each ".." resolved.
pub mod Inside
use Prim.Native.Char.{Char, code}
use node_box.Prelude.{
  ℕ, String, Bool, true, false, ◌||◌, List, [], ◌∷◌, foldl, ◌==◌, eqb, if◌then◌else◌, Result, ok,
  err, ◌>>◌, fail_if,
}
use node_box.TextUtil.{has_prefix, contains}

pub data PathError : Type 0 where
  not_relative backslashes escapes : PathError

cons_rune : Char → List String → List String
cons_rune c [] = String.◌∷◌ c String.[] ∷ []
cons_rune c (s ∷ ss) = String.◌∷◌ c s ∷ ss

-- strings.Split(p, "/")
unfoldable pub split : String → List String
unfolding cons_rune
split String.[] = "" ∷ []
split (String.◌∷◌ c s) =
    let rest = split s in if eqb (code c) b'/' then "" ∷ rest else cons_rune c rest

-- ".." takes the last component away, unless it is ".." itself or there is none
unfoldable pub climb : List String → List String
climb [] = ".." ∷ []
climb (c ∷ cs) = if c == ".." then ".." ∷ c ∷ cs else cs

clean_component : List String → String → List String
clean_component cs c = if c == "" || c == "." then cs else if c == ".." then climb cs else c ∷ cs

-- path.Clean of a path that does not begin with "/"
unfoldable pub clean : String → List String
unfolding split clean_component climb
clean p = foldl clean_component [] (split p)

-- the cleaned path is ".." or begins with "../": its first component is ".."
unfoldable pub leads_out : List String → Bool
leads_out [] = false
leads_out (c ∷ []) = c == ".."
leads_out (c ∷ d ∷ cs) = leads_out (d ∷ cs)

unfoldable pub check_repo_rel_path : String → Result PathError (Unit {0})
unfolding clean leads_out has_prefix contains
check_repo_rel_path p = do
  fail_if (has_prefix p "/" || has_prefix p "\\") not_relative
  fail_if (contains p "\\") backslashes
  fail_if (leads_out (clean p)) escapes
