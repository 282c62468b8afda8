-- ===== src/Output/Dirs.antt =====
-- CheckDirs and EnsureDirs of internal/output/write.go. What os.Stat says of a path, and whether the
-- host makes a directory, creates a file in one and removes it again, are parameters.
pub mod Expected
pub mod Made
pub mod Usable
use Prim.Native.Char.{code}
use node_box.Prelude.{
  String, Bool, true, false, not, ◌&&◌, ◌||◌, Option, none, some, List, [], ◌∷◌, ◌++◌, ◌==◌, eqb,
  if◌then◌else◌, Result, ok, err, ◌>>=◌, Names, has,
}
use node_box.Build.Generate.{Target}
use node_box.Output.Target.{clean, within}
use node_box.TextUtil.{concat}

has_slash : String → Bool
has_slash String.[] = false
has_slash (String.◌∷◌ c s) = eqb (code c) b'/' || has_slash s

-- What stands up to the last slash, the slash included.
up_to_slash : String → String
unfolding has_slash
up_to_slash String.[] = ""
up_to_slash (String.◌∷◌ c s) =
    let rest = up_to_slash s in if eqb (code c) b'/' || has_slash s then String.◌∷◌ c rest else ""

-- filepath.Dir
unfoldable pub dir_of : String → String
unfolding up_to_slash clean
dir_of p = clean (up_to_slash p)

steps_from : String → String → List String
unfolding concat
steps_from done String.[] = done ∷ []
steps_from done (String.◌∷◌ c s) =
    let rest = steps_from (concat done (String.◌∷◌ c String.[])) s in
    if eqb (code c) b'/' && not (done == "") then done ∷ rest else rest

-- The directories on the way to a path, the path last: os.MkdirAll makes those that are missing.
unfoldable pub steps : String → List String
unfolding steps_from
steps p = steps_from "" p

-- `stat` says whether a path is a directory, unless os.Stat fails.
pub record Host : Type 0 where
  pub stat : String → Option Bool
  pub makes_dir : String → Bool
  pub creates_temp : String → Bool
  pub removes_temp : String → Bool

-- the name of the output, and the directory
pub data DirError : Type 0 where
  must_exist : String → String → DirError
  not_directory : String → String → DirError
  not_created : String → String → DirError
  not_writable : String → String → DirError

-- The directories that were made, and those in which a temporary file was left.
pub record Created : Type 0 where
  pub made : Names
  pub left : Names

pub record Ensured : Type 0 where
  pub created : Created
  pub failed : Option DirError

abbrev pub ensured : Created → Option DirError → Ensured
ensured c e = record { created = c; failed = e }

module _ (host : Host) (base : String) where
  unfoldable pub check_stat : String → String → Option Bool → Option DirError
  check_stat name dir none = some (must_exist name dir)
  check_stat name dir (some false) = some (not_directory name dir)
  check_stat name dir (some true) = none

  unfoldable pub check_dir : String → String → Option DirError
  unfolding check_stat
  check_dir name dir = if within dir base then none else check_stat name dir (host.stat dir)

  unfoldable pub or_else : Option DirError → Option DirError → Option DirError
  or_else (some e) rest = some e
  or_else none rest = rest

  -- CheckDirs
  unfoldable pub check_dirs : List Target → Option DirError
  unfolding check_dir or_else
  check_dirs [] = none
  check_dirs (o ∷ os) = or_else (check_dir o.config.name (dir_of o.path)) (check_dirs os)

  -- goes on unless an error has occurred
  unfoldable pub go_on : Created → Option DirError → (Created → Ensured) → Ensured
  go_on c (some e) next = ensured c (some e)
  go_on c none next = next c

  -- os.MkdirAll at one directory of the way to `dir`
  unfoldable pub mkdir_step : String → String → String → Created → Option Bool → Ensured
  mkdir_step name dir p c (some true) = ensured c none
  mkdir_step name dir p c (some false) = ensured c (some (not_created name dir))
  mkdir_step name dir p c none =
      if has p c.made
      then ensured c none
      else if host.makes_dir p
      then ensured (record c { made = c.made ++ p ∷ [] }) none
      else ensured c (some (not_created name dir))

  unfoldable pub mkdir_each : String → String → List String → Created → Ensured
  unfolding mkdir_step go_on
  mkdir_each name dir [] c = ensured c none
  mkdir_each name dir (p ∷ ps) c =
      let m = mkdir_step name dir p c (host.stat p) in
      go_on m.created m.failed (mkdir_each name dir ps)

  -- os.MkdirAll, with the error that EnsureDirs makes of its own
  unfoldable pub mkdir_all : String → String → Created → Option Bool → Ensured
  unfolding mkdir_each steps
  mkdir_all name dir c (some true) = ensured c none
  mkdir_all name dir c (some false) = ensured c (some (not_created name dir))
  mkdir_all name dir c none = mkdir_each name dir (steps dir) c

  unfoldable pub make_dir : String → String → Created → Ensured
  unfolding mkdir_all
  make_dir name dir c =
      if within dir base then mkdir_all name dir c (host.stat dir) else ensured c none

  unfoldable pub check_writable : String → String → Created → Ensured
  check_writable name dir c =
      if not (host.creates_temp dir)
      then ensured c (some (not_writable name dir))
      else if host.removes_temp dir
      then ensured c none
      else ensured (record c { left = c.left ++ dir ∷ [] }) (some (not_writable name dir))

  unfoldable pub ensure_dir : String → String → Created → Ensured
  unfolding make_dir check_writable go_on
  ensure_dir name dir c =
      let m = make_dir name dir c in go_on m.created m.failed (check_writable name dir)

  unfoldable pub ensure_loop : List Target → Created → Ensured
  unfolding ensure_dir
  ensure_loop [] c = ensured c none
  ensure_loop (o ∷ os) c =
      let m = ensure_dir o.config.name (dir_of o.path) c in
      go_on m.created m.failed (ensure_loop os)

  -- EnsureDirs
  unfoldable pub ensure_dirs : List Target → Ensured
  unfolding ensure_loop check_dirs
  ensure_dirs os = go_on (record { made = []; left = [] }) (check_dirs os) (ensure_loop os)
