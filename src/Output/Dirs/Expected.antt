-- ===== src/Output/Dirs/Expected.antt =====
-- CheckDirs of internal/output/write.go: what its errors say, and what its outputs can expect.
use node_box.Prelude.{
  String, ◌≡◌, ◌⊎◌, inl, inr, refl, Bool, true, false, Option, none, some, List, [], ◌∷◌,
  if◌then◌else◌, All, In,
}
use node_box.Build.Generate.{Target}
use node_box.Output.Target.{within}
use node_box.Output.Dirs.{
  dir_of, steps, Host, DirError, must_exist, not_directory, not_created, not_writable, Created,
  Ensured, check_stat, check_dir, or_else, check_dirs,
}

module _ (host : Host) (base : String) where
  -- Nothing stood there, and it is on the way to the directory of an output, or that directory,
  -- which is under the output directory.
  abbrev pub IsNew : List Target → String → Type 0
  IsNew os d =
      (host.stat d ≡ none)
      × ((o : Target) × In o os
          × (within (dir_of o.path) base ≡ true)
          × In d (steps (dir_of o.path)))

  -- It was a directory, or is one now.
  abbrev pub IsThere : Created → String → Type 0
  IsThere c d = (host.stat d ≡ some true) ⊎ ((within d base ≡ true) × In d c.made)

  abbrev pub IsUsable : Created → Target → Type 0
  IsUsable c o =
      (host.creates_temp (dir_of o.path) ≡ true)
      × (host.removes_temp (dir_of o.path) ≡ true)
      × IsThere c (dir_of o.path)

  abbrev pub IsNamed : Target → String → String → Type 0
  IsNamed o name d = (name ≡ o.config.name) × (d ≡ dir_of o.path)

  -- What an error says of the output that it names. Of the first two nothing has been made.
  abbrev pub IsErrorOf : Created → Target → DirError → Type 0
  IsErrorOf c o (must_exist name d) =
      IsNamed o name d × (within d base ≡ false) × (host.stat d ≡ none) × (c.made ≡ [])
  IsErrorOf c o (not_directory name d) =
      IsNamed o name d × (within d base ≡ false) × (host.stat d ≡ some false) × (c.made ≡ [])
  IsErrorOf c o (not_created name d) =
      IsNamed o name d
      × (within d base ≡ true)
      × ((p : String) × In p (steps d) × ((host.stat p ≡ some false) ⊎ (host.makes_dir p ≡ false)))
  IsErrorOf c o (not_writable name d) =
      IsNamed o name d × ((host.creates_temp d ≡ false) ⊎ (host.removes_temp d ≡ false))

  abbrev pub IsSettled : List Target → Created → Option DirError → Type 0
  IsSettled os c none = (c.left ≡ []) × All (IsUsable c) os
  IsSettled os c (some e) = (o : Target) × In o os × IsErrorOf c o e

  abbrev pub AreEnsured : List Target → Ensured → Type 0
  AreEnsured os r = All (IsNew os) r.created.made × IsSettled os r.created r.failed

  abbrev pub IsMet : (Target → Type 0) → Created → List Target → Option DirError → Type 0
  IsMet P c os none = All P os
  IsMet P c os (some e) = (o : Target) × In o os × IsErrorOf c o e

  abbrev pub IsExpected : Target → Type 0
  IsExpected o = (within (dir_of o.path) base ≡ true) ⊎ (host.stat (dir_of o.path) ≡ some true)

  abbrev IsChecked : Target → Created → Option DirError → Type 0
  IsChecked o c none = IsExpected o
  IsChecked o c (some e) = IsErrorOf c o e

  module _ (o : Target) (c : Created) where
    check_stat-IsChecked :
        (s : Option Bool)
        → c.made ≡ []
        → within (dir_of o.path) base ≡ false
        → host.stat (dir_of o.path) ≡ s
        → IsChecked o c (check_stat host base o.config.name (dir_of o.path) s)
    unfolding check_stat
    check_stat-IsChecked none m w f = ((refl, refl), w, f, m)
    check_stat-IsChecked (some false) m w f = ((refl, refl), w, f, m)
    check_stat-IsChecked (some true) m w f = inr f

    check_dir-IsChecked :
        c.made ≡ [] → IsChecked o c (check_dir host base o.config.name (dir_of o.path))
    unfolding check_dir check_stat
    check_dir-IsChecked m = go (within (dir_of o.path) base) refl
      where
        go :
            (b : Bool)
            → within (dir_of o.path) base ≡ b
            → IsChecked o c (
                if b
                then none
                else check_stat host base o.config.name (dir_of o.path) (host.stat (dir_of o.path)))
        go true w = inl w
        go false w = check_stat-IsChecked (host.stat (dir_of o.path)) m w refl

  later :
      (P : Target → Type 0) (o : Target) (c : Created) (os : List Target) (e : Option DirError)
      → P o
      → IsMet P c os e
      → IsMet P c (o ∷ os) e
  later P o c os none p h = (p, h)
  later P o c os (some e) p (x, i, h) = (x, inr i, h)

  or_else-IsMet :
      (o : Target) (c : Created) (os : List Target) (x y : Option DirError)
      → IsChecked o c x
      → IsMet IsExpected c os y
      → IsMet IsExpected c (o ∷ os) (or_else host base x y)
  unfolding or_else
  or_else-IsMet o c os (some e) y h k = (o, inl refl, h)
  or_else-IsMet o c os none y h k = later IsExpected o c os y h k

  pub check_dirs-IsMet :
      (c : Created) (os : List Target)
      → c.made ≡ []
      → IsMet IsExpected c os (check_dirs host base os)
  unfolding check_dirs check_dir or_else
  check_dirs-IsMet c [] m = tt
  check_dirs-IsMet c (o ∷ os) m =
      or_else-IsMet o c os (check_dir host base o.config.name (dir_of o.path))
        (check_dirs host base os) (check_dir-IsChecked o c m) (check_dirs-IsMet c os m)
