-- ===== src/Output/Dirs/Usable.antt =====
-- EnsureDirs of internal/output/write.go: the directories that it makes and the errors that it names.
use node_box.Prelude.{
  String, ◌≡◌, inl, inr, refl, Bool, true, false, not, Option, none, some, List, [], ◌∷◌, ◌++◌,
  if◌then◌else◌, All, In, All-In, ◌∙◌,
}
use node_box.Build.Generate.{Target}
use node_box.Output.Target.{within}
use node_box.Output.Dirs.{
  dir_of, Host, DirError, not_writable, Created, Ensured, ensured, steps, mkdir_all, mkdir_each,
  make_dir, check_writable, go_on, ensure_dir, ensure_loop, check_dirs, ensure_dirs,
}
use node_box.Output.Dirs.Made.{IsPresent, MadeBy, In-steps, mkdir_each-IsMade}
use node_box.Output.Dirs.Expected.{
  IsNew, IsThere, IsUsable, IsErrorOf, IsSettled, AreEnsured, IsMet, IsExpected, check_dirs-IsMet,
}

module _ (host : Host) (base : String) (all : List Target) where
  abbrev IsAfter : (Created → Type 0) → Target → Created → Option DirError → Type 0
  IsAfter P o c none = (c.left ≡ []) × P c
  IsAfter P o c (some e) = IsErrorOf host base c o e

  -- What a step from `c` for one output leaves: nothing that was made is lost.
  abbrev IsMoved : (Created → Type 0) → Target → Created → Ensured → Type 0
  IsMoved P o c r =
      All (IsNew host base all) r.created.made
      × ((d : String) → In d c.made → In d r.created.made)
      × IsAfter P o r.created r.failed

  module _ (o : Target) (c : Created) (news : All (IsNew host base all) c.made)
      (none_left : c.left ≡ []) (listed : In o all) where
    mkdir_all-IsMoved :
        (s : Option Bool)
        → within (dir_of o.path) base ≡ true
        → host.stat (dir_of o.path) ≡ s
        → IsMoved
            (λ m. IsThere host base m (dir_of o.path))
            o
            c
            (mkdir_all host base o.config.name (dir_of o.path) c s)
    unfolding mkdir_all
    mkdir_all-IsMoved (some true) w f = (news, (λ d i. i), (none_left, inl f))
    mkdir_all-IsMoved (some false) w f =
        (news, (λ d i. i), ((refl, refl), w, (dir_of o.path, In-steps (dir_of o.path), inl f)))
    mkdir_all-IsMoved none w f =
        let r = mkdir_each host base o.config.name (dir_of o.path) (steps (dir_of o.path)) c in
        let (n, g, l, h) =
          mkdir_each-IsMade host base all o listed w (steps (dir_of o.path)) c news (λ p i. i) in
        (n, g, by r.created r.failed (l ∙ none_left) h)
      where
        by :
            (x : Created) (e : Option DirError)
            → x.left ≡ []
            → MadeBy host base all o (steps (dir_of o.path)) x e
            → IsAfter (λ m. IsThere host base m (dir_of o.path)) o x e
        by x (some e) l h = h
        by x none l h = (
          l,
          elim (All-In (IsPresent host base all o x) (steps (dir_of o.path)) (dir_of o.path) h
              (In-steps (dir_of o.path))) [ inl d ↦ inl d | inr i ↦ inr (w, i) ],
        )

    make_dir-IsMoved :
        IsExpected host base o
        → IsMoved
            (λ m. IsThere host base m (dir_of o.path))
            o
            c
            (make_dir host base o.config.name (dir_of o.path) c)
    unfolding make_dir mkdir_all
    make_dir-IsMoved expected = go (within (dir_of o.path) base) refl expected
      where
        go :
            (b : Bool)
            → within (dir_of o.path) base ≡ b
            → IsExpected host base o
            → IsMoved
                (λ m. IsThere host base m (dir_of o.path))
                o
                c
                (if b
                  then mkdir_all host base o.config.name
                      (dir_of o.path)
                      c
                      (host.stat (dir_of o.path))
                  else ensured c none)
        go true w h = mkdir_all-IsMoved (host.stat (dir_of o.path)) w refl
        go false w (inl v) = cc
        go false w (inr f) = (news, (λ d i. i), (none_left, inl f))

    check_writable-IsMoved :
        IsThere host base c (dir_of o.path)
        → IsMoved
            (λ m. IsUsable host base m o)
            o
            c
            (check_writable host base o.config.name (dir_of o.path) c)
    unfolding check_writable
    check_writable-IsMoved there =
        go (host.creates_temp (dir_of o.path)) (host.removes_temp (dir_of o.path)) refl refl
      where
        go :
            (x y : Bool)
            → host.creates_temp (dir_of o.path) ≡ x
            → host.removes_temp (dir_of o.path) ≡ y
            → IsMoved
                (λ m. IsUsable host base m o)
                o
                c
                (if not x
                  then ensured c (some (not_writable o.config.name (dir_of o.path)))
                  else if y
                  then ensured c none
                  else ensured
                      (record c { left = c.left ++ dir_of o.path ∷ [] })
                      (some (not_writable o.config.name (dir_of o.path))))
        go false y p q = (news, (λ d i. i), ((refl, refl), inl p))
        go true true p q = (news, (λ d i. i), (none_left, (p, q, there)))
        go true false p q = (news, (λ d i. i), ((refl, refl), inr q))

  kept_usable :
      (c m : Created)
      → ((d : String) → In d c.made → In d m.made)
      → (o : Target) → IsUsable host base c o
      → IsUsable host base m o
  kept_usable c m grows o (p, q, inl f) = (p, q, inl f)
  kept_usable c m grows o (p, q, inr (w, i)) = (p, q, inr (w, grows _ i))

  ensure_dir-IsMoved :
      (o : Target) (c : Created)
      → All (IsNew host base all) c.made
      → c.left ≡ []
      → In o all
      → IsExpected host base o
      → IsMoved
          (λ m. IsUsable host base m o)
          o
          c
          (ensure_dir host base o.config.name (dir_of o.path) c)
  unfolding ensure_dir go_on make_dir check_writable
  ensure_dir-IsMoved o c news none_left listed expected =
      go (make_dir host base o.config.name (dir_of o.path) c)
        (make_dir-IsMoved o c news none_left listed expected)
    where
      go :
          (m : Ensured)
          → IsMoved (λ m. IsThere host base m (dir_of o.path)) o c m
          → IsMoved
              (λ m. IsUsable host base m o)
              o
              c
              (go_on host base m.created m.failed
                (check_writable host base o.config.name (dir_of o.path)))
      go m h = by m.created m.failed h
        where
          by :
              (x : Created) (f : Option DirError)
              → IsMoved (λ m. IsThere host base m (dir_of o.path)) o c (ensured x f)
              → IsMoved
                  (λ m. IsUsable host base m o)
                  o
                  c
                  (go_on host base x f (check_writable host base o.config.name (dir_of o.path)))
          by x (some e) h = h
          by x none (n, g, (l, t)) =
              let (n', g', h) = check_writable-IsMoved o x n l listed t in
              (n', (λ d i. g' d (g d i)), h)

  -- What the loop leaves from `c`.
  abbrev IsLooped : Created → List Target → Ensured → Type 0
  IsLooped c os r =
      All (IsNew host base all) r.created.made
      × IsSettled host base os r.created r.failed
      × ((d : String) → In d c.made → In d r.created.made)

  settled :
      (o : Target) (os : List Target) (c : Created) (f : Option DirError)
      → IsUsable host base c o
      → IsSettled host base os c f
      → IsSettled host base (o ∷ os) c f
  settled o os c none u (l, us) = (l, (u, us))
  settled o os c (some e) u (x, i, h) = (x, inr i, h)

  ensure_loop-IsLooped :
      (os : List Target) (c : Created)
      → All (IsNew host base all) c.made
      → c.left ≡ []
      → All (λ o. In o all × IsExpected host base o) os
      → IsLooped c os (ensure_loop host base os c)
  unfolding ensure_loop go_on ensure_dir
  ensure_loop-IsLooped [] c news none_left expected = (news, (none_left, tt), λ d i. i)
  ensure_loop-IsLooped (o ∷ os) c news none_left ((listed, first), expected) =
      let step = ensure_dir host base o.config.name (dir_of o.path) c in
      by step.created step.failed (ensure_dir-IsMoved o c news none_left listed first)
        (λ x n l. ensure_loop-IsLooped os x n l expected)
    where
      by :
          (x : Created) (f : Option DirError)
          → IsMoved (λ m. IsUsable host base m o) o c (ensured x f)
          → ((y : Created)
              → All (IsNew host base all) y.made
              → y.left ≡ []
              → IsLooped y os (ensure_loop host base os y))
          → IsLooped c (o ∷ os) (go_on host base x f (ensure_loop host base os))
      by x (some e) (n, g, h) rest = (n, (o, inl refl, h), g)
      by x none (n, g, (l, u)) rest =
          let r = ensure_loop host base os x in
          let (n', h, g') = rest x n l in
          (
            n',
            settled o os r.created r.failed (kept_usable x r.created g' o u) h,
            λ d i. g' d (g d i),
          )

  members :
      (os : List Target)
      → ((o : Target) → In o os → In o all)
      → All (IsExpected host base) os
      → All (λ o. In o all × IsExpected host base o) os
  members [] sub h = tt
  members (o ∷ os) sub (e, h) = ((sub o (inl refl), e), members os (λ x i. sub x (inr i)) h)

-- EnsureDirs makes only what is missing of the way to the directory of an output, parents included,
-- and only where that directory is under the output directory. Without an error it leaves no
-- temporary file, and the directory of every output is there, made or found, and takes files. An
-- error names an output and what is wrong with its directory or the way there; if one outside of the
-- output directory is missing or no directory, nothing has been made.
pub ensure_dirs-AreEnsured :
    (host : Host) (base : String) (os : List Target)
    → AreEnsured host base os (ensure_dirs host base os)
unfolding ensure_dirs go_on ensure_loop check_dirs
ensure_dirs-AreEnsured host base os =
    by (check_dirs host base os)
      (check_dirs-IsMet host base (record { made = []; left = [] }) os refl)
  where
    by :
        (f : Option DirError)
        → IsMet host base (IsExpected host base) (record { made = []; left = [] }) os f
        → AreEnsured host base os
            (go_on host base (record { made = []; left = [] }) f (ensure_loop host base os))
    by (some e) h = (tt, h)
    by none h =
        let (n, r, _) =
          ensure_loop-IsLooped host base os os (record { made = []; left = [] }) tt refl
            (members host base os os (λ o i. i) h) in
        (n, r)
