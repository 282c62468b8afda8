-- ===== src/Output/Dirs/Made.antt =====
-- os.MkdirAll as EnsureDirs of internal/output/write.go calls it.
use Prim.Native.Char.{code}
use node_box.Prelude.{
  String, ◌≡◌, ◌⊎◌, inl, inr, refl, ◌∙◌, subst, Bool, true, false, not, Option, none, some, List,
  [], ◌∷◌, ◌++◌, ◌==◌, ◌&&◌, if◌then◌else◌, All, In, All-append, In-append_left, In-append_right,
  has, has→In, eqb, Bool-cases,
}
use node_box.Build.Generate.{Target}
use node_box.Output.Target.{within}
use node_box.TextUtil.{concat}
use node_box.Subscription.Naming.Prefixed.{concat_assoc}
use node_box.Output.Dirs.{
  dir_of, steps, steps_from, Host, DirError, not_created, Created, Ensured, ensured, mkdir_step,
  mkdir_each, go_on,
}
use node_box.Output.Dirs.Expected.{IsNew, IsErrorOf}

In-steps_from : (done s : String) → In (concat done s) (steps_from done s)
unfolding steps_from concat
In-steps_from done String.[] = inl (concat_empty done)
  where
    concat_empty : (t : String) → concat t "" ≡ t
    concat_empty String.[] = refl
    concat_empty (String.◌∷◌ c t) = rw (concat_empty t) refl
In-steps_from done (String.◌∷◌ c s) =
    let later =
      subst (λ t. In t (steps_from (concat done (String.◌∷◌ c String.[])) s))
        (concat_assoc done (String.◌∷◌ c String.[]) s)
        (In-steps_from (concat done (String.◌∷◌ c String.[])) s) in
    elim (Bool-cases (eqb (code c) b'/' && not (done == ""))) [
      | inl e ↦ rw e (inr later)
      | inr e ↦ rw e later
    ]

-- The path itself is the last step of the way.
pub In-steps : (p : String) → In p (steps p)
unfolding steps concat
In-steps p = In-steps_from "" p

module _ (host : Host) (base : String) (os : List Target) (o : Target) where
  abbrev pub IsPresent : Created → String → Type 0
  IsPresent c p = (host.stat p ≡ some true) ⊎ In p c.made

  abbrev pub MadeBy : List String → Created → Option DirError → Type 0
  MadeBy ps c none = All (IsPresent c) ps
  MadeBy ps c (some e) = IsErrorOf host base c o e

  abbrev pub IsMade : List String → Created → Ensured → Type 0
  IsMade ps c r =
      All (IsNew host base os) r.created.made
      × ((d : String) → In d c.made → In d r.created.made)
      × (r.created.left ≡ c.left)
      × MadeBy ps r.created r.failed

  grown-IsPresent :
      (c m : Created) (p : String)
      → ((d : String) → In d c.made → In d m.made)
      → IsPresent c p
      → IsPresent m p
  grown-IsPresent c m p grows (inl f) = inl f
  grown-IsPresent c m p grows (inr i) = inr (grows p i)

  module _ (i : In o os) (w : within (dir_of o.path) base ≡ true) where
    mkdir_step-IsMade :
        (p : String) (c : Created) (s : Option Bool)
        → All (IsNew host base os) c.made
        → In p (steps (dir_of o.path))
        → host.stat p ≡ s
        → IsMade (p ∷ []) c (mkdir_step host base o.config.name (dir_of o.path) p c s)
    unfolding mkdir_step
    mkdir_step-IsMade p c (some true) news on f = (news, (λ d j. j), refl, (inl f, tt))
    mkdir_step-IsMade p c (some false) news on f =
        (news, (λ d j. j), refl, ((refl, refl), w, (p, on, inl f)))
    mkdir_step-IsMade p c none news on f = go (has p c.made) (host.makes_dir p) refl refl
      where
        go :
            (x y : Bool)
            → has p c.made ≡ x
            → host.makes_dir p ≡ y
            → IsMade (p ∷ []) c (
                if x
                then ensured c none
                else if y
                then ensured (record c { made = c.made ++ p ∷ [] }) none
                else ensured c (some (not_created o.config.name (dir_of o.path))))
        go true y a b = (news, (λ d j. j), refl, (inr (has→In p c.made a), tt))
        go false true a b = (
          All-append (IsNew host base os) c.made (p ∷ []) news ((f, (o, i, w, on)), tt),
          (λ d j. In-append_left d c.made (p ∷ []) j),
          refl,
          (inr (In-append_right p c.made (p ∷ []) (inl refl)), tt),
        )
        go false false a b = (news, (λ d j. j), refl, ((refl, refl), w, (p, on, inr b)))

    pub mkdir_each-IsMade :
        (ps : List String) (c : Created)
        → All (IsNew host base os) c.made
        → ((p : String) → In p ps → In p (steps (dir_of o.path)))
        → IsMade ps c (mkdir_each host base o.config.name (dir_of o.path) ps c)
    unfolding mkdir_each go_on mkdir_step
    mkdir_each-IsMade [] c news on = (news, (λ d j. j), refl, tt)
    mkdir_each-IsMade (p ∷ ps) c news on =
        let m = mkdir_step host base o.config.name (dir_of o.path) p c (host.stat p) in
        by m.created m.failed (mkdir_step-IsMade p c (host.stat p) news (on p (inl refl)) refl)
          (λ x n. mkdir_each-IsMade ps x n (λ q j. on q (inr j)))
      where
        by :
            (x : Created) (f : Option DirError)
            → IsMade (p ∷ []) c (ensured x f)
            → ((y : Created)
                → All (IsNew host base os) y.made
                → IsMade ps y (mkdir_each host base o.config.name (dir_of o.path) ps y))
            → IsMade
                (p ∷ ps)
                c
                (go_on host base x f (mkdir_each host base o.config.name (dir_of o.path) ps))
        by x (some e) (n, g, l, h) rest = (n, g, l, h)
        by x none (n, g, l, (h, _)) rest =
            let r = mkdir_each host base o.config.name (dir_of o.path) ps x in
            let (n', g', l', h') = rest x n in
            (
              n',
              (λ d j. g' d (g d j)),
              l' ∙ l,
              made (r.created) (r.failed) (grown-IsPresent x r.created p g' h) h',
            )
          where
            made :
                (y : Created) (f : Option DirError)
                → IsPresent y p
                → MadeBy ps y f
                → MadeBy (p ∷ ps) y f
            made y none a b = (a, b)
            made y (some e) a b = b
