-- ===== src/Source/Snapshot/Modules.antt =====
-- LoadModules of internal/source/snapshot.go: what it returns.
use node_box.Prelude.{
  String, ◌≡◌, ◌⊎◌, ◌∙◌, refl, sym, subst, inl, inr, some, List, [], ◌∷◌, map, arith, ◌==◌, eq_iff,
  Bool-cases, Result, ok, err, ◌>>=◌, In, has, Names, IsDistinct, Dict, lookup, insert,
  lookup-insert, has→In, has_false→not,
}
use node_box.Model.{Config, Module}
use node_box.Source.Snapshot.{
  Load, LoadError, not_loaded, add_loaded, load_each, load_modules, used_modules,
}

abbrev pub names : List Module → Names
names ms = map (λ (m : Module). m.name) ms

lookup-insert_self : (k text : String) (d : Dict String) → lookup k (insert k text d) ≡ some text
lookup-insert_self k text d = ground (arith, lookup-insert k k text d, eq_iff k k)

lookup-insert_other :
    (k j text : String) (d : Dict String) → (¬ k ≡ j) → lookup j (insert k text d) ≡ lookup j d
lookup-insert_other k j text d n = ground (arith, lookup-insert k j text d, eq_iff k j)

module _ (load : Load) (used : Names) where
  -- The entry for `k` is what the load of a used module of that name gave.
  abbrev pub IsFrom : List Module → String → String → Type 0
  IsFrom ms k text = (m : Module) × In m ms × (m.name ≡ k) × In k used × (load m ≡ ok text)

  -- What the loop makes of `out`, over the modules `ms`.
  abbrev pub IsLoadedFrom : Dict String → List Module → Result LoadError (Dict String) → Type 0
  IsLoadedFrom out ms (ok after) =
      ((m : Module)
        → In m ms
        → In m.name used
        → (text : String) × (load m ≡ ok text) × (lookup m.name after ≡ some text))
      × ((k text : String)
          → lookup k after ≡ some text
          → (lookup k out ≡ some text) ⊎ IsFrom ms k text)
      × ((k : String) → (¬ In k (names ms)) → lookup k after ≡ lookup k out)
  IsLoadedFrom out ms (err (not_loaded name message)) =
      (m : Module) × In m ms × (m.name ≡ name) × In name used × (load m ≡ err message)

  -- A module that is passed over.
  skipped :
      (out : Dict String) (m : Module) (ms : List Module) (r : Result LoadError (Dict String))
      → (¬ In m.name used)
      → IsLoadedFrom out ms r
      → IsLoadedFrom out (m ∷ ms) r
  skipped out m ms (ok after) n (a, b, c) = (
    (λ x i u. elim i [
      | inl e ↦ absurd (n (subst (λ (y : Module). In y.name used) e u))
      | inr j ↦ a x j u
    ]),
    (λ k text l. elim (b k text l) [
      | inl h ↦ inl h
      | inr (x, i, e, v, l) ↦ inr (x, inr i, e, v, l)
    ]),
    (λ k h. c k (λ i. h (inr i))),
  )
  skipped out m ms (err (not_loaded name message)) n (x, i, e, v, l) = (x, inr i, e, v, l)

  -- A module that is loaded, as the first of several with distinct names.
  added :
      (out : Dict String) (m : Module) (ms : List Module) (text : String)
      (r : Result LoadError (Dict String))
      → In m.name used
      → load m ≡ ok text
      → (¬ In m.name (names ms))
      → IsLoadedFrom (insert m.name text out) ms r
      → IsLoadedFrom out (m ∷ ms) r
  added out m ms text (ok after) u l new (a, b, c) = (
    (λ x i v. elim i [
      | inl e ↦
          let found : lookup m.name after ≡ some text =
            c m.name new ∙ lookup-insert_self m.name text out in
          subst (λ (y : Module). (t : String) × (load y ≡ ok t) × (lookup y.name after ≡ some t))
            (sym e) (text, l, found)
      | inr j ↦ a x j v
    ]),
    (λ k t q. elim (b k t q) [
      | inr (x, i, e, v, l) ↦ inr (x, inr i, e, v, l)
      | inl h ↦ elim (Bool-cases (m.name == k)) [
        | inl e ↦
            let same : m.name ≡ k = (eq_iff m.name k).0 e in
            let t' : text ≡ t = ground (arith, lookup-insert m.name k text out) in
            inr (m, inl refl, same, subst (λ z. In z used) same u, subst (λ z. load m ≡ ok z) t' l)
        | inr e ↦ inl (ground (arith, lookup-insert m.name k text out))
      ]
    ]),
    (λ k h. c k (λ i. h (inr i)) ∙ lookup-insert_other m.name k text out (λ e. h (inl (sym e)))),
  )
  added out m ms text (err (not_loaded name message)) u l new (x, i, e, v, q) = (x, inr i, e, v, q)

  continue :
      (out : Dict String) (m : Module) (ms : List Module) (r : Result String String)
      → load m ≡ r
      → In m.name used
      → (¬ In m.name (names ms))
      → ((next : Dict String) → IsLoadedFrom next ms (load_each load used next ms))
      → IsLoadedFrom out (m ∷ ms) (add_loaded m out r >>= λ next. load_each load used next ms)
  unfolding add_loaded
  continue out m ms (err message) q u n ih = (m, inl refl, refl, u, q)
  continue out m ms (ok text) q u n ih = added out m ms text _ u q n (ih (insert m.name text out))

  load_each-IsLoadedFrom :
      (out : Dict String) (ms : List Module)
      → IsDistinct (names ms)
      → IsLoadedFrom out ms (load_each load used out ms)
  unfolding load_each
  load_each-IsLoadedFrom out [] d = ((λ x i u. absurd i), (λ k t q. inl q), (λ k h. refl))
  load_each-IsLoadedFrom out (m ∷ ms) d = elim (Bool-cases (has m.name used)) [
    | inr e ↦ rw e (
        skipped out m ms (load_each load used out ms) (has_false→not m.name used e)
          (load_each-IsLoadedFrom out ms d.1))
    | inl e ↦ rw e (
        continue out m ms (load m) refl (has→In m.name used e) d.0
          (λ next. load_each-IsLoadedFrom next ms d.1))
  ]

-- What LoadModules returns, with `used` the names that some output lists: each used module's
-- content under its name and nothing else, or the message of a used module's load.
abbrev pub IsLoaded : Load → Config → Result LoadError (Dict String) → Type 0
IsLoaded load c (ok out) =
    ((m : Module)
      → In m c.modules
      → In m.name (used_modules c.configs)
      → (text : String) × (load m ≡ ok text) × (lookup m.name out ≡ some text))
    × ((k text : String)
        → lookup k out ≡ some text
        → IsFrom load (used_modules c.configs) c.modules k text)
IsLoaded load c (err (not_loaded name message)) =
    (m : Module) × In m c.modules
    × (m.name ≡ name)
    × In name (used_modules c.configs)
    × (load m ≡ err message)

load_each-IsLoaded :
    (load : Load) (c : Config) (r : Result LoadError (Dict String))
    → IsLoadedFrom load (used_modules c.configs) [] c.modules r
    → IsLoaded load c r
unfolding lookup
load_each-IsLoaded load c (ok out) (a, b, z) =
    (a, λ k t q. elim (b k t q) [ inl h ↦ cc | inr f ↦ f ])
load_each-IsLoaded load c (err (not_loaded name message)) x = x

-- Where the modules have distinct names, LoadModules returns the content of every module that some
-- output lists, and of no other; or the failure of such a module, so that a module that no output
-- lists cannot fail the run.
pub load_modules-IsLoaded :
    (load : Load) (c : Config)
    → IsDistinct (names c.modules)
    → IsLoaded load c (load_modules load c)
unfolding load_modules
load_modules-IsLoaded load c d =
    load_each-IsLoaded load c _
      (load_each-IsLoadedFrom load (used_modules c.configs) [] c.modules d)
