-- ===== src/Model/Bootstrap/Defaults.antt =====
-- LoadBootstrap of internal/model/bootstrap.go: what a loaded configuration can be relied on for.
use node_box.Prelude.{
  String, ◌≡◌, ◌≢◌, ◌⊎◌, inl, inr, refl, sym, subst, Bool, true, false, not, ◌&&◌, Option, none,
  some, arith, ◌==◌, eq_iff, if◌then◌else◌, eq_false→ne, ne→eq_false, ok,
}
use node_box.Model.Bootstrap.{
  Bootstrap, SourceConfig, default_root, source_defaults, apply_defaults, load, or_default, on_some,
}
use node_box.Model.Bootstrap.Checks.{IsPositive}
use node_box.Model.Bootstrap.Valid.{load_iff, IsBootstrap, HasSource}
use node_box.Output.Target.{is_abs, clean, join}
use node_box.TextUtil.{concat, has_prefix}

is_abs-concat : (p q : String) → is_abs p ≡ true → is_abs (concat p q) ≡ true
unfolding is_abs has_prefix concat
is_abs-concat String.[] q h = cc
is_abs-concat (String.◌∷◌ c p) q h = ground arith

if-IsAbs :
    (b : Bool) (p q : String)
    → (b ≡ true → is_abs p ≡ true)
    → (b ≡ false → is_abs q ≡ true)
    → is_abs (if b then p else q) ≡ true
if-IsAbs true p q h k = h refl
if-IsAbs false p q h k = k refl

is_abs-clean : (p : String) → is_abs p ≡ true → is_abs (clean p) ≡ true
unfolding clean
is_abs-clean p h = rw h (is_abs-concat "/" _ refl)

is_abs_nonempty : (p : String) → is_abs p ≡ true → (p == "") ≡ false
unfolding is_abs has_prefix
is_abs_nonempty String.[] h = cc
is_abs_nonempty (String.◌∷◌ c p) h = ne→eq_false (String.◌∷◌ c p) "" (λ e. cc)

is_abs-join : (p q : String) → is_abs p ≡ true → is_abs (join p q) ≡ true
unfolding join
is_abs-join p q h = rw (is_abs_nonempty p h) (
    if-IsAbs (q == "") (clean p) (clean (concat p (concat "/" q))) (λ _. is_abs-clean p h)
      (λ _. is_abs-clean (concat p (concat "/" q)) (is_abs-concat p (concat "/" q) h)))

is_abs-default_root :
    (base root : String) → is_abs base ≡ true → is_abs (default_root base root) ≡ true
unfolding default_root
is_abs-default_root base root h =
    is_abs-clean (if root == "" then base else if is_abs root then root else join base root) (
      if-IsAbs (root == "") base (if is_abs root then root else join base root) (λ _. h)
        (λ _. if-IsAbs (is_abs root) root (join base root) (λ e. e) (λ _. is_abs-join base root h)))

-- Paths are absolute, and nothing that a default fills is left out.
abbrev pub HasDir : Option SourceConfig → Type 0
HasDir none = ⊥
HasDir (some s) = ((s.dir ≡ "") ⊎ (is_abs s.dir ≡ true)) × (s.branch ≢ "")

abbrev pub IsComplete : Bootstrap → Type 0
IsComplete b =
    (is_abs b.root ≡ true) × (b.log_level ≢ "") × IsPositive b.update_timeout × HasDir b.source

or_default_ne : (s fallback : String) → fallback ≢ "" → or_default s fallback ≢ ""
or_default_ne s fallback h = go (s == "") refl
  where
    go : (b : Bool) → (s == "") ≡ b → (if b then fallback else s) ≢ ""
    go true e = h
    go false e = eq_false→ne s "" e

source_defaults-HasDir :
    (base : String) (s : SourceConfig) → is_abs base ≡ true → HasDir (some (source_defaults base s))
unfolding source_defaults
source_defaults-HasDir base s h =
    (go (s.dir == "") (is_abs s.dir) refl refl, or_default_ne s.branch "main" (λ e. cc))
  where
    go :
        (a b : Bool)
        → (s.dir == "") ≡ a
        → is_abs s.dir ≡ b
        → ((if not a && not b then join base s.dir else s.dir) ≡ "")
          ⊎ (is_abs (if not a && not b then join base s.dir else s.dir) ≡ true)
    go true b e f = inl ((eq_iff s.dir "").0 e)
    go false true e f = inr f
    go false false e f = inr (is_abs-join base s.dir h)

has_dir :
    (base : String) (o : Option SourceConfig)
    → is_abs base ≡ true
    → HasSource (on_some (source_defaults base) o)
    → HasDir (on_some (source_defaults base) o)
has_dir base none h v = v
has_dir base (some s) h v = source_defaults-HasDir base s h

complete :
    (base : String) (b : Bootstrap)
    → is_abs base ≡ true
    → IsBootstrap (apply_defaults base b)
    → IsComplete (apply_defaults base b)
unfolding apply_defaults
complete base b h (s, (_, (_, t))) = (
  is_abs-default_root base b.root h,
  or_default_ne b.log_level "info" (λ e. cc),
  t,
  has_dir base b.source h s,
)

-- A file loaded from an absolute directory has an absolute root, a log level, a positive update
-- timeout, and a source with a branch and with a directory that is absolute or empty.
pub load-IsComplete :
    (base_dir : String) (b c : Bootstrap)
    → is_abs base_dir ≡ true
    → load base_dir b ≡ ok c
    → IsComplete c
load-IsComplete base_dir b c h e =
    let (same, _, v) = (load_iff base_dir b c).0 e in
    subst IsComplete (sym same) (complete base_dir b h (subst IsBootstrap same v))
