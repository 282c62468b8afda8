-- ===== src/TextUtil/Replace/Cut.antt =====
-- strings.Index of Go, as the texts around an occurrence: the first one, where there is one.
use Prim.Native.Char.{Char, code}
use text.Mathlib.TextEquality.{Char-path}
use node_box.Prelude.{
  ℕ, suc, ◌≤◌, String, ◌≡◌, ◌↔◌, refl, ap, sym, subst, ◌∙◌, true, Option, none, some, arith, eqb,
  Bool-cases, inl, inr,
}
use node_box.TextUtil.{concat}
use node_box.TextUtil.Replace.{size, cut, cut_prefix, cut_here, move_cut}

code_eq : (c d : Char) → eqb (code c) (code d) ≡ true → c ≡ d
code_eq c d h = Char-path c d (ground arith)

eqb_self : (c : Char) → eqb (code c) (code c) ≡ true
eqb_self c = ground arith

pub cut_prefix-eq : (s t rest : String) → cut_prefix s t ≡ some rest → s ≡ concat t rest
unfolding cut_prefix concat
cut_prefix-eq s String.[] rest h = cc
cut_prefix-eq String.[] (String.◌∷◌ d t) rest h = cc
cut_prefix-eq (String.◌∷◌ c s) (String.◌∷◌ d t) rest h = elim (Bool-cases (eqb (code c) (code d))) [
  | inl same ↦ let e = cut_prefix-eq s t rest (rw same at h) in cc (code_eq c d same, e)
  | inr differ ↦ let e : none ≡ some rest = rw differ at h in cc
]

pub cut_prefix-concat : (t rest : String) → cut_prefix (concat t rest) t ≡ some rest
unfolding cut_prefix concat
cut_prefix-concat String.[] rest = refl
cut_prefix-concat (String.◌∷◌ d t) rest = rw (eqb_self d) (cut_prefix-concat t rest)

-- The texts stand around an occurrence.
abbrev pub IsCut : String → String → String → String → Type 0
IsCut s t before after = s ≡ concat before (concat t after)

pub some_inj : {A : Type 0} {x y : A} → some x ≡ some y → x ≡ y
some_inj h = cc

cut_here-IsCut :
    (s t before after : String) (here : Option String) (later : Option (String × String))
    → cut_prefix s t ≡ here
    → cut_here here later ≡ some (before, after)
    → (later ≡ some (before, after) → IsCut s t before after)
    → IsCut s t before after
unfolding concat
cut_here-IsCut s t before after none later e h rest = rest h
cut_here-IsCut s t before after (some r) later e h rest =
    let p = cut_prefix-eq s t r e in subst (λ y. s ≡ concat y.0 (concat t y.1)) (some_inj h) p

move_cut-IsCut :
    (c : Char) (s t before after : String) (later : Option (String × String))
    → move_cut c later ≡ some (before, after)
    → ((b a : String) → later ≡ some (b, a) → IsCut s t b a)
    → IsCut (String.◌∷◌ c s) t before after
unfolding concat
move_cut-IsCut c s t before after none h rest = cc
move_cut-IsCut c s t before after (some (b, a)) h rest =
    subst (λ y. String.◌∷◌ c s ≡ concat y.0 (concat t y.1)) (some_inj h)
      (ap (String.◌∷◌ c) (rest b a refl))

pub cut-IsCut :
    (s t before after : String) → cut s t ≡ some (before, after) → IsCut s t before after
unfolding cut
cut-IsCut String.[] t before after h =
    cut_here-IsCut "" t before after (cut_prefix "" t) none refl h (λ q. cc)
cut-IsCut (String.◌∷◌ c s) t before after h =
    cut_here-IsCut (String.◌∷◌ c s) t before after (cut_prefix (String.◌∷◌ c s) t)
      (move_cut c (cut s t)) refl h
      (λ q. move_cut-IsCut c s t before after (cut s t) q (cut-IsCut s t))

-- A cut of the text exists, and no longer a text stands before it.
abbrev CutsBy : Option (String × String) → ℕ → Type 0
CutsBy o n = (b : String) × (a : String) × (o ≡ some (b, a)) × (size b ≤ n)

cut_here-CutsBy :
    (here : Option String) (later : Option (String × String)) (n : ℕ)
    → (here ≡ none → CutsBy later n)
    → CutsBy (cut_here here later) n
unfolding size
cut_here-CutsBy none later n h = h refl
cut_here-CutsBy (some r) later n h = ("", r, refl, omega arith)

move_cut-CutsBy :
    (c : Char) (later : Option (String × String)) (n : ℕ)
    → CutsBy later n
    → CutsBy (move_cut c later) (suc n)
unfolding size
move_cut-CutsBy c later n (b, a, e, le) = (String.◌∷◌ c b, a, rw e refl, omega (arith, le))

cut_prefix-now : (s t after : String) → s ≡ concat t after → ¬ cut_prefix s t ≡ none
cut_prefix-now s t after e q = cc (ap (λ y. cut_prefix y t) e, cut_prefix-concat t after)

pub cut_first :
    (s t before after : String) → IsCut s t before after → CutsBy (cut s t) (size before)
unfolding cut concat size
cut_first String.[] t String.[] after e =
    cut_here-CutsBy (cut_prefix "" t) none 0 (λ q. absurd (cut_prefix-now "" t after e q))
cut_first (String.◌∷◌ c s) t String.[] after e =
    cut_here-CutsBy (cut_prefix (String.◌∷◌ c s) t) (move_cut c (cut s t)) 0
      (λ q. absurd (cut_prefix-now (String.◌∷◌ c s) t after e q))
cut_first String.[] t (String.◌∷◌ d b) after e = cc
cut_first (String.◌∷◌ c s) t (String.◌∷◌ d b) after e =
    cut_here-CutsBy (cut_prefix (String.◌∷◌ c s) t) (move_cut c (cut s t)) (suc (size b))
      (λ _. move_cut-CutsBy c (cut s t) (size b) (cut_first s t b after cc))

concat_cancel : (t a b : String) → concat t a ≡ concat t b → a ≡ b
unfolding concat
concat_cancel String.[] a b e = e
concat_cancel (String.◌∷◌ c t) a b e = concat_cancel t a b cc

-- Cuts after equally many runes are the same.
cut_unique :
    (s t b a c d : String) → IsCut s t b a → IsCut s t c d → size b ≡ size c → (b ≡ c) × (a ≡ d)
unfolding concat size
cut_unique s t String.[] a String.[] d p q e = (refl, concat_cancel t a d (sym p ∙ q))
cut_unique s t String.[] a (String.◌∷◌ y c) d p q e = absurd (omega (arith, e))
cut_unique s t (String.◌∷◌ x b) a String.[] d p q e = absurd (omega (arith, e))
cut_unique String.[] t (String.◌∷◌ x b) a (String.◌∷◌ y c) d p q e = cc
cut_unique (String.◌∷◌ z s) t (String.◌∷◌ x b) a (String.◌∷◌ y c) d p q e =
    let (u, v) = cut_unique s t b a c d (cc) (cc) (omega (arith, e)) in
    let whole : String.◌∷◌ x b ≡ String.◌∷◌ y c = cc in (whole, v)

abbrev pub IsFirstCut : String → String → String → String → Type 0
IsFirstCut s t before after =
    IsCut s t before after × ((b a : String) → IsCut s t b a → size before ≤ size b)

-- The result of strings.Index.
pub cut_iff :
    (s t before after : String) → (cut s t ≡ some (before, after)) ↔ IsFirstCut s t before after
cut_iff s t before after = (
  λ h. (
    cut-IsCut s t before after h,
    λ b a q.
        let (c, d, e, le) = cut_first s t b a q in
        subst (λ y. size y.0 ≤ size b) (some_inj (sym e ∙ h)) le,
  ),
  λ (p, least).
      let (c, d, e, le) = cut_first s t before after p in
      let q = cut-IsCut s t c d e in
      let (u, v) = cut_unique s t before after c d p q (omega (arith, least c d q, le)) in cc,
)
