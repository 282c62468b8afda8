-- ===== src/Prelude/Results.antt =====
-- Go functions that return an error: a value, or the first error. Loops over such functions.
use Prim.Native.Nat.{ℕ, suc}
use mathlib.Core.Path.{◌≡◌, refl}
use mathlib.Core.Logic.{◌↔◌}
use mathlib.Core.Bool.{Bool, true, false}
use mathlib.Core.List.{List, [], ◌∷◌}
use native.Mathlib.Omega.{arith}
use node_box.Prelude.Lists.{All}

pub data Result {ℓ} (E A : Type ℓ) : Type ℓ where
  ok : A → Result E A
  err : E → Result E A

infixl 5 ◌>>=◌ ◌>>◌
abbrev pub ◌>>=◌ {ℓ} : {E A B : Type ℓ} → Result E A → (A → Result E B) → Result E B
err failure >>= next = err failure
ok value >>= next = next value

abbrev pub ◌>>◌ {ℓ} : {E A B : Type ℓ} → Result E A → Result E B → Result E B
first >> second = first >>= λ _. second

pub ok_inj : {E A : Type 0} {x y : A} → Path (Result E A) (ok x) (ok y) → x ≡ y
ok_inj success = cc

-- `if b { return err }`
abbrev pub fail_if : {E : Type 0} → Bool → E → Result E (Unit {0})
fail_if true e = err e
fail_if false e = ok tt

-- `for _, a := range xs { if err := f(a); err != nil { return err } }`
abbrev pub for_each : {E A : Type 0} → (A → Result E (Unit {0})) → List A → Result E (Unit {0})
for_each f [] = ok tt
for_each f (x ∷ xs) = f x >> for_each f xs

-- The same with the index, counted from `i`.
abbrev pub for_each_at :
    {E A : Type 0} → (ℕ → A → Result E (Unit {0})) → ℕ → List A → Result E (Unit {0})
for_each_at f i [] = ok tt
for_each_at f i (x ∷ xs) = f i x >> for_each_at f (suc i) xs

-- A loop that carries a state and may stop with an error.
abbrev pub fold_each : {E S A : Type 0} → (S → A → Result E S) → S → List A → Result E S
fold_each f s [] = ok s
fold_each f s (x ∷ xs) = f s x >>= λ t. fold_each f t xs

-- A sequence that succeeds has a first part that does, with a value from which the rest goes on.
pub >>=-eq-ok :
    {E A B : Type 0} (first : Result E A) (next : A → Result E B) {result : B}
    → (first >>= next) ≡ ok result
    → (value : A) × (first ≡ ok value) × (next value ≡ ok result)
>>=-eq-ok (err failure) next success = cc
>>=-eq-ok (ok value) next success = (value, refl, success)

module _ {E : Type 0} where
  pub >>_iff : (m k : Result E (Unit {0})) → ((m >> k) ≡ ok tt) ↔ ((m ≡ ok tt) × (k ≡ ok tt))
  >>_iff (ok a) k = ground arith
  >>_iff (err e) k = ground arith

  pub >>_pair :
      {P Q : Type 0} (m k : Result E (Unit {0}))
      → (m ≡ ok tt) ↔ P
      → (k ≡ ok tt) ↔ Q
      → ((m >> k) ≡ ok tt) ↔ (P × Q)
  >>_pair m k p q =
      (λ h. let (a, b) = (>>_iff m k).0 h in (p.0 a, q.0 b), λ h. (>>_iff m k).1 (p.1 h.0, q.1 h.1))

  module _ {A : Type 0} (P : A → Type 0) where
    pub for_each_iff :
        (f : A → Result E (Unit {0})) (xs : List A)
        → ((a : A) → (f a ≡ ok tt) ↔ P a)
        → (for_each f xs ≡ ok tt) ↔ All P xs
    for_each_iff f [] h = (λ _. tt, λ _. refl)
    for_each_iff f (x ∷ xs) h = >>_pair (f x) (for_each f xs) (h x) (for_each_iff f xs h)

    pub for_each_at_iff :
        (f : ℕ → A → Result E (Unit {0})) (i : ℕ) (xs : List A)
        → ((i : ℕ) (a : A) → (f i a ≡ ok tt) ↔ P a)
        → (for_each_at f i xs ≡ ok tt) ↔ All P xs
    for_each_at_iff f i [] h = (λ _. tt, λ _. refl)
    for_each_at_iff f i (x ∷ xs) h =
        >>_pair (f i x) (for_each_at f (suc i) xs) (h i x) (for_each_at_iff f (suc i) xs h)

pub fail_if_iff : {E : Type 0} (b : Bool) (e : E) → (fail_if b e ≡ ok tt) ↔ (b ≡ false)
fail_if_iff true e = ground arith
fail_if_iff false e = ground arith
