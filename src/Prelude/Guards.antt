-- ===== src/Prelude/Guards.antt =====
-- What it means that a guard lets pass.
use Prim.Native.String.{String}
use mathlib.Core.Path.{◌≡◌, refl}
use mathlib.Core.Logic.{◌≢◌, ◌↔◌}
use mathlib.Core.Bool.{Bool, true, false, not}
use mathlib.Core.List.{List, [], ◌∷◌}
use text.Mathlib.Text.{◌==◌}
use node_box.Prelude.Tests.{eq_false→ne, ne→eq_false}
use node_box.Prelude.Lists.{is_nil, In}
use node_box.Prelude.Results.{ok, fail_if, fail_if_iff}
use node_box.Prelude.Keys.{Names, has, has→In, In→has}

module _ {E : Type 0} where
  pub fail_not_iff : (b : Bool) (e : E) → (fail_if (not b) e ≡ ok tt) ↔ (b ≡ true)
  fail_not_iff true e = (λ _. refl, λ _. refl)
  fail_not_iff false e = (λ h. cc, λ h. cc)

  pub fail_empty_iff : (s : String) (e : E) → (fail_if (s == "") e ≡ ok tt) ↔ (s ≢ "")
  fail_empty_iff s e =
      (λ h. eq_false→ne s "" ((fail_if_iff _ e).0 h), λ h. (fail_if_iff _ e).1 (ne→eq_false s "" h))

  pub fail_nil_iff :
      {A : Type 0} (xs : List A) (e : E) → (fail_if (is_nil xs) e ≡ ok tt) ↔ (xs ≢ [])
  fail_nil_iff [] e = (λ h. cc, λ h. absurd (h refl))
  fail_nil_iff (x ∷ xs) e = (λ _ q. cc, λ _. refl)

  pub fail_unknown_iff :
      (k : String) (known : Names) (e : E) → (fail_if (not (has k known)) e ≡ ok tt) ↔ In k known
  fail_unknown_iff k known e =
      (λ h. has→In k known ((fail_not_iff _ e).0 h), λ h. (fail_not_iff _ e).1 (In→has k known h))
