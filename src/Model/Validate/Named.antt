-- ===== src/Model/Validate/Named.antt =====
-- The loop over named entries that the validators of internal/model/config.go share, against lists
-- whose names are set and distinct.
use node_box.Prelude.{
  ℕ, suc, String, ◌≡◌, ◌≢◌, ◌↔◌, refl, sym, ap, subst, inl, inr, false, Option, none, some, List,
  [], ◌∷◌, map, arith, ◌==◌, Bool-cases, if◌then◌else◌, ok, >>_iff, fail_if_iff, All, In, In-map,
  In-map_inv, IsDistinct, Dict, lookup, insert, lookup-insert, eq_false→ne, ne→eq_false,
}
use node_box.Model.Validate.{Section, empty_name, Check, not_seen, named_loop}

-- Each entry has a name, no two have the same, and each satisfies `P`.
pub record IsNamed {A : Type 0} (name : A → String) (P : A → Type 0) (xs : List A) : Type 0 where
  pub named : All (λ x. name x ≢ "") xs
  pub distinct : IsDistinct (map name xs)
  pub each : All P xs

not_seen_iff :
    (s : Section) (i : ℕ) (k : String) (o : Option ℕ) → (not_seen s i k o ≡ ok tt) ↔ (o ≡ none)
unfolding not_seen
not_seen_iff s i k none = (λ _. refl, λ _. refl)
not_seen_iff s i k (some p) = (λ h. cc, λ h. cc)

module _ {A : Type 0} (section : Section) (name : A → String) (P : A → Type 0)
    (body : ℕ → A → Check) (exact : (i : ℕ) (x : A) → (body i x ≡ ok tt) ↔ P x) where
  -- No name of the list is in the map yet.
  abbrev IsNew : Dict ℕ → List A → Type 0
  IsNew seen xs = (x : A) → In x xs → lookup (name x) seen ≡ none

  after_insert :
      (k j : String) (i : ℕ) (seen : Dict ℕ)
      → lookup j (insert k i seen) ≡ none
      → ((k == j) ≡ false) × (lookup j seen ≡ none)
  after_insert k j i seen h = elim (Bool-cases (k == j)) [
    | inl e ↦ cc (lookup-insert k j i seen, (ap (λ b. if b then some i else lookup j seen) e), h)
    | inr e ↦ (e, ground (arith, lookup-insert k j i seen))
  ]

  loop→ :
      (i : ℕ) (seen : Dict ℕ) (xs : List A)
      → named_loop section name body i seen xs ≡ ok tt
      → IsNamed name P xs × IsNew seen xs
  unfolding named_loop
  loop→ i seen [] h = (record { named = tt; distinct = tt; each = tt }, λ x j. absurd j)
  loop→ i seen (x ∷ xs) h =
      let (a, h1) = (>>_iff _ _).0 h in
      let (b, h2) = (>>_iff _ _).0 h1 in
      let (c, rest) = (>>_iff _ _).0 h2 in
      let (v, new) = loop→ (suc i) (insert (name x) i seen) xs rest in
      (
        record {
          named = (eq_false→ne (name x) "" ((fail_if_iff _ (empty_name section i)).0 a), v.named);
          distinct = (
            λ j.
                let (y, k, e) = In-map_inv name (name x) xs j in
                eq_false→ne (name x) (name y) (after_insert (name x) (name y) i seen (new y k)).0 e,
            v.distinct,
          );
          each = ((exact i x).0 c, v.each);
        },
        λ y j. elim j [
          | inl e ↦
              subst (λ z. lookup (name z) seen ≡ none) (sym e)
                ((not_seen_iff section i (name x) _).0 b)
          | inr k ↦ (after_insert (name x) (name y) i seen (new y k)).1
        ],
      )

  →loop :
      (i : ℕ) (seen : Dict ℕ) (xs : List A)
      → IsNamed name P xs
      → IsNew seen xs
      → named_loop section name body i seen xs ≡ ok tt
  unfolding named_loop
  →loop i seen [] v new = refl
  →loop i seen (x ∷ xs) v new =
      let rest =
        →loop (suc i) (insert (name x) i seen) xs
          (record { named = v.named.1; distinct = v.distinct.1; each = v.each.1 })
          (λ y j.
            rw
              (
                lookup-insert,
                ne→eq_false (name x) (name y) (λ e.
                    v.distinct.0 (subst (λ z. In z (map name xs)) (sym e) (In-map name y xs j))),
              )
              (new y (inr j))) in
      (>>_iff _ _).1 (
        (fail_if_iff _ (empty_name section i)).1 (ne→eq_false (name x) "" v.named.0),
        (>>_iff _ _).1 (
          (not_seen_iff section i (name x) _).1 (new x (inl refl)),
          (>>_iff _ _).1 ((exact i x).1 v.each.0, rest),
        ),
      )

  pub named_loop_iff :
      (xs : List A) → (named_loop section name body 0 [] xs ≡ ok tt) ↔ IsNamed name P xs
  unfolding lookup
  named_loop_iff xs = (λ h. (loop→ 0 [] xs h).0, λ v. →loop 0 [] xs v (λ x j. refl))
