-- ===== src/Output/Target/Destinations.antt =====
-- Resolve of internal/output/target.go: the destinations that it returns.
use node_box.Prelude.{
  String, ◌≡◌, ◌⊎◌, refl, ap, sym, subst, inl, inr, false, none, some, List, [], ◌∷◌, map,
  Bool-cases, Option-cases, Result, ok, err, ◌>>=◌, In, Names, IsDistinct, Dict, lookup, insert,
  lookup-insert-none, lookup-insert-some, In-map_inv, ◌∙◌,
}
use node_box.Model.{Config, ConfigFile}
use node_box.Build.Generate.{Target}
use node_box.Output.Target.{
  TargetError, same_path, inside_snapshots, destination, within, join, resolve_one, resolve_loop,
  resolve, base_dir, snapshots_dir,
}
use node_box.Output.Target.Under.{
  IsUnder, within_iff, within-false, placed_at, destination-placed_at, base_of, base_dir-base_of,
}

abbrev pub paths : List Target → Names
paths ts = map (λ (t : Target). t.path) ts

module _ (base snapshots : String) where
  -- One target for each output, in order, at its destination.
  abbrev pub AreTargets : List ConfigFile → List Target → Type 0
  AreTargets [] [] = Unit
  AreTargets (cf ∷ cfs) (t ∷ ts) =
      ((t.config ≡ cf) × (t.path ≡ placed_at base cf.path) × (¬ IsUnder t.path snapshots))
      × AreTargets cfs ts
  AreTargets [] (_ ∷ _) = ⊥
  AreTargets (_ ∷ _) [] = ⊥

  -- An output that is written at `p`.
  abbrev pub IsWriter : List ConfigFile → String → String → Type 0
  IsWriter cfs name p =
      (cf : ConfigFile) × In cf cfs × (cf.name ≡ name) × (placed_at base cf.path ≡ p)

  -- What the loop returns where `seen` maps destinations to names.
  abbrev pub IsPlacedFrom :
      Dict String → List ConfigFile → Result TargetError (List Target) → Type 0
  IsPlacedFrom seen cfs (ok ts) =
      AreTargets cfs ts
      × IsDistinct (paths ts)
      × ((t : Target) → In t ts → lookup t.path seen ≡ none)
  IsPlacedFrom seen cfs (err (same_path prev name p)) =
      IsWriter cfs name p × ((lookup p seen ≡ some prev) ⊎ IsWriter cfs prev p)
  IsPlacedFrom seen cfs (err (inside_snapshots name p)) = IsWriter cfs name p × IsUnder p snapshots

  later-IsWriter :
      (cf : ConfigFile) (cfs : List ConfigFile) (name p : String)
      → IsWriter cfs name p
      → IsWriter (cf ∷ cfs) name p
  later-IsWriter cf cfs name p (x, i, a, b) = (x, inr i, a, b)

  placed_after :
      (seen : Dict String) (cf : ConfigFile) (cfs : List ConfigFile) (t : Target)
      (r : Result TargetError (List Target))
      → t.config ≡ cf
      → t.path ≡ destination base cf.path
      → within t.path snapshots ≡ false
      → lookup (destination base cf.path) seen ≡ none
      → IsPlacedFrom (insert (destination base cf.path) cf.name seen) cfs r
      → IsPlacedFrom seen (cf ∷ cfs) (r >>= λ ts. ok (t ∷ ts))
  placed_after seen cf cfs t (ok ts) e q w new (a, d, s) =
      let D = destination base cf.path in
      let apart = λ (u : Target) (i : In u ts). lookup-insert-none D u.path cf.name seen (s u i) in
      (
        ((e, q ∙ destination-placed_at base cf.path, within-false t.path snapshots w), a),
        (
          (λ i.
              let (u, j, h) = In-map_inv (λ (t : Target). t.path) t.path ts i in
              (apart u j).0 (sym q ∙ h)),
          d,
        ),
        λ u i. elim i [
          | inl same ↦
              subst (λ x. lookup x seen ≡ none) (sym (ap (λ (t : Target). t.path) same ∙ q)) new
          | inr j ↦ (apart u j).1
        ],
      )
  placed_after seen cf cfs t (err (same_path prev name p)) e q w new (x, y) = (
    later-IsWriter cf cfs name p x,
    elim y [
      | inr z ↦ inr (later-IsWriter cf cfs prev p z)
      | inl h ↦ elim (lookup-insert-some (destination base cf.path) p cf.name prev seen h) [
        | inl (same, n) ↦ inr (cf, inl refl, n, sym (destination-placed_at base cf.path) ∙ same)
        | inr l ↦ inl l
      ]
    ],
  )
  placed_after seen cf cfs t (err (inside_snapshots name p)) e q w new (x, y) =
      (later-IsWriter cf cfs name p x, y)

  resolve_loop-IsPlacedFrom :
      (seen : Dict String) (cfs : List ConfigFile)
      → IsPlacedFrom seen cfs (resolve_loop base snapshots seen cfs)
  unfolding resolve_loop resolve_one
  resolve_loop-IsPlacedFrom seen [] = (tt, tt, λ t i. absurd i)
  resolve_loop-IsPlacedFrom seen (cf ∷ cfs) =
      elim (Option-cases (lookup (destination base cf.path) seen)) [
        | inr (prev, l) ↦
            rw l ((cf, inl refl, refl, sym (destination-placed_at base cf.path)), inl l)
        | inl l ↦ elim (Bool-cases (within (destination base cf.path) snapshots)) [
          | inl w ↦
              rw (l, w)
                (
                  (cf, inl refl, refl, sym (destination-placed_at base cf.path)),
                  (within_iff _ snapshots).0 w,
                )
          | inr w ↦
              rw (l, w)
                (placed_after seen cf cfs (record { config = cf; path = destination base cf.path })
                  _ refl refl w l
                  (resolve_loop-IsPlacedFrom (insert (destination base cf.path) cf.name seen) cfs))
        ]
      ]

module _ (base snapshots : String) (cfs : List ConfigFile) where
  abbrev pub IsResolvedIn : Result TargetError (List Target) → Type 0
  IsResolvedIn (ok ts) = AreTargets base snapshots cfs ts × IsDistinct (paths ts)
  IsResolvedIn (err (same_path prev name p)) =
      IsWriter base snapshots cfs prev p × IsWriter base snapshots cfs name p
  IsResolvedIn (err (inside_snapshots name p)) =
      IsWriter base snapshots cfs name p × IsUnder p snapshots

  resolved :
      (r : Result TargetError (List Target)) → IsPlacedFrom base snapshots [] cfs r → IsResolvedIn r
  unfolding lookup
  resolved (ok ts) (a, d, s) = (a, d)
  resolved (err (inside_snapshots name p)) x = x
  resolved (err (same_path prev name p)) (x, y) = elim y [ inl h ↦ cc | inr z ↦ (z, x) ]

-- What Resolve returns: one target for each output, at distinct paths outside the snapshots; or two
-- outputs, or the same one twice, that share a path; or an output inside the snapshots.
abbrev pub IsResolved : String → Config → Result TargetError (List Target) → Type 0
IsResolved root c r = IsResolvedIn (base_of root c.output) (join root "snapshots") c.configs r

-- Resolve gives each output, in order, its destination: distinct paths, none of them inside the
-- snapshots. It fails only for a path that two entries are written to, or for one inside the
-- snapshots, and names the entries.
pub resolve-IsResolved : (root : String) (c : Config) → IsResolved root c (resolve root c)
unfolding resolve snapshots_dir
resolve-IsResolved root c =
    subst (λ b. IsResolvedIn b (snapshots_dir root) c.configs (resolve root c))
      (base_dir-base_of root c)
      (resolved (base_dir root c) (snapshots_dir root) c.configs _
        (resolve_loop-IsPlacedFrom (base_dir root c) (snapshots_dir root) [] c.configs))
