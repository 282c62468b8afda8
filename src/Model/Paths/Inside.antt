-- ===== src/Model/Paths/Inside.antt =====
-- checkRepoRelPath of internal/model/config.go, against a walk through the directories of a path.
use node_box.Prelude.{
  ℕ, zero, suc, String, ◌≡◌, ◌≢◌, ◌↔◌, refl, inl, inr, true, false, ◌||◌, Option, none, some, List,
  [], ◌∷◌, foldl, arith, ◌==◌, Bool-cases, if◌then◌else◌, ok, >>_pair, fail_if, fail_if_iff,
}
use node_box.TextUtil.{has_prefix, contains}
use node_box.Model.Paths.{
  PathError, split, climb, clean_component, clean, leads_out, check_repo_rel_path,
}

-- The depth that a walk reaches, component by component: `none` once it climbs above its start.
up : ℕ → Option ℕ
up zero = none
up (suc n) = some n

pub walk_step : ℕ → String → Option ℕ
walk_step n c = if c == "" || c == "." then some n else if c == ".." then up n else some (suc n)

pub walk : ℕ → List String → Option ℕ
walk n [] = some n
walk n (c ∷ cs) = elim (walk_step n c) [ none ↦ none | some m ↦ walk m cs ]

-- A stack of `n` components with no ".." in it.
abbrev IsPlain : ℕ → List String → Type 0
IsPlain zero [] = Unit
IsPlain zero (_ ∷ _) = ⊥
IsPlain (suc n) [] = ⊥
IsPlain (suc n) (c ∷ cs) = ((c == "..") ≡ false) × IsPlain n cs

-- What the stack says about the walk so far.
abbrev Agrees : Option ℕ → List String → Type 0
Agrees (some n) cs = IsPlain n cs
Agrees none cs = leads_out cs ≡ true

plain_stays : (n : ℕ) (cs : List String) → IsPlain n cs → leads_out cs ≡ false
unfolding leads_out
plain_stays zero [] h = refl
plain_stays (suc n) (c ∷ []) h = h.0
plain_stays (suc (suc n)) (c ∷ d ∷ cs) h = plain_stays (suc n) (d ∷ cs) h.1
plain_stays zero (_ ∷ _) h = absurd h
plain_stays (suc n) [] h = absurd h
plain_stays (suc zero) (_ ∷ _ ∷ _) h = absurd h.1

leads_out-cons : (c : String) (cs : List String) → leads_out cs ≡ true → leads_out (c ∷ cs) ≡ true
unfolding leads_out
leads_out-cons c [] h = cc
leads_out-cons c (d ∷ cs) h = h

step-Agrees :
    (n : ℕ) (cs : List String) (c : String)
    → IsPlain n cs
    → Agrees (walk_step n c) (clean_component cs c)
unfolding walk_step clean_component climb up leads_out
step-Agrees n cs c h = elim (Bool-cases (c == "" || c == ".")) [
  | inl e ↦ rw e h
  | inr e ↦ elim (Bool-cases (c == "..")) [
    | inr d ↦ rw (e, d) (d, h)
    | inl d ↦ rw (e, d) (down n cs h)
  ]
]
  where
    down : (n : ℕ) (cs : List String) → IsPlain n cs → Agrees (up n) (climb cs)
    down zero [] h = refl
    down (suc n) (d ∷ ds) h = rw h.0 h.1
    down zero (_ ∷ _) h = absurd h
    down (suc n) [] h = absurd h

out_stays_out :
    (cs : List String) (c : String) → leads_out cs ≡ true → leads_out (clean_component cs c) ≡ true
unfolding clean_component climb leads_out
out_stays_out cs c h = elim (Bool-cases (c == "" || c == ".")) [
  | inl e ↦ rw e h
  | inr e ↦ elim (Bool-cases (c == "..")) [
    | inr d ↦ rw (e, d) (leads_out-cons c cs h)
    | inl d ↦ rw (e, d) (pop cs h)
  ]
]
  where
    pop : (cs : List String) → leads_out cs ≡ true → leads_out (climb cs) ≡ true
    pop [] h = cc
    pop (d ∷ []) h = ground arith
    pop (d ∷ e ∷ es) h = ground arith

loop_out :
    (cs : List String) (ps : List String)
    → leads_out cs ≡ true
    → leads_out (foldl clean_component cs ps) ≡ true
loop_out cs [] h = h
loop_out cs (p ∷ ps) h = loop_out (clean_component cs p) ps (out_stays_out cs p h)

loop-Agrees :
    (n : ℕ) (cs ps : List String) → IsPlain n cs → Agrees (walk n ps) (foldl clean_component cs ps)
unfolding walk
loop-Agrees n cs [] h = h
loop-Agrees n cs (p ∷ ps) h =
    go (walk_step n p) (step-Agrees n cs p h) (λ m a. loop-Agrees m (clean_component cs p) ps a)
  where
    go :
        (o : Option ℕ)
        → Agrees o (clean_component cs p)
        → ((m : ℕ)
            → IsPlain m (clean_component cs p)
            → Agrees (walk m ps) (foldl clean_component (clean_component cs p) ps))
        → Agrees
            (elim o [ none ↦ none | some m ↦ walk m ps ])
            (foldl clean_component (clean_component cs p) ps)
    go none a ih = loop_out (clean_component cs p) ps a
    go (some m) a ih = ih m a

-- The walk along the components stays at or below its start.
abbrev pub IsWithin : String → Type 0
IsWithin p = walk 0 (split p) ≢ none

pub leads_out_iff : (p : String) → (leads_out (clean p) ≡ false) ↔ IsWithin p
unfolding clean
leads_out_iff p = go (walk 0 (split p)) (loop-Agrees 0 [] (split p) tt)
  where
    go :
        (o : Option ℕ)
        → Agrees o (foldl clean_component [] (split p))
        → (leads_out (foldl clean_component [] (split p)) ≡ false) ↔ (o ≢ none)
    go none a = (λ h. cc, λ h. absurd (h refl))
    go (some n) a = (λ h e. cc, λ h. plain_stays n _ a)

-- The path is relative, has no backslash, and its walk stays within the repository.
pub record IsRepoPath (p : String) : Type 0 where
  pub relative : (has_prefix p "/" || has_prefix p "\\") ≡ false
  pub forward : contains p "\\" ≡ false
  pub within : IsWithin p

-- checkRepoRelPath accepts exactly the relative paths without backslashes that never climb above
-- the repository's root, wherever in the path the climb would be.
pub check_repo_rel_path_iff : (p : String) → (check_repo_rel_path p ≡ ok tt) ↔ IsRepoPath p
unfolding check_repo_rel_path
check_repo_rel_path_iff p =
    let e : (check_repo_rel_path p ≡ ok tt) ↔ (
        ((has_prefix p "/" || has_prefix p "\\") ≡ false)
        × ((contains p "\\" ≡ false) × IsWithin p)) =
      >>_pair (fail_if (has_prefix p "/" || has_prefix p "\\") PathError.not_relative) _
        (fail_if_iff _ PathError.not_relative)
        (>>_pair (fail_if (contains p "\\") PathError.backslashes)
          (fail_if (leads_out (clean p)) PathError.escapes) (fail_if_iff _ PathError.backslashes)
          (
            λ h. (leads_out_iff p).0 ((fail_if_iff _ PathError.escapes).0 h),
            λ h. (fail_if_iff _ PathError.escapes).1 ((leads_out_iff p).1 h),
          )) in
    (
      λ h. let (a, (b, c)) = e.0 h in record { relative = a; forward = b; within = c },
      λ r. e.1 (r.relative, (r.forward, r.within)),
    )
