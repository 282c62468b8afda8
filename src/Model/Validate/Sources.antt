-- ===== src/Model/Validate/Sources.antt =====
-- The checks of a subscription and of an optional path of internal/model/config.go, against what is
-- valid.
use node_box.Prelude.{
  ℕ, String, ◌≡◌, ◌≢◌, ◌↔◌, ◌⊎◌, refl, ap, inl, inr, true, false, not, ◌&&◌, ◌||◌, arith, ◌==◌,
  eq_iff, Bool-cases, Result, ok, err, >>_iff, fail_if_iff, fail_not_iff, In, eq_false→ne,
  ne→eq_false,
}
use node_box.Model.{Subscription}
use node_box.Model.Paths.{PathError}
use node_box.Model.Paths.Inside.{IsRepoPath, check_repo_rel_path_iff}
use node_box.Model.Validate.{Section, Error, wrap_path, check_path, lowers_to, check_subscription}
use node_box.Model.Validate.Spec.{subscription_types, IsValidSubscription}

wrap_path_iff :
    (s : Section) (k : String) (r : Result PathError (Unit {0}))
    → (wrap_path s k r ≡ ok tt) ↔ (r ≡ ok tt)
unfolding wrap_path
wrap_path_iff s k (ok _) = (λ _. refl, λ _. refl)
wrap_path_iff s k (err e) = (λ h. cc, λ h. cc)

pub check_path_iff :
    (s : Section) (k p : String) → (check_path s k p ≡ ok tt) ↔ (p ≢ "" → IsRepoPath p)
unfolding check_path
check_path_iff s k p = elim (Bool-cases (p == "")) [
  | inl e ↦ rw e (λ _ ne. absurd (ne ((eq_iff p "").0 e)), λ _. refl)
  | inr e ↦ rw e (
    λ h _. (check_repo_rel_path_iff p).0 ((wrap_path_iff s k _).0 h),
    λ h. (wrap_path_iff s k _).1 ((check_repo_rel_path_iff p).1 (h (eq_false→ne p "" e))),
  )
]

typed_iff :
    (t : String)
    → ((lowers_to t "clash" || lowers_to t "singbox" || lowers_to t "xray" || lowers_to t "v2ray")
        ≡ true)
      ↔ ((w : String) × In w subscription_types × (lowers_to t w ≡ true))
typed_iff t = (to, from)
  where
    to :
        (lowers_to t "clash" || lowers_to t "singbox" || lowers_to t "xray" || lowers_to t "v2ray")
          ≡ true
        → (w : String) × In w subscription_types × (lowers_to t w ≡ true)
    to h = elim (Bool-cases (lowers_to t "clash")) [
      | inl e ↦ ("clash", inl refl, e)
      | inr a ↦ elim (Bool-cases (lowers_to t "singbox")) [
        | inl e ↦ ("singbox", inr (inl refl), e)
        | inr b ↦ elim (Bool-cases (lowers_to t "xray")) [
          | inl e ↦ ("xray", inr (inr (inl refl)), e)
          | inr c ↦ ("v2ray", inr (inr (inr (inl refl))), ground arith)
        ]
      ]
    ]

    from :
        (w : String) × In w subscription_types × (lowers_to t w ≡ true)
        → (lowers_to t "clash"
            || lowers_to t "singbox"
            || lowers_to t "xray"
            || lowers_to t "v2ray")
          ≡ true
    from (w, inl e, h) = ground (arith, ap (lowers_to t) e)
    from (w, inr (inl e), h) = ground (arith, ap (lowers_to t) e)
    from (w, inr (inr (inl e)), h) = ground (arith, ap (lowers_to t) e)
    from (w, inr (inr (inr (inl e))), h) = ground (arith, ap (lowers_to t) e)
    from (w, inr (inr (inr (inr b))), h) = absurd b

one_source_iff :
    (u p : String)
    → ((not (u == "") && not (p == "")) ≡ false) × ((u == "" && p == "") ≡ false)
      ↔ (((u ≢ "") × (p ≡ "")) ⊎ ((u ≡ "") × (p ≢ "")))
one_source_iff u p = (
  λ h. elim (Bool-cases (u == "")) [
    | inl e ↦ inr ((eq_iff u "").0 e, eq_false→ne p "" (ground (arith, e, h.1)))
    | inr e ↦ inl (eq_false→ne u "" e, (eq_iff p "").0 (ground (arith, e, h.0)))
  ],
  λ h. elim h [
    | inl (a, b) ↦
        let x = ne→eq_false u "" a in let y = (eq_iff p "").1 b in (ground arith, ground arith)
    | inr (a, b) ↦
        let x = (eq_iff u "").1 a in let y = ne→eq_false p "" b in (ground arith, ground arith)
  ],
)

pub check_subscription_iff :
    (i : ℕ) (s : Subscription) → (check_subscription i s ≡ ok tt) ↔ IsValidSubscription s
unfolding check_subscription
check_subscription_iff i s = (
  λ h.
      let (a, h1) = (>>_iff _ _).0 h in
      let (b, h2) = (>>_iff _ _).0 h1 in
      let (c, h3) = (>>_iff _ _).0 h2 in
      let (d, e) = (>>_iff _ _).0 h3 in
      record {
        no_brackets = (fail_if_iff _ (Error.bracket_in_name s.name)).0 a;
        one_source = (one_source_iff s.url s.path).0 (
          (fail_if_iff _ (Error.both_url_and_path s.name)).0 b,
          (fail_if_iff _ (Error.no_url_or_path s.name)).0 c,
        );
        inside = (check_path_iff _ s.name s.path).0 d;
        typed = (typed_iff s.type).0 ((fail_not_iff _ (Error.unknown_type s.name)).0 e);
      },
  λ v.
      let (b, c) = (one_source_iff s.url s.path).1 v.one_source in
      (>>_iff _ _).1 (
        (fail_if_iff _ (Error.bracket_in_name s.name)).1 v.no_brackets,
        (>>_iff _ _).1 (
          (fail_if_iff _ (Error.both_url_and_path s.name)).1 b,
          (>>_iff _ _).1 (
            (fail_if_iff _ (Error.no_url_or_path s.name)).1 c,
            (>>_iff _ _).1 (
              (check_path_iff _ s.name s.path).1 v.inside,
              (fail_not_iff _ (Error.unknown_type s.name)).1 ((typed_iff s.type).1 v.typed),
            ),
          ),
        ),
      ),
)
