-- ===== src/Model/Validate/Entries.antt =====
-- The checks of relays, overrides, modules, outputs and the schedule of internal/model/config.go,
-- against what is valid.
use node_box.Prelude.{
  ℕ, String, ◌≡◌, ◌≢◌, ◌↔◌, ◌⊎◌, refl, subst, inl, inr, false, not, ◌&&◌, List, [], ◌∷◌, arith,
  ◌==◌, eq_iff, Bool-cases, ok, >>_iff, >>_pair, fail_if, fail_if_iff, fail_empty_iff, fail_nil_iff,
  fail_unknown_iff, for_each, for_each_iff, for_each_at_iff, is_nil, In, Names, IsDistinct, has,
  has_false→not, not→has_false, eq_false→ne, ne→eq_false, eqb, ltb,
}
use node_box.Model.{
  NodeSelector, Relay, SelectorRule, NodesConfig, EmojiRule, Module, ConfigFile, Schedule,
}
use node_box.Model
use node_box.Model.Validate.{
  Section, Error, check_from, check_field_selector, check_field, check_relay, check_override,
  check_rule, count_set, check_module, check_listed, check_config, subscription_names, relay_names,
  validate_selectors,
}
use node_box.Model.Validate.Named.{named_loop_iff}
use node_box.Model.Validate.Spec.{
  IsDeclared, IsField, IsValidRelay, IsValidOverride, IsValidRule, IsOneOf, IsValidModule,
  IsValidConfigFile,
}
use node_box.Model.Validate.Sources.{check_path_iff}

check_from_iff :
    (subs : Names) (at : String) (sel : NodeSelector)
    → (check_from subs at sel ≡ ok tt) ↔ IsDeclared subs sel.from
unfolding check_from
check_from_iff subs at sel =
    for_each_iff (λ name. In name subs) _ sel.from
      (λ name. fail_unknown_iff name subs (Error.unknown_subscription at name))

check_field_iff :
    (subs : Names) (r f : String) (sels : List NodeSelector)
    → (check_field subs r f sels ≡ ok tt) ↔ IsField subs sels
unfolding check_field check_field_selector
check_field_iff subs r f sels =
    >>_pair (fail_if (is_nil sels) (Error.field_empty r f)) _
      (fail_nil_iff sels (Error.field_empty r f))
      (for_each_at_iff (λ (sel : NodeSelector). (sel.from ≢ []) × IsDeclared subs sel.from) _ 0 sels
        (λ j sel.
          >>_pair (fail_if (is_nil sel.from) (Error.field_selector_empty r f j)) _
            (fail_nil_iff sel.from (Error.field_selector_empty r f j)) (check_from_iff subs r sel)))

pub check_relay_iff :
    (subs : Names) (i : ℕ) (r : Relay) → (check_relay subs i r ≡ ok tt) ↔ IsValidRelay subs r
unfolding check_relay
check_relay_iff subs i r =
    >>_pair (check_field subs r.name "via" r.via) _ (check_field_iff subs r.name "via" r.via)
      (check_field_iff subs r.name "upstream" r.upstream)

pub check_override_iff : (i : ℕ) (r : EmojiRule) → (check_override i r ≡ ok tt) ↔ IsValidOverride r
unfolding check_override
check_override_iff i r =
    let e =
      >>_pair (fail_if (r.emoji == "") (Error.emoji_empty i)) _
        (fail_empty_iff r.emoji (Error.emoji_empty i))
        (>>_pair (fail_if (is_nil r.keywords) (Error.keywords_empty i)) _
          (fail_nil_iff r.keywords (Error.keywords_empty i))
          (for_each_at_iff (λ kw. kw ≢ "") (λ j kw. fail_if (kw == "") (Error.keyword_empty i j)) 0
            r.keywords (λ j kw. fail_empty_iff kw (Error.keyword_empty i j)))) in
    (λ h. let (a, (b, c)) = e.0 h in (a, b, c), λ v. e.1 (v.0, (v.1, v.2)))

selects_iff : (xs ys : List String) → ((is_nil xs && is_nil ys) ≡ false) ↔ ((xs ≢ []) ⊎ (ys ≢ []))
selects_iff [] [] = (λ h. cc, λ h. elim h [ inl a ↦ absurd (a refl) | inr b ↦ absurd (b refl) ])
selects_iff [] (y ∷ ys) = (λ _. inr (λ e. cc), λ _. refl)
selects_iff (x ∷ xs) ys = (λ _. inl (λ e. cc), λ _. refl)

check_rule_iff :
    (n : NodesConfig) (i : ℕ) (rule : SelectorRule)
    → (check_rule n i rule ≡ ok tt) ↔ IsValidRule n rule
unfolding check_rule
check_rule_iff n i rule =
    let sel = selects_iff rule.node_selector.from rule.relays in
    let stop = Error.selects_nothing rule.tag in
    let e =
      >>_pair (check_from (subscription_names n) rule.tag rule.node_selector) _
        (check_from_iff (subscription_names n) rule.tag rule.node_selector)
        (>>_pair
          (for_each
            (λ name. fail_if (not (has name (relay_names n))) (Error.unknown_relay rule.tag name))
            rule.relays)
          (fail_if (Model.is_empty rule.node_selector && is_nil rule.relays) stop)
          (for_each_iff (λ name. In name (relay_names n)) _ rule.relays
            (λ name. fail_unknown_iff name (relay_names n) (Error.unknown_relay rule.tag name)))
          (λ h. sel.0 ((fail_if_iff _ stop).0 h), λ h. (fail_if_iff _ stop).1 (sel.1 h))) in
    (λ h. let (a, (b, c)) = e.0 h in (a, b, c), λ v. e.1 (v.0, (v.1, v.2)))

IsOneOf-iff :
    (a b c : String)
    → ((eqb (count_set (a ∷ b ∷ c ∷ [])) 0 ≡ false) × (ltb 1 (count_set (a ∷ b ∷ c ∷ [])) ≡ false))
      ↔ IsOneOf a b c
unfolding count_set
IsOneOf-iff a b c = (to, from)
  where
    to :
        (eqb (count_set (a ∷ b ∷ c ∷ [])) 0 ≡ false) × (ltb 1 (count_set (a ∷ b ∷ c ∷ [])) ≡ false)
        → IsOneOf a b c
    to h = elim (Bool-cases (a == "")) [
      | inl p ↦ elim (Bool-cases (b == "")) [
        | inl q ↦ inr (
            inr
              ((eq_iff a "").0 p, (eq_iff b "").0 q, eq_false→ne c "" (ground (arith, p, q, h.0))))
        | inr q ↦ inr (
            inl
              ((eq_iff a "").0 p, eq_false→ne b "" q, (eq_iff c "").0 (ground (arith, p, q, h.1))))
      ]
      | inr p ↦ inl (
        eq_false→ne a "" p,
        (eq_iff b "").0 (ground (arith, p, h.1)),
        (eq_iff c "").0 (ground (arith, p, h.1)),
      )
    ]

    from :
        IsOneOf a b c
        → (eqb (count_set (a ∷ b ∷ c ∷ [])) 0 ≡ false)
          × (ltb 1 (count_set (a ∷ b ∷ c ∷ [])) ≡ false)
    from (inl (x, y, z)) =
        let p = ne→eq_false a "" x in
        let q = (eq_iff b "").1 y in
        let r = (eq_iff c "").1 z in (rw (p, q, r) refl, rw (p, q, r) refl)
    from (inr (inl (x, y, z))) =
        let p = (eq_iff a "").1 x in
        let q = ne→eq_false b "" y in
        let r = (eq_iff c "").1 z in (rw (p, q, r) refl, rw (p, q, r) refl)
    from (inr (inr (x, y, z))) =
        let p = (eq_iff a "").1 x in
        let q = (eq_iff b "").1 y in
        let r = ne→eq_false c "" z in (rw (p, q, r) refl, rw (p, q, r) refl)

pub check_module_iff :
    (n : NodesConfig) (i : ℕ) (m : Module) → (check_module n i m ≡ ok tt) ↔ IsValidModule n m
unfolding check_module validate_selectors
check_module_iff n i m =
    let one = IsOneOf-iff m.file m.from_url m.path in
    let none_set = Error.no_module_source m.name in
    let many_set = Error.many_module_sources m.name in
    let rules =
      named_loop_iff (Section.selectors m.name) (λ (r : SelectorRule). r.tag) (IsValidRule n)
        (check_rule n) (check_rule_iff n) m.selectors in
    let path = check_path_iff Section.modules m.name m.file in
    (
      λ h.
          let (a, h1) = (>>_iff _ _).0 h in
          let (b, h2) = (>>_iff _ _).0 h1 in
          let (c, d) = (>>_iff _ _).0 h2 in
          record {
            one_source = one.0 ((fail_if_iff _ none_set).0 a, (fail_if_iff _ many_set).0 b);
            inside = path.0 c;
            rules = rules.0 d;
          },
      λ v.
          let (a, b) = one.1 v.one_source in
          (>>_iff _ _).1 (
            (fail_if_iff _ none_set).1 a,
            (>>_iff _ _).1
                ((fail_if_iff _ many_set).1 b, (>>_iff _ _).1 (path.1 v.inside, rules.1 v.rules)),
          ),
    )

-- The modules of one output: declared, and none twice or in `seen`.
check_listed_iff :
    (known : Names) (c : String) (seen : Names) (names : List String)
    → (check_listed known c seen names ≡ ok tt)
      ↔ (IsDeclared known names × (IsDistinct names × ((k : String) → In k names → ¬ In k seen)))
unfolding check_listed
check_listed_iff known c seen [] = (λ _. (tt, (tt, λ k i. absurd i)), λ _. refl)
check_listed_iff known c seen (name ∷ names) =
    let rest = check_listed_iff known c (name ∷ seen) names in
    let declared = fail_unknown_iff name known (Error.unknown_module c name) in
    let twice = Error.module_twice c name in
    (
      λ h.
          let (a, h1) = (>>_iff _ _).0 h in
          let (b, h2) = (>>_iff _ _).0 h1 in
          let (d, (e, f)) = rest.0 h2 in
          (
            (declared.0 a, d),
            (
              (λ i. f name i (inl refl), e),
              λ k i. elim i [
                | inl q ↦ λ j.
                    has_false→not name seen ((fail_if_iff _ twice).0 b) (subst (λ x. In x seen) q j)
                | inr l ↦ λ j. f k l (inr j)
              ],
            ),
          ),
      λ v.
          let (d, (e, f)) = v in
          (>>_iff _ _).1 (
            declared.1 d.0,
            (>>_iff _ _).1 (
              (fail_if_iff _ twice).1 (not→has_false name seen (f name (inl refl))),
              rest.1 (
                d.1,
                (
                  e.1,
                  λ k i j. elim j [
                    | inl q ↦ e.0 (subst (λ x. In x names) q i)
                    | inr l ↦ f k (inr i) l
                  ],
                ),
              ),
            ),
          ),
    )

pub check_config_iff :
    (known : Names) (i : ℕ) (cf : ConfigFile)
    → (check_config known i cf ≡ ok tt) ↔ IsValidConfigFile known cf
unfolding check_config
check_config_iff known i cf =
    let e =
      >>_pair (fail_if (cf.path == "") (Error.output_path_empty cf.name)) _
        (fail_empty_iff cf.path (Error.output_path_empty cf.name))
        (>>_pair (fail_if (is_nil cf.modules) (Error.output_modules_empty cf.name)) _
          (fail_nil_iff cf.modules (Error.output_modules_empty cf.name))
          (check_listed_iff known cf.name [] cf.modules)) in
    (
      λ h. let (a, (b, (c, (d, _)))) = e.0 h in (a, b, c, d),
      λ v. e.1 (v.0, (v.1, (v.2, (v.3, λ k i j. j)))),
    )
