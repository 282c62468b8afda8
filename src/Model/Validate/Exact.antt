-- ===== src/Model/Validate/Exact.antt =====
-- Config.Validate of internal/model/config.go, against `IsValid`.
use node_box.Prelude.{
  String, ◌≡◌, ◌↔◌, refl, sym, inl, inr, true, false, Option, none, some, arith, Bool-cases, ok,
  >>_iff, >>_pair, fail_if, fail_if_iff, fail_not_iff, fail_nil_iff, for_each_at_iff, is_zero,
  is_negative,
}
use mathlib.Core.Path.{subst}
use node_box.Model.{Relay, Subscription, NodesConfig, Module, ConfigFile, Schedule, Config}
use node_box.Model.Validate.{
  Error, check_subscription, check_relay, check_override, check_module, check_config,
  subscription_names, module_names, lowers_to, validate_subscriptions, validate_relays,
  validate_emoji_overrides, validate_modules, validate_configs, validate_schedule, validate_nodes,
  check_nodes, check_update_schedule, validate,
}
use node_box.Model.Validate.Named.{named_loop_iff}
use node_box.Model.Validate.Spec.{
  IsValidSubscription, IsValidRelay, IsValidOverride, IsValidModule, IsValidConfigFile,
  IsValidSchedule, IsValidNodes, IsValid,
}
use node_box.Model.Validate.Sources.{check_subscription_iff}
use node_box.Model.Validate.Entries.{
  check_relay_iff, check_override_iff, check_module_iff, check_config_iff,
}

-- No text lowers to both words.
not_both : (t : String) → lowers_to t "hourly" ≡ true → lowers_to t "interval" ≡ false
unfolding lowers_to
not_both String.[] h = refl
not_both (String.◌∷◌ c s) h = ground arith

validate_schedule_iff : (s : Schedule) → (validate_schedule s ≡ ok tt) ↔ IsValidSchedule s
unfolding validate_schedule
validate_schedule_iff s = (
  λ h. elim (Bool-cases (lowers_to s.type "interval")) [
    | inl e ↦
        let (a, b) =
          (>>_iff (fail_if (is_zero s.every) Error.every_required)
              (fail_if (is_negative s.every) Error.every_negative)).0
            (rw e at h) in
        inl (e, (fail_if_iff _ Error.every_required).0 a, (fail_if_iff _ Error.every_negative).0 b)
    | inr e ↦ elim (Bool-cases (lowers_to s.type "hourly")) [
      | inl f ↦ inr (f, (fail_not_iff _ Error.every_unused).0 (rw (e, f) at h))
      | inr f ↦ ground arith
    ]
  ],
  λ v. elim v [
    | inl (e, a, b) ↦ rw e (
        (>>_iff _ _).1
          ((fail_if_iff _ Error.every_required).1 a, (fail_if_iff _ Error.every_negative).1 b))
    | inr (f, a) ↦ rw (not_both s.type f, f) ((fail_not_iff _ Error.every_unused).1 a)
  ],
)

module _ (c : Config) (n : NodesConfig) where
  validate_nodes→ : validate_nodes c n ≡ ok tt → IsValidNodes c n
  unfolding validate_nodes validate_subscriptions validate_relays validate_emoji_overrides
      validate_modules validate_configs
  validate_nodes→ h =
      let (a, h1) = (>>_iff _ _).0 h in
      let (b, h2) = (>>_iff _ _).0 h1 in
      let (o, h3) = (>>_iff _ _).0 h2 in
      let (m, k) = (>>_iff _ _).0 h3 in
      let (m1, m2) = (>>_iff _ _).0 m in
      let (k1, k2) = (>>_iff _ _).0 k in
      record {
        subscriptions =
            (named_loop_iff _ (λ (s : Subscription). s.name) IsValidSubscription check_subscription
                check_subscription_iff n.subscriptions).0
              a;
        relays =
            (named_loop_iff _ (λ (r : Relay). r.name) (IsValidRelay (subscription_names n))
                (check_relay (subscription_names n)) (check_relay_iff (subscription_names n))
                n.relays).0
              b;
        overrides =
            (for_each_at_iff IsValidOverride check_override 0 n.emoji_overrides
                check_override_iff).0
              o;
        has_modules = (fail_nil_iff c.modules Error.modules_empty).0 m1;
        modules =
            (named_loop_iff _ (λ (m : Module). m.name) (IsValidModule n) (check_module n)
                (check_module_iff n) c.modules).0
              m2;
        has_configs = (fail_nil_iff c.configs Error.configs_empty).0 k1;
        configs =
            (named_loop_iff _ (λ (f : ConfigFile). f.name)
                (IsValidConfigFile (module_names c.modules)) (check_config (module_names c.modules))
                (check_config_iff (module_names c.modules)) c.configs).0
              k2;
      }

  →validate_nodes : IsValidNodes c n → validate_nodes c n ≡ ok tt
  unfolding validate_nodes validate_subscriptions validate_relays validate_emoji_overrides
      validate_modules validate_configs
  →validate_nodes v = (>>_iff _ _).1 (
    (named_loop_iff _ (λ (s : Subscription). s.name) IsValidSubscription check_subscription
          check_subscription_iff n.subscriptions).1
        v.subscriptions,
    (>>_iff _ _).1 (
      (named_loop_iff _ (λ (r : Relay). r.name) (IsValidRelay (subscription_names n))
            (check_relay (subscription_names n)) (check_relay_iff (subscription_names n))
            n.relays).1
          v.relays,
      (>>_iff _ _).1 (
        (for_each_at_iff IsValidOverride check_override 0 n.emoji_overrides check_override_iff).1
            v.overrides,
        (>>_iff _ _).1 (
          (>>_iff _ _).1 (
            (fail_nil_iff c.modules Error.modules_empty).1 v.has_modules,
            (named_loop_iff _ (λ (m : Module). m.name) (IsValidModule n) (check_module n)
                  (check_module_iff n) c.modules).1
                v.modules,
          ),
          (>>_iff _ _).1 (
            (fail_nil_iff c.configs Error.configs_empty).1 v.has_configs,
            (named_loop_iff _ (λ (f : ConfigFile). f.name)
                  (IsValidConfigFile (module_names c.modules))
                  (check_config (module_names c.modules))
                  (check_config_iff (module_names c.modules)) c.configs).1
                v.configs,
          ),
        ),
      ),
    ),
  )

nodes_iff :
    (c : Config) (o : Option NodesConfig)
    → (check_nodes c o ≡ ok tt) ↔ ((n : NodesConfig) × (o ≡ some n) × IsValidNodes c n)
unfolding check_nodes
nodes_iff c none = (λ h. cc, λ (n, e, v). cc)
nodes_iff c (some n) = (
  λ h. (n, refl, validate_nodes→ c n h),
  λ (m, e, v). let q : n ≡ m = cc e in →validate_nodes c n (subst (IsValidNodes c) (sym q) v),
)

schedule_iff :
    (o : Option Schedule)
    → (check_update_schedule o ≡ ok tt) ↔ ((s : Schedule) × (o ≡ some s) × IsValidSchedule s)
unfolding check_update_schedule
schedule_iff none = (λ h. cc, λ (s, e, v). cc)
schedule_iff (some s) = (
  λ h. (s, refl, (validate_schedule_iff s).0 h),
  λ (t, e, v).
      let q : s ≡ t = cc e in (validate_schedule_iff s).1 (subst IsValidSchedule (sym q) v),
)

-- Config.Validate accepts exactly the valid configurations.
pub validate_iff : (c : Config) → (validate c ≡ ok tt) ↔ IsValid c
unfolding validate
validate_iff c =
    let e =
      >>_pair (check_nodes c c.nodes) (check_update_schedule c.update_schedule)
        (nodes_iff c c.nodes) (schedule_iff c.update_schedule) in
    (λ h. let (a, b) = e.0 h in record { nodes = a; schedule = b }, λ v. e.1 (v.nodes, v.schedule))
