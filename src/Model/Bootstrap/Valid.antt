-- ===== src/Model/Bootstrap/Valid.antt =====
-- Bootstrap.Validate of internal/model/bootstrap.go: the configurations that it takes.
use node_box.Prelude.{
  String, ◌≡◌, ◌↔◌, ◌⊎◌, inl, inr, refl, sym, ap, ok_inj, subst, Bool, true, false, ◌||◌, Option,
  none, some, if◌then◌else◌, Result, ok, err, ◌>>◌, fail_if_iff, >>_pair, is_zero, is_negative,
}
use node_box.Model.Bootstrap.{
  update_timeout_positive, SourceConfig, ServerConfig, ProxyConfig, Bootstrap, BootstrapError,
  validate_server, check_source, check_server, check_proxy, validate, load, apply_defaults,
}
use node_box.Model.Bootstrap.Filled.{IsFilled, apply_defaults-IsFilled}
use node_box.Model.Bootstrap.Checks.{
  IsSource, IsServer, IsProxy, IsPositive, validate_source_iff, validate_server_iff,
  validate_proxy_iff, sign_iff,
}

abbrev pub HasSource : Option SourceConfig → Type 0
HasSource none = ⊥
HasSource (some s) = IsSource s

-- A server that is not enabled is not looked at.
abbrev pub HasServer : Option ServerConfig → Type 0
HasServer none = Unit
HasServer (some s) = (s.enabled ≡ false) ⊎ IsServer s

abbrev pub HasProxy : Option ProxyConfig → Type 0
HasProxy none = Unit
HasProxy (some p) = IsProxy p

abbrev pub IsBootstrap : Bootstrap → Type 0
IsBootstrap b =
    HasSource b.source × (HasServer b.server × (HasProxy b.proxy × IsPositive b.update_timeout))

check_source_iff : (o : Option SourceConfig) → (check_source o ≡ ok tt) ↔ HasSource o
check_source_iff none = (λ h. cc, λ h. absurd h)
check_source_iff (some s) = validate_source_iff s

check_server_iff : (o : Option ServerConfig) → (check_server o ≡ ok tt) ↔ HasServer o
check_server_iff none = (λ _. tt, λ _. refl)
check_server_iff (some s) = go s.enabled refl
  where
    go :
        (b : Bool)
        → s.enabled ≡ b
        → ((if b then validate_server s else ok tt) ≡ ok tt) ↔ ((s.enabled ≡ false) ⊎ IsServer s)
    go false e = (λ _. inl e, λ _. refl)
    go true e = (
      λ h. inr ((validate_server_iff s).0 h),
      λ v. elim v [ inl f ↦ cc (e, f) | inr w ↦ (validate_server_iff s).1 w ],
    )

check_proxy_iff : (o : Option ProxyConfig) → (check_proxy o ≡ ok tt) ↔ HasProxy o
check_proxy_iff none = (λ _. tt, λ _. refl)
check_proxy_iff (some p) = validate_proxy_iff p

validate_iff : (b : Bootstrap) → (validate b ≡ ok tt) ↔ IsBootstrap b
unfolding validate
validate_iff b =
    let d = b.update_timeout in
    let i = fail_if_iff (is_zero d || is_negative d) (update_timeout_positive d) in
    let j = sign_iff d in
    >>_pair (check_source b.source) _ (check_source_iff b.source) (
      >>_pair (check_server b.server) _ (check_server_iff b.server) (
        >>_pair (check_proxy b.proxy) _ (check_proxy_iff b.proxy)
          (λ h. j.0 (i.0 h), λ h. i.1 (j.1 h))))

-- A bootstrap file is loaded exactly if, with its defaults filled in, it has a valid source, a
-- valid server where one is enabled, a valid proxy with a port from 1 to 65535 where one is set,
-- and a positive update timeout; the result is the file with its defaults: info, fifteen minutes,
-- the branch main, 127.0.0.1:8788, and ten minutes for a GitHub source whose poll interval is zero.
-- A valid listen names any host that does not bind all interfaces.
pub load_iff :
    (base_dir : String) (b c : Bootstrap)
    → (load base_dir b ≡ ok c) ↔ ((c ≡ apply_defaults base_dir b) × IsFilled b c × IsBootstrap c)
unfolding load
load_iff base_dir b c = go (validate (apply_defaults base_dir b)) refl
  where
    go :
        (r : Result BootstrapError (Unit {0}))
        → validate (apply_defaults base_dir b) ≡ r
        → ((r >> ok (apply_defaults base_dir b)) ≡ ok c)
          ↔ ((c ≡ apply_defaults base_dir b) × IsFilled b c × IsBootstrap c)
    go (ok tt) e = (
      λ h.
          let same = sym (ok_inj h) in
          (
            same,
            subst (IsFilled b) (sym same) (apply_defaults-IsFilled base_dir b),
            subst IsBootstrap (sym same) ((validate_iff (apply_defaults base_dir b)).0 e),
          ),
      λ (same, _, _). ap ok (sym same),
    )
    go (err x) e = (
      λ h. cc,
      λ (same, _, v).
          cc (e, (validate_iff (apply_defaults base_dir b)).1 (subst IsBootstrap same v)),
    )
