-- ===== src/Model/Bootstrap/Checks.antt =====
-- internal/model/bootstrap.go: the checks of the source, the server and the proxy, and what they take.
use node_box.Prelude.{
  ℕ, zero, suc, ◌≤◌, ◌<◌, String, ◌≡◌, ◌≢◌, ◌↔◌, ◌⊎◌, inl, inr, refl, sym, subst, ◌∙◌, Bool, true,
  false, not, ◌||◌, Option, none, some, arith, ◌==◌, eq_iff, if◌then◌else◌, ok, err, fail_if,
  fail_if_iff, fail_not_iff, fail_empty_iff, >>_pair, ℤ, pos, negsuc, is_zero, is_negative,
  eq_false→ne, ne→eq_false,
}
use node_box.Model.Validate.{lowers_to}
use node_box.Model.Bootstrap.{
  repo_required, repo_form, token_env_required, dir_unused, poll_interval_negative, dir_required,
  repo_unused, type_required, unknown_source_type, secret_required, port_missing, binds_all,
  host_empty, port_range, unknown_proxy_type, SourceConfig, ServerConfig, ProxyConfig,
  BootstrapError, is_repo_form, validate_github, validate_local, validate_source, split_host_port,
  check_listen, validate_server, out_of_range, validate_proxy,
}
use node_box.TextUtil.{contains}
use node_box.TextUtil.Replace.{cut}
use node_box.TextUtil.Replace.Cut.{IsFirstCut, cut_iff, some_inj}

-- owner/name
abbrev pub IsRepo : String → Type 0
IsRepo repo =
    (owner : String) × (name : String) × IsFirstCut repo "/" owner name
    × (owner ≢ "")
    × (name ≢ "")
    × (contains name "/" ≡ false)

abbrev pub IsGitHub : SourceConfig → Type 0
IsGitHub s =
    (s.repo ≢ "")
    × (IsRepo s.repo
        × ((s.token_env ≢ "") × ((s.dir ≡ "") × (is_negative s.poll_interval ≡ false))))

abbrev pub IsLocal : SourceConfig → Type 0
IsLocal s = (s.dir ≢ "") × ((s.repo ≡ "") × (s.token_env ≡ ""))

abbrev pub IsSource : SourceConfig → Type 0
IsSource s = ((s.type ≡ "github") × IsGitHub s) ⊎ ((s.type ≡ "local") × IsLocal s)

-- A host that is not every interface, and a port.
abbrev pub IsListen : String → Type 0
IsListen listen =
    (host : String) × (port : String) × (split_host_port listen ≡ some (host, port))
    × (port ≢ "")
    × (host ≢ "")
    × (host ≢ "0.0.0.0")
    × (host ≢ "::")

abbrev pub IsServer : ServerConfig → Type 0
IsServer s = (s.webhook_secret_env ≢ "") × IsListen s.listen

abbrev pub IsPort : ℤ → Type 0
IsPort p = (n : ℕ) × (p ≡ pos n) × (1 ≤ n) × (n ≤ 65535)

abbrev pub IsProxy : ProxyConfig → Type 0
IsProxy p =
    (p.host ≢ "")
    × (IsPort p.port
        × ((lowers_to p.type "http" || lowers_to p.type "https" || lowers_to p.type "socks5")
            ≡ true))

abbrev pub IsPositive : ℤ → Type 0
IsPositive d = (n : ℕ) × (d ≡ pos n) × (0 < n)

pos_inj : {m n : ℕ} → pos m ≡ pos n → m ≡ n
pos_inj e = cc

out_of_range_iff : (p : ℤ) → (out_of_range p ≡ false) ↔ IsPort p
unfolding out_of_range
out_of_range_iff (negsuc n) = (λ h. cc, λ (m, e, _, _). cc)
out_of_range_iff (pos zero) = (λ h. cc, λ (m, e, a, b). absurd (omega (arith, pos_inj e, a)))
out_of_range_iff (pos (suc n)) =
    (λ h. (suc n, refl, omega arith, ground arith), λ (m, e, a, b). ground (arith, pos_inj e, b))

pub sign_iff : (d : ℤ) → ((is_zero d || is_negative d) ≡ false) ↔ IsPositive d
sign_iff (pos zero) = (λ h. cc, λ (m, e, a). absurd (omega (arith, pos_inj e, a)))
sign_iff (pos (suc n)) = (λ h. (suc n, refl, omega arith), λ _. refl)
sign_iff (negsuc n) = (λ h. cc, λ (m, e, a). cc)

no_text_iff : (s : String) (e : BootstrapError) → (fail_if (not (s == "")) e ≡ ok tt) ↔ (s ≡ "")
no_text_iff s e =
    (λ h. (eq_iff s "").0 ((fail_not_iff _ e).0 h), λ h. (fail_not_iff _ e).1 ((eq_iff s "").1 h))

is_repo_form_iff : (repo : String) → (is_repo_form (cut repo "/") ≡ true) ↔ IsRepo repo
unfolding is_repo_form
is_repo_form_iff repo = go (cut repo "/") refl
  where
    go : (o : Option (String × String)) → cut repo "/" ≡ o → (is_repo_form o ≡ true) ↔ IsRepo repo
    go none e = (λ h. cc, λ (owner, name, c, _, _, _). cc (e, (cut_iff repo "/" owner name).1 c))
    go (some (owner, name)) e = (
      λ h. (
        owner,
        name,
        (cut_iff repo "/" owner name).0 e,
        eq_false→ne owner "" (ground arith),
        eq_false→ne name "" (ground arith),
        ground arith,
      ),
      λ (o, n, c, p, q, r).
          subst (λ y. is_repo_form (some y) ≡ true)
            (some_inj (sym ((cut_iff repo "/" o n).1 c) ∙ e))
            (ground (arith, ne→eq_false o "" p, ne→eq_false n "" q)),
    )

pub validate_github_iff : (s : SourceConfig) → (validate_github s ≡ ok tt) ↔ IsGitHub s
unfolding validate_github
validate_github_iff s =
    >>_pair (fail_if (s.repo == "") repo_required) _ (fail_empty_iff s.repo repo_required) (
      >>_pair (fail_if (not (is_repo_form (cut s.repo "/"))) (repo_form s.repo)) _
        (form (repo_form s.repo))
        (>>_pair (fail_if (s.token_env == "") token_env_required) _
          (fail_empty_iff s.token_env token_env_required)
          (>>_pair (fail_if (not (s.dir == "")) dir_unused) _ (no_text_iff s.dir dir_unused)
            (fail_if_iff (is_negative s.poll_interval) poll_interval_negative))))
  where
    form :
        (e : BootstrapError)
        → (fail_if (not (is_repo_form (cut s.repo "/"))) e ≡ ok tt) ↔ IsRepo s.repo
    form e =
        let i = fail_not_iff (is_repo_form (cut s.repo "/")) e in
        let j = is_repo_form_iff s.repo in (λ h. j.0 (i.0 h), λ h. i.1 (j.1 h))

both_empty_iff : (s t : String) → ((not (s == "") || not (t == "")) ≡ false) ↔ ((s ≡ "") × (t ≡ ""))
both_empty_iff s t = (
  λ h. ((eq_iff s "").0 (ground arith), (eq_iff t "").0 (ground arith)),
  λ (p, q). ground (arith, (eq_iff s "").1 p, (eq_iff t "").1 q),
)

validate_local_iff : (s : SourceConfig) → (validate_local s ≡ ok tt) ↔ IsLocal s
unfolding validate_local
validate_local_iff s =
    let i = fail_if_iff (not (s.repo == "") || not (s.token_env == "")) repo_unused in
    let j = both_empty_iff s.repo s.token_env in
    >>_pair (fail_if (s.dir == "") dir_required) _ (fail_empty_iff s.dir dir_required)
      (λ h. j.0 (i.0 h), λ h. i.1 (j.1 h))

no_such_type :
    (c : Bool) (type : String)
    → ¬ (if c then err type_required else err (unknown_source_type type)) ≡ ok tt
no_such_type true type h = cc
no_such_type false type h = cc

pub validate_source_iff : (s : SourceConfig) → (validate_source s ≡ ok tt) ↔ IsSource s
unfolding validate_source
validate_source_iff s = go (s.type == "github") (s.type == "local") (s.type == "") refl refl refl
  where
    go :
        (a b c : Bool)
        → (s.type == "github") ≡ a
        → (s.type == "local") ≡ b
        → (s.type == "") ≡ c
        → ((if a
              then validate_github s
              else if b
              then validate_local s
              else if c
              then err type_required
              else err (unknown_source_type s.type))
            ≡ ok tt)
          ↔ IsSource s
    go true b c p q r = (
      λ h. inl ((eq_iff s.type "github").0 p, (validate_github_iff s).0 h),
      λ v. elim v [
        | inl g ↦ (validate_github_iff s).1 g.1
        | inr l ↦ cc (l.0, (eq_iff s.type "github").0 p)
      ],
    )
    go false true c p q r = (
      λ h. inr ((eq_iff s.type "local").0 q, (validate_local_iff s).0 h),
      λ v. elim v [
        | inl g ↦ cc (g.0, (eq_iff s.type "local").0 q)
        | inr l ↦ (validate_local_iff s).1 l.1
      ],
    )
    go false false c p q r = (
      λ h. absurd (no_such_type c s.type h),
      λ v. elim v [
        | inl g ↦ absurd (ground (arith, eq_iff s.type "github", g.0))
        | inr l ↦ absurd (ground (arith, eq_iff s.type "local", l.0))
      ],
    )

binds_iff :
    (host : String)
    → ((host == "" || host == "0.0.0.0" || host == "::") ≡ false)
      ↔ ((host ≢ "") × (host ≢ "0.0.0.0") × (host ≢ "::"))
binds_iff host = (
  λ h. (
    eq_false→ne host "" (ground arith),
    eq_false→ne host "0.0.0.0" (ground arith),
    eq_false→ne host "::" (ground arith),
  ),
  λ (a, b, c).
      ground (arith, ne→eq_false host "" a, ne→eq_false host "0.0.0.0" b, ne→eq_false host "::" c),
)

check_listen_iff : (s : String) → (check_listen s (split_host_port s) ≡ ok tt) ↔ IsListen s
unfolding check_listen
check_listen_iff s = go (split_host_port s) refl
  where
    go :
        (o : Option (String × String))
        → split_host_port s ≡ o
        → (check_listen s o ≡ ok tt) ↔ IsListen s
    go none e = (λ h. cc, λ (_, _, f, _, _, _, _). cc (e, f))
    go (some (host, port)) e =
        let i =
          >>_pair (fail_if (port == "") (port_missing s)) _ (fail_empty_iff port (port_missing s))
            (fail_if_iff (host == "" || host == "0.0.0.0" || host == "::") (binds_all s)) in
        let j = binds_iff host in
        (
          λ h. let (p, q) = i.0 h in let (a, b, c) = j.0 q in (host, port, e, p, a, b, c),
          λ (g, q, f, p, a, b, c).
              let same : (g, q) ≡ (host, port) = some_inj (sym f ∙ e) in
              i.1 (
                subst (λ y. y.1 ≢ "") same p,
                j.1 (subst (λ y. (y.0 ≢ "") × (y.0 ≢ "0.0.0.0") × (y.0 ≢ "::")) same (a, b, c)),
              ),
        )

pub validate_server_iff : (s : ServerConfig) → (validate_server s ≡ ok tt) ↔ IsServer s
unfolding validate_server
validate_server_iff s =
    >>_pair (fail_if (s.webhook_secret_env == "") secret_required) _
      (fail_empty_iff s.webhook_secret_env secret_required) (check_listen_iff s.listen)

pub validate_proxy_iff : (p : ProxyConfig) → (validate_proxy p ≡ ok tt) ↔ IsProxy p
unfolding validate_proxy
validate_proxy_iff p =
    let i = fail_if_iff (out_of_range p.port) (port_range p.port) in
    let j = out_of_range_iff p.port in
    >>_pair (fail_if (p.host == "") host_empty) _ (fail_empty_iff p.host host_empty) (
      >>_pair (fail_if (out_of_range p.port) (port_range p.port)) _
        (λ h. j.0 (i.0 h), λ h. i.1 (j.1 h)) (fail_not_iff _ (unknown_proxy_type p.type)))
