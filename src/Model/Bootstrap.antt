-- ===== src/Model/Bootstrap.antt =====
-- internal/model/bootstrap.go: the local configuration, node-box.json, its defaults and its
-- checks. A duration counts nanoseconds. net.SplitHostPort is written out, its errors as one.
pub mod Checks
pub mod Filled
pub mod Valid
pub mod Defaults
use node_box.Prelude.{
  ℕ, zero, suc, ◌<◌, String, Bool, true, false, not, ◌&&◌, ◌||◌, Option, none, some, ◌==◌, leb,
  if◌then◌else◌, Result, ok, err, ◌>>=◌, ◌>>◌, fail_if, ℤ, pos, negsuc, is_zero, is_negative,
}
use node_box.Model.Validate.{lowers_to}
use node_box.Output.Target.{is_abs, clean, join}
use node_box.TextUtil.{concat, contains}
use node_box.TextUtil.Replace.{cut}

pub record SourceConfig : Type 0 where
  pub type : String
  pub repo : String
  pub branch : String
  pub token_env : String
  pub poll_interval : ℤ
  pub dir : String

pub record ServerConfig : Type 0 where
  pub enabled : Bool
  pub listen : String
  pub webhook_secret_env : String

pub record ProxyConfig : Type 0 where
  pub type : String
  pub host : String
  pub port : ℤ
  pub username : String
  pub password : String

pub record Bootstrap : Type 0 where
  pub root : String
  pub log_level : String
  pub update_timeout : ℤ
  pub source : Option SourceConfig
  pub server : Option ServerConfig
  pub proxy : Option ProxyConfig

abbrev pub default_poll_interval : ℤ
default_poll_interval = pos 600_000_000_000

abbrev pub default_update_timeout : ℤ
default_update_timeout = pos 900_000_000_000

abbrev pub or_default : String → String → String
or_default s fallback = if s == "" then fallback else s

unfoldable pub default_root : String → String → String
unfolding is_abs join clean
default_root base_dir root =
    clean (if root == "" then base_dir else if is_abs root then root else join base_dir root)

unfoldable pub source_defaults : String → SourceConfig → SourceConfig
unfolding is_abs join
source_defaults base_dir s = record {
  type = s.type;
  repo = s.repo;
  branch = or_default s.branch "main";
  token_env = s.token_env;
  poll_interval =
      if is_zero s.poll_interval && s.type == "github"
      then default_poll_interval
      else s.poll_interval;
  dir = if not (s.dir == "") && not (is_abs s.dir) then join base_dir s.dir else s.dir;
}

unfoldable pub server_defaults : ServerConfig → ServerConfig
server_defaults s = record s { listen = or_default s.listen "127.0.0.1:8788" }

abbrev pub on_some : {A : Type 0} → (A → A) → Option A → Option A
on_some f none = none
on_some f (some a) = some (f a)

unfoldable pub apply_defaults : String → Bootstrap → Bootstrap
unfolding default_root source_defaults server_defaults
apply_defaults base_dir b = record {
  root = default_root base_dir b.root;
  log_level = or_default b.log_level "info";
  update_timeout = if is_zero b.update_timeout then default_update_timeout else b.update_timeout;
  source = on_some (source_defaults base_dir) b.source;
  server = on_some server_defaults b.server;
  proxy = b.proxy;
}

pub data BootstrapError : Type 0 where
  source_required repo_required : BootstrapError
  repo_form : String → BootstrapError
  token_env_required dir_unused poll_interval_negative : BootstrapError
  dir_required repo_unused type_required : BootstrapError
  unknown_source_type : String → BootstrapError
  secret_required : BootstrapError
  not_host_port port_missing binds_all : String → BootstrapError
  host_empty : BootstrapError
  port_range : ℤ → BootstrapError
  unknown_proxy_type : String → BootstrapError
  update_timeout_positive : ℤ → BootstrapError

abbrev pub Check : Type 0
Check = Result BootstrapError (Unit {0})

-- strings.Cut(s.Repo, "/"): one part before the slash and one behind it
unfoldable pub is_repo_form : Option (String × String) → Bool
unfolding contains
is_repo_form none = false
is_repo_form (some (owner, name)) = not (owner == "" || name == "" || contains name "/")

unfoldable pub validate_github : SourceConfig → Check
unfolding is_repo_form cut
validate_github s = do
  fail_if (s.repo == "") repo_required
  fail_if (not (is_repo_form (cut s.repo "/"))) (repo_form s.repo)
  fail_if (s.token_env == "") token_env_required
  fail_if (not (s.dir == "")) dir_unused
  fail_if (is_negative s.poll_interval) poll_interval_negative

unfoldable pub validate_local : SourceConfig → Check
validate_local s = do
  fail_if (s.dir == "") dir_required
  fail_if (not (s.repo == "") || not (s.token_env == "")) repo_unused

unfoldable pub validate_source : SourceConfig → Check
unfolding validate_github validate_local
validate_source s =
    if s.type == "github"
    then validate_github s
    else if s.type == "local"
    then validate_local s
    else if s.type == ""
    then err type_required
    else err (unknown_source_type s.type)

-- A host in brackets, and what stands behind the first `]`: a colon and the port.
unfoldable pub bracketed : String → Option (String × String) → Option (String × String)
unfolding contains
bracketed text none = none
bracketed text (some (host, String.[])) = none
bracketed text (some (host, String.◌∷◌ c port)) =
    if not (String.◌∷◌ c "" == ":") || contains port ":" || contains text "[" || contains port "]"
    then none
    else some (host, port)

-- A host without brackets: one colon in all.
unfoldable pub unbracketed : String → Option (String × String) → Option (String × String)
unfolding contains
unbracketed text none = none
unbracketed text (some (host, port)) =
    if contains port ":" || contains text "[" || contains text "]" then none else some (host, port)

-- net.SplitHostPort
unfoldable pub split_host_port : String → Option (String × String)
unfolding bracketed unbracketed cut
split_host_port String.[] = none
split_host_port (String.◌∷◌ c s) =
    let inside = bracketed s (cut s "]") in
    let plain = unbracketed (String.◌∷◌ c s) (cut (String.◌∷◌ c s) ":") in
    if String.◌∷◌ c "" == "[" then inside else plain

unfoldable pub check_listen : String → Option (String × String) → Check
check_listen listen none = err (not_host_port listen)
check_listen listen (some (host, port)) = do
  fail_if (port == "") (port_missing listen)
  fail_if (host == "" || host == "0.0.0.0" || host == "::") (binds_all listen)

unfoldable pub validate_server : ServerConfig → Check
unfolding check_listen split_host_port
validate_server s = do
  fail_if (s.webhook_secret_env == "") secret_required
  check_listen s.listen (split_host_port s.listen)

-- p.Port <= 0 || p.Port > 65535
unfoldable pub out_of_range : ℤ → Bool
out_of_range (negsuc n) = true
out_of_range (pos zero) = true
out_of_range (pos (suc n)) = leb 65535 n

unfoldable pub validate_proxy : ProxyConfig → Check
unfolding out_of_range lowers_to
validate_proxy p = do
  fail_if (p.host == "") host_empty
  fail_if (out_of_range p.port) (port_range p.port)
  fail_if (not (lowers_to p.type "http" || lowers_to p.type "https" || lowers_to p.type "socks5"))
      (unknown_proxy_type p.type)

abbrev pub check_source : Option SourceConfig → Check
check_source none = err source_required
check_source (some s) = validate_source s

abbrev pub check_server : Option ServerConfig → Check
check_server none = ok tt
check_server (some s) = if s.enabled then validate_server s else ok tt

abbrev pub check_proxy : Option ProxyConfig → Check
check_proxy none = ok tt
check_proxy (some p) = validate_proxy p

unfoldable pub validate : Bootstrap → Check
unfolding validate_source validate_server validate_proxy
validate b = do
  check_source b.source
  check_server b.server
  check_proxy b.proxy
  fail_if (is_zero b.update_timeout || is_negative b.update_timeout)
      (update_timeout_positive b.update_timeout)

-- LoadBootstrap behind the decoding: `base_dir` is the directory of the file.
unfoldable pub load : String → Bootstrap → Result BootstrapError Bootstrap
unfolding apply_defaults validate
load base_dir b = validate (apply_defaults base_dir b) >> ok (apply_defaults base_dir b)

unfoldable pub describe : SourceConfig → String
unfolding concat
describe s =
    if s.type == "github"
    then concat "github:" (concat s.repo (concat "@" s.branch))
    else if s.type == "local"
    then concat "local:" s.dir
    else s.type
