-- ===== src/Model/Bootstrap/Filled.antt =====
-- applyDefaults of internal/model/bootstrap.go: what stands in for what the file leaves out.
use node_box.Prelude.{
  String, ◌≡◌, ◌≢◌, ◌⊎◌, inl, inr, refl, Bool, true, false, ◌&&◌, Option, none, some, ◌==◌, eq_iff,
  eq_false→ne, if◌then◌else◌, ℤ, pos, is_zero,
}
use node_box.Model.Bootstrap.{
  Bootstrap, SourceConfig, ServerConfig, apply_defaults, source_defaults, server_defaults, on_some,
  or_default,
}

-- The text of the file, or the fallback where that is empty.
abbrev pub Fills : String → String → String → Type 0
Fills fallback s t = ((s ≡ "") × (t ≡ fallback)) ⊎ ((s ≢ "") × (t ≡ s))

-- Ten minutes for a GitHub source whose poll interval is zero or left out.
abbrev pub FillsInterval : SourceConfig → ℤ → Type 0
FillsInterval s t =
    ((is_zero s.poll_interval ≡ true) × (s.type ≡ "github") × (t ≡ pos 600_000_000_000))
    ⊎ (((is_zero s.poll_interval ≡ false) ⊎ (s.type ≢ "github")) × (t ≡ s.poll_interval))

abbrev pub FillsSource : Option SourceConfig → Option SourceConfig → Type 0
FillsSource none t = t ≡ none
FillsSource (some s) none = ⊥
FillsSource (some s) (some t) =
    (t.type ≡ s.type)
    × (t.repo ≡ s.repo)
    × (t.token_env ≡ s.token_env)
    × Fills "main" s.branch t.branch
    × FillsInterval s t.poll_interval

abbrev pub FillsServer : Option ServerConfig → Option ServerConfig → Type 0
FillsServer none t = t ≡ none
FillsServer (some s) none = ⊥
FillsServer (some s) (some t) =
    (t.enabled ≡ s.enabled)
    × (t.webhook_secret_env ≡ s.webhook_secret_env)
    × Fills "127.0.0.1:8788" s.listen t.listen

-- Info, fifteen minutes, the branch main, ten minutes, and port 8788 of the loopback address.
abbrev pub IsFilled : Bootstrap → Bootstrap → Type 0
IsFilled b c =
    Fills "info" b.log_level c.log_level
    × (((is_zero b.update_timeout ≡ true) × (c.update_timeout ≡ pos 900_000_000_000))
        ⊎ ((is_zero b.update_timeout ≡ false) × (c.update_timeout ≡ b.update_timeout)))
    × FillsSource b.source c.source
    × FillsServer b.server c.server
    × (c.proxy ≡ b.proxy)

or_default-Fills : (s fallback : String) → Fills fallback s (or_default s fallback)
or_default-Fills s fallback = go (s == "") refl
  where
    go : (x : Bool) → (s == "") ≡ x → Fills fallback s (if x then fallback else s)
    go true e = inl ((eq_iff s "").0 e, refl)
    go false e = inr (eq_false→ne s "" e, refl)

interval :
    (s : SourceConfig) (x y : Bool)
    → is_zero s.poll_interval ≡ x
    → (s.type == "github") ≡ y
    → FillsInterval s (if x && y then pos 600_000_000_000 else s.poll_interval)
interval s true true p q = inl (p, (eq_iff s.type "github").0 q, refl)
interval s true false p q = inr (inr (eq_false→ne s.type "github" q), refl)
interval s false y p q = inr (inl p, refl)

source_defaults-FillsSource :
    (base : String) (o : Option SourceConfig) → FillsSource o (on_some (source_defaults base) o)
unfolding source_defaults
source_defaults-FillsSource base none = refl
source_defaults-FillsSource base (some s) = (
  refl,
  refl,
  refl,
  or_default-Fills s.branch "main",
  interval s (is_zero s.poll_interval) (s.type == "github") refl refl,
)

server_defaults-FillsServer : (o : Option ServerConfig) → FillsServer o (on_some server_defaults o)
unfolding server_defaults
server_defaults-FillsServer none = refl
server_defaults-FillsServer (some s) = (refl, refl, or_default-Fills s.listen "127.0.0.1:8788")

pub apply_defaults-IsFilled : (base : String) (b : Bootstrap) → IsFilled b (apply_defaults base b)
unfolding apply_defaults source_defaults server_defaults
apply_defaults-IsFilled base b = (
  or_default-Fills b.log_level "info",
  timeout (is_zero b.update_timeout) refl,
  source_defaults-FillsSource base b.source,
  server_defaults-FillsServer b.server,
  refl,
)
  where
    timeout :
        (x : Bool)
        → is_zero b.update_timeout ≡ x
        → ((is_zero b.update_timeout ≡ true)
            × ((if x then pos 900_000_000_000 else b.update_timeout) ≡ pos 900_000_000_000))
          ⊎ ((is_zero b.update_timeout ≡ false)
              × ((if x then pos 900_000_000_000 else b.update_timeout) ≡ b.update_timeout))
    timeout true e = inl (e, refl)
    timeout false e = inr (e, refl)
