-- ===== src/Fetch/Retry/Runs.antt =====
-- GetWithRetry of internal/fetch/retry.go: how many requests it sends, how long it waits, and
-- when it stops.
use node_box.Prelude.{
  ℕ, zero, suc, ◌*◌, ◌≤◌, ◌<◌, ◌≡◌, ◌⊎◌, refl, ◌-◌, ℤ, pos, negsuc, some, List, [], ◌∷◌, ◌++◌,
  arith, Result, ok, err,
}
use node_box.Fetch.{
  Client, Request, Response, Network, GetError, get, canceled, deadline_exceeded, other,
  not_modified, too_large, bad_status, build_request, transport, read_body,
}
use node_box.Fetch.Retry.{Attempted, RetryError, interrupted, final, gave_up, Context}

-- Another attempt may mend it: an overloaded or broken server, or a transport that failed while the
-- context was not done.
abbrev pub Mendable : GetError → Type 0
Mendable not_modified = ⊥
Mendable (too_large _ _) = ⊥
Mendable (bad_status e) = (e.status ≡ 408) ⊎ ((e.status ≡ 429) ⊎ (500 ≤ e.status))
Mendable (build_request _) = Unit
Mendable (transport _ canceled) = ⊥
Mendable (transport _ deadline_exceeded) = ⊥
Mendable (transport _ other) = Unit
Mendable (read_body _ canceled) = ⊥
Mendable (read_body _ deadline_exceeded) = ⊥
Mendable (read_body _ other) = Unit

-- The sleeps before the attempts 2 to n: one unit longer each time.
abbrev pub delays : ℕ → ℕ → List ℕ
delays base zero = []
delays base (suc zero) = []
delays base (suc (suc n)) = delays base (suc n) ++ (suc n * base) ∷ []

-- What a run sent, with at most `total` requests.
module _ (c : Client) (net : Network) (ctx : Context) (r : Request) where
  -- The request fails in a way that another attempt may mend.
  abbrev pub Transient : ℕ → GetError → Type 0
  Transient n e = (get c net n r ≡ err e) × Mendable e

  -- What ended the run, by the last request.
  abbrev pub Stopped : ℕ → ℕ → Result RetryError Response → Type 0
  Stopped total n (ok resp) = get c net n r ≡ ok resp
  Stopped total n (err (final e)) = (get c net n r ≡ err e) × (¬ Mendable e)
  Stopped total n (err (gave_up m e)) = (m ≡ total) × (n ≡ total) × Transient n e
  Stopped total n (err (interrupted cause)) =
      (n < total) × (ctx n ≡ some cause) × ((e : GetError) × Transient n e)

  abbrev pub RunsFrom : ℕ → ℕ → ℕ → Attempted → Type 0
  RunsFrom total base first run =
      (first ≤ run.calls)
      × (run.calls ≤ total)
      × (run.waits ≡ delays base run.calls)
      × ((n : ℕ) → first ≤ n → n < run.calls → (e : GetError) × Transient n e)
      × Stopped total run.calls run.outcome

  -- The attempts of a policy, and its delay; three and two seconds where it has none.
  abbrev pub attempts_of : ℤ → ℕ
  attempts_of (pos (suc n)) = suc n
  attempts_of (pos zero) = 3
  attempts_of (negsuc n) = 3

  abbrev pub delay_of : ℤ → ℕ → ℕ
  delay_of (pos (suc n)) base = base
  delay_of (pos zero) base = 2_000_000_000
  delay_of (negsuc n) base = 2_000_000_000

  positive : (attempts : ℤ) → suc (attempts_of attempts - 1) ≡ attempts_of attempts
  positive (pos (suc n)) = omega arith
  positive (pos zero) = refl
  positive (negsuc n) = refl
