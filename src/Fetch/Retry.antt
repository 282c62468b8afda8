-- ===== src/Fetch/Retry.antt =====
-- internal/fetch/retry.go: GetWithRetry. Time is not modelled: the sleeps that end are listed with
-- their lengths. A context that is done ends a sleep with its error.
pub mod Runs
use node_box.Prelude.{
  ℕ, zero, suc, ◌+◌, ◌*◌, ◌-◌, String, Bool, true, false, Option, none, some, List, [], ◌∷◌, ◌++◌,
  Result, ok, err, if◌then◌else◌, ltb, ℤ, pos, negsuc,
}
use node_box.Fetch.{
  Client, Request, Response, Network, Cause, canceled, deadline_exceeded, other, GetError,
  build_request, transport, not_modified, bad_status, read_body, too_large, get, status_retryable,
}

-- The delays are counted in nanoseconds, as time.Duration is.
pub record RetryPolicy : Type 0 where
  pub attempts : ℤ
  pub base : ℕ

abbrev pub default_retry : RetryPolicy
default_retry = record { attempts = pos 3; base = 2_000_000_000 }

abbrev pub retryable_cause : Cause → Bool
retryable_cause canceled = false
retryable_cause deadline_exceeded = false
retryable_cause other = true

unfoldable pub retryable : GetError → Bool
unfolding status_retryable
retryable not_modified = false
retryable (too_large _ _) = false
retryable (bad_status e) = status_retryable e
retryable (build_request _) = true
retryable (transport _ cause) = retryable_cause cause
retryable (read_body _ cause) = retryable_cause cause

pub data RetryError : Type 0 where
  interrupted : Cause → RetryError
  final : GetError → RetryError
  gave_up : ℕ → GetError → RetryError

-- The sleeps made, the number of requests sent, and what is returned.
pub record Attempted : Type 0 where
  pub waits : List ℕ
  pub calls : ℕ
  pub outcome : Result RetryError Response

-- What the context says of the sleep before an attempt: the error of one that is cut short.
abbrev pub Context : Type 0
Context = ℕ → Option Cause

-- after one request: stop, or go on to what the next attempts give
unfoldable pub after_get :
    List ℕ → ℕ → Result GetError Response → (GetError → Attempted) → Attempted
unfolding retryable
after_get waits attempt (ok resp) again = record {
  waits = waits;
  calls = attempt;
  outcome = ok resp;
}
after_get waits attempt (err e) again =
    if retryable e
    then again e
    else record { waits = waits; calls = attempt; outcome = err (final e) }

-- after the sleep before the attempt after this one
unfoldable pub after_sleep : List ℕ → ℕ → Option Cause → Attempted → Attempted
after_sleep waits attempt none next = next
after_sleep waits attempt (some cause) next = record {
  waits = waits;
  calls = attempt;
  outcome = err (interrupted cause);
}

module _ (c : Client) (net : Network) (ctx : Context) (r : Request) (total base : ℕ) where
  -- the loop from one attempt on, with the number of attempts that may still follow it
  unfoldable pub retry_loop : ℕ → List ℕ → ℕ → Attempted
  unfolding after_get after_sleep get
  retry_loop zero waits attempt =
      after_get waits attempt (get c net attempt r)
        (λ e. record { waits = waits; calls = attempt; outcome = err (gave_up total e) })
  retry_loop (suc left) waits attempt = after_get waits attempt (get c net attempt r) (λ e.
      after_sleep waits attempt (ctx attempt)
        (retry_loop left (waits ++ (attempt * base) ∷ []) (suc attempt)))

-- policy.Attempts <= 0
abbrev pub effective : RetryPolicy → ℕ × ℕ
effective policy = elim policy.attempts [
  | negsuc n ↦ (2, 2_000_000_000)
  | pos zero ↦ (2, 2_000_000_000)
  | pos (suc n) ↦ (n, policy.base)
]

unfoldable pub get_with_retry : Client → Network → Context → Request → RetryPolicy → Attempted
unfolding retry_loop
get_with_retry c net ctx r policy =
    let p = effective policy in retry_loop c net ctx r (suc p.0) p.1 p.0 [] 1
