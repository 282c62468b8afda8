-- ===== src/Samples/Hook.antt =====
-- A hook with a secret, one signed request and a full bucket of tokens.
use node_box.Prelude.{◌≡◌, refl, sym, true, false, some, [], ◌∷◌, arith, length, ℕ, zero, suc}
use node_box.Runner.Queue.{trigger}
use node_box.Webhook.{
  Host, Server, Request, compute_signature, handle_hook, hook_trigger, answered, queued,
  invalid_signature,
}
use node_box.Webhook.Bucket.{Limiter, new_limiter, allow}
use node_box.Webhook.Handled.{IsHandled, handle_hook-IsHandled}
use node_box.Webhook.Accepted.{handle_hook-compute_signature}

abbrev host : Host
host = record { hmac = λ secret body. length body ∷ 0xAB ∷ secret; decode = λ body. some "abc" }

abbrev bucket : Limiter
bucket = new_limiter 2 60_000_000_000 0

abbrev server : Server
server = record { secret = 7 ∷ []; limiter = bucket }

abbrev hook : Request
hook = record { signature = "sha256=01ab07"; body = 1 ∷ []; broken = false }

signed : compute_signature host (7 ∷ []) (1 ∷ []) ≡ "sha256=01ab07"
unfolding compute_signature
signed = refl

has_token : (allow bucket 5).taken ≡ true
unfolding allow new_limiter
has_token = refl

handle_hook-compute_signature_example :
    handle_hook host server [] hook 5
    ≡ answered
        (record { secret = 7 ∷ []; limiter = (allow bucket 5).limiter })
        (trigger [] (hook_trigger "abc")).0
        queued
handle_hook-compute_signature_example =
    handle_hook-compute_signature host server [] hook "abc" 5 has_token (omega arith) refl
      (omega arith, (omega arith, (omega arith, tt))) (sym signed) refl

handle_hook-IsHandled_example : IsHandled host server [] hook (handle_hook host server [] hook 5)
handle_hook-IsHandled_example = handle_hook-IsHandled host server [] hook 5

-- Another body under the same signature is refused.
refused :
    (handle_hook host server [] (record hook { body = 1 ∷ 2 ∷ [] }) 5).answer ≡ invalid_signature
unfolding handle_hook new_limiter
refused = refl

-- Of three requests at once two pass, and half a minute later there is a token again.
emptied : ℕ → Limiter
unfolding allow new_limiter
emptied zero = bucket
emptied (suc m) = (allow (emptied m) 0).limiter

second_passes : (allow (emptied 1) 0).taken ≡ true
unfolding allow new_limiter emptied
second_passes = refl

third_waits : (allow (emptied 2) 0).taken ≡ false
unfolding allow new_limiter emptied
third_waits = refl

half_a_minute : (allow (emptied 2) 30_000_000_000).taken ≡ true
unfolding allow new_limiter emptied
half_a_minute = refl
