-- ===== src/Webhook/Accepted.antt =====
-- handleHook of internal/webhook/server.go: the requests that it takes.
use node_box.Prelude.{
  ℕ, ◌≤◌, String, ◌≡◌, refl, ap, ◌∙◌, true, false, some, List, arith, leb, ltb, length, ◌+◌,
}
use node_box.Control.{Trigger}
use node_box.Runner.Queue.{trigger}
use node_box.Webhook.{
  max_body, Host, Server, Request, compute_signature, verify, queued, answered, hook_trigger,
  read_body, queue_ref, handle_body, handle_allowed, handle_hook,
}
use node_box.Webhook.Bucket.{allow, Limiter}
use node_box.Webhook.Signature.{IsBytes, verify-compute_signature}

lt_false : (m n : ℕ) → n ≤ m → ltb m n ≡ false
lt_false m n h = ground arith

leb-false : (m n : ℕ) → n ≤ m → leb (m + 1) n ≡ false
leb-false m n h = ground arith

read_body_all :
    (r : Request) → length r.body ≤ max_body → r.broken ≡ false → read_body r ≡ some r.body
unfolding read_body
read_body_all r le whole = rw (leb-false max_body (length r.body) le, whole) refl

module _ (host : Host) (s : Server) (queue : List Trigger) (r : Request) (ref : String) where
  handle_body_all :
      (l : Limiter)
      → length r.body ≤ max_body
      → verify host s r.signature r.body ≡ true
      → host.decode r.body ≡ some ref
      → handle_body host (record s { limiter = l }) queue r.signature (some r.body)
        ≡ answered (record s { limiter = l }) (trigger queue (hook_trigger ref)).0 queued
  unfolding handle_body verify queue_ref
  handle_body_all l le v d = rw (lt_false max_body (length r.body) le, v, d) refl

  -- Where a token is left, a whole body of at most 64 KiB that names a ref, under the signature
  -- that ComputeSignature gives for it, is answered as queued, with a webhook trigger for that
  -- ref handed to Trigger; the HMAC is a list of bytes.
  pub handle_hook-compute_signature :
      (now : ℕ)
      → (allow s.limiter now).taken ≡ true
      → length r.body ≤ max_body
      → r.broken ≡ false
      → IsBytes (host.hmac s.secret r.body)
      → r.signature ≡ compute_signature host s.secret r.body
      → host.decode r.body ≡ some ref
      → handle_hook host s queue r now
        ≡ answered
            (record s { limiter = (allow s.limiter now).limiter })
            (trigger queue (hook_trigger ref)).0
            queued
  unfolding handle_hook handle_allowed
  handle_hook-compute_signature now token le whole bytes signed d =
      ap (handle_allowed host (record s { limiter = (allow s.limiter now).limiter }) queue r) token
      ∙ ap
          (handle_body host (record s { limiter = (allow s.limiter now).limiter }) queue
            r.signature)
          (read_body_all r le whole)
      ∙ handle_body_all (allow s.limiter now).limiter le
          (ap (λ h. verify host s h r.body) signed ∙ verify-compute_signature host s r.body bytes) d
