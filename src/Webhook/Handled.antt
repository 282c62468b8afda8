-- ===== src/Webhook/Handled.antt =====
-- handleHook of internal/webhook/server.go: what a request must be to queue an update.
use node_box.Prelude.{
  ℕ, ◌+◌, ◌≤◌, String, ◌≡◌, ◌⊎◌, inl, inr, refl, sym, ap, subst, Bool, true, false, not, Option,
  none, some, List, [], ◌∷◌, ◌∙◌, arith, leb, ltb, if◌then◌else◌, length,
}
use node_box.Control.{Trigger}
use node_box.Fetch.{Bytes, take_bytes}
use node_box.Fetch.Limits.{length-take_bytes}
use node_box.Runner.Queue.{trigger}
use node_box.Webhook.{
  max_body, Host, Server, Request, verify, verify_value, same_mac, same_bytes, hex_decode, Answer,
  rate_limited, unreadable, body_too_large, invalid_signature, no_object, queued, status,
  HookResult, read_body, hook_trigger, answered, queue_ref, handle_body, handle_allowed,
  handle_hook,
}
use node_box.Webhook.Bucket.{allow, Limiter}
use node_box.TextUtil.{concat}
use node_box.TextUtil.Replace.{cut_prefix}
use node_box.TextUtil.Replace.Cut.{some_inj, cut_prefix-eq}

-- The header is "sha256=" with the digits of the HMAC of the body under the secret.
abbrev pub Carries : Host → Server → String → Bytes → Type 0
Carries host s header body =
    (digits : String) × (header ≡ concat "sha256=" digits)
    × (hex_decode digits ≡ some (host.hmac s.secret body))

same_bytes-eq : (xs ys : Bytes) → same_bytes xs ys ≡ true → xs ≡ ys
unfolding same_bytes
same_bytes-eq [] [] h = refl
same_bytes-eq [] (y ∷ ys) h = cc
same_bytes-eq (x ∷ xs) [] h = cc
same_bytes-eq (x ∷ xs) (y ∷ ys) h =
    let head : x ≡ y = ground arith in
    let tail = same_bytes-eq xs ys (ground arith) in cc (head, tail)

verify-Carries :
    (host : Host) (s : Server) (header : String) (body : Bytes)
    → verify host s header body ≡ true
    → Carries host s header body
unfolding verify hex_decode cut_prefix same_bytes
verify-Carries host s header body h = go (cut_prefix header "sha256=") refl h
  where
    go :
        (o : Option String)
        → cut_prefix header "sha256=" ≡ o
        → verify_value o (host.hmac s.secret body) ≡ true
        → Carries host s header body
    go none e v = cc
    go (some value) e v = by (hex_decode value) refl v
      where
        by :
            (m : Option Bytes)
            → hex_decode value ≡ m
            → same_mac m (host.hmac s.secret body) ≡ true
            → Carries host s header body
        by none f w = cc
        by (some got) f w = (
          value,
          cut_prefix-eq header "sha256=" value e,
          f ∙ ap some (same_bytes-eq got (host.hmac s.secret body) w),
        )

-- The whole body is there, is not too large, carries the signature and names a ref.
abbrev pub IsSigned : Host → Server → Request → String → Type 0
IsSigned host s r ref =
    (length r.body ≤ max_body)
    × (r.broken ≡ false)
    × Carries host s r.signature r.body
    × (host.decode r.body ≡ some ref)

-- Refused with the queue as it was, or queued with one trigger for the ref of a signed body.
abbrev pub IsHandled : Host → Server → List Trigger → Request → HookResult → Type 0
IsHandled host s queue r result =
    ((result.queue ≡ queue) × (400 ≤ status result.answer))
    ⊎ ((result.answer ≡ queued)
        × ((ref : String) × IsSigned host s r ref
            × (result.queue ≡ (trigger queue (hook_trigger ref)).0)))

leb_le : (m n : ℕ) → leb m n ≡ true → m ≤ n
leb_le m n h = ground arith

cut_too_long :
    (limit : ℕ) (bs body : Bytes)
    → limit + 1 ≤ length bs
    → take_bytes (limit + 1) bs ≡ body
    → ¬ length body ≤ limit
cut_too_long limit bs body over e le =
    omega (arith, over, le, length-take_bytes (limit + 1) bs over, ap length e)

-- A body that is not too large was read whole.
read_body_whole :
    (r : Request) (body : Bytes)
    → read_body r ≡ some body
    → length body ≤ max_body
    → (body ≡ r.body) × (r.broken ≡ false)
unfolding read_body
read_body_whole r body e le = go (leb (max_body + 1) (length r.body)) r.broken refl refl e
  where
    go :
        (b c : Bool)
        → leb (max_body + 1) (length r.body) ≡ b
        → r.broken ≡ c
        → (if b then some (take_bytes (max_body + 1) r.body) else if c then none else some r.body)
          ≡ some body
        → (body ≡ r.body) × (r.broken ≡ false)
    go true c over f h =
        absurd (cut_too_long max_body r.body body (leb_le _ _ over) (some_inj h) le)
    go false true fits f h = cc
    go false false fits f h = (sym (some_inj h), f)

module _ (host : Host) (s : Server) (queue : List Trigger) (r : Request) where
  refused :
      (t : Server) (a : Answer) → 400 ≤ status a → IsHandled host s queue r (answered t queue a)
  refused t a le = inl (refl, le)

  queue_ref-IsHandled :
      (t : Server) (body : Bytes) (ref : Option String)
      → length body ≤ max_body
      → (body ≡ r.body) × (r.broken ≡ false)
      → verify host s r.signature body ≡ true
      → host.decode body ≡ ref
      → IsHandled host s queue r (queue_ref t queue ref)
  unfolding queue_ref status
  queue_ref-IsHandled t body none le w v d = refused t no_object (omega arith)
  queue_ref-IsHandled t body (some ref) le (e, f) v d = inr (
    refl,
    (
      ref,
      (
        subst (λ y. length y ≤ max_body) e le,
        f,
        verify-Carries host s r.signature r.body
            (subst (λ y. verify host s r.signature y ≡ true) e v),
        subst (λ y. host.decode y ≡ some ref) e d,
      ),
      refl,
    ),
  )

  handle_body-IsHandled :
      (l : Limiter) (o : Option Bytes)
      → read_body r ≡ o
      → IsHandled host s queue r (handle_body host (record s { limiter = l }) queue r.signature o)
  unfolding handle_body verify status
  handle_body-IsHandled l none b = refused (record s { limiter = l }) unreadable (omega arith)
  handle_body-IsHandled l (some body) b =
      go (ltb max_body (length body)) (verify host s r.signature body) refl refl
    where
      go :
          (x y : Bool)
          → ltb max_body (length body) ≡ x
          → verify host s r.signature body ≡ y
          → IsHandled host s queue r (
              if x
              then answered (record s { limiter = l }) queue body_too_large
              else if not y
              then answered (record s { limiter = l }) queue invalid_signature
              else queue_ref (record s { limiter = l }) queue (host.decode body))
      go true y p q = refused (record s { limiter = l }) body_too_large (omega arith)
      go false false p q = refused (record s { limiter = l }) invalid_signature (omega arith)
      go false true p q =
          let le : length body ≤ max_body = ground arith in
          queue_ref-IsHandled (record s { limiter = l }) body (host.decode body) le
            (read_body_whole r body b le) q refl

  handle_allowed-IsHandled :
      (l : Limiter) (taken : Bool)
      → IsHandled host s queue r (handle_allowed host (record s { limiter = l }) queue r taken)
  unfolding handle_allowed status
  handle_allowed-IsHandled l false = refused (record s { limiter = l }) rate_limited (omega arith)
  handle_allowed-IsHandled l true = handle_body-IsHandled l (read_body r) refl

  -- A request to the hook either leaves the queue as it was and is answered with a status of at
  -- least 400, or its whole body is at most 64 KiB, carries the HMAC of that body in
  -- its header and decodes to a request, whose ref may be empty, and the queue is the one that Trigger leaves for a webhook trigger with that ref.
  pub handle_hook-IsHandled : (now : ℕ) → IsHandled host s queue r (handle_hook host s queue r now)
  unfolding handle_hook
  handle_hook-IsHandled now =
      handle_allowed-IsHandled (allow s.limiter now).limiter (allow s.limiter now).taken
