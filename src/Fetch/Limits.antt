-- ===== src/Fetch/Limits.antt =====
-- Get of internal/fetch/client.go: the cap on a body.
use node_box.Prelude.{
  ok_inj, ℕ, zero, suc, ◌+◌, ◌≤◌, ◌<◌, String, ◌≡◌, ◌↔◌, refl, sym, subst, ◌∙◌, not, ap, fail_if,
  ◌>>◌, ◌>>=◌, Bool, true, false, Option, none, some, [], ◌∷◌, arith, Result, ok, err, length, leb,
  ltb, eqb, ◌||◌, if◌then◌else◌,
}
use node_box.Fetch.{
  Bytes, Client, Request, Response, Reply, Cause, take_bytes, read_capped, fail_broken, body_limit,
  check_size, read_reply, receive, too_large, not_modified, bad_status, answer, get, build_request,
  Network, Sent, request_headers,
}

pub length-take_bytes : (n : ℕ) (bs : Bytes) → n ≤ length bs → length (take_bytes n bs) ≡ n
unfolding take_bytes
length-take_bytes zero bs h = refl
length-take_bytes (suc n) [] h = absurd (omega (arith, h))
length-take_bytes (suc n) (b ∷ bs) h = omega (arith, length-take_bytes n bs (omega (arith, h)))

-- The whole body, and it fits.
abbrev pub Whole : ℕ → Reply → Response → Type 0
Whole limit reply resp =
    (length reply.body ≤ limit)
    × (reply.broken ≡ none)
    × (reply.body ≡ resp.body)
    × (reply.etag ≡ resp.etag)

check_size_iff :
    (url : String) (limit : ℕ) (etag : String) (bs : Bytes) (resp : Response)
    → (check_size url limit etag bs ≡ ok resp)
      ↔ ((length bs ≤ limit) × (bs ≡ resp.body) × (etag ≡ resp.etag))
unfolding check_size
check_size_iff url limit etag bs resp = go (ltb limit (length bs)) refl
  where
    go :
        (b : Bool)
        → ltb limit (length bs) ≡ b
        → ((fail_if b (too_large url limit) >> ok (record { body = bs; etag = etag })) ≡ ok resp)
          ↔ ((length bs ≤ limit) × (bs ≡ resp.body) × (etag ≡ resp.etag))
    go true over = (λ h. cc, λ (le, _, _). absurd (ground arith))
    go false fits = (
      λ h. (ground arith, ap (λ x. x.body) (ok_inj h), ap (λ x. x.etag) (ok_inj h)),
      λ (_, e, f) i. ok (record { body = e i; etag = f i }),
    )

read_reply_iff :
    (url : String) (limit : ℕ) (reply : Reply) (resp : Response)
    → (read_reply url limit reply ≡ ok resp) ↔ Whole limit reply resp
unfolding read_reply read_capped
read_reply_iff url limit reply resp =
    go (leb (limit + 1) (length reply.body)) reply.broken refl refl
  where
    go :
        (b : Bool) (broken : Option Cause)
        → leb (limit + 1) (length reply.body) ≡ b
        → reply.broken ≡ broken
        → (((if b
                then ok (take_bytes (limit + 1) reply.body)
                else fail_broken url broken reply.body)
              >>= check_size url limit reply.etag)
            ≡ ok resp)
          ↔ Whole limit reply resp
    go true broken over e = (
      λ h.
          let (le, _, _) = (check_size_iff url limit reply.etag _ resp).0 h in
          absurd (omega (arith, le, length-take_bytes (limit + 1) reply.body (ground arith))),
      λ (le, _, _, _). absurd (ground arith),
    )
    go false none fits e =
        let i = check_size_iff url limit reply.etag reply.body resp in
        (λ h. let (le, b, t) = i.0 h in (le, e, b, t), λ (le, _, b, t). i.1 (le, b, t))
    go false (some cause) fits e = (λ h. cc, λ (_, n, _, _). cc (n, e))

-- A status of success.
abbrev pub IsSuccess : ℕ → Type 0
IsSuccess status = (200 ≤ status) × (status < 300)

pub receive_iff :
    (c : Client) (r : Request) (reply : Reply) (resp : Response)
    → (receive c r reply ≡ ok resp) ↔ (IsSuccess reply.status × Whole (body_limit c r) reply resp)
unfolding receive
receive_iff c r reply resp =
    go (eqb reply.status 304) (ltb reply.status 200 || leb 300 reply.status) refl refl
  where
    i : (read_reply r.url (body_limit c r) reply ≡ ok resp) ↔ Whole (body_limit c r) reply resp
    i = read_reply_iff r.url (body_limit c r) reply resp

    go :
        (b d : Bool)
        → eqb reply.status 304 ≡ b
        → (ltb reply.status 200 || leb 300 reply.status) ≡ d
        → ((if b
              then err not_modified
              else if d
              then err (
                  bad_status (record { url = r.url; status = reply.status; reason = reply.reason }))
              else read_reply r.url (body_limit c r) reply)
            ≡ ok resp)
          ↔ (IsSuccess reply.status × Whole (body_limit c r) reply resp)
    go true d e f = (λ h. cc, λ (p, _). absurd (ground (arith, p)))
    go false true e f = (λ h. cc, λ (p, _). absurd (ground (arith, p)))
    go false false e f = (λ h. ((ground arith, ground arith), i.0 h), λ (_, w). i.1 w)

-- The cap on a body: the request's own, unless that is zero, which stands for the client's.
abbrev pub cap_of : ℕ → ℕ → ℕ
cap_of zero of_client = of_client
cap_of (suc n) of_client = suc n

body_limit-cap_of : (c : Client) (r : Request) → body_limit c r ≡ cap_of r.max_bytes c.max_bytes
unfolding body_limit
body_limit-cap_of c r = go r.max_bytes
  where
    go : (n : ℕ) → (if eqb n 0 then c.max_bytes else n) ≡ cap_of n c.max_bytes
    go zero = refl
    go (suc n) = let ne : eqb (suc n) 0 ≡ false = ground arith in rw ne refl

abbrev pub sent : Client → Request → Sent
sent c r = record { url = r.url; headers = request_headers c r }

-- Get succeeds exactly if the URL is taken and the reply has a status from 200 to 299 and a
-- whole body no longer than the cap of the request, or of the client where that is zero, and then returns that body, unshortened,
-- and the ETag.
pub get_iff :
    (c : Client) (net : Network) (attempt : ℕ) (r : Request) (resp : Response)
    → (get c net attempt r ≡ ok resp) ↔ (
        (net.takes_url r.url ≡ true)
        × ((reply : Reply) × (net.send attempt (sent c r) ≡ ok reply)
            × IsSuccess reply.status
            × Whole (cap_of r.max_bytes c.max_bytes) reply resp))
unfolding get answer
get_iff c net attempt r resp = go (net.takes_url r.url) (net.send attempt (sent c r)) refl refl
  where
    go :
        (b : Bool) (got : Result Cause Reply)
        → net.takes_url r.url ≡ b
        → net.send attempt (sent c r) ≡ got
        → ((if not b then err (build_request r.url) else answer c r got) ≡ ok resp) ↔ (
            (net.takes_url r.url ≡ true)
            × ((reply : Reply) × (net.send attempt (sent c r) ≡ ok reply)
                × IsSuccess reply.status
                × Whole (cap_of r.max_bytes c.max_bytes) reply resp))
    go false got e f = (λ h. cc, λ (t, _). cc (t, e))
    go true (err cause) e f = (λ h. cc, λ (_, (_, g, _, _)). cc (f, g))
    go true (ok reply) e f = (
      λ h.
          let (s, w) = (receive_iff c r reply resp).0 h in
          (e, (reply, f, s, subst (λ l. Whole l reply resp) (body_limit-cap_of c r) w)),
      λ (_, found).
          let (other, g, s, w) = found in
          let same : other ≡ reply = ok_inj (sym g ∙ f) in
          let (s', w') =
            subst (λ y. IsSuccess y.status × Whole (cap_of r.max_bytes c.max_bytes) y resp) same
              (s, w) in
          (receive_iff c r reply resp).1
            (s', subst (λ l. Whole l reply resp) (sym (body_limit-cap_of c r)) w'),
    )
