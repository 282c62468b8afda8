-- ===== src/Fetch.antt =====
-- internal/fetch/client.go: one GET. A body is its bytes. What http.Client.Do answers is a
-- parameter: a reply, or a failure with its cause.
pub mod Retry
pub mod Limits
use node_box.Prelude.{
  ℕ, ◌+◌, String, Bool, true, false, ◌||◌, ◌&&◌, List, [], ◌∷◌, Dict, insert, Result, ok, err,
  ◌>>=◌, if◌then◌else◌, eqb, leb, ltb, length, ◌==◌, foldl, zero, suc, Option, none, some, fail_if,
  not, ◌>>◌,
}

abbrev pub Bytes : Type 0
Bytes = List ℕ

-- 16 << 20
abbrev pub default_max_bytes : ℕ
default_max_bytes = 0x1000000

pub record Client : Type 0 where
  pub user_agent : String
  pub max_bytes : ℕ

-- Without the proxy and the timeout, which only the transport reads.
pub record Options : Type 0 where
  pub user_agent : String
  pub max_bytes : ℕ

unfoldable pub new : Options → Client
new o = record {
  user_agent = if o.user_agent == "" then "node-box" else o.user_agent;
  max_bytes = if eqb o.max_bytes 0 then default_max_bytes else o.max_bytes;
}

pub record Request : Type 0 where
  pub url : String
  pub user_agent : String
  pub headers : Dict String
  pub etag : String
  pub max_bytes : ℕ

pub record Response : Type 0 where
  pub body : Bytes
  pub etag : String

-- What errors.Is tells apart in a transport failure.
pub data Cause : Type 0 where
  canceled : Cause
  deadline_exceeded : Cause
  other : Cause

-- The reply's body may break off: with a cause, after the bytes.
pub record Reply : Type 0 where
  pub status : ℕ
  pub reason : String
  pub etag : String
  pub body : Bytes
  pub broken : Option Cause

-- The request as it is sent.
pub record Sent : Type 0 where
  pub url : String
  pub headers : Dict String

-- Whether http.NewRequestWithContext takes the URL, and http.Client.Do, for each numbered attempt.
pub record Network : Type 0 where
  pub takes_url : String → Bool
  pub send : ℕ → Sent → Result Cause Reply

pub record StatusError : Type 0 where
  pub url : String
  pub status : ℕ
  pub reason : String

pub data GetError : Type 0 where
  build_request : String → GetError
  transport : String → Cause → GetError
  not_modified : GetError
  bad_status : StatusError → GetError
  read_body : String → Cause → GetError
  too_large : String → ℕ → GetError

-- req.Header.Set, in the order of the code
unfoldable pub request_headers : Client → Request → Dict String
request_headers c r =
    let agent =
      insert "User-Agent" (if r.user_agent == "" then c.user_agent else r.user_agent) [] in
    let own = foldl (λ hs h. insert h.0 h.1 hs) agent r.headers in
    if r.etag == "" then own else insert "If-None-Match" r.etag own

-- io.LimitReader: the first bytes
unfoldable pub take_bytes : ℕ → Bytes → Bytes
take_bytes zero bs = []
take_bytes (suc n) [] = []
take_bytes (suc n) (b ∷ bs) = b ∷ take_bytes n bs

abbrev pub fail_broken : String → Option Cause → Bytes → Result GetError Bytes
fail_broken url none bs = ok bs
fail_broken url (some cause) bs = err (read_body url cause)

-- io.ReadAll over io.LimitReader(body, cap): a body that breaks off behind the cap is not seen to.
unfoldable pub read_capped : String → ℕ → Reply → Result GetError Bytes
unfolding take_bytes
read_capped url cap reply =
    if leb cap (length reply.body)
    then ok (take_bytes cap reply.body)
    else fail_broken url reply.broken reply.body

unfoldable pub body_limit : Client → Request → ℕ
body_limit c r = if eqb r.max_bytes 0 then c.max_bytes else r.max_bytes

-- the cap on what was read
unfoldable pub check_size : String → ℕ → String → Bytes → Result GetError Response
check_size url limit etag bs =
    fail_if (ltb limit (length bs)) (too_large url limit) >> ok (record { body = bs; etag = etag })

-- the body of a reply whose status is a success
unfoldable pub read_reply : String → ℕ → Reply → Result GetError Response
unfolding read_capped check_size
read_reply url limit reply = read_capped url (limit + 1) reply >>= check_size url limit reply.etag

unfoldable pub receive : Client → Request → Reply → Result GetError Response
unfolding read_reply body_limit
receive c r reply =
    if eqb reply.status 304
    then err not_modified
    else if ltb reply.status 200 || leb 300 reply.status
    then err (bad_status (record { url = r.url; status = reply.status; reason = reply.reason }))
    else read_reply r.url (body_limit c r) reply

unfoldable pub answer : Client → Request → Result Cause Reply → Result GetError Response
unfolding receive
answer c r (err cause) = err (transport r.url cause)
answer c r (ok reply) = receive c r reply

unfoldable pub get : Client → Network → ℕ → Request → Result GetError Response
unfolding request_headers answer
get c net attempt r =
    if not (net.takes_url r.url)
    then err (build_request r.url)
    else answer c r (net.send attempt (record { url = r.url; headers = request_headers c r }))

unfoldable pub status_retryable : StatusError → Bool
status_retryable e = eqb e.status 408 || eqb e.status 429 || leb 500 e.status
