-- ===== src/Webhook.antt =====
-- internal/webhook/server.go: the hook's handler, its signature check and its answers. HMAC-SHA256,
-- the decoding of JSON and the clock are parameters. http.Server routes and times out requests.
pub mod Float
pub mod Bucket
pub mod Signature
pub mod Handled
pub mod Accepted
use Prim.Native.Char.{Char, code, char}
use node_box.Prelude.{
  ℕ, zero, suc, ◌+◌, ◌*◌, ◌-◌, ◌/◌, ◌%◌, String, Bool, true, false, not, ◌&&◌, Option, none, some,
  List, [], ◌∷◌, eqb, ltb, leb, if◌then◌else◌, length,
}
use node_box.Control.{Trigger, webhook}
use node_box.Fetch.{Bytes, take_bytes}
use node_box.Runner.Queue.{trigger}
use node_box.TextUtil.{concat}
use node_box.TextUtil.Replace.{cut_prefix}
use node_box.Webhook.Bucket.{Limiter, allow, Allowed}

abbrev pub max_body : ℕ
max_body = 0x10000

-- hmac.New(sha256.New, secret) over a body, and json.Unmarshal into a hookRequest: its ref.
pub record Host : Type 0 where
  pub hmac : Bytes → Bytes → Bytes
  pub decode : Bytes → Option String

pub record Server : Type 0 where
  pub secret : Bytes
  pub limiter : Limiter

pub record Request : Type 0 where
  pub signature : String
  pub body : Bytes
  pub broken : Bool

unfoldable pub hex_value : ℕ → Option ℕ
hex_value c =
    if leb b'0' c && leb c b'9'
    then some (c - b'0')
    else if leb b'a' c && leb c b'f'
    then some (c - b'a' + 10)
    else if leb b'A' c && leb c b'F'
    then some (c - b'A' + 10)
    else none

abbrev pub hex_byte : Option ℕ → Option ℕ → Option Bytes → Option Bytes
hex_byte (some high) (some low) (some rest) = some ((high * 16 + low) ∷ rest)
hex_byte _ _ _ = none

-- hex.DecodeString
unfoldable pub hex_decode : String → Option Bytes
unfolding hex_value
hex_decode String.[] = some []
hex_decode (String.◌∷◌ c String.[]) = none
hex_decode (String.◌∷◌ c (String.◌∷◌ d s)) =
    hex_byte (hex_value (code c)) (hex_value (code d)) (hex_decode s)

-- hmac.Equal, as a test: that it takes constant time is not modelled.
unfoldable pub same_bytes : Bytes → Bytes → Bool
same_bytes [] [] = true
same_bytes (a ∷ more) (b ∷ bs) = eqb a b && same_bytes more bs
same_bytes _ _ = false

abbrev pub same_mac : Option Bytes → Bytes → Bool
same_mac none mac = false
same_mac (some got) mac = same_bytes got mac

abbrev pub verify_value : Option String → Bytes → Bool
verify_value none mac = false
verify_value (some value) mac = same_mac (hex_decode value) mac

unfoldable pub verify : Host → Server → String → Bytes → Bool
unfolding hex_decode same_bytes cut_prefix
verify host s header body = verify_value (cut_prefix header "sha256=") (host.hmac s.secret body)

-- The digit at a place of a table: encoding/hex picks them by the two halves of a byte.
unfoldable pub rune_at : ℕ → String → Char
rune_at n String.[] = char b'0' tt
rune_at zero (String.◌∷◌ c s) = c
rune_at (suc n) (String.◌∷◌ c s) = rune_at n s

unfoldable pub hex_digit : ℕ → Char
unfolding rune_at
hex_digit n = rune_at n "0123456789abcdef"

unfoldable pub hex_encode : Bytes → String
unfolding hex_digit
hex_encode [] = ""
hex_encode (b ∷ bs) =
    String.◌∷◌ (hex_digit (b / 16)) (String.◌∷◌ (hex_digit (b % 16)) (hex_encode bs))

unfoldable pub compute_signature : Host → Bytes → Bytes → String
unfolding hex_encode concat
compute_signature host secret body = concat "sha256=" (hex_encode (host.hmac secret body))

pub data Answer : Type 0 where
  rate_limited unreadable body_too_large invalid_signature no_object queued : Answer

-- the status codes of package net/http
unfoldable pub status : Answer → ℕ
status rate_limited = 429
status unreadable = 400
status body_too_large = 413
status invalid_signature = 401
status no_object = 400
status queued = 202

pub record HookResult : Type 0 where
  pub server : Server
  pub queue : List Trigger
  pub answer : Answer

-- io.ReadAll(io.LimitReader(r.Body, maxBody+1))
unfoldable pub read_body : Request → Option Bytes
unfolding take_bytes
read_body r =
    if leb (max_body + 1) (length r.body)
    then some (take_bytes (max_body + 1) r.body)
    else if r.broken
    then none
    else some r.body

abbrev pub hook_trigger : String → Trigger
hook_trigger ref = record { kind = webhook; ref = ref; force = false }

abbrev pub answered : Server → List Trigger → Answer → HookResult
answered s queue a = record { server = s; queue = queue; answer = a }

unfoldable pub queue_ref : Server → List Trigger → Option String → HookResult
unfolding trigger
queue_ref s queue none = answered s queue no_object
queue_ref s queue (some ref) = answered s (trigger queue (hook_trigger ref)).0 queued

unfoldable pub handle_body : Host → Server → List Trigger → String → Option Bytes → HookResult
unfolding queue_ref verify
handle_body host s queue signature none = answered s queue unreadable
handle_body host s queue signature (some body) =
    if ltb max_body (length body)
    then answered s queue body_too_large
    else if not (verify host s signature body)
    then answered s queue invalid_signature
    else queue_ref s queue (host.decode body)

-- behind the limiter, which has changed in either case
unfoldable pub handle_allowed : Host → Server → List Trigger → Request → Bool → HookResult
unfolding handle_body read_body
handle_allowed host s queue r false = answered s queue rate_limited
handle_allowed host s queue r true = handle_body host s queue r.signature (read_body r)

unfoldable pub handle_hook : Host → Server → List Trigger → Request → ℕ → HookResult
unfolding handle_allowed allow
handle_hook host s queue r now =
    let a = allow s.limiter now in
    handle_allowed host (record s { limiter = a.limiter }) queue r a.taken
