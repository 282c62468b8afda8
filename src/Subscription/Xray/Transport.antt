-- ===== src/Subscription/Xray/Transport.antt =====
-- setTransport of internal/subscription/xray/converter.go.
use node_box.Prelude.{
  zero, suc, String, Option, none, some, [], ◌∷◌, ◌==◌, ◌||◌, if◌then◌else◌, Dict, ℤ, pos, negsuc,
  is_nil,
}
use node_box.Json.{Fields, bool, num, str, arr, obj, end, field, items, put}
use node_box.TextUtil.{concat}
use node_box.TextUtil.Replace.{cut}
use node_box.Subscription.Xray.{Query, Readers, Atoi, query_get, query_bool, atoi, put_text}

abbrev above_zero : ℤ → Option ℤ
above_zero (pos (suc n)) = some (pos (suc n))
above_zero (pos zero) = none
above_zero (negsuc n) = none

abbrev positive_of : Atoi → Option ℤ
positive_of a = if a.valid then above_zero a.number else none

-- `if v, err := strconv.Atoi(s); err == nil && v > 0`
unfoldable pub positive : String → Option ℤ
unfolding atoi
positive s = positive_of (atoi s)

abbrev typed : String → Fields
typed t = field "type" (str t) end

-- The path before a question mark, and the early data that the query behind it asks for.
abbrev pub ed_of : Option Query → Option ℤ
ed_of none = none
ed_of (some q) = positive (query_get "ed" q)

unfoldable pub split_path : Readers → String → Option (String × String) → String × Option ℤ
unfolding positive query_get
split_path r raw none = (raw, none)
split_path r raw (some (before, after)) = (before, ed_of (r.parse_query after))

abbrev put_early_data : Readers → Option ℤ → Fields → Fields
put_early_data r none t = t
put_early_data r (some v) t =
    put "early_data_header_name" (str "Sec-WebSocket-Protocol")
      (put "max_early_data" (num (r.literal v)) t)

abbrev put_host_header : String → Fields → Fields
put_host_header host t =
    if host == "" then t else put "headers" (obj (field "Host" (str host) end)) t

unfoldable pub ws_transport : Readers → String → Query → Fields
unfolding split_path cut put_text query_get
ws_transport r host q =
    let raw = query_get "path" q in
    let p = split_path r raw (cut raw "?") in
    put_early_data r p.1 (put_host_header host (put_text "path" p.0 (typed "ws")))

abbrev put_seconds : Readers → String → Option ℤ → Fields → Fields
put_seconds r k none t = t
put_seconds r k (some v) t = put k (str (concat (r.literal v) "s")) t

abbrev put_permit : String → Fields → Fields
put_permit pws t = if pws == "" then t else put "permit_without_stream" (bool (query_bool pws)) t

-- The service name of the link, or its path.
unfoldable pub service_name : Query → String
unfolding query_get
service_name q =
    if query_get "serviceName" q == "" then query_get "path" q else query_get "serviceName" q

-- An empty parameter is no number, so the tests for one are the ones of strconv.Atoi.
unfoldable pub grpc_transport : Readers → Query → Fields
unfolding service_name positive query_get query_bool put_text concat
grpc_transport r q = put_permit (query_get "permit_without_stream" q) (
    put_seconds r "ping_timeout" (positive (query_get "health_check_timeout" q)) (
      put_seconds r "idle_timeout" (positive (query_get "idle_timeout" q))
        (put_text "service_name" (service_name q) (typed "grpc"))))

unfoldable pub http_transport : String → Query → Fields
unfolding put_text query_get
http_transport host q =
    let t = put_text "path" (query_get "path" q) (typed "http") in
    if host == "" then t else put "host" (arr (items (str host ∷ []))) t

abbrev header_fields : Dict String → Fields
header_fields [] = end
header_fields ((k, v) ∷ hs) = field k (str v) (header_fields hs)

abbrev put_headers : Option (Dict String) → Fields → Fields
put_headers none t = t
put_headers (some hs) t = if is_nil hs then t else put "headers" (obj (header_fields hs)) t

unfoldable pub upgrade_transport : Readers → String → Query → Fields
unfolding put_text query_get
upgrade_transport r host q =
    let t = put_text "host" host (put_text "path" (query_get "path" q) (typed "httpupgrade")) in
    if query_get "headers" q == "" then t else put_headers (r.header_map (query_get "headers" q)) t

unfoldable pub set_transport : Readers → Fields → String → String → Query → Fields
unfolding ws_transport grpc_transport http_transport upgrade_transport
set_transport r node network host q =
    if network == "ws"
    then put "transport" (obj (ws_transport r host q)) node
    else if network == "grpc"
    then put "transport" (obj (grpc_transport r q)) node
    else if network == "h2" || network == "http"
    then put "transport" (obj (http_transport host q)) node
    else if network == "httpupgrade"
    then put "transport" (obj (upgrade_transport r host q)) node
    else node
