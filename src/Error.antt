-- ===== src/Error.antt =====
-- src/error.rs: the failures of the proxy, and the response that each becomes.
pub mod Responses
use palisade.Prelude.{
  ℕ, zero, suc, ◌+◌, ◌-◌, ◌/◌, ◌≡◌, refl, String, Bool, true, false, ◌||◌, Option, none, some, List,
  [], ◌∷◌, ◌++◌, Except, ok, err,
}
use palisade.Text.{Str, codes, decimal}
use palisade.Duration.{Duration, debug}
use palisade.Http.{Http}

-- A `dyn std::error::Error` with the chain of its sources: whether a link is a
-- `http_body_util::LengthLimitError`, and its text.
pub record Link : Type 0 where
  pub is_length_limit : Bool
  pub text : Str

pub data ErrorChain : Type 0 where
  root : Link → ErrorChain
  caused : Link → ErrorChain → ErrorChain

pub data ProxyError : Type 0 where
  config : Str → ProxyError
  invalid_upstream : Str → ProxyError
  blocked_header : Str → ProxyError
  blocked_param : Str → ProxyError
  body_too_large : (limit : ℕ) → ProxyError
  request_smuggling : ProxyError
  upstream : ErrorChain → ProxyError
  http : Str → ProxyError
  invalid_header_value : Str → ProxyError
  invalid_header_name : Str → ProxyError
  timeout : Duration → ProxyError
  service_unavailable : (limit : ℕ) → ProxyError
  tls : Str → ProxyError
  rate_limited : (retry_after_ms : ℕ) → ProxyError
  no_healthy_upstream : ProxyError
  internal : Str → ProxyError

-- lib.rs
abbrev pub Result : Type 0 → Type 0
Result A = Except ProxyError A

unfoldable pub status_code : ProxyError → ℕ
status_code (config _) = 500
status_code (internal _) = 500
status_code (invalid_upstream _) = 500
status_code (http _) = 500
status_code (invalid_header_value _) = 500
status_code (invalid_header_name _) = 500
status_code (tls _) = 500
status_code no_healthy_upstream = 503
status_code (rate_limited _) = 429
status_code (blocked_header _) = 403
status_code (blocked_param _) = 403
status_code (body_too_large _) = 413
status_code request_smuggling = 400
status_code (upstream _) = 502
status_code (timeout _) = 504
status_code (service_unavailable _) = 503

unfoldable pub error_tag : ProxyError → String
error_tag (config _) = "config_error"
error_tag (invalid_upstream _) = "invalid_upstream"
error_tag (blocked_header _) = "blocked_header"
error_tag (blocked_param _) = "blocked_param"
error_tag (body_too_large _) = "body_too_large"
error_tag request_smuggling = "request_smuggling"
error_tag (upstream _) = "upstream_error"
error_tag (timeout _) = "gateway_timeout"
error_tag (service_unavailable _) = "service_unavailable"
error_tag (http _) = "http_error"
error_tag (invalid_header_value _) = "http_error"
error_tag (invalid_header_name _) = "http_error"
error_tag (tls _) = "tls_error"
error_tag (rate_limited _) = "rate_limited"
error_tag no_healthy_upstream = "no_healthy_upstream"
error_tag (internal _) = "internal_error"

abbrev chain_text : ErrorChain → Str
chain_text (root l) = l.text
chain_text (caused l c) = l.text

-- `Display`, from the `#[error(…)]` attributes.
unfoldable pub to_string : ProxyError → Str
unfolding debug decimal
to_string (config m) = codes "configuration error: " ++ m
to_string (invalid_upstream m) = codes "invalid upstream: " ++ m
to_string (blocked_header m) = codes "blocked header: " ++ m
to_string (blocked_param m) = codes "blocked parameter: " ++ m
to_string (body_too_large n) = codes "request body exceeds " ++ (decimal n ++ codes " byte limit")
to_string request_smuggling =
    codes "ambiguous request framing: both Content-Length and Transfer-Encoding present"
to_string (upstream e) = codes "upstream error: " ++ chain_text e
to_string (http m) = codes "http error: " ++ m
to_string (invalid_header_value m) = codes "invalid header value: " ++ m
to_string (invalid_header_name m) = codes "invalid header name: " ++ m
to_string (timeout d) = codes "upstream request timed out after " ++ debug d
to_string (service_unavailable n) =
    codes "service at capacity: " ++ (decimal n ++ codes " concurrent requests")
to_string (tls m) = codes "tls error: " ++ m
to_string (rate_limited ms) =
    codes "rate limit exceeded, retry after " ++ (decimal ms ++ codes "ms")
to_string no_healthy_upstream = codes "no healthy upstream backend available"
to_string (internal m) = codes "internal error: " ++ m

-- `Response<B>`, without the version, which the program leaves alone.
pub record Response (h : Http) (B : Type 0) : Type 0 where
  pub status : ℕ
  pub headers : h.HeaderMap
  pub body : B

unfoldable pub retry_after_ms : ProxyError → Option ℕ
retry_after_ms (rate_limited ms) = some ms
retry_after_ms _ = none

-- `u64::div_ceil`, by a divisor that is not 0
unfoldable pub div_ceil : ℕ → ℕ → ℕ
div_ceil a b = (a + b - 1) / b

-- `serde_json` writes the two fields of the body: `json error message` is the text that it makes.
module _ (h : Http) (json : Str → Str → Str) where
  open h use {HeaderMap, headers_new, append, name_from_static, value_from_str}

  -- `Response::builder().header(name, text)`: the builder fails if the text is no header value.
  unfoldable pub with_header : Str → Str → HeaderMap → Option HeaderMap
  with_header name text m = elim (value_from_str text) [
    | none ↦ none
    | some v ↦ some (append m (name_from_static name) v)
  ]

  unfoldable pub retry_header : Option ℕ → HeaderMap → Option HeaderMap
  unfolding with_header div_ceil decimal
  retry_header none m = some m
  retry_header (some ms) m = with_header (codes "retry-after") (decimal (div_ceil ms 1000)) m

  unfoldable pub built : ProxyError → Option HeaderMap → Response h Str
  unfolding status_code error_tag to_string
  built e (some m) = record {
    status = status_code e;
    headers = m;
    body = json (codes (error_tag e)) (to_string e);
  }
  built e none = record { status = 500; headers = headers_new; body = [] }

  unfoldable pub and_then : Option HeaderMap → (HeaderMap → Option HeaderMap) → Option HeaderMap
  and_then none f = none
  and_then (some m) f = f m

  unfoldable pub into_response : ProxyError → Response h Str
  unfolding built and_then retry_header retry_after_ms with_header
  into_response e = built e (
      and_then (with_header (codes "content-type") (codes "application/json") headers_new)
        (retry_header (retry_after_ms e)))
