-- ===== src/Proxy/Screen.antt =====
-- The checks that a request passes before a backend is chosen for it.
use palisade.Prelude.{
  ℕ, Bool, ◌&&◌, not, Option, none, some, List, [], ◌∷◌, leb, if◌then◌else◌, ok, err, ◌>>◌, map_err,
}
use palisade.Text.{Str, codes, is_empty, any, all, str_eq, str_len, trim, is_ascii_graphic}
use palisade.Error.{
  Result, rate_limited, request_smuggling, body_too_large, blocked_header, blocked_param,
}
use palisade.Headers.{and_then, is_smuggling_attempt, content_length_exceeds}
use palisade.Config.Runtime.{RuntimeConfig, reject_if, or_default}
use palisade.RateLimit.{check}
use palisade.Proxy.Crates.{Crates}

pub data Version : Type 0 where
  http_09 http_10 http_11 http_2 http_3 : Version

-- `hyper::Request<B>`
pub record Request (c : Crates) (B : Type 0) : Type 0 where
  pub method : Str
  pub uri : c.http.Uri
  pub version : Version
  pub headers : c.http.HeaderMap
  pub body : B

abbrev pub max_request_id_len : ℕ
max_request_id_len = 128

-- `iter().find(p)`
abbrev pub find {ℓ} : {A : Type ℓ} → (A → Bool) → List A → Option A
find p [] = none
find p (a ∷ rest) = if p a then some a else find p rest

module _ (c : Crates) where
  open c use {
    http.{HeaderMap, HeaderName, get, to_str, contains_key, name_from_static, as_str, query},
  }

  abbrev pub Runtime : Type 0
  Runtime = RuntimeConfig c.http c.net c.regex

  -- The filter of `inbound_request_id`, on the trimmed text.
  unfoldable pub is_request_id : Str → Bool
  unfolding is_ascii_graphic str_len
  is_request_id id =
      not (is_empty id) && leb (str_len id) max_request_id_len && all is_ascii_graphic id

  unfoldable pub inbound_request_id : HeaderMap → Option Str
  unfolding is_request_id
  inbound_request_id m =
      and_then (and_then (get m (name_from_static (codes "x-request-id"))) to_str)
        (λ text. if is_request_id (trim text) then some (trim text) else none)

  unfoldable pub check_headers : List HeaderName → HeaderMap → Result Unit
  check_headers blocked m = elim (find (contains_key m) blocked) [
    | none ↦ ok tt
    | some name ↦ err (blocked_header (as_str name))
  ]

  unfoldable pub check_params : List Str → Option Str → Result Unit
  check_params blocked q =
      elim (find (λ (pair : Str × Str). any (λ param. str_eq param pair.0) blocked)
        (c.parse_query (or_default [] q))) [
          | none ↦ ok tt
          | some (key, value) ↦ err (blocked_param key)
        ]

  unfoldable pub inspect_request : {B : Type 0} → Request c B → Runtime → Result Unit
  unfolding check_headers check_params
  inspect_request req config = do
    check_headers config.blocked_headers req.headers
    check_params config.blocked_params (query req.uri)

  -- The guards of `handle_request` between the rate limiter and the balancer.
  unfoldable pub screen : {B : Type 0} → Request c B → Runtime → Result Unit
  screen req config = do
    reject_if (is_smuggling_attempt c.http req.headers) request_smuggling
    reject_if (content_length_exceeds c.http req.headers config.max_body_size)
        (body_too_large config.max_body_size)
    inspect_request req config

  -- The rate limiter, if there is one.
  unfoldable pub limit_rate :
      Option c.governor.Limiter → c.net.IpAddr → ℕ → Option c.governor.Limiter × Result Unit
  limit_rate none ip now = (none, ok tt)
  limit_rate (some limiter) ip now =
      let (limiter', r) = check c.governor limiter ip now in (some limiter', map_err rate_limited r)
