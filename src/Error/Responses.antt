-- ===== src/Error/Responses.antt =====
-- What the client sees of an error.
use palisade.Prelude.{
  ℕ, ◌+◌, ◌*◌, ◌<◌, ◌≤◌, ◌≡◌, refl, ◌∙◌, false, Option, none, some, [], ◌∷◌, arith, Option-cases,
  inl, inr, ap,
}
use palisade.Text.{Str, codes, decimal}
use palisade.Http.{Http, HttpLaws, name_eq}
use palisade.Headers.Forwarding.{apart, same}
use palisade.Error.{
  ProxyError, rate_limited, retry_after_ms, div_ceil, into_response, status_code, with_header,
  retry_header, built, and_then,
}

-- The wait in whole seconds is the least that covers the milliseconds.
pub div_ceil-thousand :
    (ms : ℕ) → (ms ≤ div_ceil ms 1000 * 1000) × (div_ceil ms 1000 * 1000 < ms + 1000)
unfolding div_ceil
div_ceil-thousand ms = (omega arith, omega arith)

module _ (h : Http) (l : HttpLaws h) (json : Str → Str → Str) where
  open h use {
    HeaderMap, HeaderValue, get_all, headers_new, append, name_from_static, value_from_str,
  }

  -- A builder that has failed, or has set no header of this name.
  Lacks : h.HeaderName → Option HeaderMap → Type 0
  Lacks k none = Unit
  Lacks k (some m) = get_all m k ≡ []

  with_header-Lacks :
      (name text : Str) (m : HeaderMap) (k : h.HeaderName)
      → name_eq h (name_from_static name) k ≡ false
      → get_all m k ≡ []
      → Lacks k (with_header h json name text m)
  unfolding with_header Lacks
  with_header-Lacks name text m k e g = elim (Option-cases (value_from_str text)) [
    | inl q ↦ rw (q, with_header) tt
    | inr (v, q) ↦ rw (q, with_header) (l.get_all-append m (name_from_static name) k v ∙ rw e g)
  ]

  abbrev request_id_name : h.HeaderName
  request_id_name = name_from_static (codes "x-request-id")

  retry_header-Lacks :
      (o : Option ℕ) (m : HeaderMap)
      → get_all m request_id_name ≡ []
      → Lacks request_id_name (retry_header h json o m)
  unfolding retry_header Lacks
  retry_header-Lacks none m g = g
  retry_header-Lacks (some ms) m g =
      with_header-Lacks (codes "retry-after") _ m request_id_name
        (apart h l (codes "retry-after") (codes "x-request-id") refl refl refl) g

  built-Lacks :
      (e : ProxyError) (o : Option HeaderMap) (ms : Option ℕ)
      → Lacks request_id_name o
      → get_all
          (built h json e (and_then h json o (retry_header h json ms))).headers
          request_id_name
        ≡ []
  unfolding built and_then Lacks
  built-Lacks e none ms g = l.get_all-new request_id_name
  built-Lacks e (some m) ms g = go (retry_header h json ms m) (retry_header-Lacks ms m g)
    where
      go :
          (o : Option HeaderMap)
          → Lacks request_id_name o
          → get_all (built h json e o).headers request_id_name ≡ []
      go none g' = l.get_all-new request_id_name
      go (some n) g' = g'

  -- No error response has an `X-Request-Id`.
  pub into_response-request_id :
      (e : ProxyError) → get_all (into_response h json e).headers request_id_name ≡ []
  unfolding into_response
  into_response-request_id e = built-Lacks e _ (retry_after_ms e) (
      with_header-Lacks (codes "content-type") (codes "application/json") headers_new
        request_id_name (apart h l (codes "content-type") (codes "x-request-id") refl refl refl)
        (l.get_all-new request_id_name))

  with_header-some :
      (name text : Str) (m : HeaderMap) (v : HeaderValue)
      → value_from_str text ≡ some v
      → with_header h json name text m ≡ some (append m (name_from_static name) v)
  unfolding with_header
  with_header-some name text m v e = rw (e, with_header) refl

  -- The headers of the response, when both texts are header values.
  abbrev retry_headers : HeaderValue → HeaderValue → HeaderMap
  retry_headers v w =
      append (append headers_new (name_from_static (codes "content-type")) v)
        (name_from_static (codes "retry-after")) w

  into_response-retry :
      (ms : ℕ) (v w : HeaderValue)
      → value_from_str (codes "application/json") ≡ some v
      → value_from_str (decimal (div_ceil ms 1000)) ≡ some w
      → into_response h json (rate_limited ms)
        ≡ built h json (rate_limited ms) (some (retry_headers v w))
  unfolding into_response and_then retry_header retry_after_ms
  into_response-retry ms v w a b =
      ap (λ o. built h json (rate_limited ms) (and_then h json o (retry_header h json (some ms))))
        (with_header-some (codes "content-type") (codes "application/json") headers_new v a)
      ∙ ap (built h json (rate_limited ms)) (with_header-some (codes "retry-after") _ _ w b)

  -- A request that is refused for its rate gets 429 and one `Retry-After`, the least number of
  -- whole seconds that covers the wait, if that number and the content type are header values.
  pub into_response-rate_limited :
      (ms : ℕ) (v w : HeaderValue)
      → value_from_str (codes "application/json") ≡ some v
      → value_from_str (decimal (div_ceil ms 1000)) ≡ some w
      → ((into_response h json (rate_limited ms)).status ≡ 429)
        × (get_all
              (into_response h json (rate_limited ms)).headers
              (name_from_static (codes "retry-after"))
            ≡ w ∷ [])
        × (ms ≤ div_ceil ms 1000 * 1000)
        × (div_ceil ms 1000 * 1000 < ms + 1000)
  unfolding built status_code
  into_response-rate_limited ms v w a b = rw (into_response-retry ms v w a b) (
    refl,
    l.get_all-append _ _ _ w
        ∙ rw
            (
              same h l (codes "retry-after") refl,
              l.get_all-append headers_new (name_from_static (codes "content-type"))
                  (name_from_static (codes "retry-after")) v,
              apart h l (codes "content-type") (codes "retry-after") refl refl refl,
              l.get_all-new (name_from_static (codes "retry-after")),
            )
            refl,
    (div_ceil-thousand ms).0,
    (div_ceil-thousand ms).1,
  )
