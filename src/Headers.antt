-- ===== src/Headers.antt =====
-- src/headers.rs: what the proxy does to the headers of requests and responses.
pub mod HopByHop
pub mod Forwarding
use palisade.Prelude.{
  ℕ, Bool, true, false, ◌&&◌, not, Option, none, some, List, [], ◌∷◌, ◌++◌, map, ltb, if◌then◌else◌,
  Except, ok, err, String,
}
use palisade.Text.{Str, codes, trim, split, parse_u64}
use palisade.Http.{Http}
use palisade.Net.{Net}

-- The literal list of `strip_hop_by_hop`.
abbrev pub hop_by_hop : List Str
hop_by_hop =
    codes "connection"
    ∷ codes "keep-alive"
    ∷ codes "proxy-authenticate"
    ∷ codes "proxy-authorization"
    ∷ codes "te"
    ∷ codes "trailers"
    ∷ codes "transfer-encoding"
    ∷ codes "upgrade"
    ∷ []

abbrev pub and_then {ℓ} : {A B : Type ℓ} → Option A → (A → Option B) → Option B
and_then none f = none
and_then (some a) f = f a

module _ (h : Http) where
  open h use {
    HeaderName, HeaderValue, HeaderMap, Authority, name_from_bytes, name_from_static, to_str,
    value_from_str, value_from_static, get, contains_key, insert, remove, authority_text,
  }

  -- `filter_map(|s| HeaderName::from_bytes(s.trim().as_bytes()).ok())`
  unfoldable pub parse_names : List Str → List HeaderName
  parse_names [] = []
  parse_names (s ∷ rest) = elim (name_from_bytes (trim s)) [
    | ok n ↦ n ∷ parse_names rest
    | err e ↦ parse_names rest
  ]

  -- The names that the `Connection` header declares.
  unfoldable pub declared : HeaderMap → List HeaderName
  unfolding parse_names
  declared m = elim (and_then (get m (name_from_static (codes "connection"))) to_str) [
    | none ↦ []
    | some text ↦ parse_names (split b',' text)
  ]

  -- `names.for_each(|name| headers.remove(name))`
  unfoldable pub remove_all : HeaderMap → List HeaderName → HeaderMap
  remove_all m [] = m
  remove_all m (n ∷ ns) = remove_all (remove m n) ns

  unfoldable pub strip_hop_by_hop : HeaderMap → HeaderMap
  strip_hop_by_hop m = remove_all (remove_all m (declared m)) (map name_from_static hop_by_hop)

  -- `insert` if `HeaderValue::from_str` accepts the text.
  unfoldable pub insert_text : HeaderMap → HeaderName → Str → HeaderMap
  insert_text m n text = elim (value_from_str text) [ none ↦ m | some v ↦ insert m n v ]

  -- The value of `X-Forwarded-For`.
  unfoldable pub xff_value : HeaderMap → Str → Bool → Str
  xff_value m client_ip trust_forwarded =
      if trust_forwarded
      then (elim (and_then (get m (name_from_static (codes "x-forwarded-for"))) to_str) [
        | none ↦ client_ip
        | some existing ↦ existing ++ (codes ", " ++ client_ip)
      ])
      else client_ip

  unfoldable pub inject_for : HeaderMap → Str → Bool → HeaderMap
  unfolding xff_value insert_text
  inject_for m client_ip trust_forwarded =
      insert_text m (name_from_static (codes "x-forwarded-for"))
        (xff_value m client_ip trust_forwarded)

  unfoldable pub inject_proto : HeaderMap → Bool → Bool → HeaderMap
  inject_proto m client_tls trust_forwarded =
      let name = name_from_static (codes "x-forwarded-proto") in
      if trust_forwarded && contains_key m name
      then m
      else insert m name (value_from_static (if client_tls then codes "https" else codes "http"))

  unfoldable pub inject_host : HeaderMap → HeaderMap
  inject_host m = elim (get m (name_from_static (codes "host"))) [
    | none ↦ m
    | some host ↦ insert m (name_from_static (codes "x-forwarded-host")) host
  ]

  -- The three stages are the three statements of the function.
  unfoldable pub inject_forwarding_headers :
      (n : Net) → HeaderMap → n.SocketAddr → Bool → Bool → HeaderMap
  unfolding inject_for inject_proto inject_host
  inject_forwarding_headers n m client_addr client_tls trust_forwarded = inject_host (
      inject_proto (inject_for m (n.ip_text (n.ip client_addr)) trust_forwarded) client_tls
        trust_forwarded)

  unfoldable pub rewrite_host : HeaderMap → Authority → HeaderMap
  unfolding insert_text
  rewrite_host m upstream_auth =
      insert_text m (name_from_static (codes "host")) (authority_text upstream_auth)

  unfoldable pub strip_response_headers : HeaderMap → List Str → HeaderMap
  strip_response_headers m [] = m
  strip_response_headers m (name ∷ names) =
      strip_response_headers (elim (name_from_bytes name) [ ok n ↦ remove m n | err e ↦ m ]) names

  unfoldable pub is_smuggling_attempt : HeaderMap → Bool
  is_smuggling_attempt m =
      contains_key m (name_from_static (codes "content-length"))
      && contains_key m (name_from_static (codes "transfer-encoding"))

  -- The length that `Content-Length` declares, if it is one.
  unfoldable pub content_length : HeaderMap → Option ℕ
  content_length m =
      and_then (and_then (get m (name_from_static (codes "content-length"))) to_str) parse_u64

  unfoldable pub content_length_exceeds : HeaderMap → ℕ → Bool
  unfolding content_length
  content_length_exceeds m max_bytes = elim (content_length m) [
    | none ↦ false
    | some len ↦ ltb max_bytes len
  ]
