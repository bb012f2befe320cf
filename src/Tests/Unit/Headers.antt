-- ===== src/Tests/Unit/Headers.antt =====
-- The unit tests of src/headers.rs.
use palisade.Prelude.{◌≡◌, refl, Bool, true, false, ◌&&◌, not, none, some, List, [], ◌∷◌, ok, err}
use palisade.Text.{Str, codes, str_eq, trim, split, to_ascii_lowercase, parse_u64, is_ascii_graphic}
use palisade.Config.Schema.{default_max_body_size}
use palisade.Headers.{
  strip_hop_by_hop, inject_forwarding_headers, rewrite_host, strip_response_headers,
  is_smuggling_attempt, content_length_exceeds, remove_all, declared,
}
use palisade.Tests.World.{get_all, remove, value_from_str}
use palisade.Tests.Unit.World.{http, net, before, is_token}

abbrev insert : http.HeaderMap → Str → Str → http.HeaderMap
insert m name value = elim (http.name_from_bytes name) [
  | err e ↦ m
  | ok n ↦ elim (http.value_from_str value) [ none ↦ m | some v ↦ http.insert m n v ]
]

-- The map that holds the pairs, inserted in their order.
abbrev pub header_map : List (Str × Str) → http.HeaderMap
header_map pairs = filled pairs http.headers_new
  where
    filled : List (Str × Str) → http.HeaderMap → http.HeaderMap
    filled [] m = m
    filled ((name, value) ∷ rest) m = filled rest (insert m name value)

abbrev has : http.HeaderMap → Str → Bool
has = http.contains_key

abbrev has_value : http.HeaderMap → Str → Str → Bool
has_value m name value = elim (http.get m name) [ none ↦ false | some v ↦ str_eq v value ]

abbrev strips_standard_hop_by_hop_headers : Bool
strips_standard_hop_by_hop_headers =
    let headers = strip_hop_by_hop http (
      header_map (
        (codes "connection", codes "keep-alive")
        ∷ (codes "keep-alive", codes "timeout=5")
        ∷ (codes "transfer-encoding", codes "chunked")
        ∷ (codes "x-custom", codes "preserved")
        ∷ [])) in
    not (has headers (codes "connection"))
    && not (has headers (codes "keep-alive"))
    && not (has headers (codes "transfer-encoding"))
    && has headers (codes "x-custom")

abbrev strips_connection_declared_headers : Bool
strips_connection_declared_headers =
    let headers = strip_hop_by_hop http (
      header_map (
        (codes "connection", codes "x-secret-internal, x-debug-token")
        ∷ (codes "x-secret-internal", codes "leaked")
        ∷ (codes "x-debug-token", codes "abc")
        ∷ (codes "x-safe", codes "keep")
        ∷ [])) in
    not (has headers (codes "x-secret-internal"))
    && not (has headers (codes "x-debug-token"))
    && not (has headers (codes "connection"))
    && has headers (codes "x-safe")

abbrev injects_xff_with_no_prior_value : Bool
injects_xff_with_no_prior_value =
    has_value
      (inject_forwarding_headers http net http.headers_new (codes "192.168.1.10:5000") false false)
      (codes "x-forwarded-for") (codes "192.168.1.10")

abbrev replaces_existing_xff_when_untrusted : Bool
replaces_existing_xff_when_untrusted =
    has_value
      (inject_forwarding_headers http net
        (header_map ((codes "x-forwarded-for", codes "10.0.0.1") ∷ [])) (codes "192.168.1.10:5000")
        false false)
      (codes "x-forwarded-for") (codes "192.168.1.10")

abbrev appends_to_existing_xff_when_trusted : Bool
appends_to_existing_xff_when_trusted =
    has_value
      (inject_forwarding_headers http net
        (header_map ((codes "x-forwarded-for", codes "10.0.0.1") ∷ [])) (codes "192.168.1.10:5000")
        false true)
      (codes "x-forwarded-for") (codes "10.0.0.1, 192.168.1.10")

abbrev injects_forwarded_proto_http : Bool
injects_forwarded_proto_http =
    has_value
      (inject_forwarding_headers http net http.headers_new (codes "127.0.0.1:1234") false false)
      (codes "x-forwarded-proto") (codes "http")

abbrev injects_forwarded_proto_https_under_tls : Bool
injects_forwarded_proto_https_under_tls =
    has_value
      (inject_forwarding_headers http net http.headers_new (codes "127.0.0.1:1234") true false)
      (codes "x-forwarded-proto") (codes "https")

abbrev overwrites_spoofed_forwarded_proto_when_untrusted : Bool
overwrites_spoofed_forwarded_proto_when_untrusted =
    has_value
      (inject_forwarding_headers http net
        (header_map ((codes "x-forwarded-proto", codes "https") ∷ [])) (codes "127.0.0.1:1234")
        false false)
      (codes "x-forwarded-proto") (codes "http")

abbrev preserves_forwarded_proto_when_trusted : Bool
preserves_forwarded_proto_when_trusted =
    has_value
      (inject_forwarding_headers http net
        (header_map ((codes "x-forwarded-proto", codes "https") ∷ [])) (codes "127.0.0.1:1234")
        false true)
      (codes "x-forwarded-proto") (codes "https")

abbrev injects_forwarded_host_from_original : Bool
injects_forwarded_host_from_original =
    has_value
      (inject_forwarding_headers http net
        (header_map ((codes "host", codes "api.example.com") ∷ [])) (codes "127.0.0.1:1234") false
        false)
      (codes "x-forwarded-host") (codes "api.example.com")

abbrev no_forwarded_host_when_host_absent : Bool
no_forwarded_host_when_host_absent = not (
    has (inject_forwarding_headers http net http.headers_new (codes "127.0.0.1:1234") false false)
      (codes "x-forwarded-host"))

abbrev rewrites_host_to_upstream_authority : Bool
rewrites_host_to_upstream_authority =
    has_value
      (rewrite_host http (header_map ((codes "host", codes "client-facing.com") ∷ []))
        (codes "backend.internal:3000"))
      (codes "host") (codes "backend.internal:3000")

abbrev strips_configured_response_headers : Bool
strips_configured_response_headers =
    let headers =
      strip_response_headers http
        (header_map (
          (codes "server", codes "nginx/1.25")
          ∷ (codes "x-powered-by", codes "Express")
          ∷ (codes "content-type", codes "text/html")
          ∷ []))
        (codes "server" ∷ codes "x-powered-by" ∷ []) in
    not (has headers (codes "server"))
    && not (has headers (codes "x-powered-by"))
    && has headers (codes "content-type")

abbrev detects_smuggling_attempt : Bool
detects_smuggling_attempt = is_smuggling_attempt http (
    header_map
      ((codes "content-length", codes "42") ∷ (codes "transfer-encoding", codes "chunked") ∷ []))

abbrev no_smuggling_with_only_content_length : Bool
no_smuggling_with_only_content_length =
    not (is_smuggling_attempt http (header_map ((codes "content-length", codes "42") ∷ [])))

abbrev no_smuggling_with_only_transfer_encoding : Bool
no_smuggling_with_only_transfer_encoding =
    not (is_smuggling_attempt http (header_map ((codes "transfer-encoding", codes "chunked") ∷ [])))

abbrev content_length_within_limit : Bool
content_length_within_limit = not (
    content_length_exceeds http (header_map ((codes "content-length", codes "1024") ∷ []))
      default_max_body_size)

abbrev content_length_exceeds_limit : Bool
content_length_exceeds_limit =
    content_length_exceeds http (header_map ((codes "content-length", codes "20000000") ∷ []))
      default_max_body_size

abbrev missing_content_length_does_not_exceed : Bool
missing_content_length_does_not_exceed =
    not (content_length_exceeds http http.headers_new default_max_body_size)

abbrev unparseable_content_length_does_not_exceed : Bool
unparseable_content_length_does_not_exceed = not (
    content_length_exceeds http (header_map ((codes "content-length", codes "not-a-number") ∷ []))
      default_max_body_size)

tests_pass :
    strips_standard_hop_by_hop_headers && strips_connection_declared_headers
      && injects_xff_with_no_prior_value && replaces_existing_xff_when_untrusted
      && appends_to_existing_xff_when_trusted && injects_forwarded_proto_http
      && injects_forwarded_proto_https_under_tls
      && overwrites_spoofed_forwarded_proto_when_untrusted && preserves_forwarded_proto_when_trusted
      && injects_forwarded_host_from_original && no_forwarded_host_when_host_absent
      && rewrites_host_to_upstream_authority && strips_configured_response_headers
      && detects_smuggling_attempt && no_smuggling_with_only_content_length
      && no_smuggling_with_only_transfer_encoding && content_length_within_limit
      && content_length_exceeds_limit && missing_content_length_does_not_exceed
      && unparseable_content_length_does_not_exceed
    ≡ true
unfolding strip_hop_by_hop inject_forwarding_headers rewrite_host strip_response_headers
    is_smuggling_attempt content_length_exceeds get_all remove value_from_str to_ascii_lowercase
    trim split parse_u64 before is_token is_ascii_graphic remove_all declared
tests_pass = refl
