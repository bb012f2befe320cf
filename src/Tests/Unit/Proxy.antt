-- ===== src/Tests/Unit/Proxy.antt =====
-- The unit tests of src/proxy.rs.
use palisade.Prelude.{
  ◌≡◌, refl, Bool, true, false, ◌&&◌, not, Option, none, some, List, [], ◌∷◌, ok, err, is_ok,
}
use palisade.Text.{
  Str, codes, str_eq, split, starts_with, to_ascii_lowercase, is_ascii_graphic, parse_u64,
}
use palisade.Duration.{from_secs}
use palisade.Error.{Result}
use palisade.Config.Schema.{Config, default_config}
use palisade.Config.Runtime.{
  check_rate_limit, check_health_check, validate_upstream, check_distinct, find_duplicate,
  blocked_header_name, mask_rule, listen_addr, admin_addr,
}
use palisade.Config.Load.{into_runtime}
use palisade.Proxy.Screen.{http_11, inspect_request, check_headers, check_params}
use palisade.Proxy.Forward.{rewrite_uri}
use palisade.Tests.World.{get_all, build_uri, remove, value_from_str}
use palisade.Tests.Unit.World.{
  http, net, regex, crates, before, after, drop_while_slash, parse_uri, is_token, is_socket_addr,
  percent_decode,
}
use palisade.Tests.Unit.Headers.{header_map}
use palisade.Tests.Unit.Rejections.{single_upstream}

-- The parts that `rewrite_uri` gives to a request for `original` at `upstream`.
abbrev rewrites : Str → Str → (http.Uri → Bool) → Bool
rewrites original upstream test = elim (http.parse_uri original) [
  | err e ↦ false
  | ok o ↦ elim (http.parse_uri upstream) [
    | err e ↦ false
    | ok u ↦ elim (rewrite_uri crates o u) [ err e ↦ false | ok result ↦ test result ]
  ]
]

abbrev is_text : Str → Option Str → Bool
is_text text none = false
is_text text (some s) = str_eq s text

abbrev rewrite_uri_preserves_path_and_query : Bool
rewrite_uri_preserves_path_and_query =
    rewrites (codes "http://client-facing.com/api/v1?key=val") (codes "http://localhost:3000")
      (λ result.
        is_text (codes "http") (http.scheme result)
        && is_text (codes "localhost:3000") (http.authority result)
        && is_text (codes "/api/v1?key=val") (http.path_and_query result))

abbrev rewrite_uri_defaults_to_root_path : Bool
rewrite_uri_defaults_to_root_path =
    rewrites (codes "http://client-facing.com") (codes "http://localhost:3000")
      (λ result. is_text (codes "/") (http.path_and_query result))

abbrev get : Str
get = codes "GET"

-- What a request for `uri` gets from the configuration; a configuration or a URI that is refused
-- is no answer.
abbrev inspects : Config → Str → Str → List (Str × Str) → Option (Result Unit)
inspects config method uri headers = elim (into_runtime http net regex config) [
  | err e ↦ none
  | ok rt ↦ elim (http.parse_uri uri) [
    | err e ↦ none
    | ok u ↦ some (
        inspect_request crates
          (record {
            method = method;
            uri = u;
            version = http_11;
            headers = header_map headers;
            body = tt;
          })
          rt)
  ]
]

abbrev refuses : Option (Result Unit) → Bool
refuses none = false
refuses (some r) = not (is_ok r)

abbrev accepts : Option (Result Unit) → Bool
accepts none = false
accepts (some r) = is_ok r

abbrev inspect_detects_blocked_header : Bool
inspect_detects_blocked_header = refuses (
    inspects
      (record default_config {
        upstreams = single_upstream (codes "http://localhost:3000");
        blocked_headers = codes "x-bad-header" ∷ [];
      })
      get (codes "http://example.com/") ((codes "x-bad-header", codes "anything") ∷ []))

abbrev inspect_detects_blocked_param : Bool
inspect_detects_blocked_param = refuses (
    inspects
      (record default_config {
        upstreams = single_upstream (codes "http://localhost:3000");
        blocked_params = codes "secret_key" ∷ [];
      })
      get (codes "http://example.com/?secret_key=abc123") ([]))

abbrev inspect_enforces_blocked_header_on_non_get : Bool
inspect_enforces_blocked_header_on_non_get = refuses (
    inspects
      (record default_config {
        upstreams = single_upstream (codes "http://localhost:3000");
        blocked_headers = codes "x-bad-header" ∷ [];
      })
      (codes "POST") (codes "http://example.com/resource")
      ((codes "x-bad-header", codes "anything") ∷ []))

abbrev inspect_blocked_param_requires_exact_key : Bool
inspect_blocked_param_requires_exact_key = accepts (
    inspects
      (record default_config {
        upstreams = single_upstream (codes "http://localhost:3000");
        blocked_params = codes "secret_key" ∷ [];
      })
      get (codes "http://example.com/?my_secret_key=abc123") ([]))

abbrev inspect_blocked_param_matches_percent_encoded_key : Bool
inspect_blocked_param_matches_percent_encoded_key = refuses (
    inspects
      (record default_config {
        upstreams = single_upstream (codes "http://localhost:3000");
        blocked_params = codes "secret key" ∷ [];
      })
      get (codes "http://example.com/?secret%20key=abc123") ([]))

abbrev inspect_allows_clean_request : Bool
inspect_allows_clean_request = accepts (
    inspects
      (record default_config {
        upstreams = single_upstream (codes "http://localhost:3000");
        blocked_headers = codes "x-bad-header" ∷ [];
        blocked_params = codes "secret_key" ∷ [];
      })
      get (codes "http://example.com/path?safe=true") ((codes "x-good-header", codes "ok") ∷ []))

tests_pass :
    rewrite_uri_preserves_path_and_query && rewrite_uri_defaults_to_root_path
      && inspect_detects_blocked_header && inspect_detects_blocked_param
      && inspect_enforces_blocked_header_on_non_get && inspect_blocked_param_requires_exact_key
      && inspect_blocked_param_matches_percent_encoded_key && inspect_allows_clean_request
    ≡ true
unfolding into_runtime check_rate_limit check_health_check validate_upstream check_distinct
    find_duplicate blocked_header_name mask_rule listen_addr admin_addr from_secs to_ascii_lowercase
    split starts_with is_ascii_graphic parse_u64 before after drop_while_slash parse_uri is_token
    is_socket_addr percent_decode inspect_request check_headers check_params rewrite_uri build_uri
    get_all remove value_from_str
tests_pass = refl
