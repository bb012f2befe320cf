-- ===== src/Tests/Requests.antt =====
-- A request on its way to a backend.
use palisade.Prelude.{
  ◌≤◌, ◌≡◌, refl, true, false, ◌&&◌, not, none, some, List, [], ◌∷◌, ok, err, is_ok, get_elem?,
}
use palisade.Text.{Str, codes, any, decimal, split}
use palisade.Error.{root, invalid_upstream, ErrorChain}
use palisade.Config.Runtime.{or_default, validate_upstream}
use palisade.Headers.{is_smuggling_attempt, content_length_exceeds, content_length}
use palisade.Balancer
use palisade.Proxy.Screen.{
  Request, http_11, inspect_request, inbound_request_id, screen, limit_rate, check_headers,
  check_params,
}
use palisade.Proxy.Forward.{Limited, rewrite_uri, forward_headers, prepare}
use palisade.Proxy.Policy.{has_blocked_key, inspect_request-exact}
use palisade.Proxy.Sent.{forward-host, prepare-target, scheme_missing}
use palisade.Proxy.Pipeline.{
  Shared, Flight, failed, Peer, begin_request, finish_request, dispatch, target,
}
use palisade.Proxy.Effects.{finish_request-health, judged}
use palisade.Upstream.{is_eligible}
use palisade.Tests.World.{http, crates, crates_laws, value_from_str, get_all, build_uri}
use palisade.Tests.Maps.{from_client}
use palisade.Tests.Loads.{runtime}
use palisade.Tests.Turns.{balancer}
use palisade.Tests.Upstreams.{fresh}

abbrev pub request : Request crates Unit
request = record {
  method = codes "GET";
  uri = ([], [], codes "/items?page=2");
  version = http_11;
  headers = from_client;
  body = tt;
}

abbrev pub peer : Peer crates
peer = record { addr = codes "10.0.0.1"; tls = false }

abbrev pub shared : Shared crates
shared = record { next_id = 41; balancer = balancer; limiter = none }

inspect_request-exact_example : is_ok (inspect_request crates request runtime) ≡ (
    not (any (http.contains_key request.headers) runtime.blocked_headers)
    && not (
        any
          (has_blocked_key crates runtime.blocked_params)
          (crates.parse_query (or_default [] (http.query request.uri)))))
inspect_request-exact_example = inspect_request-exact crates request runtime

abbrev sent_headers : List (Str × Str)
sent_headers = forward_headers crates runtime from_client (codes "10.0.0.1") false (codes "a")

authority_is_text : http.value_from_str (codes "a") ≡ some (codes "a")
unfolding value_from_str
authority_is_text = refl

forward-host_example :
    (http.get_all sent_headers (codes "host") ≡ codes "a" ∷ [])
    × (http.to_str (codes "a") ≡ some (codes "a"))
forward-host_example =
    forward-host crates crates_laws runtime from_client (codes "10.0.0.1") false (codes "a")
      (codes "a") authority_is_text refl

abbrev sent : Request crates (Limited Unit)
sent = record {
  method = codes "GET";
  uri = (codes "http", codes "a", codes "/items?page=2");
  version = http_11;
  headers = sent_headers;
  body = record { inner = tt; limit = runtime.max_body_size };
}

prepared : prepare crates runtime request fresh.uri (codes "10.0.0.1") false ≡ ok sent
unfolding prepare rewrite_uri build_uri
prepared = refl

prepare-target_example :
    (http.scheme sent.uri ≡ http.scheme fresh.uri)
    × (http.authority sent.uri ≡ http.authority fresh.uri)
    × (http.path_and_query sent.uri ≡ some (codes "/items?page=2"))
    × (sent.version ≡ http_11)
    × (sent.method ≡ request.method)
    × (sent.body.inner ≡ request.body)
    × (sent.body.limit ≤ runtime.max_body_size)
prepare-target_example =
    prepare-target crates crates_laws runtime request fresh.uri (codes "10.0.0.1") false
      (codes "/items?page=2") sent refl prepared

abbrev local : Str × Str × Str
local = ([], codes "localhost:3000", codes "/")

parsed : http.parse_uri (codes "localhost:3000") ≡ ok local
unfolding split
parsed = refl

scheme_missing_example :
    (is_ok (validate_upstream http (codes "localhost:3000") 1) ≡ true)
    × (prepare crates runtime request local (codes "10.0.0.1") false
        ≡ err (invalid_upstream (codes "upstream has no scheme")))
scheme_missing_example =
    scheme_missing crates crates_laws runtime request (codes "localhost:3000") 1 local
      (codes "localhost:3000") (codes "10.0.0.1") false refl parsed refl refl refl

abbrev pub flight : Flight crates Unit
flight = record { seq = 41; request_id = codes "41"; backend = 0; sent = sent }

pub begun : (begin_request crates runtime request peer 0 shared).1 ≡ ok flight
unfolding begin_request dispatch target prepare rewrite_uri build_uri limit_rate screen
    is_smuggling_attempt content_length_exceeds content_length inspect_request check_headers
    check_params inbound_request_id get_all decimal Balancer.next is_eligible
begun = refl

abbrev too_large : ErrorChain
too_large = root (record { is_length_limit = true; text = codes "length limit exceeded" })

finish_request-health_example :
    get_elem?
      (finish_request crates runtime flight 9 (failed too_large) shared).0.balancer.pool
      flight.backend
    ≡ some (judged crates runtime 9 (failed too_large) fresh)
finish_request-health_example =
    finish_request-health crates runtime flight 9 shared (failed too_large) fresh refl
