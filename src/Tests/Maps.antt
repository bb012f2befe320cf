-- ===== src/Tests/Maps.antt =====
-- Header maps of requests and responses.
use palisade.Prelude.{◌≡◌, refl, true, false, ◌||◌, some, List, [], ◌∷◌, ◌++◌, if◌then◌else◌}
use palisade.Text.{Str, codes}
use palisade.Http.{name_eq}
use palisade.Headers.{declared, strip_hop_by_hop, inject_forwarding_headers}
use palisade.Headers.HopByHop.{names, is_hop_by_hop, get_all-strip_hop_by_hop}
use palisade.Headers.Forwarding.{xff, xfp, xfh, host, untrusted_forwarding, spoofed_host}
use palisade.Tests.World.{http, http_laws, net, value_from_str, get_all}

abbrev pub from_client : List (Str × Str)
from_client =
    (codes "host", codes "example.org")
    ∷ (codes "connection", codes "x-secret, close")
    ∷ (codes "x-secret", codes "1")
    ∷ (codes "te", codes "trailers")
    ∷ (codes "x-forwarded-for", codes "8.8.8.8")
    ∷ (codes "x-forwarded-proto", codes "https")
    ∷ []

abbrev hostless : List (Str × Str)
hostless = (codes "x-forwarded-host", codes "bank.example") ∷ []

abbrev client : Str
client = codes "10.0.0.1"

get_all-strip_hop_by_hop_example :
    http.get_all (strip_hop_by_hop http from_client) (codes "x-secret") ≡ (
      if names http http_laws (declared http from_client) (codes "x-secret")
        || is_hop_by_hop http http_laws (codes "x-secret")
      then []
      else http.get_all from_client (codes "x-secret"))
get_all-strip_hop_by_hop_example =
    get_all-strip_hop_by_hop http http_laws from_client (codes "x-secret")

client_is_text : http.value_from_str (net.ip_text (net.ip client)) ≡ some client
unfolding value_from_str
client_is_text = refl

one_host : http.get_all from_client (host http http_laws) ≡ codes "example.org" ∷ []
unfolding get_all
one_host = refl

no_host : http.get_all hostless (host http http_laws) ≡ []
unfolding get_all
no_host = refl

untrusted_forwarding_example :
    http.get_all (inject_forwarding_headers http net from_client client true false) (codes "accept")
    ≡ (if name_eq http (xfh http http_laws) (codes "accept")
        then codes "example.org" ∷ []
        else if name_eq http (xfp http http_laws) (codes "accept")
        then codes "https" ∷ []
        else if name_eq http (xff http http_laws) (codes "accept")
        then client ∷ []
        else http.get_all from_client (codes "accept"))
untrusted_forwarding_example =
    untrusted_forwarding http http_laws net from_client client true (codes "accept") client
      (codes "example.org") [] client_is_text one_host

spoofed_host_example :
    http.get_all
      (inject_forwarding_headers http net hostless client true false)
      (xfh http http_laws)
    ≡ http.get_all hostless (xfh http http_laws)
spoofed_host_example =
    spoofed_host http http_laws net hostless client true client client_is_text no_host

one_for : http.get_all from_client (xff http http_laws) ≡ codes "8.8.8.8" ∷ []
unfolding get_all
one_for = refl

one_proto : http.get_all from_client (xfp http http_laws) ≡ codes "https" ∷ []
unfolding get_all
one_proto = refl

chain_is_text :
    http.value_from_str (codes "8.8.8.8" ++ (codes ", " ++ net.ip_text (net.ip client)))
    ≡ some (codes "8.8.8.8, 10.0.0.1")
unfolding value_from_str
chain_is_text = refl
