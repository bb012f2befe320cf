-- ===== src/Tests/Answers.antt =====
-- Responses of a backend, and error responses.
use palisade.Prelude.{
  ◌<◌, ◌^◌, ℕ, ◌*◌, ◌<◌, ◌≤◌, ◌≡◌, refl, true, false, some, List, [], ◌∷◌, ok, min, length, ◌+◌,
  if◌then◌else◌, ◌⊎◌, arith,
}
use palisade.Text.{Str, codes, decimal, str_len, contains, parse_u64, to_ascii_lowercase}
use palisade.Headers.{
  declared, strip_hop_by_hop, strip_response_headers, content_length, remove_all,
}
use palisade.Error.{timeout, Response, rate_limited, div_ceil, into_response}
use palisade.Error.Responses.{
  into_response-rate_limited, into_response-request_id, into_response-request_id,
}
use palisade.Config.Load.{mask_sensitive_data}
use palisade.Proxy.Forward.{usize_max}
use palisade.Proxy.Reply.{
  BoxBody, streamed, full, streams, stripped, reply, build_response, masked_response,
  with_request_id, maskable_content_type, content_encoded, within_ceiling,
}
use palisade.Proxy.Framing.{reply-content_length}
use palisade.Proxy.Answer.{kept_back, reply-headers, reply-body}
use palisade.Tests.World.{http, http_laws, crates, crates_laws, value_from_str, get_all, remove}
use palisade.Tests.Loads.{runtime}

abbrev from_backend : Response http (List ℕ)
from_backend = record {
  status = 200;
  headers =
      (codes "content-type", codes "text/html")
      ∷ (codes "content-length", codes "11")
      ∷ (codes "server", codes "nginx")
      ∷ (codes "etag", codes "1")
      ∷ [];
  body = codes "password=abc";
}

abbrev answered : Response http (BoxBody crates)
answered = record {
  status = 200;
  headers =
      (codes "x-request-id", codes "41")
      ∷ (codes "content-length", codes "13")
      ∷ (codes "content-type", codes "text/html")
      ∷ (codes "etag", codes "1")
      ∷ [];
  body = full (codes "password=****");
}

replied : reply crates runtime (codes "41") 41 from_backend ≡ ok answered
unfolding reply build_response masked_response with_request_id stripped streams
    maskable_content_type content_encoded within_ceiling strip_hop_by_hop declared remove_all
    strip_response_headers mask_sensitive_data contains content_length parse_u64 str_len decimal
    get_all remove value_from_str to_ascii_lowercase
replied = refl

reply-headers_example : http.get_all answered.headers (codes "server") ≡ (
    if kept_back crates crates_laws runtime from_backend.headers (codes "server")
    then []
    else http.get_all from_backend.headers (codes "server"))
reply-headers_example =
    reply-headers crates crates_laws runtime (codes "41") 41 from_backend answered (codes "server")
      refl refl replied

-- What `reply-body` says of this response.
abbrev Masked : Type 0
Masked =
    (bytes : List ℕ) × (crates.collect_limited from_backend.body
        (min runtime.mask_max_body_size usize_max)
      ≡ ok bytes)
    × (length bytes ≤ runtime.mask_max_body_size)
    × (answered.body
        ≡ full (
            mask_sensitive_data http crates.net crates.regex runtime.mask_rules
              (crates.from_utf8_lossy bytes)))
    × (http.get_all answered.headers (codes "content-length")
        ≡ http.value_from_number (
            str_len (
              mask_sensitive_data http crates.net crates.regex runtime.mask_rules
                (crates.from_utf8_lossy bytes)))
          ∷ [])

reply-body_example :
    (answered.status ≡ from_backend.status)
    × (((streams crates runtime (stripped crates runtime from_backend).headers ≡ true)
          × (answered.body ≡ streamed from_backend.body))
        ⊎ ((streams crates runtime (stripped crates runtime from_backend).headers ≡ false)
            × Masked))
reply-body_example =
    reply-body crates crates_laws runtime (codes "41") 41 from_backend answered replied

short : str_len (codes "password=****") < 2 ^ 64
unfolding str_len
short = omega arith

reply-content_length_example :
    ((v : Str) × (http.get_all answered.headers (codes "content-length") ≡ v ∷ []))
    × (content_length http answered.headers ≡ some (str_len (codes "password=****")))
reply-content_length_example =
    reply-content_length crates crates_laws runtime (codes "41") 41 from_backend answered
      (codes "password=****") replied refl short

abbrev json : Str → Str → Str
json tag message = tag

into_response-request_id_example :
    http.get_all (into_response http json (timeout 30_000_000_000)).headers (codes "x-request-id")
    ≡ []
into_response-request_id_example =
    into_response-request_id http http_laws json (timeout 30_000_000_000)

json_is_text : http.value_from_str (codes "application/json") ≡ some (codes "application/json")
unfolding value_from_str
json_is_text = refl

seconds_are_text : http.value_from_str (decimal (div_ceil 1500 1000)) ≡ some (codes "2")
unfolding value_from_str decimal div_ceil
seconds_are_text = refl

into_response-rate_limited_example :
    ((into_response http json (rate_limited 1500)).status ≡ 429)
    × (http.get_all (into_response http json (rate_limited 1500)).headers (codes "retry-after")
        ≡ codes "2" ∷ [])
    × (1500 ≤ div_ceil 1500 1000 * 1000)
    × (div_ceil 1500 1000 * 1000 < 1500 + 1000)
into_response-rate_limited_example =
    into_response-rate_limited http http_laws json 1500 (codes "application/json") (codes "2")
      json_is_text seconds_are_text
