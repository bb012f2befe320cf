-- ===== src/Proxy/Reply.antt =====
-- `build_response`, and the headers of the response that goes back to the client.
use palisade.Prelude.{
  ℕ, Bool, false, ◌&&◌, ◌||◌, not, Option, none, some, List, ◌++◌, leb, min, if◌then◌else◌, ok,
  ◌>>=◌, map_err,
}
use palisade.Text.{Str, codes, is_empty, contains, trim, eq_ignore_ascii_case, str_len}
use palisade.Error.{Result, Response, internal}
use palisade.Headers.{and_then, strip_hop_by_hop, strip_response_headers, content_length}
use palisade.Config.Runtime.{map_or}
use palisade.Config.Load.{mask_sensitive_data}
use palisade.Proxy.Crates.{Crates}
use palisade.Proxy.Screen.{Runtime}
use palisade.Proxy.Forward.{usize_max}

-- A body that streams through, or one that the proxy made from a text.
pub data BoxBody (c : Crates) : Type 0 where
  streamed : c.Incoming → BoxBody c
  full : Str → BoxBody c

module _ (c : Crates) where
  open c use {
    Incoming,
    collect_limited,
    from_utf8_lossy,
    http.{HeaderMap, get, to_str, insert, name_from_static, value_from_str, value_from_number},
  }

  -- The text of a header, if there is one.
  abbrev pub header_text : HeaderMap → Str → Option Str
  header_text m name = and_then (get m (name_from_static name)) to_str

  unfoldable pub maskable_content_type : HeaderMap → Bool
  maskable_content_type m =
      map_or false
        (λ (ct : Str).
          contains ct (codes "text/") || contains ct (codes "application/x-www-form-urlencoded"))
        (header_text m (codes "content-type"))

  unfoldable pub content_encoded : HeaderMap → Bool
  content_encoded m =
      map_or false
        (λ (enc : Str).
          not (is_empty (trim enc)) && not (eq_ignore_ascii_case (trim enc) (codes "identity")))
        (header_text m (codes "content-encoding"))

  unfoldable pub within_ceiling : HeaderMap → ℕ → Bool
  within_ceiling m ceiling = map_or false (λ len. leb len ceiling) (content_length c.http m)

  -- Whether the body is passed on as it comes.
  unfoldable pub streams : Runtime c → HeaderMap → Bool
  streams config m =
      is_empty config.mask_rules
      || not (maskable_content_type m)
      || content_encoded m
      || not (within_ceiling m config.mask_max_body_size)

  unfoldable pub masked_response :
      Runtime c → Response c.http Incoming → List ℕ → Response c.http (BoxBody c)
  masked_response config resp bytes =
      let masked =
        mask_sensitive_data c.http c.net c.regex config.mask_rules (from_utf8_lossy bytes) in
      record {
        status = resp.status;
        headers =
            insert resp.headers (name_from_static (codes "content-length"))
              (value_from_number (str_len masked));
        body = full masked;
      }

  unfoldable pub build_response :
      Response c.http Incoming → Runtime c → Result (Response c.http (BoxBody c))
  unfolding masked_response
  build_response resp config =
      if streams config resp.headers
      then ok (record { status = resp.status; headers = resp.headers; body = streamed resp.body })
      else do
        bytes ←
            map_err (λ e. internal (codes "failed to read upstream body for masking: " ++ e))
              (collect_limited resp.body (min config.mask_max_body_size usize_max))
        ok (masked_response config resp bytes)

  -- The upstream response without its connection-scoped and configured headers.
  unfoldable pub stripped : Runtime c → Response c.http Incoming → Response c.http Incoming
  stripped config resp = record resp {
    headers =
        (let m = strip_hop_by_hop c.http resp.headers in
          if is_empty config.strip_response_headers
          then m
          else strip_response_headers c.http m config.strip_response_headers);
  }

  -- The identifier, or the sequence number if it is no header value.
  unfoldable pub with_request_id :
      Str → ℕ → Response c.http (BoxBody c) → Response c.http (BoxBody c)
  with_request_id request_id seq resp = record resp {
    headers =
        insert resp.headers (name_from_static (codes "x-request-id"))
          (elim (value_from_str request_id) [ none ↦ value_from_number seq | some v ↦ v ]);
  }

  -- What `handle_request` does with the response of the backend.
  unfoldable pub reply :
      Runtime c → Str → ℕ → Response c.http Incoming → Result (Response c.http (BoxBody c))
  unfolding stripped with_request_id
  reply config request_id seq resp = do
    built ← build_response (stripped config resp) config
    ok (with_request_id request_id seq built)
