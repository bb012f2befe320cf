-- ===== src/Server/Statuses.antt =====
-- The status that a client sees once its request has gone to a backend.
use palisade.Prelude.{
  ℕ, ◌≡◌, refl, ◌∙◌, ap, Bool, true, false, ◌||◌, none, some, ◌++◌, min, is_ok, ok, err,
  Except-cases, Bool-cases, inl, inr, ◌⊎◌, if◌then◌else◌,
}
use palisade.Text.{Str, codes}
use palisade.Error.{
  ProxyError, Response, into_response, internal, built, retry_header, retry_after_ms, and_then,
  with_header, status_code,
}
use palisade.Semaphore.{Semaphores}
use palisade.Metrics.{Prometheus}
use palisade.Proxy.Crates.{Crates}
use palisade.Proxy.Screen.{Runtime}
use palisade.Proxy.Forward.{usize_max}
use palisade.Proxy.Reply.{
  BoxBody, streamed, streams, stripped, masked_response, build_response, with_request_id, reply,
}
use palisade.Proxy.Pipeline.{
  Outcome, responded, failed, elapsed, is_length_limit_error, finish_request,
}
use palisade.Server.Service.{ServerState, InFlight, error_response, answer, leave}

module _ (c : Crates) where
  -- Whether the body of a response streams through, or can be read for masking.
  abbrev pub deliverable : Runtime c → Response c.http c.Incoming → Bool
  deliverable config resp =
      streams c config (stripped c config resp).headers
      || is_ok (c.collect_limited resp.body (min config.mask_max_body_size usize_max))

  -- The status that belongs to an outcome.
  abbrev pub status_of : Runtime c → Outcome c → ℕ
  status_of config (responded resp) = if deliverable config resp then resp.status else 500
  status_of config (failed e) = if is_length_limit_error e then 413 else 502
  status_of config elapsed = 504

module _ (c : Crates) (config : Runtime c) (request_id : Str) (seq : ℕ)
    (resp : Response c.http c.Incoming) where
  -- A response that can be delivered keeps its status, and any other is an internal error.
  reply-cases :
      ((deliverable c config resp ≡ true)
        × ((out : Response c.http (BoxBody c)) × (reply c config request_id seq resp ≡ ok out)
            × (out.status ≡ resp.status)))
      ⊎ ((deliverable c config resp ≡ false)
          × ((text : Str) × (reply c config request_id seq resp ≡ err (internal text))))
  unfolding reply build_response with_request_id masked_response stripped
  reply-cases = elim (Bool-cases (streams c config (stripped c config resp).headers)) [
    | inl q ↦ inl (
      rw q refl,
      (
        with_request_id c request_id seq (record {
          status = resp.status;
          headers = (stripped c config resp).headers;
          body = streamed resp.body;
        }),
        rw (q, reply, build_response) refl,
        refl,
      ),
    )
    | inr q ↦
        elim (Except-cases
          (c.collect_limited resp.body (min config.mask_max_body_size usize_max))) [
            | inl (bytes, e) ↦ inl (
              rw (q, e) refl,
              (
                with_request_id c request_id seq
                    (masked_response c config (stripped c config resp) bytes),
                rw (q, e, reply, build_response) refl,
                refl,
              ),
            )
            | inr (x, e) ↦ inr (
              rw (q, e) refl,
              (
                codes "failed to read upstream body for masking: " ++ x,
                rw (q, e, reply, build_response) refl,
              ),
            )
          ]
  ]

module _ (c : Crates) (s : Semaphores) (p : Prometheus) (json : Str → Str → Str) where
  with_header-content :
      (content : c.http.HeaderValue)
      → c.http.value_from_str (codes "application/json") ≡ some content
      → with_header c.http json (codes "content-type") (codes "application/json") c.http.headers_new
        ≡ some (
            c.http.append c.http.headers_new
              (c.http.name_from_static (codes "content-type"))
              content)
  unfolding with_header
  with_header-content content q = rw (q, with_header) refl

  error_response-status :
      (e : ProxyError) (content : c.http.HeaderValue)
      → c.http.value_from_str (codes "application/json") ≡ some content
      → retry_after_ms e ≡ none
      → (error_response c s p json e).status ≡ status_code e
  unfolding error_response into_response built retry_header and_then
  error_response-status e content q r =
      ap
        (λ o.
          (built c.http json e
            (and_then c.http json o (retry_header c.http json (retry_after_ms e)))).status)
        (with_header-content content q)
      ∙ rw r refl

  answer-status_err :
      (e : ProxyError) (latency : ℕ) (st : ServerState c s p json) (content : c.http.HeaderValue)
      → c.http.value_from_str (codes "application/json") ≡ some content
      → retry_after_ms e ≡ none
      → (answer c s p json (err e) latency st).1.status ≡ status_code e
  unfolding answer
  answer-status_err e latency st content q r = error_response-status e content q r

  -- What the client sees of a request that went to a backend: the backend's status, or 500 if its
  -- body is to be masked and cannot be read within the ceiling; 413 if the client's body was too
  -- long; 502 for any other failure of the backend; and 504 after the timeout. The content type of
  -- error responses is taken to be a header value.
  pub leave-status :
      {B : Type 0} (f : InFlight c s p json B) (o : Outcome c) (now : ℕ)
      (st : ServerState c s p json) (content : c.http.HeaderValue)
      → c.http.value_from_str (codes "application/json") ≡ some content
      → (leave c s p json f o now st).1.status ≡ status_of c st.config o
  unfolding leave finish_request status_code retry_after_ms answer
  leave-status f (responded resp) now st content q =
      elim (reply-cases c st.config f.flight.request_id f.flight.seq resp) [
        | inl (d, (out, e, same)) ↦ rw (d, leave, finish_request, e, answer) same
        | inr (d, (text, e)) ↦
            rw (d, leave, finish_request, e, answer) (error_response-status _ content q refl)
      ]
  leave-status f (failed e) now st content q = elim (Bool-cases (is_length_limit_error e)) [
    | inl g ↦ rw (g, leave, finish_request) (error_response-status _ content q refl)
    | inr g ↦ rw (g, leave, finish_request) (error_response-status _ content q refl)
  ]
  leave-status f elapsed now st content q = error_response-status _ content q refl
