-- ===== src/Proxy/Answer.antt =====
-- The response that the client gets when the backend has answered.
use palisade.Prelude.{
  ℕ, ◌≤◌, ◌≡◌, refl, ◌∙◌, ap, Bool, true, false, ◌||◌, none, some, List, [], ◌∷◌, arith, min,
  length, Except, ok, >>=-eq-ok, if◌then◌else◌, ok-injective, map_err-ok, ◌⊎◌, inl, inr, sym,
}
use palisade.Text.{Str, codes, is_empty, str_len}
use palisade.Http.{name_eq}
use palisade.Error.{Response}
use palisade.Headers.{declared, strip_hop_by_hop, strip_response_headers}
use palisade.Headers.HopByHop.{
  names, is_hop_by_hop, get_all-strip_hop_by_hop, configured, get_all-strip_response_headers,
}
use palisade.Headers.Forwarding.{same, apart}
use palisade.Config.Load.{mask_sensitive_data}
use palisade.Proxy.Crates.{Crates, CratesLaws}
use palisade.Proxy.Screen.{Runtime}
use palisade.Proxy.Forward.{usize_max}
use palisade.Proxy.Reply.{
  BoxBody, streamed, full, streams, masked_response, build_response, stripped, with_request_id,
  reply,
}

module _ (c : Crates) (l : CratesLaws c) where
  open c use {
    Incoming,
    collect_limited,
    from_utf8_lossy,
    http.{
      HeaderMap, HeaderName, HeaderValue, get_all, name_from_static, value_from_str,
      value_from_number,
    },
  }

  -- Whether a header of the backend's response is kept back.
  unfoldable pub kept_back : Runtime c → HeaderMap → HeaderName → Bool
  kept_back config m k =
      names c.http l.http_laws (configured c.http l.http_laws config.strip_response_headers) k
      || (names c.http l.http_laws (declared c.http m) k || is_hop_by_hop c.http l.http_laws k)

  abbrev pub request_id_name : HeaderName
  request_id_name = name_from_static (codes "x-request-id")

  abbrev pub length_name : HeaderName
  length_name = name_from_static (codes "content-length")

  -- The value of the identifier's header.
  abbrev pub id_value : Str → ℕ → HeaderValue
  id_value request_id seq = elim (value_from_str request_id) [
    | none ↦ value_from_number seq
    | some v ↦ v
  ]

  strip_configured :
      (ts : List Str) (m : HeaderMap) (k : HeaderName)
      → get_all (if is_empty ts then m else strip_response_headers c.http m ts) k ≡ (
          if names c.http l.http_laws (configured c.http l.http_laws ts) k then [] else get_all m k)
  unfolding configured
  strip_configured [] m k = refl
  strip_configured (t ∷ ts) m k = get_all-strip_response_headers c.http l.http_laws (t ∷ ts) m k

  if_nested :
      {A : Type 0} (a b : Bool) (x y : A)
      → (if a then x else if b then x else y) ≡ (if a || b then x else y)
  if_nested true b x y = refl
  if_nested false b x y = refl

  get_all-stripped :
      (config : Runtime c) (resp : Response c.http Incoming) (k : HeaderName)
      → get_all (stripped c config resp).headers k
        ≡ (if kept_back config resp.headers k then [] else get_all resp.headers k)
  unfolding stripped kept_back
  get_all-stripped config resp k =
      strip_configured config.strip_response_headers (strip_hop_by_hop c.http resp.headers) k
      ∙ rw (get_all-strip_hop_by_hop c.http l.http_laws resp.headers k) (
          if_nested
            (names c.http l.http_laws (configured c.http l.http_laws config.strip_response_headers)
              k)
            (names c.http l.http_laws (declared c.http resp.headers) k
              || is_hop_by_hop c.http l.http_laws k)
            [] (get_all resp.headers k))

  if-ok :
      {A E : Type 0} {out : A} (b : Bool) (x : A) (y : Except E A)
      → (if b then ok x else y) ≡ ok out
      → ((b ≡ true) × (out ≡ x)) ⊎ ((b ≡ false) × (y ≡ ok out))
  if-ok true x y e = inl (refl, ok-injective _ refl (sym e))
  if-ok false x y e = inr (refl, e)

  -- The two ways in which a body is built.
  Built : Runtime c → Response c.http Incoming → Response c.http (BoxBody c) → Type 0
  Built config resp out =
      ((streams c config resp.headers ≡ true)
        × (out
            ≡ record { status = resp.status; headers = resp.headers; body = streamed resp.body }))
      ⊎ ((streams c config resp.headers ≡ false)
          × ((bytes : List ℕ) × (collect_limited resp.body (min config.mask_max_body_size usize_max)
                ≡ ok bytes)
              × (out ≡ masked_response c config resp bytes)))

  build_response-Built :
      (config : Runtime c) (resp : Response c.http Incoming) (out : Response c.http (BoxBody c))
      → build_response c resp config ≡ ok out
      → Built config resp out
  unfolding build_response Built
  build_response-Built config resp out e = elim (if-ok (streams c config resp.headers) _ _ e) [
    | inl (s, q) ↦ inl (s, q)
    | inr (s, q) ↦
        (let (bytes, a, b) = >>=-eq-ok _ _ q in
          inr (
            s,
            (
              bytes,
              map_err-ok _ (collect_limited resp.body _) bytes a,
              ok-injective _ refl (sym b),
            ),
          ))
  ]

  get_all-Built :
      (config : Runtime c) (resp : Response c.http Incoming) (out : Response c.http (BoxBody c))
      (k : HeaderName)
      → Built config resp out
      → name_eq c.http length_name k ≡ false
      → get_all out.headers k ≡ get_all resp.headers k
  unfolding Built masked_response
  get_all-Built config resp out k (inl (s, q)) e = rw q refl
  get_all-Built config resp out k (inr (s, (bytes, a, q))) e =
      rw q (l.http_laws.get_all-insert resp.headers length_name k _ ∙ rw e)

  module _ (config : Runtime c) (request_id : Str) (seq : ℕ) (resp : Response c.http Incoming)
      (out : Response c.http (BoxBody c)) where
    reply-Built :
        reply c config request_id seq resp ≡ ok out
        → (built : Response c.http (BoxBody c)) × Built config (stripped c config resp) built
          × (out ≡ with_request_id c request_id seq built)
    unfolding reply
    reply-Built e =
        let (built, a, b) = >>=-eq-ok (build_response c (stripped c config resp) config) _ e in
        (
          built,
          build_response-Built config (stripped c config resp) built a,
          ok-injective _ refl (sym b),
        )

    -- A response that succeeds has exactly one `X-Request-Id`, whatever the backend sent under
    -- this name: the identifier of the request, or its sequence number if the identifier is no
    -- header value.
    pub reply-request_id :
        reply c config request_id seq resp ≡ ok out
        → get_all out.headers request_id_name ≡ id_value request_id seq ∷ []
    unfolding with_request_id
    reply-request_id e =
        let (built, a, b) = reply-Built e in
        rw (b, with_request_id)
          (l.http_laws.get_all-insert built.headers request_id_name request_id_name _
            ∙ rw (same c.http l.http_laws (codes "x-request-id") refl) refl)

    -- Of the headers other than `X-Request-Id` and `Content-Length`, a response that succeeds has
    -- exactly those of the backend that are not hop-by-hop, not declared by its first `Connection`
    -- and not configured to be stripped, with all their values.
    pub reply-headers :
        (k : HeaderName)
        → name_eq c.http request_id_name k ≡ false
        → name_eq c.http length_name k ≡ false
        → reply c config request_id seq resp ≡ ok out
        → get_all out.headers k
          ≡ (if kept_back config resp.headers k then [] else get_all resp.headers k)
    unfolding with_request_id
    reply-headers k r n e =
        let (built, a, b) = reply-Built e in
        rw (b, with_request_id)
          (l.http_laws.get_all-insert built.headers request_id_name k _
            ∙ (rw r (get_all-Built config (stripped c config resp) built k a n)
                ∙ get_all-stripped config resp k))

    masked_length :
        (built : Response c.http (BoxBody c)) (bytes : List ℕ)
        → out ≡ with_request_id c request_id seq built
        → built ≡ masked_response c config (stripped c config resp) bytes
        → get_all out.headers length_name
          ≡ value_from_number (
              str_len (
                mask_sensitive_data c.http c.net c.regex config.mask_rules (from_utf8_lossy bytes)))
            ∷ []
    unfolding with_request_id masked_response
    masked_length built bytes b q =
        rw (b, with_request_id)
          (l.http_laws.get_all-insert built.headers request_id_name length_name _
            ∙ rw
                (
                  apart c.http l.http_laws (codes "x-request-id") (codes "content-length") refl refl
                      refl,
                  q,
                )
                (l.http_laws.get_all-insert (stripped c config resp).headers length_name length_name
                    _
                  ∙ rw (same c.http l.http_laws (codes "content-length") refl) refl))

    -- The body of a response that succeeds either streams through, or is the masked text of the whole
    -- body of the backend; in that case the backend's body is within the masking ceiling and the only
    -- `Content-Length` is the length of the masked text. The status is the backend's in both cases.
    pub reply-body :
        reply c config request_id seq resp ≡ ok out
        → (out.status ≡ resp.status)
          × (((streams c config (stripped c config resp).headers ≡ true)
                × (out.body ≡ streamed resp.body))
              ⊎ ((streams c config (stripped c config resp).headers ≡ false)
                  × ((bytes : List ℕ) × (collect_limited resp.body
                          (min config.mask_max_body_size usize_max)
                        ≡ ok bytes)
                      × (length bytes ≤ config.mask_max_body_size)
                      × (out.body
                          ≡ full (
                              mask_sensitive_data c.http c.net c.regex config.mask_rules
                                (from_utf8_lossy bytes)))
                      × (get_all out.headers length_name
                          ≡ value_from_number (
                              str_len (
                                mask_sensitive_data c.http c.net c.regex config.mask_rules
                                  (from_utf8_lossy bytes)))
                            ∷ []))))
    unfolding with_request_id stripped masked_response Built
    reply-body e =
        let (built, a, b) = reply-Built e in
        elim a [
          | inl (t, q) ↦ (
            ap (λ r. r.status) b ∙ ap (λ r. r.status) q,
            inl (t, ap (λ r. r.body) b ∙ ap (λ r. r.body) q),
          )
          | inr (t, (bytes, g, q)) ↦ (
            ap (λ r. r.status) b ∙ ap (λ r. r.status) q,
            inr (
              t,
              (
                bytes,
                g,
                omega (arith, l.length-collect_limited resp.body _ bytes g),
                ap (λ r. r.body) b ∙ ap (λ r. r.body) q,
                masked_length built bytes b q,
              ),
            ),
          )
        ]
