-- ===== src/Headers/Forwarding.antt =====
-- What forwarding leaves of the `X-Forwarded-*` and `Host` headers.
use palisade.Prelude.{
  ◌≡◌, refl, Bool, true, false, ◌&&◌, some, List, [], ◌∷◌, ◌++◌, if◌then◌else◌, Bool-cases,
  Option-cases, ◌∙◌, inl, ap, inr,
}
use palisade.Text.{str_eq_refl, Str, codes, str_eq, all, str_eq_refl}
use palisade.Http.{Http, HttpLaws, name_eq, name_eq-static, is_name_char}
use palisade.Net.{Net}
use palisade.Headers.{
  insert_text, xff_value, inject_for, inject_proto, inject_host, inject_forwarding_headers,
  rewrite_host,
}

module _ (h : Http) (l : HttpLaws h) where
  open h use {
    HeaderName, HeaderValue, HeaderMap, Authority, name_from_static, get, get_all, value_from_str,
    value_from_static, to_str, authority_text,
  }

  abbrev pub xff : HeaderName
  xff = name_from_static (codes "x-forwarded-for")

  abbrev pub xfp : HeaderName
  xfp = name_from_static (codes "x-forwarded-proto")

  abbrev pub xfh : HeaderName
  xfh = name_from_static (codes "x-forwarded-host")

  abbrev pub host : HeaderName
  host = name_from_static (codes "host")

  pub apart :
      (s t : Str)
      → all is_name_char s ≡ true
      → all is_name_char t ≡ true
      → str_eq s t ≡ false
      → name_eq h (name_from_static s) (name_from_static t) ≡ false
  apart s t p q e = rw (name_eq-static h l s t p q) e

  pub same :
      (s : Str)
      → all is_name_char s ≡ true
      → name_eq h (name_from_static s) (name_from_static s) ≡ true
  same s p = rw (name_eq-static h l s s p p) (str_eq_refl s)

  get_all-insert_text :
      (m : HeaderMap) (n k : HeaderName) (t : Str) (v : HeaderValue)
      → value_from_str t ≡ some v
      → get_all (insert_text h m n t) k ≡ (if name_eq h n k then v ∷ [] else get_all m k)
  unfolding insert_text
  get_all-insert_text m n k t v e = rw (e, insert_text) (l.get_all-insert m n k v)

  get_all-inject_for :
      (m : HeaderMap) (ip : Str) (trust : Bool) (k : HeaderName) (v : HeaderValue)
      → value_from_str (xff_value h m ip trust) ≡ some v
      → get_all (inject_for h m ip trust) k ≡ (if name_eq h xff k then v ∷ [] else get_all m k)
  unfolding inject_for
  get_all-inject_for m ip trust k v e = get_all-insert_text m xff k (xff_value h m ip trust) v e

  -- The value that the proxy gives `X-Forwarded-Proto`.
  abbrev proto_value : Bool → HeaderValue
  proto_value client_tls = value_from_static (if client_tls then codes "https" else codes "http")

  get_all-inject_proto :
      (m : HeaderMap) (client_tls : Bool) (k : HeaderName)
      → get_all (inject_proto h m client_tls false) k
        ≡ (if name_eq h xfp k then proto_value client_tls ∷ [] else get_all m k)
  unfolding inject_proto
  get_all-inject_proto m client_tls k = l.get_all-insert m xfp k (proto_value client_tls)

  get_all-inject_host_none : (m : HeaderMap) → get_all m host ≡ [] → inject_host h m ≡ m
  unfolding inject_host
  get_all-inject_host_none m e = rw (inject_host, l.get-get_all m host, e)

  get_all-inject_host :
      (m : HeaderMap) (k : HeaderName) (v : HeaderValue) (vs : List HeaderValue)
      → get_all m host ≡ v ∷ vs
      → get_all (inject_host h m) k ≡ (if name_eq h xfh k then v ∷ [] else get_all m k)
  unfolding inject_host
  get_all-inject_host m k v vs e =
      rw (inject_host, l.get-get_all m host, e) (l.get_all-insert m xfh k v)

  get_all-inject_host_ne :
      (m : HeaderMap) (k : HeaderName)
      → name_eq h xfh k ≡ false
      → get_all (inject_host h m) k ≡ get_all m k
  unfolding inject_host
  get_all-inject_host_ne m k e = elim (Option-cases (get m host)) [
    | inl g ↦ rw (g, inject_host)
    | inr (v, g) ↦ rw (g, inject_host) (l.get_all-insert m xfh k v ∙ rw e)
  ]

  xff_value-trusted :
      (m : HeaderMap) (ip : Str) (u : HeaderValue) (us : List HeaderValue) (t : Str)
      → get_all m xff ≡ u ∷ us
      → to_str u ≡ some t
      → xff_value h m ip true ≡ t ++ (codes ", " ++ ip)
  unfolding xff_value
  xff_value-trusted m ip u us t a b = rw (xff_value, l.get-get_all m xff, a, b)

  inject_proto-trusted :
      (m : HeaderMap) (client_tls : Bool) (w : HeaderValue) (ws : List HeaderValue)
      → get_all m xfp ≡ w ∷ ws
      → inject_proto h m client_tls true ≡ m
  unfolding inject_proto
  inject_proto-trusted m client_tls w ws e = rw (inject_proto, l.contains_key-get_all m xfp, e)

  -- An insertion leaves the other names alone, whether or not the text is a header value.
  pub get_all-insert_text_ne :
      (m : HeaderMap) (n k : HeaderName) (t : Str)
      → name_eq h n k ≡ false
      → get_all (insert_text h m n t) k ≡ get_all m k
  unfolding insert_text
  get_all-insert_text_ne m n k t e = elim (Option-cases (value_from_str t)) [
    | inl g ↦ rw (g, insert_text)
    | inr (v, g) ↦ rw (g, insert_text) (l.get_all-insert m n k v ∙ rw e)
  ]

  get_all-inject_for_ne :
      (m : HeaderMap) (ip : Str) (trust : Bool) (k : HeaderName)
      → name_eq h xff k ≡ false
      → get_all (inject_for h m ip trust) k ≡ get_all m k
  unfolding inject_for
  get_all-inject_for_ne m ip trust k e = get_all-insert_text_ne m xff k (xff_value h m ip trust) e

  get_all-inject_proto_ne :
      (m : HeaderMap) (client_tls trust : Bool) (k : HeaderName)
      → name_eq h xfp k ≡ false
      → get_all (inject_proto h m client_tls trust) k ≡ get_all m k
  unfolding inject_proto
  get_all-inject_proto_ne m client_tls trust k e =
      elim (Bool-cases (trust && h.contains_key m xfp)) [
        | inl g ↦ rw (g, inject_proto)
        | inr g ↦ rw (g, inject_proto) (l.get_all-insert m xfp k (proto_value client_tls) ∙ rw e)
      ]

  -- Forwarding touches the three names alone.
  pub get_all-inject_ne :
      (n : Net) (m : HeaderMap) (addr : n.SocketAddr) (client_tls trust : Bool) (k : HeaderName)
      → name_eq h xff k ≡ false
      → name_eq h xfp k ≡ false
      → name_eq h xfh k ≡ false
      → get_all (inject_forwarding_headers h n m addr client_tls trust) k ≡ get_all m k
  unfolding inject_forwarding_headers
  get_all-inject_ne n m addr client_tls trust k p q r =
      get_all-inject_host_ne _ k r
      ∙ (get_all-inject_proto_ne _ client_tls trust k q
          ∙ get_all-inject_for_ne m (n.ip_text (n.ip addr)) trust k p)

  module _ (n : Net) (m : HeaderMap) (addr : n.SocketAddr) (client_tls : Bool) where
    abbrev ip_text : Str
    ip_text = n.ip_text (n.ip addr)

    abbrev injected : Bool → HeaderMap
    injected trust = inject_forwarding_headers h n m addr client_tls trust

    -- The map before the host is looked up.
    abbrev staged : Bool → HeaderMap
    staged trust = inject_proto h (inject_for h m ip_text trust) client_tls trust

    get_all-staged :
        (k : HeaderName) (v : HeaderValue)
        → value_from_str ip_text ≡ some v
        → get_all (staged false) k ≡ (
            if name_eq h xfp k
            then proto_value client_tls ∷ []
            else if name_eq h xff k
            then v ∷ []
            else get_all m k)
    unfolding xff_value
    get_all-staged k v e =
        rw
          (
            get_all-inject_proto (inject_for h m ip_text false) client_tls k,
            get_all-inject_for m ip_text false k v e,
          )
          refl

    staged-host :
        (v : HeaderValue)
        → value_from_str ip_text ≡ some v
        → get_all (staged false) host ≡ get_all m host
    staged-host v e =
        rw
          (
            get_all-staged host v e,
            apart (codes "x-forwarded-proto") (codes "host") refl refl refl,
            apart (codes "x-forwarded-for") (codes "host") refl refl refl,
          )
          refl

    -- Without trust, for a request that has a `Host` header and a client address that is a header
    -- value: `X-Forwarded-For` is the client's address alone, `X-Forwarded-Proto` the scheme of the
    -- client's connection, `X-Forwarded-Host` the first `Host`, whatever the client sent under these
    -- names, and every other header keeps its values.
    pub untrusted_forwarding :
        (k : HeaderName) (v w : HeaderValue) (ws : List HeaderValue)
        → value_from_str ip_text ≡ some v
        → get_all m host ≡ w ∷ ws
        → get_all (injected false) k ≡ (
            if name_eq h xfh k
            then w ∷ []
            else if name_eq h xfp k
            then proto_value client_tls ∷ []
            else if name_eq h xff k
            then v ∷ []
            else get_all m k)
    unfolding inject_forwarding_headers
    untrusted_forwarding k v w ws e g =
        rw (get_all-inject_host (staged false) k w ws (staged-host v e ∙ g), get_all-staged k v e)
          refl

    -- A request that has no `Host` header keeps every `X-Forwarded-Host` that the client sent,
    -- also when forwarded headers are not trusted, if the client's address is a header value.
    pub spoofed_host :
        (v : HeaderValue)
        → value_from_str ip_text ≡ some v
        → get_all m host ≡ []
        → get_all (injected false) xfh ≡ get_all m xfh
    unfolding inject_forwarding_headers
    spoofed_host v e g =
        rw
          (
            get_all-inject_host_none (staged false) (staged-host v e ∙ g),
            get_all-staged xfh v e,
            apart (codes "x-forwarded-proto") (codes "x-forwarded-host") refl refl refl,
            apart (codes "x-forwarded-for") (codes "x-forwarded-host") refl refl refl,
          )
          refl

    -- With trust, for a request that has a first `X-Forwarded-For` that is text and an
    -- `X-Forwarded-Proto`: the client's address is appended to the former, if the result is a
    -- header value, and the latter keeps its values.
    pub trusted_forwarding :
        (u v w : HeaderValue) (us vs : List HeaderValue) (t : Str)
        → get_all m xff ≡ u ∷ us
        → to_str u ≡ some t
        → value_from_str (t ++ (codes ", " ++ ip_text)) ≡ some v
        → get_all m xfp ≡ w ∷ vs
        → (get_all (injected true) xff ≡ v ∷ []) × (get_all (injected true) xfp ≡ w ∷ vs)
    unfolding inject_forwarding_headers
    trusted_forwarding u v w us vs t a b c d = (
      kept xff (apart (codes "x-forwarded-host") (codes "x-forwarded-for") refl refl refl)
          ∙ rw (appended xff, same (codes "x-forwarded-for") refl) refl,
      kept xfp (apart (codes "x-forwarded-host") (codes "x-forwarded-proto") refl refl refl)
          ∙ proto,
    )
      where
        appended :
            (k : HeaderName)
            → get_all (inject_for h m ip_text true) k
              ≡ (if name_eq h xff k then v ∷ [] else get_all m k)
        appended k =
            get_all-inject_for m ip_text true k v
              (ap value_from_str (xff_value-trusted m ip_text u us t a b) ∙ c)

        proto : get_all (inject_for h m ip_text true) xfp ≡ w ∷ vs
        proto =
            rw
              (
                appended xfp,
                apart (codes "x-forwarded-for") (codes "x-forwarded-proto") refl refl refl,
              )
              d

        kept :
            (k : HeaderName)
            → name_eq h xfh k ≡ false
            → get_all (injected true) k ≡ get_all (inject_for h m ip_text true) k
        kept k e =
            get_all-inject_host_ne (staged true) k e
            ∙ ap (λ (x : HeaderMap). get_all x k)
                (inject_proto-trusted (inject_for h m ip_text true) client_tls w vs proto)

  -- The upstream sees its own authority as the only `Host`, and the other headers unchanged.
  pub get_all-rewrite_host :
      (m : HeaderMap) (a : Authority) (k : HeaderName) (v : HeaderValue)
      → value_from_str (authority_text a) ≡ some v
      → (get_all (rewrite_host h m a) k ≡ (if name_eq h host k then v ∷ [] else get_all m k))
        × (to_str v ≡ some (authority_text a))
  unfolding rewrite_host
  get_all-rewrite_host m a k v e = (
    get_all-insert_text m host k (authority_text a) v e,
    l.to_str-value_from_str (authority_text a) v e,
  )
