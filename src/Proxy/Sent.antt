-- ===== src/Proxy/Sent.antt =====
-- The request that the backend sees.
use palisade.Prelude.{
  ℕ, ◌≤◌, ◌≡◌, refl, ◌∙◌, Bool, true, false, ◌||◌, ◌&&◌, not, Bool-cases, inl, inr, Option, none,
  some, List, [], ◌∷◌, arith, ok, err, is_ok, ok_or, if◌then◌else◌, >>=-eq-ok, sym, ◌==◌,
  ok-injective, map_err-ok,
}
use palisade.Text.{Str, codes, is_empty}
use palisade.Http.{name_eq}
use palisade.Error.{invalid_upstream}
use palisade.Headers.{declared, strip_hop_by_hop, inject_forwarding_headers, rewrite_host}
use palisade.Headers.HopByHop.{
  names, get_all-remove_all, is_hop_by_hop, get_all-strip_hop_by_hop, static-is_hop_by_hop,
}
use palisade.Headers.Forwarding.{
  host, xff, xfp, xfh, get_all-insert_text_ne, get_all-inject_ne, get_all-rewrite_host, same,
}
use palisade.Config.Runtime.{or_default, validate_upstream}
use palisade.Proxy.Crates.{Crates, CratesLaws}
use palisade.Proxy.Screen.{Request, Runtime, http_11}
use palisade.Proxy.Forward.{Limited, rewrite_uri, forward_headers, prepare}

module _ (c : Crates) (l : CratesLaws c) where
  open c use {
    http.{
      Uri, HeaderMap, HeaderName, HeaderValue, Authority, Scheme, authority, scheme, path_and_query,
      get_all, value_from_str, authority_text, build_uri,
    },
    net.{SocketAddr},
  }

  rewrite_host_ne :
      (m : HeaderMap) (a : Authority) (k : HeaderName)
      → name_eq c.http (host c.http l.http_laws) k ≡ false
      → get_all (rewrite_host c.http m a) k ≡ get_all m k
  unfolding rewrite_host
  rewrite_host_ne m a k e =
      get_all-insert_text_ne c.http l.http_laws m (host c.http l.http_laws) k (authority_text a) e

  -- The names whose headers the proxy sets itself.
  abbrev pub own : HeaderName → Bool
  own k =
      name_eq c.http (host c.http l.http_laws) k
      || (name_eq c.http (xff c.http l.http_laws) k
          || (name_eq c.http (xfp c.http l.http_laws) k
              || name_eq c.http (xfh c.http l.http_laws) k))

  -- What is kept back of the headers of a request: a blocked header, one that the client's first
  -- `Connection` declares, and the standard hop-by-hop headers.
  abbrev pub withheld : Runtime c → HeaderMap → HeaderName → Bool
  withheld config m k =
      names c.http l.http_laws config.blocked_headers k
      || (names c.http l.http_laws (declared c.http m) k || is_hop_by_hop c.http l.http_laws k)

  module _ (config : Runtime c) (m : HeaderMap) (addr : SocketAddr) (tls : Bool)
      (a : Authority) where
    abbrev outgoing : HeaderMap
    outgoing = forward_headers c config m addr tls a

    -- No blocked header is sent to the backend, also none that forwarding itself has set.
    pub forward-blocked :
        (k : HeaderName)
        → names c.http l.http_laws config.blocked_headers k ≡ true
        → get_all outgoing k ≡ []
    unfolding forward_headers
    forward-blocked k e = get_all-remove_all c.http l.http_laws config.blocked_headers _ k ∙ rw e

    -- What the client's other headers have become before the blocked ones are removed.
    abbrev stripped_request : HeaderMap
    stripped_request = strip_hop_by_hop c.http m

    if_none : {A : Type 0} (b : Bool) (xs : List A) → xs ≡ [] → (if b then [] else xs) ≡ []
    if_none true xs e = refl
    if_none false xs e = e

    -- No header of the hop-by-hop set is sent to the backend, whatever the client sent.
    pub forward-hop_by_hop :
        (k : HeaderName) → is_hop_by_hop c.http l.http_laws k ≡ true → get_all outgoing k ≡ []
    unfolding forward_headers
    forward-hop_by_hop k e =
        get_all-remove_all c.http l.http_laws config.blocked_headers _ k
        ∙ if_none (names c.http l.http_laws config.blocked_headers k) _ (
            rewrite_host_ne _ a k
              (static-is_hop_by_hop c.http l.http_laws (codes "host") k refl refl e)
            ∙ (get_all-inject_ne c.http l.http_laws c.net stripped_request addr tls
                  config.trust_forwarded_headers k
                  (static-is_hop_by_hop c.http l.http_laws (codes "x-forwarded-for") k refl refl e)
                  (static-is_hop_by_hop c.http l.http_laws (codes "x-forwarded-proto") k refl refl
                    e)
                  (static-is_hop_by_hop c.http l.http_laws (codes "x-forwarded-host") k refl refl e)
                ∙ (get_all-strip_hop_by_hop c.http l.http_laws m k
                    ∙ hop (names c.http l.http_laws (declared c.http m) k) e)))
      where
        hop :
            (b : Bool)
            → is_hop_by_hop c.http l.http_laws k ≡ true
            → (if b || is_hop_by_hop c.http l.http_laws k then [] else get_all m k) ≡ []
        hop true q = refl
        hop false q = rw q

    -- A name that the proxy does not set keeps the client's values, or is withheld.
    forward-unset :
        (k : HeaderName)
        → own k ≡ false
        → get_all outgoing k ≡ (if withheld config m k then [] else get_all m k)
    unfolding forward_headers
    forward-unset k e =
        get_all-remove_all c.http l.http_laws config.blocked_headers _ k
        ∙ elim (Bool-cases (names c.http l.http_laws config.blocked_headers k)) [
          | inl b ↦ rw b refl
          | inr b ↦ rw b (
              rewrite_host_ne _ a k (ground arith)
              ∙ (get_all-inject_ne c.http l.http_laws c.net stripped_request addr tls
                    config.trust_forwarded_headers k (ground arith) (ground arith) (ground arith)
                  ∙ get_all-strip_hop_by_hop c.http l.http_laws m k))
        ]

    -- Also a name that the proxy sets is withheld if it is blocked.
    pub forward-withheld :
        (k : HeaderName)
        → own k && not (names c.http l.http_laws config.blocked_headers k) ≡ false
        → get_all outgoing k ≡ (if withheld config m k then [] else get_all m k)
    forward-withheld k e = elim (Bool-cases (names c.http l.http_laws config.blocked_headers k)) [
      | inl b ↦ rw b (forward-blocked k b)
      | inr b ↦ forward-unset k (ground arith)
    ]

    -- The backend sees its own authority as the only `Host`, if the authority is a header value
    -- and `Host` is not a blocked header.
    pub forward-host :
        (v : HeaderValue)
        → value_from_str (authority_text a) ≡ some v
        → names c.http l.http_laws config.blocked_headers (host c.http l.http_laws) ≡ false
        → (get_all outgoing (host c.http l.http_laws) ≡ v ∷ [])
          × (c.http.to_str v ≡ some (authority_text a))
    unfolding forward_headers
    forward-host v e b =
        let sent =
          get_all-rewrite_host c.http l.http_laws
            (inject_forwarding_headers c.http c.net stripped_request addr tls
              config.trust_forwarded_headers)
            a (host c.http l.http_laws) v e in
        (
          get_all-remove_all c.http l.http_laws config.blocked_headers _ (host c.http l.http_laws)
              ∙ rw (b, sent.0, same c.http l.http_laws (codes "host") refl) refl,
          sent.1,
        )

  ok_or-ok : {A E : Type 0} (e : E) (o : Option A) (x : A) → ok_or e o ≡ ok x → o ≡ some x
  ok_or-ok e none x g = cc
  ok_or-ok e (some y) x g = cc

  rewrite_uri-ok :
      (o up u : Uri) (p : Str)
      → path_and_query o ≡ some p
      → rewrite_uri c o up ≡ ok u
      → (scheme u ≡ scheme up) × (authority u ≡ authority up) × (path_and_query u ≡ some p)
  unfolding rewrite_uri
  rewrite_uri-ok o up u p e g =
      let (a, qa, ga) = >>=-eq-ok (ok_or _ (authority up)) _ g in
      let (s, qs, gs) = >>=-eq-ok (ok_or _ (scheme up)) _ ga in
      let built =
        rw e at (map_err-ok _ (build_uri s a (or_default (codes "/") (path_and_query o))) u gs) in
      let parts = l.http_laws.build_uri-parts s a p u built in
      (
        parts.0 ∙ sym (ok_or-ok _ (scheme up) s qs),
        parts.1 ∙ sym (ok_or-ok _ (authority up) a qa),
        l.http_laws.build_uri-path s a p o u e built,
      )

  -- The parts of a request that is prepared, also of one without a path.
  pub prepare-parts :
      {B : Type 0} (config : Runtime c) (req : Request c B) (up : Uri) (addr : SocketAddr)
      (tls : Bool) (sent : Request c (Limited B))
      → prepare c config req up addr tls ≡ ok sent
      → (a : Authority) × (authority up ≡ some a)
        × (scheme sent.uri ≡ scheme up)
        × (authority sent.uri ≡ authority up)
        × (sent.headers ≡ forward_headers c config req.headers addr tls a)
        × (sent.body.limit ≤ config.max_body_size)
  unfolding prepare rewrite_uri
  prepare-parts config req up addr tls sent g =
      let (u, qu, gu) = >>=-eq-ok (rewrite_uri c req.uri up) _ g in
      let (a, qa, ga) = >>=-eq-ok (ok_or _ (authority up)) _ gu in
      let (b, qb, gb) = >>=-eq-ok (ok_or _ (authority up)) _ qu in
      let (s, qs, gs) = >>=-eq-ok (ok_or _ (scheme up)) _ gb in
      let (x, y) = l.http_laws.build_uri-parts s b _ u (map_err-ok _ (build_uri s b _) u gs) in
      rw (← ok-injective _ refl ga) (
        a,
        ok_or-ok _ (authority up) a qa,
        x ∙ sym (ok_or-ok _ (scheme up) s qs),
        y ∙ sym (ok_or-ok _ (authority up) b qb),
        refl,
        omega arith,
      )

  -- A request with a path that is prepared goes to the upstream's scheme and authority with the
  -- path and query of the request, as HTTP/1.1, with the method and the body of the request, and
  -- the body is cut off at the configured size or below.
  pub prepare-target :
      {B : Type 0} (config : Runtime c) (req : Request c B) (up : Uri) (addr : SocketAddr)
      (tls : Bool) (p : Str) (sent : Request c (Limited B))
      → path_and_query req.uri ≡ some p
      → prepare c config req up addr tls ≡ ok sent
      → (scheme sent.uri ≡ scheme up)
        × (authority sent.uri ≡ authority up)
        × (path_and_query sent.uri ≡ some p)
        × (sent.version ≡ http_11)
        × (sent.method ≡ req.method)
        × (sent.body.inner ≡ req.body)
        × (sent.body.limit ≤ config.max_body_size)
  unfolding prepare
  prepare-target config req up addr tls p sent e g =
      let (u, qu, gu) = >>=-eq-ok (rewrite_uri c req.uri up) _ g in
      let (a, qa, ga) = >>=-eq-ok (ok_or _ (authority up)) _ gu in
      let (s, t, v) = rewrite_uri-ok req.uri up u p e qu in
      rw (← ok-injective _ refl ga) (s, t, v, refl, refl, refl, omega arith)

  -- An upstream whose address is not empty and parses to a URI with an authority and no scheme,
  -- like `localhost:3000`, passes the checks of an upstream if its weight is positive, and then
  -- every request to it fails as an invalid upstream.
  pub scheme_missing :
      {B : Type 0} (config : Runtime c) (req : Request c B) (address : Str) (weight : ℕ) (u : Uri)
      (a : Authority) (addr : SocketAddr) (tls : Bool)
      → is_empty address ≡ false
      → c.http.parse_uri address ≡ ok u
      → authority u ≡ some a
      → scheme u ≡ none
      → (weight == 0) ≡ false
      → (is_ok (validate_upstream c.http address weight) ≡ true)
        × (prepare c config req u addr tls
            ≡ err (invalid_upstream (codes "upstream has no scheme")))
  unfolding prepare rewrite_uri validate_upstream
  scheme_missing config req address weight u a addr tls n e g q w =
      (rw (n, e, g, w, validate_upstream) refl, rw (g, q, prepare, rewrite_uri) refl)
