-- ===== src/Config/Accepts.antt =====
-- Which configurations `Config::into_runtime` accepts.
use palisade.Prelude.{
  ◌≡◌, refl, sym, ap, ◌∙◌, Bool, true, false, ◌&&◌, not, Option, none, some, List, [], ◌∷◌, ◌++◌,
  ok, is_ok, map_err, collect, Except-cases, Option-cases, inl, inr, Bool-cases, >>=-eq-ok,
  map_err-ok, ok-injective, arith, collect-cons, collect-cons_nil,
}
use palisade.Text.{Str, codes, any, all}
use palisade.Duration.{from_secs}
use palisade.Http.{Http}
use palisade.Net.{Net}
use palisade.Error.{Result}
use palisade.Upstream.{ValidatedUpstream}
use palisade.Config.Schema.{
  default_mask_max_body_size, default_max_concurrent_requests, default_max_connections,
  default_header_read_timeout, Config, UpstreamConfig, AdminConfig, default_listen_addr,
}
use palisade.Config.Runtime.{
  RegexLib, or_default, validate_upstream, find_duplicate, check_distinct, blocked_header_name,
  mask_rule, listen_addr, admin_addr, is_listen,
}
use palisade.Config.Load.{into_runtime}
use palisade.Config.Fits.{
  upstream_fits, same_uri, distinct, admin_fits, apart, acceptable, guard, checked, bound,
  is_ok-map_err, is_ok-collect, all_ext, and_swap, all_nor, default_positive, seconds_positive,
  is_ok-check_rate_limit, is_ok-check_health_check,
}

module _ (h : Http) (n : Net) (r : RegexLib) where
  abbrev validate : UpstreamConfig → Result (ValidatedUpstream h)
  validate u = validate_upstream h u.address u.weight

  is_ok-validate_upstream : (u : UpstreamConfig) → is_ok (validate u) ≡ upstream_fits h n r u
  unfolding validate_upstream
  is_ok-validate_upstream u = elim (Except-cases (h.parse_uri u.address)) [
    | inl (uri, e) ↦ elim (Option-cases (h.authority uri)) [
      | inl g ↦ ground (arith, e, g)
      | inr (a, g) ↦ ground (arith, e, g)
    ]
    | inr (x, e) ↦ ground (arith, e)
  ]

  validate_upstream-uri :
      (u : UpstreamConfig) (v : ValidatedUpstream h)
      → validate u ≡ ok v
      → h.parse_uri u.address ≡ ok v.uri
  unfolding validate_upstream
  validate_upstream-uri u v e = ground arith

  -- No two of the validated upstreams have one URI.
  abbrev differ : List (ValidatedUpstream h) → Bool
  differ [] = true
  differ (u ∷ us) = all (λ (v : ValidatedUpstream h). not (h.uri_eq v.uri u.uri)) us && differ us

  abbrev is_none : {A : Type 0} → Option A → Bool
  is_none none = true
  is_none (some a) = false

  find_duplicate-differ :
      (seen : List h.Uri) (us : List (ValidatedUpstream h))
      → is_none (find_duplicate h seen us)
        ≡ (all (λ (v : ValidatedUpstream h). not (any (h.uri_eq v.uri) seen)) us && differ us)
  unfolding find_duplicate
  find_duplicate-differ seen [] = refl
  find_duplicate-differ seen (u ∷ us) =
      let others =
        all_nor (λ (v : ValidatedUpstream h). h.uri_eq v.uri u.uri) (λ v. any (h.uri_eq v.uri) seen)
          us in
      elim (Bool-cases (any (h.uri_eq u.uri) seen)) [
        | inl e ↦ rw (e, find_duplicate) refl
        | inr e ↦
            rw (e, find_duplicate)
              (find_duplicate-differ (u.uri ∷ seen) us
                ∙ rw others (
                    and_swap (all (λ (v : ValidatedUpstream h). not (h.uri_eq v.uri u.uri)) us)
                      (all (λ (v : ValidatedUpstream h). not (any (h.uri_eq v.uri) seen)) us)
                      (differ us)))
      ]

  all_fresh :
      (us : List (ValidatedUpstream h))
      → all (λ (v : ValidatedUpstream h). not (any (h.uri_eq v.uri) [])) us ≡ true
  all_fresh [] = refl
  all_fresh (u ∷ us) = all_fresh us

  check_distinct-differ :
      (us : List (ValidatedUpstream h)) → is_ok (check_distinct h us) ≡ differ us
  unfolding check_distinct
  check_distinct-differ us = elim (Option-cases (find_duplicate h [] us)) [
    | inl e ↦
        rw (e, check_distinct)
          (ap is_none (sym e) ∙ (find_duplicate-differ [] us ∙ rw (all_fresh us) refl))
    | inr (d, e) ↦
        rw (e, check_distinct)
          (ap is_none (sym e) ∙ (find_duplicate-differ [] us ∙ rw (all_fresh us) refl))
  ]

  same_uri-parsed :
      (a b : Str) (u v : h.Uri)
      → h.parse_uri a ≡ ok u
      → h.parse_uri b ≡ ok v
      → same_uri h n r a b ≡ h.uri_eq u v
  same_uri-parsed a b u v p q = rw (p, q, same_uri) refl

  all_differ :
      (address : Str) (uri : h.Uri) (us : List UpstreamConfig) (vs : List (ValidatedUpstream h))
      → h.parse_uri address ≡ ok uri
      → collect validate us ≡ ok vs
      → all (λ (v : ValidatedUpstream h). not (h.uri_eq v.uri uri)) vs
        ≡ all (λ (v : UpstreamConfig). not (same_uri h n r v.address address)) us
  all_differ address uri [] [] p e = refl
  all_differ address uri [] (v ∷ vs) p e = cc
  all_differ address uri (u ∷ us) [] p e = absurd (collect-cons_nil validate u us e)
  all_differ address uri (u ∷ us) (v ∷ vs) p e =
      let (q, rest) = collect-cons validate u us v vs e in
      rw
        (
          same_uri-parsed u.address address v.uri uri (validate_upstream-uri u v q) p,
          all_differ address uri us vs p rest,
        )
        refl

  differ-collect :
      (us : List UpstreamConfig) (vs : List (ValidatedUpstream h))
      → collect validate us ≡ ok vs
      → differ vs ≡ distinct h n r us
  differ-collect [] [] e = refl
  differ-collect [] (v ∷ vs) e = cc
  differ-collect (u ∷ us) [] e = absurd (collect-cons_nil validate u us e)
  differ-collect (u ∷ us) (v ∷ vs) e =
      let (q, rest) = collect-cons validate u us v vs e in
      rw
        (
          all_differ u.address v.uri us vs (validate_upstream-uri u v q) rest,
          differ-collect us vs rest,
        )
        refl

  is_ok-mask_rule :
      (param : Str)
      → is_ok (mask_rule r param) ≡ is_ok (r.compile (r.escape param ++ codes "=([^&]+)"))
  unfolding mask_rule
  is_ok-mask_rule param = elim (Except-cases (r.compile (r.escape param ++ codes "=([^&]+)"))) [
    | inl (a, e) ↦ rw (e, mask_rule) refl
    | inr (x, e) ↦ rw (e, mask_rule) refl
  ]

  is_ok-admin_addr : (o : Option AdminConfig) → is_ok (admin_addr n o) ≡ admin_fits h n r o
  unfolding admin_addr
  is_ok-admin_addr none = refl
  is_ok-admin_addr (some a) = elim (Except-cases (n.parse_addr a.listen)) [
    | inl (x, e) ↦ rw (e, admin_addr) refl
    | inr (x, e) ↦ rw (e, admin_addr) refl
  ]

  admin_addr-some :
      (c : AdminConfig) (a : Option n.SocketAddr)
      → admin_addr n (some c) ≡ ok a
      → (y : n.SocketAddr) × (n.parse_addr c.listen ≡ ok y) × (a ≡ some y)
  unfolding admin_addr
  admin_addr-some c a q =
      let (y, e, g) = >>=-eq-ok (map_err _ (n.parse_addr c.listen)) _ q in
      (y, map_err-ok _ (n.parse_addr c.listen) y e, sym (ok-injective _ refl g))

  listen_addr-ok :
      (listen : Option Str) (x : n.SocketAddr)
      → listen_addr n listen ≡ ok x
      → n.parse_addr (or_default default_listen_addr listen) ≡ ok x
  unfolding listen_addr
  listen_addr-ok listen x p =
      map_err-ok _ (n.parse_addr (or_default default_listen_addr listen)) x p

  apart-is_listen :
      (listen : Option Str) (x : n.SocketAddr) (o : Option AdminConfig) (a : Option n.SocketAddr)
      → listen_addr n listen ≡ ok x
      → admin_addr n o ≡ ok a
      → not (is_listen n x a) ≡ apart h n r (or_default default_listen_addr listen) o
  unfolding admin_addr
  apart-is_listen listen x none a p q = rw (← ok-injective _ refl q) refl
  apart-is_listen listen x (some c) a p q =
      let (y, e, g) = admin_addr-some c a q in rw (g, listen_addr-ok listen x p, e, apart) refl

  collect-upstream_fits :
      (us : List UpstreamConfig) → is_ok (collect validate us) ≡ all (upstream_fits h n r) us
  collect-upstream_fits us = is_ok-collect validate us ∙ all_ext _ _ us is_ok-validate_upstream

  collect-blocked_header_name :
      (names : List Str)
      → is_ok (collect (blocked_header_name h) names)
        ≡ all (λ name. is_ok (h.name_from_bytes name)) names
  unfolding blocked_header_name
  collect-blocked_header_name names =
      is_ok-collect _ names ∙ all_ext _ _ names (λ name. is_ok-map_err _ (h.name_from_bytes name))

  collect-mask_rule :
      (params : List Str)
      → is_ok (collect (mask_rule r) params)
        ≡ all (λ param. is_ok (r.compile (r.escape param ++ codes "=([^&]+)"))) params
  collect-mask_rule params = is_ok-collect _ params ∙ all_ext _ _ params is_ok-mask_rule

  -- A configuration loads exactly if it names upstreams, each of which has an address with an
  -- authority and a positive weight, no two of them one URI; its addresses, blocked header names
  -- and mask patterns are read; its connect and request timeouts, the masking ceiling, the
  -- request and connection limits and the header timeout that it sets, its rate limit, and the
  -- thresholds, interval and timeout of its health checks are positive; their path begins with
  -- `/`; and the admin address is not the data plane's.
  pub into_runtime-exact : (c : Config) → is_ok (into_runtime h n r c) ≡ acceptable h n r c
  unfolding into_runtime listen_addr from_secs
  into_runtime-exact c = guard _ _ _ refl (
      bound _ _ (is_ok-map_err _ (n.parse_addr _)) (λ listen listens.
        bound _ _ (collect-upstream_fits c.upstreams) (λ us validated.
          checked _ _ (check_distinct-differ us ∙ differ-collect c.upstreams us validated) (
            bound _ _ (collect-blocked_header_name c.blocked_headers) (λ names e.
              bound _ _ (collect-mask_rule c.masked_params) (λ rules e.
                guard _ _ _ (default_positive default_mask_max_body_size c.mask_max_body_size refl)
                  (guard _ _ _ refl (
                    guard _ _ _ refl (
                      guard _ _ _
                        (default_positive default_max_concurrent_requests c.max_concurrent_requests
                          refl)
                        (guard _ _ _
                          (default_positive default_max_connections c.max_connections refl)
                          (guard _ _ _
                            (seconds_positive default_header_read_timeout c.header_read_timeout
                              refl)
                            (checked _ _ (is_ok-check_rate_limit c.rate_limit) (
                              checked _ _ (is_ok-check_health_check c.health_check) (
                                bound _ _ (is_ok-admin_addr c.admin) (λ admin listened.
                                  guard _ _ _
                                    (apart-is_listen c.listen listen c.admin admin listens listened)
                                    refl)))))))))))))))
