-- ===== src/Config/Valid.antt =====
-- What a configuration that loads guarantees.
use native.Mathlib.Omega.{arith}
use palisade.Prelude.{
  ℕ, ◌<◌, ◌≡◌, ◌≢◌, refl, true, false, Option, none, some, List, [], ◌∷◌, ok, collect, Option-cases,
  inl, inr, collect-cons, collect-cons_nil, ◌++◌, ◌∙◌,
}
use palisade.Duration.{from_secs}
use palisade.Http.{Http, HttpLaws}
use palisade.Net.{Net, NetLaws}
use palisade.Text.{Str, codes, is_empty, any, starts_with}
use palisade.Error.{Result}
use palisade.Upstream.{ValidatedUpstream}
use palisade.Config.Schema.{Config, UpstreamConfig, HealthCheckConfig, RateLimitConfig}
use palisade.Config.Runtime.{
  RegexLib, RuntimeConfig, map_or, check_rate_limit, check_health_check, validate_upstream,
  find_duplicate, check_distinct, is_listen,
}
use palisade.Config.Load.{into_runtime}

-- A rate limiter can be built from the setting.
abbrev pub RateUsable : Option RateLimitConfig → Type 0
RateUsable none = Unit {0}
RateUsable (some rl) = (0 < rl.requests_per_second) × (0 < rl.burst)

-- Active health checks can run with the setting.
abbrev pub HealthUsable : Option HealthCheckConfig → Type 0
HealthUsable none = Unit {0}
HealthUsable (some hc) =
    (0 < hc.unhealthy_threshold)
    × (0 < hc.healthy_threshold)
    × (0 < hc.interval)
    × (0 < hc.timeout)
    × (starts_with hc.path (codes "/") ≡ true)

module _ (h : Http) where
  -- Each backend can be addressed and has a positive weight.
  abbrev pub AllUsable : List (ValidatedUpstream h) → Type 0
  AllUsable [] = Unit {0}
  AllUsable (u ∷ us) =
      (0 < u.weight) × ((a : h.Authority) × (h.authority u.uri ≡ some a)) × AllUsable us

  -- No backend of the list compares equal, in either order.
  abbrev pub NotIn : h.Uri → List (ValidatedUpstream h) → Type 0
  NotIn u [] = Unit {0}
  NotIn u (v ∷ vs) = ((h.uri_eq v.uri u ≡ false) × (h.uri_eq u v.uri ≡ false)) × NotIn u vs

  -- No two backends have URIs that compare equal.
  abbrev pub Distinct : List (ValidatedUpstream h) → Type 0
  Distinct [] = Unit {0}
  Distinct (u ∷ us) = NotIn u.uri us × Distinct us

  validate_upstream-ok :
      (address : Str) (weight : ℕ) (u : ValidatedUpstream h)
      → validate_upstream h address weight ≡ ok u
      → (0 < u.weight) × ((a : h.Authority) × (h.authority u.uri ≡ some a))
  unfolding validate_upstream
  validate_upstream-ok address weight u e = (
    ground arith,
    elim (Option-cases (h.authority u.uri)) [ inl n ↦ absurd (ground arith) | inr a ↦ a ],
  )

  abbrev validate : UpstreamConfig → Result (ValidatedUpstream h)
  validate u = validate_upstream h u.address u.weight

  collect-AllUsable :
      (us : List UpstreamConfig) (vs : List (ValidatedUpstream h))
      → collect validate us ≡ ok vs
      → AllUsable vs
  collect-AllUsable [] [] e = tt
  collect-AllUsable [] (v ∷ vs) e = cc
  collect-AllUsable (u ∷ us) [] e = tt
  collect-AllUsable (u ∷ us) (v ∷ vs) e =
      let (p, rest) = collect-cons validate u us v vs e in
      let (w, a) = validate_upstream-ok u.address u.weight v p in
      (w, a, collect-AllUsable us vs rest)

  collect-is_empty :
      (us : List UpstreamConfig) (vs : List (ValidatedUpstream h))
      → collect validate us ≡ ok vs
      → is_empty us ≡ false
      → is_empty vs ≡ false
  collect-is_empty [] vs e n = cc
  collect-is_empty (u ∷ us) [] e n = absurd (collect-cons_nil validate u us e)
  collect-is_empty (u ∷ us) (v ∷ vs) e n = refl

  abbrev AllFresh : List h.Uri → List (ValidatedUpstream h) → Type 0
  AllFresh seen [] = Unit {0}
  AllFresh seen (u ∷ us) = (any (h.uri_eq u.uri) seen ≡ false) × AllFresh (u.uri ∷ seen) us

  find_duplicate-AllFresh :
      (seen : List h.Uri) (us : List (ValidatedUpstream h))
      → find_duplicate h seen us ≡ none
      → AllFresh seen us
  unfolding find_duplicate
  find_duplicate-AllFresh seen [] e = tt
  find_duplicate-AllFresh seen (u ∷ us) e =
      (ground arith, find_duplicate-AllFresh (u.uri ∷ seen) us (ground arith))

module _ (h : Http) (l : HttpLaws h) where
  any-append :
      (u s : h.Uri) (pre post : List h.Uri)
      → any (h.uri_eq u) (pre ++ s ∷ post) ≡ false
      → h.uri_eq u s ≡ false
  any-append u s [] post e = ground arith
  any-append u s (x ∷ pre) post e = any-append u s pre post (ground arith)

  AllFresh-NotIn :
      (pre post : List h.Uri) (s : h.Uri) (us : List (ValidatedUpstream h))
      → AllFresh h (pre ++ s ∷ post) us
      → NotIn h s us
  AllFresh-NotIn pre post s [] f = tt
  AllFresh-NotIn pre post s (u ∷ us) f =
      let e = any-append u.uri s pre post f.0 in
      ((e, l.uri_eq_sym s u.uri ∙ e), AllFresh-NotIn (u.uri ∷ pre) post s us f.1)

  AllFresh-Distinct :
      (seen : List h.Uri) (us : List (ValidatedUpstream h)) → AllFresh h seen us → Distinct h us
  AllFresh-Distinct seen [] f = tt
  AllFresh-Distinct seen (u ∷ us) f =
      (AllFresh-NotIn [] seen u.uri us f.1, AllFresh-Distinct (u.uri ∷ seen) us f.1)

  check_distinct-Distinct :
      (us : List (ValidatedUpstream h)) → check_distinct h us ≡ ok tt → Distinct h us
  unfolding check_distinct
  check_distinct-Distinct us e =
      AllFresh-Distinct [] us (find_duplicate-AllFresh h [] us (ground arith))

check_rate_limit-RateUsable :
    (o : Option RateLimitConfig) → check_rate_limit o ≡ ok tt → RateUsable o
unfolding check_rate_limit
check_rate_limit-RateUsable none e = tt
check_rate_limit-RateUsable (some rl) e = ground arith

check_health_check-HealthUsable :
    (o : Option HealthCheckConfig) → check_health_check o ≡ ok tt → HealthUsable o
unfolding check_health_check
check_health_check-HealthUsable none e = tt
check_health_check-HealthUsable (some hc) e = ground arith

thresholds_pos :
    (o : Option HealthCheckConfig)
    → HealthUsable o
    → (0 < map_or 3 (λ (hc : HealthCheckConfig). hc.unhealthy_threshold) o)
      × (0 < map_or 1 (λ (hc : HealthCheckConfig). hc.healthy_threshold) o)
thresholds_pos none u = omega arith
thresholds_pos (some hc) u = (u.0, u.1)

module _ (h : Http) (n : Net) (r : RegexLib) where
  -- The checks that a load passes, and what it takes from them.
  record Passed (c : Config) (rt : RuntimeConfig h n r) : Type 0 where
    upstreams : is_empty c.upstreams ≡ false
    validated :
        collect (λ (u : UpstreamConfig). validate_upstream h u.address u.weight) c.upstreams
        ≡ ok rt.upstreams
    distinct : check_distinct h rt.upstreams ≡ ok tt
    mask : 0 < rt.mask_max_body_size
    connect : 0 < c.timeouts.connect
    request : 0 < c.timeouts.request
    concurrent : 0 < rt.max_concurrent_requests
    connections : 0 < rt.max_connections
    header_read : 0 < rt.header_read_timeout
    rate_limit : check_rate_limit rt.rate_limit ≡ ok tt
    health_check : check_health_check rt.health_check ≡ ok tt
    admin : is_listen n rt.listen rt.admin_listen ≡ false
    connect_timeout : rt.connect_timeout ≡ from_secs c.timeouts.connect
    request_timeout : rt.request_timeout ≡ from_secs c.timeouts.request
    failure_threshold :
        rt.failure_threshold
        ≡ map_or 3 (λ (hc : HealthCheckConfig). hc.unhealthy_threshold) rt.health_check
    healthy_threshold :
        rt.healthy_threshold
        ≡ map_or 1 (λ (hc : HealthCheckConfig). hc.healthy_threshold) rt.health_check

  passed : (c : Config) (rt : RuntimeConfig h n r) → into_runtime h n r c ≡ ok rt → Passed c rt
  unfolding into_runtime
  passed c rt e = record {
    upstreams = ground arith;
    validated = ground arith;
    distinct = ground arith;
    mask = ground arith;
    connect = ground arith;
    request = ground arith;
    concurrent = ground arith;
    connections = ground arith;
    header_read = ground arith;
    rate_limit = ground arith;
    health_check = ground arith;
    admin = ground arith;
    connect_timeout = ground arith;
    request_timeout = ground arith;
    failure_threshold = ground arith;
    healthy_threshold = ground arith;
  }

-- What the runtime configuration guarantees to the other parts of the program.
pub record IsValid {h : Http} {n : Net} {r : RegexLib} (rt : RuntimeConfig h n r) : Type 0 where
  pub some_upstream : is_empty rt.upstreams ≡ false
  pub usable : AllUsable h rt.upstreams
  pub distinct : Distinct h rt.upstreams
  pub mask_room : 0 < rt.mask_max_body_size
  pub connect_time : 0 < rt.connect_timeout
  pub request_time : 0 < rt.request_timeout
  pub requests : 0 < rt.max_concurrent_requests
  pub connections : 0 < rt.max_connections
  pub header_time : 0 < rt.header_read_timeout
  pub rate : RateUsable rt.rate_limit
  pub health : HealthUsable rt.health_check
  pub ejects : 0 < rt.failure_threshold
  pub recovers : 0 < rt.healthy_threshold
  pub separate_admin : rt.admin_listen ≢ some rt.listen

module _ (h : Http) (n : Net) (r : RegexLib) (l : HttpLaws h) (k : NetLaws n) where
  not_listen : (a : n.SocketAddr) (o : Option n.SocketAddr) → is_listen n a o ≡ false → o ≢ some a
  not_listen a none e p = cc
  not_listen a (some b) e p = ground (arith, (k.addr_eq_iff b a).1)

  -- A configuration that loads has at least one upstream, each with an authority and a positive
  -- weight, no two with URIs that compare equal; positive limits, timeouts and thresholds; a rate limit and health
  -- checks that can run, if set; and an admin address that is not the data plane's.
  pub into_runtime-IsValid :
      (c : Config) (rt : RuntimeConfig h n r) → into_runtime h n r c ≡ ok rt → IsValid rt
  unfolding from_secs
  into_runtime-IsValid c rt e =
      let p = passed h n r c rt e in
      let health = check_health_check-HealthUsable rt.health_check p.health_check in
      record {
        some_upstream = collect-is_empty h c.upstreams rt.upstreams p.validated p.upstreams;
        usable = collect-AllUsable h c.upstreams rt.upstreams p.validated;
        distinct = check_distinct-Distinct h l rt.upstreams p.distinct;
        mask_room = p.mask;
        connect_time = omega (arith, p.connect_timeout, p.connect);
        request_time = omega (arith, p.request_timeout, p.request);
        requests = p.concurrent;
        connections = p.connections;
        header_time = p.header_read;
        rate = check_rate_limit-RateUsable rt.rate_limit p.rate_limit;
        health = health;
        ejects = rw p.failure_threshold (thresholds_pos rt.health_check health).0;
        recovers = rw p.healthy_threshold (thresholds_pos rt.health_check health).1;
        separate_admin = not_listen rt.listen rt.admin_listen p.admin;
      }
