-- ===== src/Program/Launch.antt =====
-- What `main` of src/main.rs hands to `serve`.
use palisade.Balancer.{LoadBalancer}
use palisade.Http.{Http, HttpLaws}
use palisade.Balancer
use palisade.Program.Chains.{is_some, mapped-is_some, traverse-not_err, traverse-is_some, after}
use palisade.RateLimit.{from_config-into_runtime}
use palisade.Net.{NetLaws}
use palisade.Semaphore.{Semaphores, SemaphoreLaws}
use palisade.Config.Schema.{Config}
use palisade.Config.Valid.{IsValid, into_runtime-IsValid}
use palisade.Config.Load.{into_runtime}
use palisade.Config.File.{load_from_file}
use palisade.System.Sound.{HasThresholds, IsSound}
use palisade.System.Pool.{AllValid, uris_of}
use palisade.Upstream.{UpstreamState, ValidatedUpstream, from_validated}
use palisade.Upstream.Health.{new-IsValid}
use palisade.Balancer.History.{fresh}
use palisade.Prelude.{
  not_err, map_err-not_err, map_err-is_ok, map_err-ok, ℕ, ◌<◌, ◌^◌, ◌≡◌, refl, sym, ◌∙◌, Option,
  List, [], ◌∷◌, ok, err, ok-injective, arith, map_err, ◌≢◌, ap,
}
use palisade.Program.{
  Started, World, config_failed, tls_failed, limiter_failed, load, traverse, assemble, start_up,
  from_validated, Crates, Semaphores, Prometheus, Str, Runtime, build_tls_acceptor, from_config,
  bind_failed, admin_bind_failed, ProxyError,
}

pub from_validated-AllValid :
    {h : Http} (failures successes cooldown now : ℕ) (us : List (ValidatedUpstream h))
    → HasThresholds failures successes
    → AllValid failures successes (from_validated us cooldown now)
unfolding from_validated
from_validated-AllValid failures successes cooldown now [] t = tt
from_validated-AllValid failures successes cooldown now (u ∷ us) t = (
  new-IsValid failures successes t.failures_u32 t.successes_u32 t.ejects t.recovers u cooldown now,
  from_validated-AllValid failures successes cooldown now us t,
)

module _ (c : Crates) (s : Semaphores) (p : Prometheus) (json : Str → Str → Str) (w : World c) where
  -- The backends that the program starts with.
  abbrev pub backends : Runtime c → ℕ → List (UpstreamState c.http)
  backends config now = from_validated config.upstreams config.health_check_cooldown now

  -- What a start that succeeds has gone through.
  pub record Built (path : Str) (now : ℕ) (x : Started c s p json w) : Type 0 where
    pub config : Runtime c
    pub tls_acceptor : Option w.rustls.TlsAcceptor
    pub rate_limiter : Option c.governor.Limiter
    pub listener : w.TcpListener
    pub admin_listener : Option w.TcpListener
    pub loaded : load c s p json w path ≡ ok config
    pub acceptor :
        traverse (λ t. map_err tls_failed (build_tls_acceptor w.rustls t)) config.tls
        ≡ ok tls_acceptor
    pub limiter :
        traverse (λ rl. map_err limiter_failed (from_config c.governor rl)) config.rate_limit
        ≡ ok rate_limiter
    pub admin :
        traverse (λ a. map_err admin_bind_failed (w.bind a)) config.admin_listen ≡ ok admin_listener
    pub built :
        x ≡ assemble c s p json w now config tls_acceptor rate_limiter listener admin_listener

  start_up-Built :
      (path : Str) (now : ℕ) (x : Started c s p json w)
      → start_up c s p json w path now ≡ ok x
      → Built path now x
  unfolding start_up
  start_up-Built path now x e = after (load c s p json w path) _ e (λ config q1 e1.
      after (traverse (λ t. map_err tls_failed (build_tls_acceptor w.rustls t)) config.tls) _ e1
        (λ tls_acceptor q2 e2.
          after
            (traverse (λ rl. map_err limiter_failed (from_config c.governor rl)) config.rate_limit)
            _ e2
            (λ rate_limiter q3 e3.
              after (map_err bind_failed (w.bind config.listen)) _ e3 (λ listener q4 e4.
                after (traverse (λ a. map_err admin_bind_failed (w.bind a)) config.admin_listen) _
                  e4
                  (λ admin_listener q5 e5. record {
                    config = config;
                    tls_acceptor = tls_acceptor;
                    rate_limiter = rate_limiter;
                    listener = listener;
                    admin_listener = admin_listener;
                    loaded = q1;
                    acceptor = q2;
                    limiter = q3;
                    admin = q5;
                    built = sym (ok-injective _ refl e5);
                  })))))

  config-Built :
      (path : Str) (now : ℕ) (x : Started c s p json w) (b : Built path now x)
      → (x.state.config ≡ b.config)
        × (x.state.shared.limiter ≡ b.rate_limiter)
        × (x.state.shared.balancer ≡ Balancer.new (backends b.config now))
        × (x.state.semaphore ≡ s.sem_new b.config.max_concurrent_requests)
        × (x.state.concurrency_limit ≡ b.config.max_concurrent_requests)
  unfolding assemble
  config-Built path now x b = rw b.built (refl, refl, refl, refl, refl)

  load-into_runtime :
      (path : Str) (config : Runtime c)
      → load c s p json w path ≡ ok config
      → (file : Config) × (into_runtime c.http c.net c.regex file ≡ ok config)
  load-into_runtime path config e =
      after (load_from_file w.files path) _ (map_err-ok config_failed _ config e)
        (λ file q g. (file, g))

  module _ (l : HttpLaws c.http) (n : NetLaws c.net) (k : SemaphoreLaws s) where
    load-IsValid :
        (path : Str) (config : Runtime c) → load c s p json w path ≡ ok config → IsValid config
    load-IsValid path config e =
        let (file, q) = load-into_runtime path config e in
        into_runtime-IsValid c.http c.net c.regex l n file config q

    -- A start that succeeds has the invariant of the runs of the server, with no request in flight.
    pub start_up-IsSound :
        {B : Type 0} (path : Str) (now : ℕ) (x : Started c s p json w)
        → start_up c s p json w path now ≡ ok x
        → x.state.config.failure_threshold < 2 ^ 32
        → x.state.config.healthy_threshold < 2 ^ 32
        → IsSound c s k p json B (backends x.state.config now) [] x.state
    unfolding Balancer.new from_validated
    start_up-IsSound path now x e f h =
        let b = start_up-Built path now x e in
        let v = load-IsValid path b.config b.loaded in
        let (ec, el, eb, es, en) = config-Built path now x b in
        let t : HasThresholds x.state.config.failure_threshold x.state.config.healthy_threshold =
          record {
            failures_u32 = f;
            successes_u32 = h;
            ejects = rw ec v.ejects;
            recovers = rw ec v.recovers;
          } in
        let made : x.state.shared.balancer ≡ Balancer.new (backends x.state.config now) =
          rw ec eb in
        record {
          thresholds = t;
          tended = record {
            history = rw made fresh;
            valid = rw made (from_validated-AllValid _ _ _ now x.state.config.upstreams t);
            uris = ap (λ (lb : LoadBalancer c.http). uris_of lb.pool) made;
          };
          permits = rw (es, en) (omega (arith, k.available-new b.config.max_concurrent_requests));
        }

    -- When `main` calls `serve`, from a configuration whose thresholds are `u32` values: the thresholds
    -- are positive, the balancer is exactly the new one over the configured backends, all of which start
    -- with the health invariant, no identifier has been given out, and every permit of the configured
    -- number of requests is free.
    pub start_up-new :
        {B : Type 0} (path : Str) (now : ℕ) (x : Started c s p json w)
        → start_up c s p json w path now ≡ ok x
        → x.state.config.failure_threshold < 2 ^ 32
        → x.state.config.healthy_threshold < 2 ^ 32
        → IsSound c s k p json B (backends x.state.config now) [] x.state
          × (x.state.shared.balancer ≡ Balancer.new (backends x.state.config now))
          × (x.state.shared.next_id ≡ 1)
          × (s.available_permits x.state.semaphore ≡ x.state.config.max_concurrent_requests)
          × (x.state.concurrency_limit ≡ x.state.config.max_concurrent_requests)
    unfolding assemble
    start_up-new path now x e f h =
        let b = start_up-Built path now x e in
        let (ec, el, eb, es, en) = config-Built path now x b in
        (
          start_up-IsSound path now x e f h,
          rw ec eb,
          ap (λ (y : Started c s p json w). y.state.shared.next_id) b.built,
          rw (es, ec) (k.available-new b.config.max_concurrent_requests),
          rw ec en,
        )

    -- What the configuration asks for is running when `main` calls `serve`: there is a limiter exactly
    -- if a rate limit is configured, a TLS acceptor exactly if TLS is, an admin listener and metrics
    -- exactly if an admin address is, and a health checker exactly if health checks are.
    pub start_up-services :
        (path : Str) (now : ℕ) (x : Started c s p json w)
        → start_up c s p json w path now ≡ ok x
        → (is_some x.state.shared.limiter ≡ is_some x.state.config.rate_limit)
          × (is_some x.tls_acceptor ≡ is_some x.state.config.tls)
          × (is_some x.admin ≡ is_some x.state.config.admin_listen)
          × (is_some x.state.metrics ≡ is_some x.state.config.admin_listen)
          × (is_some x.health_check ≡ is_some x.state.config.health_check)
    unfolding assemble
    start_up-services path now x e =
        let b = start_up-Built path now x e in
        rw b.built (
          traverse-is_some _ b.config.rate_limit _ b.limiter,
          traverse-is_some _ b.config.tls _ b.acceptor,
          mapped-is_some _ b.admin_listener ∙ traverse-is_some _ b.config.admin_listen _ b.admin,
          mapped-is_some _ b.config.admin_listen,
          mapped-is_some _ b.config.health_check,
        )

    -- The program never exits because its limiter cannot be built: the failure that `from_config`
    -- documents is unreachable from a configuration file that loads.
    pub start_up-limiter :
        (path : Str) (now : ℕ) (e : ProxyError)
        → start_up c s p json w path now ≢ err (limiter_failed e)
    unfolding start_up
    start_up-limiter path now e =
        not_err (load c s p json w path) _ (limiter_failed e) (map_err-not_err _ _ _ (λ y q. cc))
          (λ config q.
            not_err (traverse (λ t. map_err tls_failed (build_tls_acceptor w.rustls t)) config.tls)
              _ _ (traverse-not_err _ config.tls _ (λ t q. map_err-not_err _ _ _ (λ y q. cc)))
              (λ tls_acceptor q2.
                not_err
                  (traverse (λ rl. map_err limiter_failed (from_config c.governor rl))
                    config.rate_limit)
                  _ _
                  (traverse-not_err _ config.rate_limit _ (λ rl q3.
                    let (file, g) = load-into_runtime path config q in
                    map_err-is_ok _ _ _
                      (from_config-into_runtime c.governor c.http c.regex l n file config rl g q3)))
                  (λ rate_limiter q3.
                    not_err (map_err bind_failed (w.bind config.listen)) _ _
                      (map_err-not_err _ _ _ (λ y q. cc))
                      (λ listener q4.
                        not_err
                          (traverse (λ a. map_err admin_bind_failed (w.bind a)) config.admin_listen)
                          _ _
                          (traverse-not_err _ config.admin_listen _
                            (λ a q. map_err-not_err _ _ _ (λ y q. cc)))
                          (λ a q5 z. cc)))))
