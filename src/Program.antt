-- ===== src/Program.antt =====
-- src/main.rs: how the program is put together from its configuration, up to the call of `serve`.
pub mod Chains
pub mod Launch
use palisade.Prelude.{
  ℕ, Bool, true, false, Option, none, some, List, Except, ok, err, ◌>>=◌, map_err, if◌then◌else◌,
}
use palisade.Text.{Str}
use palisade.Duration.{Duration, from_secs}
use palisade.Error.{ProxyError}
use palisade.Upstream.{from_validated}
use palisade.Balancer
use palisade.RateLimit.{from_config}
use palisade.Config.Schema.{HealthCheckConfig}
use palisade.Config.Load.{into_runtime, has_https_upstream}
use palisade.Config.File.{Files, load_from_file}
use palisade.Semaphore.{Semaphores}
use palisade.Metrics.{Prometheus}
use palisade.Metrics
use palisade.Tls.{Rustls, build_tls_acceptor, build_https_connector}
use palisade.Proxy.Crates.{Crates}
use palisade.Proxy.Client.{Clients, build_client, build_https_client}
use palisade.Proxy.Screen.{Runtime}
use palisade.Server.Service.{ServerState}
use palisade.Admin.{AdminState}

-- The calls of `process::exit(1)`, with what the log says.
pub data Exit : Type 0 where
  config_failed : ProxyError → Exit
  tls_failed : ProxyError → Exit
  limiter_failed : ProxyError → Exit
  bind_failed : Str → Exit
  admin_bind_failed : Str → Exit

-- `Option::map` with a closure that can end the program.
abbrev pub traverse : {A B E : Type 0} → (A → Except E B) → Option A → Except E (Option B)
traverse f none = ok none
traverse f (some a) = f a >>= λ b. ok (some b)

-- `Option::map`
abbrev pub mapped : {A B : Type 0} → (A → B) → Option A → Option B
mapped f none = none
mapped f (some a) = some (f a)

-- What the program takes from outside: files, sockets, TLS, and the client builders.
pub record World (c : Crates) : Type 1 where
  pub files : Files
  pub rustls : Rustls
  pub clients : Clients rustls
  pub TcpListener : Type 0
  pub bind : c.net.SocketAddr → Except Str TcpListener

module _ (c : Crates) (s : Semaphores) (p : Prometheus) (json : Str → Str → Str) (w : World c) where
  -- What the health checker is spawned with.
  pub record HealthChecker : Type 0 where
    pub probe_client : w.clients.HttpsClient
    pub interval : Duration
    pub path : Str
    pub failure_threshold : ℕ
    pub healthy_threshold : ℕ
    pub timeout : Duration

  -- The client that `serve` runs with.
  pub data Client : Type 0 where
    plain : w.clients.HttpClient → Client
    secure : w.clients.HttpsClient → Client

  -- Everything that `main` has built when it calls `serve`.
  pub record Started : Type 0 where
    pub listener : w.TcpListener
    pub client : Client
    pub state : ServerState c s p json
    pub connection_semaphore : s.Semaphore
    pub tls_acceptor : Option w.rustls.TlsAcceptor
    pub health_check : Option HealthChecker
    pub admin : Option (w.TcpListener × AdminState c.http s p)

  abbrev pub load : Str → Except Exit (Runtime c)
  load path =
      map_err config_failed
        (load_from_file w.files path >>= λ config. into_runtime c.http c.net c.regex config)

  abbrev checker : Runtime c → HealthCheckConfig → HealthChecker
  unfolding from_secs build_https_connector
  checker config hc = record {
    probe_client =
        w.clients.build_https w.clients.builder
          (build_https_connector w.rustls config.connect_timeout);
    interval = from_secs hc.interval;
    path = hc.path;
    failure_threshold = config.failure_threshold;
    healthy_threshold = config.healthy_threshold;
    timeout = from_secs hc.timeout;
  }

  -- What is built from the configuration, the acceptor, the limiter and the listeners.
  unfoldable pub assemble :
      ℕ
      → Runtime c
      → Option w.rustls.TlsAcceptor
      → Option c.governor.Limiter
      → w.TcpListener
      → Option w.TcpListener
      → Started
  unfolding checker
  assemble now config tls_acceptor rate_limiter listener admin_listener =
      let balancer =
        Balancer.new (from_validated config.upstreams config.health_check_cooldown now) in
      let semaphore = s.sem_new config.max_concurrent_requests in
      let connection_semaphore = s.sem_new config.max_connections in
      let metrics = mapped (λ addr. Metrics.new p) config.admin_listen in
      record {
        listener = listener;
        client =
            (if has_https_upstream c.http c.net c.regex config
              then secure (build_https_client c w.rustls w.clients config)
              else plain (build_client c w.rustls w.clients config));
        state = record {
          config = config;
          shared = record { next_id = 1; balancer = balancer; limiter = rate_limiter };
          semaphore = semaphore;
          concurrency_limit = config.max_concurrent_requests;
          metrics = metrics;
        };
        connection_semaphore = connection_semaphore;
        tls_acceptor = tls_acceptor;
        health_check = mapped (checker config) config.health_check;
        admin =
            mapped
              (λ l. (
                l,
                record {
                  metrics = Metrics.new p;
                  pool = balancer.pool;
                  request_semaphore = semaphore;
                  concurrency_limit = config.max_concurrent_requests;
                  connection_semaphore = connection_semaphore;
                  max_connections = config.max_connections;
                },
              ))
              admin_listener;
      }

  -- `main`, up to the call of `serve`; `now` is the time at which the pool is made.
  unfoldable pub start_up : Str → ℕ → Except Exit Started
  unfolding assemble
  start_up path now = do
    config ← load path
    tls_acceptor ← traverse (λ t. map_err tls_failed (build_tls_acceptor w.rustls t)) config.tls
    rate_limiter ←
        traverse (λ rl. map_err limiter_failed (from_config c.governor rl)) config.rate_limit
    listener ← map_err bind_failed (w.bind config.listen)
    admin_listener ← traverse (λ a. map_err admin_bind_failed (w.bind a)) config.admin_listen
    ok (assemble now config tls_acceptor rate_limiter listener admin_listener)
