-- ===== src/Tests/Startup.antt =====
-- The program, started from a configuration file.
use palisade.Balancer
use palisade.Prelude.{ℕ, ◌≡◌, ◌≢◌, refl, Option, none, some, List, [], ◌∷◌, ◌++◌, ok, err, arith}
use palisade.Text.{starts_with, Str, codes, split, to_ascii_lowercase}
use palisade.Duration.{from_secs}
use palisade.Error.{internal}
use palisade.Config.Schema.{Config, default_health_check}
use palisade.Config.Runtime.{
  RuntimeConfig, check_rate_limit, check_health_check, validate_upstream, check_distinct,
  find_duplicate, blocked_header_name, mask_rule, listen_addr, admin_addr,
}
use palisade.Config.Load.{into_runtime}
use palisade.Config.File.{Files, load_from_file}
use palisade.RateLimit.{from_config}
use palisade.Tls.{Rustls, load_certs, load_private_key, build_tls_acceptor}
use palisade.Proxy.Client.{Clients}
use palisade.Program.{World, Started, limiter_failed, assemble, start_up}
use palisade.Program.Launch.{backends, start_up-IsSound, start_up-new, start_up-limiter}
use palisade.System.Sound.{IsSound}
use palisade.Tests.World.{
  http, http_laws, net, net_laws, regex, crates, semaphores, semaphore_laws, prometheus,
}
use palisade.Tests.Loads.{settings, runtime}

-- Every file holds one certificate; the TLS types are the texts that they are made of.
abbrev rustls : Rustls
rustls = record {
  CertificateDer = Str;
  PrivateKeyDer = Str;
  ServerConfig = List Str;
  TlsAcceptor = List Str;
  pem_file_iter = λ path. ok (ok path ∷ []);
  from_pem_file = λ path. ok path;
  with_single_cert = λ certs key. ok (key ∷ certs);
  set_alpn_protocols = λ config protocols. config ++ protocols;
  acceptor_from = λ config. config;
  HttpConnector = Option ℕ;
  connector_new = none;
  set_connect_timeout = λ connector timeout. timeout;
  enforce_http = λ connector only. connector;
  RootCertStore = Unit;
  server_roots = tt;
  ClientConfig = Unit;
  with_root_certificates = λ roots. tt;
  HttpsConnector = Option ℕ;
  wrap_connector = λ config connector. connector;
}

abbrev clients : Clients rustls
clients = record {
  Builder = ℕ × ℕ;
  builder = (0, 0);
  pool_idle_timeout = λ b timeout. (timeout, b.1);
  pool_max_idle_per_host = λ b most. (b.0, most);
  HttpClient = ℕ × ℕ;
  build_http = λ b connector. b;
  HttpsClient = ℕ × ℕ;
  build_https = λ b connector. b;
}

abbrev services : Config
services = record settings {
  tls = some (record { cert_path = codes "cert.pem"; key_path = codes "key.pem" });
  health_check = some default_health_check;
  admin = some (record { listen = codes "127.0.0.1:9100" });
}

abbrev pub running : RuntimeConfig http net regex
running = record runtime {
  tls = services.tls;
  health_check = services.health_check;
  admin_listen = some (codes "127.0.0.1:9100");
}

abbrev files : Files
files = record {
  read_to_string = λ path. ok [];
  from_str = λ text. ok services;
  display = λ path. path;
}

abbrev pub world : World crates
world = record {
  files = files;
  rustls = rustls;
  clients = clients;
  TcpListener = Str;
  bind = λ addr. ok addr;
}

abbrev pub json : Str → Str → Str
json tag message = tag

abbrev pub launched : Started crates semaphores prometheus json world
launched =
    assemble crates semaphores prometheus json world 0 running
      (some (codes "key.pem" ∷ codes "cert.pem" ∷ codes "h2" ∷ codes "http/1.1" ∷ [])) (some 50)
      (codes "127.0.0.1:8100") (some (codes "127.0.0.1:9100"))

launches : start_up crates semaphores prometheus json world (codes "p.toml") 0 ≡ ok launched
unfolding start_up from_config build_tls_acceptor load_certs load_private_key load_from_file
    into_runtime check_rate_limit check_health_check validate_upstream check_distinct find_duplicate
    blocked_header_name mask_rule listen_addr admin_addr from_secs to_ascii_lowercase split
    starts_with
launches = refl

abbrev pub StartIsSound : Type 0
StartIsSound =
    IsSound crates semaphores semaphore_laws prometheus json Unit
      (backends crates semaphores prometheus json world launched.state.config 0) [] launched.state

pub launched-IsSound : StartIsSound
unfolding assemble
launched-IsSound =
    start_up-IsSound crates semaphores prometheus json world http_laws net_laws semaphore_laws
      (codes "p.toml") 0 launched launches (omega arith) (omega arith)

start_up-limiter_example :
    start_up crates semaphores prometheus json world (codes "p.toml") 0
    ≢ err (limiter_failed (internal []))
start_up-limiter_example =
    start_up-limiter crates semaphores prometheus json world http_laws net_laws semaphore_laws
      (codes "p.toml") 0 (internal [])

start_up-new_example :
    StartIsSound
    × (launched.state.shared.balancer
        ≡ Balancer.new (backends crates semaphores prometheus json world launched.state.config 0))
    × (launched.state.shared.next_id ≡ 1)
    × (semaphores.available_permits launched.state.semaphore
        ≡ launched.state.config.max_concurrent_requests)
    × (launched.state.concurrency_limit ≡ launched.state.config.max_concurrent_requests)
unfolding assemble
start_up-new_example =
    start_up-new crates semaphores prometheus json world http_laws net_laws semaphore_laws
      (codes "p.toml") 0 launched launches (omega arith) (omega arith)
