-- ===== src/Tests/Loads.antt =====
-- A configuration that loads.
use palisade.Prelude.{◌≡◌, refl, false, some, none, [], ◌∷◌, ok, ◌*◌, is_ok, true}
use palisade.Text.{codes, to_ascii_lowercase, split, starts_with}
use palisade.Duration.{from_secs}
use palisade.Config.Schema.{Config, default_config, default_rate_limit, default_max_body_size}
use palisade.Config.Runtime.{
  RuntimeConfig, check_rate_limit, check_health_check, validate_upstream, check_distinct,
  find_duplicate, blocked_header_name, mask_rule, listen_addr, admin_addr,
}
use palisade.Config.Load.{into_runtime}
use palisade.Config.Fits.{acceptable}
use palisade.Config.Accepts.{into_runtime-exact}
use palisade.Config.Valid.{IsValid, into_runtime-IsValid}
use palisade.Tests.World.{http, http_laws, net, net_laws, regex}

abbrev pub settings : Config
settings = record default_config {
  upstreams =
      record { address = codes "http://a"; weight = 2 }
      ∷ record { address = codes "http://b"; weight = 1 }
      ∷ [];
  blocked_headers = codes "X-Debug" ∷ [];
  blocked_params = codes "token" ∷ [];
  masked_params = codes "password" ∷ [];
  strip_response_headers = codes "Server" ∷ [];
  rate_limit = some default_rate_limit;
}

abbrev pub runtime : RuntimeConfig http net regex
runtime = record {
  listen = codes "127.0.0.1:8100";
  upstreams =
      record { uri = (codes "http:", codes "a", codes "/"); weight = 2 }
      ∷ record { uri = (codes "http:", codes "b", codes "/"); weight = 1 }
      ∷ [];
  blocked_headers = codes "x-debug" ∷ [];
  blocked_params = codes "token" ∷ [];
  mask_rules = record { param = codes "password"; pattern = codes "password=([^&]+)" } ∷ [];
  max_body_size = default_max_body_size;
  mask_max_body_size = 1024 * 1024;
  strip_response_headers = codes "server" ∷ [];
  trust_forwarded_headers = false;
  connect_timeout = 5_000_000_000;
  request_timeout = 30_000_000_000;
  pool_idle_timeout = 60_000_000_000;
  pool_max_idle_per_host = 32;
  max_concurrent_requests = 1000;
  max_connections = 10_000;
  header_read_timeout = 10_000_000_000;
  tls = none;
  health_check = none;
  failure_threshold = 3;
  healthy_threshold = 1;
  health_check_cooldown = 30_000_000_000;
  rate_limit = some default_rate_limit;
  admin_listen = none;
  shutdown_timeout = 30_000_000_000;
}

pub loads : into_runtime http net regex settings ≡ ok runtime
unfolding into_runtime check_rate_limit check_health_check validate_upstream check_distinct
    find_duplicate blocked_header_name mask_rule listen_addr admin_addr from_secs to_ascii_lowercase
    split
loads = refl

into_runtime-IsValid_example : IsValid runtime
into_runtime-IsValid_example =
    into_runtime-IsValid http net regex http_laws net_laws settings runtime loads

into_runtime-exact_example :
    is_ok (into_runtime http net regex settings) ≡ acceptable http net regex settings
into_runtime-exact_example = into_runtime-exact http net regex settings

acceptable-settings : acceptable http net regex settings ≡ true
unfolding starts_with split to_ascii_lowercase
acceptable-settings = refl
