-- ===== src/Config/Schema.antt =====
-- The structs that the configuration file is read into, with their defaults.
use palisade.Prelude.{ℕ, ◌*◌, Bool, false, Option, none, List, []}
use palisade.Text.{Str, codes}
use palisade.Duration.{Duration, from_secs}

abbrev pub default_max_body_size : ℕ
default_max_body_size = 10 * 1024 * 1024

abbrev pub default_mask_max_body_size : ℕ
default_mask_max_body_size = 1024 * 1024

abbrev pub default_max_concurrent_requests : ℕ
default_max_concurrent_requests = 1000

abbrev pub default_max_connections : ℕ
default_max_connections = 10_000

abbrev pub default_header_read_timeout : Duration
default_header_read_timeout = from_secs 10

abbrev pub default_listen_addr : Str
default_listen_addr = codes "127.0.0.1:8100"

abbrev pub default_failure_threshold : ℕ
default_failure_threshold = 3

abbrev pub default_healthy_threshold : ℕ
default_healthy_threshold = 1

abbrev pub default_health_check_cooldown : Duration
default_health_check_cooldown = from_secs 30

abbrev pub default_shutdown_timeout : Duration
default_shutdown_timeout = from_secs 30

-- Times in these records are in seconds.
pub record TimeoutsConfig : Type 0 where
  pub connect : ℕ
  pub request : ℕ

abbrev pub default_timeouts : TimeoutsConfig
default_timeouts = record { connect = 5; request = 30 }

pub record PoolConfig : Type 0 where
  pub idle_timeout : ℕ
  pub max_idle_per_host : ℕ

abbrev pub default_pool : PoolConfig
default_pool = record { idle_timeout = 60; max_idle_per_host = 32 }

pub record UpstreamConfig : Type 0 where
  pub address : Str
  pub weight : ℕ

pub record HealthCheckConfig : Type 0 where
  pub path : Str
  pub interval : ℕ
  pub unhealthy_threshold : ℕ
  pub healthy_threshold : ℕ
  pub cooldown : ℕ
  pub timeout : ℕ

abbrev pub default_health_check : HealthCheckConfig
default_health_check = record {
  path = codes "/health";
  interval = 10;
  unhealthy_threshold = default_failure_threshold;
  healthy_threshold = default_healthy_threshold;
  cooldown = 30;
  timeout = 3;
}

pub record RateLimitConfig : Type 0 where
  pub requests_per_second : ℕ
  pub burst : ℕ

abbrev pub default_rate_limit : RateLimitConfig
default_rate_limit = record { requests_per_second = 100; burst = 50 }

pub record TlsConfig : Type 0 where
  pub cert_path : Str
  pub key_path : Str

pub record AdminConfig : Type 0 where
  pub listen : Str

pub record Config : Type 0 where
  pub listen : Option Str
  pub upstreams : List UpstreamConfig
  pub blocked_headers : List Str
  pub blocked_params : List Str
  pub masked_params : List Str
  pub max_body_size : Option ℕ
  pub mask_max_body_size : Option ℕ
  pub strip_response_headers : List Str
  pub trust_forwarded_headers : Bool
  pub max_concurrent_requests : Option ℕ
  pub max_connections : Option ℕ
  pub header_read_timeout : Option ℕ
  pub timeouts : TimeoutsConfig
  pub pool : PoolConfig
  pub tls : Option TlsConfig
  pub health_check : Option HealthCheckConfig
  pub rate_limit : Option RateLimitConfig
  pub admin : Option AdminConfig
  pub shutdown_timeout : Option ℕ

-- `Config::default()`
abbrev pub default_config : Config
default_config = record {
  listen = none;
  upstreams = [];
  blocked_headers = [];
  blocked_params = [];
  masked_params = [];
  max_body_size = none;
  mask_max_body_size = none;
  strip_response_headers = [];
  trust_forwarded_headers = false;
  max_concurrent_requests = none;
  max_connections = none;
  header_read_timeout = none;
  timeouts = default_timeouts;
  pool = default_pool;
  tls = none;
  health_check = none;
  rate_limit = none;
  admin = none;
  shutdown_timeout = none;
}
