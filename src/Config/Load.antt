-- ===== src/Config/Load.antt =====
-- `Config::into_runtime`, `has_https_upstream` and `mask_sensitive_data`.
use palisade.Prelude.{Bool, false, List, [], ◌∷◌, ◌++◌, map, ◌==◌, ok, ◌>>=◌, ◌>>◌, collect}
use palisade.Text.{Str, codes, is_empty, any, to_ascii_lowercase, eq_ignore_ascii_case}
use palisade.Duration.{from_secs}
use palisade.Http.{Http}
use palisade.Net.{Net}
use palisade.Error.{Result, config}
use palisade.Upstream.{ValidatedUpstream}
use palisade.Config.Schema.{
  Config, UpstreamConfig, HealthCheckConfig, default_max_body_size, default_mask_max_body_size,
  default_max_concurrent_requests, default_max_connections, default_header_read_timeout,
  default_failure_threshold, default_healthy_threshold, default_health_check_cooldown,
  default_shutdown_timeout,
}
use palisade.Config.Runtime.{
  RegexLib, MaskRule, RuntimeConfig, reject_if, or_default, map_or, check_rate_limit,
  check_health_check, validate_upstream, check_distinct, blocked_header_name, mask_rule,
  listen_addr, admin_addr, is_listen,
}

module _ (h : Http) (n : Net) (r : RegexLib) where
  unfoldable pub into_runtime : Config → Result (RuntimeConfig h n r)
  into_runtime c = do
    reject_if (is_empty c.upstreams) (config (codes "at least one upstream must be configured"))
    listen ← listen_addr n c.listen
    upstreams ← collect (λ (u : UpstreamConfig). validate_upstream h u.address u.weight) c.upstreams
    check_distinct h upstreams
    blocked_headers ← collect (blocked_header_name h) c.blocked_headers
    mask_rules ← collect (mask_rule r) c.masked_params
    let max_body_size = or_default default_max_body_size c.max_body_size
    let mask_max_body_size = or_default default_mask_max_body_size c.mask_max_body_size
    reject_if (mask_max_body_size == 0) (config (codes "mask_max_body_size must be positive"))
    let strip_response_headers = map to_ascii_lowercase c.strip_response_headers
    reject_if (c.timeouts.connect == 0) (config (codes "timeouts.connect must be positive"))
    reject_if (c.timeouts.request == 0) (config (codes "timeouts.request must be positive"))
    let max_concurrent_requests =
        or_default default_max_concurrent_requests c.max_concurrent_requests
    reject_if (max_concurrent_requests == 0)
        (config (codes "max_concurrent_requests must be positive"))
    let max_connections = or_default default_max_connections c.max_connections
    reject_if (max_connections == 0) (config (codes "max_connections must be positive"))
    let header_read_timeout = map_or default_header_read_timeout from_secs c.header_read_timeout
    reject_if (header_read_timeout == 0) (config (codes "header_read_timeout must be positive"))
    check_rate_limit c.rate_limit
    check_health_check c.health_check
    admin_listen ← admin_addr n c.admin
    reject_if (is_listen n listen admin_listen)
        (config (codes "admin.listen must differ from the data-plane listen address"))
    ok (record {
      listen = listen;
      upstreams = upstreams;
      blocked_headers = blocked_headers;
      blocked_params = c.blocked_params;
      mask_rules = mask_rules;
      max_body_size = max_body_size;
      mask_max_body_size = mask_max_body_size;
      strip_response_headers = strip_response_headers;
      trust_forwarded_headers = c.trust_forwarded_headers;
      connect_timeout = from_secs c.timeouts.connect;
      request_timeout = from_secs c.timeouts.request;
      pool_idle_timeout = from_secs c.pool.idle_timeout;
      pool_max_idle_per_host = c.pool.max_idle_per_host;
      max_concurrent_requests = max_concurrent_requests;
      max_connections = max_connections;
      header_read_timeout = header_read_timeout;
      tls = c.tls;
      health_check = c.health_check;
      failure_threshold =
          map_or default_failure_threshold (λ (hc : HealthCheckConfig). hc.unhealthy_threshold)
            c.health_check;
      healthy_threshold =
          map_or default_healthy_threshold (λ (hc : HealthCheckConfig). hc.healthy_threshold)
            c.health_check;
      health_check_cooldown =
          map_or default_health_check_cooldown (λ (hc : HealthCheckConfig). from_secs hc.cooldown)
            c.health_check;
      rate_limit = c.rate_limit;
      admin_listen = admin_listen;
      shutdown_timeout = map_or default_shutdown_timeout from_secs c.shutdown_timeout;
    })

  -- `RuntimeConfig::has_https_upstream`
  unfoldable pub has_https_upstream : RuntimeConfig h n r → Bool
  has_https_upstream rt = any https rt.upstreams
    where
      https : ValidatedUpstream h → Bool
      https u =
          map_or false (λ s. eq_ignore_ascii_case (h.scheme_text s) (codes "https"))
            (h.scheme u.uri)

  -- `RuntimeConfig::mask_sensitive_data`
  unfoldable pub mask_sensitive_data : List (MaskRule r) → Str → Str
  mask_sensitive_data [] acc = acc
  mask_sensitive_data (rule ∷ rules) acc =
      mask_sensitive_data rules (r.replace_all rule.pattern acc (rule.param ++ codes "=****"))
