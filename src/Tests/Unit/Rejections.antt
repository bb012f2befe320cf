-- ===== src/Tests/Unit/Rejections.antt =====
-- The unit tests of src/config.rs whose configuration is rejected.
use palisade.Prelude.{◌≡◌, refl, Bool, true, ◌&&◌, not, some, List, [], ◌∷◌, is_ok}
use palisade.Text.{
  Str, codes, split, starts_with, to_ascii_lowercase, is_ascii_graphic, parse_u64,
  eq_ignore_ascii_case,
}
use palisade.Duration.{from_secs}
use palisade.Config.Schema.{Config, UpstreamConfig, default_config, default_health_check}
use palisade.Config.Runtime.{
  check_rate_limit, check_health_check, validate_upstream, check_distinct, find_duplicate,
  blocked_header_name, mask_rule, listen_addr, admin_addr,
}
use palisade.Config.Load.{into_runtime, has_https_upstream, mask_sensitive_data}
use palisade.Tests.Unit.World.{
  http, net, regex, before, after, drop_while_slash, parse_uri, is_token, is_socket_addr, escape,
  literal, value_follows, replace_values,
}

abbrev pub single_upstream : Str → List UpstreamConfig
single_upstream addr = record { address = addr; weight = 1 } ∷ []

abbrev rejects : Config → Bool
rejects config = not (is_ok (into_runtime http net regex config))

abbrev into_runtime_rejects_empty_upstreams : Bool
into_runtime_rejects_empty_upstreams = rejects (default_config)

abbrev into_runtime_rejects_malformed_upstream : Bool
into_runtime_rejects_malformed_upstream = rejects (record default_config {
  upstreams = record { address = codes "not a valid uri %%"; weight = 1 } ∷ [];
})

abbrev into_runtime_rejects_invalid_blocked_header_name : Bool
into_runtime_rejects_invalid_blocked_header_name = rejects (record default_config {
  upstreams = single_upstream (codes "http://localhost:3000");
  blocked_headers = codes "invalid header" ∷ [];
})

abbrev into_runtime_rejects_duplicate_upstreams : Bool
into_runtime_rejects_duplicate_upstreams = rejects (record default_config {
  upstreams =
      record { address = codes "http://backend:3000"; weight = 1 }
      ∷ record { address = codes "http://backend:3000"; weight = 2 }
      ∷ [];
})

abbrev into_runtime_rejects_zero_max_concurrent_requests : Bool
into_runtime_rejects_zero_max_concurrent_requests = rejects (record default_config {
  upstreams = single_upstream (codes "http://localhost:3000");
  max_concurrent_requests = some 0;
})

abbrev into_runtime_rejects_zero_max_connections : Bool
into_runtime_rejects_zero_max_connections = rejects (record default_config {
  upstreams = single_upstream (codes "http://localhost:3000");
  max_connections = some 0;
})

abbrev into_runtime_rejects_zero_header_read_timeout : Bool
into_runtime_rejects_zero_header_read_timeout = rejects (record default_config {
  upstreams = single_upstream (codes "http://localhost:3000");
  header_read_timeout = some 0;
})

abbrev into_runtime_rejects_zero_mask_max_body_size : Bool
into_runtime_rejects_zero_mask_max_body_size = rejects (record default_config {
  upstreams = single_upstream (codes "http://localhost:3000");
  mask_max_body_size = some 0;
})

abbrev into_runtime_rejects_zero_rate_limit_rps : Bool
into_runtime_rejects_zero_rate_limit_rps = rejects (record default_config {
  upstreams = single_upstream (codes "http://localhost:3000");
  rate_limit = some (record { requests_per_second = 0; burst = 50 });
})

abbrev into_runtime_rejects_zero_rate_limit_burst : Bool
into_runtime_rejects_zero_rate_limit_burst = rejects (record default_config {
  upstreams = single_upstream (codes "http://localhost:3000");
  rate_limit = some (record { requests_per_second = 100; burst = 0 });
})

abbrev into_runtime_rejects_zero_health_thresholds : Bool
into_runtime_rejects_zero_health_thresholds =
    rejects (record default_config {
      upstreams = single_upstream (codes "http://localhost:3000");
      health_check = some (record default_health_check { unhealthy_threshold = 0 });
    })
    && rejects (record default_config {
      upstreams = single_upstream (codes "http://localhost:3000");
      health_check = some (record default_health_check { healthy_threshold = 0 });
    })

abbrev into_runtime_rejects_health_path_without_leading_slash : Bool
into_runtime_rejects_health_path_without_leading_slash = rejects (record default_config {
  upstreams = single_upstream (codes "http://localhost:3000");
  health_check = some (record default_health_check { path = codes "health" });
})

abbrev into_runtime_rejects_zero_health_interval : Bool
into_runtime_rejects_zero_health_interval = rejects (record default_config {
  upstreams = single_upstream (codes "http://localhost:3000");
  health_check = some (record default_health_check { interval = 0 });
})

abbrev into_runtime_rejects_zero_health_timeout : Bool
into_runtime_rejects_zero_health_timeout = rejects (record default_config {
  upstreams = single_upstream (codes "http://localhost:3000");
  health_check = some (record default_health_check { timeout = 0 });
})

abbrev into_runtime_rejects_zero_connect_timeout : Bool
into_runtime_rejects_zero_connect_timeout = rejects (record default_config {
  upstreams = single_upstream (codes "http://localhost:3000");
  timeouts = record { connect = 0; request = 30 };
})

abbrev into_runtime_rejects_zero_request_timeout : Bool
into_runtime_rejects_zero_request_timeout = rejects (record default_config {
  upstreams = single_upstream (codes "http://localhost:3000");
  timeouts = record { connect = 5; request = 0 };
})

abbrev into_runtime_rejects_zero_weight : Bool
into_runtime_rejects_zero_weight = rejects (record default_config {
  upstreams = record { address = codes "http://localhost:3000"; weight = 0 } ∷ [];
})

abbrev into_runtime_rejects_invalid_listen_address : Bool
into_runtime_rejects_invalid_listen_address = rejects (record default_config {
  upstreams = single_upstream (codes "http://localhost:3000");
  listen = some (codes "not-an-address");
})

abbrev into_runtime_rejects_admin_listen_sharing_data_plane_address : Bool
into_runtime_rejects_admin_listen_sharing_data_plane_address = rejects (record default_config {
  upstreams = single_upstream (codes "http://localhost:3000");
  listen = some (codes "127.0.0.1:8100");
  admin = some (record { listen = codes "127.0.0.1:8100" });
})

abbrev into_runtime_rejects_invalid_admin_listen : Bool
into_runtime_rejects_invalid_admin_listen = rejects (record default_config {
  upstreams = single_upstream (codes "http://localhost:3000");
  admin = some (record { listen = codes "not-an-address" });
})

tests_pass :
    into_runtime_rejects_empty_upstreams && into_runtime_rejects_malformed_upstream
      && into_runtime_rejects_invalid_blocked_header_name
      && into_runtime_rejects_duplicate_upstreams
      && into_runtime_rejects_zero_max_concurrent_requests
      && into_runtime_rejects_zero_max_connections && into_runtime_rejects_zero_header_read_timeout
      && into_runtime_rejects_zero_mask_max_body_size && into_runtime_rejects_zero_rate_limit_rps
      && into_runtime_rejects_zero_rate_limit_burst && into_runtime_rejects_zero_health_thresholds
      && into_runtime_rejects_health_path_without_leading_slash
      && into_runtime_rejects_zero_health_interval && into_runtime_rejects_zero_health_timeout
      && into_runtime_rejects_zero_connect_timeout && into_runtime_rejects_zero_request_timeout
      && into_runtime_rejects_zero_weight && into_runtime_rejects_invalid_listen_address
      && into_runtime_rejects_admin_listen_sharing_data_plane_address
      && into_runtime_rejects_invalid_admin_listen
    ≡ true
unfolding into_runtime check_rate_limit check_health_check validate_upstream check_distinct
    find_duplicate blocked_header_name mask_rule listen_addr admin_addr has_https_upstream
    mask_sensitive_data from_secs to_ascii_lowercase split starts_with is_ascii_graphic parse_u64
    eq_ignore_ascii_case before after drop_while_slash parse_uri is_token is_socket_addr escape
    literal value_follows replace_values
tests_pass = refl
