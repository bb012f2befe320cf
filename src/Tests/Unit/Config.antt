-- ===== src/Tests/Unit/Config.antt =====
-- The unit tests of src/config.rs whose configuration loads.
use palisade.Prelude.{
  ◌≡◌, refl, Bool, true, false, ◌&&◌, ◌==◌, Option, none, some, [], ◌∷◌, ok, err, length,
}
use palisade.Text.{
  Str, codes, str_eq, split, starts_with, to_ascii_lowercase, is_ascii_graphic, parse_u64,
  eq_ignore_ascii_case,
}
use palisade.Duration.{from_secs}
use palisade.Config.Schema.{
  Config, default_config, default_health_check, default_max_connections,
  default_header_read_timeout, default_mask_max_body_size, default_listen_addr,
  default_failure_threshold, default_healthy_threshold, default_health_check_cooldown,
  default_shutdown_timeout,
}
use palisade.Config.Runtime.{
  RuntimeConfig, check_rate_limit, check_health_check, validate_upstream, check_distinct,
  find_duplicate, blocked_header_name, mask_rule, listen_addr, admin_addr,
}
use palisade.Config.Load.{into_runtime, has_https_upstream, mask_sensitive_data}
use palisade.Tests.Unit.World.{
  http, net, regex, before, after, drop_while_slash, parse_uri, is_token, is_socket_addr, escape,
  literal, value_follows, replace_values,
}
use palisade.Tests.Unit.Rejections.{single_upstream}

-- The configuration loads, and what is asked of it holds.
abbrev loads : Config → (RuntimeConfig http net regex → Bool) → Bool
loads config test = elim (into_runtime http net regex config) [ err e ↦ false | ok rt ↦ test rt ]

abbrev is_text : Str → Option Str → Bool
is_text text none = false
is_text text (some s) = str_eq s text

abbrev is_uri : Str → http.Uri → Bool
is_uri text uri = elim (http.parse_uri text) [ err e ↦ false | ok u ↦ http.uri_eq uri u ]

abbrev into_runtime_lowercases_blocked_headers : Bool
into_runtime_lowercases_blocked_headers =
    loads
      (record default_config {
        upstreams = single_upstream (codes "http://localhost:3000");
        blocked_headers = codes "X-Custom-Header" ∷ [];
      })
      (λ rt. elim rt.blocked_headers [
        | [] ↦ false
        | n ∷ rest ↦ str_eq n (codes "x-custom-header") && (length rest == 0)
      ])

abbrev into_runtime_applies_resource_limit_defaults : Bool
into_runtime_applies_resource_limit_defaults =
    loads (record default_config { upstreams = single_upstream (codes "http://localhost:3000") })
      (λ rt.
        (rt.max_connections == default_max_connections)
        && (rt.header_read_timeout == default_header_read_timeout)
        && (rt.mask_max_body_size == default_mask_max_body_size))

abbrev into_runtime_validates_upstreams : Bool
into_runtime_validates_upstreams =
    loads (record default_config { upstreams = single_upstream (codes "http://localhost:3000") })
      (λ rt. elim rt.upstreams [
        | [] ↦ false
        | u ∷ rest ↦
            is_uri (codes "http://localhost:3000") u.uri && (u.weight == 1) && (length rest == 0)
      ])

abbrev into_runtime_handles_multiple_upstreams : Bool
into_runtime_handles_multiple_upstreams =
    loads
      (record default_config {
        upstreams =
            record { address = codes "http://backend1:3000"; weight = 3 }
            ∷ record { address = codes "http://backend2:3000"; weight = 1 }
            ∷ [];
      })
      (λ rt. elim rt.upstreams [
        | [] ↦ false
        | u ∷ [] ↦ false
        | u ∷ v ∷ rest ↦
            is_uri (codes "http://backend1:3000") u.uri
            && (u.weight == 3)
            && (v.weight == 1)
            && (length rest == 0)
      ])

abbrev has_https_upstream_detects_scheme : Bool
has_https_upstream_detects_scheme =
    loads
      (record default_config {
        upstreams =
            record { address = codes "http://backend1:3000"; weight = 1 }
            ∷ record { address = codes "https://backend2:3000"; weight = 1 }
            ∷ [];
      })
      (λ rt. has_https_upstream http net regex rt)

abbrev mask_sensitive_data_replaces_values : Bool
mask_sensitive_data_replaces_values =
    loads
      (record default_config {
        upstreams = single_upstream (codes "http://localhost:3000");
        masked_params = codes "password" ∷ codes "token" ∷ [];
      })
      (λ rt.
        str_eq
          (mask_sensitive_data http net regex rt.mask_rules
            (codes "username=john&password=secret&token=1234567890"))
          (codes "username=john&password=****&token=****"))

abbrev mask_sensitive_data_leaves_unmatched_text_intact : Bool
mask_sensitive_data_leaves_unmatched_text_intact =
    loads
      (record default_config {
        upstreams = single_upstream (codes "http://localhost:3000");
        masked_params = codes "password" ∷ [];
      })
      (λ rt.
        str_eq (mask_sensitive_data http net regex rt.mask_rules (codes "username=john&role=admin"))
          (codes "username=john&role=admin"))

abbrev mask_handles_regex_special_characters_in_param_name : Bool
mask_handles_regex_special_characters_in_param_name =
    loads
      (record default_config {
        upstreams = single_upstream (codes "http://localhost:3000");
        masked_params = codes "user.password" ∷ [];
      })
      (λ rt.
        str_eq
          (mask_sensitive_data http net regex rt.mask_rules
            (codes "user.password=secret123&other=value"))
          (codes "user.password=****&other=value"))

abbrev into_runtime_defaults_listen_address : Bool
into_runtime_defaults_listen_address =
    loads (record default_config { upstreams = single_upstream (codes "http://localhost:3000") })
      (λ rt. is_text rt.listen (some default_listen_addr))

abbrev into_runtime_parses_custom_listen_address : Bool
into_runtime_parses_custom_listen_address =
    loads
      (record default_config {
        upstreams = single_upstream (codes "http://localhost:3000");
        listen = some (codes "0.0.0.0:9090");
      })
      (λ rt. is_text rt.listen (some (codes "0.0.0.0:9090")))

abbrev into_runtime_parses_admin_listen_when_configured : Bool
into_runtime_parses_admin_listen_when_configured =
    loads
      (record default_config {
        upstreams = single_upstream (codes "http://localhost:3000");
        admin = some (record { listen = codes "127.0.0.1:9090" });
      })
      (λ rt. is_text (codes "127.0.0.1:9090") rt.admin_listen)

abbrev into_runtime_disables_admin_by_default : Bool
into_runtime_disables_admin_by_default =
    loads (record default_config { upstreams = single_upstream (codes "http://localhost:3000") })
      (λ rt. elim rt.admin_listen [ none ↦ true | some a ↦ false ])

abbrev health_check_config_uses_defaults : Bool
health_check_config_uses_defaults =
    loads
      (record default_config {
        upstreams = single_upstream (codes "http://localhost:3000");
        health_check = some default_health_check;
      })
      (λ rt.
        (rt.failure_threshold == default_failure_threshold)
        && (rt.healthy_threshold == default_healthy_threshold)
        && (rt.health_check_cooldown == default_health_check_cooldown)
        && (elim rt.health_check [
          | none ↦ false
          | some hc ↦ (from_secs hc.cooldown == default_health_check_cooldown) && (hc.timeout == 3)
        ]))

abbrev timeouts_config_uses_defaults : Bool
timeouts_config_uses_defaults =
    loads (record default_config { upstreams = single_upstream (codes "http://localhost:3000") })
      (λ rt.
        (rt.connect_timeout == from_secs 5)
        && (rt.request_timeout == from_secs 30)
        && (rt.pool_idle_timeout == from_secs 60)
        && (rt.pool_max_idle_per_host == 32))

abbrev custom_timeouts_propagate : Bool
custom_timeouts_propagate =
    loads
      (record default_config {
        upstreams = single_upstream (codes "http://localhost:3000");
        timeouts = record { connect = 2; request = 10 };
        pool = record { idle_timeout = 90; max_idle_per_host = 16 };
      })
      (λ rt.
        (rt.connect_timeout == from_secs 2)
        && (rt.request_timeout == from_secs 10)
        && (rt.pool_idle_timeout == from_secs 90)
        && (rt.pool_max_idle_per_host == 16))

abbrev shutdown_timeout_defaults : Bool
shutdown_timeout_defaults =
    loads (record default_config { upstreams = single_upstream (codes "http://localhost:3000") })
      (λ rt. rt.shutdown_timeout == default_shutdown_timeout)

abbrev custom_shutdown_timeout : Bool
custom_shutdown_timeout =
    loads
      (record default_config {
        upstreams = single_upstream (codes "http://localhost:3000");
        shutdown_timeout = some 10;
      })
      (λ rt. rt.shutdown_timeout == from_secs 10)

abbrev healthy_threshold_propagates : Bool
healthy_threshold_propagates =
    loads
      (record default_config {
        upstreams = single_upstream (codes "http://localhost:3000");
        health_check = some (record default_health_check { healthy_threshold = 5 });
      })
      (λ rt. rt.healthy_threshold == 5)

tests_pass :
    into_runtime_lowercases_blocked_headers && into_runtime_applies_resource_limit_defaults
      && into_runtime_validates_upstreams && into_runtime_handles_multiple_upstreams
      && has_https_upstream_detects_scheme && mask_sensitive_data_replaces_values
      && mask_sensitive_data_leaves_unmatched_text_intact
      && mask_handles_regex_special_characters_in_param_name && into_runtime_defaults_listen_address
      && into_runtime_parses_custom_listen_address
      && into_runtime_parses_admin_listen_when_configured && into_runtime_disables_admin_by_default
      && health_check_config_uses_defaults && timeouts_config_uses_defaults
      && custom_timeouts_propagate && shutdown_timeout_defaults && custom_shutdown_timeout
      && healthy_threshold_propagates
    ≡ true
unfolding into_runtime check_rate_limit check_health_check validate_upstream check_distinct
    find_duplicate blocked_header_name mask_rule listen_addr admin_addr has_https_upstream
    mask_sensitive_data from_secs to_ascii_lowercase split starts_with is_ascii_graphic parse_u64
    eq_ignore_ascii_case before after drop_while_slash parse_uri is_token is_socket_addr escape
    literal value_follows replace_values
tests_pass = refl
