-- ===== src/Config/Runtime.antt =====
-- `validate_upstream`, `Config::into_runtime` and the methods of `RuntimeConfig`.
use palisade.Prelude.{
  ℕ, Bool, true, false, not, Option, none, some, List, [], ◌∷◌, ◌++◌, ◌==◌, Except, ok, err, ◌>>=◌,
  ◌>>◌, ok_or, map_err, if◌then◌else◌,
}
use palisade.Text.{Str, codes, is_empty, any, starts_with}
use palisade.Duration.{Duration}
use palisade.Http.{Http}
use palisade.Net.{Net}
use palisade.Error.{Result, ProxyError, config, invalid_upstream}
use palisade.Upstream.{ValidatedUpstream}
use palisade.Config.Schema.{
  TlsConfig, HealthCheckConfig, RateLimitConfig, AdminConfig, default_listen_addr,
}

-- What the program uses of the `regex` crate: `escape`, `Regex::new` (with the text of its error),
-- and `Regex::replace_all`, whose last argument is a replacement text in which `$` names a group.
pub record RegexLib : Type 1 where
  pub Regex : Type 0
  pub escape : Str → Str
  pub compile : Str → Except Str Regex
  pub replace_all : Regex → Str → Str → Str

pub record MaskRule (r : RegexLib) : Type 0 where
  pub param : Str
  pub pattern : r.Regex

pub record RuntimeConfig (h : Http) (n : Net) (r : RegexLib) : Type 0 where
  pub listen : n.SocketAddr
  pub upstreams : List (ValidatedUpstream h)
  pub blocked_headers : List h.HeaderName
  pub blocked_params : List Str
  pub mask_rules : List (MaskRule r)
  pub max_body_size : ℕ
  pub mask_max_body_size : ℕ
  pub strip_response_headers : List Str
  pub trust_forwarded_headers : Bool
  pub connect_timeout : Duration
  pub request_timeout : Duration
  pub pool_idle_timeout : Duration
  pub pool_max_idle_per_host : ℕ
  pub max_concurrent_requests : ℕ
  pub max_connections : ℕ
  pub header_read_timeout : Duration
  pub tls : Option TlsConfig
  pub health_check : Option HealthCheckConfig
  pub failure_threshold : ℕ
  pub healthy_threshold : ℕ
  pub health_check_cooldown : Duration
  pub rate_limit : Option RateLimitConfig
  pub admin_listen : Option n.SocketAddr
  pub shutdown_timeout : Duration

-- `if bad { return Err(…) }`
abbrev pub reject_if : Bool → ProxyError → Result Unit
reject_if true e = err e
reject_if false e = ok tt

-- `unwrap_or` and `map_or`
abbrev pub or_default {ℓ} : {A : Type ℓ} → A → Option A → A
or_default d none = d
or_default d (some a) = a

abbrev pub map_or {ℓ κ} : {A : Type ℓ} {B : Type κ} → B → (A → B) → Option A → B
map_or d f none = d
map_or d f (some a) = f a

-- A text in quotation marks.
abbrev quoted : Str → Str
quoted s = b'"' ∷ (s ++ b'"' ∷ [])

unfoldable pub check_rate_limit : Option RateLimitConfig → Result Unit
check_rate_limit none = ok tt
check_rate_limit (some rl) = do
  reject_if (rl.requests_per_second == 0)
      (config (codes "rate_limit.requests_per_second must be positive"))
  reject_if (rl.burst == 0) (config (codes "rate_limit.burst must be positive"))

unfoldable pub check_health_check : Option HealthCheckConfig → Result Unit
check_health_check none = ok tt
check_health_check (some hc) = do
  reject_if (hc.unhealthy_threshold == 0)
      (config (codes "health_check.unhealthy_threshold must be positive"))
  reject_if (hc.healthy_threshold == 0)
      (config (codes "health_check.healthy_threshold must be positive"))
  reject_if (hc.interval == 0) (config (codes "health_check.interval must be positive"))
  reject_if (hc.timeout == 0) (config (codes "health_check.timeout must be positive"))
  reject_if (not (starts_with hc.path (codes "/")))
      (config (codes "health_check.path must begin with '/': " ++ quoted hc.path))

module _ (h : Http) where
  open h use {parse_uri, authority, uri_eq, uri_text, name_from_bytes, HeaderName}

  unfoldable pub validate_upstream : Str → ℕ → Result (ValidatedUpstream h)
  validate_upstream address weight = do
    reject_if (is_empty address) (invalid_upstream (codes "upstream address must not be empty"))
    uri ← map_err invalid_upstream (parse_uri address)
    ok_or (invalid_upstream (codes "upstream URI has no authority: " ++ address)) (authority uri)
    reject_if (weight == 0) (config (codes "upstream weight must be positive: " ++ address))
    ok (record { uri = uri; weight = weight })

  -- `find(|u| !seen.insert(&u.uri))`
  unfoldable pub find_duplicate :
      List h.Uri → List (ValidatedUpstream h) → Option (ValidatedUpstream h)
  find_duplicate seen [] = none
  find_duplicate seen (u ∷ us) =
      let rest = find_duplicate (u.uri ∷ seen) us in
      if any (uri_eq u.uri) seen then some u else rest

  unfoldable pub check_distinct : List (ValidatedUpstream h) → Result Unit
  unfolding find_duplicate
  check_distinct us = elim (find_duplicate [] us) [
    | none ↦ ok tt
    | some dup ↦ err (config (codes "duplicate upstream address: " ++ uri_text dup.uri))
  ]

  unfoldable pub blocked_header_name : Str → Result HeaderName
  blocked_header_name name =
      map_err
        (λ e. config (codes "invalid blocked header name " ++ (quoted name ++ (codes ": " ++ e))))
        (name_from_bytes name)

unfoldable pub mask_rule : (r : RegexLib) → Str → Result (MaskRule r)
mask_rule r param = do
  pattern ←
      map_err (λ e. config (codes "invalid mask pattern for " ++ (param ++ (codes ": " ++ e))))
        (r.compile (r.escape param ++ codes "=([^&]+)"))
  ok (record { param = param; pattern = pattern })

module _ (n : Net) where
  open n use {SocketAddr, parse_addr, addr_eq}

  unfoldable pub listen_addr : Option Str → Result SocketAddr
  listen_addr listen =
      let listen_str = or_default default_listen_addr listen in
      map_err
        (λ e. config (codes "invalid listen address " ++ (quoted listen_str ++ (codes ": " ++ e))))
        (parse_addr listen_str)

  -- `self.admin.as_ref().map(…).transpose()?`
  unfoldable pub admin_addr : Option AdminConfig → Result (Option SocketAddr)
  admin_addr none = ok none
  admin_addr (some a) = do
    addr ←
        map_err
          (λ e.
            config
              (codes "invalid admin listen address " ++ (quoted a.listen ++ (codes ": " ++ e))))
          (parse_addr a.listen)
    ok (some addr)

  abbrev pub is_listen : SocketAddr → Option SocketAddr → Bool
  is_listen listen none = false
  is_listen listen (some a) = addr_eq a listen
