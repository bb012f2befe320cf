-- ===== src/RateLimit.antt =====
-- src/rate_limit.rs: the per-IP limiter around the `governor` crate, which is a parameter.
use palisade.Prelude.{ℕ, ◌≡◌, true, some, Except, ok, ◌>>◌, map_err, is_ok, ◌==◌, arith}
use mathlib.Core.Path.{subst}
use palisade.Text.{codes}
use palisade.Duration.{Duration, as_millis_u64}
use palisade.Http.{Http, HttpLaws}
use palisade.Net.{Net, NetLaws}
use palisade.Error.{Result, internal}
use palisade.Config.Schema.{Config, RateLimitConfig}
use palisade.Config.Runtime.{RegexLib, RuntimeConfig, reject_if}
use palisade.Config.Load.{into_runtime}
use palisade.Config.Valid.{RateUsable, into_runtime-IsValid}

-- `RateLimiter::dashmap(Quota::per_second(rps).allow_burst(burst))` and its methods. `check_key`
-- changes the limiter, and refuses with the wait that `NotUntil::wait_time_from` gives.
pub record Governor (n : Net) : Type 1 where
  pub Limiter : Type 0
  pub dashmap : (requests_per_second burst : ℕ) → Limiter
  pub check_key : Limiter → n.IpAddr → (now : ℕ) → Limiter × Except Duration Unit
  pub retain : Limiter → (now : ℕ) → Limiter
  pub len : Limiter → ℕ

module _ {n : Net} (g : Governor n) where
  open g use {Limiter, dashmap, check_key, retain, len}

  -- `IpRateLimiter::from_config`
  unfoldable pub from_config : RateLimitConfig → Result Limiter
  from_config c = do
    reject_if (c.requests_per_second == 0) (internal (codes "requests_per_second must be non-zero"))
    reject_if (c.burst == 0) (internal (codes "burst must be non-zero"))
    ok (dashmap c.requests_per_second c.burst)

  -- `IpRateLimiter::check`: the error is the wait in milliseconds.
  unfoldable pub check : Limiter → n.IpAddr → ℕ → Limiter × Except ℕ Unit
  unfolding as_millis_u64
  check limiter ip now =
      let (limiter', r) = check_key limiter ip now in (limiter', map_err as_millis_u64 r)

  -- `IpRateLimiter::retain_recent` and `tracked_ip_count`
  unfoldable pub retain_recent : Limiter → ℕ → Limiter
  retain_recent limiter now = retain limiter now

  unfoldable pub tracked_ip_count : Limiter → ℕ
  tracked_ip_count limiter = len limiter

  from_config-RateUsable :
      (c : RateLimitConfig) → RateUsable (some c) → is_ok (from_config c) ≡ true
  unfolding from_config
  from_config-RateUsable c u = ground arith

  module _ (h : Http) (r : RegexLib) (l : HttpLaws h) (k : NetLaws n) where
    -- The limiter of a configuration that loads can always be built: the failure that
    -- `from_config` documents is unreachable from there.
    pub from_config-into_runtime :
        (c : Config) (rt : RuntimeConfig h n r) (rl : RateLimitConfig)
        → into_runtime h n r c ≡ ok rt
        → rt.rate_limit ≡ some rl
        → is_ok (from_config rl) ≡ true
    from_config-into_runtime c rt rl e q =
        from_config-RateUsable rl (subst RateUsable q (into_runtime-IsValid h n r l k c rt e).rate)
