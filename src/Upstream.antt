-- ===== src/Upstream.antt =====
-- src/upstream.rs: the health state of one backend, and the pool. `now` is `Instant::now()`; each
-- method is the change that it makes to the shared state when no other thread runs between its
-- atomic operations.
pub mod Health
pub mod Thresholds
pub mod Cooldown
pub mod Threads
use palisade.Prelude.{
  ℕ, ◌+◌, ◌-◌, ◌%◌, ◌^◌, Bool, true, false, ◌&&◌, ◌||◌, not, List, map, leb, if◌then◌else◌,
}
use palisade.Duration.{Duration, as_millis_u64, saturating_add_u64, saturating_add_u32}
use palisade.Http.{Http}

-- `ValidatedUpstream` of src/config.rs
pub record ValidatedUpstream (h : Http) : Type 0 where
  pub uri : h.Uri
  pub weight : ℕ

-- `InnerState`, behind the `Arc` of `UpstreamState`
pub record UpstreamState (h : Http) : Type 0 where
  pub uri : h.Uri
  pub weight : ℕ
  pub consecutive_failures : ℕ
  pub consecutive_successes : ℕ
  pub healthy : Bool
  pub created : ℕ
  pub cooldown_ms : ℕ
  pub cooldown_until_ms : ℕ

-- `AtomicU32::fetch_add(1)` leaves this.
unfoldable pub fetch_add_u32 : ℕ → ℕ
fetch_add_u32 n = (n + 1) % 2 ^ 32

module _ {h : Http} where
  -- `UpstreamState::new`
  unfoldable pub new : ValidatedUpstream h → Duration → ℕ → UpstreamState h
  unfolding as_millis_u64
  new backend cooldown now = record {
    uri = backend.uri;
    weight = backend.weight;
    consecutive_failures = 0;
    consecutive_successes = 0;
    healthy = true;
    created = now;
    cooldown_ms = as_millis_u64 cooldown;
    cooldown_until_ms = 0;
  }

  -- `UpstreamPool::from_validated`
  unfoldable pub from_validated : List (ValidatedUpstream h) → Duration → ℕ → List (UpstreamState h)
  unfolding new
  from_validated upstreams cooldown now = map (λ u. new u cooldown now) upstreams

  unfoldable pub now_ms : ℕ → UpstreamState h → ℕ
  unfolding as_millis_u64
  now_ms now s = as_millis_u64 (now - s.created)

  unfoldable pub trial_ready : ℕ → UpstreamState h → Bool
  trial_ready now s = not s.healthy && leb s.cooldown_until_ms (now_ms now s)

  unfoldable pub is_eligible : ℕ → UpstreamState h → Bool
  unfolding trial_ready
  is_eligible now s = s.healthy || trial_ready now s

  unfoldable pub arm_cooldown : ℕ → UpstreamState h → UpstreamState h
  unfolding saturating_add_u64
  arm_cooldown now s = record s {
    cooldown_until_ms = saturating_add_u64 (now_ms now s) s.cooldown_ms;
  }

  -- Whether the backend was promoted comes back beside the state.
  unfoldable pub record_success : ℕ → UpstreamState h → UpstreamState h × Bool
  unfolding fetch_add_u32 saturating_add_u32
  record_success healthy_threshold s =
      let reset = record s { consecutive_failures = 0 } in
      if s.healthy
      then (record reset { consecutive_successes = 0 }, false)
      else if leb healthy_threshold (saturating_add_u32 s.consecutive_successes 1)
      then (record reset { consecutive_successes = 0; cooldown_until_ms = 0; healthy = true }, true)
      else (record reset { consecutive_successes = fetch_add_u32 s.consecutive_successes }, false)

  -- Whether the backend was ejected comes back beside the state.
  unfoldable pub record_failure : ℕ → ℕ → UpstreamState h → UpstreamState h × Bool
  unfolding fetch_add_u32 saturating_add_u32 arm_cooldown
  record_failure now threshold s =
      let counted = record s {
        consecutive_successes = 0;
        consecutive_failures = fetch_add_u32 s.consecutive_failures;
      } in
      if leb threshold (saturating_add_u32 s.consecutive_failures 1)
      then if s.healthy
        then (arm_cooldown now (record counted { healthy = false }), true)
        else (record counted { healthy = false }, false)
      else (counted, false)

  unfoldable pub mark_healthy : UpstreamState h → UpstreamState h
  mark_healthy s = record s {
    consecutive_failures = 0;
    consecutive_successes = 0;
    cooldown_until_ms = 0;
    healthy = true;
  }

  unfoldable pub mark_unhealthy : ℕ → UpstreamState h → UpstreamState h
  unfolding arm_cooldown
  mark_unhealthy now s = arm_cooldown now (record s { consecutive_successes = 0; healthy = false })
