-- ===== src/Upstream/Cooldown.antt =====
-- The half-open window of an ejected backend.
use palisade.Prelude.{ℕ, ◌+◌, ◌<◌, ◌≡◌, true, false, arith, leb, min}
use palisade.Duration.{u64_max}
use palisade.Http.{Http}
use palisade.Upstream.{UpstreamState, now_ms, is_eligible, arm_cooldown, record_failure}

module _ {h : Http} (s : UpstreamState h) (now : ℕ) where
  -- A backend that a call of `record_failure` has ejected is eligible again exactly from the
  -- millisecond on that lies its cooldown after the ejection (the sum saturates at `u64::MAX`),
  -- if no other call comes between.
  pub eligible_after_ejection :
      (threshold later : ℕ)
      → (record_failure now threshold s).1 ≡ true
      → is_eligible later (record_failure now threshold s).0
        ≡ leb (min (now_ms now s + s.cooldown_ms) u64_max) (now_ms later s)
  unfolding record_failure is_eligible now_ms
  eligible_after_ejection threshold later e = ground arith

  -- A trial that is routed to an unhealthy backend closes the window again: no later call finds
  -- the backend eligible before its cooldown has passed, the clock being below `u64::MAX`, and the
  -- backend stays unhealthy.
  pub one_trial_per_window :
      (later : ℕ)
      → s.healthy ≡ false
      → now_ms later s < now_ms now s + s.cooldown_ms
      → now_ms later s < u64_max
      → (is_eligible later (arm_cooldown now s) ≡ false) × ((arm_cooldown now s).healthy ≡ false)
  unfolding is_eligible arm_cooldown now_ms
  one_trial_per_window later e b m = ground arith
