-- ===== src/Upstream/Thresholds.antt =====
-- How many failures in a row eject a backend, and how many successes bring it back.
use palisade.Prelude.{
  ℕ, zero, suc, ◌+◌, ◌^◌, ◌<◌, ◌≡◌, true, false, List, [], ◌∷◌, arith, ltb, leb, length,
}
use palisade.Http.{Http}
use palisade.Upstream.{UpstreamState, record_success, record_failure}
use palisade.Upstream.Health.{fail_at, succeed}

module _ {h : Http} (failures : ℕ) where
  fail_at-unhealthy :
      (times : List ℕ) (s : UpstreamState h)
      → s.healthy ≡ false
      → (fail_at failures times s).healthy ≡ false
  unfolding fail_at record_failure
  fail_at-unhealthy [] s e = e
  fail_at-unhealthy (now ∷ times) s e =
      fail_at-unhealthy times (record_failure now failures s).0 (ground arith)

  -- With a `u32` threshold, a healthy backend that has seen fewer consecutive failures than the
  -- threshold stays healthy through a run of failures exactly as long as the failures together
  -- stay below the threshold.
  pub healthy-fail_at :
      (times : List ℕ) (s : UpstreamState h)
      → failures < 2 ^ 32
      → s.healthy ≡ true
      → s.consecutive_failures < failures
      → (fail_at failures times s).healthy ≡ ltb (s.consecutive_failures + length times) failures
  unfolding fail_at record_failure
  healthy-fail_at [] s fl e b = ground arith
  healthy-fail_at (now ∷ times) s fl e b = ground (
    arith,
    healthy-fail_at times (record_failure now failures s).0 fl,
    fail_at-unhealthy times (record_failure now failures s).0,
  )

module _ {h : Http} (successes : ℕ) where
  succeed-healthy :
      (n : ℕ) (s : UpstreamState h) → s.healthy ≡ true → (succeed successes n s).healthy ≡ true
  unfolding succeed record_success
  succeed-healthy zero s e = e
  succeed-healthy (suc n) s e = succeed-healthy n (record_success successes s).0 (ground arith)

  -- With a `u32` threshold, an unhealthy backend with fewer counted successes than the threshold
  -- is promoted by a run of successes exactly when they bring the count to the threshold.
  pub healthy-succeed :
      (n : ℕ) (s : UpstreamState h)
      → successes < 2 ^ 32
      → s.healthy ≡ false
      → s.consecutive_successes < successes
      → (succeed successes n s).healthy ≡ leb successes (s.consecutive_successes + n)
  unfolding succeed record_success
  healthy-succeed zero s sl e b = ground arith
  healthy-succeed (suc n) s sl e b = ground (
    arith,
    healthy-succeed n (record_success successes s).0 sl,
    succeed-healthy n (record_success successes s).0,
  )
