-- ===== src/Upstream/Health.antt =====
-- The invariant of a backend's counters and flag, over every method that changes them.
use palisade.Prelude.{
  [], ◌∷◌, zero, suc, ℕ, ◌^◌, ◌<◌, ◌≡◌, true, false, arith, List, suc, ◌&&◌, not, ◌∷◌,
}
use palisade.Http.{Http}
use palisade.Upstream.{
  UpstreamState, arm_cooldown, record_success, record_failure, mark_healthy, mark_unhealthy, new,
  ValidatedUpstream, Duration,
}

-- What holds of a backend between two calls, under fixed thresholds.
pub record IsValid {h : Http} (failures successes : ℕ) (s : UpstreamState h) : Type 0 where
  pub below : s.healthy ≡ true → s.consecutive_failures < failures
  pub counting : s.consecutive_successes < successes
  pub settled : s.healthy ≡ true → s.consecutive_successes ≡ 0
  pub released : s.healthy ≡ true → s.cooldown_until_ms ≡ 0
  pub in_u32 : s.consecutive_failures < 2 ^ 32

module _ {h : Http} (failures successes : ℕ) where
  -- The calls that the program makes: passive and active health tracking, the cooldown that the
  -- balancer arms when it routes to an unhealthy backend, and the two marks.
  pub data Step : UpstreamState h → UpstreamState h → Type 0 where
    success : (s : UpstreamState h) → Step s (record_success successes s).0
    failure : (s : UpstreamState h) (now : ℕ) → Step s (record_failure now failures s).0
    trial : (s : UpstreamState h) (now : ℕ) → s.healthy ≡ false → Step s (arm_cooldown now s)
    marked_healthy : (s : UpstreamState h) → Step s (mark_healthy s)
    marked_unhealthy : (s : UpstreamState h) (now : ℕ) → Step s (mark_unhealthy now s)

  pub data Reach (s : UpstreamState h) : UpstreamState h → Type 0 where
    here : Reach s s
    next : {t u : UpstreamState h} → Reach s t → Step t u → Reach s u

  module _ (fl : failures < 2 ^ 32) (sl : successes < 2 ^ 32) (fp : 0 < failures)
      (sp : 0 < successes) where
    record_success-IsValid :
        (s : UpstreamState h)
        → IsValid failures successes s
        → IsValid failures successes (record_success successes s).0
    unfolding record_success
    record_success-IsValid s v = ground arith

    record_failure-IsValid :
        (s : UpstreamState h) (now : ℕ)
        → IsValid failures successes s
        → IsValid failures successes (record_failure now failures s).0
    unfolding record_failure
    record_failure-IsValid s now v = ground arith

    pub Step-IsValid :
        {s t : UpstreamState h}
        → Step s t
        → IsValid failures successes s
        → IsValid failures successes t
    unfolding arm_cooldown mark_healthy mark_unhealthy
    Step-IsValid (success s) v = record_success-IsValid s v
    Step-IsValid (failure s now) v = record_failure-IsValid s now v
    Step-IsValid (trial s now e) v = ground arith
    Step-IsValid (marked_healthy s) v = ground arith
    Step-IsValid (marked_unhealthy s now) v = ground arith

    pub new-IsValid :
        (b : ValidatedUpstream h) (cooldown : Duration) (now : ℕ)
        → IsValid failures successes (new b cooldown now)
    unfolding new
    new-IsValid b cooldown now = ground arith

  -- `record_failure` reports an ejection exactly when the backend goes from healthy to unhealthy,
  -- `record_success` a recovery exactly when it goes from unhealthy to healthy, and neither moves
  -- the flag the other way.
  pub reports_exact :
      (s : UpstreamState h) (now : ℕ)
      → let (f, ejected) = record_failure now failures s in
        let (r, recovered) = record_success successes s in
        (ejected ≡ (s.healthy && not f.healthy))
        × (recovered ≡ (not s.healthy && r.healthy))
        × ((f.healthy && not s.healthy) ≡ false)
        × ((s.healthy && not r.healthy) ≡ false)
  unfolding record_failure record_success
  reports_exact s now = ground arith

-- One failure at each of the times, oldest first.
unfoldable pub fail_at : {h : Http} → ℕ → List ℕ → UpstreamState h → UpstreamState h
fail_at failures [] s = s
fail_at failures (now ∷ rest) s = fail_at failures rest (record_failure now failures s).0

-- One success after another.
unfoldable pub succeed : {h : Http} → ℕ → ℕ → UpstreamState h → UpstreamState h
succeed successes zero s = s
succeed successes (suc n) s = succeed successes n (record_success successes s).0
