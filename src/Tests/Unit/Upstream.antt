-- ===== src/Tests/Unit/Upstream.antt =====
-- The unit tests of src/upstream.rs. Calls that a test makes at once are at time 0, and a test that
-- sleeps goes on at the end of its sleep.
use palisade.Prelude.{ℕ, ◌≡◌, refl, Bool, true, ◌&&◌, not}
use palisade.Text.{Str, codes, split}
use palisade.Duration.{Duration, from_secs}
use palisade.Upstream.{
  ValidatedUpstream, UpstreamState, new, is_eligible, trial_ready, arm_cooldown, record_success,
  record_failure, mark_unhealthy,
}
use palisade.Upstream
use palisade.Tests.World.{http}
use palisade.Tests.Unit.Balancer.{long_cooldown, unwrap_uri}

abbrev test_upstream : Str → ℕ → ValidatedUpstream http
test_upstream addr weight = record { uri = unwrap_uri addr; weight = weight }

abbrev state : Str → Duration → UpstreamState http
state addr cooldown = new (test_upstream addr 1) cooldown 0

abbrev lasting : UpstreamState http
lasting = state (codes "http://localhost:3000") long_cooldown

abbrev brief : UpstreamState http
brief = state (codes "http://localhost:3000") 20_000_000

abbrev new_upstream_starts_healthy : Bool
new_upstream_starts_healthy = lasting.healthy && is_eligible 0 lasting

abbrev record_success_resets_failures : Bool
record_success_resets_failures =
    let two_failures = (record_failure 0 3 (record_failure 0 3 lasting).0).0 in
    let reset = (record_success 1 two_failures).0 in
    let again = (record_failure 0 3 (record_failure 0 3 reset).0).0 in
    let third = record_failure 0 3 again in
    two_failures.healthy && again.healthy && third.1 && not third.0.healthy

abbrev record_success_requires_threshold_for_recovery : Bool
record_success_requires_threshold_for_recovery =
    let first = record_success 3 (mark_unhealthy 0 lasting) in
    let second = record_success 3 first.0 in
    let third = record_success 3 second.0 in
    not first.1
    && not first.0.healthy
    && not second.1
    && not second.0.healthy
    && third.1
    && third.0.healthy

abbrev failure_resets_consecutive_successes : Bool
failure_resets_consecutive_successes =
    let two_successes = (record_success 3 (record_success 3 (mark_unhealthy 0 lasting)).0).0 in
    let failure = (record_failure 0 10 two_successes).0 in
    let success = (record_success 3 failure).0 in not failure.healthy && not success.healthy

abbrev record_failure_marks_unhealthy_at_threshold : Bool
record_failure_marks_unhealthy_at_threshold =
    let first = record_failure 0 3 lasting in
    let second = record_failure 0 3 first.0 in
    let third = record_failure 0 3 second.0 in
    not first.1 && not second.1 && third.1 && not third.0.healthy

abbrev record_failure_beyond_threshold_does_not_retrigger : Bool
record_failure_beyond_threshold_does_not_retrigger =
    let second = record_failure 0 2 (record_failure 0 2 lasting).0 in
    let third = record_failure 0 2 second.0 in second.1 && not third.1

abbrev ejected_backend_is_not_eligible_during_cooldown : Bool
ejected_backend_is_not_eligible_during_cooldown =
    let ejected = mark_unhealthy 0 lasting in
    not ejected.healthy && not (trial_ready 0 ejected) && not (is_eligible 0 ejected)

abbrev ejected_backend_becomes_trial_ready_after_cooldown : Bool
ejected_backend_becomes_trial_ready_after_cooldown =
    let ejected = mark_unhealthy 0 brief in
    not (trial_ready 0 ejected)
    && trial_ready 40_000_000 ejected
    && is_eligible 40_000_000 ejected
    && not (trial_ready 40_000_000 (arm_cooldown 40_000_000 ejected))

abbrev promotion_clears_cooldown : Bool
promotion_clears_cooldown =
    let promoted = record_success 1 (mark_unhealthy 0 brief) in
    promoted.1 && promoted.0.healthy && is_eligible 0 promoted.0

tests_pass :
    new_upstream_starts_healthy && record_success_resets_failures
      && record_success_requires_threshold_for_recovery && failure_resets_consecutive_successes
      && record_failure_marks_unhealthy_at_threshold
      && record_failure_beyond_threshold_does_not_retrigger
      && ejected_backend_is_not_eligible_during_cooldown
      && ejected_backend_becomes_trial_ready_after_cooldown && promotion_clears_cooldown
    ≡ true
unfolding new is_eligible trial_ready arm_cooldown record_success record_failure mark_unhealthy
    Upstream.now_ms split from_secs
tests_pass = refl
