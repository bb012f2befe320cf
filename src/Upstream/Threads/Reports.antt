-- ===== src/Upstream/Threads/Reports.antt =====
-- Which calls report an ejection or a recovery, when calls interleave.
use palisade.Prelude.{ℕ, ◌+◌, ◌≡◌, ◌≤◌, refl, List, [], ◌∷◌, ◌++◌, arith, Bool-cases, inl, inr, leb}
use palisade.Duration.{saturating_add_u32}
use palisade.Http.{Http}
use palisade.Upstream.{UpstreamState, arm_cooldown, record_success, record_failure}
use palisade.Upstream.Threads.{
  Task, failing, counting_failure, ejecting, arming, failed, succeeding, checking, settling,
  counting_success, clearing, releasing, promoting, succeeded, routing, routed, advance, alone,
  falls, rises, Threads, quiet, failure_called, success_called, trial_called, moved, ejections,
  recoveries,
}

ejections-middle :
    (before after : List Task) (t : Task)
    → ejections (before ++ t ∷ after) ≡ ejections (t ∷ []) + ejections (before ++ after)
ejections-middle [] after t = ground arith
ejections-middle (b ∷ before) after t = ground (arith, ejections-middle before after t)

recoveries-middle :
    (before after : List Task) (t : Task)
    → recoveries (before ++ t ∷ after) ≡ recoveries (t ∷ []) + recoveries (before ++ after)
recoveries-middle [] after t = ground arith
recoveries-middle (b ∷ before) after t = ground (arith, recoveries-middle before after t)

module _ {h : Http} (failures successes : ℕ) where
  advance-reports :
      (now : ℕ) (t : Task) (s : UpstreamState h)
      → let (t', s') = advance failures successes now t s in
        (ejections (t' ∷ []) ≡ ejections (t ∷ []) + falls s s')
        × (recoveries (t ∷ []) + rises s s' ≤ recoveries (t' ∷ []))
  unfolding advance arm_cooldown
  advance-reports now failing s = ground arith
  advance-reports now counting_failure s = ground arith
  advance-reports now ejecting s = ground arith
  advance-reports now arming s = ground arith
  advance-reports now (failed r) s = ground arith
  advance-reports now succeeding s = ground arith
  advance-reports now checking s = ground arith
  advance-reports now settling s = ground arith
  advance-reports now counting_success s = ground arith
  advance-reports now clearing s = ground arith
  advance-reports now releasing s = ground arith
  advance-reports now promoting s = ground arith
  advance-reports now (succeeded r) s = ground arith
  advance-reports now routing s = ground arith
  advance-reports now routed s = ground arith

  -- However the atomic steps of concurrent calls interleave, at whatever times: the flag of a backend
  -- has gone from healthy to unhealthy exactly as often as a call has won the swap that makes it report
  -- an ejection, so that every ejection is reported once; and it has gone back to healthy at most as
  -- often as a call has reported a recovery.
  pub Threads-reports :
      {s0 s : UpstreamState h} {down up : ℕ} {ts : List Task}
      → Threads failures successes s0 down up ts s
      → (ejections ts ≡ down) × (up ≤ recoveries ts)
  Threads-reports quiet = (refl, omega arith)
  Threads-reports (failure_called r) = Threads-reports r
  Threads-reports (success_called r) = Threads-reports r
  Threads-reports (trial_called r) = Threads-reports r
  Threads-reports (moved {s = s} before after t now r) =
      let (e, f) = Threads-reports r in
      let (p, q) = advance-reports now t s in
      let t' = (advance failures successes now t s).0 in
      (
        omega (arith, e, p, ejections-middle before after t, ejections-middle before after t'),
        omega (arith, f, q, recoveries-middle before after t, recoveries-middle before after t'),
      )

  alone-failure :
      (now : ℕ) (s : UpstreamState h)
      → alone failures successes 6 now failing s
        ≡ (failed (record_failure now failures s).1, (record_failure now failures s).0)
  unfolding alone advance arm_cooldown record_failure
  alone-failure now s =
      elim (Bool-cases (leb failures (saturating_add_u32 s.consecutive_failures 1))) [
        | inl e ↦ elim (Bool-cases s.healthy) [ inl q ↦ rw (e, q) refl | inr q ↦ rw (e, q) refl ]
        | inr e ↦ rw e refl
      ]

  alone-success :
      (now : ℕ) (s : UpstreamState h)
      → alone failures successes 6 now succeeding s
        ≡ (succeeded (record_success successes s).1, (record_success successes s).0)
  unfolding alone advance record_success
  alone-success now s = elim (Bool-cases s.healthy) [
    | inl q ↦ rw q refl
    | inr q ↦ elim (Bool-cases (leb successes (saturating_add_u32 s.consecutive_successes 1))) [
      | inl e ↦ rw (q, e) refl
      | inr e ↦ rw (q, e) refl
    ]
  ]

  -- A call that no other thread interrupts is the method: after at most six steps it has returned the
  -- method's report and left the method's state.
  pub alone-methods :
      (now : ℕ) (s : UpstreamState h)
      → let (f, ejected) = record_failure now failures s in
        let (r, recovered) = record_success successes s in
        (alone failures successes 6 now failing s ≡ (failed ejected, f))
        × (alone failures successes 6 now succeeding s ≡ (succeeded recovered, r))
  alone-methods now s = (alone-failure now s, alone-success now s)
