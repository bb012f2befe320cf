-- ===== src/Tests/Threads.antt =====
-- Calls that interleave.
use palisade.Prelude.{◌≡◌, ◌≤◌, ◌%◌, ◌^◌, refl, true, false, some, [], ◌∷◌, arith}
use palisade.Prelude.Int.{pos}
use palisade.Duration.{saturating_add_u32}
use palisade.Upstream
use palisade.Upstream.{UpstreamState, arm_cooldown, record_success, record_failure}
use palisade.Upstream.Threads.{
  Task, arming, failing, failed, succeeding, succeeded, alone, ejections, recoveries, ejecting,
  counting_failure,
}
use palisade.Upstream.Threads.Reports.{Threads-reports}
use palisade.Upstream.Threads.Armed.{least_end, Threads-armed}
use palisade.Balancer
use palisade.Balancer.{start, visit, next}
use palisade.Balancer.Threads.{Caller, at_backend, returned, advance, settled}
use palisade.Balancer.Threads.Sums.{words}
use palisade.Balancer.Threads.Calls.{pendings}
use palisade.Balancer.Threads.Conserved.{Threads-words}
use palisade.Balancer.Threads.Alone.{index, found, alone-next}
use palisade.Balancer.Threads
use palisade.Tests.World.{http}
use palisade.Tests.Upstreams.{fresh}
use palisade.Tests.Turns.{pair, balancer}

-- Two failures race for one ejection.
abbrev ended : UpstreamState http
ended = record fresh { consecutive_failures = 2; healthy = false; cooldown_until_ms = 5000 }

raced : Upstream.Threads.Threads 1 1 fresh 1 0 (failed true ∷ failed false ∷ []) ended
unfolding Upstream.Threads.advance saturating_add_u32 arm_cooldown Upstream.now_ms
raced = Upstream.Threads.moved [] (failed false ∷ []) arming 7 (
    Upstream.Threads.moved (arming ∷ []) [] ejecting 6 (
      Upstream.Threads.moved [] (ejecting ∷ []) ejecting 5 (
        Upstream.Threads.moved (ejecting ∷ []) [] counting_failure 4 (
          Upstream.Threads.moved [] (counting_failure ∷ []) counting_failure 3 (
            Upstream.Threads.moved (counting_failure ∷ []) [] failing 2 (
              Upstream.Threads.moved [] (failing ∷ []) failing 1 (
                Upstream.Threads.failure_called
                  (Upstream.Threads.failure_called Upstream.Threads.quiet))))))))

Threads-reports_example :
    (ejections (failed true ∷ failed false ∷ []) ≡ 1)
    × (0 ≤ recoveries (failed true ∷ failed false ∷ []))
Threads-reports_example = Threads-reports 1 1 raced

Threads-armed_example : least_end fresh ≤ ended.cooldown_until_ms
Threads-armed_example = Threads-armed 1 1 refl raced refl refl

-- One call has returned while another is between the two backends.
abbrev waiting : Caller
waiting = at_backend 1 (record { total = pos 2; best = some 0; best_weight = pos 4 })

abbrev first_done : Caller
first_done = at_backend 2 (record { total = pos 3; best = some 0; best_weight = pos 2 })

crossed :
    Balancer.Threads.Threads (2 ∷ 1 ∷ []) (returned (some 0) ∷ waiting ∷ []) (pos 1 ∷ pos 1 ∷ [])
unfolding advance
crossed = Balancer.Threads.moved [] (waiting ∷ []) first_done true (
    Balancer.Threads.moved [] (waiting ∷ [])
      (at_backend 1 (record { total = pos 2; best = some 0; best_weight = pos 2 })) true
      (Balancer.Threads.moved
        (at_backend 1 (record { total = pos 2; best = some 0; best_weight = pos 2 }) ∷ []) []
        (at_backend 0 start) true
        (Balancer.Threads.moved [] (at_backend 0 start ∷ []) (at_backend 0 start) true
          (Balancer.Threads.called (Balancer.Threads.called Balancer.Threads.quiet)))))

Threads-words_example :
    words (pos 1 ∷ pos 1 ∷ []) % 2 ^ 64 ≡ pendings (returned (some 0) ∷ waiting ∷ []) % 2 ^ 64
Threads-words_example = Threads-words (2 ∷ 1 ∷ []) (omega arith) crossed

alone-next_example :
    Balancer.Threads.Alone.alone
      (2 ∷ 1 ∷ [])
      (found 0 pair)
      (at_backend 0 start)
      (pos 0 ∷ pos 0 ∷ [])
    ≡ (returned (index (next 0 balancer).1), (next 0 balancer).0.current_weights)
alone-next_example = alone-next 0 balancer refl
