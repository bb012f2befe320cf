-- ===== src/Upstream/Threads.antt =====
-- `record_success` and `record_failure` of src/upstream.rs in several threads: every access to an
-- atomic is a step of its own, and the steps of different calls interleave in any order.
pub mod Reports
pub mod Armed
use palisade.Prelude.{
  ℕ, zero, suc, ◌+◌, Bool, true, false, ◌&&◌, not, List, [], ◌∷◌, ◌++◌, leb, if◌then◌else◌,
}
use palisade.Duration.{saturating_add_u32}
use palisade.Http.{Http}
use palisade.Upstream.{UpstreamState, fetch_add_u32, arm_cooldown}

-- Where a call stands: each state names the access that comes next, or the result.
pub data Task : Type 0 where
  failing counting_failure ejecting arming : Task
  failed : Bool → Task
  succeeding checking settling counting_success clearing releasing promoting : Task
  succeeded : Bool → Task
  routing routed : Task

-- The calls that have taken the flag down, and those that have reported a recovery.
abbrev pub ejections : List Task → ℕ
ejections [] = 0
ejections (arming ∷ ts) = suc (ejections ts)
ejections (failed true ∷ ts) = suc (ejections ts)
ejections (_ ∷ ts) = ejections ts

abbrev pub recoveries : List Task → ℕ
recoveries [] = 0
recoveries (succeeded true ∷ ts) = suc (recoveries ts)
recoveries (_ ∷ ts) = recoveries ts

module _ {h : Http} where
  -- A change of the health flag that a step makes visible.
  abbrev pub falls : UpstreamState h → UpstreamState h → ℕ
  falls s s' = if s.healthy && not s'.healthy then 1 else 0

  abbrev pub rises : UpstreamState h → UpstreamState h → ℕ
  rises s s' = if not s.healthy && s'.healthy then 1 else 0

module _ {h : Http} (failures successes : ℕ) where
  -- The next atomic step of a call; `arm_cooldown` stores one atomic.
  unfoldable pub advance : ℕ → Task → UpstreamState h → Task × UpstreamState h
  unfolding fetch_add_u32 saturating_add_u32 arm_cooldown
  advance now failing s = (counting_failure, record s { consecutive_successes = 0 })
  advance now counting_failure s = (
    (if leb failures (saturating_add_u32 s.consecutive_failures 1) then ejecting else failed false),
    record s { consecutive_failures = fetch_add_u32 s.consecutive_failures },
  )
  advance now ejecting s =
      ((if s.healthy then arming else failed false), record s { healthy = false })
  advance now arming s = (failed true, arm_cooldown now s)
  advance now (failed r) s = (failed r, s)
  advance now succeeding s = (checking, record s { consecutive_failures = 0 })
  advance now checking s = ((if s.healthy then settling else counting_success), s)
  advance now settling s = (succeeded false, record s { consecutive_successes = 0 })
  advance now counting_success s = (
    (if leb successes (saturating_add_u32 s.consecutive_successes 1)
        then clearing
        else succeeded false),
    record s { consecutive_successes = fetch_add_u32 s.consecutive_successes },
  )
  advance now clearing s = (releasing, record s { consecutive_successes = 0 })
  advance now releasing s = (promoting, record s { cooldown_until_ms = 0 })
  advance now promoting s = (succeeded true, record s { healthy = true })
  advance now (succeeded r) s = (succeeded r, s)
  advance now routing s = (routed, arm_cooldown now s)
  advance now routed s = (routed, s)

  -- Steps of one call that no other thread interrupts.
  unfoldable pub alone : ℕ → ℕ → Task → UpstreamState h → Task × UpstreamState h
  unfolding advance
  alone zero now t s = (t, s)
  alone (suc n) now t s = let (t', s') = advance now t s in alone n now t' s'

  -- What threads reach from a backend `s0`: how often its flag has gone down and up, the calls so far,
  -- and the backend.
  pub data Threads (s0 : UpstreamState h) : ℕ → ℕ → List Task → UpstreamState h → Type 0 where
    quiet : Threads s0 0 0 [] s0
    failure_called :
        {down up : ℕ} {ts : List Task} {s : UpstreamState h}
        → Threads s0 down up ts s
        → Threads s0 down up (failing ∷ ts) s
    success_called :
        {down up : ℕ} {ts : List Task} {s : UpstreamState h}
        → Threads s0 down up ts s
        → Threads s0 down up (succeeding ∷ ts) s
    trial_called :
        {down up : ℕ} {ts : List Task} {s : UpstreamState h}
        → Threads s0 down up ts s
        → Threads s0 down up (routing ∷ ts) s
    moved :
        {down up : ℕ} {s : UpstreamState h} (before after : List Task) (t : Task) (now : ℕ)
        → Threads s0 down up (before ++ t ∷ after) s
        → Threads s0
            (down + falls s (advance now t s).1)
            (up + rises s (advance now t s).1)
            (before ++ (advance now t s).0 ∷ after)
            (advance now t s).1
