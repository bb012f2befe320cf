-- ===== src/Upstream/Threads/Armed.antt =====
-- That an ejected backend has its cooldown armed, when calls interleave.
use palisade.Prelude.{
  ℕ, suc, ◌+◌, ◌<◌, ◌≤◌, ◌≡◌, refl, ap, ◌∙◌, sym, true, false, List, [], ◌∷◌, ◌++◌, arith, min, ◌⊎◌,
  inl, inr,
}
use palisade.Duration.{u64_max, saturating_add_u64}
use palisade.Http.{Http}
use palisade.Upstream.{UpstreamState, arm_cooldown}
use palisade.Upstream.Threads.{
  Task, failing, counting_failure, ejecting, arming, failed, succeeding, checking, settling,
  counting_success, clearing, releasing, promoting, succeeded, routing, routed, advance, Threads,
  quiet, failure_called, success_called, trial_called, moved,
}

-- The calls that are about to arm the cooldown after an ejection, or to promote the backend.
abbrev pub pending : List Task → ℕ
pending [] = 0
pending (arming ∷ ts) = suc (pending ts)
pending (promoting ∷ ts) = suc (pending ts)
pending (_ ∷ ts) = pending ts

pending-middle :
    (before after : List Task) (t : Task)
    → pending (before ++ t ∷ after) ≡ pending (t ∷ []) + pending (before ++ after)
pending-middle [] after t = ground arith
pending-middle (b ∷ before) after t = ground (arith, pending-middle before after t)

module _ {h : Http} where
  -- The least time at which a cooldown that is armed ends.
  abbrev pub least_end : UpstreamState h → ℕ
  least_end s = min s.cooldown_ms u64_max

module _ {h : Http} (failures successes : ℕ) where
  -- The backend is healthy, or its cooldown is armed, or one of `n` calls is about to make it so.
  abbrev IsArmed : ℕ → ℕ → UpstreamState h → Type 0
  IsArmed least n s = (s.healthy ≡ true) ⊎ ((least ≤ s.cooldown_until_ms) ⊎ (0 < n))

  least-arm_cooldown :
      (now : ℕ) (s : UpstreamState h) → least_end s ≤ (arm_cooldown now s).cooldown_until_ms
  unfolding arm_cooldown saturating_add_u64
  least-arm_cooldown now s = omega arith

  cooldown_ms-advance :
      (now : ℕ) (t : Task) (s : UpstreamState h)
      → (advance failures successes now t s).1.cooldown_ms ≡ s.cooldown_ms
  unfolding advance arm_cooldown
  cooldown_ms-advance now t s =
      elim t as (λ k. (advance failures successes now k s).1.cooldown_ms ≡ s.cooldown_ms) [
        | failing ↦ refl
        | counting_failure ↦ refl
        | ejecting ↦ refl
        | arming ↦ refl
        | failed r ↦ refl
        | succeeding ↦ refl
        | checking ↦ refl
        | settling ↦ refl
        | counting_success ↦ refl
        | clearing ↦ refl
        | releasing ↦ refl
        | promoting ↦ refl
        | succeeded r ↦ refl
        | routing ↦ refl
        | routed ↦ refl
      ]

  advance-IsArmed :
      (least n now : ℕ) (t : Task) (s : UpstreamState h)
      → least ≡ least_end s
      → IsArmed least (pending (t ∷ []) + n) s
      → let (t', s') = advance failures successes now t s in
        IsArmed least (pending (t' ∷ []) + n) s'
  unfolding advance arm_cooldown
  advance-IsArmed least n now failing s e v = v
  advance-IsArmed least n now counting_failure s e v = ground arith
  advance-IsArmed least n now ejecting s e v = ground arith
  advance-IsArmed least n now arming s e v = inr (inl (rw e (least-arm_cooldown now s)))
  advance-IsArmed least n now (failed r) s e v = ground arith
  advance-IsArmed least n now succeeding s e v = ground arith
  advance-IsArmed least n now checking s e v = ground arith
  advance-IsArmed least n now settling s e v = ground arith
  advance-IsArmed least n now counting_success s e v = ground arith
  advance-IsArmed least n now clearing s e v = ground arith
  advance-IsArmed least n now releasing s e v = inr (inr (omega arith))
  advance-IsArmed least n now promoting s e v = inl refl
  advance-IsArmed least n now (succeeded r) s e v = ground arith
  advance-IsArmed least n now routing s e v = inr (inl (rw e (least-arm_cooldown now s)))
  advance-IsArmed least n now routed s e v = ground arith

  Threads-IsArmed :
      {s0 s : UpstreamState h} {down up : ℕ} {ts : List Task}
      → s0.healthy ≡ true
      → Threads failures successes s0 down up ts s
      → (s.cooldown_ms ≡ s0.cooldown_ms) × IsArmed (least_end s0) (pending ts) s
  Threads-IsArmed {s0 = s0} g quiet = (refl, inl g)
  Threads-IsArmed g (failure_called r) = Threads-IsArmed g r
  Threads-IsArmed g (success_called r) = Threads-IsArmed g r
  Threads-IsArmed g (trial_called r) = Threads-IsArmed g r
  Threads-IsArmed {s0 = s0} g (moved {s = s} before after t now r) =
      let (e, v) = Threads-IsArmed g r in
      let t' = (advance failures successes now t s).0 in
      (
        cooldown_ms-advance now t s ∙ e,
        rw (pending-middle before after t') (
            advance-IsArmed (least_end s0) (pending (before ++ after)) now t s
              (ap (λ c. min c u64_max) (sym e)) (rw (pending-middle before after t) at v)),
      )

  -- However the atomic steps of concurrent calls interleave, from a healthy backend on: unless a call
  -- is about to arm the cooldown after an ejection or to promote the backend, an unhealthy backend has
  -- its cooldown armed, to the time that an arming at the creation of the backend gives it or later.
  pub Threads-armed :
      {s0 s : UpstreamState h} {down up : ℕ} {ts : List Task}
      → s0.healthy ≡ true
      → Threads failures successes s0 down up ts s
      → pending ts ≡ 0
      → s.healthy ≡ false
      → least_end s0 ≤ s.cooldown_until_ms
  Threads-armed g r z e = elim (Threads-IsArmed g r).1 [
    | inl q ↦ (let y = sym q ∙ e in cc)
    | inr (inl b) ↦ b
    | inr (inr m) ↦ absurd (omega (arith, m, z))
  ]
