-- ===== src/System/Ticks.antt =====
-- A tick of the health checker as steps of the server.
use mathlib.Core.Option.{some-injective}
use palisade.Http.{Http}
use palisade.Duration.{u32_max, saturating_add_u32}
use palisade.Prelude.{
  Bool, true, false, ◌&&◌, ◌||◌, not, leb, ltb, min, ◌+◌, if◌then◌else◌, Bool-cases, arith, zero,
  some, get_elem?, ℕ, suc, ◌≡◌, refl, sym, ap, ◌∙◌, List, [], ◌∷◌, ◌++◌, length, ok, err,
  Except-cases, inl, inr, modify-middle, snoc, length-snoc,
}
use palisade.Text.{Str}
use palisade.Upstream.{UpstreamState, record_success, record_failure, arm_cooldown}
use palisade.Semaphore.{Semaphores}
use palisade.Metrics.{Prometheus}
use palisade.Proxy.Crates.{Crates}
use palisade.Server.Service.{ServerState, InFlight}
use palisade.Server.Tasks.{Probe, answered, failed, timed_out, probed, probe_text, health_tick}
use palisade.System.{after_probe, Run, probed_at}

-- An answer with a status from 200 to 299.
abbrev pub is_good : Probe → Bool
is_good (answered status) = leb 200 status && leb status 299
is_good failed = false
is_good timed_out = false

same_range : (status : ℕ) → (leb 200 status && ltb status 300) ≡ (leb 200 status && leb status 299)
same_range status = ground arith

module _ {h : Http} where
  -- What a probe leaves of a backend: a good answer ends its row of failures and promotes it if its row
  -- of successes is long enough, and any other outcome ends its row of successes and ejects it if
  -- its row of failures is.
  pub record IsProbed (ft ht : ℕ) (good : Bool) (b b' : UpstreamState h) : Type 0 where
    pub uri : b'.uri ≡ b.uri
    pub weight : b'.weight ≡ b.weight
    pub row : (if good then b'.consecutive_failures else b'.consecutive_successes) ≡ 0
    pub healthy : b'.healthy ≡ (
        if good
        then b.healthy || leb ht (min (b.consecutive_successes + 1) u32_max)
        else b.healthy && not (leb ft (min (b.consecutive_failures + 1) u32_max)))

  record_success-IsProbed :
      (ft ht : ℕ) (b : UpstreamState h) → IsProbed ft ht true b (record_success ht b).0
  unfolding record_success saturating_add_u32
  record_success-IsProbed ft ht b = record {
    uri = ground arith;
    weight = ground arith;
    row = ground arith;
    healthy = ground arith;
  }

  record_failure-IsProbed :
      (ft ht now : ℕ) (b : UpstreamState h) → IsProbed ft ht false b (record_failure now ft b).0
  unfolding record_failure saturating_add_u32 arm_cooldown
  record_failure-IsProbed ft ht now b = record {
    uri = ground arith;
    weight = ground arith;
    row = ground arith;
    healthy = ground arith;
  }

  probed-IsProbed :
      (ft ht now : ℕ) (p : Probe) (b : UpstreamState h)
      → IsProbed ft ht (is_good p) b (probed h ft ht now p b)
  unfolding probed
  probed-IsProbed ft ht now (answered status) b =
      elim (Bool-cases (leb 200 status && leb status 299)) [
        | inl q ↦ rw (q, same_range status ∙ q, probed) (record_success-IsProbed ft ht b)
        | inr q ↦ rw (q, same_range status ∙ q, probed) (record_failure-IsProbed ft ht now b)
      ]
  probed-IsProbed ft ht now failed b = record_failure-IsProbed ft ht now b
  probed-IsProbed ft ht now timed_out b = record_failure-IsProbed ft ht now b

  health_tick-at :
      (ft ht i : ℕ) (path : Str) (get : h.Uri → Probe × ℕ) (pool : List (UpstreamState h))
      (b : UpstreamState h) (uri : h.Uri)
      → get_elem? pool i ≡ some b
      → h.parse_uri (probe_text h path b.uri) ≡ ok uri
      → (b' : UpstreamState h) × (get_elem? (health_tick h ft ht path get pool) i ≡ some b')
        × IsProbed ft ht (is_good (get uri).0) b b'
  unfolding health_tick
  health_tick-at ft ht i path get [] b uri g q = cc
  health_tick-at ft ht zero path get (x ∷ pool) b uri g q =
      let same = some-injective _ _ g in
      let parsed : h.parse_uri (probe_text h path x.uri) ≡ ok uri = rw same q in
      (
        probed h ft ht (get uri).1 (get uri).0 b,
        rw (parsed, health_tick) (ap (λ y. some (probed h ft ht (get uri).1 (get uri).0 y)) same),
        probed-IsProbed ft ht (get uri).1 (get uri).0 b,
      )
  health_tick-at ft ht (suc i) path get (x ∷ pool) b uri g q =
      health_tick-at ft ht i path get pool b uri g q

module _ (c : Crates) (s : Semaphores) (p : Prometheus) (json : Str → Str → Str) where
  -- The probes of one tick from an index on, each as a step of its own.
  unfoldable pub probe_from :
      ℕ
      → Str
      → (c.http.Uri → Probe × ℕ)
      → List (UpstreamState c.http)
      → ServerState c s p json
      → ServerState c s p json
  unfolding probe_text
  probe_from i path get [] st = st
  probe_from i path get (b ∷ bs) st =
      probe_from (suc i) path get bs (elim (c.http.parse_uri (probe_text c.http path b.uri)) [
        | err e ↦ st
        | ok uri ↦ after_probe c s p json i (get uri).0 (get uri).1 st
      ])

  module _ (path : Str) (get : c.http.Uri → Probe × ℕ) {B : Type 0} {st0 : ServerState c s p json}
      {fs : List (InFlight c s p json B)} where
    -- Probes from an index on leave the backends before it.
    probe_from-Run :
        (i : ℕ) (front bs : List (UpstreamState c.http)) (st : ServerState c s p json)
        → i ≡ length front
        → st.shared.balancer.pool ≡ front ++ bs
        → Run c s p json B st0 fs st
        → Run c s p json B st0 fs (probe_from i path get bs st)
          × ((probe_from i path get bs st).shared.balancer.pool
              ≡ front
                ++ health_tick c.http st.config.failure_threshold st.config.healthy_threshold path
                    get bs)
    unfolding probe_from health_tick
    probe_from-Run i front [] st n e r = (r, e)
    probe_from-Run i front (b ∷ bs) st n e r =
        elim (Except-cases (c.http.parse_uri (probe_text c.http path b.uri))) [
          | inl (uri, q) ↦
              (let b' =
                  probed c.http st.config.failure_threshold st.config.healthy_threshold (get uri).1
                    (get uri).0 b in
                let st' = after_probe c s p json i (get uri).0 (get uri).1 st in
                let e' : st'.shared.balancer.pool ≡ (front ++ b' ∷ []) ++ bs =
                  rw (e, n) (modify-middle _ front b bs) ∙ sym (snoc front b' bs) in
                let (r', g) =
                  probe_from-Run (suc i) (front ++ b' ∷ []) bs st'
                    (ap suc n ∙ sym (length-snoc front b')) e'
                    (probed_at i (get uri).0 (get uri).1 r) in
                rw (q, probe_from, health_tick) (r', g ∙ snoc front b' _))
          | inr (x, q) ↦
              (let (r', g) =
                  probe_from-Run (suc i) (front ++ b ∷ []) bs st
                    (ap suc n ∙ sym (length-snoc front b)) (e ∙ sym (snoc front b bs)) r in
                rw (q, probe_from, health_tick) (r', g ∙ snoc front b _))
        ]

    -- The steps of a tick leave the pool of `health_tick`.
    probe_from-health_tick :
        (st : ServerState c s p json)
        → Run c s p json B st0 fs st
        → let after = probe_from 0 path get st.shared.balancer.pool st in
          Run c s p json B st0 fs after
          × (after.shared.balancer.pool
              ≡ health_tick c.http st.config.failure_threshold st.config.healthy_threshold path get
                  st.shared.balancer.pool)
    probe_from-health_tick st r = probe_from-Run 0 [] st.shared.balancer.pool st refl refl r

    -- A tick of the health checker that nothing interrupts, from any state that the server reaches, is a
    -- run of the server. It leaves each backend whose probe address is a URI with its address and its
    -- weight, and: if its probe is answered with a status from 200 to 299, without counted failures, and
    -- healthy exactly if it was healthy or this success reaches the threshold of recovery; otherwise
    -- without counted successes, and healthy exactly if it was healthy and this failure does not reach
    -- the threshold of ejection.
    pub probe_from-IsProbed :
        (st : ServerState c s p json) (i : ℕ) (b : UpstreamState c.http) (uri : c.http.Uri)
        → Run c s p json B st0 fs st
        → get_elem? st.shared.balancer.pool i ≡ some b
        → c.http.parse_uri (probe_text c.http path b.uri) ≡ ok uri
        → let after = probe_from 0 path get st.shared.balancer.pool st in
          Run c s p json B st0 fs after
          × ((b' : UpstreamState c.http) × (get_elem? after.shared.balancer.pool i ≡ some b')
              × IsProbed st.config.failure_threshold st.config.healthy_threshold
                  (is_good (get uri).0)
                  b
                  b')
    probe_from-IsProbed st i b uri r g q =
        let (r', e) = probe_from-health_tick st r in
        let (b', at, v) = health_tick-at _ _ i path get st.shared.balancer.pool b uri g q in
        (r', (b', ap (λ pool. get_elem? pool i) e ∙ at, v))
