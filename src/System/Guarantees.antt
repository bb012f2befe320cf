-- ===== src/System/Guarantees.antt =====
-- What the server promises in every state that it reaches, whatever the order of requests, probes and
-- cleanups.
use mathlib.Core.Option.{some-injective}
use palisade.Prelude.{
  ℕ, zero, suc, ◌+◌, ◌≡◌, ◌≢◌, ◌↔◌, refl, ap, sym, ◌∙◌, true, false, none, some, List, [], ◌∷◌,
  length, get_elem?, ok, err, is_ok, ok_or, Option-cases, inl, inr, arith, not_err, map_err-not_err,
  ok_or-not_err, ◌*◌,
}
use palisade.Prelude.Int.{ℤ}
use palisade.Text.{Str, any}
use palisade.Http.{Http}
use palisade.Error.{no_healthy_upstream}
use palisade.Semaphore.{Semaphores, SemaphoreLaws}
use palisade.Metrics.{Prometheus}
use palisade.Upstream.{UpstreamState, is_eligible}
use palisade.Upstream.Health.{IsValid}
use palisade.Balancer
use palisade.Balancer.{LoadBalancer}
use palisade.Prelude.{Except-cases}
use palisade.Balancer.Spec.{Entry}
use palisade.Balancer.Refines.{entries, weights}
use palisade.Balancer.Winner.{IsHighest, next-IsHighest}
use palisade.Balancer.Fairness.{HasRoom}
use palisade.Balancer.History.{History-succeeds, History-IsSound, IsSound-Fits}
use palisade.Proxy.Crates.{Crates}
use palisade.Proxy.Screen.{Request, Runtime}
use palisade.Proxy.Forward.{prepare, rewrite_uri}
use palisade.Proxy.Pipeline.{Shared, Flight, Peer, target, dispatch, begin_request}
use palisade.Proxy.Effects.{verdict, begin_request-passed, begin_request-sent}
use palisade.Server.Service.{ServerState, InFlight}
use palisade.System.{Run}
use palisade.System.Pool.{AllValid}
use palisade.System.Sound.{IsSound, Run-IsSound}

AllValid-at :
    {h : Http} (failures successes i : ℕ) (bs : List (UpstreamState h)) (b : UpstreamState h)
    → AllValid failures successes bs
    → get_elem? bs i ≡ some b
    → IsValid failures successes b
AllValid-at failures successes i [] b v g = cc
AllValid-at failures successes zero (x ∷ bs) b v g = rw (← some-injective _ _ g) v.0
AllValid-at failures successes (suc i) (x ∷ bs) b v g = AllValid-at failures successes i bs b v.1 g

-- An eligible entry stands for an eligible backend.
entries-at :
    {h : Http} (now i : ℕ) (bs : List (UpstreamState h)) (cs : List ℤ) (e : Entry)
    → get_elem? (entries now bs cs) i ≡ some e
    → e.ready ≡ true
    → (b : UpstreamState h) × (get_elem? bs i ≡ some b) × (is_eligible now b ≡ true)
entries-at now i [] cs e g r = cc
entries-at now i (b ∷ bs) [] e g r = cc
entries-at now zero (b ∷ bs) (c ∷ cs) e g r =
    (b, refl, ap (λ (x : Entry). x.ready) (some-injective _ _ g) ∙ r)
entries-at now (suc i) (b ∷ bs) (c ∷ cs) e g r = entries-at now i bs cs e g r

-- The only failure of the balancer.
next-failed :
    {h : Http} (now : ℕ) (lb : LoadBalancer h)
    → is_ok (Balancer.next now lb).1 ≡ false
    → (Balancer.next now lb).1 ≡ err no_healthy_upstream
unfolding Balancer.next Balancer.select
next-failed now lb e = selected (Balancer.scan now 0 lb.pool lb.current_weights Balancer.start) e
  where
    selected :
        (r : List ℤ × Balancer.Scan)
        → is_ok (Balancer.select now lb r).1 ≡ false
        → (Balancer.select now lb r).1 ≡ err no_healthy_upstream
    selected (cs, s) e = elim (Option-cases s.best) [
      | inl q ↦ rw (q, Balancer.select) refl
      | inr (i, q) ↦ (let e' = rw (q, Balancer.select) at e in cc)
    ]

module _ (c : Crates) {B : Type 0} (config : Runtime c) (req : Request c B) (peer : Peer c) where
  -- Only the balancer reports that no backend is healthy.
  prepare-not_unavailable :
      (u : c.http.Uri) → prepare c config req u peer.addr peer.tls ≢ err no_healthy_upstream
  unfolding prepare rewrite_uri
  prepare-not_unavailable u =
      not_err (rewrite_uri c req.uri u) _ _
        (not_err (ok_or _ (c.http.authority u)) _ _ (ok_or-not_err _ _ _ (λ q. cc)) (λ a q.
          not_err (ok_or _ (c.http.scheme u)) _ _ (ok_or-not_err _ _ _ (λ q. cc))
            (λ s q. map_err-not_err _ _ _ (λ y q. cc))))
        (λ uri q.
          not_err (ok_or _ (c.http.authority u)) _ _ (ok_or-not_err _ _ _ (λ q. cc)) (λ a q z. cc))

  target-not_unavailable :
      (pool : List (UpstreamState c.http)) (i : ℕ)
      → target c config req peer pool i ≢ err no_healthy_upstream
  unfolding target
  target-not_unavailable pool i = elim (Option-cases (get_elem? pool i)) [
    | inl q ↦ rw (q, target) (λ z. cc)
    | inr (b, q) ↦ rw (q, target) (prepare-not_unavailable b.uri)
  ]

  dispatch-unavailable :
      (now seq : ℕ) (id : Str) (s : Shared c)
      → ((dispatch c config req peer now seq id s).1 ≡ err no_healthy_upstream)
        ↔ (is_ok (Balancer.next now s.balancer).1 ≡ false)
  unfolding dispatch
  dispatch-unavailable now seq id s = elim (Except-cases (Balancer.next now s.balancer).1) [
    | inl (i, q) ↦ (
      λ e. absurd (
          not_err (Balancer.next now s.balancer).1 _ no_healthy_upstream
            (λ z. (let z' = sym q ∙ z in cc))
            (λ i q.
              not_err (target c config req peer (Balancer.next now s.balancer).0.pool i) _ _
                (target-not_unavailable _ i) (λ r q z. cc))
            e),
      λ e. (let e' = ap is_ok (sym q) ∙ e in cc),
    )
    | inr (x, q) ↦ (λ e. ap is_ok q, λ e. rw (next-failed now s.balancer e) refl)
  ]

module _ (c : Crates) (s : Semaphores) (k : SemaphoreLaws s) (p : Prometheus)
    (json : Str → Str → Str) {B : Type 0} (bs : List (UpstreamState c.http))
    {st0 : ServerState c s p json} (start : IsSound c s k p json B bs [] st0)
    {fs : List (InFlight c s p json B)} {st : ServerState c s p json}
    (r : Run c s p json B st0 fs st) where
  -- In every state that the server reaches, dropped requests included, the free permits and the
  -- requests in flight add up to the concurrency limit, and the next request finds no permit exactly
  -- if as many requests are in flight as the limit allows.
  pub Run-available_permits :
      (s.available_permits st.semaphore + length fs ≡ st.concurrency_limit)
      × ((s.try_acquire st.semaphore ≡ none) ↔ (length fs ≡ st.concurrency_limit))
  Run-available_permits =
      let v = Run-IsSound c s k p json bs start r in
      elim (Option-cases (s.try_acquire st.semaphore)) [
        | inl e ↦
            (v.permits, (λ q. omega (arith, v.permits, k.try_acquire-none st.semaphore e), λ q. e))
        | inr (t, e) ↦ (
          v.permits,
          (
            λ q. (let e' = sym e ∙ q in cc),
            λ q. absurd (omega (arith, v.permits, k.try_acquire-some st.semaphore t e)),
          ),
        )
      ]

  -- In every state of a run, each method of a backend running as one step, every backend has the health
  -- invariant for the configured thresholds. Calls that interleave can leave a healthy backend with its
  -- cooldown armed; Upstream/Threads/Armed.antt has what holds then.
  pub Run-IsValid :
      (i : ℕ) (b : UpstreamState c.http)
      → get_elem? st.shared.balancer.pool i ≡ some b
      → IsValid st.config.failure_threshold st.config.healthy_threshold b
  Run-IsValid i b g =
      AllValid-at _ _ i st.shared.balancer.pool b (Run-IsSound c s k p json bs start r).tended.valid
        g

  module _ (room : HasRoom bs) (req : Request c B) (peer : Peer c) (now : ℕ) where
    -- In every state that the server reaches, each call of `next` running as one step: if n * t + 2 * t
    -- is below 2 ^ 63 for the number n and the sum t of the weights of the configured backends, then a
    -- request that is sent goes to a backend that is eligible at that time, and whose running weight,
    -- its own weight added, is the highest of the eligible ones.
    pub Run-is_eligible :
        (f : Flight c B)
        → (begin_request c st.config req peer now st.shared).1 ≡ ok f
        → (b : UpstreamState c.http) × (get_elem? st.shared.balancer.pool f.backend ≡ some b)
          × (is_eligible now b ≡ true)
          × IsHighest
              (entries now st.shared.balancer.pool st.shared.balancer.current_weights)
              f.backend
    Run-is_eligible f e =
        let v = Run-IsSound c s k p json bs start r in
        let fits =
          IsSound-Fits bs room st.shared.balancer (History-IsSound bs room v.tended.history) in
        let w =
          next-IsHighest now (length bs * weights bs) st.shared.balancer fits f.backend
            (begin_request-sent c st.config req peer now st.shared f e).2 in
        let (b, g, q) =
          entries-at now f.backend st.shared.balancer.pool st.shared.balancer.current_weights
            w.entry w.at w.ready in
        (b, g, q, w)

    -- In every state that the server reaches, each call of `next` running as one step: if n * t + 2 * t
    -- is below 2 ^ 63 for the number n and the sum t of the weights of the configured backends, then a
    -- request that the limiter and the checks pass fails with `NoHealthyUpstream` exactly if no backend
    -- is eligible at that time.
    pub Run-unavailable :
        verdict c st.config req peer now st.shared ≡ ok tt
        → ((begin_request c st.config req peer now st.shared).1 ≡ err no_healthy_upstream)
          ↔ (any (is_eligible now) st.shared.balancer.pool ≡ false)
    Run-unavailable e =
        let v = Run-IsSound c s k p json bs start r in
        rw
          (
            begin_request-passed c st.config req peer now st.shared e,
            ← History-succeeds bs room v.tended.history now,
          )
          (dispatch-unavailable c st.config req peer now _ _ _)
