-- ===== src/System/Sound.antt =====
-- What holds in every state that the server reaches.
use mathlib.Core.Path.{subst}
use palisade.Balancer.{LoadBalancer}
use palisade.Prelude.{
  ℕ, ◌+◌, ◌<◌, ◌^◌, ◌≡◌, refl, sym, inl, inr, List, [], ◌∷◌, length, length-append, arith, Except,
  ok, err, Except-cases, Option-cases, Bool-cases, ◌-◌, ◌∙◌,
}
use palisade.Text.{Str}
use palisade.Error.{Result}
use palisade.Semaphore.{Semaphores, SemaphoreLaws}
use palisade.Metrics.{Prometheus}
use palisade.Upstream.{UpstreamState}
use palisade.Balancer.History.{History, called, tended}
use palisade.Proxy.Crates.{Crates}
use palisade.Proxy.Screen.{Request, Runtime}
use palisade.Proxy.Pipeline.{
  Shared, Flight, Outcome, responded, failed, elapsed, Peer, is_length_limit_error, on_backend,
  dispatch, begin_request, finish_request,
}
use palisade.Proxy.Effects.{verdict, begin_request-refused, begin_request-passed}
use palisade.Server.Service.{ServerState, InFlight, HttpResponse, answer, enter, leave}
use palisade.Server.Permits.{waiting, enter-permits, leave-permits}
use palisade.System.{joined, Run, started, entered, left, dropped, probed_at, cleaned}
use palisade.System.Pool.{
  AllValid, IsTending, modify-AllValid, uris_of, modify-uris, next-uris, modify-weights,
  record_success-IsTending, record_failure-IsTending, probed-IsTending, next-AllValid,
}

-- The thresholds are positive and fit a `u32`.
pub record HasThresholds (failures successes : ℕ) : Type 0 where
  pub failures_u32 : failures < 2 ^ 32
  pub successes_u32 : successes < 2 ^ 32
  pub ejects : 0 < failures
  pub recovers : 0 < successes

module _ (c : Crates) (config : Runtime c) (bs : List (UpstreamState c.http)) where
  -- The balancer has been called and tended since it was new over `bs`, every backend is valid, and
  -- has kept its address.
  pub record IsTended (lb : LoadBalancer c.http) : Type 0 where
    pub history : History bs lb
    pub valid : AllValid config.failure_threshold config.healthy_threshold lb.pool
    pub uris : uris_of lb.pool ≡ uris_of bs

  module _ (t : HasThresholds config.failure_threshold config.healthy_threshold) where
    abbrev Tending : (UpstreamState c.http → UpstreamState c.http) → Type 0
    Tending f = IsTending config.failure_threshold config.healthy_threshold f

    on_backend-IsTended :
        (i : ℕ) (f : UpstreamState c.http → UpstreamState c.http) (s : Shared c)
        → Tending f
        → IsTended s.balancer
        → IsTended (on_backend c i f s).balancer
    on_backend-IsTended i f s k v = record {
      history = tended _ (modify-weights _ _ f i s.balancer.pool k) v.history;
      valid = modify-AllValid _ _ f i s.balancer.pool k v.valid;
      uris = modify-uris _ _ f i s.balancer.pool k ∙ v.uris;
    }

    begin_request-IsTended :
        {B : Type 0} (req : Request c B) (peer : Peer c) (now : ℕ) (s : Shared c)
        → IsTended s.balancer
        → IsTended (begin_request c config req peer now s).0.balancer
    unfolding dispatch
    begin_request-IsTended req peer now s v =
        elim (Except-cases (verdict c config req peer now s)) [
          | inl (u, e) ↦ rw (begin_request-passed c config req peer now s e) (record {
            history = called now v.history;
            valid =
                next-AllValid _ _ t.failures_u32 t.successes_u32 t.ejects t.recovers now s.balancer
                  v.valid;
            uris =
                next-uris _ _ t.failures_u32 t.successes_u32 t.ejects t.recovers now s.balancer
                ∙ v.uris;
          })
          | inr (x, e) ↦
              subst IsTended (sym (begin_request-refused c config req peer now s x e).1) v
        ]

    finish_request-IsTended :
        {B : Type 0} (f : Flight c B) (now : ℕ) (o : Outcome c) (s : Shared c)
        → IsTended s.balancer
        → IsTended (finish_request c config f now o s).0.balancer
    unfolding finish_request
    finish_request-IsTended f now (responded resp) s v =
        on_backend-IsTended f.backend _ s
          (record_success-IsTending _ _ t.failures_u32 t.successes_u32 t.ejects t.recovers) v
    finish_request-IsTended f now (failed e) s v = elim (Bool-cases (is_length_limit_error e)) [
      | inl q ↦ rw (q, finish_request) v
      | inr q ↦
          rw (q, finish_request)
            (on_backend-IsTended f.backend _ s
              (record_failure-IsTending _ _ t.failures_u32 t.successes_u32 t.ejects t.recovers now)
              v)
    ]
    finish_request-IsTended f now elapsed s v =
        on_backend-IsTended f.backend _ s
          (record_failure-IsTending _ _ t.failures_u32 t.successes_u32 t.ejects t.recovers now) v

module _ (c : Crates) (s : Semaphores) (k : SemaphoreLaws s) (p : Prometheus)
    (json : Str → Str → Str) where
  abbrev State : Type 0
  State = ServerState c s p json

  answer-state :
      (r : Result (HttpResponse c s p json)) (latency : ℕ) (st : State)
      → ((answer c s p json r latency st).0.shared ≡ st.shared)
        × ((answer c s p json r latency st).0.config ≡ st.config)
  unfolding answer
  answer-state (ok resp) latency st = (refl, refl)
  answer-state (err e) latency st = (refl, refl)

  module _ {B : Type 0} (req : Request c B) (peer : Peer c) (now ended : ℕ) (st : State) where
    -- An entry leaves the shared state as it was, or as the beginning of the request leaves it.
    pub enter-shared :
        (P : Shared c → Type 0)
        → P st.shared
        → P (begin_request c st.config req peer now st.shared).0
        → P (enter c s p json req peer now ended st).0.shared
    unfolding enter
    enter-shared P before after = elim (Option-cases (s.try_acquire st.semaphore)) [
      | inl e ↦ rw (e, enter) before
      | inr (sem, e) ↦ elim (Except-cases (begin_request c st.config req peer now st.shared).1) [
        | inl (f, q) ↦ rw (e, q, enter) after
        | inr (x, q) ↦ rw (e, q, enter, (answer-state (err x) _ _).0) after
      ]
    ]

    pub enter-config : (enter c s p json req peer now ended st).0.config ≡ st.config
    unfolding enter
    enter-config = elim (Option-cases (s.try_acquire st.semaphore)) [
      | inl e ↦ rw (e, enter) refl
      | inr (sem, e) ↦ elim (Except-cases (begin_request c st.config req peer now st.shared).1) [
        | inl (f, q) ↦ rw (e, q, enter) refl
        | inr (x, q) ↦ rw (e, q, enter, (answer-state (err x) _ _).1) refl
      ]
    ]

  pub leave-state :
      {B : Type 0} (f : InFlight c s p json B) (o : Outcome c) (now : ℕ) (st : State)
      → ((leave c s p json f o now st).0.shared
          ≡ (finish_request c st.config f.flight now o st.shared).0)
        × ((leave c s p json f o now st).0.config ≡ st.config)
  unfolding leave
  leave-state f o now st =
      let (shared, result) = finish_request c st.config f.flight now o st.shared in
      answer-state result (now - f.started)
        (record st { shared = shared; semaphore = s.release st.semaphore })

  pub length-joined :
      {A E : Type 0} (r : Except E A) (fs : List A) → length (joined r fs) ≡ waiting r + length fs
  length-joined (ok f) fs = omega arith
  length-joined (err e) fs = omega arith

  -- What holds with the requests `fs` in flight, since `bs` was the pool of a new balancer.
  pub record IsSound (B : Type 0) (bs : List (UpstreamState c.http))
      (fs : List (InFlight c s p json B)) (st : State) : Type 0 where
    pub thresholds : HasThresholds st.config.failure_threshold st.config.healthy_threshold
    pub tended : IsTended c st.config bs st.shared.balancer
    pub permits : s.available_permits st.semaphore + length fs ≡ st.concurrency_limit

  module _ {B : Type 0} (bs : List (UpstreamState c.http)) {st0 : State}
      (start : IsSound B bs [] st0) where
    -- Every state that the server reaches from a sound one is sound.
    pub Run-IsSound :
        {fs : List (InFlight c s p json B)} {st : State}
        → Run c s p json B st0 fs st
        → IsSound B bs fs st
    Run-IsSound started = start
    Run-IsSound (entered {fs = fs} {st = st} req peer now ended r) =
        let v = Run-IsSound r in
        let same = enter-config req peer now ended st in
        record {
          thresholds = rw same v.thresholds;
          tended = rw same (
              enter-shared req peer now ended st (λ sh. IsTended c st.config bs sh.balancer)
                v.tended
                (begin_request-IsTended c st.config bs v.thresholds req peer now st.shared
                  v.tended));
          permits = omega (
            arith,
            v.permits,
            enter-permits c s k p json req peer now ended st,
            length-joined (enter c s p json req peer now ended st).1 fs,
          );
        }
    Run-IsSound (left {st = st} fs gs f o now r) =
        let v = Run-IsSound r in
        let (same_shared, same) = leave-state f o now st in
        record {
          thresholds = rw same v.thresholds;
          tended =
              rw (same, same_shared)
                (finish_request-IsTended c st.config bs v.thresholds f.flight now o st.shared
                  v.tended);
          permits = omega (
            arith,
            v.permits,
            leave-permits c s k p json f o now st,
            length-append fs (f ∷ gs),
            length-append fs gs,
          );
        }
    Run-IsSound (dropped {st = st} fs gs f r) =
        let v = Run-IsSound r in
        record {
          thresholds = v.thresholds;
          tended = v.tended;
          permits = omega (
            arith,
            v.permits,
            k.available-release st.semaphore,
            length-append fs (f ∷ gs),
            length-append fs gs,
          );
        }
    Run-IsSound (probed_at {st = st} i answer now r) =
        let v = Run-IsSound r in
        let t = v.thresholds in
        record {
          thresholds = v.thresholds;
          tended =
              on_backend-IsTended c st.config bs t i _ st.shared
                (probed-IsTending _ _ t.failures_u32 t.successes_u32 t.ejects t.recovers now answer)
                v.tended;
          permits = v.permits;
        }
    Run-IsSound (cleaned now r) =
        let v = Run-IsSound r in
        record { thresholds = v.thresholds; tended = v.tended; permits = v.permits }

  -- The configuration never changes.
  pub Run-config :
      {B : Type 0} {st0 : State} {fs : List (InFlight c s p json B)} {st : State}
      → Run c s p json B st0 fs st
      → st.config ≡ st0.config
  Run-config started = refl
  Run-config (entered {st = st} req peer now ended r) =
      enter-config req peer now ended st ∙ Run-config r
  Run-config (left {st = st} fs gs f o now r) = (leave-state f o now st).1 ∙ Run-config r
  Run-config (dropped fs gs f r) = Run-config r
  Run-config (probed_at i answer now r) = Run-config r
  Run-config (cleaned now r) = Run-config r
