-- ===== src/System/Accounts.antt =====
-- What the metrics account for, over a run of the server.
use palisade.Prelude.{
  ℕ, suc, ◌+◌, ◌-◌, ◌≡◌, refl, ap, ◌∙◌, some, List, ◌∷◌, length, length-append, err, Option-cases,
  Except-cases, inl, inr, arith,
}
use palisade.Text.{Str}
use palisade.Error.{Result, service_unavailable}
use palisade.Semaphore.{Semaphores, SemaphoreLaws}
use palisade.Metrics.{Prometheus, PrometheusLaws, Metrics, record_response}
use palisade.Proxy.Crates.{Crates}
use palisade.Proxy.Screen.{Request}
use palisade.Proxy.Pipeline.{Outcome, Peer, begin_request}
use palisade.Server.Service.{
  ServerState, InFlight, HttpResponse, error_response, observed, answer, enter, leave,
}
use palisade.Server.Permits.{waiting}
use palisade.Server.Recorded.{answer-records}
use palisade.System.{Run, started, entered, left, dropped, probed_at, cleaned}
use palisade.System.Sound.{length-joined}
use palisade.System.Identifiers.{entries}

module _ (c : Crates) (s : Semaphores) (p : Prometheus) (json : Str → Str → Str) {B : Type 0} where
  -- How many requests have been dropped in a run.
  unfoldable pub drops :
      {st0 : ServerState c s p json} {fs : List (InFlight c s p json B)}
      {st : ServerState c s p json}
      → Run c s p json B st0 fs st
      → ℕ
  drops started = 0
  drops (entered req peer now ended r) = drops r
  drops (left fs gs f o now r) = drops r
  drops (dropped fs gs f r) = suc (drops r)
  drops (probed_at i answer now r) = drops r
  drops (cleaned now r) = drops r

module _ (c : Crates) (s : Semaphores) (k : SemaphoreLaws s) (p : Prometheus) (l : PrometheusLaws p)
    (json : Str → Str → Str) where
  -- The metrics of a state have seen `n` answers.
  abbrev pub Observes : ℕ → ServerState c s p json → Type 0
  Observes n st =
      (m : Metrics p) × (st.metrics ≡ some m) × (p.observations m.request_duration_seconds ≡ n)

  answer-Observes :
      (r : Result (HttpResponse c s p json)) (latency n : ℕ) (st : ServerState c s p json)
      → Observes n st
      → Observes (suc n) (answer c s p json r latency st).0
  answer-Observes r latency n st (m, e, q) =
      let (m', e', a, b, d) = answer-records c s p l json r latency st m 200 e in
      (m', e', b ∙ ap suc q)

module _ (c : Crates) (s : Semaphores) (k : SemaphoreLaws s) (p : Prometheus) (l : PrometheusLaws p)
    (json : Str → Str → Str) {B : Type 0} where
  -- An entry is observed if it is answered at once.
  enter-Observes :
      (req : Request c B) (peer : Peer c) (now ended n : ℕ) (st : ServerState c s p json)
      → Observes c s k p l json n st
      → (i : ℕ) × Observes c s k p l json i (enter c s p json req peer now ended st).0
        × (i + waiting (enter c s p json req peer now ended st).1 ≡ suc n)
  unfolding enter observed record_response
  enter-Observes req peer now ended n st (m, e, q) =
      elim (Option-cases (s.try_acquire st.semaphore)) [
        | inl a ↦
            (let resp = error_response c s p json (service_unavailable st.concurrency_limit) in
              (
                suc n,
                rw (a, enter, e, observed)
                    (
                      record_response p m resp.status (ended - now),
                      refl,
                      l.observations-observe _ _ ∙ ap suc q,
                    ),
                rw (a, enter) (omega arith),
              ))
        | inr (sem, a) ↦ elim (Except-cases (begin_request c st.config req peer now st.shared).1) [
          | inl (f, g) ↦ (n, rw (a, g, enter) (m, e, q), rw (a, g, enter) (omega arith))
          | inr (x, g) ↦ (
            suc n,
            rw (a, g, enter) (answer-Observes c s k p l json (err x) (ended - now) n _ (m, e, q)),
            rw (a, g, enter) (omega arith),
          )
        ]
      ]

  leave-Observes :
      (f : InFlight c s p json B) (o : Outcome c) (now n : ℕ) (st : ServerState c s p json)
      → Observes c s k p l json n st
      → Observes c s k p l json (suc n) (leave c s p json f o now st).0
  unfolding leave
  leave-Observes f o now n st v = answer-Observes c s k p l json _ (now - f.started) n _ v

  -- In every state that the server reaches from one whose metrics have seen `n` answers, they
  -- have seen `n` and as many more as requests have entered since, less those in flight and
  -- those dropped with their connection.
  pub Run-Observes :
      {st0 : ServerState c s p json} {fs : List (InFlight c s p json B)}
      {st : ServerState c s p json} (n : ℕ) (r : Run c s p json B st0 fs st)
      → Observes c s k p l json n st0
      → (i : ℕ) × Observes c s k p l json i st
        × (i + length fs + drops c s p json r ≡ n + entries c s p json r)
  unfolding entries drops
  Run-Observes n started v = (n, v, omega arith)
  Run-Observes n (entered {fs = fs} {st = st} req peer now ended r) v =
      let (i, w, e) = Run-Observes n r v in
      let (j, x, g) = enter-Observes req peer now ended i st w in
      (
        j,
        x,
        omega
            (arith, e, g, length-joined c s k p json (enter c s p json req peer now ended st).1 fs),
      )
  Run-Observes n (left {st = st} fs gs f o now r) v =
      let (i, w, e) = Run-Observes n r v in
      (
        suc i,
        leave-Observes f o now i st w,
        omega (arith, e, length-append fs (f ∷ gs), length-append fs gs),
      )
  Run-Observes n (dropped fs gs f r) v =
      let (i, w, e) = Run-Observes n r v in
      (i, w, omega (arith, e, length-append fs (f ∷ gs), length-append fs gs))
  Run-Observes n (probed_at i answer now r) v = Run-Observes n r v
  Run-Observes n (cleaned now r) v = Run-Observes n r v
