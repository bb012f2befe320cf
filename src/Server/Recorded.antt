-- ===== src/Server/Recorded.antt =====
-- What the service records of the answers that it gives.
use palisade.Prelude.{
  ℕ, suc, ◌+◌, ◌≡◌, refl, some, ◌==◌, arith, if◌then◌else◌, ok, err, Bool-cases, inl, inr, ==_iff,
}
use palisade.Text.{Str}
use palisade.Config.Runtime.{or_default}
use palisade.Error.{Result}
use palisade.Semaphore.{Semaphores}
use palisade.Metrics.{Prometheus, PrometheusLaws, Metrics, record_response, record_rate_limited}
use palisade.Proxy.Crates.{Crates}
use palisade.Server.Service.{
  ServerState, HttpResponse, is_rate_limited, error_response, answer, observed, counted,
}

-- The number of refusals for their rate that an outcome stands for.
unfoldable pub refusals : {A : Type 0} → Result A → ℕ
refusals (ok a) = 0
refusals (err e) = if is_rate_limited e then 1 else 0

module _ (c : Crates) (s : Semaphores) (p : Prometheus) (l : PrometheusLaws p)
    (json : Str → Str → Str) where
  -- The responses with a status so far.
  unfoldable pub responses : Metrics p → ℕ → ℕ
  responses m status = p.count (or_default p.counter_new (p.member m.requests status))

  responses-update :
      (m : Metrics p) (status k latency : ℕ)
      → responses (record_response p m status latency) k
        ≡ (if status == k then suc (responses m k) else responses m k)
  unfolding responses record_response
  responses-update m status k latency =
      rw (responses, l.member-update m.requests status k p.inc)
        (elim (Bool-cases (status == k)) [
          | inl e ↦ rw (e, (==_iff status k).0 e) (l.count-inc _)
          | inr e ↦ rw e refl
        ])

  -- The metrics after an answer with this status, and whether it was a refusal for the rate.
  Records : (m m' : Metrics p) → ℕ → ℕ → ℕ → Type 0
  Records m m' status refused k =
      (responses m' k ≡ (if status == k then suc (responses m k) else responses m k))
      × (p.observations m'.request_duration_seconds
          ≡ suc (p.observations m.request_duration_seconds))
      × (p.count m'.rate_limited ≡ p.count m.rate_limited + refused)

  record_response-Records :
      (m : Metrics p) (status latency k : ℕ)
      → Records m (record_response p m status latency) status 0 k
  unfolding Records record_response
  record_response-Records m status latency k = (
    responses-update m status k latency,
    l.observations-observe m.request_duration_seconds latency,
    omega arith,
  )

  refused-Records :
      (m : Metrics p) (status latency k : ℕ)
      → Records m (record_response p (record_rate_limited p m) status latency) status 1 k
  unfolding Records record_response record_rate_limited responses
  refused-Records m status latency k = (
    responses-update (record_rate_limited p m) status k latency,
    l.observations-observe m.request_duration_seconds latency,
    omega (arith, l.count-inc m.rate_limited),
  )

  -- Every answer with metrics is counted once under its own status and no other, adds one observation
  -- of its latency, and adds one to the refused requests exactly if it refuses a request for its rate.
  pub answer-records :
      (r : Result (HttpResponse c s p json)) (latency : ℕ) (st : ServerState c s p json)
      (m : Metrics p) (k : ℕ)
      → st.metrics ≡ some m
      → (m' : Metrics p) × ((answer c s p json r latency st).0.metrics ≡ some m')
        × (responses m' k ≡ (
            if (answer c s p json r latency st).1.status == k
            then suc (responses m k)
            else responses m k))
        × (p.observations m'.request_duration_seconds
            ≡ suc (p.observations m.request_duration_seconds))
        × (p.count m'.rate_limited ≡ p.count m.rate_limited + refusals r)
  unfolding answer observed counted refusals Records
  answer-records (ok resp) latency st m k e =
      let (a, b, d) = record_response-Records m resp.status latency k in
      (record_response p m resp.status latency, rw (e, answer) refl, a, b, d)
  answer-records (err x) latency st m k e = elim (Bool-cases (is_rate_limited x)) [
    | inl q ↦
        (let (a, b, d) = refused-Records m (error_response c s p json x).status latency k in
          (
            record_response p (record_rate_limited p m) (error_response c s p json x).status
                latency,
            rw (e, q, answer, counted) refl,
            a,
            b,
            rw (q, refusals) d,
          ))
    | inr q ↦
        (let (a, b, d) = record_response-Records m (error_response c s p json x).status latency k in
          (
            record_response p m (error_response c s p json x).status latency,
            rw (e, q, answer, counted) refl,
            a,
            b,
            rw (q, refusals) d,
          ))
  ]
