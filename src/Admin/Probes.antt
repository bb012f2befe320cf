-- ===== src/Admin/Probes.antt =====
-- What the admin routes answer.
use palisade.Prelude.{
  ℕ, ◌+◌, ◌-◌, ◌^◌, ◌≤◌, ◌≡◌, refl, ◌∙◌, ap, List, [], ◌∷◌, arith, if◌then◌else◌, Bool-cases, inl,
  inr,
}
use palisade.Prelude.Int.{pos}
use palisade.Text.{Str, codes, any}
use palisade.Http.{Http}
use palisade.Upstream.{UpstreamState}
use palisade.Semaphore.{Semaphores}
use palisade.Metrics.{
  Prometheus, PrometheusLaws, Metrics, set_in_flight, set_open_connections, set_upstream_healthy,
}
use palisade.Admin.{
  AdminState, set_all_healthy, refresh, text_response, readiness_response, metrics_response, route,
}

module _ (h : Http) (s : Semaphores) (p : Prometheus) (l : PrometheusLaws p) where
  set_all_healthy-gauges :
      (bs : List (UpstreamState h)) (m : Metrics p)
      → ((set_all_healthy h s p bs m).in_flight_requests ≡ m.in_flight_requests)
        × ((set_all_healthy h s p bs m).open_connections ≡ m.open_connections)
  unfolding set_all_healthy set_upstream_healthy
  set_all_healthy-gauges [] m = (refl, refl)
  set_all_healthy-gauges (b ∷ bs) m =
      set_all_healthy-gauges bs (set_upstream_healthy p m (h.uri_text b.uri) b.healthy)

  -- A scrape of a server with `n` requests in flight and `o` open connections, where each holds a
  -- permit of its semaphore, sets the two gauges to `n` and `o`, if these fit 63 bits.
  pub metrics_response-gauges :
      (encode : Metrics p → Str) (st : AdminState h s p) (n o : ℕ)
      → s.available_permits st.request_semaphore + n ≡ st.concurrency_limit
      → s.available_permits st.connection_semaphore + o ≡ st.max_connections
      → n ≤ 2 ^ 63 - 1
      → o ≤ 2 ^ 63 - 1
      → (p.value (metrics_response h s p encode st).0.metrics.in_flight_requests ≡ pos n)
        × (p.value (metrics_response h s p encode st).0.metrics.open_connections ≡ pos o)
  unfolding metrics_response refresh set_in_flight set_open_connections
  metrics_response-gauges encode st n o a b x y =
      rw ((set_all_healthy-gauges st.pool _).0, (set_all_healthy-gauges st.pool _).1)
        (
          l.value-set _ _ ∙ ap pos (omega (arith, a, x)),
          l.value-set _ _ ∙ ap pos (omega (arith, b, y)),
        )

  -- The readiness route answers 200 exactly if some backend of the pool is healthy, and 503 otherwise,
  -- and changes nothing.
  pub readyz :
      (encode : Metrics p → Str) (st : AdminState h s p)
      → ((route h s p encode (codes "GET") (codes "/readyz") st).1.status
          ≡ (if any (λ (b : UpstreamState h). b.healthy) st.pool then 200 else 503))
        × ((route h s p encode (codes "GET") (codes "/readyz") st).0 ≡ st)
  unfolding route readiness_response text_response
  readyz encode st = elim (Bool-cases (any (λ (b : UpstreamState h). b.healthy) st.pool)) [
    | inl e ↦ rw (e, route, readiness_response) (refl, refl)
    | inr e ↦ rw (e, route, readiness_response) (refl, refl)
  ]
