-- ===== src/Admin.antt =====
-- src/admin.rs: the admin listener's routes.
pub mod Probes
use palisade.Prelude.{
  ℕ, ◌-◌, ◌^◌, Bool, true, false, ◌&&◌, List, [], ◌∷◌, Option, none, some, String, if◌then◌else◌,
  min,
}
use palisade.Prelude.Int.{ℤ, pos}
use palisade.Text.{Str, codes, str_eq, any}
use palisade.Http.{Http}
use palisade.Error.{Response}
use palisade.Upstream.{UpstreamState}
use palisade.Semaphore.{Semaphores}
use palisade.Metrics.{
  Prometheus, Metrics, set_in_flight, set_open_connections, set_upstream_healthy,
}

module _ (h : Http) (s : Semaphores) (p : Prometheus) where
  pub record AdminState : Type 0 where
    pub metrics : Metrics p
    pub pool : List (UpstreamState h)
    pub request_semaphore : s.Semaphore
    pub concurrency_limit : ℕ
    pub connection_semaphore : s.Semaphore
    pub max_connections : ℕ

  -- `i64::try_from(n).unwrap_or(i64::MAX)`
  abbrev pub as_i64 : ℕ → ℤ
  as_i64 n = pos (min n (2 ^ 63 - 1))

  unfoldable pub set_all_healthy : List (UpstreamState h) → Metrics p → Metrics p
  set_all_healthy [] m = m
  set_all_healthy (b ∷ bs) m =
      set_all_healthy bs (set_upstream_healthy p m (h.uri_text b.uri) b.healthy)

  -- The gauges that a scrape refreshes.
  unfoldable pub refresh : AdminState → Metrics p
  unfolding set_all_healthy
  refresh st =
      let in_flight = st.concurrency_limit - s.available_permits st.request_semaphore in
      let open_now = st.max_connections - s.available_permits st.connection_semaphore in
      set_all_healthy st.pool
        (set_open_connections p (set_in_flight p st.metrics (as_i64 in_flight)) (as_i64 open_now))

  unfoldable pub text_response : ℕ → String → Response h Str
  text_response status body = record {
    status = status;
    headers =
        h.append h.headers_new (h.name_from_static (codes "content-type"))
          (h.value_from_static (codes "text/plain; charset=utf-8"));
    body = codes body;
  }

  unfoldable pub readiness_response : AdminState → Response h Str
  readiness_response st =
      if any (λ (b : UpstreamState h). b.healthy) st.pool
      then text_response 200 "ready"
      else text_response 503 "no healthy upstreams"

  -- `encode` is the OpenMetrics text of the registry.
  unfoldable pub metrics_response : (Metrics p → Str) → AdminState → AdminState × Response h Str
  metrics_response encode st =
      let m = refresh st in
      (
        record st { metrics = m },
        record {
          status = 200;
          headers = h.append h.headers_new (h.name_from_static (codes "content-type")) (
              h.value_from_static
                (codes "application/openmetrics-text; version=1.0.0; charset=utf-8"));
          body = encode m;
        },
      )

  unfoldable pub route : (Metrics p → Str) → Str → Str → AdminState → AdminState × Response h Str
  route encode method path st =
      if str_eq method (codes "GET") && str_eq path (codes "/metrics")
      then metrics_response encode st
      else if str_eq method (codes "GET") && str_eq path (codes "/livez")
      then (st, text_response 200 "ok")
      else if str_eq method (codes "GET") && str_eq path (codes "/readyz")
      then (st, readiness_response st)
      else (st, text_response 404 "not found")
