-- ===== src/System/Scrapes.antt =====
-- What a scrape of src/admin.rs reports of the server.
use palisade.Prelude.{ℕ, ◌≡◌, ◌<◌, ◌^◌, List, [], length, arith}
use palisade.Prelude.Int.{pos}
use palisade.Text.{Str}
use palisade.Semaphore.{Semaphores, SemaphoreLaws}
use palisade.Metrics.{Prometheus, PrometheusLaws, Metrics}
use palisade.Upstream.{UpstreamState}
use palisade.Proxy.Crates.{Crates}
use palisade.Server.Service.{ServerState, InFlight}
use palisade.Server.Accept.{Event}
use palisade.Server.Connections.{run, listening, run-permits}
use palisade.Admin.{AdminState, metrics_response}
use palisade.Admin.Probes.{metrics_response-gauges}
use palisade.System.{Run}
use palisade.System.Sound.{IsSound, Run-IsSound}

module _ (c : Crates) (s : Semaphores) (k : SemaphoreLaws s) (p : Prometheus)
    (json : Str → Str → Str) where
  -- What the admin listener shares with the server: the metrics, the pool and both semaphores.
  abbrev pub admin_state :
      ServerState c s p json → Metrics p → ℕ → List (Event s) → AdminState c.http s p
  admin_state st metrics max_connections events = record {
    metrics = metrics;
    pool = st.shared.balancer.pool;
    request_semaphore = st.semaphore;
    concurrency_limit = st.concurrency_limit;
    connection_semaphore = (run s k (listening s k max_connections) events).connection_semaphore;
    max_connections = max_connections;
  }

  module _ {B : Type 0} (bs : List (UpstreamState c.http)) {st0 : ServerState c s p json}
      (start : IsSound c s k p json B bs [] st0) {fs : List (InFlight c s p json B)}
      {st : ServerState c s p json} (r : Run c s p json B st0 fs st) where
    -- In every state that the server reaches, and after any events of the accept loop, a scrape reports
    -- as many requests in flight and as many open connections as there are, if both limits are below
    -- 2 ^ 63.
    pub Run-metrics_response :
        (l : PrometheusLaws p) (encode : Metrics p → Str) (metrics : Metrics p)
        (max_connections : ℕ) (events : List (Event s))
        → st.concurrency_limit < 2 ^ 63
        → max_connections < 2 ^ 63
        → let scraped =
            (metrics_response c.http s p encode
              (admin_state st metrics max_connections events)).0.metrics in
          (p.value scraped.in_flight_requests ≡ pos (length fs))
          × (p.value scraped.open_connections
              ≡ pos (run s k (listening s k max_connections) events).live)
    Run-metrics_response l encode metrics m events x y =
        let v = Run-IsSound c s k p json bs start r in
        metrics_response-gauges c.http s p l encode (admin_state st metrics m events) (length fs)
          (run s k (listening s k m) events).live v.permits (run-permits s k m events)
          (omega (arith, v.permits)) (omega (arith, run-permits s k m events))
