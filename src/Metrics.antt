-- ===== src/Metrics.antt =====
-- src/metrics.rs: the proxy's metrics over the `prometheus_client` crate, which is a parameter.
use palisade.Prelude.{ℕ, suc, ◌≡◌, Bool, Option, some, if◌then◌else◌, ◌==◌}
use palisade.Prelude.Int.{ℤ, pos}
use palisade.Text.{Str, str_eq}
use palisade.Duration.{Duration}
use palisade.Config.Runtime.{or_default}

-- Counters, gauges, histograms, and families of them by label. `member` is the metric that
-- `get_or_create` has made for a label, and `update f l g` applies `g` to
-- `f.get_or_create(l)`, which makes a new metric where there is none.
pub record Prometheus : Type 1 where
  pub Counter : Type 0
  pub counter_new : Counter
  pub inc : Counter → Counter
  pub count : Counter → ℕ
  pub Gauge : Type 0
  pub gauge_new : Gauge
  pub set : Gauge → ℤ → Gauge
  pub value : Gauge → ℤ
  pub Histogram : Type 0
  pub histogram_new : Histogram
  pub observe : Histogram → Duration → Histogram
  pub observations : Histogram → ℕ
  pub StatusFamily : Type 0
  pub status_family_new : StatusFamily
  pub member : StatusFamily → ℕ → Option Counter
  pub update : StatusFamily → ℕ → (Counter → Counter) → StatusFamily
  pub UpstreamFamily : Type 0
  pub upstream_family_new : UpstreamFamily
  pub gauge_member : UpstreamFamily → Str → Option Gauge
  pub gauge_update : UpstreamFamily → Str → (Gauge → Gauge) → UpstreamFamily

pub record PrometheusLaws (p : Prometheus) : Type 0 where
  pub count-inc : (m : p.Counter) → p.count (p.inc m) ≡ suc (p.count m)
  pub value-set : (g : p.Gauge) (v : ℤ) → p.value (p.set g v) ≡ v
  pub observations-observe :
      (g : p.Histogram) (d : Duration) → p.observations (p.observe g d) ≡ suc (p.observations g)
  pub member-update :
      (f : p.StatusFamily) (l k : ℕ) (g : p.Counter → p.Counter)
      → p.member (p.update f l g) k
        ≡ (if l == k then some (g (or_default p.counter_new (p.member f l))) else p.member f k)
  pub gauge_member-update :
      (f : p.UpstreamFamily) (l k : Str) (g : p.Gauge → p.Gauge)
      → p.gauge_member (p.gauge_update f l g) k ≡ (
          if str_eq l k
          then some (g (or_default p.gauge_new (p.gauge_member f l)))
          else p.gauge_member f k)

-- `Metrics`; the registry holds handles of the same metrics.
pub record Metrics (p : Prometheus) : Type 0 where
  pub requests : p.StatusFamily
  pub request_duration_seconds : p.Histogram
  pub rate_limited : p.Counter
  pub upstream_healthy : p.UpstreamFamily
  pub in_flight_requests : p.Gauge
  pub open_connections : p.Gauge

module _ (p : Prometheus) where
  open p use {
    inc, observe, set, update, gauge_update, counter_new, gauge_new, histogram_new,
    status_family_new, upstream_family_new,
  }

  unfoldable pub new : Metrics p
  new = record {
    requests = status_family_new;
    request_duration_seconds = histogram_new;
    rate_limited = counter_new;
    upstream_healthy = upstream_family_new;
    in_flight_requests = gauge_new;
    open_connections = gauge_new;
  }

  unfoldable pub record_response : Metrics p → ℕ → Duration → Metrics p
  record_response m status latency = record m {
    requests = update m.requests status inc;
    request_duration_seconds = observe m.request_duration_seconds latency;
  }

  unfoldable pub record_rate_limited : Metrics p → Metrics p
  record_rate_limited m = record m { rate_limited = inc m.rate_limited }

  unfoldable pub set_in_flight : Metrics p → ℤ → Metrics p
  set_in_flight m value = record m { in_flight_requests = set m.in_flight_requests value }

  unfoldable pub set_open_connections : Metrics p → ℤ → Metrics p
  set_open_connections m value = record m { open_connections = set m.open_connections value }

  unfoldable pub set_upstream_healthy : Metrics p → Str → Bool → Metrics p
  set_upstream_healthy m upstream healthy = record m {
    upstream_healthy =
        gauge_update m.upstream_healthy upstream (λ g. set g (if healthy then pos 1 else pos 0));
  }
