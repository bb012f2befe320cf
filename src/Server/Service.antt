-- ===== src/Server/Service.antt =====
-- The closure that `serve` gives to `service_fn`. Requests run concurrently, so a request is two
-- steps: it takes a permit and begins, and later it ends and gives the permit back.
use palisade.Prelude.{ℕ, ◌-◌, Bool, true, false, Option, none, some, Except, ok, err}
use palisade.Text.{Str}
use palisade.Duration.{Duration}
use palisade.Error.{Result, ProxyError, Response, into_response, service_unavailable, rate_limited}
use palisade.Semaphore.{Semaphores}
use palisade.Metrics.{Prometheus, Metrics, record_response, record_rate_limited}
use palisade.Proxy.Crates.{Crates}
use palisade.Proxy.Screen.{Request, Runtime}
use palisade.Proxy.Reply.{BoxBody, full}
use palisade.Proxy.Pipeline.{Shared, Flight, Outcome, Peer, begin_request, finish_request}

-- `matches!(e, ProxyError::RateLimited { .. })`
unfoldable pub is_rate_limited : ProxyError → Bool
is_rate_limited (rate_limited ms) = true
is_rate_limited _ = false

module _ (c : Crates) (s : Semaphores) (p : Prometheus) (json : Str → Str → Str) where
  open s use {Semaphore, try_acquire, release}

  -- `ServerState`, as the handlers share it.
  pub record ServerState : Type 0 where
    pub config : Runtime c
    pub shared : Shared c
    pub semaphore : Semaphore
    pub concurrency_limit : ℕ
    pub metrics : Option (Metrics p)

  -- A request that is being handled, with `started`.
  pub record InFlight (B : Type 0) : Type 0 where
    pub flight : Flight c B
    pub started : ℕ

  abbrev pub HttpResponse : Type 0
  HttpResponse = Response c.http (BoxBody c)

  -- `e.into_response().map(box_error_body)`
  unfoldable pub error_response : ProxyError → HttpResponse
  error_response e =
      let r = into_response c.http json e in
      record { status = r.status; headers = r.headers; body = full r.body }

  unfoldable pub observed : Option (Metrics p) → HttpResponse → Duration → Option (Metrics p)
  observed none resp latency = none
  observed (some m) resp latency = some (record_response p m resp.status latency)

  unfoldable pub counted : Option (Metrics p) → ProxyError → Option (Metrics p)
  unfolding is_rate_limited
  counted none e = none
  counted (some m) e = elim (is_rate_limited e) [
    | true ↦ some (record_rate_limited p m)
    | false ↦ some m
  ]

  -- The end of the handler: the response of a result, with the metrics recorded.
  unfoldable pub answer : Result HttpResponse → Duration → ServerState → ServerState × HttpResponse
  unfolding observed counted
  answer (ok resp) latency st = (record st { metrics = observed st.metrics resp latency }, resp)
  answer (err e) latency st = (
    record st { metrics = observed (counted st.metrics e) (error_response e) latency },
    error_response e,
  )

  -- The request takes a permit and runs until it waits for the backend, or is answered at `ended`.
  unfoldable pub enter :
      {B : Type 0}
      → Request c B
      → Peer c
      → (now ended : ℕ) → ServerState
      → ServerState × Except HttpResponse (InFlight B)
  unfolding observed
  enter req peer now ended st = elim (try_acquire st.semaphore) [
    | none ↦
        let resp = error_response (service_unavailable st.concurrency_limit) in
        (record st { metrics = observed st.metrics resp (ended - now) }, err resp)
    | some sem ↦
        let (shared, begun) = begin_request c st.config req peer now st.shared in
        let st' : ServerState = record st { shared = shared; semaphore = sem } in
        elim begun [
          | ok f ↦ (st', ok (record { flight = f; started = now }))
          | err e ↦
              let (st'', resp) =
                answer (err e) (ended - now) (record st' { semaphore = release sem }) in
              (st'', err resp)
        ]
  ]

  -- The backend has answered, failed or timed out: the request is answered and the permit dropped.
  unfoldable pub leave :
      {B : Type 0} → InFlight B → Outcome c → ℕ → ServerState → ServerState × HttpResponse
  leave f outcome now st =
      let (shared, result) = finish_request c st.config f.flight now outcome st.shared in
      answer result (now - f.started)
        (record st { shared = shared; semaphore = release st.semaphore })
