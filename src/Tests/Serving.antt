-- ===== src/Tests/Serving.antt =====
-- The server at concrete steps.
use palisade.Prelude.{◌≡◌, refl, none, some, List, [], ◌∷◌, err, arith, inl, ◌++◌}
use palisade.Prelude.Int.{pos}
use palisade.Text.{Str, codes}
use palisade.Error.{rate_limited, Result}
use palisade.Metrics.{Metrics}
use palisade.Server.Service.{ServerState, HttpResponse}
use palisade.Server.Accept.{
  Event, accepted, closed, shutdown_signal, accepting, stopped, step, on_event,
}
use palisade.Server.Drain.{Drains, run-shutdown}
use palisade.Server.Connections.{run, listening}
use palisade.Tests.World.{crates, semaphores, semaphore_laws, prometheus}
use palisade.Tests.Loads.{runtime}
use palisade.Tests.Requests.{shared}

abbrev json : Str → Str → Str
json tag message = tag

abbrev idle : ServerState crates semaphores prometheus json
idle = record {
  config = runtime;
  shared = shared;
  semaphore = 1;
  concurrency_limit = 1;
  metrics = none;
}

abbrev pub while_serving : List (Event semaphores)
while_serving = accepted ∷ accepted ∷ closed ∷ accepted ∷ []

serves :
    (run semaphores semaphore_laws (listening semaphores semaphore_laws 5) while_serving).phase
    ≡ accepting
unfolding run listening step on_event
serves = refl

two_close :
    Drains semaphores semaphore_laws
      (run semaphores semaphore_laws (listening semaphores semaphore_laws 5) while_serving).live
      (closed ∷ accepted ∷ closed ∷ [])
unfolding run listening step on_event
two_close = inl (omega arith)

run-shutdown_example :
    let a =
      run semaphores semaphore_laws
        (listening semaphores semaphore_laws 5)
        (while_serving ++ shutdown_signal ∷ closed ∷ accepted ∷ closed ∷ []) in
    (a.phase ≡ stopped) × (a.live ≡ 0) × (a.connection_semaphore ≡ 5)
run-shutdown_example =
    run-shutdown semaphores semaphore_laws 5 while_serving (closed ∷ accepted ∷ closed ∷ []) serves
      two_close

abbrev pub metrics : Metrics prometheus
metrics = record {
  requests = λ l. none;
  request_duration_seconds = [];
  rate_limited = 0;
  upstream_healthy = λ l. none;
  in_flight_requests = pos 0;
  open_connections = pos 0;
}

abbrev limited : Result (HttpResponse crates semaphores prometheus json)
limited = err (rate_limited 1500)

abbrev recording : ServerState crates semaphores prometheus json
recording = record idle { metrics = some metrics }

abbrev pub encode : Metrics prometheus → Str
encode m = codes "# EOF"
