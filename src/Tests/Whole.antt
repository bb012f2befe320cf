-- ===== src/Tests/Whole.antt =====
-- The server as a whole, from the start of the program on.
use palisade.Tests.World.{prometheus_laws}
use palisade.Text.{split, str_eq}
use palisade.Server.Tasks.{probe_text, answered, Probe}
use palisade.Server.Permits.{enter-permits}
use palisade.Prelude.{
  ◌<◌, ◌^◌, if◌then◌else◌, ◌+◌, ◌≡◌, ◌↔◌, refl, none, some, List, [], ok, err, length, get_elem?,
  arith, true, false, ℕ,
}
use palisade.Text.{codes, any, decimal}
use palisade.Error.{no_healthy_upstream}
use palisade.Upstream
use palisade.Upstream.{UpstreamState, from_validated, is_eligible, record_failure, arm_cooldown}
use palisade.Balancer
use palisade.Balancer.Refines.{entries}
use palisade.Balancer.Winner.{IsHighest}
use palisade.Balancer.Fairness.{HasRoom}
use palisade.Proxy.Screen.{
  inspect_request, inbound_request_id, screen, limit_rate, check_headers, check_params,
}
use palisade.Proxy.Forward.{rewrite_uri, prepare}
use palisade.Headers.{is_smuggling_attempt, content_length_exceeds, content_length}
use palisade.Proxy.Pipeline.{Flight, begin_request, dispatch, target}
use palisade.Proxy.Effects.{verdict}
use palisade.Server.Service.{ServerState, InFlight, enter}
use palisade.Server.Tasks.{failed, probed}
use palisade.RateLimit.{check}
use palisade.Program.{assemble}
use palisade.Program.Launch.{backends}
use palisade.System.{joined, after_probe, started, entered, probed_at, Run}
use palisade.System.Guarantees.{Run-available_permits, Run-is_eligible, Run-unavailable}
use palisade.Tests.World.{http, crates, semaphores, semaphore_laws, prometheus, build_uri, get_all}
use palisade.System.Scrapes.{admin_state, Run-metrics_response}
use palisade.System.Ticks.{probe_from, IsProbed, probe_from-IsProbed}
use palisade.Admin.{metrics_response}
use palisade.Server.Connections.{run, listening}
use palisade.Prelude.Int.{pos}
use palisade.Tests.Serving.{metrics, encode, while_serving}
use palisade.Tests.Requests.{request, peer, flight}
use palisade.Tests.Startup.{world, json, launched, launched-IsSound}

abbrev pub configured : List (UpstreamState http)
configured = backends crates semaphores prometheus json world launched.state.config 0

abbrev pub after_start : ServerState crates semaphores prometheus json
after_start = (enter crates semaphores prometheus json request peer 0 0 launched.state).0

abbrev pub entrants : List (InFlight crates semaphores prometheus json Unit)
entrants = joined (enter crates semaphores prometheus json request peer 0 0 launched.state).1 []

Run-available_permits_example :
    (after_start.semaphore + length entrants ≡ after_start.concurrency_limit)
    × ((semaphores.try_acquire after_start.semaphore ≡ none)
        ↔ (length entrants ≡ after_start.concurrency_limit))
Run-available_permits_example =
    Run-available_permits crates semaphores semaphore_laws prometheus json configured
      launched-IsSound (entered request peer 0 0 started)

-- The second backend has failed a probe.
abbrev probed_once : ServerState crates semaphores prometheus json
probed_once = after_probe crates semaphores prometheus json 1 failed 7 launched.state

abbrev untried : UpstreamState http
untried =
    Upstream.new (record { uri = (codes "http:", codes "b", codes "/"); weight = 1 }) 30_000_000_000
      0

second : get_elem? launched.state.shared.balancer.pool 1 ≡ some untried
unfolding assemble from_validated Balancer.new Upstream.new
second = refl

room : HasRoom configured
unfolding from_validated assemble Upstream.new
room = omega arith

abbrev first_flight : Flight crates Unit
first_flight = record flight {
  seq = 1;
  request_id = codes "1";
  sent = record flight.sent { uri = (codes "http:", codes "a", codes "/items?page=2") };
}

first_begun :
    (begin_request crates probed_once.config request peer 9 probed_once.shared).1 ≡ ok first_flight
unfolding begin_request dispatch target prepare rewrite_uri build_uri limit_rate screen
    is_smuggling_attempt content_length_exceeds content_length inspect_request check_headers
    check_params inbound_request_id get_all decimal Balancer.next is_eligible assemble
    from_validated Balancer.new probed check record_failure
first_begun = refl

Run-is_eligible_example :
    (b : UpstreamState http) × (get_elem? probed_once.shared.balancer.pool 0 ≡ some b)
    × (is_eligible 9 b ≡ true)
    × IsHighest
        (entries 9 probed_once.shared.balancer.pool probed_once.shared.balancer.current_weights)
        0
Run-is_eligible_example =
    Run-is_eligible crates semaphores semaphore_laws prometheus json {B = Unit} configured
      launched-IsSound (probed_at 1 failed 7 started) room request peer 9 first_flight first_begun

judged_fit : verdict crates probed_once.config request peer 9 probed_once.shared ≡ ok tt
unfolding limit_rate screen is_smuggling_attempt content_length_exceeds content_length
    inspect_request check_headers check_params get_all assemble check
judged_fit = refl

Run-unavailable_example :
    ((begin_request crates probed_once.config request peer 9 probed_once.shared).1
      ≡ err no_healthy_upstream)
    ↔ (any (is_eligible 9) probed_once.shared.balancer.pool ≡ false)
Run-unavailable_example =
    Run-unavailable crates semaphores semaphore_laws prometheus json {B = Unit} configured
      launched-IsSound (probed_at 1 failed 7 started) room request peer 9 judged_fit

limited : after_start.concurrency_limit < 2 ^ 63
unfolding assemble
limited = omega (
  arith,
  (enter-permits crates semaphores semaphore_laws prometheus json request peer 0 0
      launched.state).1,
)

Run-metrics_response_example :
    let scraped =
      (metrics_response http semaphores prometheus encode (
        admin_state crates semaphores semaphore_laws prometheus json after_start metrics 5
          while_serving)).0.metrics in
    (prometheus.value scraped.in_flight_requests ≡ pos (length entrants))
    × (prometheus.value scraped.open_connections
        ≡ pos
            (run semaphores semaphore_laws
              (listening semaphores semaphore_laws 5)
              while_serving).live)
Run-metrics_response_example =
    Run-metrics_response crates semaphores semaphore_laws prometheus json configured
      launched-IsSound (entered request peer 0 0 started) prometheus_laws encode metrics 5
      while_serving limited (omega arith)

-- The probes of the first tick: the second backend fails, the others answer.
abbrev answers : http.Uri → Probe × ℕ
answers u = if str_eq u.1 (codes "b") then (failed, 8) else (answered 200, 8)

probe_address :
    http.parse_uri (probe_text http (codes "/health") untried.uri)
    ≡ ok (codes "http::", codes "b", codes "/")
unfolding probe_text split Upstream.new
probe_address = refl

probe_from-IsProbed_example :
    let after =
      probe_from crates semaphores prometheus json 0
        (codes "/health")
        answers
        launched.state.shared.balancer.pool
        launched.state in
    Run crates semaphores prometheus json Unit launched.state [] after
    × ((b : UpstreamState http) × (get_elem? after.shared.balancer.pool 1 ≡ some b)
        × IsProbed launched.state.config.failure_threshold launched.state.config.healthy_threshold
            false untried b)
probe_from-IsProbed_example =
    probe_from-IsProbed crates semaphores prometheus json (codes "/health") answers launched.state 1
      untried (codes "http::", codes "b", codes "/") started second probe_address
