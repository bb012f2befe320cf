-- ===== src/Tests/Flights.antt =====
-- The requests in flight, after the start of the program.
use palisade.Prelude.{
  ◌≡◌, ◌≢◌, ◌≤◌, ◌+◌, refl, some, List, get_elem?, length, arith, false, ℕ, true,
}
use palisade.Text.{codes, decimal}
use palisade.Upstream.{UpstreamState, from_validated, is_eligible}
use palisade.Upstream
use palisade.Balancer
use palisade.Proxy.Screen.{
  inspect_request, inbound_request_id, screen, limit_rate, check_headers, check_params,
}
use palisade.Proxy.Forward.{rewrite_uri, forward_headers, prepare}
use palisade.Proxy.Pipeline.{
  Outcome, failed, is_length_limit_error, begin_request, dispatch, target,
}
use palisade.Headers.{is_smuggling_attempt, content_length_exceeds, content_length}
use palisade.Error.{root}
use palisade.Server.Statuses.{leave-status}
use palisade.Server.Service.{leave, InFlight, enter}
use palisade.RateLimit.{check}
use palisade.Metrics
use palisade.Tests.Maps.{from_client}
use palisade.Tests.Loads.{runtime}
use palisade.Program.{assemble}
use palisade.System.{joined, started, entered, Run}
use palisade.System.Pool.{uris_of}
use palisade.System.Forwarded.{Run-sent}
use palisade.System.Identifiers.{entries, Run-seq}
use palisade.System.Accounts.{drops, Observes, Run-Observes}
use palisade.Tests.World.{
  http, crates, crates_laws, semaphores, semaphore_laws, prometheus, prometheus_laws, build_uri,
  get_all, value_from_str,
}
use palisade.Tests.Requests.{request, peer, flight}
use palisade.Tests.Startup.{json, launched, launched-IsSound}
use palisade.Tests.Whole.{configured, after_start, entrants}

abbrev first_in : InFlight crates semaphores prometheus json Unit
first_in = record {
  flight = record flight {
    seq = 1;
    request_id = codes "1";
    backend = 0;
    sent = record flight.sent { uri = (codes "http:", codes "a", codes "/items?page=2") };
  };
  started = 0;
}

first_at : get_elem? entrants 0 ≡ some first_in
unfolding begin_request dispatch target prepare rewrite_uri build_uri limit_rate screen
    is_smuggling_attempt content_length_exceeds content_length inspect_request check_headers
    check_params inbound_request_id get_all decimal Balancer.next is_eligible assemble
    from_validated Balancer.new check enter Upstream.new
first_at = refl

Run-sent_example :
    (up : http.Uri) × (get_elem? (uris_of configured) 0 ≡ some up)
    × (http.scheme first_in.flight.sent.uri ≡ http.scheme up)
    × (http.authority first_in.flight.sent.uri ≡ http.authority up)
    × (first_in.flight.sent.body.limit ≤ after_start.config.max_body_size)
Run-sent_example =
    Run-sent crates semaphores semaphore_laws prometheus json configured launched-IsSound
      crates_laws 0 first_in (entered request peer 0 0 started) first_at

abbrev second_in : InFlight crates semaphores prometheus json Unit
second_in = record {
  flight = record flight {
    seq = 2;
    request_id = codes "2";
    backend = 1;
    sent = record flight.sent {
      uri = (codes "http:", codes "b", codes "/items?page=2");
      headers = forward_headers crates runtime from_client (codes "10.0.0.1") false (codes "b");
    };
  };
  started = 1;
}

abbrev both_in : List (InFlight crates semaphores prometheus json Unit)
both_in = joined (enter crates semaphores prometheus json request peer 1 1 after_start).1 entrants

latest_at : get_elem? both_in 0 ≡ some second_in
unfolding begin_request dispatch target prepare rewrite_uri build_uri limit_rate screen
    is_smuggling_attempt content_length_exceeds content_length inspect_request check_headers
    check_params inbound_request_id get_all decimal Balancer.next is_eligible assemble
    from_validated Balancer.new check enter Upstream.new
latest_at = refl

before_at : get_elem? both_in 1 ≡ some first_in
unfolding begin_request dispatch target prepare rewrite_uri build_uri limit_rate screen
    is_smuggling_attempt content_length_exceeds content_length inspect_request check_headers
    check_params inbound_request_id get_all decimal Balancer.next is_eligible assemble
    from_validated Balancer.new check enter Upstream.new
before_at = refl

Run-seq_example : second_in.flight.seq ≢ first_in.flight.seq
unfolding entries assemble
Run-seq_example =
    Run-seq crates semaphores semaphore_laws prometheus json (omega arith)
      (entered request peer 1 1 (entered request peer 0 0 started)) 0 1 second_in first_in
      (omega arith) (omega arith) latest_at before_at

abbrev first_run : Run crates semaphores prometheus json Unit launched.state entrants after_start
first_run = entered request peer 0 0 started

Run-Observes_example :
    (i : ℕ) × Observes crates semaphores semaphore_laws prometheus prometheus_laws json i
      after_start
    × (i + length entrants + 0 ≡ 1)
unfolding entries drops assemble Metrics.new
Run-Observes_example =
    Run-Observes crates semaphores semaphore_laws prometheus prometheus_laws json 0 first_run
      (_, refl, refl)

content : http.value_from_str (codes "application/json") ≡ some (codes "application/json")
unfolding value_from_str
content = refl

abbrev too_long : Outcome crates
too_long = failed (root (record { is_length_limit = true; text = codes "length limit exceeded" }))

leave-status_example :
    (leave crates semaphores prometheus json first_in too_long 2 after_start).1.status ≡ 413
unfolding is_length_limit_error
leave-status_example =
    leave-status crates semaphores prometheus json first_in too_long 2 after_start
      (codes "application/json") content
