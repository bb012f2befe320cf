-- ===== src/Lib.antt =====
-- palisade: a reverse proxy (Rust) that filters, rate-limits, balances and masks HTTP traffic.
--
-- A connection comes in through the accept loop of src/server.rs, which bounds the connections with
-- a semaphore. Each request passes the service closure there, which bounds the requests in flight
-- with a second semaphore, runs `handle_request` of src/proxy.rs and records metrics. `handle_request`
-- asks the rate limiter, screens the request (smuggling, size, blocked headers and parameters), takes
-- a backend from the balancer, rewrites the request, waits for the backend, feeds the outcome into the
-- health state of that backend, and makes the response, masked where the configuration asks for it.
-- Every setting comes from `Config::into_runtime`. A health checker probes the backends in the
-- background, and an admin listener reports readiness and metrics.
--
-- What models which part (paths from the root of the repository):
-- - Upstream.antt and Upstream/: src/upstream.rs. `InnerState` is the record `UpstreamState`; a method
--   that changes atomics returns the new record, with the Boolean it reports. Upstream/Threads.antt has
--   the methods as sequences of single atomic accesses, for calls in several threads.
-- - Balancer.antt and Balancer/: src/balancer.rs. `scan` is the loop of `LoadBalancer::next`, `select`
--   what follows it. Balancer/Spec.antt describes a round of smooth weighted round-robin over
--   integers without bounds, and Balancer/Refines.antt relates the two. Balancer/Threads.antt has the
--   same call as a sequence of single atomic accesses, for calls in several threads. Balancer/Trials.antt
--   is about the trials of ejected backends.
-- - Headers.antt and Headers/: src/headers.rs, one function per function.
-- - Config.antt and Config/: src/config.rs. Config/Schema.antt has the structs, Config/Runtime.antt the
--   checks, Config/Load.antt `into_runtime` and Config/File.antt `load_from_file`. Config/Fits.antt
--   describes the configurations that load without the order of the checks.
-- - RateLimit.antt: src/rate_limit.rs.
-- - Proxy.antt and Proxy/: src/proxy.rs. `handle_request` is `begin_request` up to its wait for the
--   backend and `finish_request` after it, both on the state `Shared` that all requests share, so that
--   other requests can run between the two. Proxy/Client.antt has the builders of the clients.
-- - Server.antt and Server/: src/server.rs. `enter` and `leave` are the two halves of the service
--   closure, `on_event` is the accept loop with its drain, `health_tick` and `cleanup_tick` are one tick
--   of each background task. Server/Statuses.antt describes the status of each outcome.
-- - System.antt and System/: the requests of src/server.rs and src/proxy.rs, the balancer, the backends'
--   health and the background tasks together. `Run` is the relation of the states that the server
--   reaches, with the requests in flight, in every order of entries, ends, drops, probes and cleanups.
--   System/Forwarded.antt is about what the requests in flight were sent as, System/Identifiers.antt
--   about their numbers, and System/Accounts.antt about what the metrics count of a run.
-- - Tls.antt: src/tls.rs.
-- - Program.antt and Program/: `main` of src/main.rs, from loading the configuration to the call of
--   `serve`, with each of its exits. Program/Launch.antt connects it to System/.
-- - Error.antt, Metrics.antt, Admin.antt and their children: src/error.rs, src/metrics.rs, src/admin.rs.
-- - Prelude.antt, Text.antt and Duration.antt: shared helpers, and the parts of Rust's standard library
--   that the sources call. Tests.antt and Tests/ run the code on concrete inputs; Tests/Unit.antt and
--   Tests/Unit/ are the unit tests of src/balancer.rs, src/config.rs, src/headers.rs, src/proxy.rs and
--   src/upstream.rs, one truth value for each, which Tests/Unit/World.antt gives its parameters.
--
-- Numbers: `u32`, `u64` and `i64` values keep their wrap-around or saturation where the code can reach
-- it; times are nanoseconds, and the clock is an argument. The structures are finite lists and every
-- loop is a recursion on one, so no fuel is used. Running weights are bounded by a hypothesis, which
-- Balancer/Fairness.antt and Balancer/History.antt derive from a bound on the sum of the weights.
--
-- Parameters: the crates `http`, `hyper`, `regex`, `governor`, `prometheus_client` and `rustls`, the HTTP
-- client, the file system with the TOML reader, socket addresses and listeners, and tokio's semaphore
-- are records of operations (Http, Net, RegexLib, Governor, Prometheus, Rustls, Clients, Files, World,
-- Semaphores, Crates); HttpLaws, NetLaws, CratesLaws, PrometheusLaws and SemaphoreLaws name the
-- documented behaviour that theorems rely on. Tests/World.antt gives concrete ones with their laws.
--
-- Not modelled: the command line, logging and the abort of the background tasks in src/main.rs,
-- the signal handler, the protocol settings of a connection, the unit test that loads a file, the
-- accept loop of the admin listener, and weak memory orders: the atomic accesses of all threads
-- have one order. System/ takes each method of the balancer and of a backend as one step. Between
-- single accesses more can happen: two successes and a failure that interleave can leave a healthy
-- backend with its cooldown armed, which no sequence of whole calls does. Balancer/Threads.antt
-- and Upstream/Threads.antt are about the single accesses.
pub mod Prelude
pub mod Text
pub mod Duration
pub mod Http
pub mod Error
pub mod Upstream
pub mod Balancer
pub mod Net
pub mod Headers
pub mod Config
pub mod RateLimit
pub mod Proxy
pub mod Semaphore
pub mod Metrics
pub mod Server
pub mod Admin
pub mod System
pub mod Tls
pub mod Program
pub mod Tests
