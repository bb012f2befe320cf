-- ===== src/System.antt =====
-- The server as a whole: the requests of src/server.rs and src/proxy.rs with the balancer of
-- src/balancer.rs and the health state of src/upstream.rs that they share, and the background tasks,
-- in every order of their steps.
pub mod Pool
pub mod Sound
pub mod Guarantees
pub mod Scrapes
pub mod Ticks
pub mod Forwarded
pub mod Identifiers
pub mod Accounts
use palisade.Prelude.{ℕ, suc, Option, none, some, List, [], ◌∷◌, ◌++◌, Except, ok, err, modify}
use palisade.Text.{Str}
use palisade.RateLimit.{retain_recent}
use palisade.Semaphore.{Semaphores}
use palisade.Metrics.{Prometheus}
use palisade.Proxy.Crates.{Crates}
use palisade.Proxy.Screen.{Request}
use palisade.Proxy.Pipeline.{Shared, Outcome, Peer, on_backend}
use palisade.Server.Service.{ServerState, InFlight, HttpResponse, enter, leave}
use palisade.Server.Tasks.{Probe, probed}

-- The requests in flight after an entry.
abbrev pub joined : {A E : Type 0} → Except E A → List A → List A
joined (ok f) fs = f ∷ fs
joined (err e) fs = fs

-- `spawn_rate_limit_cleanup` prunes the limiter, if there is one.
abbrev pub pruned : (c : Crates) → ℕ → Option c.governor.Limiter → Option c.governor.Limiter
pruned c now none = none
pruned c now (some limiter) = some (retain_recent c.governor limiter now)

module _ (c : Crates) (s : Semaphores) (p : Prometheus) (json : Str → Str → Str) where
  -- The health checker has probed the backend at an index.
  abbrev pub after_probe : ℕ → Probe → ℕ → ServerState c s p json → ServerState c s p json
  after_probe i answer now st = record st {
    shared =
        on_backend c i
          (probed c.http st.config.failure_threshold st.config.healthy_threshold now answer)
          st.shared;
  }

  abbrev pub after_cleanup : ℕ → ServerState c s p json → ServerState c s p json
  after_cleanup now st = record st {
    shared = record st.shared { limiter = pruned c now st.shared.limiter };
  }

  -- A request whose connection goes away is dropped, and its permit with it.
  abbrev pub after_drop : ServerState c s p json → ServerState c s p json
  after_drop st = record st { semaphore = s.release st.semaphore }

  -- The states that the server reaches, with the requests in flight: requests enter, leave and are
  -- dropped, backends are probed and the limiter is pruned, in any order. Each call of a method of the
  -- balancer or of a backend is one step here; Balancer/Threads.antt and Upstream/Threads.antt take
  -- these calls apart.
  pub data Run (B : Type 0) (st0 : ServerState c s p json)
      : List (InFlight c s p json B) → ServerState c s p json → Type 0 where
    started : Run B st0 [] st0
    entered :
        {fs : List (InFlight c s p json B)} {st : ServerState c s p json} (req : Request c B)
        (peer : Peer c) (now ended : ℕ)
        → Run B st0 fs st
        → Run B st0
            (joined (enter c s p json req peer now ended st).1 fs)
            (enter c s p json req peer now ended st).0
    left :
        {st : ServerState c s p json} (fs gs : List (InFlight c s p json B))
        (f : InFlight c s p json B) (o : Outcome c) (now : ℕ)
        → Run B st0 (fs ++ f ∷ gs) st
        → Run B st0 (fs ++ gs) (leave c s p json f o now st).0
    dropped :
        {st : ServerState c s p json} (fs gs : List (InFlight c s p json B))
        (f : InFlight c s p json B)
        → Run B st0 (fs ++ f ∷ gs) st
        → Run B st0 (fs ++ gs) (after_drop st)
    probed_at :
        {fs : List (InFlight c s p json B)} {st : ServerState c s p json} (i : ℕ) (answer : Probe)
        (now : ℕ)
        → Run B st0 fs st
        → Run B st0 fs (after_probe i answer now st)
    cleaned :
        {fs : List (InFlight c s p json B)} {st : ServerState c s p json} (now : ℕ)
        → Run B st0 fs st
        → Run B st0 fs (after_cleanup now st)
