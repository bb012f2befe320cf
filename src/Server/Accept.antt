-- ===== src/Server/Accept.antt =====
-- The loop of `serve`: connections that are accepted, refused and closed, the shutdown and the drain.
use palisade.Prelude.{ℕ, zero, suc, none, some}
use palisade.Semaphore.{Semaphores}

module _ (s : Semaphores) where
  open s use {Semaphore, try_acquire, release}

  -- `accepting` until the loop breaks, `draining` while `graceful.shutdown()` runs, then `stopped`.
  pub data Phase : Type 0 where
    accepting draining stopped : Phase

  -- `live` counts the tasks of the `JoinSet` that still run, each with its permit.
  pub record Acceptor : Type 0 where
    pub phase : Phase
    pub live : ℕ
    pub connection_semaphore : Semaphore

  -- What the `select!` of the loop, the connections and the drain timer can do.
  pub data Event : Type 0 where
    accept_failed : Event
    accepted : Event
    closed : Event
    shutdown_signal : Event
    drain_timeout : Event

  unfoldable pub give_back : ℕ → Semaphore → Semaphore
  give_back zero sem = sem
  give_back (suc n) sem = give_back n (release sem)

  -- A connection's task ends, also when its TLS handshake fails.
  abbrev pub close : Acceptor → Acceptor
  close a = elim a.live [
    | zero ↦ a
    | suc n ↦ record a { live = n; connection_semaphore = release a.connection_semaphore }
  ]

  -- The drain ends by itself when no connection is left.
  abbrev pub drained : Acceptor → Acceptor
  drained a = elim a.live [ zero ↦ record a { phase = stopped } | suc n ↦ a ]

  unfoldable pub on_event : Phase → Event → Acceptor → Acceptor
  unfolding give_back
  on_event accepting accept_failed a = a
  on_event accepting accepted a = elim (try_acquire a.connection_semaphore) [
    | none ↦ a
    | some sem ↦ record a { live = suc a.live; connection_semaphore = sem }
  ]
  on_event accepting closed a = close a
  on_event accepting shutdown_signal a = drained (record a { phase = draining })
  on_event accepting drain_timeout a = a
  on_event draining closed a = drained (close a)
  on_event draining drain_timeout a = record a {
    phase = stopped;
    live = 0;
    connection_semaphore = give_back a.live a.connection_semaphore;
  }
  on_event draining _ a = a
  on_event stopped _ a = a

  unfoldable pub step : Acceptor → Event → Acceptor
  unfolding on_event
  step a e = on_event a.phase e a
