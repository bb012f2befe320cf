-- ===== src/Server/Drain.antt =====
-- The end of the loop of `serve`: what the shutdown signal leads to.
use palisade.Prelude.{
  ℕ, zero, suc, ◌≤◌, ◌≡◌, refl, ◌∙◌, ap, Bool, true, false, List, [], ◌∷◌, ◌++◌, ◌⊎◌, inl, inr,
  arith,
}
use palisade.Text.{any}
use palisade.Semaphore.{Semaphores, SemaphoreLaws}
use palisade.Server.Accept.{
  accepting, draining, stopped, Acceptor, Event, accept_failed, accepted, closed, shutdown_signal,
  drain_timeout, drained, on_event, step,
}
use palisade.Server.Connections.{run, listening, run-permits, run-stopped}

module _ (s : Semaphores) (k : SemaphoreLaws s) where
  -- How many connections close in a sequence of events.
  abbrev closures : List (Event s) → ℕ
  closures [] = 0
  closures (closed ∷ es) = suc (closures es)
  closures (_ ∷ es) = closures es

  abbrev is_drain_timeout : Event s → Bool
  is_drain_timeout drain_timeout = true
  is_drain_timeout _ = false

  -- As many connections close as were open, or the drain timer runs out.
  abbrev pub Drains : ℕ → List (Event s) → Type 0
  Drains live es = (live ≤ closures es) ⊎ (any is_drain_timeout es ≡ true)

  rested : (e : Event s) (a : Acceptor s) → on_event s stopped e a ≡ a
  unfolding on_event
  rested accept_failed a = refl
  rested accepted a = refl
  rested closed a = refl
  rested shutdown_signal a = refl
  rested drain_timeout a = refl

  at_rest :
      (a : Acceptor s) (es : List (Event s)) → a.phase ≡ stopped → (run s k a es).phase ≡ stopped
  unfolding run step on_event
  at_rest a [] q = q
  at_rest a (e ∷ es) q = rw (run, ap (λ ph. on_event s ph e a) q ∙ rested e a) (at_rest a es q)

  abbrev drain : ℕ → s.Semaphore → Acceptor s
  drain live sem = record { phase = draining; live = live; connection_semaphore = sem }

  drained-run :
      (live : ℕ) (sem : s.Semaphore) (es : List (Event s))
      → Drains live es
      → (run s k (drained s (drain live sem)) es).phase ≡ stopped
  unfolding run step on_event
  drained-run zero sem es d = at_rest _ es refl
  drained-run (suc n) sem [] (inl l) = absurd (omega (arith, l))
  drained-run (suc n) sem [] (inr t) = cc
  drained-run (suc n) sem (closed ∷ es) (inl l) =
      drained-run n (s.release sem) es (inl (omega (arith, l)))
  drained-run (suc n) sem (closed ∷ es) (inr t) = drained-run n (s.release sem) es (inr t)
  drained-run (suc n) sem (drain_timeout ∷ es) d = at_rest _ es refl
  drained-run (suc n) sem (accept_failed ∷ es) d = drained-run (suc n) sem es d
  drained-run (suc n) sem (accepted ∷ es) d = drained-run (suc n) sem es d
  drained-run (suc n) sem (shutdown_signal ∷ es) d = drained-run (suc n) sem es d

  run-append :
      (es fs : List (Event s)) (a : Acceptor s) → run s k a (es ++ fs) ≡ run s k (run s k a es) fs
  unfolding run
  run-append [] fs a = refl
  run-append (e ∷ es) fs a = run-append es fs (step s a e)

  shutdown-run :
      (a : Acceptor s) (es : List (Event s))
      → a.phase ≡ accepting
      → Drains a.live es
      → (run s k a (shutdown_signal ∷ es)).phase ≡ stopped
  unfolding run step on_event
  shutdown-run a es q d = rw q (drained-run a.live a.connection_semaphore es d)

  -- After the shutdown signal, as soon as every open connection has closed or the drain timer has run
  -- out, whatever else happens, the loop has stopped, no connection is left, and every permit is free.
  pub run-shutdown :
      (max_connections : ℕ) (before es : List (Event s))
      → (run s k (listening s k max_connections) before).phase ≡ accepting
      → Drains (run s k (listening s k max_connections) before).live es
      → let a = run s k (listening s k max_connections) (before ++ shutdown_signal ∷ es) in
        (a.phase ≡ stopped)
        × (a.live ≡ 0)
        × (s.available_permits a.connection_semaphore ≡ max_connections)
  run-shutdown m before es q d =
      let all = before ++ shutdown_signal ∷ es in
      let phase =
        ap (λ a. a.phase) (run-append before (shutdown_signal ∷ es) (listening s k m))
        ∙ shutdown-run (run s k (listening s k m) before) es q d in
      let live = run-stopped s k m all phase in
      (phase, live, omega (arith, run-permits s k m all, live))
