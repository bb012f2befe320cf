-- ===== src/Server/Connections.antt =====
-- The permits of the connection semaphore, over everything that the accept loop can meet.
use palisade.Prelude.{
  ℕ, zero, suc, ◌+◌, ◌≡◌, refl, List, [], ◌∷◌, arith, Option-cases, inl, inr, sym, ◌∙◌, ◌⊎◌,
}
use palisade.Semaphore.{Semaphores, SemaphoreLaws}
use palisade.Server.Accept.{
  Phase, accepting, draining, stopped, Acceptor, Event, accept_failed, accepted, closed,
  shutdown_signal, drain_timeout, close, drained, give_back, on_event, step,
}

ℕ-cases : (n : ℕ) → (n ≡ 0) ⊎ ((m : ℕ) × (n ≡ suc m))
ℕ-cases zero = inl refl
ℕ-cases (suc n) = inr (n, refl)

module _ (s : Semaphores) (k : SemaphoreLaws s) where
  open s use {available_permits, try_acquire, release, sem_new}

  -- The run of the loop over a sequence of events.
  unfoldable pub run : Acceptor s → List (Event s) → Acceptor s
  run a [] = a
  run a (e ∷ es) = run (step s a e) es

  -- The loop as it starts.
  unfoldable pub listening : ℕ → Acceptor s
  listening max_connections = record {
    phase = accepting;
    live = 0;
    connection_semaphore = sem_new max_connections;
  }

  -- The permits and the tasks add up, and a stopped loop has no task.
  record IsBalanced (max_connections : ℕ) (a : Acceptor s) : Type 0 where
    permits : available_permits a.connection_semaphore + a.live ≡ max_connections
    quiet : a.phase ≡ stopped → a.live ≡ 0

  give_back-permits :
      (n : ℕ) (sem : s.Semaphore)
      → available_permits (give_back s n sem) ≡ available_permits sem + n
  unfolding give_back
  give_back-permits zero sem = omega arith
  give_back-permits (suc n) sem =
      omega (arith, give_back-permits n (release sem), k.available-release sem)

  close-permits :
      (a : Acceptor s)
      → (available_permits (close s a).connection_semaphore + (close s a).live
          ≡ available_permits a.connection_semaphore + a.live)
        × ((close s a).phase ≡ a.phase)
  close-permits a = elim (ℕ-cases a.live) [
    | inl e ↦ rw e (refl, refl)
    | inr (n, e) ↦ rw e (omega (arith, k.available-release a.connection_semaphore), refl)
  ]

  drained-IsBalanced :
      (m : ℕ) (a : Acceptor s)
      → available_permits a.connection_semaphore + a.live ≡ m
      → a.phase ≡ draining
      → IsBalanced m (drained s a)
  drained-IsBalanced m a e q = elim (ℕ-cases a.live) [
    | inl z ↦ rw z (record { permits = omega (arith, e); quiet = λ r. refl })
    | inr (n, z) ↦
        rw z (record { permits = omega (arith, e); quiet = λ r. (let r' = sym q ∙ r in cc) })
  ]

  on_event-IsBalanced :
      (m : ℕ) (ph : Phase s) (e : Event s) (a : Acceptor s)
      → a.phase ≡ ph
      → IsBalanced m a
      → IsBalanced m (on_event s ph e a)
  unfolding on_event
  on_event-IsBalanced m accepting accept_failed a q b = b
  on_event-IsBalanced m accepting accepted a q b =
      elim (Option-cases (try_acquire a.connection_semaphore)) [
        | inl e ↦ rw (e, on_event) b
        | inr (sem, e) ↦
            rw (e, on_event)
              (record {
                permits = omega (arith, b.permits, k.try_acquire-some a.connection_semaphore sem e);
                quiet = λ r. (let r' = sym q ∙ r in cc);
              })
      ]
  on_event-IsBalanced m accepting closed a q b = record {
    permits = (close-permits a).0 ∙ b.permits;
    quiet = λ r. (let r' = sym q ∙ (sym (close-permits a).1 ∙ r) in cc);
  }
  on_event-IsBalanced m accepting shutdown_signal a q b = drained-IsBalanced m _ b.permits refl
  on_event-IsBalanced m accepting drain_timeout a q b = b
  on_event-IsBalanced m draining closed a q b =
      drained-IsBalanced m (close s a) ((close-permits a).0 ∙ b.permits) ((close-permits a).1 ∙ q)
  on_event-IsBalanced m draining drain_timeout a q b = record {
    permits = omega (arith, b.permits, give_back-permits a.live a.connection_semaphore);
    quiet = λ r. refl;
  }
  on_event-IsBalanced m draining accept_failed a q b = b
  on_event-IsBalanced m draining accepted a q b = b
  on_event-IsBalanced m draining shutdown_signal a q b = b
  on_event-IsBalanced m stopped accept_failed a q b = b
  on_event-IsBalanced m stopped accepted a q b = b
  on_event-IsBalanced m stopped closed a q b = b
  on_event-IsBalanced m stopped shutdown_signal a q b = b
  on_event-IsBalanced m stopped drain_timeout a q b = b

  run-IsBalanced :
      (m : ℕ) (es : List (Event s)) (a : Acceptor s) → IsBalanced m a → IsBalanced m (run a es)
  unfolding run step
  run-IsBalanced m [] a b = b
  run-IsBalanced m (e ∷ es) a b =
      run-IsBalanced m es (step s a e) (on_event-IsBalanced m a.phase e a refl b)

  listening-IsBalanced : (m : ℕ) → IsBalanced m (listening m)
  unfolding listening
  listening-IsBalanced m = record { permits = omega (arith, k.available-new m); quiet = λ r. refl }

  -- After any sequence of events, the free permits and the live connections add up to the
  -- connection limit.
  pub run-permits :
      (max_connections : ℕ) (es : List (Event s))
      → available_permits (run (listening max_connections) es).connection_semaphore
          + (run (listening max_connections) es).live
        ≡ max_connections
  run-permits m es = (run-IsBalanced m es (listening m) (listening-IsBalanced m)).permits

  -- When the loop has stopped no connection is left: the drain waits for all, or its timer ends them.
  pub run-stopped :
      (max_connections : ℕ) (es : List (Event s))
      → (run (listening max_connections) es).phase ≡ stopped
      → (run (listening max_connections) es).live ≡ 0
  run-stopped m es = (run-IsBalanced m es (listening m) (listening-IsBalanced m)).quiet
