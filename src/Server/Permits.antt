-- ===== src/Server/Permits.antt =====
-- The permits of the request semaphore, over all interleavings of the requests.
use palisade.Prelude.{
  ℕ, suc, ◌+◌, ◌≤◌, ◌≡◌, refl, none, arith, Except, ok, err, Option-cases, Except-cases, inl, inr,
  ◌↔◌, ◌-◌, sym, ◌∙◌,
}
use palisade.Text.{Str}
use palisade.Error.{Result, service_unavailable}
use palisade.Semaphore.{Semaphores, SemaphoreLaws}
use palisade.Metrics.{Prometheus}
use palisade.Proxy.Crates.{Crates}
use palisade.Proxy.Screen.{Request}
use palisade.Proxy.Pipeline.{Shared, Outcome, Peer, begin_request, finish_request}
use palisade.Server.Service.{
  ServerState, InFlight, HttpResponse, error_response, answer, enter, leave,
}

-- The requests that an entry leaves in flight.
abbrev pub waiting : {A E : Type 0} → Except E A → ℕ
waiting (ok f) = 1
waiting (err e) = 0

module _ (c : Crates) (s : Semaphores) (k : SemaphoreLaws s) (p : Prometheus)
    (json : Str → Str → Str) where
  open s use {available_permits, try_acquire, sem_new}

  abbrev State : Type 0
  State = ServerState c s p json

  answer-semaphore :
      (r : Result (HttpResponse c s p json)) (latency : ℕ) (st : State)
      → ((answer c s p json r latency st).0.semaphore ≡ st.semaphore)
        × ((answer c s p json r latency st).0.concurrency_limit ≡ st.concurrency_limit)
  unfolding answer
  answer-semaphore (ok resp) latency st = (refl, refl)
  answer-semaphore (err e) latency st = (refl, refl)

  module _ {B : Type 0} (req : Request c B) (peer : Peer c) (now ended : ℕ) (st : State) where
    -- When no permit is left a request is refused with the 503 response, and the state that
    -- requests share and the semaphore stay as they were.
    pub enter-full :
        try_acquire st.semaphore ≡ none
        → ((enter c s p json req peer now ended st).1
            ≡ err (error_response c s p json (service_unavailable st.concurrency_limit)))
          × ((enter c s p json req peer now ended st).0.shared ≡ st.shared)
          × ((enter c s p json req peer now ended st).0.semaphore ≡ st.semaphore)
    unfolding enter
    enter-full e = rw (e, enter) (refl, refl, refl)

    pub enter-permits :
        (available_permits (enter c s p json req peer now ended st).0.semaphore
            + waiting (enter c s p json req peer now ended st).1
          ≡ available_permits st.semaphore)
        × ((enter c s p json req peer now ended st).0.concurrency_limit ≡ st.concurrency_limit)
    unfolding enter
    enter-permits = elim (Option-cases (try_acquire st.semaphore)) [
      | inl e ↦ rw (e, enter) (omega arith, refl)
      | inr (sem, e) ↦ elim (Except-cases (begin_request c st.config req peer now st.shared).1) [
        | inl (f, q) ↦ rw (e, q, enter) (omega (arith, k.try_acquire-some st.semaphore sem e), refl)
        | inr (x, q) ↦
            rw (e, q, enter, (answer-semaphore (err x) _ _).0, (answer-semaphore (err x) _ _).1)
              (omega (arith, k.try_acquire-some st.semaphore sem e, k.available-release sem), refl)
      ]
    ]

  pub leave-permits :
      {B : Type 0} (f : InFlight c s p json B) (o : Outcome c) (now : ℕ) (st : State)
      → (available_permits (leave c s p json f o now st).0.semaphore
          ≡ suc (available_permits st.semaphore))
        × ((leave c s p json f o now st).0.concurrency_limit ≡ st.concurrency_limit)
  unfolding leave
  leave-permits f o now st =
      let (shared, result) = finish_request c st.config f.flight now o st.shared in
      let (same_semaphore, same_limit) =
        answer-semaphore result (now - f.started)
          (record st { shared = shared; semaphore = s.release st.semaphore }) in
      rw (same_semaphore, same_limit) (k.available-release st.semaphore, refl)

  -- The states that the server reaches from its start with `n` requests in flight, whatever the order in
  -- which requests enter and leave and whatever the other tasks make of the shared state in between.
  pub data Run (B : Type 0) : ℕ → State → Type 0 where
    started : (st : State) → st.semaphore ≡ sem_new st.concurrency_limit → Run B 0 st
    entered :
        {n : ℕ} {st : State} (req : Request c B) (peer : Peer c) (now ended : ℕ)
        → Run B n st
        → Run B
            (n + waiting (enter c s p json req peer now ended st).1)
            (enter c s p json req peer now ended st).0
    left :
        {n : ℕ} {st : State} (f : InFlight c s p json B) (o : Outcome c) (now : ℕ)
        → Run B (suc n) st
        → Run B n (leave c s p json f o now st).0
    tended :
        {n : ℕ} {st : State} (shared : Shared c)
        → Run B n st
        → Run B n (record st { shared = shared })

  -- In every reachable state the permits that are left and the requests in flight add up to the
  -- concurrency limit: no permit is lost on any path, error paths included.
  pub Run-permits :
      {B : Type 0} (n : ℕ) (st : State)
      → Run B n st
      → available_permits st.semaphore + n ≡ st.concurrency_limit
  Run-permits n st (started _ e) = rw e (omega (arith, k.available-new st.concurrency_limit))
  Run-permits n st (entered {n = m} {st = t} req peer now ended r) = omega (
    arith,
    Run-permits m t r,
    (enter-permits req peer now ended t).0,
    (enter-permits req peer now ended t).1,
  )
  Run-permits n st (left {st = t} f o now r) =
      omega
        (arith, Run-permits (suc n) t r, (leave-permits f o now t).0, (leave-permits f o now t).1)
  Run-permits n st (tended {st = t} shared r) = Run-permits n t r

  -- In every reachable state at most as many requests are in flight as the limit allows, and the
  -- next request finds no permit exactly if as many are.
  pub Run-full :
      {B : Type 0} (n : ℕ) (st : State)
      → Run B n st
      → (n ≤ st.concurrency_limit)
        × ((try_acquire st.semaphore ≡ none) ↔ (n ≡ st.concurrency_limit))
  Run-full n st r = elim (Option-cases (try_acquire st.semaphore)) [
    | inl e ↦ (
      omega (arith, Run-permits n st r),
      (λ q. omega (arith, Run-permits n st r, k.try_acquire-none st.semaphore e), λ q. e),
    )
    | inr (t, e) ↦ (
      omega (arith, Run-permits n st r),
      (
        λ q. (let e' = sym e ∙ q in cc),
        λ q. absurd (omega (arith, Run-permits n st r, k.try_acquire-some st.semaphore t e)),
      ),
    )
  ]
