-- ===== src/Proxy/Effects.antt =====
-- What a request leaves behind in the state that all requests share.
use palisade.Prelude.{
  ℕ, ◌+◌, ◌%◌, ◌^◌, ◌≡◌, ◌≢◌, refl, ◌∙◌, some, List, get_elem?, ok, err, ◌>>◌, >>=-eq-ok,
  ok-injective, Except-cases, inl, inr, Option-cases, ap, Bool-cases, get_elem?-modify,
  if◌then◌else◌, sym, get_elem?-modify_ne,
}
use palisade.Text.{Str, decimal}
use palisade.Error.{Result, ProxyError}
use palisade.Upstream.{UpstreamState, record_success, record_failure}
use palisade.Balancer
use palisade.Config.Runtime.{or_default}
use palisade.Proxy.Crates.{Crates}
use palisade.Proxy.Screen.{Request, Runtime, inbound_request_id, screen, limit_rate}
use palisade.Proxy.Forward.{Limited, prepare}
use palisade.Proxy.Pipeline.{
  Shared, Flight, Outcome, responded, failed, elapsed, Peer, is_length_limit_error, begin_request,
  finish_request, dispatch, target, on_backend,
}

-- What an outcome says of the backend, for the request itself.
unfoldable pub judged :
    (c : Crates) → Runtime c → ℕ → Outcome c → UpstreamState c.http → UpstreamState c.http
judged c config now (responded resp) b = (record_success config.healthy_threshold b).0
judged c config now (failed e) b =
    if is_length_limit_error e then b else (record_failure now config.failure_threshold b).0
judged c config now elapsed b = (record_failure now config.failure_threshold b).0

module _ (c : Crates) {B : Type 0} (config : Runtime c) (req : Request c B) (peer : Peer c)
    (now : ℕ) (s : Shared c) where
  -- The verdict of the limiter and of the checks.
  abbrev pub verdict : Result Unit
  verdict = (limit_rate c s.limiter (c.net.ip peer.addr) now).1 >> screen c req config

  -- A request that the limiter or a check refuses gets that error, takes one identifier, and leaves
  -- the balancer and the health of every backend as they were.
  pub begin_request-refused :
      (e : ProxyError)
      → verdict ≡ err e
      → ((begin_request c config req peer now s).1 ≡ err e)
        × ((begin_request c config req peer now s).0.balancer ≡ s.balancer)
        × ((begin_request c config req peer now s).0.next_id ≡ (s.next_id + 1) % 2 ^ 64)
  unfolding begin_request
  begin_request-refused e q = rw (begin_request, q) (refl, refl, refl)

  -- The state that a request which passes goes on with.
  abbrev pub passed : Shared c
  passed = record s {
    next_id = (s.next_id + 1) % 2 ^ 64;
    limiter = (limit_rate c s.limiter (c.net.ip peer.addr) now).0;
  }

  pub begin_request-passed :
      verdict ≡ ok tt
      → begin_request c config req peer now s
        ≡ dispatch c config req peer now s.next_id
            (or_default (decimal s.next_id) (inbound_request_id c req.headers))
            passed
  unfolding begin_request
  begin_request-passed q = rw (begin_request, q) refl

  target-ok :
      (pool : List (UpstreamState c.http)) (i : ℕ) (r : Request c (Limited B))
      → target c config req peer pool i ≡ ok r
      → (b : UpstreamState c.http) × (get_elem? pool i ≡ some b)
        × (prepare c config req b.uri peer.addr peer.tls ≡ ok r)
  unfolding target
  target-ok pool i r e = elim (Option-cases (get_elem? pool i)) [
    | inl q ↦ (let e' = rw (q, target) at e in cc)
    | inr (b, q) ↦ (b, q, rw (q, target) at e)
  ]

  dispatch-ok :
      (seq : ℕ) (id : Str) (t : Shared c) (f : Flight c B)
      → (dispatch c config req peer now seq id t).1 ≡ ok f
      → (f.request_id ≡ id)
        × ((Balancer.next now t.balancer).1 ≡ ok f.backend)
        × ((b : UpstreamState c.http) × (get_elem? (Balancer.next now t.balancer).0.pool f.backend
              ≡ some b)
            × (prepare c config req b.uri peer.addr peer.tls ≡ ok f.sent))
  unfolding dispatch
  dispatch-ok seq id t f e =
      let (i, qi, gi) = >>=-eq-ok (Balancer.next now t.balancer).1 _ e in
      let (r, qr, gr) =
        >>=-eq-ok (target c config req peer (Balancer.next now t.balancer).0.pool i) _ gi in
      rw (← ok-injective _ refl gr) (refl, qi, target-ok _ i r qr)

  -- A request that is sent has passed the limiter and all checks, goes to the backend that the
  -- balancer picks, with that backend's address, and carries the identifier of the client if this is
  -- acceptable and the sequence number otherwise.
  pub begin_request-sent :
      (f : Flight c B)
      → (begin_request c config req peer now s).1 ≡ ok f
      → (verdict ≡ ok tt)
        × (f.request_id ≡ or_default (decimal s.next_id) (inbound_request_id c req.headers))
        × ((Balancer.next now s.balancer).1 ≡ ok f.backend)
        × ((b : UpstreamState c.http) × (get_elem? (Balancer.next now s.balancer).0.pool f.backend
              ≡ some b)
            × (prepare c config req b.uri peer.addr peer.tls ≡ ok f.sent))
  begin_request-sent f e = elim (Except-cases verdict) [
    | inl (u, q) ↦
        (let (i, n, b) =
            dispatch-ok _ _ passed f (ap (λ r. r.1) (sym (begin_request-passed q)) ∙ e) in
          (q, i, n, b))
    | inr (x, q) ↦ (let e' = sym (begin_request-refused x q).0 ∙ e in cc)
  ]

module _ (c : Crates) {B : Type 0} (config : Runtime c) (f : Flight c B) (now : ℕ)
    (s : Shared c) where
  -- What every end of a request leaves as it was, the backend at `j` included.
  abbrev pub Kept : ℕ → (s s' : Shared c) → Type 0
  Kept j s s' =
      (get_elem? s'.balancer.pool j ≡ get_elem? s.balancer.pool j)
      × (s'.balancer.current_weights ≡ s.balancer.current_weights)
      × (s'.next_id ≡ s.next_id)
      × (s'.limiter ≡ s.limiter)

  on_backend-Kept :
      (g : UpstreamState c.http → UpstreamState c.http) (j : ℕ)
      → j ≢ f.backend
      → Kept j s (on_backend c f.backend g s)
  on_backend-Kept g j n = (get_elem?-modify_ne f.backend j g s.balancer.pool n, refl, refl, refl)

  -- The end of a request changes no backend but its own, no running weight of the balancer, not
  -- the next identifier and not the limiter.
  pub finish_request-others :
      (o : Outcome c) (j : ℕ) → j ≢ f.backend → Kept j s (finish_request c config f now o s).0
  unfolding finish_request
  finish_request-others (responded resp) j n = on_backend-Kept _ j n
  finish_request-others (failed e) j n = elim (Bool-cases (is_length_limit_error e)) [
    | inl q ↦ rw (q, finish_request) (refl, refl, refl, refl)
    | inr q ↦ rw (q, finish_request) (on_backend-Kept _ j n)
  ]
  finish_request-others elapsed j n = on_backend-Kept _ j n

  -- The end of a request changes the health of its backend as follows: a response is a success, a
  -- failure or a timeout counts against the backend, but a request body that is too large changes
  -- nothing.
  pub finish_request-health :
      (o : Outcome c) (b : UpstreamState c.http)
      → get_elem? s.balancer.pool f.backend ≡ some b
      → get_elem? (finish_request c config f now o s).0.balancer.pool f.backend
        ≡ some (judged c config now o b)
  unfolding finish_request judged
  finish_request-health (responded resp) b g = get_elem?-modify f.backend _ s.balancer.pool g
  finish_request-health (failed e) b g = elim (Bool-cases (is_length_limit_error e)) [
    | inl q ↦ rw (q, finish_request, judged) g
    | inr q ↦ rw (q, finish_request, judged) (get_elem?-modify f.backend _ s.balancer.pool g)
  ]
  finish_request-health elapsed b g = get_elem?-modify f.backend _ s.balancer.pool g
