-- ===== src/Proxy/Pipeline.antt =====
-- `handle_request`: the state that it shares with other requests, its part up to the wait for the
-- backend (`begin_request`), and its part after it (`finish_request`). Other requests may run in
-- between, on the same state.
use palisade.Prelude.{
  ℕ, ◌+◌, ◌%◌, ◌^◌, Bool, ◌||◌, Option, none, some, List, [], modify, get_elem?, if◌then◌else◌, ok,
  err, ◌>>=◌, ◌>>◌,
}
use palisade.Text.{Str, decimal}
use palisade.Error.{
  Result, ErrorChain, root, caused, Response, body_too_large, upstream, timeout, internal,
}
use palisade.Upstream.{UpstreamState, record_success, record_failure}
use palisade.Balancer.{LoadBalancer}
use palisade.Balancer
use palisade.Config.Runtime.{or_default}
use palisade.Proxy.Crates.{Crates}
use palisade.Proxy.Screen.{Request, Runtime, inbound_request_id, screen, limit_rate}
use palisade.Proxy.Forward.{Limited, prepare}
use palisade.Proxy.Reply.{BoxBody, reply}

-- `successors(Some(err), |e| e.source()).any(|e| e.is::<LengthLimitError>())`
unfoldable pub is_length_limit_error : ErrorChain → Bool
is_length_limit_error (root l) = l.is_length_limit
is_length_limit_error (caused l rest) = l.is_length_limit || is_length_limit_error rest

module _ (c : Crates) where
  -- What all requests share: `REQUEST_ID`, the balancer with the pool, and the rate limiter.
  pub record Shared : Type 0 where
    pub next_id : ℕ
    pub balancer : LoadBalancer c.http
    pub limiter : Option c.governor.Limiter

  -- What a request carries across the wait: its identifiers, its backend and what is sent.
  pub record Flight (B : Type 0) : Type 0 where
    pub seq : ℕ
    pub request_id : Str
    pub backend : ℕ
    pub sent : Request c (Limited B)

  -- `timeout(config.request_timeout, client.request(proxy_req)).await`
  pub data Outcome : Type 0 where
    responded : Response c.http c.Incoming → Outcome
    failed : ErrorChain → Outcome
    elapsed : Outcome

  -- The connection that a request came in on.
  pub record Peer : Type 0 where
    pub addr : c.net.SocketAddr
    pub tls : Bool

  -- The request that is sent to the backend at an index of the pool. The balancer returns indices of
  -- its own pool, so the `none` case stands for no code.
  unfoldable pub target :
      {B : Type 0}
      → Runtime c
      → Request c B
      → Peer
      → List (UpstreamState c.http)
      → ℕ
      → Result (Request c (Limited B))
  target config req peer pool i = elim (get_elem? pool i) [
    | none ↦ err (internal [])
    | some b ↦ prepare c config req b.uri peer.addr peer.tls
  ]

  -- From the choice of a backend on.
  unfoldable pub dispatch :
      {B : Type 0}
      → Runtime c
      → Request c B
      → Peer
      → ℕ
      → ℕ
      → Str
      → Shared
      → Shared × Result (Flight B)
  dispatch config req peer now seq request_id s =
      let (lb, chosen) = Balancer.next now s.balancer in
      (
        record s { balancer = lb },
        (do
          i ← chosen
          sent ← target config req peer lb.pool i
          ok (record { seq = seq; request_id = request_id; backend = i; sent = sent })),
      )

  unfoldable pub begin_request :
      {B : Type 0} → Runtime c → Request c B → Peer → ℕ → Shared → Shared × Result (Flight B)
  unfolding dispatch
  begin_request config req peer now s =
      let seq = s.next_id in
      let request_id = or_default (decimal seq) (inbound_request_id c req.headers) in
      let (limiter, allowed) = limit_rate c s.limiter (c.net.ip peer.addr) now in
      let s' : Shared = record s { next_id = (seq + 1) % 2 ^ 64; limiter = limiter } in
      elim (allowed >> screen c req config) [
        | err e ↦ (s', err e)
        | ok u ↦ dispatch config req peer now seq request_id s'
      ]

  -- A change of the health of the backend that a request went to.
  abbrev pub on_backend : ℕ → (UpstreamState c.http → UpstreamState c.http) → Shared → Shared
  on_backend i f s = record s { balancer = record s.balancer { pool = modify i f s.balancer.pool } }

  unfoldable pub finish_request :
      {B : Type 0}
      → Runtime c
      → Flight B
      → ℕ
      → Outcome
      → Shared
      → Shared × Result (Response c.http (BoxBody c))
  finish_request config f now (responded resp) s = (
    on_backend f.backend (λ b. (record_success config.healthy_threshold b).0) s,
    reply c config f.request_id f.seq resp,
  )
  finish_request config f now (failed e) s =
      if is_length_limit_error e then (s, err (body_too_large config.max_body_size)) else (
        on_backend f.backend (λ b. (record_failure now config.failure_threshold b).0) s,
        err (upstream e),
      )
  finish_request config f now elapsed s = (
    on_backend f.backend (λ b. (record_failure now config.failure_threshold b).0) s,
    err (timeout config.request_timeout),
  )

  -- A request that runs alone: `client` is what the backend and the network make of what is sent.
  unfoldable pub handle_request :
      {B : Type 0}
      → Runtime c
      → (Request c (Limited B) → Outcome)
      → Request c B
      → Peer
      → (now later : ℕ) → Shared
      → Shared × Result (Response c.http (BoxBody c))
  handle_request config client req peer now later s =
      let (s', begun) = begin_request config req peer now s in
      elim begun [ err e ↦ (s', err e) | ok f ↦ finish_request config f later (client f.sent) s' ]
