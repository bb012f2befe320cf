-- ===== src/System/Forwarded.antt =====
-- What every request in flight has been sent as.
use mathlib.Core.Path.{subst}
use palisade.Prelude.{
  All, All-middle, All-at, All-map, ◌⊎◌, ℕ, zero, suc, ◌≤◌, ◌≡◌, refl, sym, ap, ◌∙◌, Option, none,
  some, List, [], ◌∷◌, get_elem?, ok, err, Option-cases, Except-cases, inl, inr, ◌-◌,
}
use palisade.Text.{Str}
use palisade.Http.{Http}
use palisade.Error.{service_unavailable}
use palisade.Semaphore.{Semaphores, SemaphoreLaws}
use palisade.Metrics.{Prometheus}
use palisade.Upstream.{UpstreamState}
use palisade.Balancer
use palisade.Proxy.Crates.{Crates, CratesLaws}
use palisade.Proxy.Screen.{Request, Runtime}
use palisade.Proxy.Forward.{prepare}
use palisade.Proxy.Sent.{prepare-parts}
use palisade.Proxy.Pipeline.{Flight, Peer, begin_request}
use palisade.Proxy.Effects.{begin_request-sent}
use palisade.Server.Service.{ServerState, InFlight, HttpResponse, error_response, answer, enter}
use palisade.System.{Run, started, entered, left, dropped, probed_at, cleaned}
use palisade.System.Pool.{uris_of, next-uris}
use palisade.System.Sound.{IsSound, Run-IsSound, Run-config}

uri-at :
    {h : Http} (i : ℕ) (pool : List (UpstreamState h)) (b : UpstreamState h)
    → get_elem? pool i ≡ some b
    → get_elem? (uris_of pool) i ≡ some b.uri
uri-at i [] b g = cc
uri-at {h = h} zero (x ∷ pool) b g =
    ap (λ (o : Option (UpstreamState h)). elim o [ none ↦ none | some y ↦ some y.uri ]) g
uri-at (suc i) (x ∷ pool) b g = uri-at i pool b g

module _ (c : Crates) {B : Type 0} (config : Runtime c) (uris : List c.http.Uri) where
  -- A request was prepared for the backend that it goes to.
  pub record IsForwarded (f : Flight c B) : Type 0 where
    pub request : Request c B
    pub peer : Peer c
    pub upstream : c.http.Uri
    pub at : get_elem? uris f.backend ≡ some upstream
    pub prepared : prepare c config request upstream peer.addr peer.tls ≡ ok f.sent

module _ (c : Crates) (s : Semaphores) (k : SemaphoreLaws s) (p : Prometheus)
    (json : Str → Str → Str) {B : Type 0} where
  -- An entry either has begun a request or has answered it.
  pub enter-cases :
      (req : Request c B) (peer : Peer c) (now ended : ℕ) (st : ServerState c s p json)
      → ((f : InFlight c s p json B) × ((enter c s p json req peer now ended st).1 ≡ ok f)
          × ((begin_request c st.config req peer now st.shared).1 ≡ ok f.flight)
          × ((enter c s p json req peer now ended st).0.shared
              ≡ (begin_request c st.config req peer now st.shared).0))
        ⊎ ((x : HttpResponse c s p json) × ((enter c s p json req peer now ended st).1 ≡ err x))
  unfolding enter
  enter-cases req peer now ended st = elim (Option-cases (s.try_acquire st.semaphore)) [
    | inl e ↦
        inr
          (error_response c s p json (service_unavailable st.concurrency_limit), rw (e, enter) refl)
    | inr (sem, e) ↦ elim (Except-cases (begin_request c st.config req peer now st.shared).1) [
      | inl (f, q) ↦
          inl
            (record { flight = f; started = now }, rw (e, q, enter) refl, q, rw (e, q, enter) refl)
      | inr (x, q) ↦ inr (
        (answer c s p json (err x) (ended - now) (record st {
          shared = (begin_request c st.config req peer now st.shared).0;
          semaphore = s.release sem;
        })).1,
        rw (e, q, enter) refl,
      )
    ]
  ]

  -- The request is one of those that have entered in a run.
  abbrev pub HasEntered :
      {st0 : ServerState c s p json} {fs : List (InFlight c s p json B)}
      {st : ServerState c s p json}
      → Request c B
      → Run c s p json B st0 fs st
      → Type 0
  HasEntered req started = ⊥
  HasEntered req (entered req' peer now ended r) = (req ≡ req') ⊎ HasEntered req r
  HasEntered req (left fs gs f o now r) = HasEntered req r
  HasEntered req (dropped fs gs f r) = HasEntered req r
  HasEntered req (probed_at i answer now r) = HasEntered req r
  HasEntered req (cleaned now r) = HasEntered req r

  module _ (bs : List (UpstreamState c.http)) {st0 : ServerState c s p json}
      (start : IsSound c s k p json B bs [] st0) where
    abbrev Forwarded :
        {fs : List (InFlight c s p json B)} {st : ServerState c s p json}
        → Run c s p json B st0 fs st
        → InFlight c s p json B
        → Type 0
    Forwarded r f = (v : IsForwarded c st0.config (uris_of bs) f.flight) × HasEntered v.request r

    Run-Forwarded :
        {fs : List (InFlight c s p json B)} {st : ServerState c s p json}
        (r : Run c s p json B st0 fs st)
        → All (Forwarded r) fs
    Run-Forwarded started = tt
    Run-Forwarded (entered {fs = fs} {st = st} req peer now ended r) =
        let v = Run-IsSound c s k p json bs start r in
        let t = v.thresholds in
        elim (enter-cases req peer now ended st) [
          | inl (f, e, q, z) ↦
              (let (b, g, prepared) =
                  (begin_request-sent c st.config req peer now st.shared f.flight q).3 in
                let same =
                  next-uris _ _ t.failures_u32 t.successes_u32 t.ejects t.recovers now
                    st.shared.balancer
                  ∙ v.tended.uris in
                rw e (
                  (
                    record {
                      request = req;
                      peer = peer;
                      upstream = b.uri;
                      at =
                          ap (λ us. get_elem? us f.flight.backend) (sym same)
                          ∙ uri-at f.flight.backend (Balancer.next now st.shared.balancer).0.pool b
                              g;
                      prepared =
                          subst
                            (λ config.
                              prepare c config req b.uri peer.addr peer.tls ≡ ok f.flight.sent)
                            (Run-config c s k p json r) prepared;
                    },
                    inl refl,
                  ),
                  All-map _ _ (λ f v. (v.0, inr v.1)) fs (Run-Forwarded r),
                ))
          | inr (x, e) ↦ rw e (All-map _ _ (λ f v. (v.0, inr v.1)) fs (Run-Forwarded r))
        ]
    Run-Forwarded (left fs gs f o now r) = (All-middle (Forwarded r) fs gs f (Run-Forwarded r)).1
    Run-Forwarded (dropped fs gs f r) = (All-middle (Forwarded r) fs gs f (Run-Forwarded r)).1
    Run-Forwarded (probed_at i answer now r) = Run-Forwarded r
    Run-Forwarded (cleaned now r) = Run-Forwarded r

    -- Every request in flight, in every state that the server reaches, was sent to the scheme and the
    -- authority of the configured backend that it waits for, with its body cut off at the configured
    -- size or below.
    pub Run-sent :
        (l : CratesLaws c) {fs : List (InFlight c s p json B)} {st : ServerState c s p json} (i : ℕ)
        (f : InFlight c s p json B)
        → Run c s p json B st0 fs st
        → get_elem? fs i ≡ some f
        → (up : c.http.Uri) × (get_elem? (uris_of bs) f.flight.backend ≡ some up)
          × (c.http.scheme f.flight.sent.uri ≡ c.http.scheme up)
          × (c.http.authority f.flight.sent.uri ≡ c.http.authority up)
          × (f.flight.sent.body.limit ≤ st.config.max_body_size)
    Run-sent l {st = st} i f r g =
        let (v, from) = All-at (Forwarded r) i _ f (Run-Forwarded r) g in
        let (a, qa, x, y, h, b) =
          prepare-parts c l st0.config v.request v.upstream v.peer.addr v.peer.tls f.flight.sent
            v.prepared in
        (v.upstream, v.at, x, y, rw (Run-config c s k p json r) b)
