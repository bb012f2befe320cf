-- ===== src/Balancer/Trials.antt =====
-- How often `LoadBalancer::next` routes a trial to an ejected backend.
use mathlib.Core.Option.{some-injective}
use palisade.Prelude.{
  ℕ, suc, ◌+◌, ◌<◌, ◌≡◌, ◌≢◌, refl, sym, ap, ◌∙◌, true, false, some, List, [], ◌∷◌, get_elem?,
  modify, get_elem?-modify, get_elem?-modify_ne, All, ok, err, ok-injective, Option-cases,
  Except-cases, Bool-cases, inl, inr, ◌⊎◌, arith,
}
use palisade.Prelude.Int.{ℤ, pos, ltb_ℤ}
use palisade.Duration.{u64_max}
use palisade.Http.{Http}
use palisade.Error.{Result, ProxyError}
use palisade.Upstream.{UpstreamState, is_eligible, arm_cooldown, now_ms}
use palisade.Upstream.Cooldown.{one_trial_per_window}
use palisade.Balancer.Word.{saturating_add}
use palisade.Balancer.{LoadBalancer, Scan, start, visit, scan, select, routed, next}

visit-best :
    (idx : ℕ) (w c : ℤ) (s : Scan) (i : ℕ)
    → (visit idx w c s).best ≡ some i
    → (s.best ≡ some i) ⊎ (i ≡ idx)
unfolding visit
visit-best idx w c s i e = elim (Bool-cases (ltb_ℤ s.best_weight (saturating_add c w))) [
  | inl q ↦ inr (sym (some-injective _ _ (rw (q, visit) at e)))
  | inr q ↦ inl (rw (q, visit) at e)
]

module _ {h : Http} (now : ℕ) where
  -- The loop ends with the backend that it began with, or with one that it found eligible.
  scan-is_eligible :
      (idx : ℕ) (bs : List (UpstreamState h)) (cs : List ℤ) (s : Scan) (i : ℕ)
      → (scan now idx bs cs s).1.best ≡ some i
      → (s.best ≡ some i)
        ⊎ ((j : ℕ) × (b : UpstreamState h) × (i ≡ idx + j)
            × (get_elem? bs j ≡ some b)
            × (is_eligible now b ≡ true))
  unfolding scan
  scan-is_eligible idx [] cs s i e = inl e
  scan-is_eligible idx (b ∷ bs) [] s i e = inl e
  scan-is_eligible idx (b ∷ bs) (c ∷ cs) s i e = elim (Bool-cases (is_eligible now b)) [
    | inl q ↦ elim (scan-is_eligible (suc idx) bs cs (visit idx (pos b.weight) c s) i (rw q at e)) [
      | inl g ↦ elim (visit-best idx (pos b.weight) c s i g) [
        | inl same ↦ inl same
        | inr here ↦ inr (0, b, omega (arith, here), refl, q)
      ]
      | inr (j, b', g, at, f) ↦ inr (suc j, b', omega (arith, g), at, f)
    ]
    | inr q ↦ elim (scan-is_eligible (suc idx) bs cs s i (rw q at e)) [
      | inl g ↦ inl g
      | inr (j, b', g, at, f) ↦ inr (suc j, b', omega (arith, g), at, f)
    ]
  ]

  -- A call that selects has found its backend eligible, and routes the request to it.
  select-ok :
      (lb : LoadBalancer h) (r : List ℤ × Scan) (i : ℕ)
      → (select now lb r).1 ≡ ok i
      → (r.1.best ≡ some i) × ((select now lb r).0.pool ≡ modify i (routed now) lb.pool)
  unfolding select
  select-ok lb (cs, s) i e = elim (Option-cases s.best) [
    | inl q ↦ (let e' = rw (q, select) at e in cc)
    | inr (j, q) ↦
        let same = ok-injective _ refl (rw (q, select) at e) in
        (q ∙ ap some same, rw (q, select) (ap (λ k. modify k (routed now) lb.pool) same))
  ]

  select-err :
      (lb : LoadBalancer h) (r : List ℤ × Scan) (x : ProxyError)
      → (select now lb r).1 ≡ err x
      → (select now lb r).0.pool ≡ lb.pool
  unfolding select
  select-err lb (cs, s) x e = elim (Option-cases s.best) [
    | inl q ↦ rw (q, select) refl
    | inr (j, q) ↦ (let e' = rw (q, select) at e in cc)
  ]

module _ {h : Http} where
  -- What the calls at some times return, one after the other.
  abbrev pub results : List ℕ → LoadBalancer h → List (Result ℕ)
  results [] lb = []
  results (now ∷ times) lb = (next now lb).1 ∷ results times (next now lb).0

  -- The times at which the cooldown that is armed at `armed` has not passed.
  abbrev pub AllWithin : ℕ → UpstreamState h → List ℕ → Type 0
  AllWithin armed b times =
      All (λ now. (now_ms now b < now_ms armed b + b.cooldown_ms) × (now_ms now b < u64_max)) times

  next-is_eligible :
      (now : ℕ) (lb : LoadBalancer h) (i : ℕ)
      → (next now lb).1 ≡ ok i
      → (b : UpstreamState h) × (get_elem? lb.pool i ≡ some b) × (is_eligible now b ≡ true)
  unfolding next
  next-is_eligible now lb i e =
      let (best, pool) = select-ok now lb (scan now 0 lb.pool lb.current_weights start) i e in
      elim (scan-is_eligible now 0 lb.pool lb.current_weights start i best) [
        | inl none_yet ↦ cc
        | inr (j, b, g, at, f) ↦
            (let here : i ≡ j = omega (arith, g) in (b, ap (get_elem? lb.pool) here ∙ at, f))
      ]

  -- The selected backend is eligible, and a trial has its cooldown armed afterwards.
  pub next-routed :
      (now : ℕ) (lb : LoadBalancer h) (i : ℕ)
      → (next now lb).1 ≡ ok i
      → (b : UpstreamState h) × (get_elem? lb.pool i ≡ some b)
        × (is_eligible now b ≡ true)
        × (get_elem? (next now lb).0.pool i ≡ some (routed now b))
  unfolding next
  next-routed now lb i e =
      let (b, at, f) = next-is_eligible now lb i e in
      let pool = (select-ok now lb (scan now 0 lb.pool lb.current_weights start) i e).1 in
      (b, at, f, ap (λ pool. get_elem? pool i) pool ∙ get_elem?-modify i (routed now) lb.pool at)

  -- A backend that is not eligible is passed over, and stays as it is.
  next-passed :
      (now : ℕ) (lb : LoadBalancer h) (i : ℕ) (b : UpstreamState h)
      → get_elem? lb.pool i ≡ some b
      → is_eligible now b ≡ false
      → ((next now lb).1 ≢ ok i) × (get_elem? (next now lb).0.pool i ≡ some b)
  unfolding next
  next-passed now lb i b at f =
      let passed : (next now lb).1 ≢ ok i = λ e.
        let (b', at', f') = next-is_eligible now lb i e in
        let same = some-injective _ _ (sym at ∙ at') in cc in
      (
        passed,
        elim (Except-cases (next now lb).1) [
          | inl (j, e) ↦
              ap (λ pool. get_elem? pool i)
                (select-ok now lb (scan now 0 lb.pool lb.current_weights start) j e).1
              ∙ (get_elem?-modify_ne j i (routed now) lb.pool (λ g. passed (e ∙ ap ok (sym g)))
                  ∙ at)
          | inr (x, e) ↦
              ap (λ pool. get_elem? pool i)
                (select-err now lb (scan now 0 lb.pool lb.current_weights start) x e)
              ∙ at
        ],
      )

  cooling :
      (armed : ℕ) (b : UpstreamState h) (i : ℕ) (times : List ℕ) (lb : LoadBalancer h)
      → b.healthy ≡ false
      → get_elem? lb.pool i ≡ some (arm_cooldown armed b)
      → AllWithin armed b times
      → All (λ r. r ≢ ok i) (results times lb)
  cooling armed b i [] lb s at v = tt
  cooling armed b i (now ∷ times) lb s at v =
      let f = (one_trial_per_window b armed now s v.0.0 v.0.1).0 in
      let (passed, stays) = next-passed now lb i (arm_cooldown armed b) at f in
      (passed, cooling armed b i times (next now lb).0 s stays v.1)

  -- Once a call has routed a trial to an unhealthy backend, none of the calls that follow it
  -- before the end of the cooldown routes to that backend, however many there are, if only calls
  -- of `next` change the pool between them and the clock is below `u64::MAX`.
  pub next-trial :
      (now i : ℕ) (lb : LoadBalancer h) (b : UpstreamState h) (times : List ℕ)
      → (next now lb).1 ≡ ok i
      → get_elem? lb.pool i ≡ some b
      → b.healthy ≡ false
      → AllWithin now b times
      → All (λ r. r ≢ ok i) (results times (next now lb).0)
  unfolding next routed
  next-trial now i lb b times e at s v =
      let pool = (select-ok now lb (scan now 0 lb.pool lb.current_weights start) i e).1 in
      cooling now b i times (next now lb).0 s
        (ap (λ pool. get_elem? pool i) pool
          ∙ (get_elem?-modify i (routed now) lb.pool at ∙ rw (routed, s) refl))
        v
