-- ===== src/System/Pool.antt =====
-- The backends of a pool under the changes that the server makes.
use palisade.Prelude.{
  ℕ, zero, suc, ◌^◌, ◌<◌, ◌≡◌, refl, ap, Bool, true, false, List, [], ◌∷◌, modify, Bool-cases,
  Option-cases, inl, inr, if◌then◌else◌, arith, map,
}
use palisade.Prelude.Int.{ℤ}
use palisade.Http.{Http}
use palisade.Upstream.{UpstreamState, record_success, record_failure, arm_cooldown}
use palisade.Upstream.Health.{IsValid, success, failure, trial, Step-IsValid}
use palisade.Balancer.{LoadBalancer, Scan, start, scan, routed, select, next}
use palisade.Balancer.History.{weights_of}
use palisade.Server.Tasks.{Probe, answered, failed, timed_out, is_success, probed}

-- What holds on both branches holds of the conditional.
either :
    {A : Type 0} (P : A → Type 0) (b : Bool) (x y : A)
    → P x
    → (b ≡ false → P y)
    → P (if b then x else y)
either P true x y p q = p
either P false x y p q = q refl

-- The addresses of a pool, in order.
abbrev pub uris_of : {h : Http} → List (UpstreamState h) → List h.Uri
uris_of bs = map (λ b. b.uri) bs

module _ {h : Http} (failures successes : ℕ) where
  -- The health invariant, of every backend.
  abbrev pub AllValid : List (UpstreamState h) → Type 0
  AllValid [] = Unit {0}
  AllValid (b ∷ bs) = IsValid failures successes b × AllValid bs

  -- A change that keeps the invariant, the weight and the address.
  pub record IsTending (f : UpstreamState h → UpstreamState h) : Type 0 where
    pub valid :
        (b : UpstreamState h) → IsValid failures successes b → IsValid failures successes (f b)
    pub weight : (b : UpstreamState h) → (f b).weight ≡ b.weight
    pub uri : (b : UpstreamState h) → (f b).uri ≡ b.uri

  pub modify-AllValid :
      (f : UpstreamState h → UpstreamState h) (i : ℕ) (bs : List (UpstreamState h))
      → IsTending f
      → AllValid bs
      → AllValid (modify i f bs)
  modify-AllValid f i [] t v = tt
  modify-AllValid f zero (b ∷ bs) t v = (t.valid b v.0, v.1)
  modify-AllValid f (suc i) (b ∷ bs) t v = (v.0, modify-AllValid f i bs t v.1)

  pub modify-weights :
      (f : UpstreamState h → UpstreamState h) (i : ℕ) (bs : List (UpstreamState h))
      → IsTending f
      → weights_of (modify i f bs) ≡ weights_of bs
  modify-weights f i [] t = refl
  modify-weights f zero (b ∷ bs) t = ap (λ (w : ℕ). w ∷ weights_of bs) (t.weight b)
  modify-weights f (suc i) (b ∷ bs) t = ap (◌∷◌ b.weight) (modify-weights f i bs t)

  pub modify-uris :
      (f : UpstreamState h → UpstreamState h) (i : ℕ) (bs : List (UpstreamState h))
      → IsTending f
      → uris_of (modify i f bs) ≡ uris_of bs
  modify-uris f i [] t = refl
  modify-uris f zero (b ∷ bs) t = ap (λ u. u ∷ uris_of bs) (t.uri b)
  modify-uris f (suc i) (b ∷ bs) t = ap (◌∷◌ b.uri) (modify-uris f i bs t)

  pub id-IsTending : IsTending (λ b. b)
  id-IsTending = record { valid = λ b v. v; weight = λ b. refl; uri = λ b. refl }

  module _ (fl : failures < 2 ^ 32) (sl : successes < 2 ^ 32) (fp : 0 < failures)
      (sp : 0 < successes) where
    pub record_success-IsTending : IsTending (λ b. (record_success successes b).0)
    unfolding record_success
    record_success-IsTending = record {
      valid = λ b v. Step-IsValid failures successes fl sl fp sp (success b) v;
      weight = λ b. ground arith;
      uri = λ b. ground arith;
    }

    pub record_failure-IsTending : (now : ℕ) → IsTending (λ b. (record_failure now failures b).0)
    unfolding record_failure arm_cooldown
    record_failure-IsTending now = record {
      valid = λ b v. Step-IsValid failures successes fl sl fp sp (failure b now) v;
      weight = λ b. ground arith;
      uri = λ b. ground arith;
    }

    pub routed-IsTending : (now : ℕ) → IsTending (routed now)
    unfolding routed arm_cooldown
    routed-IsTending now = record {
      valid = λ b v.
          either (IsValid failures successes) b.healthy b (arm_cooldown now b) v
            (λ e. Step-IsValid failures successes fl sl fp sp (trial b now e) v);
      weight = λ b. ground arith;
      uri = λ b. ground arith;
    }

    pub probed-IsTending :
        (now : ℕ) (answer : Probe) → IsTending (probed h failures successes now answer)
    unfolding probed
    probed-IsTending now (answered status) = elim (Bool-cases (is_success status)) [
      | inl e ↦ rw (e, probed) record_success-IsTending
      | inr e ↦ rw (e, probed) (record_failure-IsTending now)
    ]
    probed-IsTending now failed = record_failure-IsTending now
    probed-IsTending now timed_out = record_failure-IsTending now

    select-AllValid :
        (now : ℕ) (lb : LoadBalancer h) (r : List ℤ × Scan)
        → AllValid lb.pool
        → AllValid (select now lb r).0.pool
    unfolding select
    select-AllValid now lb (cs, sc) v = elim (Option-cases sc.best) [
      | inl e ↦ rw (e, select) v
      | inr (i, e) ↦
          rw (e, select) (modify-AllValid (routed now) i lb.pool (routed-IsTending now) v)
    ]

    -- A call of `next` arms the cooldown of the backend that it routes to, if that is unhealthy.
    pub next-AllValid :
        (now : ℕ) (lb : LoadBalancer h) → AllValid lb.pool → AllValid (next now lb).0.pool
    unfolding next
    next-AllValid now lb v = select-AllValid now lb (scan now 0 lb.pool lb.current_weights start) v

    select-uris :
        (now : ℕ) (lb : LoadBalancer h) (r : List ℤ × Scan)
        → uris_of (select now lb r).0.pool ≡ uris_of lb.pool
    unfolding select
    select-uris now lb (cs, sc) = elim (Option-cases sc.best) [
      | inl e ↦ rw (e, select) refl
      | inr (i, e) ↦ rw (e, select) (modify-uris (routed now) i lb.pool (routed-IsTending now))
    ]

    pub next-uris : (now : ℕ) (lb : LoadBalancer h) → uris_of (next now lb).0.pool ≡ uris_of lb.pool
    unfolding next
    next-uris now lb = select-uris now lb (scan now 0 lb.pool lb.current_weights start)
