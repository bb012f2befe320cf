-- ===== src/Balancer/History.antt =====
-- Everything that can happen to a balancer: calls of `next`, and changes of the health of its backends.
use mathlib.Core.Option.{some-injective}
use palisade.Upstream.{arm_cooldown}
use palisade.Prelude.Int.{one_part}
use mathlib.Core.Path.{subst}
use palisade.Balancer.{start}
use palisade.Prelude.{
  ℕ, zero, suc, ◌+◌, ◌*◌, ◌≤◌, ◌≡◌, refl, ap, sym, ◌∙◌, arith, false, not, Option, none, some, List,
  [], ◌∷◌, map, modify, length, get_elem?, Option-cases, inl, inr, ok_or, is_ok, length-modify,
}
use palisade.Prelude.Int.{ℤ, pos, pos_part, neg_part}
use palisade.Text.{any}
use palisade.Http.{Http}
use palisade.Error.{no_healthy_upstream}
use palisade.Upstream.{UpstreamState, is_eligible}
use palisade.Balancer.{LoadBalancer, Scan, new, scan, routed, select, next}
use palisade.Balancer.Spec.{raised, total, choose, settle, round}
use palisade.Balancer.Refines.{AllWithin, weights, entries, Fits, next-round, total-le-weights}
use palisade.Balancer.Winner.{next-succeeds}
use palisade.Balancer.Fairness.{HasRoom}
use palisade.Balancer.Spread.{Choice, rest, also, inside, outside, pos_in, neg_in, currents}
use palisade.Balancer.Drift.{IsSpread, everyone, round-IsSpread}

-- A set and the backends outside it.
complement :
    (s : Choice) (cs : List ℤ)
    → (pos_in s cs + pos_in (λ k. not (s k)) cs ≡ pos_in everyone cs)
      × (neg_in s cs + neg_in (λ k. not (s k)) cs ≡ neg_in everyone cs)
      × (inside (λ k. not (s k)) cs ≡ outside s cs)
      × (outside (λ k. not (s k)) cs ≡ inside s cs)
complement s [] = (refl, refl, refl, refl)
complement s (c ∷ cs) = ground (arith, complement (rest s) cs)

nobody : Choice
nobody k = false

abbrev only : ℕ → Choice
only i = also i nobody

nobody_sums :
    (cs : List ℤ)
    → (pos_in nobody cs ≡ 0)
      × (neg_in nobody cs ≡ 0)
      × (inside nobody cs ≡ 0)
      × (outside nobody cs ≡ length cs)
unfolding nobody
nobody_sums [] = (refl, refl, refl, refl)
nobody_sums (c ∷ cs) = ground (arith, nobody_sums cs)

only_sums :
    (cs : List ℤ) (i : ℕ) (c : ℤ)
    → get_elem? cs i ≡ some c
    → (pos_in (only i) cs ≡ pos_part c)
      × (neg_in (only i) cs ≡ neg_part c)
      × (inside (only i) cs ≡ 1)
      × (suc (outside (only i) cs) ≡ length cs)
unfolding nobody
only_sums [] i c g = cc
only_sums (x ∷ cs) zero c g = ground (arith, nobody_sums cs, some-injective _ _ g)
only_sums (x ∷ cs) (suc i) c g = ground (arith, only_sums cs i c g)

-- One running weight is at most half of t * (n - 1) away from 0.
pub spread_cell :
    (t : ℕ) (cs : List ℤ) (i : ℕ) (c : ℤ)
    → IsSpread t cs
    → get_elem? cs i ≡ some c
    → (2 * pos_part c + t ≤ t * length cs) × (2 * neg_part c + t ≤ t * length cs)
spread_cell t cs i c v g =
    let (p, n, one, others) = only_sums cs i c g in
    let (cp, cn, ci, co) = complement (only i) cs in
    let o = outside (only i) cs in
    let up = v.bound (only i) in
    let down = v.bound (λ k. not (only i k)) in
    let size = ap (λ (k : ℕ). t * k) others in
    let up_size = ap (λ (k : ℕ). t * (k * o)) one in
    let down_size = ap (λ (k : ℕ). t * (k * outside (λ k. not (only i k)) cs)) ci in
    let down_size' = ap (λ (k : ℕ). t * (o * k)) (co ∙ one) in
    (
      omega (arith, up, size, up_size, p, n, one_part c),
      omega (arith, down, size, down_size, down_size', p, n, cp, cn, v.balanced, one_part c),
    )

cells_within :
    (n : ℕ) (cs : List ℤ)
    → ((i : ℕ) (c : ℤ) → get_elem? cs i ≡ some c → (pos_part c ≤ n) × (neg_part c ≤ n))
    → AllWithin n cs
cells_within n [] f = tt
cells_within n (c ∷ cs) f = (f 0 c refl, cells_within n cs (λ i. f (suc i)))

length-settle : (r : Option (ℕ × ℤ)) (t : ℕ) (cs : List ℤ) → length (settle r t cs).1 ≡ length cs
length-settle none t cs = refl
length-settle (some (i, b)) t cs = length-modify i _ cs

module _ {h : Http} where
  abbrev pub weights_of : List (UpstreamState h) → List ℕ
  weights_of bs = map (λ b. b.weight) bs

  currents-entries :
      (now : ℕ) (bs : List (UpstreamState h)) (cs : List ℤ)
      → length cs ≡ length bs
      → (currents (entries now bs cs) ≡ cs) × (length (map raised (entries now bs cs)) ≡ length bs)
  currents-entries now [] [] e = (refl, refl)
  currents-entries now [] (c ∷ cs) e = cc
  currents-entries now (b ∷ bs) [] e = cc
  currents-entries now (b ∷ bs) (c ∷ cs) e =
      let (p, q) = currents-entries now bs cs (omega (arith, e)) in (ap (◌∷◌ c) p, ap suc q)

  weights-weights_of :
      (bs cs : List (UpstreamState h))
      → weights_of bs ≡ weights_of cs
      → (weights bs ≡ weights cs) × (length bs ≡ length cs)
  weights-weights_of [] [] e = (refl, refl)
  weights-weights_of [] (c ∷ cs) e = cc
  weights-weights_of (b ∷ bs) [] e = cc
  weights-weights_of (b ∷ bs) (c ∷ cs) e =
      let (x, y) = cons_parts b.weight c.weight (weights_of bs) (weights_of cs) e in
      let (p, q) = weights-weights_of bs cs y in (omega (arith, x, p), ap suc q)
    where
      cons_parts :
          (x y : ℕ) (xs ys : List ℕ) → ◌≡◌ {A = List ℕ} (x ∷ xs) (y ∷ ys) → (x ≡ y) × (xs ≡ ys)
      cons_parts x y xs ys e = (cc, cc)

  routed-weights :
      (now i : ℕ) (bs : List (UpstreamState h))
      → weights_of (modify i (routed now) bs) ≡ weights_of bs
  unfolding routed arm_cooldown
  routed-weights now i [] = refl
  routed-weights now zero (b ∷ bs) = ground arith
  routed-weights now (suc i) (b ∷ bs) = ap (◌∷◌ b.weight) (routed-weights now i bs)

  select-weights :
      (now : ℕ) (lb : LoadBalancer h) (r : List ℤ × Scan)
      → weights_of (select now lb r).0.pool ≡ weights_of lb.pool
  unfolding select
  select-weights now lb (cs, s) = elim (Option-cases s.best) [
    | inl e ↦ rw (e, select) refl
    | inr (i, e) ↦ rw (e, select) (routed-weights now i lb.pool)
  ]

  zeros :
      (s : Choice) (bs : List (UpstreamState h))
      → (pos_in s (map (λ b. pos 0) bs) ≡ 0) × (neg_in s (map (λ b. pos 0) bs) ≡ 0)
  zeros s [] = (refl, refl)
  zeros s (b ∷ bs) = ground (arith, zeros (rest s) bs)

  length-zeros : (bs : List (UpstreamState h)) → length (map (λ b. pos 0) bs) ≡ length bs
  length-zeros [] = refl
  length-zeros (b ∷ bs) = ap suc (length-zeros bs)

  -- What can happen to a balancer that was new over the pool `bs`: a call of `next`, and any change of
  -- its backends that leaves their weights, as all health tracking does.
  pub data History (bs : List (UpstreamState h)) : LoadBalancer h → Type 0 where
    fresh : History bs (new bs)
    called : {lb : LoadBalancer h} (now : ℕ) → History bs lb → History bs (next now lb).0
    tended :
        {lb : LoadBalancer h} (pool : List (UpstreamState h))
        → weights_of pool ≡ weights_of lb.pool
        → History bs lb
        → History bs (record lb { pool = pool })

  -- What holds throughout.
  pub record IsSound (bs : List (UpstreamState h)) (lb : LoadBalancer h) : Type 0 where
    pub lockstep : length lb.current_weights ≡ length lb.pool
    pub same_weights : weights_of lb.pool ≡ weights_of bs
    pub spread : IsSpread (weights bs) lb.current_weights

  module _ (bs : List (UpstreamState h)) (room : HasRoom bs) where
    pub IsSound-Fits : (lb : LoadBalancer h) → IsSound bs lb → Fits (length bs * weights bs) lb
    IsSound-Fits lb v =
        let (same, len) = weights-weights_of lb.pool bs v.same_weights in
        let size : length lb.current_weights ≡ length bs = v.lockstep ∙ len in
        record {
          lockstep = v.lockstep;
          cells =
              cells_within (length bs * weights bs) lb.current_weights (λ i c g.
                small c size (spread_cell (weights bs) lb.current_weights i c v.spread g));
          room = omega (arith, same, room);
        }
      where
        small :
            {n : ℕ} (c : ℤ)
            → n ≡ length bs
            → (2 * pos_part c + weights bs ≤ weights bs * n)
              × (2 * neg_part c + weights bs ≤ weights bs * n)
            → (pos_part c ≤ length bs * weights bs) × (neg_part c ≤ length bs * weights bs)
        small c e (p, q) =
            let size = ap (λ (k : ℕ). weights bs * k) e in
            (omega (arith, p, size), omega (arith, q, size))

    new-IsSound : IsSound bs (new bs)
    unfolding new
    new-IsSound = record {
      lockstep = length-zeros bs;
      same_weights = refl;
      spread = record {
        bound = λ s. omega (arith, zeros s bs);
        balanced = omega (arith, zeros everyone bs);
      };
    }

    next-IsSound : (now : ℕ) (lb : LoadBalancer h) → IsSound bs lb → IsSound bs (next now lb).0
    unfolding next round
    next-IsSound now lb v =
        let es = entries now lb.pool lb.current_weights in
        let f = IsSound-Fits lb v in
        let cells = (next-round now (length bs * weights bs) lb f).0 in
        let (cur, len) = currents-entries now lb.pool lb.current_weights v.lockstep in
        let pools = select-weights now lb (scan now 0 lb.pool lb.current_weights start) in
        let (same, sized) = weights-weights_of lb.pool bs v.same_weights in
        record {
          lockstep =
              ap length cells
              ∙ (length-settle (choose 0 es none) (total es) (map raised es)
                  ∙ (len ∙ sym (weights-weights_of _ lb.pool pools).1));
          same_weights = pools ∙ v.same_weights;
          spread =
              subst (λ cs. IsSpread (weights bs) cs) (sym cells)
                (round-IsSpread (weights bs) es
                  (omega (arith, total-le-weights now lb.pool lb.current_weights, same))
                  (subst (λ cs. IsSpread (weights bs) cs) (sym cur) v.spread));
        }

    pub History-IsSound : {lb : LoadBalancer h} → History bs lb → IsSound bs lb
    History-IsSound fresh = new-IsSound
    History-IsSound (called {lb = lb} now r) = next-IsSound now lb (History-IsSound r)
    History-IsSound (tended {lb = lb} pool e r) =
        let v = History-IsSound r in
        record {
          lockstep = v.lockstep ∙ sym (weights-weights_of pool lb.pool e).1;
          same_weights = e ∙ v.same_weights;
          spread = v.spread;
        }

    module _ {lb : LoadBalancer h} (r : History bs lb) where
      -- Whatever calls and health changes there were, a call of `next` is one round of the
      -- specification: it leaves the running weights that the round leaves, returns the backend that
      -- the round chooses, and fails with `NoHealthyUpstream` when the round chooses none. No operation
      -- on an `i64` overflows on the way, if n * W + 2 * W is below 2 ^ 63 for n backends with weights of
      -- sum W.
      pub History-round :
          (now : ℕ)
          → let spec = round (entries now lb.pool lb.current_weights) in
            ((next now lb).0.current_weights ≡ spec.1)
            × ((next now lb).1 ≡ ok_or no_healthy_upstream spec.0)
      History-round now =
          next-round now (length bs * weights bs) lb (IsSound-Fits lb (History-IsSound r))

      -- Under the same bound, `next` succeeds exactly when some backend is eligible, whatever calls and
      -- health changes there were.
      pub History-succeeds : (now : ℕ) → is_ok (next now lb).1 ≡ any (is_eligible now) lb.pool
      History-succeeds now =
          next-succeeds now (length bs * weights bs) lb (IsSound-Fits lb (History-IsSound r))

      -- Under the same bound, a running weight of n backends with weights of sum W is never further from
      -- 0 than W * (n - 1) / 2, whatever calls and health changes there were.
      pub History-drift :
          (i : ℕ) (c : ℤ)
          → get_elem? lb.current_weights i ≡ some c
          → (2 * pos_part c + weights bs ≤ weights bs * length bs)
            × (2 * neg_part c + weights bs ≤ weights bs * length bs)
      History-drift i c g =
          let v = History-IsSound r in
          let size = v.lockstep ∙ (weights-weights_of lb.pool bs v.same_weights).1 in
          let (p, q) = spread_cell (weights bs) lb.current_weights i c v.spread g in
          let scaled = ap (λ (k : ℕ). weights bs * k) size in
          (omega (arith, p, scaled), omega (arith, q, scaled))
