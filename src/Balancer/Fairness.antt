-- ===== src/Balancer/Fairness.antt =====
-- The balancer over a healthy pool: in a cycle of as many calls as the weights add up to, every
-- backend is selected exactly as often as its weight says.
use palisade.Prelude.{
  ℕ, zero, suc, ◌+◌, ◌*◌, ◌^◌, ◌<◌, ◌≡◌, refl, ap, true, Option, none, some, List, [], ◌∷◌, map,
  modify, length, arith, ◌∙◌, ok, err,
}
use palisade.Prelude.Int.{ℤ, pos}
use mathlib.Core.Path.{subst}
use native.Mathlib.Nat.{add-zero}
use palisade.Http.{Http}
use palisade.Error.{Result}
use palisade.Upstream.{UpstreamState, is_eligible}
use palisade.Balancer.{LoadBalancer, Scan, start, new, routed, scan, select, next}
use palisade.Balancer.Refines.{AllWithin, weights, entries, Fits, next-round}
use palisade.Balancer.Tally.{all_ready, sum, Tallied, IsTallied}
use palisade.Balancer.Rounds.{cycle, start-IsTallied, round-IsTallied, IsTallied-AllWithin}

-- Counts the backend that a call returned.
abbrev pub tally : Result ℕ → List ℕ → List ℕ
tally (ok i) ks = modify i suc ks
tally (err e) ks = ks

length-Tallied :
    (t m : ℕ) (ws : List ℕ) (cs : List ℤ) (ks : List ℕ)
    → Tallied t m ws cs ks
    → length cs ≡ length ws
length-Tallied t m [] [] [] v = refl
length-Tallied t m (w ∷ ws) (c ∷ cs) (k ∷ ks) v = ap suc (length-Tallied t m ws cs ks v.2)
length-Tallied t m (w ∷ ws) [] ks v = elim v [ ]
length-Tallied t m (w ∷ ws) (c ∷ cs) [] v = elim v [ ]
length-Tallied t m [] (c ∷ cs) ks v = elim v [ ]
length-Tallied t m [] [] (k ∷ ks) v = elim v [ ]

-- After `m` rounds nobody is more than one selection ahead of the share of the weight.
abbrev pub WithinShare : (t m : ℕ) → List ℕ → List ℕ → Type 0
WithinShare t m [] [] = Unit {0}
WithinShare t m (w ∷ ws) (k ∷ ks) = (t * k < m * w + t) × WithinShare t m ws ks
WithinShare t m _ _ = ⊥

Tallied-WithinShare :
    (t m : ℕ) (ws : List ℕ) (cs : List ℤ) (ks : List ℕ)
    → Tallied t m ws cs ks
    → WithinShare t m ws ks
Tallied-WithinShare t m [] [] [] v = tt
Tallied-WithinShare t m (w ∷ ws) (c ∷ cs) (k ∷ ks) v =
    (omega (arith, v.0, v.1), Tallied-WithinShare t m ws cs ks v.2)
Tallied-WithinShare t m (w ∷ ws) [] ks v = elim v [ ]
Tallied-WithinShare t m (w ∷ ws) (c ∷ cs) [] v = elim v [ ]
Tallied-WithinShare t m [] (c ∷ cs) ks v = elim v [ ]
Tallied-WithinShare t m [] [] (k ∷ ks) v = elim v [ ]

module _ {h : Http} where
  -- One call of `next` at each of the times: the balancer that they leave, and the counts.
  unfoldable pub serve : List ℕ → LoadBalancer h → List ℕ → LoadBalancer h × List ℕ
  serve [] lb ks = (lb, ks)
  serve (now ∷ times) lb ks = serve times (next now lb).0 (tally (next now lb).1 ks)

  abbrev pub AllHealthy : List (UpstreamState h) → Type 0
  AllHealthy [] = Unit {0}
  AllHealthy (b ∷ bs) = (b.healthy ≡ true) × AllHealthy bs

  abbrev weights_of : List (UpstreamState h) → List ℕ
  weights_of bs = map (λ b. b.weight) bs

  healthy_entries :
      (now : ℕ) (bs : List (UpstreamState h)) (cs : List ℤ)
      → AllHealthy bs
      → entries now bs cs ≡ all_ready (weights_of bs) cs
  unfolding is_eligible
  healthy_entries now [] cs a = refl
  healthy_entries now (b ∷ bs) [] a = refl
  healthy_entries now (b ∷ bs) (c ∷ cs) a = ground (arith, healthy_entries now bs cs a.1)

  modify-healthy :
      (now i : ℕ) (bs : List (UpstreamState h)) → AllHealthy bs → modify i (routed now) bs ≡ bs
  unfolding routed
  modify-healthy now i [] a = refl
  modify-healthy now zero (b ∷ bs) a = rw a.0
  modify-healthy now (suc i) (b ∷ bs) a = ap (◌∷◌ b) (modify-healthy now i bs a.1)

  pool-select :
      (now : ℕ) (lb : LoadBalancer h) (r : List ℤ × Scan) (best : Option ℕ)
      → AllHealthy lb.pool
      → r.1.best ≡ best
      → (select now lb r).0.pool ≡ lb.pool
  unfolding select
  pool-select now lb r none a e = rw e
  pool-select now lb r (some i) a e = rw e (modify-healthy now i lb.pool a)

  pool-next : (now : ℕ) (lb : LoadBalancer h) → AllHealthy lb.pool → (next now lb).0.pool ≡ lb.pool
  unfolding next
  pool-next now lb a = pool-select now lb (scan now 0 lb.pool lb.current_weights start) _ a refl

  sum-weights : (bs : List (UpstreamState h)) → sum (weights_of bs) ≡ weights bs
  sum-weights [] = refl
  sum-weights (b ∷ bs) = ap (◌+◌ b.weight) (sum-weights bs)

  length-weights_of : (bs : List (UpstreamState h)) → length (weights_of bs) ≡ length bs
  length-weights_of [] = refl
  length-weights_of (b ∷ bs) = ap suc (length-weights_of bs)

  -- The running weights of a healthy pool have room in an `i64`.
  abbrev pub HasRoom : List (UpstreamState h) → Type 0
  HasRoom bs = length bs * weights bs + weights bs + weights bs < 2 ^ 63

  module _ (bs : List (UpstreamState h)) (a : AllHealthy bs) (p : 0 < weights bs)
      (room : HasRoom bs) where
    tallied_Fits :
        (m : ℕ) (cs : List ℤ) (ks : List ℕ)
        → IsTallied (weights bs) m (weights_of bs) cs ks
        → Fits (length bs * weights bs) (record { pool = bs; current_weights = cs })
    tallied_Fits m cs ks v = record {
      lockstep = length-Tallied (weights bs) m (weights_of bs) cs ks v.each ∙ length-weights_of bs;
      cells =
          subst (λ n. AllWithin (n * weights bs) cs) (length-weights_of bs)
            (IsTallied-AllWithin (weights bs) m (weights_of bs) cs ks v);
      room = room;
    }

    -- One call keeps the pool and the tallies.
    next-IsTallied :
        (m now : ℕ) (cs : List ℤ) (ks : List ℕ)
        → IsTallied (weights bs) m (weights_of bs) cs ks
        → let lb : LoadBalancer h = record { pool = bs; current_weights = cs } in
          IsTallied
            (weights bs)
            (suc m)
            (weights_of bs)
            (next now lb).0.current_weights
            (tally (next now lb).1 ks)
    next-IsTallied m now cs ks v =
        let lb : LoadBalancer h = record { pool = bs; current_weights = cs } in
        let spec = next-round now (length bs * weights bs) lb (tallied_Fits m cs ks v) in
        let won = round-IsTallied (weights bs) m (weights_of bs) cs ks v (sum-weights bs) p in
        rw (spec.0, spec.1, healthy_entries now bs cs a, won.1) won.2

    serve-IsTallied :
        (times : List ℕ) (m : ℕ) (cs : List ℤ) (ks : List ℕ)
        → IsTallied (weights bs) m (weights_of bs) cs ks
        → (cs' : List ℤ) × (ks' : List ℕ) × (serve times
              (record { pool = bs; current_weights = cs })
              ks
            ≡ (record { pool = bs; current_weights = cs' }, ks'))
          × IsTallied (weights bs) (m + length times) (weights_of bs) cs' ks'
    unfolding serve
    serve-IsTallied [] m cs ks v = (cs, ks, refl, rw add-zero v)
    serve-IsTallied (now ∷ times) m cs ks v =
        let lb : LoadBalancer h = record { pool = bs; current_weights = cs } in
        let (cs', ks', e, v') =
          serve-IsTallied times (suc m) (next now lb).0.current_weights (tally (next now lb).1 ks)
            (next-IsTallied m now cs ks v) in
        let same : (next now lb).0
            ≡ record { pool = bs; current_weights = (next now lb).0.current_weights } =
          λ i. record {
            pool = pool-next now lb a i;
            current_weights = (next now lb).0.current_weights;
          } in
        (
          cs',
          ks',
          ap (λ l. serve times l (tally (next now lb).1 ks)) same ∙ e,
          subst (λ n. IsTallied (weights bs) n (weights_of bs) cs' ks') (omega arith) v',
        )

  zeros : (bs : List (UpstreamState h)) → map (λ w. pos 0) (weights_of bs) ≡ map (λ b. pos 0) bs
  zeros [] = refl
  zeros (b ∷ bs) = ap (◌∷◌ (pos 0)) (zeros bs)

  -- From a new balancer whose backends are all healthy, not all of weight 0, and whose running
  -- weights have room in an `i64`: as many calls of `next` as the weights add up to, at whatever
  -- times, select every backend exactly as often as its weight says, and leave the balancer as it
  -- was when it was new.
  pub serve-new :
      (bs : List (UpstreamState h)) (times : List ℕ)
      → AllHealthy bs
      → 0 < weights bs
      → HasRoom bs
      → length times ≡ weights bs
      → serve times (new bs) (map (λ b. 0) (weights_of bs)) ≡ (new bs, weights_of bs)
  unfolding new
  serve-new bs times a p room e =
      let ws = weights_of bs in
      let (cs', ks', served, v) =
        serve-IsTallied bs a p room times 0 (map (λ w. pos 0) ws) (map (λ w. 0) ws)
          (start-IsTallied (weights bs) ws p) in
      let full =
        cycle (weights bs) ws cs' ks'
          (subst (λ n. Tallied (weights bs) n ws cs' ks') (omega (arith, e)) v.each)
          (omega (arith, v.rounds, sum-weights bs, e)) in
      rw (← zeros bs) (served ∙ λ i. (record { pool = bs; current_weights = full.1 i }, full.0 i))

  -- From a new balancer whose backends are all healthy, not all of weight 0, and whose running
  -- weights have room in an `i64`: after any number m of calls of `next`, at whatever times, a
  -- backend of weight w has been selected fewer than m * w / t + 1 times, t being the sum of the
  -- weights, and the selections together are m, so every call succeeded.
  pub serve-share :
      (bs : List (UpstreamState h)) (times : List ℕ)
      → AllHealthy bs
      → 0 < weights bs
      → HasRoom bs
      → let counts = (serve times (new bs) (map (λ b. 0) (weights_of bs))).1 in
        WithinShare (weights bs) (length times) (weights_of bs) counts × (sum counts ≡ length times)
  unfolding new
  serve-share bs times a p room =
      let ws = weights_of bs in
      let (cs', ks', served, v) =
        serve-IsTallied bs a p room times 0 (map (λ w. pos 0) ws) (map (λ w. 0) ws)
          (start-IsTallied (weights bs) ws p) in
      rw (← zeros bs, served)
        (
          Tallied-WithinShare (weights bs) (length times) ws cs' ks'
              (subst (λ n. Tallied (weights bs) n ws cs' ks') (omega arith) v.each),
          omega (arith, v.rounds),
        )
