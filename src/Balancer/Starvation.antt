-- ===== src/Balancer/Starvation.antt =====
-- No eligible backend waits for ever.
use mathlib.Core.Option.{some-injective}
use palisade.Prelude.{
  ℕ, zero, suc, ◌+◌, ◌*◌, ◌≤◌, ◌≡◌, ◌≢◌, refl, ap, sym, ◌∙◌, arith, true, Option, none, some, List,
  [], ◌∷◌, map, length, get_elem?, get_elem?-modify_ne, ok, ok_or,
}
use palisade.Prelude.Int.{ℤ, pos, pos_part, neg_part, ◌+ℤ◌, +ℤ_parts, one_part}
use palisade.Http.{Http}
use palisade.Error.{no_healthy_upstream}
use palisade.Upstream.{UpstreamState, is_eligible}
use palisade.Balancer.{LoadBalancer, next}
use palisade.Balancer.Spec.{Entry, raised, total, choose, settle, round}
use palisade.Balancer.Refines.{weights, entries}
use palisade.Balancer.Fairness.{HasRoom}
use palisade.Balancer.History.{
  weights_of, History, called, tended, History-IsSound, History-round, History-drift,
}

-- A round leaves the raised weight of a backend that it does not choose.
settle-other :
    (r : Option (ℕ × ℤ)) (t i : ℕ) (cs : List ℤ)
    → (settle r t cs).0 ≢ some i
    → get_elem? (settle r t cs).1 i ≡ get_elem? cs i
settle-other none t i cs n = refl
settle-other (some (j, b)) t i cs n = get_elem?-modify_ne j i _ cs (λ e. n (ap some (sym e)))

round-other :
    (es : List Entry) (i : ℕ)
    → (round es).0 ≢ some i
    → get_elem? (round es).1 i ≡ get_elem? (map raised es) i
unfolding round
round-other es i n = settle-other (choose 0 es none) (total es) i (map raised es) n

raised-at :
    {h : Http} (now i : ℕ) (bs : List (UpstreamState h)) (cs : List ℤ) (b : UpstreamState h) (c : ℤ)
    → get_elem? bs i ≡ some b
    → get_elem? cs i ≡ some c
    → is_eligible now b ≡ true
    → get_elem? (map raised (entries now bs cs)) i ≡ some (c +ℤ pos b.weight)
raised-at now i [] cs b c g f e = cc
raised-at now i (x ∷ bs) [] b c g f e = cc
raised-at now zero (x ∷ bs) (y ∷ cs) b c g f e =
    rw (some-injective _ _ g, some-injective _ _ f, e) refl
raised-at now (suc i) (x ∷ bs) (y ∷ cs) b c g f e = raised-at now i bs cs b c g f e

weight-at :
    {h : Http} (i : ℕ) (bs : List (UpstreamState h)) (b : UpstreamState h)
    → get_elem? bs i ≡ some b
    → get_elem? (weights_of bs) i ≡ some b.weight
weight-at i [] b g = cc
weight-at zero (x ∷ bs) b g =
    ap (λ (o : Option (UpstreamState _)). elim o [ none ↦ none | some y ↦ some y.weight ]) g
weight-at (suc i) (x ∷ bs) b g = weight-at i bs b g

-- An index that one list has, another of the same length has.
elsewhere :
    {A B : Type 0} (i : ℕ) (xs : List A) (ys : List B) (x : A)
    → length xs ≡ length ys
    → get_elem? xs i ≡ some x
    → (y : B) × (get_elem? ys i ≡ some y)
elsewhere i [] ys x e g = cc
elsewhere i (a ∷ xs) [] x e g = cc
elsewhere zero (a ∷ xs) (b ∷ ys) x e g = (b, refl)
elsewhere (suc i) (a ∷ xs) (b ∷ ys) x e g = elsewhere i xs ys x (omega (arith, e)) g

length-weights_of : {h : Http} (bs : List (UpstreamState h)) → length (weights_of bs) ≡ length bs
length-weights_of [] = refl
length-weights_of (b ∷ bs) = ap suc (length-weights_of bs)

module _ {h : Http} (bs : List (UpstreamState h)) (i : ℕ) where
  -- From a balancer with some history, `m` calls of `next` that found the backend at index `i`
  -- eligible and passed it over, with any changes of the health of other backends in between.
  pub data Passed (lb0 : LoadBalancer h) : ℕ → LoadBalancer h → Type 0 where
    begin : History bs lb0 → Passed lb0 0 lb0
    passed :
        {m : ℕ} {lb : LoadBalancer h} (now : ℕ) (b : UpstreamState h)
        → get_elem? lb.pool i ≡ some b
        → is_eligible now b ≡ true
        → (next now lb).1 ≢ ok i
        → Passed lb0 m lb
        → Passed lb0 (suc m) (next now lb).0
    changed :
        {m : ℕ} {lb : LoadBalancer h} (pool : List (UpstreamState h))
        → weights_of pool ≡ weights_of lb.pool
        → Passed lb0 m lb
        → Passed lb0 m (record lb { pool = pool })

  Passed-History :
      {lb0 lb : LoadBalancer h} {m : ℕ} → Passed lb0 m lb → History bs lb0 × History bs lb
  Passed-History (begin r) = (r, r)
  Passed-History (passed now b g e n r) = let (x, y) = Passed-History r in (x, called now y)
  Passed-History (changed pool e r) = let (x, y) = Passed-History r in (x, tended pool e y)

  module _ (room : HasRoom bs) (w : ℕ) (at : get_elem? (weights_of bs) i ≡ some w) where
    -- Each call that passes the backend over adds its weight to its running weight.
    Passed-gains :
        {lb0 lb : LoadBalancer h} {m : ℕ} (c0 : ℤ)
        → get_elem? lb0.current_weights i ≡ some c0
        → Passed lb0 m lb
        → (c : ℤ) × (get_elem? lb.current_weights i ≡ some c)
          × (pos_part c + neg_part c0 ≡ pos_part c0 + neg_part c + m * w)
    Passed-gains c0 g (begin r) = (c0, g, omega arith)
    Passed-gains c0 g (changed pool e r) = Passed-gains c0 g r
    Passed-gains c0 g (passed {m = m} {lb = lb} now b q e n r) =
        let (c, f, k) = Passed-gains c0 g r in
        let history = (Passed-History r).1 in
        let (cells, chosen) = History-round bs room history now in
        let same : b.weight ≡ w = some-injective _ _ (
          sym (weight-at i lb.pool b q)
          ∙ (ap (λ ws. get_elem? ws i) (History-IsSound bs room history).same_weights ∙ at)) in
        (
          c +ℤ pos b.weight,
          ap (λ cs. get_elem? cs i) cells
              ∙ (round-other (entries now lb.pool lb.current_weights) i
                    (λ z. n (chosen ∙ ap (ok_or no_healthy_upstream) z))
                  ∙ raised-at now i lb.pool lb.current_weights b c q f e),
          omega (arith, k, same, +ℤ_parts c (pos b.weight)),
        )

    -- If m calls of `next` in a row find the backend of weight w at index i eligible and do not choose
    -- it, whatever happened before and whatever the health of the backends does in between, then m * w
    -- is at most W * (n - 1), for n backends with weights of sum W whose running weights have room in an
    -- `i64`.
    pub Passed-bounded :
        {lb0 lb : LoadBalancer h} {m : ℕ}
        → Passed lb0 m lb
        → m * w + weights bs ≤ weights bs * length bs
    Passed-bounded {lb0 = lb0} r =
        let (before, now) = Passed-History r in
        let v = History-IsSound bs room before in
        let size = ap length (sym v.same_weights) ∙ (length-weights_of lb0.pool ∙ sym v.lockstep) in
        let (c0, g) = elsewhere i (weights_of bs) lb0.current_weights w size at in
        let (c, f, k) = Passed-gains c0 g r in
        omega (
          arith,
          k,
          one_part c,
          one_part c0,
          History-drift bs room before i c0 g,
          History-drift bs room now i c f,
        )
