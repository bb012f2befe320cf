-- ===== src/Balancer/Refines.antt =====
-- The balancer runs the rounds of the specification as long as no weight overflows.
use palisade.Prelude.{
  ℕ, zero, suc, ◌+◌, ◌^◌, ◌≤◌, ◌<◌, ◌≡◌, refl, ap, true, Option, none, some, List, [], ◌∷◌, map,
  modify, length, arith, ok_or, Bool-cases, inl, inr,
}
use palisade.Prelude.Int.{ℤ, pos, ◌+ℤ◌, ◌-ℤ◌, +ℤ_parts}
use native.Mathlib.Nat.{add-zero, zero-add, add_assoc}
use palisade.Http.{Http}
use palisade.Error.{no_healthy_upstream}
use palisade.Upstream.{UpstreamState, is_eligible}
use palisade.Balancer.{LoadBalancer, Scan, visit, scan, select, next}
use palisade.Balancer.Word.{
  i64_min, fetch_sub, Within, fetch_add-eq, fetch_sub-eq, saturating_add-eq,
}
use palisade.Balancer.Spec.{Entry, raised, total, consider, choose, settle, round}

abbrev pub AllWithin : ℕ → List ℤ → Type 0
AllWithin n [] = Unit {0}
AllWithin n (c ∷ cs) = Within n c × AllWithin n cs

module _ {h : Http} where
  -- The sum of the weights of all backends.
  abbrev pub weights : List (UpstreamState h) → ℕ
  weights [] = 0
  weights (b ∷ bs) = b.weight + weights bs

  -- The pool and the cells as a round sees them.
  abbrev pub entries : ℕ → List (UpstreamState h) → List ℤ → List Entry
  entries now [] cs = []
  entries now (b ∷ bs) [] = []
  entries now (b ∷ bs) (c ∷ cs) =
      record { ready = is_eligible now b; weight = b.weight; current = c } ∷ entries now bs cs

-- The loop's variables, from the specification's.
abbrev as_scan : ℕ → Option (ℕ × ℤ) → Scan
as_scan t none = record { total = pos t; best = none; best_weight = i64_min }
as_scan t (some (i, b)) = record { total = pos t; best = some i; best_weight = b }

pos-+ℤ : (t w : ℕ) → pos t +ℤ pos w ≡ pos (t + w)
unfolding ◌+ℤ◌
pos-+ℤ t w = ground arith

visit-consider :
    (n t i w : ℕ) (c : ℤ) (best : Option (ℕ × ℤ))
    → Within n c
    → n + w + t < 2 ^ 63
    → visit i (pos w) c (as_scan t best)
      ≡ as_scan (t + w) (consider i (record { ready = true; weight = w; current = c }) best)
unfolding visit
visit-consider n t i w c none v b = ground (
  arith,
  saturating_add-eq n w c v (omega arith),
  saturating_add-eq t w (pos t) (omega arith) (omega arith),
  pos-+ℤ t w,
  +ℤ_parts c (pos w),
)
visit-consider n t i w c (some (j, d)) v b = ground (
  arith,
  saturating_add-eq n w c v (omega arith),
  saturating_add-eq t w (pos t) (omega arith) (omega arith),
  pos-+ℤ t w,
  +ℤ_parts c (pos w),
)

-- The winner's cell after the loop's end.
fetch_sub-modify :
    (n t i : ℕ) (cs : List ℤ)
    → AllWithin n cs
    → n + t < 2 ^ 63
    → modify i (λ c. fetch_sub c (pos t)) cs ≡ modify i (λ c. c -ℤ pos t) cs
fetch_sub-modify n t i [] v b = refl
fetch_sub-modify n t zero (c ∷ cs) v b = rw (fetch_sub-eq n t c v.0 b)
fetch_sub-modify n t (suc i) (c ∷ cs) v b = ap (◌∷◌ c) (fetch_sub-modify n t i cs v.1 b)

abbrev prepend : ℤ → List ℤ × Scan → List ℤ × Scan
prepend c (cs, s) = (c ∷ cs, s)

module _ {h : Http} where
  scan-choose :
      (now n t i : ℕ) (bs : List (UpstreamState h)) (cs : List ℤ) (best : Option (ℕ × ℤ))
      → length cs ≡ length bs
      → AllWithin n cs
      → n + weights bs + t < 2 ^ 63
      → scan now i bs cs (as_scan t best) ≡ (
        map raised (entries now bs cs),
        as_scan (t + total (entries now bs cs)) (choose i (entries now bs cs) best),
      )
  unfolding scan
  scan-choose now n t i [] [] best e v b = rw add-zero
  scan-choose now n t i [] (c ∷ cs) best e v b = cc
  scan-choose now n t i (x ∷ bs) [] best e v b = cc
  scan-choose now n t i (x ∷ bs) (c ∷ cs) best e v b = elim (Bool-cases (is_eligible now x)) [
    | inl r ↦
        rw
          (
            r,
            visit-consider n t i x.weight c best v.0 (omega arith),
            fetch_add-eq n x.weight c v.0 (omega arith),
            ← add_assoc t x.weight,
          )
          (ap (prepend (c +ℤ pos x.weight)) (
            scan-choose now n (t + x.weight) (suc i) bs cs
              (consider i (record { ready = true; weight = x.weight; current = c }) best)
              (omega (arith, e)) v.1 (omega arith)))
    | inr r ↦
        rw (r, zero-add)
          (ap (prepend c)
            (scan-choose now n t (suc i) bs cs best (omega (arith, e)) v.1 (omega arith)))
  ]

  raised-AllWithin :
      (now n w : ℕ) (bs : List (UpstreamState h)) (cs : List ℤ)
      → AllWithin n cs
      → weights bs ≤ w
      → AllWithin (n + w) (map raised (entries now bs cs))
  raised-AllWithin now n w [] cs v b = tt
  raised-AllWithin now n w (x ∷ bs) [] v b = tt
  raised-AllWithin now n w (x ∷ bs) (c ∷ cs) v b =
      (ground (arith, +ℤ_parts c (pos x.weight)), raised-AllWithin now n w bs cs v.1 (omega arith))

  pub total-le-weights :
      (now : ℕ) (bs : List (UpstreamState h)) (cs : List ℤ) → total (entries now bs cs) ≤ weights bs
  total-le-weights now [] cs = omega arith
  total-le-weights now (x ∷ bs) [] = omega arith
  total-le-weights now (x ∷ bs) (c ∷ cs) = ground (arith, total-le-weights now bs cs)

  select-settle :
      (now n t : ℕ) (lb : LoadBalancer h) (cs : List ℤ) (best : Option (ℕ × ℤ))
      → AllWithin n cs
      → n + t < 2 ^ 63
      → ((select now lb (cs, as_scan t best)).0.current_weights ≡ (settle best t cs).1)
        × ((select now lb (cs, as_scan t best)).1 ≡ ok_or no_healthy_upstream (settle best t cs).0)
  unfolding select
  select-settle now n t lb cs none v b = (refl, refl)
  select-settle now n t lb cs (some (i, d)) v b = (fetch_sub-modify n t i cs v b, refl)

  -- The cells and the weights leave room: no operation of a round overflows.
  pub record Fits (n : ℕ) (lb : LoadBalancer h) : Type 0 where
    pub lockstep : length lb.current_weights ≡ length lb.pool
    pub cells : AllWithin n lb.current_weights
    pub room : n + weights lb.pool + weights lb.pool < 2 ^ 63

  -- While the running weights leave room for twice the sum of the weights, a call of `next` is one
  -- round of the specification: it leaves the running weights that the round leaves, returns the
  -- backend that the round chooses, and fails with `NoHealthyUpstream` when the round chooses none.
  pub next-round :
      (now n : ℕ) (lb : LoadBalancer h)
      → Fits n lb
      → let spec = round (entries now lb.pool lb.current_weights) in
        ((next now lb).0.current_weights ≡ spec.1)
        × ((next now lb).1 ≡ ok_or no_healthy_upstream spec.0)
  unfolding next round
  next-round now n lb f =
      let es = entries now lb.pool lb.current_weights in
      rw
        (
          scan-choose now n 0 0 lb.pool lb.current_weights none f.lockstep f.cells
              (omega (arith, f.room)),
          zero-add (total es),
        )
        (select-settle now (n + weights lb.pool) (total es) lb (map raised es) (choose 0 es none)
          (raised-AllWithin now n (weights lb.pool) lb.pool lb.current_weights f.cells
            (omega arith))
          (omega (arith, f.room, total-le-weights now lb.pool lb.current_weights)))
