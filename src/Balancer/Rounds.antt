-- ===== src/Balancer/Rounds.antt =====
-- Rounds in which every backend is eligible: what the running weights and the numbers of selections
-- keep from round to round.
use mathlib.Core.Path.{subst}
use native.Mathlib.Decide.{dec_lt}
use palisade.Prelude.{
  ℕ, suc, ◌+◌, ◌*◌, ◌≤◌, ◌<◌, ◌≡◌, refl, ap, Option, none, some, List, [], ◌∷◌, map, modify, length,
  arith, ◌∙◌,
}
use palisade.Prelude.Int.{ℤ, pos, negsuc, pos_part, neg_part, ◌-ℤ◌}
use palisade.Balancer.Refines.{AllWithin}
use palisade.Balancer.Spec.{Entry, raised, total, choose, settle, round}
use palisade.Balancer.Winner.{AllUnder, IsHighest, choice, choose-AllUnder}
use palisade.Balancer.Tally.{
  IsTallied, Tallied, all_ready, get_elem?-lifted, lifted, lifted-Tallied, lifted_sums, modify_sums,
  neg_sum, pos_sum, sum, sum-modify, total-all_ready, winner_pos,
}

-- A round with a winner `i`: it lowers the winner's cell, and one more selection is counted.
won-IsTallied :
    (t m i : ℕ) (ws : List ℕ) (cs : List ℤ) (ks : List ℕ)
    → IsTallied t m ws cs ks
    → sum ws ≡ t
    → 0 < t
    → IsHighest (all_ready ws cs) i
    → IsTallied t (suc m) ws (modify i (λ x. x -ℤ pos t) (lifted ws cs)) (modify i suc ks)
won-IsTallied t m i ws cs ks v st p w =
    let c = raised w.entry in
    let g = get_elem?-lifted i (all_ready ws cs) w.entry w.at in
    let q = winner_pos t m i ws cs ks c v (omega (arith, st)) w.highest in
    record {
      each = lifted-Tallied t m i ws cs ks c v.each g q;
      balanced = omega (
        arith,
        modify_sums t i (lifted ws cs) c g,
        lifted_sums t m ws cs ks v.each,
        v.balanced,
        st,
      );
      rounds = omega (arith, sum-modify t m i ws cs ks c v.each g, v.rounds);
    }

-- In a whole cycle of `t` rounds nobody is selected more often than its weight says.
selected_at_most :
    (t w k : ℕ) (c : ℤ) → pos_part c + t * k ≡ t * w + neg_part c → neg_part c < t → k ≤ w
selected_at_most t w k c e l = elim (dec_lt w k) [
  | no q ↦ omega arith
  | yes q ↦ absurd (grind arith)
]

cycle_sum :
    (t : ℕ) (ws : List ℕ) (cs : List ℤ) (ks : List ℕ) → Tallied t t ws cs ks → sum ks ≤ sum ws
cycle_sum t [] [] [] h = omega arith
cycle_sum t (w ∷ ws) (c ∷ cs) (k ∷ ks) h =
    omega (arith, selected_at_most t w k c h.0 h.1, cycle_sum t ws cs ks h.2)
cycle_sum t (w ∷ ws) [] ks h = elim h [ ]
cycle_sum t (w ∷ ws) (c ∷ cs) [] h = elim h [ ]
cycle_sum t [] (c ∷ cs) ks h = elim h [ ]
cycle_sum t [] [] (k ∷ ks) h = elim h [ ]

zero_parts : (c : ℤ) → pos_part c ≡ neg_part c → c ≡ pos 0
zero_parts (pos n) e = ap pos e
zero_parts (negsuc n) e = ground arith

-- So the selections are the weights, and every running weight is back at 0.
pub cycle :
    (t : ℕ) (ws : List ℕ) (cs : List ℤ) (ks : List ℕ)
    → Tallied t t ws cs ks
    → sum ks ≡ sum ws
    → (ks ≡ ws) × (cs ≡ map (λ w. pos 0) ws)
cycle t [] [] [] h e = (refl, refl)
cycle t (w ∷ ws) (c ∷ cs) (k ∷ ks) h e =
    let le = selected_at_most t w k c h.0 h.1 in
    let lest = cycle_sum t ws cs ks h.2 in
    let same : k ≡ w = omega (arith, le, lest, e) in
    let rest = cycle t ws cs ks h.2 (omega (arith, le, lest, e)) in
    let zero : c ≡ pos 0 = zero_parts c (omega (arith, h.0, ap (λ (n : ℕ). t * n) same)) in (cc, cc)
cycle t (w ∷ ws) [] ks h e = elim h [ ]
cycle t (w ∷ ws) (c ∷ cs) [] h e = elim h [ ]
cycle t [] (c ∷ cs) ks h e = elim h [ ]
cycle t [] [] (k ∷ ks) h e = elim h [ ]

pub start-IsTallied :
    (t : ℕ) (ws : List ℕ) → 0 < t → IsTallied t 0 ws (map (λ w. pos 0) ws) (map (λ w. 0) ws)
start-IsTallied t ws p = record { each = each_start ws; balanced = sums ws; rounds = none_yet ws }
  where
    each_start : (ws : List ℕ) → Tallied t 0 ws (map (λ w. pos 0) ws) (map (λ w. 0) ws)
    each_start [] = tt
    each_start (w ∷ ws) = (omega arith, p, each_start ws)

    sums : (ws : List ℕ) → pos_sum (map (λ w. pos 0) ws) ≡ neg_sum (map (λ w. pos 0) ws)
    sums [] = refl
    sums (w ∷ ws) = omega (arith, sums ws)

    none_yet : (ws : List ℕ) → sum (map (λ w. 0) ws) ≡ 0
    none_yet [] = refl
    none_yet (w ∷ ws) = omega (arith, none_yet ws)

-- A round in which all are eligible has a winner, and keeps the tallies.
pub round-IsTallied :
    (t m : ℕ) (ws : List ℕ) (cs : List ℤ) (ks : List ℕ)
    → IsTallied t m ws cs ks
    → sum ws ≡ t
    → 0 < t
    → (i : ℕ) × ((round (all_ready ws cs)).0 ≡ some i)
      × IsTallied t (suc m) ws (round (all_ready ws cs)).1 (modify i suc ks)
unfolding round
round-IsTallied t m ws cs ks v st p = settled (choose 0 es none) refl
  where
    es : List Entry
    es = all_ready ws cs

    nobody :
        (ws : List ℕ) (cs : List ℤ) (ks : List ℕ)
        → Tallied t m ws cs ks
        → AllUnder none (all_ready ws cs)
        → sum ws ≡ 0
    nobody [] cs ks h u = refl
    nobody (w ∷ ws) [] ks h u = elim h [ ]
    nobody (w ∷ ws) (c ∷ cs) ks h u = cc (u.0)

    settled :
        (r : Option (ℕ × ℤ))
        → choose 0 es none ≡ r
        → (i : ℕ) × ((settle r (total es) (map raised es)).0 ≡ some i)
          × IsTallied t (suc m) ws (settle r (total es) (map raised es)).1 (modify i suc ks)
    settled none e = absurd (
        omega (
          arith,
          st,
          nobody ws cs ks v.each (subst (λ r. AllUnder r es) e (choose-AllUnder 0 es none)),
        ))
    settled (some (i, b)) e = (
      i,
      refl,
      rw (total-all_ready t m ws cs ks v.each ∙ st)
          (won-IsTallied t m i ws cs ks v st p (choice es i b e).0),
    )

neg_sum-le :
    (t m : ℕ) (ws : List ℕ) (cs : List ℤ) (ks : List ℕ)
    → Tallied t m ws cs ks
    → neg_sum cs ≤ length ws * t
neg_sum-le t m [] [] [] h = omega arith
neg_sum-le t m (w ∷ ws) (c ∷ cs) (k ∷ ks) h = omega (arith, h.1, neg_sum-le t m ws cs ks h.2)
neg_sum-le t m (w ∷ ws) [] ks h = elim h [ ]
neg_sum-le t m (w ∷ ws) (c ∷ cs) [] h = elim h [ ]
neg_sum-le t m [] (c ∷ cs) ks h = elim h [ ]
neg_sum-le t m [] [] (k ∷ ks) h = elim h [ ]

within_sums : (n : ℕ) (cs : List ℤ) → pos_sum cs ≤ n → neg_sum cs ≤ n → AllWithin n cs
within_sums n [] p q = tt
within_sums n (c ∷ cs) p q =
    ((omega arith, omega arith), within_sums n cs (omega arith) (omega arith))

-- Between two rounds every running weight lies within the number of backends times the total.
pub IsTallied-AllWithin :
    (t m : ℕ) (ws : List ℕ) (cs : List ℤ) (ks : List ℕ)
    → IsTallied t m ws cs ks
    → AllWithin (length ws * t) cs
IsTallied-AllWithin t m ws cs ks v =
    let le = neg_sum-le t m ws cs ks v.each in
    within_sums (length ws * t) cs (omega (arith, v.balanced, le)) le
