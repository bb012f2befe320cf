-- ===== src/Balancer/Drift.antt =====
-- How far the running weights can drift when backends become eligible and ineligible in any order.
use palisade.Prelude.Int.{ℤ, pos, pos_part, neg_part, ◌-ℤ◌, +ℤ_parts}
use palisade.Balancer.Spec.{Entry, raised, total, choose, settle, round}
use palisade.Balancer.Winner.{AllUnder, IsHighest, choice, choose-AllUnder}
use palisade.Balancer.Tally.{get_elem?-lifted}
use palisade.Balancer.Spread.{
  Choice, inside, outside, pos_in, neg_in, unready, also, gaining, gain, pos_gaining, neg_gaining,
  currents, raise_sums, gain-le-total, split_sums, gaining_under, also_sums, gain-winner,
  modify_out, modify_in, sizes,
}
use mathlib.Core.Path.{subst}
use palisade.Prelude.{
  List, sym, [], ◌∷◌, Option, none, some, map, modify, true, false, Bool-cases, inl, inr, ℕ, zero,
  suc, ◌+◌, ◌*◌, ◌≤◌, ◌≡◌, refl, ap, arith,
}
use native.Mathlib.Decide.{dec_le}
use native.Mathlib.Nat.{mul-le-mul_left}

square : (d : ℕ) → d ≤ d * d
square zero = omega arith
square (suc d) = omega arith

-- The arithmetic of one round, for a set that the winner is not in: `a` is the sum over its members
-- that do not gain, `x` over the `d` that gain, `r` the winner's, `s` the sum over the set with the
-- winner before the round; `w` is the weight of the winner and of the `d`.
drift_step :
    (t w d p q bp an xp xn rp rn sp sn : ℕ)
    → xp + d * rn ≤ d * rp + xn
    → sp + w + an + xn + rn ≡ bp + xp + rp + sn
    → w ≤ t
    → 2 * bp ≤ 2 * an + t * (p * (q + 1 + d))
    → 2 * sp ≤ 2 * sn + t * ((p + d + 1) * q)
    → 2 * (bp + xp) ≤ 2 * (an + xn) + t * ((p + d) * (q + 1))
drift_step t w d p q bp an xp xn rp rn sp sn h e l a b =
    elim (dec_le (2 * (bp + xp)) (2 * (an + xn) + t * ((p + d) * (q + 1)))) [
      | yes y ↦ y
      | no n ↦
          (let over : 2 * (an + xn) + t * ((p + d) * (q + 1)) + 1 ≤ 2 * (bp + xp) = omega arith in
            absurd (
              omega (
                arith,
                h,
                a,
                mul-le-mul_left (suc d) over,
                ap (λ (k : ℕ). d * k) e,
                mul-le-mul_left d l,
                mul-le-mul_left d b,
                mul-le-mul_left t (square d),
              )))
    ]

-- The same, with the sizes of the sets: `u` for those that do not gain, `v` with the winner.
drift_set :
    (t w d iu ou iv ov i o bp an xp xn rp rn sp sn : ℕ)
    → xp + d * rn ≤ d * rp + xn
    → sp + w + an + xn + rn ≡ bp + xp + rp + sn
    → w ≤ t
    → i ≡ iu + d
    → o ≡ suc ov
    → ou ≡ o + d
    → iv ≡ suc i
    → 2 * bp ≤ 2 * an + t * (iu * ou)
    → 2 * sp ≤ 2 * sn + t * (iv * ov)
    → 2 * (bp + xp) ≤ 2 * (an + xn) + t * (i * o)
drift_set t w d iu ou iv ov i o bp an xp xn rp rn sp sn h e l p q r y a b =
    let ou_is : ou ≡ ov + 1 + d = omega (arith, q, r) in
    let iv_is : iv ≡ iu + d + 1 = omega (arith, p, y) in
    let o_is : o ≡ ov + 1 = omega (arith, q) in
    rw (p, o_is)
      (drift_step t w d iu ov bp an xp xn rp rn sp sn h e l
        (omega (arith, a, ap (λ (k : ℕ). t * (iu * k)) ou_is))
        (omega (arith, b, ap (λ (k : ℕ). t * (k * ov)) iv_is)))

abbrev pub everyone : Choice
everyone k = true

-- With weights of sum `t`: a set of `k` of `n` backends has a running weight of at most
-- t * k * (n - k) / 2, and all together have none.
pub record IsSpread (t : ℕ) (cs : List ℤ) : Type 0 where
  pub bound : (s : Choice) → 2 * pos_in s cs ≤ 2 * neg_in s cs + t * (inside s cs * outside s cs)
  pub balanced : pos_in everyone cs ≡ neg_in everyone cs

raised_parts :
    (e : Entry)
    → e.ready ≡ true
    → pos_part (raised e) + neg_part e.current ≡ neg_part (raised e) + pos_part e.current + e.weight
raised_parts e r = rw r (omega (arith, +ℤ_parts e.current (pos e.weight)))

gain-everyone : (es : List Entry) → gain everyone es ≡ total es
gain-everyone [] = refl
gain-everyone (e ∷ es) = ground (arith, gain-everyone es)

none-raised : (es : List Entry) → AllUnder none es → map raised es ≡ currents es
none-raised [] u = refl
none-raised (e ∷ es) u = ground (arith, none-raised es u.1)

module _ (t : ℕ) (es : List Entry) (le : total es ≤ t) (v : IsSpread t (currents es)) where
  module _ (i : ℕ) (w : IsHighest es i) where
    abbrev paid : List ℤ
    paid = modify i (λ c. c -ℤ pos (total es)) (map raised es)

    -- A set with the winner gains at most what the winner pays.
    bound_in :
        (s : Choice)
        → s i ≡ true
        → 2 * pos_in s paid ≤ 2 * neg_in s paid + t * (inside s paid * outside s paid)
    bound_in s q =
        rw ((sizes s es i (total es)).0, (sizes s es i (total es)).1)
          (omega (
            arith,
            modify_in s (map raised es) i (total es) (raised w.entry)
                (get_elem?-lifted i es w.entry w.at) q,
            raise_sums s es,
            gain-le-total s es,
            v.bound s,
          ))

    -- The set with the winner, before the round and after everyone has gained.
    balance :
        (s : Choice)
        → s i ≡ false
        → pos_in (also i s) (currents es)
            + (gain s es + w.entry.weight)
            + neg_in (unready es s) (currents es)
            + neg_gaining s es
            + neg_part (raised w.entry)
          ≡ pos_in (unready es s) (currents es)
            + pos_gaining s es
            + pos_part (raised w.entry)
            + neg_in (also i s) (currents es)
    balance s q = omega (
      arith,
      raise_sums s es,
      split_sums s es,
      also_sums s es i w.entry w.at q,
      raised_parts w.entry w.ready,
    )

    bound_out :
        (s : Choice)
        → s i ≡ false
        → 2 * pos_in s paid ≤ 2 * neg_in s paid + t * (inside s paid * outside s paid)
    bound_out s q =
        let e = w.entry in
        let d = gaining s es in
        let (same_pos, same_neg) = modify_out s (map raised es) i (total es) q in
        let (split_pos, split_neg, split_in, split_out) = split_sums s es in
        let (more_pos, more_neg, more_in, more_out) = also_sums s es i e w.at q in
        let cs = currents es in
        rw
          (
            (sizes s es i (total es)).0,
            (sizes s es i (total es)).1,
            same_pos,
            same_neg,
            split_pos,
            split_neg,
          )
          (drift_set t (gain s es + e.weight) d (inside (unready es s) cs)
            (outside (unready es s) cs) (inside (also i s) cs) (outside (also i s) cs) (inside s cs)
            (outside s cs) (pos_in (unready es s) cs) (neg_in (unready es s) cs) (pos_gaining s es)
            (neg_gaining s es) (pos_part (raised e)) (neg_part (raised e)) (pos_in (also i s) cs)
            (neg_in (also i s) cs) (gaining_under s es i (raised e) w.highest) (balance s q)
            (omega (arith, gain-winner s es i e w.at w.ready q, le)) split_in more_out split_out
            more_in (v.bound (unready es s)) (v.bound (also i s)))

    won-IsSpread : IsSpread t paid
    won-IsSpread = record {
      bound = λ s. elim (Bool-cases (s i)) [ inl q ↦ bound_in s q | inr q ↦ bound_out s q ];
      balanced = omega (
        arith,
        modify_in everyone (map raised es) i (total es) (raised w.entry)
            (get_elem?-lifted i es w.entry w.at) refl,
        raise_sums everyone es,
        gain-everyone es,
        v.balanced,
      );
    }

  -- A round keeps the bounds, whichever backends are eligible.
  pub round-IsSpread : IsSpread t (round es).1
  unfolding round
  round-IsSpread = settled (choose 0 es none) refl
    where
      settled :
          (r : Option (ℕ × ℤ))
          → choose 0 es none ≡ r
          → IsSpread t (settle r (total es) (map raised es)).1
      settled none e =
          subst (λ cs. IsSpread t cs)
            (sym (none-raised es (subst (λ r. AllUnder r es) e (choose-AllUnder 0 es none)))) v
      settled (some (i, b)) e = won-IsSpread i (choice es i b e).0
