-- ===== src/Balancer/Spread.antt =====
-- Sums of running weights over sets of backends, before and after a round.
use palisade.Prelude.{
  ℕ, zero, suc, ◌+◌, ◌*◌, ◌≤◌, ◌≡◌, refl, Bool, true, false, ◌&&◌, not, some, List, [], ◌∷◌, map,
  modify, get_elem?, arith, if◌then◌else◌, Bool-cases, inl, inr,
}
use mathlib.Core.Option.{some-injective}
use palisade.Prelude.Int.{ℤ, pos, pos_part, neg_part, ◌-ℤ◌, +ℤ_parts, -ℤ_parts}
use palisade.Balancer.Spec.{Entry, raised, total}
use palisade.Balancer.Winner.{AllUnder}

-- A set of backends, by their indices.
abbrev pub Choice : Type 0
Choice = ℕ → Bool

abbrev pub rest : Choice → Choice
rest s k = s (suc k)

-- How many of the backends are in the set, and how many are not.
abbrev pub inside : Choice → List ℤ → ℕ
inside s [] = 0
inside s (c ∷ cs) = (if s 0 then 1 else 0) + inside (rest s) cs

abbrev pub outside : Choice → List ℤ → ℕ
outside s [] = 0
outside s (c ∷ cs) = (if s 0 then 0 else 1) + outside (rest s) cs

-- The positive and the negative parts of the running weights in the set.
abbrev pub pos_in : Choice → List ℤ → ℕ
pos_in s [] = 0
pos_in s (c ∷ cs) = (if s 0 then pos_part c else 0) + pos_in (rest s) cs

abbrev pub neg_in : Choice → List ℤ → ℕ
neg_in s [] = 0
neg_in s (c ∷ cs) = (if s 0 then neg_part c else 0) + neg_in (rest s) cs

-- The members that are not eligible, and the set with one more member.
abbrev pub unready : List Entry → Choice → Choice
unready [] s k = false
unready (e ∷ es) s zero = s 0 && not e.ready
unready (e ∷ es) s (suc k) = unready es (rest s) k

abbrev pub also : ℕ → Choice → Choice
also zero s zero = true
also zero s (suc k) = s (suc k)
also (suc i) s zero = s 0
also (suc i) s (suc k) = also i (rest s) k

-- The eligible members: their number, their weight, the parts of what they are raised to.
abbrev pub gaining : Choice → List Entry → ℕ
gaining s [] = 0
gaining s (e ∷ es) = (if s 0 && e.ready then 1 else 0) + gaining (rest s) es

abbrev pub gain : Choice → List Entry → ℕ
gain s [] = 0
gain s (e ∷ es) = (if s 0 && e.ready then e.weight else 0) + gain (rest s) es

abbrev pub pos_gaining : Choice → List Entry → ℕ
pos_gaining s [] = 0
pos_gaining s (e ∷ es) =
    (if s 0 && e.ready then pos_part (raised e) else 0) + pos_gaining (rest s) es

abbrev pub neg_gaining : Choice → List Entry → ℕ
neg_gaining s [] = 0
neg_gaining s (e ∷ es) =
    (if s 0 && e.ready then neg_part (raised e) else 0) + neg_gaining (rest s) es

abbrev pub currents : List Entry → List ℤ
currents es = map (λ (e : Entry). e.current) es

pub raise_sums :
    (s : Choice) (es : List Entry)
    → pos_in s (map raised es) + neg_in s (currents es)
      ≡ neg_in s (map raised es) + pos_in s (currents es) + gain s es
raise_sums s [] = refl
raise_sums s (e ∷ es) = ground (arith, raise_sums (rest s) es, +ℤ_parts e.current (pos e.weight))

pub gain-le-total : (s : Choice) (es : List Entry) → gain s es ≤ total es
gain-le-total s [] = omega arith
gain-le-total s (e ∷ es) = ground (arith, gain-le-total (rest s) es)

-- The members are those that gain and those that do not.
pub split_sums :
    (s : Choice) (es : List Entry)
    → (pos_in s (map raised es) ≡ pos_in (unready es s) (currents es) + pos_gaining s es)
      × (neg_in s (map raised es) ≡ neg_in (unready es s) (currents es) + neg_gaining s es)
      × (inside s (currents es) ≡ inside (unready es s) (currents es) + gaining s es)
      × (outside (unready es s) (currents es) ≡ outside s (currents es) + gaining s es)
split_sums s [] = (refl, refl, refl, refl)
split_sums s (e ∷ es) = ground (arith, split_sums (rest s) es)

-- None that gains is raised above `b`.
pub gaining_under :
    (s : Choice) (es : List Entry) (i : ℕ) (b : ℤ)
    → AllUnder (some (i, b)) es
    → pos_gaining s es + gaining s es * neg_part b ≤ gaining s es * pos_part b + neg_gaining s es
gaining_under s [] i b u = omega arith
gaining_under s (e ∷ es) i b u = elim (Bool-cases (s 0 && e.ready)) [
  | inl q ↦ rw q (omega (arith, gaining_under (rest s) es i b u.1, u.0 (ground arith)))
  | inr q ↦ rw q (omega (arith, gaining_under (rest s) es i b u.1))
]

-- One more member.
pub also_sums :
    (s : Choice) (es : List Entry) (i : ℕ) (e : Entry)
    → get_elem? es i ≡ some e
    → s i ≡ false
    → (pos_in (also i s) (currents es) ≡ pos_in s (currents es) + pos_part e.current)
      × (neg_in (also i s) (currents es) ≡ neg_in s (currents es) + neg_part e.current)
      × (inside (also i s) (currents es) ≡ suc (inside s (currents es)))
      × (outside s (currents es) ≡ suc (outside (also i s) (currents es)))
also_sums s [] i e g q = cc
also_sums s (x ∷ es) zero e g q = let y : x ≡ e = some-injective _ _ g in rw (q, ← y) (omega arith)
also_sums s (x ∷ es) (suc i) e g q = ground (arith, also_sums (rest s) es i e g q)

-- The weight of the winner and of the others that gain.
pub gain-winner :
    (s : Choice) (es : List Entry) (i : ℕ) (e : Entry)
    → get_elem? es i ≡ some e
    → e.ready ≡ true
    → s i ≡ false
    → gain s es + e.weight ≤ total es
gain-winner s [] i e g r q = cc
gain-winner s (x ∷ es) zero e g r q =
    let y : x ≡ e = some-injective _ _ g in rw (q, y, r) (omega (arith, gain-le-total (rest s) es))
gain-winner s (x ∷ es) (suc i) e g r q = ground (arith, gain-winner (rest s) es i e g r q)

-- The winner pays `t`, which changes the sums of the sets that it is in.
pub modify_out :
    (s : Choice) (cs : List ℤ) (i t : ℕ)
    → s i ≡ false
    → (pos_in s (modify i (λ c. c -ℤ pos t) cs) ≡ pos_in s cs)
      × (neg_in s (modify i (λ c. c -ℤ pos t) cs) ≡ neg_in s cs)
modify_out s [] i t q = (refl, refl)
modify_out s (c ∷ cs) zero t q = rw q (refl, refl)
modify_out s (c ∷ cs) (suc i) t q =
    let (a, b) = modify_out (rest s) cs i t q in (omega (arith, a), omega (arith, b))

pub modify_in :
    (s : Choice) (cs : List ℤ) (i t : ℕ) (c : ℤ)
    → get_elem? cs i ≡ some c
    → s i ≡ true
    → pos_in s (modify i (λ c. c -ℤ pos t) cs) + neg_in s cs + t
      ≡ neg_in s (modify i (λ c. c -ℤ pos t) cs) + pos_in s cs
modify_in s [] i t c g q = cc
modify_in s (x ∷ cs) zero t c g q = rw q (omega (arith, -ℤ_parts x (pos t)))
modify_in s (x ∷ cs) (suc i) t c g q = omega (arith, modify_in (rest s) cs i t c g q)

pub sizes :
    (s : Choice) (es : List Entry) (i t : ℕ)
    → (inside s (modify i (λ c. c -ℤ pos t) (map raised es)) ≡ inside s (currents es))
      × (outside s (modify i (λ c. c -ℤ pos t) (map raised es)) ≡ outside s (currents es))
sizes s [] i t = (refl, refl)
sizes s (e ∷ es) zero t = (omega (arith, same (rest s) es), omega (arith, same (rest s) es))
  where
    same :
        (s : Choice) (es : List Entry)
        → (inside s (map raised es) ≡ inside s (currents es))
          × (outside s (map raised es) ≡ outside s (currents es))
    same s [] = (refl, refl)
    same s (e ∷ es) = (omega (arith, same (rest s) es), omega (arith, same (rest s) es))
sizes s (e ∷ es) (suc i) t =
    (omega (arith, sizes (rest s) es i t), omega (arith, sizes (rest s) es i t))
