-- ===== src/Balancer/Tally.antt =====
-- The running weights and the numbers of selections between two rounds, and sums over them.
use mathlib.Core.Option
use mathlib.Core.Option.{some-injective}
use native.Mathlib.Decide.{dec_lt}
use palisade.Prelude.{
  ℕ, zero, suc, ◌+◌, ◌*◌, ◌<◌, ◌≡◌, refl, ap, true, Option, some, List, [], ◌∷◌, map, modify,
  get_elem?, arith,
}
use palisade.Prelude.Int.{ℤ, pos, pos_part, neg_part, ◌+ℤ◌, ◌-ℤ◌, +ℤ_parts, -ℤ_parts, one_part}
use palisade.Balancer.Spec.{Entry, raised, total}
use palisade.Balancer.Winner.{AllUnder}

-- Backends of these weights and running weights, all eligible.
abbrev pub all_ready : List ℕ → List ℤ → List Entry
all_ready [] cs = []
all_ready (w ∷ ws) [] = []
all_ready (w ∷ ws) (c ∷ cs) = record { ready = true; weight = w; current = c } ∷ all_ready ws cs

abbrev pub sum : List ℕ → ℕ
sum [] = 0
sum (n ∷ ns) = n + sum ns

abbrev pub pos_sum : List ℤ → ℕ
pos_sum [] = 0
pos_sum (c ∷ cs) = pos_part c + pos_sum cs

abbrev pub neg_sum : List ℤ → ℕ
neg_sum [] = 0
neg_sum (c ∷ cs) = neg_part c + neg_sum cs

-- After `m` rounds with total weight `t`: a backend of weight `w`, selected `k` times, has the
-- running weight m * w - t * k, and that is above -t.
abbrev pub Tallied : (t m : ℕ) → List ℕ → List ℤ → List ℕ → Type 0
Tallied t m [] [] [] = Unit {0}
Tallied t m (w ∷ ws) (c ∷ cs) (k ∷ ks) =
    (pos_part c + t * k ≡ m * w + neg_part c) × (neg_part c < t) × Tallied t m ws cs ks
Tallied t m _ _ _ = ⊥

-- What holds between two rounds.
pub record IsTallied (t m : ℕ) (ws : List ℕ) (cs : List ℤ) (ks : List ℕ) : Type 0 where
  pub each : Tallied t m ws cs ks
  pub balanced : pos_sum cs ≡ neg_sum cs
  pub rounds : sum ks ≡ m

-- The cells of a round before the winner's are lowered.
abbrev pub lifted : List ℕ → List ℤ → List ℤ
lifted ws cs = map raised (all_ready ws cs)

pub total-all_ready :
    (t m : ℕ) (ws : List ℕ) (cs : List ℤ) (ks : List ℕ)
    → Tallied t m ws cs ks
    → total (all_ready ws cs) ≡ sum ws
total-all_ready t m [] [] [] h = refl
total-all_ready t m (w ∷ ws) (c ∷ cs) (k ∷ ks) h = ap (◌+◌ w) (total-all_ready t m ws cs ks h.2)
total-all_ready t m (w ∷ ws) [] ks h = elim h [ ]
total-all_ready t m (w ∷ ws) (c ∷ cs) [] h = elim h [ ]
total-all_ready t m [] (c ∷ cs) ks h = elim h [ ]
total-all_ready t m [] [] (k ∷ ks) h = elim h [ ]

pub lifted_sums :
    (t m : ℕ) (ws : List ℕ) (cs : List ℤ) (ks : List ℕ)
    → Tallied t m ws cs ks
    → pos_sum (lifted ws cs) + neg_sum cs ≡ neg_sum (lifted ws cs) + pos_sum cs + sum ws
lifted_sums t m [] [] [] h = refl
lifted_sums t m (w ∷ ws) (c ∷ cs) (k ∷ ks) h =
    omega (arith, +ℤ_parts c (pos w), lifted_sums t m ws cs ks h.2)
lifted_sums t m (w ∷ ws) [] ks h = elim h [ ]
lifted_sums t m (w ∷ ws) (c ∷ cs) [] h = elim h [ ]
lifted_sums t m [] (c ∷ cs) ks h = elim h [ ]
lifted_sums t m [] [] (k ∷ ks) h = elim h [ ]

-- If no running weight is above `b`, and `b` is not positive, there is nothing positive.
under_nonpos :
    (i : ℕ) (b : ℤ) (ws : List ℕ) (cs : List ℤ)
    → pos_part b ≡ 0
    → AllUnder (some (i, b)) (all_ready ws cs)
    → pos_sum (lifted ws cs) ≡ 0
under_nonpos i b [] cs p u = refl
under_nonpos i b (w ∷ ws) [] p u = refl
under_nonpos i b (w ∷ ws) (c ∷ cs) p u = ground (arith, u.0 refl, under_nonpos i b ws cs p u.1)

pub modify_sums :
    (t i : ℕ) (cs : List ℤ) (c : ℤ)
    → get_elem? cs i ≡ some c
    → pos_sum (modify i (λ x. x -ℤ pos t) cs) + neg_sum cs + t
      ≡ neg_sum (modify i (λ x. x -ℤ pos t) cs) + pos_sum cs
modify_sums t i [] c g = cc
modify_sums t zero (x ∷ cs) c g = omega (arith, -ℤ_parts x (pos t))
modify_sums t (suc i) (x ∷ cs) c g = omega (arith, modify_sums t i cs c g)

raise-Tallied :
    (t m : ℕ) (ws : List ℕ) (cs : List ℤ) (ks : List ℕ)
    → Tallied t m ws cs ks
    → Tallied t (suc m) ws (lifted ws cs) ks
raise-Tallied t m [] [] [] h = tt
raise-Tallied t m (w ∷ ws) (x ∷ cs) (k ∷ ks) h = (
  omega (arith, +ℤ_parts x (pos w), h.0),
  omega (arith, +ℤ_parts x (pos w), one_part (x +ℤ pos w), h.1),
  raise-Tallied t m ws cs ks h.2,
)
raise-Tallied t m (w ∷ ws) [] ks h = elim h [ ]
raise-Tallied t m (w ∷ ws) (x ∷ cs) [] h = elim h [ ]
raise-Tallied t m [] (x ∷ cs) ks h = elim h [ ]
raise-Tallied t m [] [] (k ∷ ks) h = elim h [ ]

-- A round in which `i` wins, at the backends that do not win and at the one that does.
pub lifted-Tallied :
    (t m i : ℕ) (ws : List ℕ) (cs : List ℤ) (ks : List ℕ) (c : ℤ)
    → Tallied t m ws cs ks
    → get_elem? (lifted ws cs) i ≡ some c
    → 0 < pos_part c
    → Tallied t (suc m) ws (modify i (λ x. x -ℤ pos t) (lifted ws cs)) (modify i suc ks)
lifted-Tallied t m i [] [] [] c h g p = cc
lifted-Tallied t m zero (w ∷ ws) (x ∷ cs) (k ∷ ks) c h g p =
    let r : ℤ = x +ℤ pos w in
    let e : r ≡ c = some-injective _ _ g in
    (
      omega (arith, +ℤ_parts x (pos w), -ℤ_parts r (pos t), h.0),
      omega (arith, -ℤ_parts r (pos t), one_part r, one_part (r -ℤ pos t), ap pos_part e, p),
      raise-Tallied t m ws cs ks h.2,
    )
lifted-Tallied t m (suc i) (w ∷ ws) (x ∷ cs) (k ∷ ks) c h g p = (
  omega (arith, +ℤ_parts x (pos w), h.0),
  omega (arith, +ℤ_parts x (pos w), one_part (x +ℤ pos w), h.1),
  lifted-Tallied t m i ws cs ks c h.2 g p,
)
lifted-Tallied t m i (w ∷ ws) [] ks c h g p = elim h [ ]
lifted-Tallied t m i (w ∷ ws) (x ∷ cs) [] c h g p = elim h [ ]
lifted-Tallied t m i [] (x ∷ cs) ks c h g p = elim h [ ]
lifted-Tallied t m i [] [] (k ∷ ks) c h g p = elim h [ ]

pub sum-modify :
    (t m i : ℕ) (ws : List ℕ) (cs : List ℤ) (ks : List ℕ) (c : ℤ)
    → Tallied t m ws cs ks
    → get_elem? (lifted ws cs) i ≡ some c
    → sum (modify i suc ks) ≡ suc (sum ks)
sum-modify t m i [] [] [] c h g = cc
sum-modify t m zero (w ∷ ws) (x ∷ cs) (k ∷ ks) c h g = omega arith
sum-modify t m (suc i) (w ∷ ws) (x ∷ cs) (k ∷ ks) c h g =
    omega (arith, sum-modify t m i ws cs ks c h.2 g)
sum-modify t m i (w ∷ ws) [] ks c h g = elim h [ ]
sum-modify t m i (w ∷ ws) (x ∷ cs) [] c h g = elim h [ ]
sum-modify t m i [] (x ∷ cs) ks c h g = elim h [ ]
sum-modify t m i [] [] (k ∷ ks) c h g = elim h [ ]

pub get_elem?-lifted :
    (i : ℕ) (es : List Entry) (e : Entry)
    → get_elem? es i ≡ some e
    → get_elem? (map raised es) i ≡ some (raised e)
get_elem?-lifted i [] e g = cc
get_elem?-lifted zero (x ∷ es) e g = ap (λ (o : Option Entry). Option.map raised o) g
get_elem?-lifted (suc i) (x ∷ es) e g = get_elem?-lifted i es e g

-- The winner's running weight is positive, since the running weights together are the total.
pub winner_pos :
    (t m i : ℕ) (ws : List ℕ) (cs : List ℤ) (ks : List ℕ) (b : ℤ)
    → IsTallied t m ws cs ks
    → 0 < sum ws
    → AllUnder (some (i, b)) (all_ready ws cs)
    → 0 < pos_part b
winner_pos t m i ws cs ks b v p u = elim (dec_lt 0 (pos_part b)) [
  | yes q ↦ q
  | no q ↦ absurd (
      omega (
        arith,
        under_nonpos i b ws cs (omega arith) u,
        lifted_sums t m ws cs ks v.each,
        v.balanced,
      ))
]
