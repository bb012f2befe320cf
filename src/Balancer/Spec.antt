-- ===== src/Balancer/Spec.antt =====
-- One round of smooth weighted round-robin over exact integers, as the header of src/balancer.rs
-- describes it.
use palisade.Prelude.{
  ℕ, suc, ◌+◌, Bool, true, Option, none, some, List, [], ◌∷◌, map, modify, if◌then◌else◌,
}
use palisade.Prelude.Int.{ℤ, pos, ◌+ℤ◌, ◌-ℤ◌, ltb_ℤ}

-- A backend as a round sees it: whether it is eligible, its weight and its running weight.
pub record Entry : Type 0 where
  pub ready : Bool
  pub weight : ℕ
  pub current : ℤ

-- The running weight after the eligible backends have gained their weight.
abbrev pub raised : Entry → ℤ
raised e = if e.ready then e.current +ℤ pos e.weight else e.current

-- The sum of the eligible weights.
abbrev pub total : List Entry → ℕ
total [] = 0
total (e ∷ es) = (if e.ready then e.weight else 0) + total es

abbrev pub better : Option (ℕ × ℤ) → ℤ → Bool
better none c = true
better (some (j, b)) c = ltb_ℤ b c

-- A later backend wins only with a strictly greater running weight.
abbrev pub consider : ℕ → Entry → Option (ℕ × ℤ) → Option (ℕ × ℤ)
consider i e best =
    if e.ready then (if better best (raised e) then some (i, raised e) else best) else best

abbrev pub choose : ℕ → List Entry → Option (ℕ × ℤ) → Option (ℕ × ℤ)
choose i [] best = best
choose i (e ∷ es) best = choose (suc i) es (consider i e best)

abbrev pub settle : Option (ℕ × ℤ) → ℕ → List ℤ → Option ℕ × List ℤ
settle none t cs = (none, cs)
settle (some (i, b)) t cs = (some i, modify i (λ c. c -ℤ pos t) cs)

-- The winner and the running weights that the round leaves.
unfoldable pub round : List Entry → Option ℕ × List ℤ
round es = settle (choose 0 es none) (total es) (map raised es)
