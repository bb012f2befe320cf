-- ===== src/Balancer/Threads/Sums.antt =====
-- The running weights as 64-bit words, and what the atomic operations do to their sum.
use palisade.Prelude.{
  ℕ, zero, suc, ◌+◌, ◌-◌, ◌%◌, ◌^◌, ◌≡◌, ◌<◌, ◌≤◌, length, some, List, [], ◌∷◌, modify, get_elem?,
  arith,
}
use palisade.Prelude.Int.{ℤ, pos_part, neg_part, pos, negsuc, ◌+ℤ◌, ◌-ℤ◌}
use palisade.Balancer.Word.{fetch_add, fetch_sub, wrap}
use mathlib.Core.Option.{some-injective}

-- The word that represents an integer in two's complement.
abbrev pub word : ℤ → ℕ
word (pos n) = n % 2 ^ 64
word (negsuc n) = 2 ^ 64 - 1 - n % 2 ^ 64

abbrev pub words : List ℤ → ℕ
words [] = 0
words (c ∷ cs) = word c + words cs

word-fetch_add : (c : ℤ) (w : ℕ) → word (fetch_add c (pos w)) ≡ (word c + w) % 2 ^ 64
unfolding fetch_add wrap ◌+ℤ◌ ◌-ℤ◌
word-fetch_add c w = ground arith

word-fetch_sub : (c : ℤ) (w : ℕ) → (word (fetch_sub c (pos w)) + w) % 2 ^ 64 ≡ word c
unfolding fetch_sub wrap ◌+ℤ◌ ◌-ℤ◌
word-fetch_sub c w = ground arith

pub words-add :
    (i w : ℕ) (cs : List ℤ) (c : ℤ)
    → get_elem? cs i ≡ some c
    → words (modify i (λ z. fetch_add z (pos w)) cs) % 2 ^ 64 ≡ (words cs + w) % 2 ^ 64
words-add i w [] c g = cc
words-add zero w (x ∷ cs) c g = omega (arith, word-fetch_add x w)
words-add (suc i) w (x ∷ cs) c g = omega (arith, words-add i w cs c g)

pub words-sub :
    (i w : ℕ) (cs : List ℤ)
    → i < length cs
    → (words (modify i (λ z. fetch_sub z (pos w)) cs) + w) % 2 ^ 64 ≡ words cs % 2 ^ 64
words-sub i w [] b = omega (arith, b)
words-sub zero w (x ∷ cs) b = omega (arith, word-fetch_sub x w)
words-sub (suc i) w (x ∷ cs) b = omega (arith, words-sub i w cs (omega (arith, b)))

-- The integers that an `i64` holds.
pub record IsI64 (z : ℤ) : Type 0 where
  pub least : neg_part z ≤ 2 ^ 63
  pub most : pos_part z < 2 ^ 63

abbrev pub AllI64 : List ℤ → Type 0
AllI64 [] = Unit {0}
AllI64 (c ∷ cs) = IsI64 c × AllI64 cs

fetch_add-IsI64 : (c : ℤ) (w : ℕ) → IsI64 c → w < 2 ^ 63 → IsI64 (fetch_add c (pos w))
unfolding fetch_add wrap ◌+ℤ◌ ◌-ℤ◌
fetch_add-IsI64 c w v b = record { least = ground arith; most = ground arith }

fetch_sub-IsI64 : (c : ℤ) (w : ℕ) → IsI64 c → w < 2 ^ 63 → IsI64 (fetch_sub c (pos w))
unfolding fetch_sub wrap ◌+ℤ◌ ◌-ℤ◌
fetch_sub-IsI64 c w v b = record { least = ground arith; most = ground arith }

pub add-AllI64 :
    (i w : ℕ) (cs : List ℤ)
    → w < 2 ^ 63
    → AllI64 cs
    → AllI64 (modify i (λ z. fetch_add z (pos w)) cs)
add-AllI64 i w [] b v = tt
add-AllI64 zero w (x ∷ cs) b v = (fetch_add-IsI64 x w v.0 b, v.1)
add-AllI64 (suc i) w (x ∷ cs) b v = (v.0, add-AllI64 i w cs b v.1)

pub sub-AllI64 :
    (i w : ℕ) (cs : List ℤ)
    → w < 2 ^ 63
    → AllI64 cs
    → AllI64 (modify i (λ z. fetch_sub z (pos w)) cs)
sub-AllI64 i w [] b v = tt
sub-AllI64 zero w (x ∷ cs) b v = (fetch_sub-IsI64 x w v.0 b, v.1)
sub-AllI64 (suc i) w (x ∷ cs) b v = (v.0, sub-AllI64 i w cs b v.1)

pub AllI64-at : (i : ℕ) (cs : List ℤ) (c : ℤ) → get_elem? cs i ≡ some c → AllI64 cs → IsI64 c
AllI64-at i [] c g v = cc
AllI64-at zero (x ∷ cs) c g v = rw (← some-injective _ _ g) v.0
AllI64-at (suc i) (x ∷ cs) c g v = AllI64-at i cs c g v.1

-- The weights from an index on.
abbrev pub remaining : ℕ → List ℕ → ℕ
remaining i [] = 0
remaining zero (w ∷ ws) = w + remaining zero ws
remaining (suc i) (w ∷ ws) = remaining i ws

pub remaining-at :
    (i : ℕ) (ws : List ℕ) (w : ℕ)
    → get_elem? ws i ≡ some w
    → (remaining i ws ≡ w + remaining (suc i) ws) × (i < length ws) × (w ≤ remaining 0 ws)
remaining-at i [] w g = cc
remaining-at zero (x ∷ []) w g =
    (omega (arith, some-injective _ _ g), omega arith, omega (arith, some-injective _ _ g))
remaining-at zero (x ∷ y ∷ ws) w g =
    (omega (arith, some-injective _ _ g), omega arith, omega (arith, some-injective _ _ g))
remaining-at (suc i) (x ∷ ws) w g =
    let (e, l, b) = remaining-at i ws w g in (e, omega (arith, l), omega (arith, b))
