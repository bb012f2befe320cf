-- ===== src/Text/Number.antt =====
-- Decimal numbers: `to_string` of an unsigned integer and `str::parse::<u64>`.
pub mod RoundTrip
use palisade.Prelude.{
  ℕ, zero, suc, ◌+◌, ◌-◌, ◌*◌, ◌/◌, ◌%◌, ◌^◌, ◌≡◌, refl, ◌&&◌, Option, none, some, List, [], ◌∷◌,
  ltb, leb, ◌==◌, if◌then◌else◌,
}

-- The digits of `n` before those of `tail`. Each round divides by ten, so that `suc n` rounds do.
digits : ℕ → ℕ → List ℕ → List ℕ
digits zero n tail = tail
digits (suc fuel) n tail =
    let shown = (48 + n % 10) ∷ tail in
    let rest = digits fuel (n / 10) shown in if ltb n 10 then shown else rest

unfoldable pub decimal : ℕ → List ℕ
unfolding digits
decimal n = digits (suc n) n []

-- One round of `parse`: a digit, and no overflow past `u64::MAX`.
push_digit : ℕ → ℕ → Option ℕ
push_digit n c =
    if leb 48 c && leb c 57
    then (if ltb (n * 10 + (c - 48)) (2 ^ 64) then some (n * 10 + (c - 48)) else none)
    else none

parse_digits : ℕ → List ℕ → Option ℕ
parse_digits n [] = some n
parse_digits n (c ∷ s) = elim (push_digit n c) [ none ↦ none | some m ↦ parse_digits m s ]

-- A leading `+` is taken if a digit follows it; the empty text is refused.
unfoldable pub parse_u64 : List ℕ → Option ℕ
unfolding parse_digits push_digit
parse_u64 [] = none
parse_u64 (c ∷ []) = parse_digits 0 (c ∷ [])
parse_u64 (c ∷ d ∷ s) = if c == b'+' then parse_digits 0 (d ∷ s) else parse_digits 0 (c ∷ d ∷ s)

decimal_test : decimal 10485760 ≡ b'1' ∷ b'0' ∷ b'4' ∷ b'8' ∷ b'5' ∷ b'7' ∷ b'6' ∷ b'0' ∷ []
unfolding decimal
decimal_test = refl

parse_test : parse_u64 (b'+' ∷ b'4' ∷ b'2' ∷ []) ≡ some 42
unfolding parse_u64
parse_test = refl
