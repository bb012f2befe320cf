-- ===== src/Text/Number/RoundTrip.antt =====
-- A number that is printed in decimal is read back.
use palisade.Prelude.{
  ℕ, zero, suc, ◌+◌, ◌/◌, ◌%◌, ◌^◌, ◌<◌, ◌≡◌, refl, ap, sym, ◌∙◌, some, List, [], ◌∷◌, ltb, arith,
  Bool-cases, inl, inr,
}
use palisade.Text.Number.{digits, decimal, push_digit, parse_digits, parse_u64}

push_digit-last : (n : ℕ) → n < 2 ^ 64 → push_digit (n / 10) (48 + n % 10) ≡ some n
unfolding push_digit
push_digit-last n b = ground arith

push_digit-only : (n : ℕ) → n < 10 → push_digit 0 (48 + n % 10) ≡ some n
unfolding push_digit
push_digit-only n b = ground arith

parse_digits-digits :
    (fuel n : ℕ) (tail : List ℕ)
    → n < fuel
    → n < 2 ^ 64
    → parse_digits 0 (digits fuel n tail) ≡ parse_digits n tail
unfolding digits parse_digits
parse_digits-digits zero n tail f b = absurd (omega arith)
parse_digits-digits (suc fuel) n tail f b = elim (Bool-cases (ltb n 10)) [
  | inl q ↦ rw (q, digits, parse_digits, push_digit-only n (ground arith)) refl
  | inr q ↦
      rw (q, digits)
        (parse_digits-digits fuel (n / 10) ((48 + n % 10) ∷ tail) (ground arith) (omega arith)
          ∙ rw (parse_digits, push_digit-last n b) refl)
]

digits-cons :
    (fuel n c : ℕ) (tail : List ℕ) → (d : ℕ) × (s : List ℕ) × (digits fuel n (c ∷ tail) ≡ d ∷ s)
unfolding digits
digits-cons zero n c tail = (c, tail, refl)
digits-cons (suc fuel) n c tail = elim (Bool-cases (ltb n 10)) [
  | inl q ↦ (48 + n % 10, c ∷ tail, rw (q, digits) refl)
  | inr q ↦
      (let (d, s, e) = digits-cons fuel (n / 10) (48 + n % 10) (c ∷ tail) in
        (d, s, rw (q, digits) e))
]

decimal-cons : (n : ℕ) → (d : ℕ) × (s : List ℕ) × (decimal n ≡ d ∷ s)
unfolding decimal digits
decimal-cons n = elim (Bool-cases (ltb n 10)) [
  | inl q ↦ (48 + n % 10, [], rw (q, decimal, digits) refl)
  | inr q ↦
      (let (d, s, e) = digits-cons n (n / 10) (48 + n % 10) [] in (d, s, rw (q, decimal, digits) e))
]

parse_u64-parse_digits :
    (c : ℕ) (s : List ℕ) (n : ℕ) → parse_digits 0 (c ∷ s) ≡ some n → parse_u64 (c ∷ s) ≡ some n
unfolding parse_u64 parse_digits push_digit
parse_u64-parse_digits c [] n e = e
parse_u64-parse_digits c (d ∷ s) n e = ground arith

-- A `u64` that is printed in decimal is read back as itself.
pub parse_u64-decimal : (n : ℕ) → n < 2 ^ 64 → parse_u64 (decimal n) ≡ some n
unfolding decimal parse_digits
parse_u64-decimal n b =
    let (c, s, e) = decimal-cons n in
    ap parse_u64 e
    ∙ parse_u64-parse_digits c s n
        (ap (parse_digits 0) (sym e) ∙ parse_digits-digits (suc n) n [] (omega arith) b)
