-- ===== src/Duration.antt =====
-- `std::time::Duration` and `Instant`, in nanoseconds, with the methods that the sources call.
use palisade.Prelude.{
  ℕ, zero, suc, ◌+◌, ◌-◌, ◌*◌, ◌/◌, ◌%◌, ◌^◌, ◌≡◌, refl, String, [], ◌∷◌, ◌++◌, min, leb, ◌==◌,
  if◌then◌else◌,
}
use palisade.Text.{Str, codes, decimal}

abbrev pub Duration : Type 0
Duration = ℕ

abbrev pub u64_max : ℕ
u64_max = 2 ^ 64 - 1

abbrev pub u32_max : ℕ
u32_max = 2 ^ 32 - 1

unfoldable pub from_secs : ℕ → Duration
from_secs s = s * 1_000_000_000

-- `u64::try_from(d.as_millis()).unwrap_or(u64::MAX)`
unfoldable pub as_millis_u64 : Duration → ℕ
as_millis_u64 d = min (d / 1_000_000) u64_max

-- `u64::saturating_add`
unfoldable pub saturating_add_u64 : ℕ → ℕ → ℕ
saturating_add_u64 a b = min (a + b) u64_max

-- `u32::saturating_add`
unfoldable pub saturating_add_u32 : ℕ → ℕ → ℕ
saturating_add_u32 a b = min (a + b) u32_max

-- `width` digits of `n`, without the zeros at the end.
fraction : ℕ → ℕ → Str
fraction zero n = []
fraction (suc w) n =
    let rest = fraction w (n % 10 ^ w) in if n == 0 then [] else (48 + n / 10 ^ w) ∷ rest

in_unit : ℕ → ℕ → ℕ → String → Str
in_unit whole width part unit =
    decimal whole ++ ((if part == 0 then [] else b'.' ∷ fraction width part) ++ codes unit)

-- `{:?}`
unfoldable pub debug : Duration → Str
unfolding fraction in_unit decimal
debug d =
    if leb 1_000_000_000 d
    then in_unit (d / 1_000_000_000) 9 (d % 1_000_000_000) "s"
    else if leb 1_000_000 d
    then in_unit (d / 1_000_000) 6 (d % 1_000_000) "ms"
    else if leb 1000 d
    then in_unit (d / 1000) 3 (d % 1000) "µs"
    else in_unit d 0 0 "ns"

debug_test : debug 1_050_000_000 ≡ codes "1.05s"
unfolding debug
debug_test = refl
