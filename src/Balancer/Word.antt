-- ===== src/Balancer/Word.antt =====
-- `i64` and the operations of `AtomicI64` that the balancer uses.
use palisade.Prelude.{ℕ, ◌+◌, ◌-◌, ◌^◌, ◌≤◌, ◌<◌, ◌≡◌, arith, if◌then◌else◌}
use palisade.Prelude.Int.{ℤ, pos, negsuc, pos_part, neg_part, ◌+ℤ◌, ◌-ℤ◌, ltb_ℤ}

abbrev pub i64_min : ℤ
i64_min = negsuc (2 ^ 63 - 1)

abbrev pub i64_max : ℤ
i64_max = pos (2 ^ 63 - 1)

-- The `i64` that a sum or difference of two `i64`s wraps to.
unfoldable pub wrap : ℤ → ℤ
unfolding ◌+ℤ◌ ◌-ℤ◌
wrap z =
    if ltb_ℤ z i64_min then z +ℤ pos (2 ^ 64) else if ltb_ℤ i64_max z then z -ℤ pos (2 ^ 64) else z

-- What `AtomicI64::fetch_add` and `fetch_sub` leave in the cell.
unfoldable pub fetch_add : ℤ → ℤ → ℤ
unfolding wrap ◌+ℤ◌
fetch_add c w = wrap (c +ℤ w)

unfoldable pub fetch_sub : ℤ → ℤ → ℤ
unfolding wrap ◌-ℤ◌
fetch_sub c w = wrap (c -ℤ w)

-- `i64::saturating_add`
unfoldable pub saturating_add : ℤ → ℤ → ℤ
unfolding ◌+ℤ◌
saturating_add a b =
    let sum = a +ℤ b in
    if ltb_ℤ sum i64_min then i64_min else if ltb_ℤ i64_max sum then i64_max else sum

-- Both parts are at most `n`: the integer lies between -n and n.
abbrev pub Within : ℕ → ℤ → Type 0
Within n z = (pos_part z ≤ n) × (neg_part z ≤ n)

pub wrap-eq : (n : ℕ) (z : ℤ) → Within n z → n < 2 ^ 63 → wrap z ≡ z
unfolding wrap
wrap-eq n z v b = ground arith

pub fetch_add-eq :
    (n w : ℕ) (c : ℤ) → Within n c → n + w < 2 ^ 63 → fetch_add c (pos w) ≡ c +ℤ pos w
unfolding fetch_add
fetch_add-eq n w c v b = ground arith

pub fetch_sub-eq :
    (n w : ℕ) (c : ℤ) → Within n c → n + w < 2 ^ 63 → fetch_sub c (pos w) ≡ c -ℤ pos w
unfolding fetch_sub
fetch_sub-eq n w c v b = ground arith

pub saturating_add-eq :
    (n w : ℕ) (c : ℤ) → Within n c → n + w < 2 ^ 63 → saturating_add c (pos w) ≡ c +ℤ pos w
unfolding saturating_add
saturating_add-eq n w c v b = ground arith
