-- ===== src/Balancer/Threads.antt =====
-- Calls of `LoadBalancer::next` of src/balancer.rs in several threads: every access to an atomic
-- running weight is a step of its own, and the steps of different calls interleave in any order.
pub mod Sums
pub mod Calls
pub mod Conserved
pub mod Alone
use palisade.Prelude.{
  ℕ, zero, suc, Bool, true, false, Option, none, some, List, [], ◌∷◌, ◌++◌, map, modify, get_elem?,
}
use palisade.Prelude.Int.{ℤ, pos}
use palisade.Balancer.{Scan, start, visit}
use palisade.Balancer.Word.{fetch_add, fetch_sub}

-- A call before the body of the loop at an index, or with its result.
pub data Caller : Type 0 where
  at_backend : ℕ → Scan → Caller
  returned : Option ℕ → Caller

-- What follows the loop: the winner's cell loses the total.
unfoldable pub settled : Scan → List ℤ → Caller × List ℤ
unfolding fetch_sub
settled s cells = elim s.best [
  | none ↦ (returned none, cells)
  | some idx ↦ (returned (some idx), modify idx (λ c. fetch_sub c s.total) cells)
]

-- The next atomic step of a call over backends of these weights, which finds the backend eligible if
-- `eligible` holds: other threads may change that at any time.
unfoldable pub advance : List ℕ → Bool → Caller → List ℤ → Caller × List ℤ
unfolding visit fetch_add settled
advance weights eligible (returned r) cells = (returned r, cells)
advance weights eligible (at_backend idx s) cells = elim (get_elem? weights idx) [
  | none ↦ settled s cells
  | some w ↦ elim (get_elem? cells idx) [
    | none ↦ settled s cells
    | some c ↦ elim eligible [
      | false ↦ (at_backend (suc idx) s, cells)
      | true ↦ (
        at_backend (suc idx) (visit idx (pos w) c s),
        modify idx (λ c. fetch_add c (pos w)) cells,
      )
    ]
  ]
]

-- The calls in progress and the running weights that threads reach from a new balancer.
pub data Threads (weights : List ℕ) : List Caller → List ℤ → Type 0 where
  quiet : Threads weights [] (map (λ w. pos 0) weights)
  called :
      {ts : List Caller} {cells : List ℤ}
      → Threads weights ts cells
      → Threads weights (at_backend 0 start ∷ ts) cells
  moved :
      {cells : List ℤ} (before after : List Caller) (t : Caller) (eligible : Bool)
      → Threads weights (before ++ t ∷ after) cells
      → Threads weights
          (before ++ (advance weights eligible t cells).0 ∷ after)
          (advance weights eligible t cells).1
  left :
      {cells : List ℤ} (before after : List Caller) (r : Option ℕ)
      → Threads weights (before ++ returned r ∷ after) cells
      → Threads weights (before ++ after) cells
