-- ===== src/Balancer.antt =====
-- src/balancer.rs: smooth weighted round-robin over the eligible backends of a pool. A backend that
-- `next` returns is a shared handle, so the model returns its index in the pool. One call of `next`
-- runs with no other thread between its atomic operations; Threads takes them apart.
pub mod Word
pub mod Spec
pub mod Refines
pub mod Trials
pub mod Winner
pub mod Tally
pub mod Rounds
pub mod Fairness
pub mod Spread
pub mod Drift
pub mod History
pub mod Threads
pub mod Starvation
use palisade.Prelude.{
  ℕ, zero, suc, Bool, true, false, Option, none, some, List, [], ◌∷◌, map, modify, Except, ok, err,
  if◌then◌else◌,
}
use palisade.Prelude.Int.{ℤ, pos, ltb_ℤ}
use palisade.Http.{Http}
use palisade.Error.{Result, ProxyError, no_healthy_upstream}
use palisade.Upstream.{UpstreamState, is_eligible, arm_cooldown}
use palisade.Balancer.Word.{i64_min, fetch_add, fetch_sub, saturating_add}

-- `current_weights` is indexed in lockstep with `pool`.
pub record LoadBalancer (h : Http) : Type 0 where
  pub pool : List (UpstreamState h)
  pub current_weights : List ℤ

-- The local variables of the loop.
pub record Scan : Type 0 where
  pub total : ℤ
  pub best : Option ℕ
  pub best_weight : ℤ

abbrev pub start : Scan
start = record { total = pos 0; best = none; best_weight = i64_min }

-- The body of the loop at an eligible backend of weight `weight` whose cell holds `cell`.
unfoldable pub visit : ℕ → ℤ → ℤ → Scan → Scan
unfolding saturating_add
visit idx weight cell s =
    let total = saturating_add s.total weight in
    let current = saturating_add cell weight in
    if ltb_ℤ s.best_weight current
    then record { total = total; best = some idx; best_weight = current }
    else record s { total = total }

module _ {h : Http} where
  -- `LoadBalancer::new`
  unfoldable pub new : List (UpstreamState h) → LoadBalancer h
  new pool = record { pool = pool; current_weights = map (λ b. pos 0) pool }

  -- The loop: the cells that it leaves, and its variables.
  unfoldable pub scan : ℕ → ℕ → List (UpstreamState h) → List ℤ → Scan → List ℤ × Scan
  unfolding visit fetch_add
  scan now idx [] cells s = (cells, s)
  scan now idx (b ∷ bs) [] s = ([], s)
  scan now idx (b ∷ bs) (c ∷ cs) s =
      let w = pos b.weight in
      let rest = scan now (suc idx) bs cs (if is_eligible now b then visit idx w c s else s) in
      ((if is_eligible now b then fetch_add c w else c) ∷ rest.0, rest.1)

  -- An unhealthy backend that is routed a trial has its cooldown armed.
  unfoldable pub routed : ℕ → UpstreamState h → UpstreamState h
  routed now b = if b.healthy then b else arm_cooldown now b

  unfoldable pub select : ℕ → LoadBalancer h → List ℤ × Scan → LoadBalancer h × Result ℕ
  unfolding routed fetch_sub
  select now lb (cells, s) = elim s.best [
    | none ↦ (record lb { current_weights = cells }, err no_healthy_upstream)
    | some idx ↦ (
      record {
        pool = modify idx (routed now) lb.pool;
        current_weights = modify idx (λ c. fetch_sub c s.total) cells;
      },
      ok idx,
    )
  ]

  -- `LoadBalancer::next`
  unfoldable pub next : ℕ → LoadBalancer h → LoadBalancer h × Result ℕ
  unfolding scan select
  next now lb = select now lb (scan now 0 lb.pool lb.current_weights start)
