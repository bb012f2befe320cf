-- ===== src/Tests/Turns.antt =====
-- Two backends of weights 2 and 1, over turns of the balancer.
use palisade.Balancer.Starvation.{Passed, begin, passed, Passed-bounded}
use palisade.Prelude.{
  All, ◌≢◌, ◌*◌, ◌+◌, ◌≤◌, ◌≡◌, refl, arith, [], ◌∷◌, List, map, ok, ok_or, ◌*◌, ◌+◌, ◌≤◌,
  get_elem?, some,
}
use palisade.Prelude.Int.{pos}
use palisade.Text.{codes}
use palisade.Error.{no_healthy_upstream}
use palisade.Upstream.{UpstreamState, is_eligible, trial_ready, now_ms}
use palisade.Balancer.{LoadBalancer, next, new}
use palisade.Balancer.Spec.{round}
use palisade.Balancer.Refines.{weights, entries}
use palisade.Balancer
use palisade.Balancer.History.{
  History, called, tended, History-round, History-succeeds, History-drift,
}
use palisade.Balancer.Trials.{results, AllWithin, next-trial}
use palisade.Balancer.Tally.{sum}
use palisade.Balancer.Fairness.{HasRoom, serve, WithinShare, serve-new, serve-share}
use palisade.Tests.World.{http}
use palisade.Tests.Upstreams.{fresh, ejected}

abbrev pub pair : List (UpstreamState http)
pair = fresh ∷ record fresh { uri = (codes "http", codes "b", codes "/"); weight = 1 } ∷ []

abbrev pub balancer : LoadBalancer http
balancer = record { pool = pair; current_weights = pos 0 ∷ pos 0 ∷ [] }

pub first : (next 0 balancer).1 ≡ ok 0
unfolding next is_eligible
first = refl

serve-new_example :
    serve (0 ∷ 0 ∷ 0 ∷ []) (new pair) (map (λ b. 0) (map (λ b. b.weight) pair))
    ≡ (new pair, map (λ b. b.weight) pair)
serve-new_example =
    serve-new pair (0 ∷ 0 ∷ 0 ∷ []) (refl, (refl, tt)) (omega arith) (omega arith) refl

serve-share_example :
    let counts = (serve (0 ∷ 0 ∷ []) (new pair) (map (λ b. 0) (map (λ b. b.weight) pair))).1 in
    WithinShare (weights pair) 2 (map (λ b. b.weight) pair) counts × (sum counts ≡ 2)
serve-share_example = serve-share pair (0 ∷ 0 ∷ []) (refl, (refl, tt)) (omega arith) (omega arith)

-- The first backend is ejected between two calls.
abbrev turned : LoadBalancer http
turned = record (next 0 (new pair)).0 {
  pool = ejected ∷ record fresh { uri = (codes "http", codes "b", codes "/"); weight = 1 } ∷ [];
}

turned-History : History pair turned
unfolding next new is_eligible
turned-History =
    tended (ejected ∷ record fresh { uri = (codes "http", codes "b", codes "/"); weight = 1 } ∷ [])
      refl (called 0 Balancer.History.fresh)

pair-HasRoom : HasRoom pair
pair-HasRoom = omega arith

History-round_example :
    let spec = round (entries 7 turned.pool turned.current_weights) in
    ((next 7 turned).0.current_weights ≡ spec.1)
    × ((next 7 turned).1 ≡ ok_or no_healthy_upstream spec.0)
History-round_example = History-round pair pair-HasRoom turned-History 7

-- The first call from the start passes the second backend over.
one_passed : Passed pair 1 (new pair) 1 (next 0 (new pair)).0
unfolding next new is_eligible
one_passed =
    passed 0 (record fresh { uri = (codes "http", codes "b", codes "/"); weight = 1 }) refl refl
      (λ e. cc) (begin Balancer.History.fresh)

Passed-bounded_example : 1 * 1 + weights pair ≤ weights pair * 2
Passed-bounded_example = Passed-bounded pair 1 pair-HasRoom 1 refl one_passed

second_weight : get_elem? turned.current_weights 1 ≡ some (pos 1)
unfolding next new is_eligible
second_weight = refl

History-drift_example :
    (2 * 1 + weights pair ≤ weights pair * 2) × (2 * 0 + weights pair ≤ weights pair * 2)
History-drift_example = History-drift pair pair-HasRoom turned-History 1 (pos 1) second_weight

-- The first backend, ejected before, gets a trial after its cooldown.
abbrev trial : LoadBalancer http
trial = new (ejected ∷ record fresh { uri = (codes "http", codes "b", codes "/"); weight = 1 } ∷ [])

trial_first : (next 6_000_000_000 trial).1 ≡ ok 0
unfolding next new is_eligible trial_ready now_ms
trial_first = refl

ejected_first : get_elem? trial.pool 0 ≡ some ejected
unfolding new
ejected_first = refl

trial_within : AllWithin 6_000_000_000 ejected (7_000_000_000 ∷ 10_000_000_000 ∷ [])
unfolding now_ms
trial_within = ((omega arith, omega arith), ((omega arith, omega arith), tt))

next-trial_example :
    let later = results (7_000_000_000 ∷ 10_000_000_000 ∷ []) (next 6_000_000_000 trial).0 in
    All (λ r. r ≢ ok 0) later
next-trial_example =
    next-trial 6_000_000_000 0 trial ejected (7_000_000_000 ∷ 10_000_000_000 ∷ []) trial_first
      ejected_first refl trial_within
