-- ===== src/Tests/Unit/Balancer.antt =====
-- The unit tests of src/balancer.rs. Calls that a test makes at once are at time 0, and a test that
-- sleeps goes on at the end of its sleep.
use palisade.Prelude.{
  ℕ, zero, suc, ◌≡◌, refl, Bool, true, false, ◌&&◌, not, ◌==◌, Option, none, some, List, [], ◌∷◌,
  map, ok, err, is_ok, get_elem?, if◌then◌else◌, modify,
}
use palisade.Text.{Str, codes, all, split}
use palisade.Duration.{Duration, from_secs}
use palisade.Error.{Result}
use palisade.Upstream.{
  ValidatedUpstream, UpstreamState, from_validated, is_eligible, mark_healthy, mark_unhealthy,
}
use palisade.Upstream
use palisade.Balancer.{LoadBalancer, new, next}
use palisade.Tests.World.{http}

abbrev pub long_cooldown : Duration
long_cooldown = from_secs 30

abbrev pub unwrap_uri : Str → http.Uri
unwrap_uri addr = elim (http.parse_uri addr) [ err e ↦ ([], [], []) | ok u ↦ u ]

abbrev make_pool_with_cooldown : List (Str × ℕ) → Duration → List (UpstreamState http)
make_pool_with_cooldown specs cooldown =
    from_validated (map (λ s. record { uri = unwrap_uri s.0; weight = s.1 }) specs) cooldown 0

abbrev make_pool : List (Str × ℕ) → List (UpstreamState http)
make_pool specs = make_pool_with_cooldown specs long_cooldown

-- The URI of the backend that a call has selected.
abbrev selected : LoadBalancer http × Result ℕ → Option http.Uri
selected (lb, err e) = none
selected (lb, ok i) = elim (get_elem? lb.pool i) [ none ↦ none | some b ↦ some b.uri ]

-- What `n` calls in a row select.
abbrev calls : ℕ → LoadBalancer http → List (Option http.Uri)
calls zero lb = []
calls (suc n) lb = let r = next 0 lb in selected r ∷ calls n r.0

abbrev is_uri : Str → Option http.Uri → Bool
is_uri addr none = false
is_uri addr (some u) = http.uri_eq u (unwrap_uri addr)

abbrev two : LoadBalancer http
two = new (make_pool ((codes "http://b1:3000", 1) ∷ (codes "http://b2:3000", 1) ∷ []))

abbrev single_backend_always_selected : Bool
single_backend_always_selected =
    all (is_uri (codes "http://b1:3000"))
      (calls 10 (new (make_pool ((codes "http://b1:3000", 1) ∷ []))))

abbrev same : Option http.Uri → Option http.Uri → Bool
same none v = false
same (some u) none = false
same (some u) (some v) = http.uri_eq u v

abbrev equal_weight_round_robins : Bool
equal_weight_round_robins =
    let first = next 0 two in
    let second = next 0 first.0 in
    let third = next 0 second.0 in
    is_ok second.1
    && not (same (selected first) (selected second))
    && same (selected first) (selected third)

-- How many of the selected backends have the address.
abbrev count : Str → List (Option http.Uri) → ℕ
count addr [] = 0
count addr (u ∷ us) = let rest = count addr us in if is_uri addr u then suc rest else rest

abbrev weighted_distribution_respects_weights : Bool
weighted_distribution_respects_weights =
    let balancer =
      new (make_pool ((codes "http://b1:3000", 3) ∷ (codes "http://b2:3000", 1) ∷ [])) in
    let uris = calls 400 balancer in
    let b1_count = count (codes "http://b1:3000") uris in
    (b1_count == 300) && (count (codes "http://b2:3000") uris == 100)

-- The balancer with a change of one backend of its pool.
abbrev changed :
    ℕ → (UpstreamState http → UpstreamState http) → LoadBalancer http → LoadBalancer http
changed i f lb = record lb { pool = modify i f lb.pool }

abbrev skips_unhealthy_backends : Bool
skips_unhealthy_backends =
    all (is_uri (codes "http://b2:3000")) (calls 10 (changed 0 (mark_unhealthy 0) two))

abbrev all_unhealthy : LoadBalancer http
all_unhealthy = changed 1 (mark_unhealthy 0) (changed 0 (mark_unhealthy 0) two)

abbrev all_unhealthy_returns_error : Bool
all_unhealthy_returns_error = not (is_ok (next 0 all_unhealthy).1)

abbrev recovery_after_mark_healthy : Bool
recovery_after_mark_healthy =
    not (is_ok (next 0 all_unhealthy).1)
    && is_uri (codes "http://b1:3000")
        (selected (next 0 (changed 0 mark_healthy (next 0 all_unhealthy).0)))

abbrev large_weight_does_not_allocate_slot_table : Bool
large_weight_does_not_allocate_slot_table =
    all (is_uri (codes "http://b1:3000"))
      (calls 5 (new (make_pool ((codes "http://b1:3000", 4_294_967_295) ∷ []))))

abbrev ejected_backend_recovers_after_cooldown : Bool
ejected_backend_recovers_after_cooldown =
    let pool = make_pool_with_cooldown ((codes "http://b1:3000", 1) ∷ []) 20_000_000 in
    let early = next 0 (changed 0 (mark_unhealthy 0) (new pool)) in
    not (is_ok early.1) && is_ok (next 40_000_000 early.0).1

tests_pass :
    single_backend_always_selected && equal_weight_round_robins
      && weighted_distribution_respects_weights && skips_unhealthy_backends
      && all_unhealthy_returns_error && recovery_after_mark_healthy
      && large_weight_does_not_allocate_slot_table && ejected_backend_recovers_after_cooldown
    ≡ true
unfolding next new from_validated is_eligible mark_healthy mark_unhealthy split from_secs
    Upstream.new Upstream.now_ms
tests_pass = refl
