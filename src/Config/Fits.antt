-- ===== src/Config/Fits.antt =====
-- What `Config::into_runtime` asks of a configuration, and the outcome of a chain of such checks.
use palisade.Prelude.{
  ℕ, ◌==◌, ◌≡◌, refl, Bool, true, false, ◌&&◌, ◌||◌, not, Option, none, some, List, [], ◌∷◌, ◌++◌,
  Except, ok, err, is_ok, ◌>>=◌, ◌>>◌, map_err, collect, Except-cases, inl, inr, arith,
}
use palisade.Text.{Str, codes, is_empty, all, starts_with}
use palisade.Duration.{from_secs}
use palisade.Http.{Http}
use palisade.Net.{Net}
use palisade.Error.{Result, ProxyError}
use palisade.Config.Schema.{
  Config, UpstreamConfig, HealthCheckConfig, RateLimitConfig, AdminConfig, default_listen_addr,
}
use palisade.Config.Runtime.{
  RegexLib, reject_if, or_default, map_or, check_rate_limit, check_health_check,
}

-- A number that is left out or positive.
abbrev pub unset_or_positive : Option ℕ → Bool
unset_or_positive none = true
unset_or_positive (some n) = not (n == 0)

abbrev pub rate_fits : Option RateLimitConfig → Bool
rate_fits none = true
rate_fits (some rl) = not (rl.requests_per_second == 0) && not (rl.burst == 0)

abbrev pub health_fits : Option HealthCheckConfig → Bool
health_fits none = true
health_fits (some hc) =
    not (hc.unhealthy_threshold == 0)
    && not (hc.healthy_threshold == 0)
    && not (hc.interval == 0)
    && not (hc.timeout == 0)
    && starts_with hc.path (codes "/")

module _ (h : Http) (n : Net) (r : RegexLib) where
  abbrev pub has_authority : Str → Bool
  has_authority address = elim (h.parse_uri address) [
    | err e ↦ false
    | ok uri ↦ elim (h.authority uri) [ none ↦ false | some a ↦ true ]
  ]

  abbrev pub upstream_fits : UpstreamConfig → Bool
  upstream_fits u = not (is_empty u.address) && has_authority u.address && not (u.weight == 0)

  abbrev pub same_uri : Str → Str → Bool
  same_uri a b = elim (h.parse_uri a) [
    | err e ↦ false
    | ok u ↦ elim (h.parse_uri b) [ err e ↦ false | ok v ↦ h.uri_eq u v ]
  ]

  -- No two addresses are one URI.
  abbrev pub distinct : List UpstreamConfig → Bool
  distinct [] = true
  distinct (u ∷ us) =
      all (λ (v : UpstreamConfig). not (same_uri v.address u.address)) us && distinct us

  abbrev pub admin_fits : Option AdminConfig → Bool
  admin_fits none = true
  admin_fits (some a) = is_ok (n.parse_addr a.listen)

  -- The admin address is not the data plane's.
  abbrev pub apart : Str → Option AdminConfig → Bool
  apart listen none = true
  apart listen (some a) = elim (n.parse_addr listen) [
    | err e ↦ true
    | ok x ↦ elim (n.parse_addr a.listen) [ err e ↦ true | ok y ↦ not (n.addr_eq y x) ]
  ]

  abbrev pub acceptable : Config → Bool
  acceptable c =
      all (λ b. b)
        (not (is_empty c.upstreams)
          ∷ is_ok (n.parse_addr (or_default default_listen_addr c.listen))
          ∷ all upstream_fits c.upstreams
          ∷ distinct c.upstreams
          ∷ all (λ name. is_ok (h.name_from_bytes name)) c.blocked_headers
          ∷ all (λ param. is_ok (r.compile (r.escape param ++ codes "=([^&]+)"))) c.masked_params
          ∷ unset_or_positive c.mask_max_body_size
          ∷ not (c.timeouts.connect == 0)
          ∷ not (c.timeouts.request == 0)
          ∷ unset_or_positive c.max_concurrent_requests
          ∷ unset_or_positive c.max_connections
          ∷ unset_or_positive c.header_read_timeout
          ∷ rate_fits c.rate_limit
          ∷ health_fits c.health_check
          ∷ admin_fits c.admin
          ∷ apart (or_default default_listen_addr c.listen) c.admin
          ∷ [])

-- How the outcome of a chain comes from its first step.
pub guard :
    {A : Type 0} {b' t : Bool} (b : Bool) (e : ProxyError) (rest : Result A)
    → not b ≡ b'
    → is_ok rest ≡ t
    → is_ok (reject_if b e >> rest) ≡ (b' && t)
guard true e rest p q = rw (← p) refl
guard false e rest p q = rw (← p) q

pub checked :
    {A : Type 0} {b t : Bool} (m : Result Unit) (rest : Result A)
    → is_ok m ≡ b
    → is_ok rest ≡ t
    → is_ok (m >> rest) ≡ (b && t)
checked (ok u) rest p q = rw (← p) q
checked (err e) rest p q = rw (← p) refl

pub bound :
    {A B : Type 0} {b t : Bool} (m : Result A) (k : A → Result B)
    → is_ok m ≡ b
    → ((a : A) → m ≡ ok a → is_ok (k a) ≡ t)
    → is_ok (m >>= k) ≡ (b && t)
bound (ok a) k p q = rw (← p) (q a refl)
bound (err e) k p q = rw (← p) refl

pub is_ok-map_err : {A E F : Type 0} (f : E → F) (r : Except E A) → is_ok (map_err f r) ≡ is_ok r
is_ok-map_err f (ok a) = refl
is_ok-map_err f (err e) = refl

pub is_ok-collect :
    {E A B : Type 0} (f : A → Except E B) (xs : List A)
    → is_ok (collect f xs) ≡ all (λ x. is_ok (f x)) xs
is_ok-collect f [] = refl
is_ok-collect f (x ∷ xs) = elim (Except-cases (f x)) [
  | inl (b, e) ↦ elim (Except-cases (collect f xs)) [
    | inl (bs, g) ↦ rw (e, ← is_ok-collect f xs, g) refl
    | inr (y, g) ↦ rw (e, ← is_ok-collect f xs, g) refl
  ]
  | inr (y, e) ↦ rw e refl
]

pub all_ext :
    {A : Type 0} (p q : A → Bool) (xs : List A) → ((x : A) → p x ≡ q x) → all p xs ≡ all q xs
all_ext p q [] e = refl
all_ext p q (x ∷ xs) e = rw (e x, all_ext p q xs e) refl

pub and_swap : (a b d : Bool) → ((a && b) && d) ≡ (b && (a && d))
and_swap true true d = refl
and_swap true false d = refl
and_swap false true d = refl
and_swap false false d = refl

nor_and : (a b x y : Bool) → (not (a || b) && (x && y)) ≡ ((not a && x) && (not b && y))
nor_and true b x y = refl
nor_and false true true y = refl
nor_and false true false y = refl
nor_and false false true y = refl
nor_and false false false y = refl

pub all_nor :
    {A : Type 0} (p q : A → Bool) (xs : List A)
    → all (λ x. not (p x || q x)) xs ≡ (all (λ x. not (p x)) xs && all (λ x. not (q x)) xs)
all_nor p q [] = refl
all_nor p q (x ∷ xs) =
    rw (all_nor p q xs) (nor_and (p x) (q x) (all (λ x. not (p x)) xs) (all (λ x. not (q x)) xs))

pub default_positive :
    (d : ℕ) (o : Option ℕ) → not (d == 0) ≡ true → not (or_default d o == 0) ≡ unset_or_positive o
default_positive d none e = e
default_positive d (some n) e = refl

pub seconds_positive :
    (d : ℕ) (o : Option ℕ)
    → not (d == 0) ≡ true
    → not (map_or d from_secs o == 0) ≡ unset_or_positive o
unfolding from_secs
seconds_positive d none e = e
seconds_positive d (some n) e = ground arith

pub is_ok-check_rate_limit : (o : Option RateLimitConfig) → is_ok (check_rate_limit o) ≡ rate_fits o
unfolding check_rate_limit
is_ok-check_rate_limit none = refl
is_ok-check_rate_limit (some rl) = ground arith

pub is_ok-check_health_check :
    (o : Option HealthCheckConfig) → is_ok (check_health_check o) ≡ health_fits o
unfolding check_health_check
is_ok-check_health_check none = refl
is_ok-check_health_check (some hc) = ground arith
