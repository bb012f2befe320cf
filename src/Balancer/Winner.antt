-- ===== src/Balancer/Winner.antt =====
-- Whom a round of the specification, and so a call of `next`, chooses.
use palisade.Prelude.{
  ℕ, zero, suc, ◌+◌, ◌≡◌, refl, ◌⊎◌, inl, inr, Bool, true, false, Option, none, some, List, [], ◌∷◌,
  get_elem?, arith, Bool-cases, ok, ok_or, sym, ◌∙◌, length, is_ok,
}
use palisade.Prelude.Int.{ℤ, ◌≤ℤ◌, ltb_ℤ}
use mathlib.Core.Path.{subst}
use palisade.Text.{any}
use palisade.Http.{Http}
use palisade.Error.{no_healthy_upstream}
use palisade.Upstream.{UpstreamState, is_eligible}
use palisade.Balancer.{LoadBalancer, next, map}
use palisade.Balancer.Spec.{Entry, raised, total, consider, choose, settle, round}
use palisade.Balancer.Refines.{entries, Fits, next-round}

-- An entry does not beat the best so far.
abbrev pub Under : Option (ℕ × ℤ) → Entry → Type 0
Under none e = e.ready ≡ false
Under (some (i, b)) e = e.ready ≡ true → raised e ≤ℤ b

abbrev pub AllUnder : Option (ℕ × ℤ) → List Entry → Type 0
AllUnder best [] = Unit {0}
AllUnder best (e ∷ es) = Under best e × AllUnder best es

-- The best is an eligible entry at its index, counted from `i`.
abbrev pub IsEntry : ℕ → List Entry → ℕ × ℤ → Type 0
IsEntry i es (j, b) =
    (k : ℕ) × (e : Entry) × (j ≡ i + k)
    × (get_elem? es k ≡ some e)
    × (e.ready ≡ true)
    × (b ≡ raised e)

abbrev pub NotLess : Option (ℕ × ℤ) → Option (ℕ × ℤ) → Type 0
NotLess none r = Unit {0}
NotLess (some (i, b)) none = ⊥
NotLess (some (i, b)) (some (j, c)) = b ≤ℤ c

abbrev Origin : ℕ → List Entry → Option (ℕ × ℤ) → Option (ℕ × ℤ) → Type 0
Origin i es best none = best ≡ none
Origin i es best (some w) = (best ≡ some w) ⊎ IsEntry i es w

consider-NotLess : (i : ℕ) (e : Entry) (best : Option (ℕ × ℤ)) → NotLess best (consider i e best)
consider-NotLess i e none = ground arith
consider-NotLess i e (some (j, b)) = ground arith

NotLess-trans : (a b c : Option (ℕ × ℤ)) → NotLess a b → NotLess b c → NotLess a c
NotLess-trans none b c p q = tt
NotLess-trans (some a) (some b) (some c) p q = omega arith
NotLess-trans (some a) (some b) none p q = absurd q
NotLess-trans (some a) none c p q = absurd p

choose-NotLess : (i : ℕ) (es : List Entry) (best : Option (ℕ × ℤ)) → NotLess best (choose i es best)
choose-NotLess i [] none = tt
choose-NotLess i [] (some b) = omega arith
choose-NotLess i (e ∷ es) best =
    NotLess-trans best (consider i e best) (choose (suc i) es (consider i e best))
      (consider-NotLess i e best) (choose-NotLess (suc i) es (consider i e best))

consider-Under :
    (i : ℕ) (e : Entry) (best r : Option (ℕ × ℤ)) → NotLess (consider i e best) r → Under r e
consider-Under i e none r p = ground arith
consider-Under i e (some b) r p = ground arith

pub choose-AllUnder :
    (i : ℕ) (es : List Entry) (best : Option (ℕ × ℤ)) → AllUnder (choose i es best) es
choose-AllUnder i [] best = tt
choose-AllUnder i (e ∷ es) best = (
  consider-Under i e best (choose (suc i) es (consider i e best))
      (choose-NotLess (suc i) es (consider i e best)),
  choose-AllUnder (suc i) es (consider i e best),
)

Origin-cons :
    (i : ℕ) (e : Entry) (es : List Entry) (best r : Option (ℕ × ℤ))
    → Origin (suc i) es (consider i e best) r
    → Origin i (e ∷ es) best r
Origin-cons i e es none none o = refl
Origin-cons i e es (some b) none o = ground arith
Origin-cons i e es best (some w) (inr (k, f, j, g, r, b)) =
    inr (suc k, f, omega (arith, j), g, r, b)
Origin-cons i e es best (some w) (inl q) = entered best q (Bool-cases e.ready)
  where
    entered :
        (best : Option (ℕ × ℤ))
        → consider i e best ≡ some w
        → (e.ready ≡ true) ⊎ (e.ready ≡ false)
        → (best ≡ some w) ⊎ IsEntry i (e ∷ es) w
    entered none q (inl t) = inr (0, e, ground arith, refl, t, ground arith)
    entered none q (inr f) = ground arith
    entered (some (j, b)) q (inr f) = ground arith
    entered (some (j, b)) q (inl t) = elim (Bool-cases (ltb_ℤ b (raised e))) [
      | inl l ↦ inr (0, e, ground arith, refl, t, ground arith)
      | inr l ↦ inl (ground arith)
    ]

choose-Origin :
    (i : ℕ) (es : List Entry) (best : Option (ℕ × ℤ)) → Origin i es best (choose i es best)
choose-Origin i [] none = refl
choose-Origin i [] (some b) = inl refl
choose-Origin i (e ∷ es) best =
    Origin-cons i e es best (choose (suc i) es (consider i e best))
      (choose-Origin (suc i) es (consider i e best))

-- The entry that a round chooses, and that no eligible entry is above it.
pub record IsHighest (es : List Entry) (i : ℕ) : Type 0 where
  pub entry : Entry
  pub at : get_elem? es i ≡ some entry
  pub ready : entry.ready ≡ true
  pub highest : AllUnder (some (i, raised entry)) es

choice_from :
    (es : List Entry) (i : ℕ) (b : ℤ) (r : Option (ℕ × ℤ))
    → r ≡ some (i, b)
    → Origin 0 es none r
    → AllUnder r es
    → (w : IsHighest es i) × (b ≡ raised w.entry)
choice_from es i b none q o u = cc
choice_from es i b (some w) q (inl o) u = cc
choice_from es i b (some (j, d)) q (inr (k, e, f, g, t, m)) u =
    let place : i ≡ k = ground (arith, f) in
    let same : ◌≡◌ {A = ℕ × ℤ} (j, d) (i, raised e) = ground (arith, m) in
    (
      record {
        entry = e;
        at = rw place g;
        ready = t;
        highest = subst (λ p. AllUnder (some p) es) same u;
      },
      ground (arith, m),
    )

pub choice :
    (es : List Entry) (i : ℕ) (b : ℤ)
    → choose 0 es none ≡ some (i, b)
    → (w : IsHighest es i) × (b ≡ raised w.entry)
choice es i b q =
    choice_from es i b (choose 0 es none) q (choose-Origin 0 es none) (choose-AllUnder 0 es none)

any_ready : List Entry → Bool
any_ready es = any (λ e. e.ready) es

none_ready : (es : List Entry) → AllUnder none es → any_ready es ≡ false
unfolding any_ready
none_ready [] u = refl
none_ready (e ∷ es) u = ground (arith, none_ready es u.1)

ready_at :
    (es : List Entry) (i : ℕ) (e : Entry)
    → get_elem? es i ≡ some e
    → e.ready ≡ true
    → any_ready es ≡ true
unfolding any_ready
ready_at [] i e g r = cc
ready_at (x ∷ es) zero e g r = ground arith
ready_at (x ∷ es) (suc i) e g r = ground (arith, ready_at es i e g r)

any_ready-entries :
    {h : Http} (now : ℕ) (bs : List (UpstreamState h)) (cs : List ℤ)
    → length cs ≡ length bs
    → any_ready (entries now bs cs) ≡ any (is_eligible now) bs
unfolding any_ready
any_ready-entries now [] cs e = refl
any_ready-entries now (b ∷ bs) [] e = cc
any_ready-entries now (b ∷ bs) (c ∷ cs) e =
    ground (arith, any_ready-entries now bs cs (omega (arith, e)))

choice_made :
    (es : List Entry) (t : ℕ) (cs : List ℤ) (r : Option (ℕ × ℤ))
    → choose 0 es none ≡ r
    → is_ok (ok_or no_healthy_upstream (settle r t cs).0) ≡ any_ready es
choice_made es t cs none e =
    sym (none_ready es (subst (λ r. AllUnder r es) e (choose-AllUnder 0 es none)))
choice_made es t cs (some (i, b)) e =
    let w = (choice es i b e).0 in sym (ready_at es i w.entry w.at w.ready)

module _ {h : Http} (now n : ℕ) (lb : LoadBalancer h) (f : Fits n lb) where
  -- While no running weight can overflow, the backend that `next` returns is eligible, and no
  -- eligible backend has a greater running weight after the eligible ones have gained theirs.
  pub next-IsHighest :
      (i : ℕ) → (next now lb).1 ≡ ok i → IsHighest (entries now lb.pool lb.current_weights) i
  unfolding round
  next-IsHighest i q = winner (choose 0 es none) (sym (next-round now n lb f).1 ∙ q) refl
    where
      es : List Entry
      es = entries now lb.pool lb.current_weights

      winner :
          (r : Option (ℕ × ℤ))
          → ok_or no_healthy_upstream (settle r (total es) (map raised es)).0 ≡ ok i
          → choose 0 es none ≡ r
          → IsHighest es i
      winner none p e = cc
      winner (some (j, b)) p e = (choice es i b (e ∙ ground arith)).0

  -- While no running weight can overflow, `next` succeeds exactly when some backend is eligible.
  pub next-succeeds : is_ok (next now lb).1 ≡ any (is_eligible now) lb.pool
  unfolding round
  next-succeeds =
      let es = entries now lb.pool lb.current_weights in
      rw (next-round now n lb f).1 (
        choice_made es (total es) (map raised es) (choose 0 es none) refl
        ∙ any_ready-entries now lb.pool lb.current_weights f.lockstep)
