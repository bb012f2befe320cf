-- ===== src/Balancer/Threads/Calls.antt =====
-- What one atomic step of a call keeps.
use mathlib.Core.Option.{some-injective}
use palisade.Prelude.{
  ℕ, suc, ◌+◌, ◌%◌, ◌^◌, ◌≡◌, ◌<◌, ◌≤◌, refl, sym, ◌∙◌, Bool, false, none, some, List, [], ◌∷◌,
  get_elem?, length, length-modify, arith, Option-cases, Bool-cases, inl, inr, ◌⊎◌,
}
use palisade.Prelude.Int.{ℤ, negsuc, pos, pos_part, neg_part, ◌+ℤ◌, ltb_ℤ}
use palisade.Balancer.{Scan, visit}
use palisade.Balancer.Word.{i64_min, saturating_add}
use palisade.Balancer.Threads.{Caller, at_backend, returned, settled, advance}
use palisade.Balancer.Threads.Sums.{
  words, words-add, words-sub, IsI64, AllI64, add-AllI64, sub-AllI64, AllI64-at, remaining,
  remaining-at,
}

-- What a call has added to running weights and not yet taken off.
abbrev pub pending : Caller → ℕ
pending (at_backend idx s) = pos_part s.total
pending (returned r) = 0

abbrev pub pendings : List Caller → ℕ
pendings [] = 0
pendings (t ∷ ts) = pending t + pendings ts

-- The variables of a call before an index.
pub record IsScan (weights : List ℕ) (idx : ℕ) (s : Scan) : Type 0 where
  pub total : neg_part s.total ≡ 0
  pub room : pos_part s.total + remaining idx weights ≤ remaining 0 weights
  pub unset : s.best ≡ none → (pos_part s.total ≡ 0) × (s.best_weight ≡ i64_min)
  pub inside : (b : ℕ) → s.best ≡ some b → b < length weights

abbrev pub IsCall : List ℕ → Caller → Type 0
IsCall weights (at_backend idx s) = IsScan weights idx s
IsCall weights (returned r) = Unit {0}

abbrev pub AllCalls : List ℕ → List Caller → Type 0
AllCalls weights [] = Unit {0}
AllCalls weights (t ∷ ts) = IsCall weights t × AllCalls weights ts

visit-total :
    (idx w : ℕ) (c : ℤ) (s : Scan)
    → neg_part s.total ≡ 0
    → pos_part s.total + w < 2 ^ 63
    → (pos_part (visit idx (pos w) c s).total ≡ pos_part s.total + w)
      × (neg_part (visit idx (pos w) c s).total ≡ 0)
unfolding visit saturating_add ◌+ℤ◌
visit-total idx w c s e b = ground arith

above_min :
    (w : ℕ) (c : ℤ)
    → IsI64 c
    → w < 2 ^ 63
    → ltb_ℤ i64_min (saturating_add c (pos w)) ≡ false
    → w ≡ 0
unfolding saturating_add ◌+ℤ◌
above_min w c v b e = ground arith

-- A backend is chosen unless its weight is 0 and its cell is at the bottom of the range.
visit-best :
    (idx w : ℕ) (c : ℤ) (s : Scan)
    → IsI64 c
    → w < 2 ^ 63
    → ((visit idx (pos w) c s).best ≡ some idx)
      ⊎ (((visit idx (pos w) c s).best ≡ s.best)
          × ((visit idx (pos w) c s).best_weight ≡ s.best_weight)
          × (s.best_weight ≡ i64_min → w ≡ 0))
unfolding visit
visit-best idx w c s v b = elim (Bool-cases (ltb_ℤ s.best_weight (saturating_add c (pos w)))) [
  | inl e ↦ inl (rw (e, visit) refl)
  | inr e ↦ inr (rw (e, visit) (refl, refl, λ m. above_min w c v b (rw m at e)))
]

visit-IsScan :
    (weights : List ℕ) (idx w : ℕ) (c : ℤ) (s : Scan)
    → remaining 0 weights < 2 ^ 63
    → get_elem? weights idx ≡ some w
    → IsI64 c
    → IsScan weights idx s
    → IsScan weights (suc idx) (visit idx (pos w) c s)
visit-IsScan weights idx w c s small g v k =
    let (r, l, m) = remaining-at idx weights w g in
    let (p, n) = visit-total idx w c s k.total (omega (arith, k.room, r)) in
    elim (visit-best idx w c s v (omega (arith, m))) [
      | inl e ↦ record {
        total = n;
        room = omega (arith, k.room, r, p);
        unset = λ q. (let q' = sym e ∙ q in cc);
        inside = λ b q. (let q' = some-injective _ _ (sym e ∙ q) in omega (arith, q', l));
      }
      | inr (e, f, z) ↦ record {
        total = n;
        room = omega (arith, k.room, r, p);
        unset = λ q.
            (let (none_yet, low) = k.unset (sym e ∙ q) in
              (omega (arith, p, none_yet, z low), f ∙ low));
        inside = λ b q. k.inside b (sym e ∙ q);
      }
    ]

-- What one step keeps: the range and the number of the cells, the form of the call, and the balance.
abbrev pub Kept : List ℕ → Caller → List ℤ → Caller × List ℤ → Type 0
Kept weights t cells (t', cells') =
    (length cells' ≡ length weights)
    × AllI64 cells'
    × IsCall weights t'
    × ((words cells' + pending t) % 2 ^ 64 ≡ (words cells + pending t') % 2 ^ 64)

settled-Kept :
    (weights : List ℕ) (idx : ℕ) (s : Scan) (cells : List ℤ)
    → remaining 0 weights < 2 ^ 63
    → length cells ≡ length weights
    → AllI64 cells
    → IsScan weights idx s
    → Kept weights (at_backend idx s) cells (settled s cells)
unfolding settled
settled-Kept weights idx s cells small size v k = elim (Option-cases s.best) [
  | inl e ↦ rw (e, settled) (size, v, tt, omega (arith, k.unset e))
  | inr (b, e) ↦
      rw (e, settled, from_parts s.total k.total)
        (
          length-modify b _ cells ∙ size,
          sub-AllI64 b (pos_part s.total) cells (omega (arith, k.room)) v,
          tt,
          omega (arith, words-sub b (pos_part s.total) cells (omega (arith, k.inside b e, size))),
        )
]
  where
    from_parts : (z : ℤ) → neg_part z ≡ 0 → z ≡ pos (pos_part z)
    from_parts (pos n) e = refl
    from_parts (negsuc n) e = absurd (omega (arith, e))

pub advance-Kept :
    (weights : List ℕ) (eligible : Bool) (t : Caller) (cells : List ℤ)
    → remaining 0 weights < 2 ^ 63
    → length cells ≡ length weights
    → AllI64 cells
    → IsCall weights t
    → Kept weights t cells (advance weights eligible t cells)
unfolding advance
advance-Kept weights eligible (returned r) cells small size v k = (size, v, tt, refl)
advance-Kept weights eligible (at_backend idx s) cells small size v k =
    elim (Option-cases (get_elem? weights idx)) [
      | inl e ↦ rw (e, advance) (settled-Kept weights idx s cells small size v k)
      | inr (w, e) ↦ elim (Option-cases (get_elem? cells idx)) [
        | inl f ↦ rw (e, f, advance) (settled-Kept weights idx s cells small size v k)
        | inr (c, f) ↦
            (let (r, l, m) = remaining-at idx weights w e in
              elim (Bool-cases eligible) [
                | inl q ↦
                    rw (e, f, q, advance)
                      (
                        length-modify idx _ cells ∙ size,
                        add-AllI64 idx w cells (omega (arith, m)) v,
                        visit-IsScan weights idx w c s small e (AllI64-at idx cells c f v) k,
                        omega (
                          arith,
                          words-add idx w cells c f,
                          visit-total idx w c s k.total (omega (arith, k.room, r)),
                        ),
                      )
                | inr q ↦
                    rw (e, f, q, advance)
                      (
                        size,
                        v,
                        record {
                          total = k.total;
                          room = omega (arith, k.room, r);
                          unset = k.unset;
                          inside = k.inside;
                        },
                        refl,
                      )
              ])
      ]
    ]
