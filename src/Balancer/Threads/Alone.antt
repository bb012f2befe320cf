-- ===== src/Balancer/Threads/Alone.antt =====
-- A call whose steps no other thread interrupts.
use palisade.Prelude.{
  snoc, length-snoc, get_elem?-middle, get_elem?-length, modify-middle, ℕ, suc, ◌≡◌, refl, sym, ap,
  ◌∙◌, Bool, true, false, Option, none, some, List, [], ◌∷◌, ◌++◌, map, modify, get_elem?, length,
  arith, Option-cases, Bool-cases, inl, inr, ok, err,
}
use palisade.Prelude.Int.{ℤ, pos}
use palisade.Http.{Http}
use palisade.Error.{Result}
use palisade.Upstream.{UpstreamState, is_eligible}
use palisade.Balancer.{LoadBalancer, Scan, start, visit, scan, select, next}
use palisade.Balancer.Word.{fetch_add}
use palisade.Balancer.Threads.{Caller, at_backend, returned, settled, advance}

-- The steps of one call, with the eligibility that each finds.
unfoldable pub alone : List ℕ → List Bool → Caller → List ℤ → Caller × List ℤ
unfolding advance
alone weights [] t cells = (t, cells)
alone weights (e ∷ es) t cells =
    let (t', cells') = advance weights e t cells in alone weights es t' cells'

-- The index in the result of a call.
abbrev pub index : Result ℕ → Option ℕ
index (ok i) = some i
index (err e) = none

abbrev after : List ℕ → List Bool → Caller × List ℤ → Caller × List ℤ
after weights es (t, cells) = alone weights es t cells

module _ (ws : List ℕ) (w n : ℕ) (c : ℤ) (s : Scan) (cells : List ℤ) where
  advance-visit :
      get_elem? ws n ≡ some w
      → get_elem? cells n ≡ some c
      → advance ws true (at_backend n s) cells
        ≡ (at_backend (suc n) (visit n (pos w) c s), modify n (λ z. fetch_add z (pos w)) cells)
  unfolding advance
  advance-visit e f = rw (advance, e, f) refl

  advance-skip :
      get_elem? ws n ≡ some w
      → get_elem? cells n ≡ some c
      → advance ws false (at_backend n s) cells ≡ (at_backend (suc n) s, cells)
  unfolding advance
  advance-skip e f = rw (advance, e, f) refl

module _ {h : Http} (now n : ℕ) (b : UpstreamState h) (bs : List (UpstreamState h)) (c : ℤ)
    (cs : List ℤ) (s : Scan) where
  scan-visit :
      is_eligible now b ≡ true
      → let r = scan now (suc n) bs cs (visit n (pos b.weight) c s) in
        scan now n (b ∷ bs) (c ∷ cs) s ≡ (fetch_add c (pos b.weight) ∷ r.0, r.1)
  unfolding scan
  scan-visit t = rw t refl

  scan-skip :
      is_eligible now b ≡ false
      → let r = scan now (suc n) bs cs s in scan now n (b ∷ bs) (c ∷ cs) s ≡ (c ∷ r.0, r.1)
  unfolding scan
  scan-skip t = rw t refl

module _ {h : Http} where
  abbrev weights_of : List (UpstreamState h) → List ℕ
  weights_of bs = map (λ b. b.weight) bs

  -- The eligibility that a call finds when nothing changes it, and the step after the loop.
  abbrev pub found : ℕ → List (UpstreamState h) → List Bool
  found now bs = map (is_eligible now) bs ++ false ∷ []

  alone-scan :
      (now n : ℕ) (bs : List (UpstreamState h)) (cs : List ℤ) (s : Scan) (ws0 : List ℕ)
      (cs0 : List ℤ) (ws : List ℕ) (cells : List ℤ)
      → length cs ≡ length bs
      → n ≡ length ws0
      → n ≡ length cs0
      → ws ≡ ws0 ++ weights_of bs
      → cells ≡ cs0 ++ cs
      → alone ws (found now bs) (at_backend n s) cells
        ≡ settled (scan now n bs cs s).1 (cs0 ++ (scan now n bs cs s).0)
  unfolding alone advance scan
  alone-scan now n [] [] s ws0 cs0 ws cells l p q e f =
      rw (alone, advance, e, p, get_elem?-length ws0, f) refl
  alone-scan now n [] (c ∷ cs) s ws0 cs0 ws cells l p q e f = cc
  alone-scan now n (b ∷ bs) [] s ws0 cs0 ws cells l p q e f = cc
  alone-scan now n (b ∷ bs) (c ∷ cs) s ws0 cs0 ws cells l p q e f =
      let at_w : get_elem? ws n ≡ some b.weight =
        rw (e, p) (get_elem?-middle ws0 b.weight (weights_of bs)) in
      let at_c : get_elem? cells n ≡ some c = rw (f, q) (get_elem?-middle cs0 c cs) in
      let ws0' = ws0 ++ b.weight ∷ [] in
      let p' : suc n ≡ length ws0' = ap suc p ∙ sym (length-snoc ws0 b.weight) in
      let e' : ws ≡ ws0' ++ weights_of bs = e ∙ sym (snoc ws0 b.weight (weights_of bs)) in
      let l' : length cs ≡ length bs = omega (arith, l) in
      elim (Bool-cases (is_eligible now b)) [
        | inl t ↦
            (let c' = fetch_add c (pos b.weight) in
              let s' = visit n (pos b.weight) c s in
              let f' : modify n (λ z. fetch_add z (pos b.weight)) cells ≡ (cs0 ++ c' ∷ []) ++ cs =
                rw (f, q) (modify-middle (λ z. fetch_add z (pos b.weight)) cs0 c cs)
                ∙ sym (snoc cs0 c' cs) in
              let stepped = advance-visit ws b.weight n c s cells at_w at_c in
              let scanned = scan-visit now n b bs c cs s t in
              ap (λ e. after ws (found now bs) (advance ws e (at_backend n s) cells)) t
              ∙ (ap (after ws (found now bs)) stepped
                  ∙ (alone-scan now (suc n) bs cs s' ws0' (cs0 ++ c' ∷ []) ws _ l' p'
                        (ap suc q ∙ sym (length-snoc cs0 c')) e' f'
                      ∙ (ap (settled (scan now (suc n) bs cs s').1)
                            (snoc cs0 c' (scan now (suc n) bs cs s').0)
                          ∙ ap (λ r. settled r.1 (cs0 ++ r.0)) (sym scanned)))))
        | inr t ↦
            (let f' : cells ≡ (cs0 ++ c ∷ []) ++ cs = f ∙ sym (snoc cs0 c cs) in
              let stepped = advance-skip ws b.weight n c s cells at_w at_c in
              let scanned = scan-skip now n b bs c cs s t in
              ap (λ e. after ws (found now bs) (advance ws e (at_backend n s) cells)) t
              ∙ (ap (after ws (found now bs)) stepped
                  ∙ (alone-scan now (suc n) bs cs s ws0' (cs0 ++ c ∷ []) ws cells l' p'
                        (ap suc q ∙ sym (length-snoc cs0 c)) e' f'
                      ∙ (ap (settled (scan now (suc n) bs cs s).1)
                            (snoc cs0 c (scan now (suc n) bs cs s).0)
                          ∙ ap (λ r. settled r.1 (cs0 ++ r.0)) (sym scanned)))))
      ]

  settled-select :
      (now : ℕ) (lb : LoadBalancer h) (r : List ℤ × Scan)
      → settled r.1 r.0
        ≡ (returned (index (select now lb r).1), (select now lb r).0.current_weights)
  unfolding settled select
  settled-select now lb (cells, s) = elim (Option-cases s.best) [
    | inl e ↦ rw (e, settled, select) refl
    | inr (i, e) ↦ rw (e, settled, select) refl
  ]

  -- A call that no other thread interrupts has returned after one step for each backend and one more,
  -- with the backend and the running weights of `next`.
  pub alone-next :
      (now : ℕ) (lb : LoadBalancer h)
      → length lb.current_weights ≡ length lb.pool
      → alone (weights_of lb.pool) (found now lb.pool) (at_backend 0 start) lb.current_weights
        ≡ (returned (index (next now lb).1), (next now lb).0.current_weights)
  unfolding next
  alone-next now lb e =
      alone-scan now 0 lb.pool lb.current_weights start [] [] (weights_of lb.pool)
        lb.current_weights e refl refl refl refl
      ∙ settled-select now lb (scan now 0 lb.pool lb.current_weights start)
