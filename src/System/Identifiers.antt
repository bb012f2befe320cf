-- ===== src/System/Identifiers.antt =====
-- The sequence numbers of the requests in flight.
use palisade.Prelude.{
  ℕ, zero, suc, ◌+◌, ◌%◌, ◌^◌, ◌<◌, ◌≤◌, ◌≡◌, ◌≢◌, refl, sym, ap, ◌∙◌, some, List, [], ◌∷◌, ◌++◌,
  get_elem?, ok, Except-cases, Bool-cases, >>=-eq-ok, ok-injective, inl, inr, ◌⊎◌, arith,
}
use mathlib.Core.Option.{some-injective}
use palisade.Text.{Str}
use palisade.Balancer
use palisade.System.Forwarded.{enter-cases}
use palisade.Semaphore.{Semaphores, SemaphoreLaws}
use palisade.Metrics.{Prometheus}
use palisade.Proxy.Crates.{Crates}
use palisade.Proxy.Screen.{Request, Runtime}
use palisade.Proxy.Pipeline.{
  Shared, Flight, Peer, Outcome, responded, failed, elapsed, is_length_limit_error, target,
  begin_request, dispatch, finish_request,
}
use palisade.Proxy.Effects.{verdict, begin_request-refused, begin_request-passed}
use palisade.Server.Service.{ServerState, InFlight}
use palisade.System.{Run, started, entered, left, dropped, probed_at, cleaned}
use palisade.System.Sound.{enter-shared, leave-state}

apart_mod : (a j k : ℕ) → j < k → k < 2 ^ 64 → (a + j) % 2 ^ 64 ≢ (a + k) % 2 ^ 64
apart_mod a j k l b e = omega (arith, e)

module _ (c : Crates) (s : Semaphores) (p : Prometheus) (json : Str → Str → Str) {B : Type 0} where
  -- How many requests have entered in a run.
  unfoldable pub entries :
      {st0 : ServerState c s p json} {fs : List (InFlight c s p json B)}
      {st : ServerState c s p json}
      → Run c s p json B st0 fs st
      → ℕ
  entries started = 0
  entries (entered req peer now ended r) = suc (entries r)
  entries (left fs gs f o now r) = entries r
  entries (dropped fs gs f r) = entries r
  entries (probed_at i answer now r) = entries r
  entries (cleaned now r) = entries r

  -- The requests hold different numbers from `id0` on, all before the `bound`-th, the latest first.
  abbrev AllNumbered : ℕ → ℕ → List (InFlight c s p json B) → Type 0
  AllNumbered id0 bound [] = Unit
  AllNumbered id0 bound (f ∷ fs) =
      (j : ℕ) × (j < bound) × (f.flight.seq ≡ (id0 + j) % 2 ^ 64) × AllNumbered id0 j fs

  AllNumbered-more :
      (id0 m n : ℕ) (fs : List (InFlight c s p json B))
      → m ≤ n
      → AllNumbered id0 m fs
      → AllNumbered id0 n fs
  AllNumbered-more id0 m n [] b v = tt
  AllNumbered-more id0 m n (f ∷ fs) b (j, l, e, v) = (j, omega (arith, l), e, v)

  AllNumbered-middle :
      (id0 n : ℕ) (fs gs : List (InFlight c s p json B)) (f : InFlight c s p json B)
      → AllNumbered id0 n (fs ++ f ∷ gs)
      → AllNumbered id0 n (fs ++ gs)
  AllNumbered-middle id0 n [] gs f (j, l, e, v) = AllNumbered-more id0 j n gs (omega (arith, l)) v
  AllNumbered-middle id0 n (x ∷ fs) gs f (j, l, e, v) =
      (j, l, e, AllNumbered-middle id0 j fs gs f v)

  AllNumbered-at :
      (id0 n i : ℕ) (fs : List (InFlight c s p json B)) (f : InFlight c s p json B)
      → AllNumbered id0 n fs
      → get_elem? fs i ≡ some f
      → (j : ℕ) × (j < n) × (f.flight.seq ≡ (id0 + j) % 2 ^ 64)
  AllNumbered-at id0 n i [] f v g = cc
  AllNumbered-at id0 n zero (x ∷ fs) f (j, l, e, v) g =
      (j, l, ap (λ (y : InFlight c s p json B). y.flight.seq) (sym (some-injective _ _ g)) ∙ e)
  AllNumbered-at id0 n (suc i) (x ∷ fs) f (j, l, e, v) g =
      let (k, m, q) = AllNumbered-at id0 j i fs f v g in (k, omega (arith, l, m), q)

  AllNumbered-differ :
      (id0 n i j : ℕ) (fs : List (InFlight c s p json B)) (f g : InFlight c s p json B)
      → n ≤ 2 ^ 64
      → AllNumbered id0 n fs
      → i < j
      → get_elem? fs i ≡ some f
      → get_elem? fs j ≡ some g
      → f.flight.seq ≢ g.flight.seq
  AllNumbered-differ id0 n i j [] f g b v l x y = cc
  AllNumbered-differ id0 n i zero (h ∷ fs) f g b v l x y = absurd (omega (arith, l))
  AllNumbered-differ id0 n zero (suc j) (h ∷ fs) f g b (k, m, e, v) l x y = λ z.
      let (k', m', e') = AllNumbered-at id0 k j fs g v y in
      apart_mod id0 k' k m' (omega (arith, m, b)) (
        sym e'
        ∙ (sym z
            ∙ (ap (λ (y : InFlight c s p json B). y.flight.seq) (sym (some-injective _ _ x)) ∙ e)))
  AllNumbered-differ id0 n (suc i) (suc j) (h ∷ fs) f g b (k, m, e, v) l x y =
      AllNumbered-differ id0 k i j fs f g (omega (arith, m, b)) v (omega (arith, l)) x y

  -- The counter has moved on by the numbers that are taken.
  record Numbered (id0 bound : ℕ) (fs : List (InFlight c s p json B)) (st : ServerState c s p json)
      : Type 0 where
    taken : ℕ
    within : taken ≤ bound
    next : st.shared.next_id ≡ (id0 + taken) % 2 ^ 64
    all : AllNumbered id0 taken fs

module _ (c : Crates) {B : Type 0} (config : Runtime c) (req : Request c B) (peer : Peer c)
    (now : ℕ) (s : Shared c) where
  dispatch-seq :
      (seq : ℕ) (id : Str) (t : Shared c) (f : Flight c B)
      → (dispatch c config req peer now seq id t).1 ≡ ok f
      → f.seq ≡ seq
  unfolding dispatch
  dispatch-seq seq id t f e =
      let (i, qi, gi) = >>=-eq-ok (Balancer.next now t.balancer).1 _ e in
      let (r, qr, gr) =
        >>=-eq-ok (target c config req peer (Balancer.next now t.balancer).0.pool i) _ gi in
      ap (λ (g : Flight c B). g.seq) (sym (ok-injective _ refl gr))

  -- Every request that begins takes one number, and carries it if it is sent.
  begin_request-next_id :
      (begin_request c config req peer now s).0.next_id ≡ (s.next_id + 1) % 2 ^ 64
  unfolding dispatch
  begin_request-next_id = elim (Except-cases (verdict c config req peer now s)) [
    | inl (u, e) ↦ rw (begin_request-passed c config req peer now s e) refl
    | inr (x, e) ↦ (begin_request-refused c config req peer now s x e).2
  ]

  begin_request-seq :
      (f : Flight c B) → (begin_request c config req peer now s).1 ≡ ok f → f.seq ≡ s.next_id
  begin_request-seq f g = elim (Except-cases (verdict c config req peer now s)) [
    | inl (u, e) ↦
        dispatch-seq s.next_id _ _ f
          (ap (λ r. r.1) (sym (begin_request-passed c config req peer now s e)) ∙ g)
    | inr (x, e) ↦ (let g' = sym (begin_request-refused c config req peer now s x e).0 ∙ g in cc)
  ]

module _ (c : Crates) {B : Type 0} (config : Runtime c) (now : ℕ) (s : Shared c) where
  finish_request-next_id :
      (f : Flight c B) (o : Outcome c) → (finish_request c config f now o s).0.next_id ≡ s.next_id
  unfolding finish_request
  finish_request-next_id f (responded resp) = refl
  finish_request-next_id f (failed e) = elim (Bool-cases (is_length_limit_error e)) [
    | inl q ↦ rw (q, finish_request) refl
    | inr q ↦ rw (q, finish_request) refl
  ]
  finish_request-next_id f elapsed = refl

module _ (c : Crates) (s : Semaphores) (k : SemaphoreLaws s) (p : Prometheus)
    (json : Str → Str → Str) {B : Type 0} {st0 : ServerState c s p json}
    (small : st0.shared.next_id < 2 ^ 64) where
  Run-Numbered :
      {fs : List (InFlight c s p json B)} {st : ServerState c s p json}
      (r : Run c s p json B st0 fs st)
      → Numbered c s p json st0.shared.next_id (entries c s p json r) fs st
  unfolding entries
  Run-Numbered started = record { taken = 0; within = omega arith; next = omega arith; all = tt }
  Run-Numbered (entered {fs = fs} {st = st} req peer now ended r) =
      let v = Run-Numbered r in
      let step = begin_request-next_id c st.config req peer now st.shared in
      elim (enter-cases c s k p json req peer now ended st) [
        | inl (f, e, q, z) ↦ rw e (record {
          taken = suc v.taken;
          within = omega (arith, v.within);
          next = omega (arith, ap (λ (x : Shared c). x.next_id) z, step, v.next);
          all = (
            v.taken,
            omega arith,
            begin_request-seq c st.config req peer now st.shared f.flight q ∙ v.next,
            v.all,
          );
        })
        | inr (x, e) ↦
            elim (enter-shared c s k p json req peer now ended st
              (λ sh.
                (sh.next_id ≡ st.shared.next_id) ⊎ (sh.next_id ≡ (st.shared.next_id + 1) % 2 ^ 64))
              (inl refl) (inr step)) [
                | inl same ↦ rw e (record {
                  taken = v.taken;
                  within = omega (arith, v.within);
                  next = same ∙ v.next;
                  all = v.all;
                })
                | inr more ↦ rw e (record {
                  taken = suc v.taken;
                  within = omega (arith, v.within);
                  next = omega (arith, more, v.next);
                  all = AllNumbered-more c s p json _ v.taken (suc v.taken) fs (omega arith) v.all;
                })
              ]
      ]
  Run-Numbered (left {st = st} fs gs f o now r) =
      let v = Run-Numbered r in
      record {
        taken = v.taken;
        within = v.within;
        next =
            ap (λ (x : Shared c). x.next_id) (leave-state c s k p json f o now st).0
            ∙ (finish_request-next_id c st.config now st.shared f.flight o ∙ v.next);
        all = AllNumbered-middle c s p json _ v.taken fs gs f v.all;
      }
  Run-Numbered (dropped fs gs f r) =
      let v = Run-Numbered r in
      record {
        taken = v.taken;
        within = v.within;
        next = v.next;
        all = AllNumbered-middle c s p json _ v.taken fs gs f v.all;
      }
  Run-Numbered (probed_at i answer now r) =
      let v = Run-Numbered r in
      record { taken = v.taken; within = v.within; next = v.next; all = v.all }
  Run-Numbered (cleaned now r) =
      let v = Run-Numbered r in
      record { taken = v.taken; within = v.within; next = v.next; all = v.all }

  -- No two requests in flight have the same sequence number, as long as at most 2 ^ 64 requests
  -- have entered since the server started with its counter at a 64-bit number.
  pub Run-seq :
      {fs : List (InFlight c s p json B)} {st : ServerState c s p json}
      (r : Run c s p json B st0 fs st) (i j : ℕ) (f g : InFlight c s p json B)
      → entries c s p json r ≤ 2 ^ 64
      → i < j
      → get_elem? fs i ≡ some f
      → get_elem? fs j ≡ some g
      → f.flight.seq ≢ g.flight.seq
  Run-seq {fs = fs} r i j f g b l x y =
      let v = Run-Numbered r in
      AllNumbered-differ c s p json st0.shared.next_id v.taken i j fs f g
        (omega (arith, v.within, b)) v.all l x y
