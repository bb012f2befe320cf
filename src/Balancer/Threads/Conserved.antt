-- ===== src/Balancer/Threads/Conserved.antt =====
-- No running weight is lost between threads.
use palisade.Prelude.{
  ℕ, ◌+◌, ◌%◌, ◌^◌, ◌≡◌, ◌<◌, refl, Option, none, some, List, [], ◌∷◌, ◌++◌, map, length, arith,
}
use palisade.Prelude.Int.{ℤ, pos}
use palisade.Balancer.Threads.{Caller, returned, advance, Threads, quiet, called, moved, left}
use palisade.Balancer.Threads.Calls.{pending, pendings, IsCall, AllCalls, advance-Kept}
use palisade.Balancer.Threads.Sums.{words, AllI64, remaining}

record IsCounted (weights : List ℕ) (ts : List Caller) (cells : List ℤ) : Type 0 where
  size : length cells ≡ length weights
  range : AllI64 cells
  calls : AllCalls weights ts
  balance : words cells % 2 ^ 64 ≡ pendings ts % 2 ^ 64

pendings-middle :
    (before after : List Caller) (t : Caller)
    → pendings (before ++ t ∷ after) ≡ pending t + pendings (before ++ after)
pendings-middle [] after t = refl
pendings-middle (b ∷ before) after t = omega (arith, pendings-middle before after t)

AllCalls-middle :
    (weights : List ℕ) (before after : List Caller) (t : Caller)
    → AllCalls weights (before ++ t ∷ after)
    → IsCall weights t × AllCalls weights (before ++ after)
AllCalls-middle weights [] after t v = v
AllCalls-middle weights (b ∷ before) after t v =
    let (c, rest) = AllCalls-middle weights before after t v.1 in (c, (v.0, rest))

middle-AllCalls :
    (weights : List ℕ) (before after : List Caller) (t : Caller)
    → IsCall weights t
    → AllCalls weights (before ++ after)
    → AllCalls weights (before ++ t ∷ after)
middle-AllCalls weights [] after t c v = (c, v)
middle-AllCalls weights (b ∷ before) after t c v =
    (v.0, middle-AllCalls weights before after t c v.1)

zeros :
    (weights : List ℕ)
    → (length (map (λ w. pos 0) weights) ≡ length weights)
      × AllI64 (map (λ w. pos 0) weights)
      × (words (map (λ w. pos 0) weights) ≡ 0)
zeros [] = (refl, tt, refl)
zeros (w ∷ ws) =
    let (n, v, z) = zeros ws in
    (omega (arith, n), (record { least = omega arith; most = omega arith }, v), omega (arith, z))

Threads-IsCounted :
    (weights : List ℕ) {ts : List Caller} {cells : List ℤ}
    → remaining 0 weights < 2 ^ 63
    → Threads weights ts cells
    → IsCounted weights ts cells
Threads-IsCounted weights small quiet =
    let (n, v, z) = zeros weights in
    record { size = n; range = v; calls = tt; balance = omega (arith, z) }
Threads-IsCounted weights small (called r) =
    let k = Threads-IsCounted weights small r in
    record {
      size = k.size;
      range = k.range;
      calls = (
        record {
          total = refl;
          room = omega arith;
          unset = λ e. (refl, refl);
          inside = λ b e. (let e' : ◌≡◌ {A = Option ℕ} none (some b) = e in cc);
        },
        k.calls,
      );
      balance = omega (arith, k.balance);
    }
Threads-IsCounted weights small (moved {cells = cells} before after t eligible r) =
    let k = Threads-IsCounted weights small r in
    let (c, rest) = AllCalls-middle weights before after t k.calls in
    let (n, v, c', e) = advance-Kept weights eligible t cells small k.size k.range c in
    let t' = (advance weights eligible t cells).0 in
    record {
      size = n;
      range = v;
      calls = middle-AllCalls weights before after t' c' rest;
      balance =
          omega
            (arith, e, k.balance, pendings-middle before after t, pendings-middle before after t');
    }
Threads-IsCounted weights small (left before after x r) =
    let k = Threads-IsCounted weights small r in
    record {
      size = k.size;
      range = k.range;
      calls = (AllCalls-middle weights before after (returned x) k.calls).1;
      balance = omega (arith, k.balance, pendings-middle before after (returned x));
    }

-- However the atomic steps of concurrent calls of `next` interleave, and whatever eligibility they
-- find, the running weights as 64-bit words add up to what the calls in progress have added so far,
-- modulo 2 ^ 64, if the weights of all backends together are below 2 ^ 63: when no call is in
-- progress they add up to 0, as in a new balancer.
pub Threads-words :
    (weights : List ℕ) {ts : List Caller} {cells : List ℤ}
    → remaining 0 weights < 2 ^ 63
    → Threads weights ts cells
    → words cells % 2 ^ 64 ≡ pendings ts % 2 ^ 64
Threads-words weights small r = (Threads-IsCounted weights small r).balance
