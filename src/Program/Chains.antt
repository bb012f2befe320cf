-- ===== src/Program/Chains.antt =====
-- Chains of fallible steps, and the options that they pass through.
use palisade.Prelude.{
  not_err, Bool, true, false, ◌≡◌, ◌≢◌, refl, sym, ap, Option, none, some, Except, ok, err, ◌>>=◌,
  >>=-eq-ok, ok-injective,
}
use palisade.Program.{traverse, mapped}

abbrev pub is_some : {A : Type 0} → Option A → Bool
is_some none = false
is_some (some a) = true

pub mapped-is_some : {A B : Type 0} (f : A → B) (o : Option A) → is_some (mapped f o) ≡ is_some o
mapped-is_some f none = refl
mapped-is_some f (some a) = refl

pub traverse-not_err :
    {A B E : Type 0} (f : A → Except E B) (o : Option A) (x : E)
    → ((a : A) → o ≡ some a → f a ≢ err x)
    → traverse f o ≢ err x
traverse-not_err f none x n e = cc
traverse-not_err f (some a) x n e = not_err (f a) _ x (n a refl) (λ b q z. cc) e

pub traverse-is_some :
    {A B E : Type 0} (f : A → Except E B) (o : Option A) (r : Option B)
    → traverse f o ≡ ok r
    → is_some r ≡ is_some o
traverse-is_some f none r e = ap is_some (ok-injective (ok r) refl (sym e))
traverse-is_some f (some a) r e =
    let (b, q, g) = >>=-eq-ok (f a) _ e in ap is_some (sym (ok-injective _ refl g))

-- What a chain that succeeds has passed first.
pub after :
    {A B E P : Type 0} (first : Except E A) (step : A → Except E B) {result : B}
    → (first >>= step) ≡ ok result
    → ((x : A) → first ≡ ok x → step x ≡ ok result → P)
    → P
after first step e k = let (x, q, g) = >>=-eq-ok first step e in k x q g
