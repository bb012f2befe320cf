-- ===== src/Prelude/Results.antt =====
-- Rust's `Result`, and the chains that `?` makes of it and of `Option`.
use native.Mathlib.Omega.{arith}
use mathlib.Core.Path.{◌≡◌, refl}
use mathlib.Core.Logic.{◌⊎◌, inl, inr, ◌≢◌}
use mathlib.Core.Bool.{Bool, true, false}
use mathlib.Core.Option.{Option, none, some}
use mathlib.Core.List.{List, [], ◌∷◌}

pub data Except {ℓ} (E A : Type ℓ) : Type ℓ where
  ok : A → Except E A
  err : E → Except E A

-- `ok_or_else`
abbrev pub ok_or {ℓ} : {A E : Type ℓ} → E → Option A → Except E A
ok_or reason (some x) = ok x
ok_or reason none = err reason

module _ {ℓ} {E : Type ℓ} where
  infixl 5 ◌>>◌ ◌>>=◌
  abbrev pub ◌>>◌ : {A B : Type ℓ} → Except E A → Except E B → Except E B
  ok x >> then_do = then_do
  err reason >> then_do = err reason

  abbrev pub ◌>>=◌ : {A B : Type ℓ} → Except E A → (A → Except E B) → Except E B
  ok x >>= step = step x
  err reason >>= step = err reason

  -- `iter().map(f).collect::<Result<Vec<_>>>()`: the first error ends the pass.
  abbrev pub collect : {A B : Type ℓ} → (A → Except E B) → List A → Except E (List B)
  collect f [] = ok []
  collect f (a ∷ rest) = f a >>= λ b. collect f rest >>= λ bs. ok (b ∷ bs)

  pub >>=-eq-ok :
      {A B : Type ℓ} (first : Except E A) (step : A → Except E B) {result : B}
      → (first >>= step) ≡ ok result
      → (x : A) × (first ≡ ok x) × (step x ≡ ok result)
  >>=-eq-ok (err reason) step e = cc
  >>=-eq-ok (ok x) step e = (x, refl, e)

pub ok-injective {ℓ} : {E A : Type ℓ} {a b : A} (r : Except E A) → r ≡ ok a → r ≡ ok b → a ≡ b
ok-injective r e g = cc

-- `map_err`
abbrev pub map_err {ℓ} : {A E F : Type ℓ} → (E → F) → Except E A → Except F A
map_err f (ok a) = ok a
map_err f (err e) = err (f e)

-- `is_ok`
abbrev pub is_ok {ℓ} : {A E : Type ℓ} → Except E A → Bool
is_ok (ok a) = true
is_ok (err e) = false

pub Except-cases {ℓ} :
    {E A : Type ℓ} (r : Except E A) → ((a : A) × (r ≡ ok a)) ⊎ ((e : E) × (r ≡ err e))
Except-cases (ok a) = inl (a, refl)
Except-cases (err e) = inr (e, refl)

module _ {ℓ} {E A B : Type ℓ} (f : A → Except E B) where
  pub collect-cons :
      (a : A) (rest : List A) (b : B) (bs : List B)
      → collect f (a ∷ rest) ≡ ok (b ∷ bs)
      → (f a ≡ ok b) × (collect f rest ≡ ok bs)
  collect-cons a rest b bs e = ground arith

  -- A pass that succeeds keeps the length.
  pub collect-cons_nil : (a : A) (rest : List A) → collect f (a ∷ rest) ≡ ok [] → ⊥
  collect-cons_nil a rest e = ground arith

pub map_err-ok {ℓ} :
    {A E F : Type ℓ} (f : E → F) (r : Except E A) (x : A) → map_err f r ≡ ok x → r ≡ ok x
map_err-ok f (ok y) x e = cc
map_err-ok f (err y) x e = cc

-- An error that neither step of a chain gives is not given by the chain.
pub not_err :
    {A B E : Type 0} (r : Except E A) (k : A → Except E B) (x : E)
    → r ≢ err x
    → ((a : A) → r ≡ ok a → k a ≢ err x)
    → (r >>= k) ≢ err x
not_err (ok a) k x n m e = m a refl e
not_err (err y) k x n m e = n cc

pub map_err-not_err :
    {A E F : Type 0} (f : E → F) (r : Except E A) (x : F)
    → ((y : E) → f y ≢ x)
    → map_err f r ≢ err x
map_err-not_err f (ok a) x n e = cc
map_err-not_err f (err y) x n e = n y cc

pub map_err-is_ok :
    {A E F : Type 0} (f : E → F) (r : Except E A) (x : F) → is_ok r ≡ true → map_err f r ≢ err x
map_err-is_ok f (ok a) x n e = cc
map_err-is_ok f (err y) x n e = cc

pub ok_or-not_err : {A E : Type 0} (y : E) (o : Option A) (x : E) → y ≢ x → ok_or y o ≢ err x
ok_or-not_err y none x n e = n cc
ok_or-not_err y (some a) x n e = cc
