-- ===== src/Prelude/Results.antt =====
-- `Result` and `Option` as the source chains them.
use Prim.Native.Nat.{ℕ}
use mathlib.Core.Path.{◌≡◌, refl}
use mathlib.Core.Option.{Option, none, some}
use mathlib.Core.Logic.{◌⊎◌, inl, inr}
use mathlib.Core.List.{List, [], ◌∷◌}
use native.Mathlib.Omega.{arith}

pub data Result {ℓ κ} (E : Type ℓ) (A : Type κ) : Type (ℓ ⊔ κ) where
  ok : A → Result E A
  err : E → Result E A

-- `?`
infixl 5 ◌>>=◌
abbrev pub ◌>>=◌ {ℓ κ μ} :
    {E : Type ℓ} {A : Type κ} {B : Type μ} → Result E A → (A → Result E B) → Result E B
ok a >>= f = f a
err e >>= f = err e

module _ {ℓ κ μ} {E : Type ℓ} {F : Type μ} {A : Type κ} where
  abbrev pub map_err : (E → F) → Result E A → Result F A
  map_err f (ok a) = ok a
  map_err f (err e) = err (f e)

module _ {ℓ κ μ} {E : Type ℓ} {A : Type κ} {B : Type μ} where
  abbrev pub map_ok : (A → B) → Result E A → Result E B
  map_ok f (ok a) = ok (f a)
  map_ok f (err e) = err e

module _ {ℓ κ} {E : Type ℓ} {A : Type κ} where
  abbrev pub ok_or : E → Option A → Result E A
  ok_or e none = err e
  ok_or e (some a) = ok a

  abbrev pub to_option : Result E A → Option A
  to_option (ok a) = some a
  to_option (err e) = none

  pub Result-cases : (r : Result E A) → ((a : A) × (r ≡ ok a)) ⊎ ((e : E) × (r ≡ err e))
  Result-cases (ok a) = inl (a, refl)
  Result-cases (err e) = inr (e, refl)

  abbrev pub IsOk : Result E A → Type 0
  IsOk (ok a) = Unit
  IsOk (err e) = ⊥

-- Inversion of a successful chain, for proofs where the parts stay shut.
pub >>=-eq-ok {ℓ κ μ} :
    {E : Type ℓ} {A : Type κ} {B : Type μ} (step : Result E A) (then' : A → Result E B) {y : B}
    → (step >>= then') ≡ ok y
    → (x : A) × (step ≡ ok x) × (then' x ≡ ok y)
>>=-eq-ok (err e) then' h = cc
>>=-eq-ok (ok x) then' h = (x, refl, h)

abbrev pub and_then {ℓ κ} : {A : Type ℓ} {B : Type κ} → Option A → (A → Option B) → Option B
and_then none f = none
and_then (some a) f = f a

abbrev pub map_option {ℓ κ} : {A : Type ℓ} {B : Type κ} → (A → B) → Option A → Option B
map_option f none = none
map_option f (some a) = some (f a)

abbrev pub unwrap_or {ℓ} : {A : Type ℓ} → A → Option A → A
unwrap_or d none = d
unwrap_or d (some a) = a

-- An `i64`.
pub data ℤ : Type 0 where
  pos : ℕ → ℤ
  negsuc : ℕ → ℤ

-- `vec![r?, …]`: the values in order, or the first error.
unfoldable pub all_ok {ℓ κ} : {E : Type ℓ} {A : Type κ} → List (Result E A) → Result E (List A)
all_ok [] = ok []
all_ok (r ∷ rs) = let rest = all_ok rs in r >>= λ x. rest >>= λ xs. ok (x ∷ xs)

pub all_ok-eq-ok {ℓ κ} :
    {E : Type ℓ} {A : Type κ} (r : Result E A) (rs : List (Result E A)) (xs : List A)
    → all_ok (r ∷ rs) ≡ ok xs
    → (x : A) × (ys : List A) × (r ≡ ok x) × (all_ok rs ≡ ok ys) × (xs ≡ x ∷ ys)
unfolding all_ok
all_ok-eq-ok (ok x) rs xs h = elim (Result-cases (all_ok rs)) [
  | inl (ys, e) ↦ (x, ys, refl, e, ground arith)
  | inr (e, f) ↦ absurd (ground arith)
]
all_ok-eq-ok (err e) rs xs h = cc

pub all_ok-nil {ℓ κ} : {E : Type ℓ} {A : Type κ} (xs : List A) → all_ok {E = E} [] ≡ ok xs → xs ≡ []
unfolding all_ok
all_ok-nil xs h = ground arith

pub map_err-eq-ok {ℓ κ μ} :
    {E : Type ℓ} {F : Type μ} {A : Type κ} (f : E → F) (r : Result E A) {a : A}
    → map_err f r ≡ ok a
    → r ≡ ok a
map_err-eq-ok f (ok x) h = ground arith
map_err-eq-ok f (err e) h = cc

-- Inversion of a step `r.map_err(f)?`.
pub map_err-bind-eq-ok {ℓ κ μ ν} :
    {E : Type ℓ} {F : Type μ} {A : Type κ} {B : Type ν} (f : E → F) (r : Result E A)
    (g : A → Result F B) {b : B}
    → (map_err f r >>= g) ≡ ok b
    → (a : A) × (r ≡ ok a) × (g a ≡ ok b)
map_err-bind-eq-ok f (ok a) g h = (a, refl, h)
map_err-bind-eq-ok f (err e) g h = cc
