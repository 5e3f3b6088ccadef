-- ===== src/Exec.antt =====
-- Asynchronous handlers as actions: a function of the state that they share, into a result and the
-- state that they leave. What was written before an error stays written.
use blapki.Prelude.{◌≡◌, refl, ok, err, arith}
use blapki.Error.{AppError, AppResult}

abbrev pub Exec {ℓ} : Type ℓ → Type ℓ → Type ℓ
Exec S A = S → AppResult A × S

module _ {ℓ} {S A : Type ℓ} where
  abbrev pub pure : A → Exec S A
  pure a s = (ok a, s)

  abbrev pub raise : AppError → Exec S A
  raise e s = (err e, s)

  abbrev pub lift : AppResult A → Exec S A
  lift r s = (r, s)

  abbrev pub gets : (S → A) → Exec S A
  gets f s = (ok (f s), s)

  -- A call whose error the caller inspects or drops.
  abbrev pub attempt : Exec S A → Exec S (AppResult A)
  attempt m s = let (r, s') = m s in (ok r, s')

module _ {ℓ} {S A B : Type ℓ} where
  abbrev pub continue : AppResult A → (A → Exec S B) → Exec S B
  continue (ok a) f s = f a s
  continue (err e) f s = (err e, s)

  infixl 10 ◌>>=◌ ◌>>◌
  abbrev pub ◌>>=◌ : Exec S A → (A → Exec S B) → Exec S B
  ◌>>=◌ m f s = let (r, s') = m s in continue r f s'

  abbrev pub ◌>>◌ : Exec S A → Exec S B → Exec S B
  m >> n = m >>= λ _. n

-- An action on a part of the state.
abbrev pub zoom {ℓ} : {S T A : Type ℓ} → (S → T) → (S → T → S) → Exec T A → Exec S A
zoom get put m s = let (r, t) = m (get s) in (r, put s t)

-- Inversion of a chain that succeeds, for proofs where the parts stay shut.
pub bind-eq-ok {ℓ} :
    {S A B : Type ℓ} (m : Exec S A) (f : A → Exec S B) (s : S) {b : B} {u : S}
    → (m >>= f) s ≡ (ok b, u)
    → (a : A) × (t : S) × (m s ≡ (ok a, t)) × (f a t ≡ (ok b, u))
bind-eq-ok {S} {A} {B} m f s {b} {u} h = go (m s) refl h
  where
    go :
        (r : AppResult A × S)
        → m s ≡ r
        → continue r.0 f r.1 ≡ (ok b, u)
        → (a : A) × (t : S) × (m s ≡ (ok a, t)) × (f a t ≡ (ok b, u))
    go (ok a, t) e k = (a, t, e, k)
    go (err x, t) e k = absurd (ground arith)
