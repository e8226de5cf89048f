-- ===== src/Errors/Steps.antt =====
-- What the success of a chain of fallible steps says of its first step.
use orb_operator.Base.{◌≡◌, ap, refl, subst}
use orb_operator.Errors.{Result, ok, err, ◌>>=◌, Error}

pub of_bind :
    {A B : Type 0} (m : Result A) (f : A → Result B) (b : B)
    → (m >>= f) ≡ ok b
    → (a : A) × (m ≡ ok a) × (f a ≡ ok b)
of_bind (ok a) f b e = (a, refl, e)
of_bind (err x) f b e = absurd (cc e)

result_or : {A : Type 0} → A → Result A → A
result_or d (ok a) = a
result_or d (err e) = d

pub ok-injective : {A : Type 0} (a b : A) → Result.ok a ≡ ok b → a ≡ b
unfolding result_or
ok-injective a b e = ap (result_or a) e

error_or : {A : Type 0} → Error → Result A → Error
error_or d (ok a) = d
error_or d (err e) = e

pub err-injective : {A : Type 0} (d e : Error) → ◌≡◌ {A = Result A} (err d) (err e) → d ≡ e
unfolding error_or
err-injective d e q = ap (error_or d) q

-- Every value that the computation returns satisfies the predicate.
pub record Returns {ℓ κ} {A : Type ℓ} (P : A → Type κ) (r : Result A) : Type (ℓ ⊔ κ) where
  pub at : (a : A) → r ≡ ok a → P a

module _ {κ} {A : Type 0} {P : A → Type κ} where
  pub Returns-ok : (a : A) → P a → Returns P (ok a)
  Returns-ok a h = record { at = λ b e. subst P (ok-injective a b e) h }

  pub Returns-err : (e : Error) → Returns P (err e)
  Returns-err e = record { at = λ b q. absurd (cc q) }

  pub Returns-bind :
      {B : Type 0} (m : Result B) (f : B → Result A)
      → ((b : B) → m ≡ ok b → Returns P (f b))
      → Returns P (m >>= f)
  Returns-bind (ok b) f h = h b refl
  Returns-bind (err e) f h = Returns-err e
