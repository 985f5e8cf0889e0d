-- ===== src/Action/Gives.antt =====
-- What every value that an action returns satisfies, from any object.
use trading_project.Result.{Error, Result, ok, err}
use trading_project.Action.{Action, pure, raise, continue, ◌>>=◌}

abbrev pub Post {ℓ κ} : {A : Type ℓ} → (A → Type κ) → Result A → Type κ
Post Q (ok a) = Q a
Post Q (err e) = Unit

pub record Gives {ℓ κ} {S A : Type ℓ} (Q : A → Type κ) (m : Action S A) : Type (ℓ ⊔ κ) where
  pub at : (s : S) → Post Q (m s).0

module _ {ℓ κ} {S A : Type ℓ} {Q : A → Type κ} where
  pub Gives-pure : (a : A) → Q a → Gives Q (pure {S = S} a)
  Gives-pure a h = record { at = λ s. h }

  pub Gives-raise : (e : Error) → Gives Q (raise {S = S} {A = A} e)
  Gives-raise e = record { at = λ s. tt }

module _ {ℓ κ} {S A B : Type ℓ} where
  continue-Gives :
      (Q : B → Type κ) (r : Result A) (f : A → Action S B) (s : S)
      → ((a : A) → Gives Q (f a))
      → Post Q (continue r f s).0
  continue-Gives Q (ok a) f s k = (k a).at s
  continue-Gives Q (err e) f s k = tt

module _ {ℓ κ} {S A B : Type ℓ} {Q : B → Type κ} where
  -- only the last step decides what a block returns
  pub Gives-bind :
      (m : Action S A) (f : A → Action S B) → ((a : A) → Gives Q (f a)) → Gives Q (m >>= f)
  unfolding ◌>>=◌
  Gives-bind m f k = record { at = λ s. let (r, s') = m s in continue-Gives Q r f s' k }
