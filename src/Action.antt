-- ===== src/Action.antt =====
-- Methods that change an object and may raise: what was written before a raise stays written, unless
-- the method is a unit of work (src/algo/database/session.py), which rolls back.
pub mod Keeps
pub mod Gives
pub mod Triple
use trading_project.Result.{Error, Result, ok, err}

abbrev pub Action {ℓ} : Type ℓ → Type ℓ → Type ℓ
Action S A = S → Result A × S

module _ {ℓ} {S A : Type ℓ} where
  abbrev pub pure : A → Action S A
  pure a s = (ok a, s)

  abbrev pub raise : Error → Action S A
  raise e s = (err e, s)

  abbrev pub lift : Result A → Action S A
  lift r s = (r, s)

  abbrev pub gets : (S → A) → Action S A
  gets f s = (ok (f s), s)

module _ {ℓ} {S A B : Type ℓ} where
  abbrev pub continue : Result A → (A → Action S B) → Action S B
  continue (ok a) f s = f a s
  continue (err e) f s = (err e, s)

  infixl 10 ◌>>=◌ ◌>>◌
  unfoldable pub ◌>>=◌ : Action S A → (A → Action S B) → Action S B
  ◌>>=◌ m f s = let (r, s') = m s in continue r f s'

  abbrev pub ◌>>◌ : Action S A → Action S B → Action S B
  m >> k = m >>= λ _. k

module _ {ℓ} {S A : Type ℓ} where
  -- `unit_of_work`: the session is committed, or rolled back when the block raises
  unfoldable pub committed : Action S A → S → Result A × S → Result A × S
  committed m before (ok a, after) = (ok a, after)
  committed m before (err e, after) = (err e, before)

  unfoldable pub unit_of_work : Action S A → Action S A
  unfolding committed
  unit_of_work m s = committed m s (m s)
