-- ===== src/Action/Keeps.antt =====
-- What an action keeps true of its object, whether it returns or raises, with a rule for each way
-- to put actions together.
use trading_project.Base.{Bool, true, false, if◌then◌else◌}
use trading_project.Result.{Error, Result, ok, err}
use trading_project.Action.{
  Action, pure, raise, lift, gets, continue, ◌>>=◌, committed, unit_of_work,
}

pub record Keeps {ℓ κ} {S A : Type ℓ} (P : S → Type κ) (m : Action S A) : Type (ℓ ⊔ κ) where
  pub from : (s : S) → P s → P (m s).1

module _ {ℓ κ} {S A : Type ℓ} where
  committed-Keeps :
      (P : S → Type κ) (m : Action S A) (s : S) (r : Result A × S)
      → P s
      → P r.1
      → P (committed m s r).1
  unfolding committed
  committed-Keeps P m s (ok a, after) before h = h
  committed-Keeps P m s (err e, after) before h = before

module _ {ℓ κ} {S A : Type ℓ} {P : S → Type κ} where
  pub Keeps-pure : (a : A) → Keeps P (pure {S = S} a)
  Keeps-pure a = record { from = λ s h. h }

  pub Keeps-raise : (e : Error) → Keeps P (raise {S = S} {A = A} e)
  Keeps-raise e = record { from = λ s h. h }

  pub Keeps-lift : (r : Result A) → Keeps P (lift {S = S} r)
  Keeps-lift r = record { from = λ s h. h }

  pub Keeps-gets : (f : S → A) → Keeps P (gets f)
  Keeps-gets f = record { from = λ s h. h }

  pub Keeps-if :
      (b : Bool) (m n : Action S A) → Keeps P m → Keeps P n → Keeps P (if b then m else n)
  Keeps-if true m n km kn = km
  Keeps-if false m n km kn = kn

  pub Keeps-unit_of_work : (m : Action S A) → Keeps P m → Keeps P (unit_of_work m)
  unfolding unit_of_work
  Keeps-unit_of_work m k = record { from = λ s h. committed-Keeps P m s (m s) h (k.from s h) }

module _ {ℓ κ} {S A B : Type ℓ} where
  continue-Keeps :
      (P : S → Type κ) (r : Result A) (f : A → Action S B) (s : S)
      → ((a : A) → Keeps P (f a))
      → P s
      → P (continue r f s).1
  continue-Keeps P (ok a) f s k h = (k a).from s h
  continue-Keeps P (err e) f s k h = h

module _ {ℓ κ} {S A B : Type ℓ} {P : S → Type κ} where
  pub Keeps-bind :
      (m : Action S A) (f : A → Action S B)
      → Keeps P m
      → ((a : A) → Keeps P (f a))
      → Keeps P (m >>= f)
  unfolding ◌>>=◌
  Keeps-bind m f km kf = record {
    from = λ s h. let (r, s') = m s in continue-Keeps P r f s' kf (km.from s h);
  }

pub ruleset keeps_rules =
    (Keeps-pure, Keeps-raise, Keeps-lift, Keeps-gets, Keeps-if, Keeps-unit_of_work, Keeps-bind)
