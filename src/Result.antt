-- ===== src/Result.antt =====
-- The exceptions of the modelled code as values: database/repositories/exceptions.py,
-- strategy_1/exceptions.py, `IllegalStateTransitionError` of strategy_1/state_machine.py, and the
-- built-in `ValueError` and `TypeError` that constructors and calculations raise.
use trading_project.Base.{◌≡◌, ◌⊎◌, inl, inr, refl, Bool, true, false}
use trading_project.Enums.{PositionState, StateTransitionActor}

pub data Error : Type 0 where
  -- the flag says that the edge exists and the actor is not one of those it is restricted to
  illegal_transition : PositionState → PositionState → StateTransitionActor → Bool → Error
  concurrent_modification : Error
  not_found : Error
  missing_fill_price : Error
  strike_selection : Error
  value_error : Error
  type_error : Error
  runtime_error : Error
  broker_error : Error

pub data Result {ℓ} (A : Type ℓ) : Type ℓ where
  ok : A → Result A
  err : Error → Result A

abbrev pub is_ok {ℓ} : {A : Type ℓ} → Result A → Bool
is_ok (ok _) = true
is_ok (err _) = false

-- `if not test: raise e`
abbrev pub guard : (test : Bool) → Error → Result (Unit {0})
guard false why = err why
guard true why = ok tt

-- A raise skips what follows it.
infixl 5 ◌>>=◌ ◌>>◌
abbrev pub ◌>>=◌ {ℓ κ} : {X : Type ℓ} {Y : Type κ} → Result X → (X → Result Y) → Result Y
err why >>= rest = err why
ok x >>= rest = rest x

abbrev pub ◌>>◌ {κ} : {Y : Type κ} → Result (Unit {0}) → Result Y → Result Y
checked >> rest = checked >>= λ _. rest

pub Result-cases {ℓ} :
    {A : Type ℓ} (r : Result A) → ((a : A) × (r ≡ ok a)) ⊎ ((e : Error) × (r ≡ err e))
Result-cases (ok a) = inl (a, refl)
Result-cases (err e) = inr (e, refl)
