-- ===== src/Entry/Procedure/Fills.antt =====
-- The price of a leg that `_place_leg` reports as filled is that of a complete order's row.
use trading_project.Base.{ℕ, Option, none, some, String}
use trading_project.Result.{Result}
use trading_project.Action.Triple.{Triple, Triple-bind, Triple-pure, Triple-raise}
use trading_project.Broker.{BrokerOrder, BrokerError, BrokerResult, returned, raised}
use trading_project.Runtime.{BrokerPort, World, in_store}
use trading_project.Entry.{EntryConfig, LegIds, LegResult}
use trading_project.Entry.Writes.Filling.{HasRow, settle_leg-HasRow}
use trading_project.Entry.Procedure.{
  confirm_polled, confirm_and_record, failed_leg, leg_placed, place_leg,
}

module _ (b : BrokerPort) (cfg : EntryConfig) (now trade_date : ℕ) where
  abbrev Anything : World b → Type 0
  Anything _ = Unit

  abbrev Priced : Result LegResult → World b → Type 0
  Priced r w = HasRow r w.store

  -- whatever a step does
  any_step : {A : Type 0} (m : World b → Result A × World b) → Triple Anything m (λ _. Anything)
  any_step m = record { from = λ w h. tt }

  confirm_polled-Priced :
      (leg : LegIds) (order_id : ℕ) (id : String) (o : Option BrokerOrder)
      → Triple Anything (confirm_polled b cfg now trade_date leg order_id id o) Priced
  unfolding confirm_polled in_store
  confirm_polled-Priced leg order_id id none = Triple-pure _ (λ w h price e. cc)
  confirm_polled-Priced leg order_id id (some bo) =
      Triple-bind _ _ _ (any_step _) (λ e w h. tt)
        (λ _. record { from = λ w h. settle_leg-HasRow cfg now trade_date leg order_id w.store })

  confirm_and_record-Priced :
      (leg : LegIds) (quantity : ℕ) (id : String)
      → Triple Anything (confirm_and_record b cfg now trade_date leg quantity id) Priced
  unfolding confirm_and_record
  confirm_and_record-Priced leg quantity id =
      Triple-bind _ _ _ (any_step _) (λ e w h. tt)
        (λ order_id.
          Triple-bind _ _ _ (any_step _) (λ e w h. tt) (confirm_polled-Priced leg order_id id))

  failed_leg-Priced : Triple Anything (failed_leg b cfg now trade_date) Priced
  unfolding failed_leg
  failed_leg-Priced = Triple-pure _ (λ w h price e. cc)

  leg_placed-Priced :
      (leg : LegIds) (quantity : ℕ) (r : BrokerResult String)
      → Triple Anything (leg_placed b cfg now trade_date leg quantity r) Priced
  unfolding leg_placed
  leg_placed-Priced leg quantity (returned id) = confirm_and_record-Priced leg quantity id
  leg_placed-Priced leg quantity (raised BrokerError.order_rejected) =
      Triple-bind _ _ _ (any_step _) (λ e w h. tt) (λ _. failed_leg-Priced)
  leg_placed-Priced leg quantity (raised BrokerError.invalid_order_request) =
      Triple-bind _ _ _ (any_step _) (λ e w h. tt) (λ _. failed_leg-Priced)
  leg_placed-Priced leg quantity (raised BrokerError.connection) =
      Triple-bind _ _ _ (any_step _) (λ e w h. tt) (λ _. failed_leg-Priced)
  leg_placed-Priced leg quantity (raised BrokerError.rate_limit_exceeded) =
      Triple-bind _ _ _ (any_step _) (λ e w h. tt) (λ _. failed_leg-Priced)
  leg_placed-Priced leg quantity (raised BrokerError.timeout) = Triple-pure _ (λ w h price e. cc)
  leg_placed-Priced leg quantity (raised _) = Triple-raise _ (λ w h. tt)

  pub place_leg-Priced :
      (leg : LegIds) (quantity : ℕ)
      → Triple Anything (place_leg b cfg now trade_date leg quantity) Priced
  unfolding place_leg
  place_leg-Priced leg quantity =
      Triple-bind _ _ _ (any_step _) (λ e w h. tt)
        (λ tag. Triple-bind _ _ _ (any_step _) (λ e w h. tt) (leg_placed-Priced leg quantity))
