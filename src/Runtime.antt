-- ===== src/Runtime.antt =====
-- What the procedures of a strategy run on: the database, the broker, and the lock of the exit. The
-- broker is a parameter.
pub mod Frame
pub mod Recording
use trading_project.Base.{
  ℕ, zero, suc, ◌≡◌, String, Bool, true, false, Option, none, some, List, [], ◌∷◌, ◌++◌, all, any,
  is_some, not, ◌||◌, nat_eq, ◌==◌, if◌then◌else◌,
}
use trading_project.Base.Int.{ℤ, pos, leb_ℤ}
use trading_project.Base.Dict.{Dict, values}
use trading_project.Enums.{
  OptionType, PositionState, position_state_eq, ExitReason, TradeLegStatus, StateTransitionActor,
  OrderStatus, ReconciliationBreakType,
}
use trading_project.Models.{Position, Trade, OrderIntent, LegKey, Tag}
use trading_project.Result.{
  Result, ok, err, guard, value_error, missing_fill_price, runtime_error, broker_error,
  concurrent_modification,
}
use trading_project.Action.{Action, pure, raise, lift, gets, ◌>>=◌, ◌>>◌, unit_of_work}
use trading_project.Broker.{
  PlaceOrderRequest, BrokerOrder, BrokerError, BrokerResult, returned, raised,
}
use trading_project.Orders.{is_terminal_status}
use trading_project.Store.{
  Store, Db, get_intent_or_raise, mark_broker_call_started, mark_failed, set_position,
  transition_position, record_break_row, freeze_instance,
}

-- The part of `BrokerBase` that the procedures use.
pub record BrokerPort : Type 1 where
  pub State : Type 0
  pub place_order : PlaceOrderRequest → State → BrokerResult String × State
  pub get_order : String → State → BrokerResult BrokerOrder × State
  pub find_order_by_tag : Tag → State → BrokerResult (Option BrokerOrder) × State

-- `price is None or price <= 0`, turned round: the usable price
unfoldable pub usable_price : Option ℤ → Option ℤ
usable_price none = none
usable_price (some p) = if leb_ℤ p (pos 0) then none else some p

module _ (b : BrokerPort) where
  -- The database, the broker, and the lock of `ExitLogic`.
  pub record World : Type 0 where
    pub store : Store
    pub broker : b.State
    pub locked : Bool

  abbrev pub Run : Type 0 → Type 0
  Run A = Action World A

  module _ {A : Type 0} where
    -- `try: … except Exception`: what a unit of work raises is handed on as a value
    unfoldable pub try_store : Db A → Run (Result A)
    try_store m w = let (r, s) = m w.store in (ok r, record w { store = s })

    unfoldable pub in_store : Db A → Run A
    in_store m w = let (r, s) = m w.store in (r, record w { store = s })

    -- a call of the broker: what it raises is handed on as a value
    unfoldable pub ask : (b.State → BrokerResult A × b.State) → Run (BrokerResult A)
    ask call w = let (r, s) = call w.broker in (ok r, record w { broker = s })

  terminal_only : BrokerResult BrokerOrder → Option BrokerOrder
  terminal_only (returned bo) = if is_terminal_status bo.status then some bo else none
  terminal_only (raised _) = none

  -- `_poll_until_terminal`, by the polls that are left
  unfoldable pub poll : ℕ → String → Run (Option BrokerOrder)
  unfolding terminal_only
  poll zero id = pure none
  poll (suc n) id =
      let rest = poll n id in
      do
        answer ← ask (b.get_order id)
        elim (terminal_only answer) [ some bo ↦ pure (some bo) | none ↦ rest ]
