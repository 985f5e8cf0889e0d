-- ===== src/Entry/Writes.antt =====
-- The database writes of an entry's orders, of its end in OPEN and of the unwinding of a lone leg.
pub mod Frame
pub mod Opening
pub mod Filling
use trading_project.Base.{
  ℕ, ◌*◌, ◌≡◌, String, Bool, true, false, Option, none, some, ◌==◌, not, if◌then◌else◌,
}
use trading_project.Base.Int.{ℤ, pos, ◌+ℤ◌}
use trading_project.Enums.{
  OptionType, OrderStatus, order_status_eq, PositionState, StateTransitionActor, TradeLegStatus,
  TransactionType,
}
use trading_project.Models.{Position, Trade, OrderIntent, Order, Tag}
use trading_project.Result.{
  Result, ok, err, guard, not_found, runtime_error, missing_fill_price, concurrent_modification,
}
use trading_project.Action.{pure, raise, lift, gets, ◌>>=◌, ◌>>◌, unit_of_work}
use trading_project.Broker.{BrokerOrder}
use trading_project.Orders.{mark_acknowledged, record_rejection}
use trading_project.Orders.Table.{get_by_id}
use trading_project.Runtime.{usable_price}
use trading_project.Premium.Thresholds.{PremiumThresholds}
use trading_project.Store.{
  Db, get_trade_by_id, set_trade, get_intent_or_raise, mark_broker_call_started, mark_placed,
  mark_confirmed, mark_failed, get_or_create_intent, create_order, transition_position,
}
use trading_project.Store.Failure.{same_row}
use trading_project.Entry.{
  EntryConfig, LegIds, LegOutcome, LegResult, DurableRecord, leg_option_type, entry_key, unwind_key,
  validate_tag, leg_result,
}

module _ (cfg : EntryConfig) (now trade_date : ℕ) where
  -- `_place_leg` before its request
  pub begin_leg : LegIds → Db Tag
  begin_leg leg = unit_of_work do
    intent ← get_intent_or_raise leg.intent_id
    mark_broker_call_started leg.intent_id now
    pure intent.broker_tag

  -- `_entry_tag_for` of an order's row
  pub create_entry_order : LegIds → ℕ → (Order → Order) → Db ℕ
  unfolding leg_option_type validate_tag
  create_entry_order leg quantity written = do
    option_type ← lift (leg_option_type leg)
    lift (validate_tag cfg)
    create_order leg.trade_id leg.intent_id (entry_key cfg trade_date option_type)
        TransactionType.sell quantity written

  pub record_leg_rejection : LegIds → Db (Unit {0})
  record_leg_rejection leg = unit_of_work do
    create_entry_order leg (cfg.lots * leg.contract.lot_size) (record_rejection "rejected" none)
    mark_failed leg.intent_id

  -- `_confirm_and_record`: the order's row, and what its state says after the broker's answer
  pub acknowledge_leg : LegIds → ℕ → String → Db ℕ
  acknowledge_leg leg quantity broker_order_id = unit_of_work do
    order_id ← create_entry_order leg quantity (mark_acknowledged broker_order_id now)
    mark_placed leg.intent_id
    pure order_id

  or_no_order : Option Order → Db Order
  or_no_order none = raise not_found
  or_no_order (some order) = pure order

  filled_at_price : Option ℤ → Db LegResult
  filled_at_price none = raise missing_fill_price
  filled_at_price (some price) = pure (leg_result LegOutcome.filled (some price))

  settled_leg : LegIds → Order → Db LegResult
  unfolding filled_at_price
  settled_leg leg order =
      if order.status == OrderStatus.complete
      then filled_at_price (usable_price order.average_price)
      else (do mark_failed leg.intent_id; pure (leg_result LegOutcome.failed none))

  pub settle_leg : LegIds → ℕ → Db LegResult
  unfolding or_no_order settled_leg
  settle_leg leg order_id =
      unit_of_work
        do order ← or_no_order (← gets (λ s. get_by_id order_id s.orders)); settled_leg leg order

  -- the row that `_finalize_open` writes, before the move to OPEN
  abbrev pub filled_row : (ℤ → ℤ) → ℤ → PremiumThresholds → Position → Position
  filled_row to_column entry_premium levels p = record p {
    combined_entry_premium = some entry_premium;
    target_premium = some (to_column levels.target_premium);
    stoploss_premium = some (to_column levels.stoploss_premium);
    entry_completed_at = some now;
  }

  some_trade : Option Trade → Db (Unit {0})
  some_trade none = raise runtime_error
  some_trade (some t) = pure tt

  pub open_trade : LegIds → ℤ → Db (Unit {0})
  unfolding some_trade
  open_trade leg price = do
    some_trade (← get_trade_by_id leg.trade_id)
    set_trade leg.trade_id (λ t. record t {
      entry_price = some price;
      entry_time = some now;
      status = TradeLegStatus.opened;
    })

  open_row :
      (ℤ → ℤ) → Bool → DurableRecord → ℤ → ℤ → PremiumThresholds → Option Position → Db (Unit {0})
  open_row to_column commit_fails durable ce_price pe_price levels none = raise runtime_error
  open_row to_column commit_fails durable ce_price pe_price levels (some p) = do
    open_trade durable.ce ce_price
    open_trade durable.pe pe_price
    transition_position (filled_row to_column (ce_price +ℤ pe_price) levels p) PositionState.opened
        StateTransitionActor.strategy (some "entry filled")
    mark_confirmed durable.ce.intent_id
    mark_confirmed durable.pe.intent_id
    lift (guard (not commit_fails) concurrent_modification)

  pub open_position : (ℤ → ℤ) → Bool → DurableRecord → ℤ → ℤ → PremiumThresholds → Db (Unit {0})
  unfolding open_row
  open_position to_column commit_fails durable ce_price pe_price levels = unit_of_work do
    row ← gets (λ s. same_row durable.position_id s.position)
    open_row to_column commit_fails durable ce_price pe_price levels row

  -- `_auto_unwind` before its request: the intent and its tag
  pub begin_unwind : LegIds → ℕ → Db (ℕ × Tag)
  begin_unwind leg quantity = unit_of_work do
    option_type ← lift (leg_option_type leg)
    lift (validate_tag cfg)
    intent_id ←
        get_or_create_intent (unwind_key cfg trade_date option_type) TransactionType.buy
          leg.trade_id quantity
    intent ← get_intent_or_raise intent_id
    mark_broker_call_started intent_id now
    pure (intent_id, intent.broker_tag)

  abbrev filled_or_now : Option ℕ → ℕ
  filled_or_now none = now
  filled_or_now (some t) = t

  pub unwound : Option BrokerOrder → Bool
  unwound none = false
  unwound (some bo) = bo.status == OrderStatus.complete

  -- the assignments to the leg's row, for an order that filled and for one that did not
  unwound_trade : Option BrokerOrder → Trade → Trade
  unwound_trade none t = record t { status = TradeLegStatus.error }
  unwound_trade (some bo) t =
      if bo.status == OrderStatus.complete
      then record t {
        status = TradeLegStatus.unwound;
        exit_price = bo.average_price;
        exit_time = some (filled_or_now bo.filled_at);
      }
      else record t { status = TradeLegStatus.error }

  pub record_unwind : LegIds → ℕ → Option BrokerOrder → Db Bool
  unfolding unwound unwound_trade
  record_unwind leg intent_id answer = unit_of_work do
    set_trade leg.trade_id (unwound_trade answer)
    if unwound answer then mark_confirmed intent_id else mark_failed intent_id
    pure (unwound answer)
