-- ===== src/Exit/Flow.antt =====
-- `ExitLogic`: preparing the exit, closing each leg at the broker, and recording the outcome.
-- The broker is a parameter. One instant `now` stands for all reads of the clock in a call, and
-- `commit_fails` is the database's answer to the final write; the other units of work are taken to
-- commit. Messages of results and logs, and the hooks that report a closed trade, have no model.
pub mod Frame
use trading_project.Base.{
  ℕ, zero, suc, ◌+◌, ◌≡◌, String, Bool, true, false, Option, none, some, List, [], ◌∷◌, ◌++◌, not,
  any, all, ltb, is_some, nat_eq, ◌==◌, ◌&&◌, ◌||◌, if◌then◌else◌,
}
use trading_project.Base.Int.{ℤ, pos, ◌+ℤ◌, leb_ℤ}
use trading_project.Base.Dict.{Dict, insert, values}
use trading_project.Enums.{
  Exchange, OptionType, option_type_eq, PositionState, position_state_eq, ExitReason,
  TradeLegStatus, trade_leg_status_eq, OrderPurpose, TransactionType, OrderType, ProductType,
  OrderStatus, order_status_eq, StateTransitionActor, ReconciliationBreakType,
}
use trading_project.Models.{Position, Trade, OrderIntent, LegKey, Tag}
use trading_project.Result.{
  Result, ok, err, guard, value_error, missing_fill_price, runtime_error, not_found, broker_error,
}
use trading_project.Action.{Action, pure, raise, lift, gets, ◌>>=◌, ◌>>◌, unit_of_work}
use trading_project.Broker.{
  PlaceOrderRequest, BrokerOrder, BrokerError, BrokerResult, returned, raised,
}
use trading_project.Orders.{is_terminal_status, mark_acknowledged, record_rejection}
use trading_project.Exit.Decision.{compute_leg_realized_pnl}
use trading_project.Store.{
  Store, Db, get_trade_by_id, set_trade, set_position, get_intent_or_raise,
  mark_broker_call_started, mark_placed, mark_confirmed, mark_failed, get_or_create_intent,
  create_order, reconcile_order_terminal, transition_position, record_break_row, freeze_instance,
}

pub record ExitConfig : Type 0 where
  pub instance_id : ℕ
  pub product_type : ProductType
  pub fill_attempts : ℕ
  pub close_attempts : ℕ

pub data ExitOutcome : Type 0 where
  exited skipped_already_closed skipped_exit_in_progress not_open : ExitOutcome
  partial_exit_error ambiguous_error persistence_divergence : ExitOutcome

pub record ExitResult : Type 0 where
  pub outcome : ExitOutcome
  pub position_id : Option ℕ
  pub realized_pnl : Option ℤ

pub data LegCloseOutcome : Type 0 where
  closed failed ambiguous : LegCloseOutcome

pub record LegCloseResult : Type 0 where
  pub outcome : LegCloseOutcome
  pub exit_price : Option ℤ

-- `_ExitLegIds`
pub record ExitLeg : Type 0 where
  pub trade_id : ℕ
  pub intent_id : ℕ
  pub tradingsymbol : String
  pub exchange : Exchange
  pub option_type : OptionType
  pub quantity : ℕ

-- `_PreparedExit | ExitResult`
pub data Prepared : Type 0 where
  prepared : ℕ → Dict OptionType ExitLeg → Prepared
  finished : ExitResult → Prepared

-- `_ACTOR_BY_REASON`
unfoldable pub actor_by_reason : ExitReason → StateTransitionActor
actor_by_reason ExitReason.kill_switch = StateTransitionActor.kill_switch
actor_by_reason ExitReason.manual = StateTransitionActor.manual
actor_by_reason _ = StateTransitionActor.strategy

abbrev pub leg_result : LegCloseOutcome → Option ℤ → LegCloseResult
leg_result outcome price = record { outcome = outcome; exit_price = price }

abbrev pub result : ExitOutcome → Option ℕ → ExitResult
result outcome id = record { outcome = outcome; position_id = id; realized_pnl = none }

module _ (cfg : ExitConfig) (now trade_date : ℕ) where
  -- `_idempotency_key`, and the parts of `_broker_tag`
  abbrev pub leg_key : OptionType → LegKey
  leg_key option_type = record {
    purpose = OrderPurpose.exit;
    instance_id = cfg.instance_id;
    trade_date = trade_date;
    option_type = option_type;
    unwind = false;
  }

  -- The tag X<instance>-<yymmdd>-<type> has at most 20 characters up to nine digits of the instance.
  tag_fits : Result (Unit {0})
  tag_fits = guard (ltb cfg.instance_id 1000000000) value_error

  -- the loop over the trades of the position
  pub prepare_legs : List Trade → Dict OptionType ExitLeg → Db (Dict OptionType ExitLeg)
  unfolding tag_fits
  prepare_legs [] legs = pure legs
  prepare_legs (t ∷ ts) legs = do
    lift tag_fits
    intent_id ← get_or_create_intent (leg_key t.option_type) TransactionType.buy t.id t.quantity
    prepare_legs ts (
        insert t.option_type
          (record {
            trade_id = t.id;
            intent_id = intent_id;
            tradingsymbol = t.trading_symbol;
            exchange = t.exchange;
            option_type = t.option_type;
            quantity = t.quantity;
          })
          legs)

  prepare_position : ExitReason → Position → PositionState → Db Prepared
  prepare_position reason p PositionState.closed =
      pure (finished (result ExitOutcome.skipped_already_closed (some p.id)))
  prepare_position reason p PositionState.opened = do
    transition_position p PositionState.exit_pending (actor_by_reason reason)
        (some "exit triggered")
    legs ← prepare_legs (← gets (λ s. s.trades)) []
    pure (prepared p.id legs)
  prepare_position reason p PositionState.exit_pending = do
    legs ← prepare_legs (← gets (λ s. s.trades)) []
    pure (prepared p.id legs)
  prepare_position reason p _ = pure (finished (result ExitOutcome.not_open (some p.id)))

  prepare_found : ExitReason → Option Position → Db Prepared
  prepare_found reason none = pure (finished (result ExitOutcome.not_open none))
  prepare_found reason (some p) = prepare_position reason p p.state

  -- `get_by_instance_and_date`: the row, if it is of the instance and of the date
  pub position_of_day : Option Position → Option Position
  position_of_day none = none
  position_of_day (some p) =
      if p.strategy_instance_id == cfg.instance_id && p.trade_date == trade_date
      then some p
      else none

  pub prepare_exit : ExitReason → Db Prepared
  unfolding prepare_position prepare_found
  prepare_exit reason = do prepare_found reason (position_of_day (← gets (λ s. s.position)))

  -- the assignments of `_record_close_fill` to a leg
  abbrev closed_trade : ℤ → ℕ → Trade → Trade
  closed_trade exit_price at t = record t {
    exit_price = some exit_price;
    exit_time = some at;
    realized_pnl = elim t.entry_price [
      | none ↦ t.realized_pnl
      | some entry ↦ some (compute_leg_realized_pnl entry exit_price t.quantity)
    ];
    status = TradeLegStatus.closed;
  }

  abbrev filled_or_now : Option ℕ → ℕ
  filled_or_now none = now
  filled_or_now (some t) = t

  trade_exists : Option Trade → Db (Unit {0})
  trade_exists none = raise runtime_error
  trade_exists (some _) = pure tt

  record_close_fill_row : ExitLeg → ℤ → ℕ → Db (Unit {0})
  unfolding trade_exists
  record_close_fill_row leg exit_price at = do
    trade_exists (← get_trade_by_id leg.trade_id)
    set_trade leg.trade_id (closed_trade exit_price at)
    mark_confirmed leg.intent_id

  pub record_close_fill : ExitLeg → String → ℤ → BrokerOrder → Db (Unit {0})
  unfolding record_close_fill_row
  record_close_fill leg broker_order_id exit_price bo = do
    unit_of_work (reconcile_order_terminal broker_order_id bo (filled_or_now bo.filled_at))
    unit_of_work (record_close_fill_row leg exit_price (filled_or_now bo.filled_at))

  -- `_record_close_rejection`, for a close that the broker refused at once
  pub record_refused_close : ExitLeg → Db (Unit {0})
  record_refused_close leg = unit_of_work do
    lift tag_fits
    create_order leg.trade_id leg.intent_id (leg_key leg.option_type) TransactionType.buy
        leg.quantity (record_rejection "rejected" none)
    mark_failed leg.intent_id

  -- and for an order that was acknowledged and then rejected or cancelled
  pub record_rejected_close : ExitLeg → String → BrokerOrder → Db (Unit {0})
  record_rejected_close leg broker_order_id bo = do
    unit_of_work (reconcile_order_terminal broker_order_id bo now)
    unit_of_work (mark_failed leg.intent_id)

  pub acknowledge_close : ExitLeg → String → Db (Unit {0})
  acknowledge_close leg broker_order_id = unit_of_work do
    lift tag_fits
    create_order leg.trade_id leg.intent_id (leg_key leg.option_type) TransactionType.buy
        leg.quantity (mark_acknowledged broker_order_id now)
    mark_placed leg.intent_id

  -- the tag is that of the leg's intent
  abbrev pub close_request : ExitLeg → Tag → PlaceOrderRequest
  close_request leg broker_tag = record {
    exchange = leg.exchange;
    tradingsymbol = leg.tradingsymbol;
    transaction_type = TransactionType.buy;
    quantity = leg.quantity;
    product = cfg.product_type;
    order_type = OrderType.market;
    price = none;
    trigger_price = none;
    tag = broker_tag;
  }

  -- what `_close_leg` reads before it goes to the broker
  leg_status : ExitLeg → Option Trade → Db (TradeLegStatus × Option ℤ)
  leg_status leg none = raise runtime_error
  leg_status leg (some t) = pure (t.status, t.exit_price)

  pub read_leg : ExitLeg → Db (TradeLegStatus × Option ℤ)
  unfolding leg_status
  read_leg leg = do leg_status leg (← get_trade_by_id leg.trade_id)
