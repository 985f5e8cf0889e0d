-- ===== src/Reconciliation/Tests.antt =====
-- Runs of the reconciliation engine, and the theorems at concrete inputs.
use trading_project.Base.{
  ℕ, ◌+◌, ◌≡◌, ◌⊎◌, inl, inr, refl, true, false, none, some, List, [], ◌∷◌, length, All,
}
use trading_project.Base.Int.{pos}
use trading_project.Base.Dict.{Dict}
use trading_project.Enums.{
  Exchange, OptionType, PositionState, TradeLegStatus, OrderPurpose, TransactionType, OrderType,
  ProductType, OrderStatus, IntentStatus, InstanceStatus, StateTransitionActor,
}
use trading_project.Models.{Position, Trade, OrderIntent, Tag, LegKey, tag_eq}
use trading_project.Result.{Result, ok}
use trading_project.Broker.{
  BrokerOrder, BrokerResult, returned, raised, connection, order_not_found,
}
use trading_project.Broker.Contract.{BrokerBase}
use trading_project.Store.{find_intent, update_trade, update_intent}
use trading_project.Orders.{price_or}
use trading_project.Orders.Table.{get_by_broker_order_id, get_by_broker_tag}
use trading_project.Action.{◌>>=◌, unit_of_work}
use trading_project.Reconciliation.{
  Database, ReconciliationItem, the_intent, the_position, fill_recorded, entry_finalized,
  breaks_recorded, group_orders_by_tag, find_position, update_position, move_position, record_break,
}
use trading_project.Reconciliation.Repairs.{
  IsAllowed, is_done, IsTrace, Counted, Counted-IsTrace, Orderly, Orderly-IsTrace,
  move_position-Repairs,
}
use trading_project.Reconciliation.Positions.Repairing.{KeepsTo}
use trading_project.Position.{is_transition_allowed_for_actor}
use trading_project.Reconciliation.Intents.{
  in_doubt, reconcile_intents, list_in_doubt, reconcile_one_intent, resolve_by_matches,
  resolve_intent_against_order, locate_order, apply_fill,
}
use trading_project.Reconciliation.Intents.Settled.{Awaits, reconcile_intents-Awaits}
use trading_project.Reconciliation.Orphans.{detect_orphans_and_duplicates, orphan_item}
use trading_project.Reconciliation.Positions.{
  PositionReconciler, reconcile_positions, reconcile_one_position, reconcile_entry_pending,
  finalize_entry,
}
use trading_project.Reconciliation.Engine.{repair, reconcile}
use trading_project.Reconciliation.Engine.Report.{reconcile-breaks_recorded, reconcile-audited}

abbrev ce_entry : LegKey
ce_entry = record {
  purpose = OrderPurpose.entry;
  instance_id = 1;
  trade_date = 20000;
  option_type = OptionType.ce;
  unwind = false;
}

-- an entry whose call of the broker was made and never confirmed
abbrev doubtful : OrderIntent
doubtful = record {
  id = 4;
  trade_id = 3;
  purpose = OrderPurpose.entry;
  transaction_type = TransactionType.sell;
  quantity = 75;
  idempotency_key = ce_entry;
  broker_tag = Tag.leg ce_entry;
  status = IntentStatus.submitted_unconfirmed;
  broker_call_started_at = some 100;
}

abbrev ce_leg : Trade
ce_leg = record {
  id = 3;
  position_id = 2;
  option_type = OptionType.ce;
  trading_symbol = "NIFTY24000CE";
  exchange = Exchange.nfo;
  strike = pos 240000000;
  quantity = 75;
  entry_price = none;
  exit_price = none;
  entry_time = none;
  exit_time = none;
  realized_pnl = none;
  status = TradeLegStatus.pending;
}

abbrev entering : Position
entering = record {
  id = 2;
  strategy_instance_id = 1;
  trade_date = 20000;
  state = PositionState.entry_pending;
  expiry_date = none;
  strike = none;
  strike_interval = none;
  lots = none;
  lot_size = none;
  quantity = some 75;
  entry_spot_ltp = none;
  target_pct = none;
  sl_pct = none;
  combined_entry_premium = none;
  target_premium = none;
  stoploss_premium = none;
  combined_exit_premium = none;
  exit_reason = none;
  realized_pnl = none;
  entry_signal_time = none;
  entry_completed_at = none;
  exit_signal_time = none;
  exit_completed_at = none;
  error_message = none;
  needs_reconciliation = false;
}

abbrev crashed : Database
crashed = record {
  positions = entering ∷ [];
  trades = ce_leg ∷ [];
  intents = doubtful ∷ [];
  orders = [];
  audit = [];
  breaks = [];
  instances = (1, InstanceStatus.active) ∷ [];
  next_id = 5;
}

abbrev at_broker : OrderStatus → ℕ → Tag → BrokerOrder
at_broker status filled t = record {
  broker_order_id = "B1";
  tag = some t;
  status = status;
  exchange = Exchange.nfo;
  tradingsymbol = "NIFTY24000CE";
  transaction_type = TransactionType.sell;
  product = ProductType.intraday;
  order_type = OrderType.market;
  quantity = 75;
  filled_quantity = filled;
  average_price = some (pos 1000000);
  trigger_price = none;
  placed_at = none;
  filled_at = none;
  exchange_updated_at = none;
  status_message = none;
  raw_response = none;
}

-- a broker with one order, which an outage of its order book hides
abbrev one_order : BrokerResult (List BrokerOrder) → BrokerBase
one_order orders = record {
  State = Unit {0};
  authenticate = λ timeout s. (returned tt, s);
  health_check = λ timeout s. (raised connection, s);
  place_order = λ r timeout s. (raised connection, s);
  modify_order = λ r timeout s. (raised connection, s);
  cancel_order = λ id timeout s. (raised connection, s);
  get_order = λ id timeout s. (raised order_not_found, s);
  get_orders = λ timeout s. (orders, s);
  find_order_by_tag = λ t timeout s. (returned none, s);
  get_positions = λ timeout s. (returned [], s);
  get_holdings = λ timeout s. (returned [], s);
  get_margins = λ timeout s. (raised connection, s);
  get_quote = λ is timeout s. (returned [], s);
  get_ltp = λ is timeout s. (returned [], s);
  get_instrument = λ e t timeout s. (raised connection, s);
  find_option_contract = λ q timeout s. (raised connection, s);
  list_option_expiries = λ u e timeout s. (returned none, s);
  is_authenticated = λ s. true;
  close = λ s. s;
  connect_websocket = λ timeout s. (returned tt, s);
  disconnect_websocket = λ s. s;
  is_websocket_connected = λ s. false;
}

abbrev in_flight : List BrokerOrder
in_flight = at_broker OrderStatus.opened 0 (Tag.leg ce_entry) ∷ []

abbrev in_groups : Dict Tag (List BrokerOrder)
in_groups = (Tag.leg ce_entry, in_flight) ∷ []

still_doubtful : find_intent 4 (reconcile_intents in_groups 200 crashed).1.intents ≡ some doubtful
unfolding reconcile_intents list_in_doubt in_doubt find_intent reconcile_one_intent
    resolve_by_matches resolve_intent_against_order locate_order get_by_broker_order_id
    get_by_broker_tag
still_doubtful = refl

doubtful_in_doubt : in_doubt doubtful.status ≡ true
unfolding in_doubt
doubtful_in_doubt = refl

reconcile_intents-Awaits_example : Awaits in_groups doubtful
reconcile_intents-Awaits_example =
    reconcile_intents-Awaits in_groups 200 crashed 4 doubtful still_doubtful doubtful_in_doubt

-- the broker has filled the order, and the leg is opened
filled_leg :
    (reconcile_intents
      ((Tag.leg ce_entry, at_broker OrderStatus.complete 75 (Tag.leg ce_entry) ∷ []) ∷ [])
      200
      crashed).1.trades
    ≡ record ce_leg {
      entry_price = some (pos 1000000);
      entry_time = some 200;
      status = TradeLegStatus.opened;
    }
      ∷ []
unfolding reconcile_intents list_in_doubt in_doubt find_intent reconcile_one_intent
    resolve_by_matches resolve_intent_against_order locate_order get_by_broker_order_id
    get_by_broker_tag apply_fill price_or update_trade
filled_leg = refl

-- The order of the only leg is still open at the broker, and its position is closed all the same.
closed_in_flight :
    (repair none 200 in_flight (some []) crashed).1.positions
    ≡ record entering { state = PositionState.closed } ∷ []
unfolding repair group_orders_by_tag reconcile_intents list_in_doubt in_doubt find_intent
    reconcile_one_intent resolve_by_matches resolve_intent_against_order locate_order
    get_by_broker_order_id get_by_broker_tag detect_orphans_and_duplicates reconcile_positions ◌>>=◌
    reconcile_one_position unit_of_work find_position reconcile_entry_pending move_position
    update_position
closed_in_flight = refl

-- a database that knows nothing of the broker's order
abbrev empty : Database
empty = record {
  positions = [];
  trades = [];
  intents = [];
  orders = [];
  audit = [];
  breaks = [];
  instances = [];
  next_id = 1;
}

abbrev stray : List BrokerOrder
stray = at_broker OrderStatus.complete 75 (Tag.text "X1") ∷ []

-- A reconciler that makes the move that is due, as recovery.
abbrev completing : PositionReconciler
completing = record {
  finalize_entry = λ p d. (ok tt, move_position p PositionState.opened "entry finalized" d);
  finalize_exit = λ p d. (ok tt, move_position p PositionState.closed "exit finalized" d);
}

pending_live :
    (s t : PositionState)
    → (s ≡ PositionState.entry_pending) × (t ≡ PositionState.opened)
      ⊎ (s ≡ PositionState.exit_pending) × (t ≡ PositionState.closed)
    → (is_done s ≡ false)
      × (is_transition_allowed_for_actor s t StateTransitionActor.recovery ≡ true)
unfolding is_transition_allowed_for_actor
pending_live s t (inl (from_entry, to_open)) = rw (from_entry, to_open) (refl, refl)
pending_live s t (inr (from_exit, to_closed)) = rw (from_exit, to_closed) (refl, refl)

module _ (R : ℕ → Database → Database → Type 0) (laws : IsTrace R) where
  completing-KeepsTo : KeepsTo R completing
  completing-KeepsTo = record {
    entry = λ p d found pending.
        let (live, allowed) = pending_live p.state PositionState.opened (inl (pending, refl)) in
        laws.of_repairs
          (move_position-Repairs p p d found live PositionState.opened "entry finalized" allowed);
    exit = λ p d found pending.
        let (live, allowed) = pending_live p.state PositionState.closed (inr (pending, refl)) in
        laws.of_repairs
          (move_position-Repairs p p d found live PositionState.closed "exit finalized" allowed);
  }

abbrev filled_and_stray : List BrokerOrder
filled_and_stray = at_broker OrderStatus.complete 75 (Tag.leg ce_entry) ∷ stray

abbrev recovered : Result (List ReconciliationItem) × Unit {0} × Database
recovered = reconcile (one_order (returned filled_and_stray)) (some completing) 200 tt crashed

-- The same run again, on what the first has left: the break is recorded twice.
recorded_again :
    length
      (detect_orphans_and_duplicates
        ((Tag.text "X1", stray) ∷ [])
        (detect_orphans_and_duplicates ((Tag.text "X1", stray) ∷ []) empty).1).1.breaks
    ≡ 2
unfolding detect_orphans_and_duplicates record_break
recorded_again = refl

reconcile-audited_example :
    (All IsAllowed [] → All IsAllowed recovered.2.audit)
    × ((j : ℕ) (p : Position)
        → find_position j (entering ∷ []) ≡ some p
        → is_done p.state ≡ true
        → find_position j recovered.2.positions ≡ some p)
reconcile-audited_example =
    reconcile-audited (one_order (returned filled_and_stray)) (some completing) 200 tt crashed
      (completing-KeepsTo Orderly Orderly-IsTrace)

-- The fill is recorded, the reconciler finalizes the entry, and the stray order is a break.
abbrev items : List ReconciliationItem
items =
    record { subject = the_intent 4; outcome = fill_recorded; break_recorded = false }
    ∷ orphan_item (Tag.text "X1")
    ∷ record { subject = the_position 2; outcome = entry_finalized; break_recorded = false }
    ∷ []

recovered_items : recovered.0 ≡ ok items
unfolding reconcile repair group_orders_by_tag reconcile_intents list_in_doubt in_doubt find_intent
    reconcile_one_intent resolve_by_matches resolve_intent_against_order locate_order
    get_by_broker_order_id get_by_broker_tag apply_fill price_or update_trade
    detect_orphans_and_duplicates reconcile_positions ◌>>=◌ record_break reconcile_one_position
    unit_of_work find_position reconcile_entry_pending finalize_entry move_position update_position
    update_intent
recovered_items = refl

reconcile-breaks_recorded_example : length recovered.2.breaks ≡ 0 + breaks_recorded items
reconcile-breaks_recorded_example =
    reconcile-breaks_recorded (one_order (returned filled_and_stray)) (some completing) 200 tt
      crashed (completing-KeepsTo Counted Counted-IsTrace) items recovered_items
