-- ===== src/Reconciliation/Intents.antt =====
-- reconciliation_engine.py: the order intents in doubt, each resolved against the broker's orders
-- that carry its tag. The clock is read as one instant `now`.
pub mod Settled
pub mod Repairing
use trading_project.Base.{
  ℕ, ◌+◌, String, Bool, true, false, not, ◌||◌, Option, none, some, List, [], ◌∷◌, ◌++◌, ◌==◌, any,
  filter, map, ltb, eqb, is_some, nat_eq, option_eq, if◌then◌else◌,
}
use trading_project.Base.Dict.{Dict}
use trading_project.Base.Int.{ℤ}
use trading_project.Enums.{
  IntentStatus, intent_status_eq, OrderPurpose, OrderStatus, OrderType, TradeLegStatus,
  trade_leg_status_eq, PositionState, ReconciliationBreakType, position_state_eq,
}
use trading_project.Models.{Position, Trade, OrderIntent, Order, Tag}
use trading_project.Broker.{BrokerOrder}
use trading_project.Orders.{
  record_fill, record_rejection, mark_acknowledged, price_or, price_or_zero, instant_or, text_or,
}
use trading_project.Orders.Table.{get_by_broker_order_id, get_by_broker_tag, replace, first_found}
use trading_project.Store.{find_trade, update_trade, find_intent, update_intent}
use trading_project.Reconciliation.{
  Database, Break, ReconciliationItem, ReconciliationOutcome, intent_failed_not_at_broker,
  consistent_no_action, fill_recorded, partial_fill_recorded, rejection_recorded,
  order_still_in_flight, order_row_created, duplicate_orders_detected, the_intent, record_break,
  matches, find_position, error_and_freeze,
}

-- PENDING, SUBMITTED_UNCONFIRMED and PLACED
unfoldable pub in_doubt : IntentStatus → Bool
in_doubt s =
    any (λ t. s == t)
      (IntentStatus.pending ∷ IntentStatus.submitted_unconfirmed ∷ IntentStatus.placed ∷ [])

-- `OrderIntentRepository.list_in_doubt`, the ids
unfoldable pub list_in_doubt : List OrderIntent → List ℕ
list_in_doubt is = map (λ i. i.id) (filter (λ i. in_doubt i.status) is)

-- `mark_placed`, `mark_confirmed`, `mark_failed`: the status of an intent's row
unfoldable pub mark_intent : ℕ → IntentStatus → Database → Database
mark_intent id status d = record d {
  intents = update_intent id (λ i. record i { status = status }) d.intents;
}

abbrev pub item_of : OrderIntent → ReconciliationOutcome → Bool → ReconciliationItem
item_of i outcome broke = record {
  subject = the_intent i.id;
  outcome = outcome;
  break_recorded = broke;
}

-- `OrderRepository.create`, for the row that is missing
abbrev recovered_order : ℕ → OrderIntent → Order
recovered_order id i = record {
  id = id;
  trade_id = i.trade_id;
  intent_id = some i.id;
  purpose = i.purpose;
  transaction_type = i.transaction_type;
  order_type = OrderType.market;
  quantity = i.quantity;
  filled_quantity = 0;
  average_price = none;
  status = OrderStatus.pending;
  broker_order_id = none;
  broker_tag = some i.broker_tag;
  placed_at = none;
  filled_at = none;
  error_message = none;
  raw_response = none;
  retry_count = 0;
}

-- the order's row, whether it was created, and the tables
or_create : Option Order → OrderIntent → Database → (Order × Bool) × Database
or_create (some order) i d = ((order, false), d)
or_create none i d = (
  (recovered_order d.next_id i, true),
  record d { orders = d.orders ++ recovered_order d.next_id i ∷ []; next_id = d.next_id + 1 },
)

unfoldable pub locate_order : OrderIntent → BrokerOrder → Database → (Order × Bool) × Database
unfolding or_create
locate_order i bo d =
    or_create
      (first_found (get_by_broker_order_id bo.broker_order_id d.orders)
        (get_by_broker_tag i.broker_tag d.orders))
      i d

-- `if order.broker_order_id is None: mark_acknowledged(…)`
acknowledged_row : Option String → Order → BrokerOrder → ℕ → Order
acknowledged_row none order bo now =
    mark_acknowledged bo.broker_order_id (instant_or bo.placed_at now) order
acknowledged_row (some _) order bo now = order

unfoldable pub acknowledged : Order → BrokerOrder → ℕ → Order
unfolding acknowledged_row
acknowledged order bo now = acknowledged_row order.broker_order_id order bo now

-- the leg of a fill: an entry opens a PENDING leg, an exit closes an OPEN one
unfoldable pub fill_leg : OrderPurpose → ℤ → ℕ → Trade → Trade
fill_leg OrderPurpose.entry price at t = record t {
  entry_price = some price;
  entry_time = some at;
  status = if t.status == TradeLegStatus.pending then TradeLegStatus.opened else t.status;
}
fill_leg OrderPurpose.exit price at t = record t {
  exit_price = some price;
  exit_time = some at;
  status = if t.status == TradeLegStatus.opened then TradeLegStatus.closed else t.status;
}

-- `_apply_fill`
unfoldable pub apply_fill : OrderIntent → Order → BrokerOrder → ℕ → Database → Database
unfolding fill_leg mark_intent
apply_fill i order bo now d =
    let at = instant_or bo.filled_at now in
    let price = price_or_zero (price_or bo.average_price (price_or order.average_price none)) in
    let filled =
      record_fill OrderStatus.complete bo.filled_quantity price at bo.raw_response order in
    let written = record d {
      orders = replace order.id filled d.orders;
      trades = update_trade i.trade_id (fill_leg i.purpose price at) d.trades;
    } in
    mark_intent i.id IntentStatus.confirmed (mark_intent i.id IntentStatus.placed written)

abbrev pub quantity_break : OrderIntent → Option ℕ → Break
quantity_break i order_id = record {
  break_type = ReconciliationBreakType.quantity_mismatch;
  position_id = none;
  order_id = order_id;
  intent_id = some i.id;
}

-- the broker's order is complete
resolve_complete : OrderIntent → Order → BrokerOrder → ℕ → Database → ReconciliationItem × Database
resolve_complete i order bo now d =
    let filled = apply_fill i order bo now d in
    if eqb bo.filled_quantity i.quantity then (item_of i fill_recorded false, filled) else (
      item_of i partial_fill_recorded true,
      record_break (quantity_break i (some order.id)) filled,
    )

abbrev status_text : OrderStatus → String
status_text OrderStatus.rejected = "REJECTED"
status_text OrderStatus.cancelled = "CANCELLED"
status_text _ = "ERROR"

-- the broker's order is terminal without being complete
resolve_dead : OrderIntent → Order → BrokerOrder → ℕ → Database → ReconciliationItem × Database
resolve_dead i order bo now d =
    if ltb 0 bo.filled_quantity
    then (
      item_of i partial_fill_recorded true,
      record_break (quantity_break i (some order.id)) (apply_fill i order bo now d),
    )
    else (
      item_of i rejection_recorded false,
      mark_intent i.id IntentStatus.failed (record d {
        orders =
            replace order.id
              (record_rejection (text_or bo.status_message (status_text bo.status)) bo.raw_response
                order)
              d.orders;
      }),
    )

by_status :
    OrderStatus
    → OrderIntent
    → Order
    → Bool
    → BrokerOrder
    → ℕ
    → Database
    → ReconciliationItem × Database
unfolding resolve_complete resolve_dead
by_status OrderStatus.complete i order created bo now d = resolve_complete i order bo now d
by_status OrderStatus.rejected i order created bo now d = resolve_dead i order bo now d
by_status OrderStatus.cancelled i order created bo now d = resolve_dead i order bo now d
by_status OrderStatus.error i order created bo now d = resolve_dead i order bo now d
by_status _ i order created bo now d =
    (item_of i (if created then order_row_created else order_still_in_flight) false, d)

-- `_resolve_intent_against_order`
unfoldable pub resolve_intent_against_order :
    OrderIntent → BrokerOrder → ℕ → Database → ReconciliationItem × Database
unfolding by_status
resolve_intent_against_order i bo now d =
    let ((order, created), located) = locate_order i bo d in
    let order' = acknowledged order bo now in
    let known = record located { orders = replace order.id order' located.orders } in
    by_status bo.status i order' created bo now known

-- `_error_position_of_intent`, by the rows that are found
error_position_found : Option Position → String → Database → Database
error_position_found none reason d = d
error_position_found (some p) reason d =
    if p.state == PositionState.closed || p.state == PositionState.error
    then d
    else error_and_freeze p reason d

error_position_of_trade : Option Trade → String → Database → Database
unfolding error_position_found
error_position_of_trade none reason d = d
error_position_of_trade (some t) reason d =
    error_position_found (find_position t.position_id d.positions) reason d

unfoldable pub error_position_of_intent : OrderIntent → String → Database → Database
unfolding error_position_of_trade
error_position_of_intent i reason d =
    error_position_of_trade (find_trade i.trade_id d.trades) reason d

-- the intent, by the orders that carry its tag
unfoldable pub resolve_by_matches :
    OrderIntent → List BrokerOrder → ℕ → Database → ReconciliationItem × Database
resolve_by_matches i [] now d =
    (item_of i intent_failed_not_at_broker false, mark_intent i.id IntentStatus.failed d)
resolve_by_matches i (bo ∷ []) now d = resolve_intent_against_order i bo now d
resolve_by_matches i (_ ∷ _ ∷ _) now d = (
  item_of i duplicate_orders_detected true,
  error_position_of_intent i "duplicate broker orders under one tag"
      (record_break (quantity_break i none) d),
)

-- the intent as it is read again, or what is reported where nothing is left to do
resolve_found :
    ℕ
    → Option OrderIntent
    → Dict Tag (List BrokerOrder)
    → ℕ
    → Database
    → ReconciliationItem × Database
unfolding in_doubt
resolve_found id none grouped now d =
    (record { subject = the_intent id; outcome = consistent_no_action; break_recorded = false }, d)
resolve_found id (some i) grouped now d =
    if in_doubt i.status
    then resolve_by_matches i (matches grouped i.broker_tag) now d
    else (item_of i consistent_no_action false, d)

-- `_reconcile_one_intent`
unfoldable pub reconcile_one_intent :
    Dict Tag (List BrokerOrder) → ℕ → ℕ → Database → ReconciliationItem × Database
unfolding resolve_found
reconcile_one_intent grouped now id d = resolve_found id (find_intent id d.intents) grouped now d

unfoldable pub reconcile_each :
    Dict Tag (List BrokerOrder) → ℕ → List ℕ → Database → List ReconciliationItem × Database
reconcile_each grouped now [] d = ([], d)
reconcile_each grouped now (id ∷ ids) d =
    let (item, d') = reconcile_one_intent grouped now id d in
    let (items, d'') = reconcile_each grouped now ids d' in (item ∷ items, d'')

-- `_reconcile_intents`
unfoldable pub reconcile_intents :
    Dict Tag (List BrokerOrder) → ℕ → Database → List ReconciliationItem × Database
unfolding reconcile_each
reconcile_intents grouped now d = reconcile_each grouped now (list_in_doubt d.intents) d
