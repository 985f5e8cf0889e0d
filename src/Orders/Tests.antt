-- ===== src/Orders/Tests.antt =====
-- Snapshots of one order and of a table of two.
use trading_project.Base.{ℕ, ◌≡◌, refl, true, false, none, some, [], ◌∷◌, ◌||◌, if◌then◌else◌}
use trading_project.Base.Int.{pos}
use trading_project.Enums.{
  Exchange, OptionType, OrderPurpose, OrderStatus, order_status_eq, OrderType, ProductType,
  TransactionType,
}
use trading_project.Models.{Order, Tag}
use trading_project.Broker.{BrokerOrder}
use trading_project.Orders.{is_terminal_status, OrderUpdateOutcome, apply_broker_order_update}
use trading_project.Orders.Apply.{apply_all, apply_idempotent}
use trading_project.Orders.Settling.{Settles, apply_all-Settles}
use trading_project.Orders.Table.{Orders, get_by_id, locate, process, is_quiet, process_quiet}

abbrev tag : Tag
tag = Tag.leg (record {
  purpose = OrderPurpose.entry;
  instance_id = 3;
  trade_date = 20000;
  option_type = OptionType.ce;
  unwind = false;
})

abbrev placed : ℕ → Order
placed id = record {
  id = id;
  trade_id = 5;
  intent_id = some 9;
  purpose = OrderPurpose.entry;
  transaction_type = TransactionType.sell;
  order_type = OrderType.market;
  quantity = 75;
  filled_quantity = 0;
  average_price = none;
  status = OrderStatus.pending;
  broker_order_id = none;
  broker_tag = some tag;
  placed_at = none;
  filled_at = none;
  error_message = none;
  raw_response = none;
  retry_count = 0;
}

abbrev snapshot : OrderStatus → ℕ → BrokerOrder
snapshot status filled = record {
  broker_order_id = "B1";
  tag = some tag;
  status = status;
  exchange = Exchange.nfo;
  tradingsymbol = "NIFTY24000CE";
  transaction_type = TransactionType.sell;
  product = ProductType.normal;
  order_type = OrderType.market;
  quantity = 75;
  filled_quantity = filled;
  average_price = some (pos 1200000);
  trigger_price = none;
  placed_at = none;
  filled_at = some 30;
  exchange_updated_at = none;
  status_message = none;
  raw_response = none;
}

abbrev complete : BrokerOrder
complete = snapshot OrderStatus.complete 75

abbrev partly : BrokerOrder
partly = snapshot OrderStatus.opened 25

partly_then_complete :
    (apply_all ((partly, 1) ∷ (complete, 2) ∷ (partly, 3) ∷ []) (placed 1)).filled_quantity ≡ 75
unfolding apply_all apply_broker_order_update
partly_then_complete = refl

placed_live : is_terminal_status (placed 1).status ≡ false
unfolding is_terminal_status
placed_live = refl

apply_all-Settles_example :
    Settles ((partly, 1) ∷ (complete, 2) ∷ (snapshot OrderStatus.rejected 0, 3) ∷ []) (placed 1) (
      apply_all
        ((partly, 1) ∷ (complete, 2) ∷ (snapshot OrderStatus.rejected 0, 3) ∷ [])
        (placed 1))
apply_all-Settles_example =
    apply_all-Settles ((partly, 1) ∷ (complete, 2) ∷ (snapshot OrderStatus.rejected 0, 3) ∷ [])
      (placed 1) placed_live

apply_idempotent_example :
    let after = (apply_broker_order_update (placed 1) partly 2).0 in
    apply_broker_order_update after partly 8 ≡ (
      after,
      if is_terminal_status OrderStatus.pending || is_terminal_status OrderStatus.opened
          then OrderUpdateOutcome.already_terminal
          else OrderUpdateOutcome.no_change,
    )
apply_idempotent_example = apply_idempotent (placed 1) partly 2 8

abbrev table : Orders
table = record (placed 4) { broker_tag = none } ∷ placed 6 ∷ []

refused_write : is_quiet (process true complete 2 table).0 ≡ true
unfolding process locate get_by_id apply_broker_order_update
refused_write = refl

process_quiet_example : (process true complete 2 table).1 ≡ table
process_quiet_example = process_quiet true complete 2 table refused_write
