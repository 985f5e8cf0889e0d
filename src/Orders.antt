-- ===== src/Orders.antt =====
-- src/algo/services/order_update_processor.py and the writes of
-- src/algo/database/repositories/order_repository.py: what a broker's snapshot of an order does to
-- the row of that order. The table of orders is a list of rows.
pub mod Apply
pub mod Settling
pub mod Table
mod Tests
use trading_project.Base.{
  ℕ, ◌+◌, String, Bool, true, false, Option, none, some, List, [], ◌∷◌, any, not, ltb, is_some,
  ◌||◌, ◌&&◌, ◌==◌, string_eq, if◌then◌else◌,
}
use trading_project.Base.Int.{ℤ, pos, int_eq}
use trading_project.Enums.{OrderStatus, order_status_eq}
use trading_project.Models.{Order, Tag, tag_eq}
use trading_project.Broker.{BrokerOrder}

-- `_TERMINAL_STATUSES`
unfoldable pub is_terminal_status : OrderStatus → Bool
is_terminal_status s =
    any (λ t. s == t)
      (OrderStatus.complete ∷ OrderStatus.rejected ∷ OrderStatus.cancelled ∷ OrderStatus.error ∷ [])

pub data OrderUpdateOutcome : Type 0 where
  applied_fill applied_partial_fill applied_rejection applied_cancellation : OrderUpdateOutcome
  no_change already_terminal not_found conflict : OrderUpdateOutcome

-- `a or b` on an optional price, where `None` and zero are false
unfoldable pub price_or : Option ℤ → Option ℤ → Option ℤ
price_or none other = other
price_or (some p) other = if p == pos 0 then other else some p

-- `a or b` on an optional instant, where only `None` is false
abbrev pub instant_or : Option ℕ → ℕ → ℕ
instant_or none now = now
instant_or (some t) _ = t

-- `a or b` on an optional text, where `None` and the empty text are false
abbrev pub text_or : Option String → String → String
text_or none other = other
text_or (some t) other = if t == "" then other else t

-- `if raw_response is not None: order.raw_response = raw_response`
abbrev payload_or : Option String → Option String → Option String
payload_or none old = old
payload_or (some new) _ = some new

abbrev pub price_or_zero : Option ℤ → ℤ
price_or_zero none = pos 0
price_or_zero (some p) = p

unfoldable pub mark_acknowledged : String → ℕ → Order → Order
mark_acknowledged broker_order_id placed_at order = record order {
  broker_order_id = some broker_order_id;
  placed_at = some placed_at;
  status = OrderStatus.opened;
}

unfoldable pub record_fill : OrderStatus → ℕ → ℤ → ℕ → Option String → Order → Order
record_fill status filled_quantity average_price filled_at raw order = record order {
  status = status;
  filled_quantity = filled_quantity;
  average_price = some average_price;
  filled_at = some filled_at;
  raw_response = payload_or raw order.raw_response;
}

unfoldable pub record_rejection : String → Option String → Order → Order
record_rejection error_message raw order = record order {
  status = OrderStatus.rejected;
  error_message = some error_message;
  raw_response = payload_or raw order.raw_response;
}

unfoldable pub record_cancellation : Order → Order
record_cancellation order = record order { status = OrderStatus.cancelled }

-- The broker's id is filled in where the row has none.
unfoldable pub backfill_id : BrokerOrder → Order → Order
backfill_id bo order =
    if not (is_some order.broker_order_id) && not (bo.broker_order_id == "")
    then record order { broker_order_id = some bo.broker_order_id }
    else order

abbrev error_text : OrderStatus → String
error_text OrderStatus.error = "broker error"
error_text _ = "broker rejected"

partial_fill : ℕ → BrokerOrder → Order → Order × OrderUpdateOutcome
unfolding record_fill price_or
partial_fill now bo order =
    if ltb order.filled_quantity bo.filled_quantity
    then (
      record_fill OrderStatus.opened bo.filled_quantity
          (price_or_zero (price_or bo.average_price (price_or order.average_price none)))
          (instant_or bo.filled_at now) bo.raw_response order,
      OrderUpdateOutcome.applied_partial_fill,
    )
    else (order, OrderUpdateOutcome.no_change)

-- the ladder on the broker's status, for a row that is not terminal
apply_status : OrderStatus → ℕ → BrokerOrder → Order → Order × OrderUpdateOutcome
unfolding record_fill record_rejection record_cancellation partial_fill
apply_status OrderStatus.complete now bo order = (
  record_fill OrderStatus.complete bo.filled_quantity
      (price_or_zero (price_or bo.average_price none)) (instant_or bo.filled_at now) bo.raw_response
      order,
  OrderUpdateOutcome.applied_fill,
)
apply_status OrderStatus.rejected now bo order = (
  record_rejection (text_or bo.status_message (error_text bo.status)) bo.raw_response order,
  OrderUpdateOutcome.applied_rejection,
)
apply_status OrderStatus.error now bo order = (
  record_rejection (text_or bo.status_message (error_text bo.status)) bo.raw_response order,
  OrderUpdateOutcome.applied_rejection,
)
apply_status OrderStatus.cancelled now bo order =
    (record_cancellation order, OrderUpdateOutcome.applied_cancellation)
apply_status _ now bo order = partial_fill now bo order

unfoldable pub apply_broker_order_update : Order → BrokerOrder → ℕ → Order × OrderUpdateOutcome
unfolding is_terminal_status backfill_id apply_status
apply_broker_order_update order bo now =
    if is_terminal_status order.status
    then (order, OrderUpdateOutcome.already_terminal)
    else apply_status bo.status now bo (backfill_id bo order)
