-- ===== src/Orders/Apply.antt =====
-- One snapshot on one row: what it keeps, and what it can never undo.
use trading_project.Base.{
  ℕ, ◌≡◌, ◌⊎◌, inl, inr, refl, ◌||◌, true, false, List, [], ◌∷◌, arith, string_eq, max,
  if◌then◌else◌, ◌==◌, Bool-cases,
}
use trading_project.Enums.{OrderStatus, order_status_eq}
use trading_project.Models.{Order}
use trading_project.Broker.{BrokerOrder}
use trading_project.Orders.{
  is_terminal_status, OrderUpdateOutcome, apply_broker_order_update, backfill_id, apply_status,
  partial_fill,
}

-- The row after a history of snapshots, each with the instant it arrived at.
unfoldable pub apply_all : List (BrokerOrder × ℕ) → Order → Order
apply_all [] order = order
apply_all ((bo, now) ∷ rest) order = apply_all rest (apply_broker_order_update order bo now).0

-- A row in a terminal status is never written again, whatever snapshots arrive.
pub apply_all_terminal :
    (updates : List (BrokerOrder × ℕ)) (order : Order)
    → is_terminal_status order.status ≡ true
    → apply_all updates order ≡ order
unfolding apply_all
apply_all_terminal [] order h = refl
apply_all_terminal ((bo, now) ∷ rest) order h =
    let same : (apply_broker_order_update order bo now).0 ≡ order =
      unfold apply_broker_order_update in rw h in
    rw same (apply_all_terminal rest order h)

-- What a snapshot says of the final fate of its order.
abbrev pub fate : OrderStatus → OrderStatus
fate OrderStatus.error = OrderStatus.rejected
fate s = s

-- A terminal snapshot settles a row that is not yet terminal, in the status it names, with ERROR
-- recorded as a rejection, and a COMPLETE one with the quantity it reports.
pub apply-settles :
    (order : Order) (bo : BrokerOrder) (now : ℕ)
    → is_terminal_status order.status ≡ false
    → is_terminal_status bo.status ≡ true
    → let after = (apply_broker_order_update order bo now).0 in
      (after.status ≡ fate bo.status)
      × (after.filled_quantity ≡ (
          if bo.status == OrderStatus.complete then bo.filled_quantity else order.filled_quantity))
unfolding apply_broker_order_update
apply-settles order bo now h k = ground arith

-- A snapshot that is not terminal moves the filled quantity up or not at all, and writes no status
-- but OPEN.
pub apply-advances :
    (order : Order) (bo : BrokerOrder) (now : ℕ)
    → is_terminal_status bo.status ≡ false
    → let after = (apply_broker_order_update order bo now).0 in
      (after.filled_quantity ≡ (
        if is_terminal_status order.status
        then order.filled_quantity
        else max order.filled_quantity bo.filled_quantity))
      × ((after.status ≡ order.status) ⊎ (after.status ≡ OrderStatus.opened))
unfolding apply_broker_order_update
apply-advances order bo now h = ground arith

apply_of_terminal :
    (order : Order) (bo : BrokerOrder) (now : ℕ)
    → is_terminal_status order.status ≡ true
    → apply_broker_order_update order bo now ≡ (order, OrderUpdateOutcome.already_terminal)
unfolding apply_broker_order_update
apply_of_terminal order bo now h = rw h

pub apply_terminal_terminal :
    (order : Order) (bo : BrokerOrder) (now : ℕ)
    → is_terminal_status bo.status ≡ true
    → is_terminal_status (apply_broker_order_update order bo now).0.status ≡ true
unfolding apply_broker_order_update
apply_terminal_terminal order bo now h = ground arith

apply_status_open :
    (s : OrderStatus) (now : ℕ) (bo : BrokerOrder) (order : Order)
    → is_terminal_status s ≡ false
    → apply_status s now bo order ≡ partial_fill now bo order
unfolding apply_status is_terminal_status
apply_status_open OrderStatus.pending now bo order h = refl
apply_status_open OrderStatus.opened now bo order h = refl
apply_status_open OrderStatus.complete now bo order h = cc
apply_status_open OrderStatus.rejected now bo order h = cc
apply_status_open OrderStatus.cancelled now bo order h = cc
apply_status_open OrderStatus.error now bo order h = cc

backfill_again :
    (bo : BrokerOrder) (now : ℕ) (order : Order)
    → let after = (partial_fill now bo (backfill_id bo order)).0 in backfill_id bo after ≡ after
unfolding backfill_id partial_fill
backfill_again bo now order = ground arith

partial_fill_again :
    (bo : BrokerOrder) (now later : ℕ) (order : Order)
    → let after = (partial_fill now bo order).0 in
      partial_fill later bo after ≡ (after, OrderUpdateOutcome.no_change)
unfolding partial_fill
partial_fill_again bo now later order = ground arith

partial_fill-not_terminal :
    (bo : BrokerOrder) (now : ℕ) (order : Order)
    → is_terminal_status order.status ≡ false
    → is_terminal_status (partial_fill now bo (backfill_id bo order)).0.status ≡ false
unfolding is_terminal_status partial_fill backfill_id
partial_fill-not_terminal bo now order h = ground arith

apply_open :
    (order : Order) (bo : BrokerOrder) (now : ℕ)
    → is_terminal_status order.status ≡ false
    → is_terminal_status bo.status ≡ false
    → apply_broker_order_update order bo now ≡ partial_fill now bo (backfill_id bo order)
apply_open order bo now h k =
    unfold apply_broker_order_update in rw h (apply_status_open bo.status now bo _ k)

-- and the row stays one that is not terminal
pub apply_open-not_terminal :
    (order : Order) (bo : BrokerOrder) (now : ℕ)
    → is_terminal_status order.status ≡ false
    → is_terminal_status bo.status ≡ false
    → is_terminal_status (apply_broker_order_update order bo now).0.status ≡ false
apply_open-not_terminal order bo now h k =
    rw (apply_open order bo now h k) (partial_fill-not_terminal bo now order h)

apply_twice_open :
    (order : Order) (bo : BrokerOrder) (now later : ℕ)
    → is_terminal_status order.status ≡ false
    → is_terminal_status bo.status ≡ false
    → let after = (apply_broker_order_update order bo now).0 in
      apply_broker_order_update after bo later ≡ (after, OrderUpdateOutcome.no_change)
apply_twice_open order bo now later h k = rw (apply_open order bo now h k) (
    rw
      (apply_open (partial_fill now bo (backfill_id bo order)).0 bo later
        (partial_fill-not_terminal bo now order h) k)
      (rw (backfill_again bo now order) (partial_fill_again bo now later (backfill_id bo order))))

-- Applying a snapshot a second time, at whatever instant, changes nothing and reports so: the
-- outcome is ALREADY_TERMINAL if the row or the snapshot is terminal, and NO_CHANGE otherwise.
pub apply_idempotent :
    (order : Order) (bo : BrokerOrder) (now later : ℕ)
    → let after = (apply_broker_order_update order bo now).0 in
      apply_broker_order_update after bo later ≡ (
        after,
        if is_terminal_status order.status || is_terminal_status bo.status
            then OrderUpdateOutcome.already_terminal
            else OrderUpdateOutcome.no_change,
      )
apply_idempotent order bo now later = elim (Bool-cases (is_terminal_status order.status)) [
  | inl row ↦
      rw row (rw (apply_of_terminal order bo now row) (apply_of_terminal order bo later row))
  | inr row ↦ elim (Bool-cases (is_terminal_status bo.status)) [
    | inl snapshot ↦
        rw (row, snapshot)
          (apply_of_terminal _ bo later (apply_terminal_terminal order bo now snapshot))
    | inr snapshot ↦ rw (row, snapshot) (apply_twice_open order bo now later row snapshot)
  ]
]
