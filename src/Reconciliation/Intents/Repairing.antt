-- ===== src/Reconciliation/Intents/Repairing.antt =====
-- reconciliation_engine.py: resolving intents records a break exactly where the item says so.
use trading_project.Base.{
  ℕ, ◌≡◌, inl, inr, refl, String, Bool, Option, none, some, List, [], ◌∷◌, ◌==◌, ◌||◌, ltb, eqb,
  Bool-cases, sym,
}
use mathlib.Core.Path.{subst}
use trading_project.Base.Dict.{Dict}
use trading_project.Enums.{OrderStatus, PositionState, position_state_eq}
use trading_project.Models.{Position, Trade, OrderIntent, Order, Tag}
use trading_project.Broker.{BrokerOrder}
use trading_project.Orders.Table.{replace, first_found, get_by_broker_order_id, get_by_broker_tag}
use trading_project.Store.{find_trade, find_intent}
use trading_project.Reconciliation.{
  Database, ReconciliationItem, record_break, find_position, breaks_recorded, matches,
}
use trading_project.Reconciliation.Repairs.{
  Repairs, breaks_of, Repairs-cons, Repairs-then, Repairs-refl, Repairs-trans, Repairs-elsewhere,
  record_break-Repairs, error_and_freeze-Repairs, find_position-id,
}
use trading_project.Reconciliation.Intents.{
  mark_intent, locate_order, or_create, acknowledged, apply_fill, quantity_break, by_status,
  resolve_complete, resolve_dead, resolve_intent_against_order, error_position_found,
  error_position_of_trade, error_position_of_intent, resolve_by_matches, resolve_found, in_doubt,
  reconcile_one_intent, reconcile_each, reconcile_intents, list_in_doubt,
}

-- The step records a break if its item says so, and none otherwise.
abbrev pub Honest : Database → ReconciliationItem × Database → Type 0
Honest d r = Repairs (breaks_of r.0) d r.1

apply_fill-Repairs :
    (i : OrderIntent) (order : Order) (bo : BrokerOrder) (now : ℕ) (d : Database)
    → Repairs 0 d (apply_fill i order bo now d)
unfolding apply_fill
apply_fill-Repairs i order bo now d = Repairs-elsewhere d _ refl refl refl

module _ (i : OrderIntent) (order : Order) (bo : BrokerOrder) (now : ℕ) (d : Database) where
  resolve_complete-Honest : Honest d (resolve_complete i order bo now d)
  unfolding resolve_complete
  resolve_complete-Honest = elim (Bool-cases (eqb bo.filled_quantity i.quantity)) [
    | inl full ↦ rw full (apply_fill-Repairs i order bo now d)
    | inr part ↦ rw part (
        Repairs-trans (apply_fill-Repairs i order bo now d)
          (record_break-Repairs (quantity_break i (some order.id)) _))
  ]

  resolve_dead-Honest : Honest d (resolve_dead i order bo now d)
  unfolding resolve_dead mark_intent
  resolve_dead-Honest = elim (Bool-cases (ltb 0 bo.filled_quantity)) [
    | inl part ↦ rw part (
        Repairs-trans (apply_fill-Repairs i order bo now d)
          (record_break-Repairs (quantity_break i (some order.id)) _))
    | inr unfilled ↦ rw unfilled (Repairs-elsewhere d _ refl refl refl)
  ]

  by_status-Honest :
      (status : OrderStatus) (created : Bool) → Honest d (by_status status i order created bo now d)
  unfolding by_status
  by_status-Honest OrderStatus.complete created = resolve_complete-Honest
  by_status-Honest OrderStatus.rejected created = resolve_dead-Honest
  by_status-Honest OrderStatus.cancelled created = resolve_dead-Honest
  by_status-Honest OrderStatus.error created = resolve_dead-Honest
  by_status-Honest OrderStatus.pending created = Repairs-refl d
  by_status-Honest OrderStatus.opened created = Repairs-refl d

or_create-Repairs :
    (o : Option Order) (i : OrderIntent) (d : Database) → Repairs 0 d (or_create o i d).1
unfolding or_create
or_create-Repairs none i d = Repairs-elsewhere d _ refl refl refl
or_create-Repairs (some order) i d = Repairs-refl d

abbrev sought : OrderIntent → BrokerOrder → Database → Option Order
sought i bo d =
    first_found (get_by_broker_order_id bo.broker_order_id d.orders)
      (get_by_broker_tag i.broker_tag d.orders)

resolve_intent_against_order-Honest :
    (i : OrderIntent) (bo : BrokerOrder) (now : ℕ) (d : Database)
    → Honest d (resolve_intent_against_order i bo now d)
unfolding resolve_intent_against_order locate_order
resolve_intent_against_order-Honest i bo now d =
    let ((order, created), located) = locate_order i bo d in
    let order' = acknowledged order bo now in
    let known = record located { orders = replace order.id order' located.orders } in
    Repairs-then (or_create-Repairs (sought i bo d) i d) (
      Repairs-then (Repairs-elsewhere located known refl refl refl)
        (by_status-Honest i order' bo now known bo.status created))

error_position_found-Repairs :
    (id : ℕ) (o : Option Position) (reason : String) (d : Database)
    → find_position id d.positions ≡ o
    → Repairs 0 d (error_position_found o reason d)
unfolding error_position_found
error_position_found-Repairs id none reason d e = Repairs-refl d
error_position_found-Repairs id (some p) reason d e =
    elim (Bool-cases (p.state == PositionState.closed || p.state == PositionState.error)) [
      | inl over ↦ rw over (Repairs-refl d)
      | inr live ↦ rw live (
          error_and_freeze-Repairs p reason d
            (subst (λ k. find_position k d.positions ≡ some p)
              (sym (find_position-id id d.positions p e)) e)
            live)
    ]

error_position_of_trade-Repairs :
    (o : Option Trade) (reason : String) (d : Database)
    → Repairs 0 d (error_position_of_trade o reason d)
unfolding error_position_of_trade
error_position_of_trade-Repairs none reason d = Repairs-refl d
error_position_of_trade-Repairs (some t) reason d =
    error_position_found-Repairs t.position_id (find_position t.position_id d.positions) reason d
      refl

resolve_by_matches-Honest :
    (i : OrderIntent) (found : List BrokerOrder) (now : ℕ) (d : Database)
    → Honest d (resolve_by_matches i found now d)
unfolding resolve_by_matches error_position_of_intent mark_intent
resolve_by_matches-Honest i [] now d = Repairs-elsewhere d _ refl refl refl
resolve_by_matches-Honest i (bo ∷ []) now d = resolve_intent_against_order-Honest i bo now d
resolve_by_matches-Honest i (a ∷ b ∷ rest) now d =
    let broken = record_break (quantity_break i none) d in
    Repairs-trans (record_break-Repairs (quantity_break i none) d)
      (error_position_of_trade-Repairs (find_trade i.trade_id broken.trades) _ broken)

nothing_recorded : (d : Database) → Repairs (breaks_recorded []) d d
unfolding breaks_recorded
nothing_recorded d = Repairs-refl d

module _ (grouped : Dict Tag (List BrokerOrder)) (now : ℕ) where
  resolve_found-Honest :
      (id : ℕ) (o : Option OrderIntent) (d : Database) → Honest d (resolve_found id o grouped now d)
  unfolding resolve_found
  resolve_found-Honest id none d = Repairs-refl d
  resolve_found-Honest id (some i) d = elim (Bool-cases (in_doubt i.status)) [
    | inl doubt ↦ rw doubt (resolve_by_matches-Honest i (matches grouped i.broker_tag) now d)
    | inr decided ↦ rw decided (Repairs-refl d)
  ]

  reconcile_each-Repairs :
      (ids : List ℕ) (d : Database)
      → Repairs
          (breaks_recorded (reconcile_each grouped now ids d).0)
          d
          (reconcile_each grouped now ids d).1
  unfolding reconcile_each reconcile_one_intent
  reconcile_each-Repairs [] d = nothing_recorded d
  reconcile_each-Repairs (id ∷ ids) d =
      Repairs-cons _ _ (resolve_found-Honest id (find_intent id d.intents) d)
        (reconcile_each-Repairs ids _)

  pub reconcile_intents-Repairs :
      (d : Database)
      → Repairs
          (breaks_recorded (reconcile_intents grouped now d).0)
          d
          (reconcile_intents grouped now d).1
  unfolding reconcile_intents
  reconcile_intents-Repairs d = reconcile_each-Repairs (list_in_doubt d.intents) d
