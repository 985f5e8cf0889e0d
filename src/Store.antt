-- ===== src/Store.antt =====
-- What the entry and the exit of one instance read and write in the database: today's position with
-- its legs, their intents and orders, the audit rows, the reconciliation breaks and the instance's
-- status; and the repository methods over them. The identifiers of new rows come from one counter.
pub mod Frame
pub mod Moves
pub mod Failure
use trading_project.Base.{
  ℕ, ◌+◌, ◌≡◌, String, Bool, true, false, Option, none, some, List, [], ◌∷◌, ◌++◌, eqb, not,
  is_some, ◌==◌, nat_eq, string_eq, option_eq, if◌then◌else◌,
}
use trading_project.Base.Int.{ℤ}
use trading_project.Enums.{
  PositionState, ExitReason, InstanceStatus, instance_status_eq, TradeLegStatus, OrderPurpose,
  TransactionType, OrderType, OrderStatus, IntentStatus, StateTransitionActor,
  ReconciliationBreakType,
}
use trading_project.Models.{
  Position, PositionStateTransition, Trade, LegKey, leg_key_eq, Tag, OrderIntent, Order,
}
use trading_project.Result.{Result, ok, err, not_found}
use trading_project.Action.{Action, pure, raise, lift, gets, ◌>>=◌, ◌>>◌}
use trading_project.Broker.{BrokerOrder}
use trading_project.Orders.{
  apply_broker_order_update, mark_acknowledged, record_rejection, OrderUpdateOutcome,
}
use trading_project.Orders.Table.{get_by_broker_order_id, replace}
use trading_project.Position.{transition}

pub record Store : Type 0 where
  pub position : Option Position
  pub trades : List Trade
  pub intents : List OrderIntent
  pub orders : List Order
  pub audit : List PositionStateTransition
  pub breaks : List ReconciliationBreakType
  pub instance_status : Option InstanceStatus
  pub next_id : ℕ

abbrev pub Db : Type 0 → Type 0
Db A = Action Store A

-- The write of a changed object back to the row that it was read from.
unfoldable pub find_trade : ℕ → List Trade → Option Trade
find_trade id [] = none
find_trade id (t ∷ ts) = if eqb t.id id then some t else find_trade id ts

unfoldable pub update_trade : ℕ → (Trade → Trade) → List Trade → List Trade
update_trade id f [] = []
update_trade id f (t ∷ ts) = if eqb t.id id then f t ∷ ts else t ∷ update_trade id f ts

unfoldable pub find_intent : ℕ → List OrderIntent → Option OrderIntent
find_intent id [] = none
find_intent id (i ∷ is) = if eqb i.id id then some i else find_intent id is

unfoldable pub find_intent_by_key : LegKey → List OrderIntent → Option OrderIntent
find_intent_by_key key [] = none
find_intent_by_key key (i ∷ is) =
    if i.idempotency_key == key then some i else find_intent_by_key key is

unfoldable pub update_intent : ℕ → (OrderIntent → OrderIntent) → List OrderIntent → List OrderIntent
update_intent id f [] = []
update_intent id f (i ∷ is) = if eqb i.id id then f i ∷ is else i ∷ update_intent id f is

-- `get_trade_by_id`
pub get_trade_by_id : ℕ → Db (Option Trade)
get_trade_by_id id = gets (λ s. find_trade id s.trades)

pub set_trade : ℕ → (Trade → Trade) → Db (Unit {0})
set_trade id f s = (ok tt, record s { trades = update_trade id f s.trades })

pub set_position : Position → Db (Unit {0})
set_position p s = (ok tt, record s { position = some p })

-- `OrderIntentRepository.get_by_id_or_raise`
or_not_found : Option OrderIntent → Db OrderIntent
or_not_found none = raise not_found
or_not_found (some i) = pure i

pub get_intent_or_raise : ℕ → Db OrderIntent
unfolding or_not_found
get_intent_or_raise id = do or_not_found (← gets (λ s. find_intent id s.intents))

set_intent : ℕ → (OrderIntent → OrderIntent) → Db (Unit {0})
set_intent id f s = (ok tt, record s { intents = update_intent id f s.intents })

abbrev with_status : IntentStatus → OrderIntent → OrderIntent
with_status status i = record i { status = status }

pub mark_broker_call_started : ℕ → ℕ → Db (Unit {0})
unfolding set_intent
mark_broker_call_started id started_at = do
  get_intent_or_raise id
  set_intent id (λ i. record i {
    broker_call_started_at = some started_at;
    status = IntentStatus.submitted_unconfirmed;
  })

pub mark_placed : ℕ → Db (Unit {0})
unfolding set_intent
mark_placed id = do get_intent_or_raise id; set_intent id (with_status IntentStatus.placed)

pub mark_confirmed : ℕ → Db (Unit {0})
unfolding set_intent
mark_confirmed id = do get_intent_or_raise id; set_intent id (with_status IntentStatus.confirmed)

pub mark_failed : ℕ → Db (Unit {0})
unfolding set_intent
mark_failed id = do get_intent_or_raise id; set_intent id (with_status IntentStatus.failed)

-- `OrderIntentRepository.get_or_create`: an intent of a leg's key, with the side of its order
abbrev new_intent : ℕ → LegKey → TransactionType → ℕ → ℕ → OrderIntent
new_intent id key side trade_id quantity = record {
  id = id;
  trade_id = trade_id;
  purpose = key.purpose;
  transaction_type = side;
  quantity = quantity;
  idempotency_key = key;
  broker_tag = Tag.leg key;
  status = IntentStatus.pending;
  broker_call_started_at = none;
}

insert_intent : Option OrderIntent → LegKey → TransactionType → ℕ → ℕ → Db ℕ
insert_intent (some i) key side trade_id quantity s = (ok i.id, s)
insert_intent none key side trade_id quantity s = (
  ok s.next_id,
  record s {
    intents = s.intents ++ new_intent s.next_id key side trade_id quantity ∷ [];
    next_id = s.next_id + 1;
  },
)

pub get_or_create_intent : LegKey → TransactionType → ℕ → ℕ → Db ℕ
unfolding insert_intent
get_or_create_intent key side trade_id quantity s =
    insert_intent (find_intent_by_key key s.intents) key side trade_id quantity s

-- `OrderRepository.create` of a market order, and what is written to the new row at once
abbrev new_order : ℕ → ℕ → ℕ → LegKey → TransactionType → ℕ → Order
new_order id trade_id intent_id key side quantity = record {
  id = id;
  trade_id = trade_id;
  intent_id = some intent_id;
  purpose = key.purpose;
  transaction_type = side;
  order_type = OrderType.market;
  quantity = quantity;
  filled_quantity = 0;
  average_price = none;
  status = OrderStatus.pending;
  broker_order_id = none;
  broker_tag = some (Tag.leg key);
  placed_at = none;
  filled_at = none;
  error_message = none;
  raw_response = none;
  retry_count = 0;
}

pub create_order : ℕ → ℕ → LegKey → TransactionType → ℕ → (Order → Order) → Db ℕ
create_order trade_id intent_id key side quantity written s = (
  ok s.next_id,
  record s {
    orders = s.orders ++ written (new_order s.next_id trade_id intent_id key side quantity) ∷ [];
    next_id = s.next_id + 1;
  },
)

-- `reconcile_order_terminal` of services/order_update_processor.py
apply_to : Option Order → BrokerOrder → ℕ → Store → Store
apply_to none bo now s = s
apply_to (some order) bo now s = record s {
  orders = replace order.id (apply_broker_order_update order bo now).0 s.orders;
}

pub reconcile_order_terminal : String → BrokerOrder → ℕ → Db (Unit {0})
unfolding apply_to
reconcile_order_terminal broker_order_id bo now s =
    (ok tt, apply_to (get_by_broker_order_id broker_order_id s.orders) bo now s)

-- `PositionStateMachine.transition` on the session's position
moved_to : Position → Option (Position × PositionStateTransition) → Store → Store
moved_to p none s = record s { position = some p }
moved_to p (some (p', row)) s = record s { position = some p'; audit = s.audit ++ row ∷ [] }

transition_result : Position → Result (Option (Position × PositionStateTransition)) → Db (Unit {0})
unfolding moved_to
transition_result p (err e) s = (err e, s)
transition_result p (ok moved) s = (ok tt, moved_to p moved s)

pub transition_position :
    Position → PositionState → StateTransitionActor → Option String → Db (Unit {0})
unfolding transition_result
transition_position p to_state actor reason =
    transition_result p (transition false p to_state actor reason)

unfoldable pub record_break_row : ReconciliationBreakType → Db (Unit {0})
record_break_row kind s = (ok tt, record s { breaks = s.breaks ++ kind ∷ [] })

-- `if instance is not None and instance.status is not FROZEN: set_status(FROZEN)`
abbrev pub frozen_status : Option InstanceStatus → Option InstanceStatus
frozen_status none = none
frozen_status (some _) = some InstanceStatus.frozen

unfoldable pub freeze_instance : Db (Unit {0})
freeze_instance s = (ok tt, record s { instance_status = frozen_status s.instance_status })
