-- ===== src/Store/Frame.antt =====
-- Which writes of an entry or an exit leave the position as it is.
use trading_project.Base.{ℕ, ◌≡◌, refl, String, Option, none, some}
use trading_project.Enums.{TransactionType, ReconciliationBreakType}
use trading_project.Models.{Position, Trade, OrderIntent, LegKey, Order}
use trading_project.Broker.{BrokerOrder}
use trading_project.Result.{ok}
use trading_project.Action.{unit_of_work, committed, ◌>>=◌}
use trading_project.Action.Keeps.{Keeps, Keeps-bind, Keeps-gets, keeps_rules}
use trading_project.Store.{
  Store, find_trade, find_intent, get_trade_by_id, set_trade, or_not_found, get_intent_or_raise,
  set_intent, mark_broker_call_started, mark_placed, mark_confirmed, mark_failed, insert_intent,
  get_or_create_intent, create_order, apply_to, reconcile_order_terminal, record_break_row,
  freeze_instance,
}

module _ (q : Option Position) where
  abbrev pub Holds : Store → Type 0
  Holds s = s.position ≡ q

  pub get_trade_by_id-Holds : (id : ℕ) → Keeps Holds (get_trade_by_id id)
  unfolding get_trade_by_id
  get_trade_by_id-Holds id = record { from = λ s h. h }

  pub set_trade-Holds : (id : ℕ) (f : Trade → Trade) → Keeps Holds (set_trade id f)
  unfolding set_trade
  set_trade-Holds id f = record { from = λ s h. h }

  or_not_found-Holds : (o : Option OrderIntent) → Keeps Holds (or_not_found o)
  unfolding or_not_found
  or_not_found-Holds none = record { from = λ s h. h }
  or_not_found-Holds (some i) = record { from = λ s h. h }

  pub get_intent_or_raise-Holds : (id : ℕ) → Keeps Holds (get_intent_or_raise id)
  unfolding get_intent_or_raise
  get_intent_or_raise-Holds id = Keeps-bind _ _ (Keeps-gets _) or_not_found-Holds

  set_intent-Holds : (id : ℕ) (f : OrderIntent → OrderIntent) → Keeps Holds (set_intent id f)
  unfolding set_intent
  set_intent-Holds id f = record { from = λ s h. h }

  pub mark_broker_call_started-Holds : (id at : ℕ) → Keeps Holds (mark_broker_call_started id at)
  unfolding mark_broker_call_started
  mark_broker_call_started-Holds id at =
      Keeps-bind _ _ (get_intent_or_raise-Holds id) (λ _. set_intent-Holds id _)

  pub mark_placed-Holds : (id : ℕ) → Keeps Holds (mark_placed id)
  unfolding mark_placed
  mark_placed-Holds id = Keeps-bind _ _ (get_intent_or_raise-Holds id) (λ _. set_intent-Holds id _)

  pub mark_confirmed-Holds : (id : ℕ) → Keeps Holds (mark_confirmed id)
  unfolding mark_confirmed
  mark_confirmed-Holds id =
      Keeps-bind _ _ (get_intent_or_raise-Holds id) (λ _. set_intent-Holds id _)

  pub mark_failed-Holds : (id : ℕ) → Keeps Holds (mark_failed id)
  unfolding mark_failed
  mark_failed-Holds id = Keeps-bind _ _ (get_intent_or_raise-Holds id) (λ _. set_intent-Holds id _)

  insert_intent-keeps :
      (o : Option OrderIntent) (key : LegKey) (side : TransactionType) (trade_id quantity : ℕ)
      (s : Store)
      → Holds s
      → Holds (insert_intent o key side trade_id quantity s).1
  unfolding insert_intent
  insert_intent-keeps (some i) key side trade_id quantity s h = h
  insert_intent-keeps none key side trade_id quantity s h = h

  pub get_or_create_intent-Holds :
      (key : LegKey) (side : TransactionType) (trade_id quantity : ℕ)
      → Keeps Holds (get_or_create_intent key side trade_id quantity)
  unfolding get_or_create_intent
  get_or_create_intent-Holds key side trade_id quantity = record {
    from = λ s h. insert_intent-keeps _ key side trade_id quantity s h;
  }

  pub create_order-Holds :
      (trade_id intent_id : ℕ) (key : LegKey) (side : TransactionType) (quantity : ℕ)
      (written : Order → Order)
      → Keeps Holds (create_order trade_id intent_id key side quantity written)
  unfolding create_order
  create_order-Holds trade_id intent_id key side quantity written = record { from = λ s h. h }

  apply_to-keeps :
      (o : Option Order) (bo : BrokerOrder) (now : ℕ) (s : Store)
      → Holds s
      → Holds (apply_to o bo now s)
  unfolding apply_to
  apply_to-keeps none bo now s h = h
  apply_to-keeps (some o) bo now s h = h

  pub reconcile_order_terminal-Holds :
      (id : String) (bo : BrokerOrder) (now : ℕ) → Keeps Holds (reconcile_order_terminal id bo now)
  unfolding reconcile_order_terminal
  reconcile_order_terminal-Holds id bo now = record { from = λ s h. apply_to-keeps _ bo now s h }

  pub record_break_row-Holds :
      (kind : ReconciliationBreakType) → Keeps Holds (record_break_row kind)
  unfolding record_break_row
  record_break_row-Holds kind = record { from = λ s h. h }

  pub freeze_instance-Holds : Keeps Holds freeze_instance
  unfolding freeze_instance
  freeze_instance-Holds = record { from = λ s h. h }

pub get_trade_by_id_lem :
    (id : ℕ) (s : Store) → get_trade_by_id id s ≡ (ok (find_trade id s.trades), s)
unfolding get_trade_by_id
get_trade_by_id_lem id s = refl

pub get_intent_or_raise_found :
    (id : ℕ) (i : OrderIntent) (s : Store)
    → find_intent id s.intents ≡ some i
    → unit_of_work (get_intent_or_raise id) s ≡ (ok i, s)
unfolding get_intent_or_raise or_not_found unit_of_work ◌>>=◌ committed
get_intent_or_raise_found id i s h = rw h refl

-- what keeps the position row: the blocks, and the writes to the other tables
pub ruleset frame_rules = (
  keeps_rules, get_trade_by_id-Holds, set_trade-Holds, get_intent_or_raise-Holds,
  mark_broker_call_started-Holds, mark_placed-Holds, mark_confirmed-Holds, mark_failed-Holds,
  get_or_create_intent-Holds, create_order-Holds, reconcile_order_terminal-Holds,
  record_break_row-Holds, freeze_instance-Holds,
)
