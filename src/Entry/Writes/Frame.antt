-- ===== src/Entry/Writes/Frame.antt =====
-- The writes of an entry that leave the position row as it is.
use trading_project.Base.{ℕ, String, Option, none, some}
use trading_project.Base.Int.{ℤ}
use trading_project.Models.{Position, Trade, Order}
use trading_project.Broker.{BrokerOrder}
use trading_project.Action.Keeps.{Keeps, Keeps-raise, Keeps-pure}
use trading_project.Store.Frame.{Holds, frame_rules}
use trading_project.Entry.{EntryConfig, LegIds}
use trading_project.Entry.Writes.{
  begin_leg, create_entry_order, record_leg_rejection, acknowledge_leg, or_no_order,
  filled_at_price, settled_leg, settle_leg, some_trade, open_trade, begin_unwind, record_unwind,
}

module _ (cfg : EntryConfig) (now trade_date : ℕ) (q : Option Position) where
  pub begin_leg-Holds : (leg : LegIds) → Keeps (Holds q) (begin_leg cfg now trade_date leg)
  unfolding begin_leg
  begin_leg-Holds leg = search frame_rules

  create_entry_order-Holds :
      (leg : LegIds) (quantity : ℕ) (written : Order → Order)
      → Keeps (Holds q) (create_entry_order cfg now trade_date leg quantity written)
  unfolding create_entry_order
  create_entry_order-Holds leg quantity written = search frame_rules

  pub record_leg_rejection-Holds :
      (leg : LegIds) → Keeps (Holds q) (record_leg_rejection cfg now trade_date leg)
  unfolding record_leg_rejection
  record_leg_rejection-Holds leg = search (frame_rules, create_entry_order-Holds)

  pub acknowledge_leg-Holds :
      (leg : LegIds) (quantity : ℕ) (id : String)
      → Keeps (Holds q) (acknowledge_leg cfg now trade_date leg quantity id)
  unfolding acknowledge_leg
  acknowledge_leg-Holds leg quantity id = search (frame_rules, create_entry_order-Holds)

  or_no_order-Holds : (o : Option Order) → Keeps (Holds q) (or_no_order cfg now trade_date o)
  unfolding or_no_order
  or_no_order-Holds none = Keeps-raise _
  or_no_order-Holds (some order) = Keeps-pure order

  filled_at_price-Holds : (o : Option ℤ) → Keeps (Holds q) (filled_at_price cfg now trade_date o)
  unfolding filled_at_price
  filled_at_price-Holds none = Keeps-raise _
  filled_at_price-Holds (some price) = Keeps-pure _

  settled_leg-Holds :
      (leg : LegIds) (order : Order) → Keeps (Holds q) (settled_leg cfg now trade_date leg order)
  unfolding settled_leg
  settled_leg-Holds leg order = search (frame_rules, filled_at_price-Holds)

  pub settle_leg-Holds :
      (leg : LegIds) (order_id : ℕ) → Keeps (Holds q) (settle_leg cfg now trade_date leg order_id)
  unfolding settle_leg
  settle_leg-Holds leg order_id = search (frame_rules, or_no_order-Holds, settled_leg-Holds)

  some_trade-Holds : (o : Option Trade) → Keeps (Holds q) (some_trade cfg now trade_date o)
  unfolding some_trade
  some_trade-Holds none = Keeps-raise _
  some_trade-Holds (some t) = Keeps-pure tt

  pub open_trade-Holds :
      (leg : LegIds) (price : ℤ) → Keeps (Holds q) (open_trade cfg now trade_date leg price)
  unfolding open_trade
  open_trade-Holds leg price = search (frame_rules, some_trade-Holds)

  pub begin_unwind-Holds :
      (leg : LegIds) (quantity : ℕ) → Keeps (Holds q) (begin_unwind cfg now trade_date leg quantity)
  unfolding begin_unwind
  begin_unwind-Holds leg quantity = search frame_rules depth 12

  pub record_unwind-Holds :
      (leg : LegIds) (intent_id : ℕ) (answer : Option BrokerOrder)
      → Keeps (Holds q) (record_unwind cfg now trade_date leg intent_id answer)
  unfolding record_unwind
  record_unwind-Holds leg intent_id answer = search frame_rules
