-- ===== src/Entry/Procedure/Legs.antt =====
-- The orders that an entry sends for one leg: one order, or none where it raised before.
use trading_project.Base.{ℕ, List, [], ◌∷◌, ◌++◌, String, Option, none, some}
use trading_project.Enums.{TransactionType}
use trading_project.Models.{Position, Tag}
use trading_project.Result.{Error, Result, err}
use trading_project.Action.Keeps.{Keeps, Keeps-bind, Keeps-raise, Keeps-pure, keeps_rules}
use trading_project.Action.Triple.{Triple, Triple-bind, Keeps-then, Keeps-Triple}
use trading_project.Broker.{
  PlaceOrderRequest, BrokerOrder, BrokerError, BrokerResult, returned, raised,
}
use trading_project.Store.Frame.{mark_failed-Holds, reconcile_order_terminal-Holds}
use trading_project.Runtime.{BrokerPort, World}
use trading_project.Runtime.Frame.{in_store-Stays, poll-Stays}
use trading_project.Runtime.Recording.{recording, At, recording_reads, ask-sends}
use trading_project.Entry.{EntryConfig, LegIds, leg_request}
use trading_project.Entry.Writes.Frame.{
  begin_leg-Holds, record_leg_rejection-Holds, acknowledge_leg-Holds, settle_leg-Holds,
  begin_unwind-Holds, record_unwind-Holds,
}
use trading_project.Entry.Procedure.{
  confirm_polled, confirm_and_record, failed_leg, leg_placed, place_leg, unwind_placed, auto_unwind,
}

module _ (b : BrokerPort) (cfg : EntryConfig) (now trade_date : ℕ) (l : List PlaceOrderRequest)
    (q : Option Position) where
  abbrev Good : {A : Type 0} → (World (recording b) → Result A × World (recording b)) → Type 0
  Good m = Keeps (At b l q) m

  confirm_polled-At :
      (leg : LegIds) (order_id : ℕ) (id : String) (o : Option BrokerOrder)
      → Good (confirm_polled (recording b) cfg now trade_date leg order_id id o)
  unfolding confirm_polled
  confirm_polled-At leg order_id id none = Keeps-pure _
  confirm_polled-At leg order_id id (some bo) =
      search (keeps_rules, in_store-Stays, reconcile_order_terminal-Holds, settle_leg-Holds)

  confirm_and_record-At :
      (leg : LegIds) (quantity : ℕ) (id : String)
      → Good (confirm_and_record (recording b) cfg now trade_date leg quantity id)
  unfolding confirm_and_record
  confirm_and_record-At leg quantity id =
      Keeps-bind _ _
        (in_store-Stays _ _ q _ (acknowledge_leg-Holds cfg now trade_date q leg quantity id))
        (λ order_id.
          Keeps-bind _ _ (poll-Stays _ _ (recording_reads b l) q _ id)
            (confirm_polled-At leg order_id id))

  leg_placed-At :
      (leg : LegIds) (quantity : ℕ) (r : BrokerResult String)
      → Good (leg_placed (recording b) cfg now trade_date leg quantity r)
  unfolding leg_placed failed_leg
  leg_placed-At leg quantity (returned id) = confirm_and_record-At leg quantity id
  leg_placed-At leg quantity (raised BrokerError.order_rejected) =
      search (keeps_rules, in_store-Stays, record_leg_rejection-Holds)
  leg_placed-At leg quantity (raised BrokerError.invalid_order_request) =
      search (keeps_rules, in_store-Stays, record_leg_rejection-Holds)
  leg_placed-At leg quantity (raised BrokerError.connection) =
      search (keeps_rules, in_store-Stays, mark_failed-Holds)
  leg_placed-At leg quantity (raised BrokerError.rate_limit_exceeded) =
      search (keeps_rules, in_store-Stays, mark_failed-Holds)
  leg_placed-At leg quantity (raised BrokerError.timeout) = Keeps-pure _
  leg_placed-At leg quantity (raised _) = Keeps-raise _

  unwind_placed-At :
      (leg : LegIds) (intent_id : ℕ) (r : BrokerResult String)
      → Good (unwind_placed (recording b) cfg now trade_date leg intent_id r)
  unfolding unwind_placed
  unwind_placed-At leg intent_id (raised e) = Keeps-pure _
  unwind_placed-At leg intent_id (returned id) =
      Keeps-bind _ _ (poll-Stays _ _ (recording_reads b l) q _ id)
        (λ o. in_store-Stays _ _ q _ (record_unwind-Holds cfg now trade_date q leg intent_id o))

-- One order more, of a request up to its tag; or none, where the step raised before it.
pub data Sends (b : BrokerPort) (l : List PlaceOrderRequest) (q : Option Position)
    (request : Tag → PlaceOrderRequest) {A : Type 0} : Result A → World (recording b) → Type 0 where
  sent :
      {r : Result A} {w : World (recording b)} (tag : Tag)
      → At b (l ++ request tag ∷ []) q w
      → Sends b l q request r w
  unsent : {e : Error} {w : World (recording b)} → At b l q w → Sends b l q request (err e) w

module _ (b : BrokerPort) (cfg : EntryConfig) (now trade_date : ℕ) (l : List PlaceOrderRequest)
    (q : Option Position) (leg : LegIds) (quantity : ℕ) where
  pub place_leg-Sends :
      Triple
        (At b l q)
        (place_leg (recording b) cfg now trade_date leg quantity)
        (Sends b l q (leg_request cfg TransactionType.sell leg quantity))
  unfolding place_leg
  place_leg-Sends =
      Keeps-then _ _ (in_store-Stays _ _ q _ (begin_leg-Holds cfg now trade_date q leg))
        (λ e w h. unsent h)
        (λ tag.
          let l' = l ++ leg_request cfg TransactionType.sell leg quantity tag ∷ [] in
          Triple-bind (λ _. At b l' q) _ _ (ask-sends b l q _) (λ e w h. sent tag h)
            (λ answer.
              Keeps-Triple _ (leg_placed-At b cfg now trade_date l' q leg quantity answer)
                (λ r w h. sent tag h) (λ e w h. sent tag h)))

  pub auto_unwind-Sends :
      Triple
        (At b l q)
        (auto_unwind (recording b) cfg now trade_date leg quantity)
        (Sends b l q (leg_request cfg TransactionType.buy leg quantity))
  unfolding auto_unwind
  auto_unwind-Sends =
      Keeps-then _ _ (in_store-Stays _ _ q _ (begin_unwind-Holds cfg now trade_date q leg quantity))
        (λ e w h. unsent h)
        (λ begun.
          let l' = l ++ leg_request cfg TransactionType.buy leg quantity begun.1 ∷ [] in
          Triple-bind (λ _. At b l' q) _ _ (ask-sends b l q _) (λ e w h. sent begun.1 h)
            (λ answer.
              Keeps-Triple _ (unwind_placed-At b cfg now trade_date l' q leg begun.0 answer)
                (λ r w h. sent begun.1 h) (λ e w h. sent begun.1 h)))
