-- ===== src/Exit/Procedure/Frame.antt =====
-- Closing legs: it never touches the position row, and it keeps whatever the broker's calls keep.
use trading_project.Base.{ℕ, zero, suc, String, Option, none, some, List, [], ◌∷◌}
use trading_project.Base.Int.{ℤ}
use trading_project.Enums.{TradeLegStatus}
use trading_project.Models.{Position, OrderIntent, Tag}
use trading_project.Result.{Error, Result, err}
use trading_project.Broker.{
  PlaceOrderRequest, BrokerOrder, BrokerError, BrokerResult, returned, raised,
}
use trading_project.Action.Keeps.{
  Keeps, Keeps-bind, Keeps-raise, Keeps-pure, Keeps-if, Keeps-unit_of_work,
}
use trading_project.Store.Frame.{
  mark_failed-Holds, mark_broker_call_started-Holds, get_intent_or_raise-Holds,
}
use trading_project.Runtime.{BrokerPort, World}
use trading_project.Runtime.Frame.{Stays, ReadsKeep, in_store-Stays, ask-Stays, poll-Stays}
use trading_project.Exit.Flow.{ExitConfig, LegCloseResult, ExitLeg, close_request}
use trading_project.Exit.Flow.Frame.{
  record_close_fill-Holds, record_refused_close-Holds, record_rejected_close-Holds,
  acknowledge_close-Holds, read_leg-Holds,
}
use trading_project.Exit.Procedure.{
  complete_close, adopt_polled, adopt_found, adopt_existing_order, confirm_polled, confirm_close,
  placed, place_close, place_close_with_retries, or_place, adopt_or_place, close_open_leg,
  close_read_leg, close_leg, close_legs,
}

module _ (b : BrokerPort) (P : b.State → Type 0) (reads : ReadsKeep b P) (q : Option Position)
    (cfg : ExitConfig) (now trade_date : ℕ) where
  abbrev Good : {A : Type 0} → (World b → Result A × World b) → Type 0
  Good m = Keeps (Stays b P q) m

  complete_close-Stays :
      (leg : ExitLeg) (id : String) (bo : BrokerOrder) (price : Option ℤ)
      → Good (complete_close b cfg now trade_date leg id bo price)
  unfolding complete_close
  complete_close-Stays leg id bo none = Keeps-pure _
  complete_close-Stays leg id bo (some p) =
      Keeps-bind _ _
        (in_store-Stays b P q _ (record_close_fill-Holds cfg now trade_date q leg id p bo))
        (λ _. Keeps-pure _)

  adopt_polled-Stays :
      (leg : ExitLeg) (o : Option BrokerOrder) → Good (adopt_polled b cfg now trade_date leg o)
  unfolding adopt_polled
  adopt_polled-Stays leg none = Keeps-pure _
  adopt_polled-Stays leg (some bo) = Keeps-if _ _ _ (complete_close-Stays leg _ bo _) (Keeps-pure _)

  pub adopt_found-Stays :
      (leg : ExitLeg) (r : BrokerResult (Option BrokerOrder))
      → Good (adopt_found b cfg now trade_date leg r)
  unfolding adopt_found
  adopt_found-Stays leg (raised e) = Keeps-pure _
  adopt_found-Stays leg (returned none) = Keeps-pure _
  adopt_found-Stays leg (returned (some existing)) =
      Keeps-bind _ _ (poll-Stays b P reads q _ _)
        (λ o. Keeps-bind _ _ (adopt_polled-Stays leg o) (λ r. Keeps-pure _))

  adopt_existing_order-Stays :
      (leg : ExitLeg) (tag : Tag) → Good (adopt_existing_order b cfg now trade_date leg tag)
  unfolding adopt_existing_order
  adopt_existing_order-Stays leg tag =
      Keeps-bind _ _ (ask-Stays b P q _ (reads.find_order tag)) (adopt_found-Stays leg)

  confirm_polled-Stays :
      (leg : ExitLeg) (id : String) (o : Option BrokerOrder)
      → Good (confirm_polled b cfg now trade_date leg id o)
  unfolding confirm_polled
  confirm_polled-Stays leg id none = Keeps-pure _
  confirm_polled-Stays leg id (some bo) = Keeps-if _ _ _ (complete_close-Stays leg id bo _) (
      Keeps-bind _ _
        (in_store-Stays b P q _ (record_rejected_close-Holds cfg now trade_date q leg id bo))
        (λ _. Keeps-pure _))

  confirm_close-Stays :
      (leg : ExitLeg) (id : String) → Good (confirm_close b cfg now trade_date leg id)
  unfolding confirm_close
  confirm_close-Stays leg id =
      Keeps-bind _ _ (in_store-Stays b P q _ (acknowledge_close-Holds cfg now trade_date q leg id))
        (λ _. Keeps-bind _ _ (poll-Stays b P reads q _ id) (confirm_polled-Stays leg id))

  refused-Stays :
      (leg : ExitLeg)
      → Good (
          placed b cfg now trade_date leg
            (λ w. (err Error.broker_error, w))
            (raised BrokerError.order_rejected))
  unfolding placed
  refused-Stays leg =
      Keeps-bind _ _ (in_store-Stays b P q _ (record_refused_close-Holds cfg now trade_date q leg))
        (λ _. Keeps-pure _)

  placed-Stays :
      (leg : ExitLeg) (again : World b → Result LegCloseResult × World b) (r : BrokerResult String)
      → Good again
      → Good (placed b cfg now trade_date leg again r)
  unfolding placed
  placed-Stays leg again (returned id) k = confirm_close-Stays leg id
  placed-Stays leg again (raised BrokerError.order_rejected) k = refused-Stays leg
  placed-Stays leg again (raised BrokerError.invalid_order_request) k = refused-Stays leg
  placed-Stays leg again (raised BrokerError.connection) k = k
  placed-Stays leg again (raised BrokerError.rate_limit_exceeded) k = k
  placed-Stays leg again (raised BrokerError.timeout) k = Keeps-pure _
  placed-Stays leg again (raised _) k = Keeps-raise _

  -- From here on placing an order must keep the fact too.
  module _ (places : (r : PlaceOrderRequest) (s : b.State) → P s → P (b.place_order r s).1) where
    place_close-Stays :
        (n : ℕ) (leg : ExitLeg) (tag : Tag) → Good (place_close b cfg now trade_date n leg tag)
    unfolding place_close
    place_close-Stays zero leg tag =
        Keeps-bind _ _
          (in_store-Stays b P q _ (Keeps-unit_of_work _ (mark_failed-Holds q leg.intent_id)))
          (λ _. Keeps-pure _)
    place_close-Stays (suc n) leg tag =
        Keeps-bind _ _ (ask-Stays b P q _ (places (close_request cfg now trade_date leg tag)))
          (λ r. placed-Stays leg _ r (place_close-Stays n leg tag))

    place_close_with_retries-Stays :
        (leg : ExitLeg) (tag : Tag) → Good (place_close_with_retries b cfg now trade_date leg tag)
    unfolding place_close_with_retries
    place_close_with_retries-Stays leg tag =
        Keeps-bind _ _
          (in_store-Stays b P q _
            (Keeps-unit_of_work _ (mark_broker_call_started-Holds q leg.intent_id now)))
          (λ _. place_close-Stays cfg.close_attempts leg tag)

    or_place-Stays :
        (leg : ExitLeg) (tag : Tag) (o : Option LegCloseResult)
        → Good (or_place b cfg now trade_date leg tag o)
    unfolding or_place
    or_place-Stays leg tag none = place_close_with_retries-Stays leg tag
    or_place-Stays leg tag (some r) = Keeps-pure r

    adopt_or_place-Stays :
        (leg : ExitLeg) (i : OrderIntent) → Good (adopt_or_place b cfg now trade_date leg i)
    unfolding adopt_or_place
    adopt_or_place-Stays leg i =
        Keeps-if _ _ _
          (Keeps-bind _ _ (adopt_existing_order-Stays leg i.broker_tag)
            (or_place-Stays leg i.broker_tag))
          (place_close_with_retries-Stays leg i.broker_tag)

    close_open_leg-Stays : (leg : ExitLeg) → Good (close_open_leg b cfg now trade_date leg)
    unfolding close_open_leg
    close_open_leg-Stays leg =
        Keeps-bind _ _
          (in_store-Stays b P q _
            (Keeps-unit_of_work _ (get_intent_or_raise-Holds q leg.intent_id)))
          (adopt_or_place-Stays leg)

    close_read_leg-Stays :
        (leg : ExitLeg) (status : TradeLegStatus) (price : Option ℤ)
        → Good (close_read_leg b cfg now trade_date leg (status, price))
    unfolding close_read_leg
    close_read_leg-Stays leg TradeLegStatus.closed price = Keeps-pure _
    close_read_leg-Stays leg _ price = close_open_leg-Stays leg

    close_leg-Stays : (leg : ExitLeg) → Good (close_leg b cfg now trade_date leg)
    unfolding close_leg
    close_leg-Stays leg =
        Keeps-bind _ _
          (in_store-Stays b P q _ (Keeps-unit_of_work _ (read_leg-Holds cfg now trade_date q leg)))
          (λ found. let (status, price) = found in close_read_leg-Stays leg status price)

    pub close_legs-Stays : (legs : List ExitLeg) → Good (close_legs b cfg now trade_date legs)
    unfolding close_legs
    close_legs-Stays [] = Keeps-pure []
    close_legs-Stays (leg ∷ legs) =
        Keeps-bind _ _ (close_leg-Stays leg)
          (λ r. Keeps-bind _ _ (close_legs-Stays legs) (λ rs. Keeps-pure (r ∷ rs)))
