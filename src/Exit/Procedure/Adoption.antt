-- ===== src/Exit/Procedure/Adoption.antt =====
-- After a crash in the middle of an exit: a leg whose broker call had begun is looked up at the
-- broker before anything is sent again.
use trading_project.Base.{ℕ, ◌≡◌, refl, true, Option, none, some, is_some}
use trading_project.Enums.{TradeLegStatus, trade_leg_status_eq}
use trading_project.Models.{Position, Trade, OrderIntent, Tag}
use trading_project.Result.{Result, ok, err}
use trading_project.Broker.{BrokerOrder, BrokerResult, returned, raised}
use trading_project.Action.{continue, ◌>>=◌}
use trading_project.Action.Gives.{Post, Gives, Gives-pure, Gives-bind}
use trading_project.Base.Int.{ℤ}
use trading_project.Store.Frame.{get_intent_or_raise_found}
use trading_project.Exit.Flow.Frame.{read_leg_found}
use trading_project.Store.{find_trade, find_intent}
use trading_project.Exit.Flow.{ExitConfig, LegCloseResult, ExitLeg}
use trading_project.Runtime.{BrokerPort, World, in_store, ask}
use trading_project.Exit.Procedure.{
  adopt_found, adopt_existing_order, or_place, adopt_or_place, close_open_leg, close_read_leg,
  close_leg,
}
use trading_project.Runtime.Frame.{Stays, ReadsKeep}
use trading_project.Exit.Procedure.Frame.{adopt_found-Stays}

abbrev IsSome : Option LegCloseResult → Type 0
IsSome none = ⊥
IsSome (some _) = Unit

-- The broker did not answer that there is no such order.
abbrev pub MayExist : BrokerResult (Option BrokerOrder) → Type 0
MayExist (returned none) = ⊥
MayExist (returned (some _)) = Unit
MayExist (raised _) = Unit

module _ (b : BrokerPort) (P : b.State → Type 0) (reads : ReadsKeep b P) (cfg : ExitConfig)
    (now trade_date : ℕ) where
  adopt_found-IsSome :
      (leg : ExitLeg) (r : BrokerResult (Option BrokerOrder))
      → MayExist r
      → Gives IsSome (adopt_found b cfg now trade_date leg r)
  unfolding adopt_found
  adopt_found-IsSome leg (raised e) h = Gives-pure _ tt
  adopt_found-IsSome leg (returned none) h = absurd h
  adopt_found-IsSome leg (returned (some existing)) h =
      Gives-bind _ _ (λ o. Gives-bind _ _ (λ r. Gives-pure _ tt))

  or_place_adopted :
      (leg : ExitLeg) (tag : Tag) (q : Option Position) (r : Result (Option LegCloseResult))
      (w : World b)
      → Post IsSome r
      → Stays b P q w
      → Stays b P q (continue r (or_place b cfg now trade_date leg tag) w).1
  unfolding or_place
  or_place_adopted leg tag q (ok none) w known h = absurd known
  or_place_adopted leg tag q (ok (some r)) w known h = h
  or_place_adopted leg tag q (err e) w known h = h

  -- An intent whose broker call had begun, with an answer of the broker that leaves an order
  -- possible: nothing is done at the broker but reading.
  adopt_or_place-Stays :
      (leg : ExitLeg) (i : OrderIntent) (q : Option Position) (w : World b)
      → is_some i.broker_call_started_at ≡ true
      → MayExist (b.find_order_by_tag i.broker_tag w.broker).0
      → Stays b P q w
      → Stays b P q (adopt_or_place b cfg now trade_date leg i w).1
  unfolding adopt_or_place adopt_existing_order ask ◌>>=◌
  adopt_or_place-Stays leg i q w started may h = rw started (
      let (answer, s) = b.find_order_by_tag i.broker_tag w.broker in
      let w' : World b = record w { broker = s } in
      let h' : Stays b P q w' = record {
        broker_side = reads.find_order i.broker_tag w.broker h.broker_side;
        row = h.row;
      } in
      let (r, w'') = adopt_found b cfg now trade_date leg answer w' in
      or_place_adopted leg i.broker_tag q r w'' ((adopt_found-IsSome leg answer may).at w')
        ((adopt_found-Stays b P reads q cfg now trade_date leg answer).from w' h'))

  close_open_leg-Stays :
      (leg : ExitLeg) (i : OrderIntent) (q : Option Position) (w : World b)
      → find_intent leg.intent_id w.store.intents ≡ some i
      → is_some i.broker_call_started_at ≡ true
      → MayExist (b.find_order_by_tag i.broker_tag w.broker).0
      → Stays b P q w
      → Stays b P q (close_open_leg b cfg now trade_date leg w).1
  unfolding close_open_leg in_store ◌>>=◌
  close_open_leg-Stays leg i q w found started may h =
      rw (get_intent_or_raise_found leg.intent_id i w.store found)
        (adopt_or_place-Stays leg i q w started may h)

  close_read_leg-Stays :
      (leg : ExitLeg) (status : TradeLegStatus) (price : Option ℤ) (i : OrderIntent)
      (q : Option Position) (w : World b)
      → find_intent leg.intent_id w.store.intents ≡ some i
      → is_some i.broker_call_started_at ≡ true
      → MayExist (b.find_order_by_tag i.broker_tag w.broker).0
      → Stays b P q w
      → Stays b P q (close_read_leg b cfg now trade_date leg (status, price) w).1
  unfolding close_read_leg
  close_read_leg-Stays leg TradeLegStatus.closed price i q w found started may h = h
  close_read_leg-Stays leg _ price i q w found started may h =
      close_open_leg-Stays leg i q w found started may h

  -- If a leg's broker call had been marked as begun, and the broker, asked for the order's tag, does
  -- not answer that there is none, then closing the leg places no order: every fact about the
  -- broker that reading orders keeps is kept.
  pub close_leg-adopts :
      (leg : ExitLeg) (t : Trade) (i : OrderIntent) (w : World b)
      → find_trade leg.trade_id w.store.trades ≡ some t
      → find_intent leg.intent_id w.store.intents ≡ some i
      → is_some i.broker_call_started_at ≡ true
      → MayExist (b.find_order_by_tag i.broker_tag w.broker).0
      → P w.broker
      → P (close_leg b cfg now trade_date leg w).1.broker
  unfolding close_leg in_store ◌>>=◌
  close_leg-adopts leg t i w has_trade has_intent started may h =
      let kept =
        close_read_leg-Stays leg t.status t.exit_price i w.store.position w has_intent started may
          (record { broker_side = h; row = refl }) in
      rw (read_leg_found cfg now trade_date leg t w.store has_trade) kept.broker_side
