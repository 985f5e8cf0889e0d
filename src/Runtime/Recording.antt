-- ===== src/Runtime/Recording.antt =====
-- Any broker, with the list of the orders that it was sent.
use trading_project.Base.{◌≡◌, refl, List, [], ◌∷◌, ◌++◌, Option}
use trading_project.Models.{Position}
use trading_project.Action.Triple.{Triple}
use trading_project.Broker.{PlaceOrderRequest}
use trading_project.Runtime.{BrokerPort, World, ask}
use trading_project.Runtime.Frame.{Stays, ReadsKeep}

module _ (b : BrokerPort) where
  abbrev pub recording : BrokerPort
  recording = record {
    State = List PlaceOrderRequest × b.State;
    place_order = λ r s. let (answer, t) = b.place_order r s.1 in (answer, (s.0 ++ r ∷ [], t));
    get_order = λ id s. let (answer, t) = b.get_order id s.1 in (answer, (s.0, t));
    find_order_by_tag =
        λ tag s. let (answer, t) = b.find_order_by_tag tag s.1 in (answer, (s.0, t));
  }

  -- the orders sent so far, and the position row
  abbrev pub At : List PlaceOrderRequest → Option Position → World recording → Type 0
  At l q = Stays recording (λ s. s.0 ≡ l) q

  abbrev pub recording_reads : (l : List PlaceOrderRequest) → ReadsKeep recording (λ s. s.0 ≡ l)
  recording_reads l = record { get_order = λ id s h. h; find_order = λ tag s h. h }

  pub ask-sends :
      (l : List PlaceOrderRequest) (q : Option Position) (r : PlaceOrderRequest)
      → Triple (At l q) (ask recording (recording.place_order r)) (λ _. At (l ++ r ∷ []) q)
  unfolding ask
  ask-sends l q r = record {
    from = λ w h. record { broker_side = rw h.broker_side refl; row = h.row };
  }
