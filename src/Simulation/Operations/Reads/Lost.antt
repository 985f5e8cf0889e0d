-- ===== src/Simulation/Operations/Reads/Lost.antt =====
-- An acknowledgement that is lost: the order is there, and its tag leads to it.
use mathlib.Core.Path.{subst}
use trading_project.Base.{
  ◌≡◌, refl, sym, ◌∙◌, ap, arith, String, true, false, Option, none, some, ==-refl, string_eq,
  if◌then◌else◌,
}
use trading_project.Base.Dict.{Dict, lookup, lookup-insert}
use trading_project.Broker.{
  BrokerInstrument, BrokerOrder, BrokerError, returned, raised, PlaceOrderRequest,
}
use trading_project.Models.{Tag, tag_eq}
use trading_project.Simulation.{SimOrder, Env, to_broker_order}
use trading_project.Simulation.Matching.{SimulationBroker, pump}
use trading_project.Simulation.Matching.Ends.{pump-AllOver}
use trading_project.Simulation.Matching.Loop.{Kept}
use trading_project.Simulation.Matching.Identity.{IsNamed, Leads, IsFindable, pump-IsFindable}
use trading_project.Simulation.Operations.{
  stopped_read, stopped_mutation, build_sim_order, decide_outcome, with_order, acknowledged,
  place_known, place_unless, place_order,
}
use trading_project.Simulation.Operations.Reads.{
  matched_answer, read_unless, read, tagged_order, find_order_by_tag,
}

-- What answers for an order: its tag and its identifier.
pub record IsAnswerFor (id : String) (tag : Tag) (answer : Option BrokerOrder) : Type 0 where
  pub order : BrokerOrder
  pub found : answer ≡ some order
  pub same_tag : order.tag ≡ some tag
  pub same_id : order.broker_order_id ≡ id

module _ (env : Env) (request : PlaceOrderRequest) (s : SimulationBroker) where
  new_order-IsNamed :
      IsNamed env.next_order_id request.tag (build_sim_order env request (decide_outcome env))
  unfolding build_sim_order
  new_order-IsNamed = record { same_id = refl; same_tag = refl }

  with_order-IsFindable : IsFindable env.next_order_id request.tag (with_order env request s)
  unfolding with_order Leads
  with_order-IsFindable = record {
    tagged =
        lookup-insert request.tag request.tag env.next_order_id s.orders_by_tag
        ∙ ap (λ same. if same then some env.next_order_id else lookup request.tag s.orders_by_tag)
            (==-refl request.tag);
    led =
        subst (Leads env.next_order_id request.tag)
          (sym (
            lookup-insert env.next_order_id env.next_order_id
              (build_sim_order env request (decide_outcome env)) s.orders
            ∙ ap
                (λ same.
                  if same
                  then some (build_sim_order env request (decide_outcome env))
                  else lookup env.next_order_id s.orders)
                (==-refl env.next_order_id)))
          new_order-IsNamed;
  }

  place_order_lost :
      (instrument : BrokerInstrument)
      → s.authenticated ≡ true
      → env.connection_fails ≡ false
      → env.exceeds_timeout ≡ false
      → env.ack_times_out ≡ true
      → env.get_by_symbol
          (record { exchange = request.exchange; tradingsymbol = request.tradingsymbol })
        ≡ some instrument
      → place_order env request s ≡ (raised BrokerError.timeout, some (with_order env request s))
  unfolding place_order place_unless stopped_mutation place_known acknowledged
  place_order_lost instrument known connects in_time lost listed =
      ground (arith, known, connects, in_time, lost, listed)

module _ (env : Env) (id : String) (tag : Tag) where
  led-IsAnswerFor :
      (o : Option SimOrder) (d : Dict String SimOrder)
      → lookup id d ≡ o
      → Leads id tag o
      → IsAnswerFor id tag (tagged_order env (some id) d)
  unfolding Leads tagged_order
  led-IsAnswerFor none d e h = absurd h
  led-IsAnswerFor (some order) d e h = record {
    order = to_broker_order order;
    found = rw (e, tagged_order) refl;
    same_tag = ap some h.same_tag;
    same_id = h.same_id;
  }

  findable-IsAnswerFor :
      (u : SimulationBroker)
      → IsFindable id tag u
      → IsAnswerFor id tag (tagged_order env (lookup tag u.orders_by_tag) u.orders)
  findable-IsAnswerFor u h =
      subst (λ o. IsAnswerFor id tag (tagged_order env o u.orders)) (sym h.tagged)
        (led-IsAnswerFor (lookup id u.orders) u.orders refl h.led)

  find_matched :
      (t u : SimulationBroker)
      → env.connection_fails ≡ false
      → env.exceeds_timeout ≡ false
      → pump env t ≡ some u
      → find_order_by_tag env tag t
        ≡ (returned (tagged_order env (lookup tag u.orders_by_tag) u.orders), some u)
  unfolding find_order_by_tag read read_unless matched_answer stopped_read
  find_matched t u connects in_time matched = ground (arith, connects, in_time, matched)

-- An order whose acknowledgement is lost is not lost: the call raises the timeout, and a later reading of
-- its tag that gets through, at a synchronous broker, answers with an order of that tag and of the
-- identifier that the order was given.
pub place_order-IsAnswerFor :
    (env later : Env) (request : PlaceOrderRequest) (s : SimulationBroker)
    (instrument : BrokerInstrument)
    → s.authenticated ≡ true
    → env.connection_fails ≡ false
    → env.exceeds_timeout ≡ false
    → env.ack_times_out ≡ true
    → env.get_by_symbol
        (record { exchange = request.exchange; tradingsymbol = request.tradingsymbol })
      ≡ some instrument
    → later.connection_fails ≡ false
    → later.exceeds_timeout ≡ false
    → later.synchronous ≡ true
    → (t u : SimulationBroker) × (answer : Option BrokerOrder) × (place_order env request s
        ≡ (raised BrokerError.timeout, some t))
      × (find_order_by_tag later request.tag t ≡ (returned answer, some u))
      × IsAnswerFor env.next_order_id request.tag answer
place_order-IsAnswerFor env later request s instrument known connects in_time lost listed reads soon
      synchronous =
    let t = with_order env request s in
    let (u, matched, over) = pump-AllOver later t synchronous in
    let kept : IsFindable env.next_order_id request.tag u =
      subst (Kept (IsFindable env.next_order_id request.tag)) matched (
        pump-IsFindable later env.next_order_id request.tag t
          (with_order-IsFindable env request s)) in
    (
      t,
      u,
      tagged_order later (lookup request.tag u.orders_by_tag) u.orders,
      place_order_lost env request s instrument known connects in_time lost listed,
      find_matched later env.next_order_id request.tag t u reads soon matched,
      findable-IsAnswerFor later env.next_order_id request.tag u kept,
    )
