-- ===== src/Simulation/Operations.antt =====
-- The calls of the simulated broker on its orders. A call that raises may have changed the state before,
-- as the acknowledgement that is lost does; `none` in place of a state is a matching that did not end.
pub mod Reads
pub mod Reach
pub mod Bounds
pub mod Book
mod Tests
use trading_project.Base.{
  ℕ, ◌+◌, ◌-◌, ◌*◌, ◌/◌, max, String, Bool, true, false, not, Option, none, some, List, [], ◌∷◌,
  ltb, ◌&&◌, if◌then◌else◌, string_eq, ◌==◌,
}
use trading_project.Base.Int.{ℤ, pos, abs, ◌+ℤ◌, ◌-ℤ◌, ◌*ℤ◌, eqb_ℤ}
use trading_project.Base.Dict.{Dict, lookup, insert}
use trading_project.Enums.{OrderStatus, OrderType}
use trading_project.Models.{Tag, tag_eq}
use trading_project.Broker.{
  InstrumentIdentifier, BrokerInstrument, BrokerOrder, BrokerError, BrokerResult, returned, raised,
  PlaceOrderRequest, ModifyOrderRequest,
}
use trading_project.Orders.{is_terminal_status}
use trading_project.Simulation.{
  FillOutcome, SimOrder, SimPosition, PositionKey, Positions, Env, to_broker_order,
}
use trading_project.Simulation.Matching.{SimulationBroker, dispatch, pump}

-- A call: what it answers or raises, and the state, if the matching ended.
abbrev pub Call : Type 0 → Type 0
Call A = BrokerResult A × Option SimulationBroker

module _ (env : Env) where
  -- `_decide_outcome`
  decide_outcome : FillOutcome
  decide_outcome =
      if env.draws_rejection
      then FillOutcome.rejected
      else if env.draws_partial
      then FillOutcome.partial_then_fill
      else FillOutcome.full_fill

  -- the steps and their quantity
  steps_of : PlaceOrderRequest → FillOutcome → ℕ × ℕ
  steps_of request FillOutcome.partial_then_fill =
      (env.partial_fill_steps, max 1 (request.quantity / env.partial_fill_steps))
  steps_of request _ = (1, request.quantity)

  -- `_build_sim_order`
  pub build_sim_order : PlaceOrderRequest → FillOutcome → SimOrder
  unfolding steps_of
  build_sim_order request outcome =
      let (steps, step_quantity) = steps_of request outcome in
      record {
        broker_order_id = env.next_order_id;
        tag = request.tag;
        exchange = request.exchange;
        tradingsymbol = request.tradingsymbol;
        transaction_type = request.transaction_type;
        product = request.product;
        quantity = request.quantity;
        order_type = request.order_type;
        price = request.price;
        trigger_price = request.trigger_price;
        status = OrderStatus.opened;
        filled_quantity = 0;
        average_price = none;
        placed_at = env.now;
        filled_at = none;
        exchange_updated_at = env.now;
        status_message = none;
        outcome = outcome;
        resolve_at = env.now + env.fill_latency;
        remaining_steps = steps;
        step_quantity = step_quantity;
      }

  -- what stops a call before it does anything
  stopped_mutation : SimulationBroker → Option BrokerError
  stopped_mutation s =
      if not s.authenticated
      then some BrokerError.authentication
      else if env.connection_fails
      then some BrokerError.connection
      else if env.exceeds_timeout
      then some BrokerError.timeout
      else none

  -- `_simulate_read_call`
  stopped_read : Option BrokerError
  stopped_read =
      if env.connection_fails
      then some BrokerError.connection
      else if env.exceeds_timeout
      then some BrokerError.timeout
      else none

  -- both dictionaries take the new order; a tag that was used before now leads to it
  pub with_order : PlaceOrderRequest → SimulationBroker → SimulationBroker
  unfolding build_sim_order decide_outcome
  with_order request s = record s {
    orders = insert env.next_order_id (build_sim_order request decide_outcome) s.orders;
    orders_by_tag = insert request.tag env.next_order_id s.orders_by_tag;
  }

  -- the acknowledgement of an order that is stored, which may be lost
  acknowledged : Bool → SimulationBroker → Call String
  acknowledged true placed = (raised BrokerError.timeout, some placed)
  acknowledged false placed = (returned env.next_order_id, pump env placed)

  place_known : PlaceOrderRequest → Option BrokerInstrument → SimulationBroker → Call String
  unfolding with_order acknowledged
  place_known request none s = (raised BrokerError.order_rejected, some s)
  place_known request (some instrument) s = acknowledged env.ack_times_out (with_order request s)

  place_unless : Option BrokerError → PlaceOrderRequest → SimulationBroker → Call String
  unfolding place_known
  place_unless (some e) request s = (raised e, some s)
  place_unless none request s =
      place_known request
        (env.get_by_symbol
          (record { exchange = request.exchange; tradingsymbol = request.tradingsymbol }))
        s

  -- `place_order`
  pub place_order : PlaceOrderRequest → SimulationBroker → Call String
  unfolding place_unless stopped_mutation
  place_order request s = place_unless (stopped_mutation s) request s

  or_as_it_is : {A : Type 0} → Option A → A → A
  or_as_it_is none a = a
  or_as_it_is (some b) a = b

  or_keep : {A : Type 0} → Option A → Option A → Option A
  or_keep none a = a
  or_keep (some b) a = some b

  pub modified : ModifyOrderRequest → SimOrder → SimOrder
  unfolding or_as_it_is or_keep
  modified request order = record order {
    quantity = or_as_it_is request.quantity order.quantity;
    price = or_keep request.price order.price;
    trigger_price = or_keep request.trigger_price order.trigger_price;
    order_type = or_as_it_is request.order_type order.order_type;
    exchange_updated_at = env.now;
  }

  abbrev below_filled : Option ℕ → SimOrder → Bool
  below_filled none order = false
  below_filled (some quantity) order = ltb quantity order.filled_quantity

  -- the order with its changes is stored and dispatched
  pub store_updated : String → SimOrder → SimulationBroker → SimulationBroker
  store_updated id order s =
      dispatch env (to_broker_order order) (record s { orders = insert id order s.orders })

  modify_found : ModifyOrderRequest → Option SimOrder → SimulationBroker → Call (Unit {0})
  unfolding modified store_updated
  modify_found request none s = (raised BrokerError.order_not_found, some s)
  modify_found request (some order) s =
      if is_terminal_status order.status
      then (raised BrokerError.order_not_modifiable, some s)
      else if below_filled request.quantity order
      then (raised BrokerError.invalid_order_request, some s)
      else (returned tt, some (store_updated request.broker_order_id (modified request order) s))

  modify_unless : Option BrokerError → ModifyOrderRequest → SimulationBroker → Call (Unit {0})
  unfolding modify_found
  modify_unless (some e) request s = (raised e, some s)
  modify_unless none request s = modify_found request (lookup request.broker_order_id s.orders) s

  -- `modify_order`
  pub modify_order : ModifyOrderRequest → SimulationBroker → Call (Unit {0})
  unfolding modify_unless stopped_mutation
  modify_order request s = modify_unless (stopped_mutation s) request s

  cancel_found : String → Option SimOrder → SimulationBroker → Call (Unit {0})
  unfolding store_updated
  cancel_found id none s = (raised BrokerError.order_not_found, some s)
  cancel_found id (some order) s =
      if is_terminal_status order.status
      then (raised BrokerError.order_not_cancellable, some s)
      else (
        returned tt,
        some (
            store_updated id
              (record order {
                status = OrderStatus.cancelled;
                exchange_updated_at = env.now;
                remaining_steps = 0;
              })
              s),
      )

  cancel_unless : Option BrokerError → String → SimulationBroker → Call (Unit {0})
  unfolding cancel_found
  cancel_unless (some e) id s = (raised e, some s)
  cancel_unless none id s = cancel_found id (lookup id s.orders) s

  -- `cancel_order`
  pub cancel_order : String → SimulationBroker → Call (Unit {0})
  unfolding cancel_unless stopped_mutation
  cancel_order id s = cancel_unless (stopped_mutation s) id s
