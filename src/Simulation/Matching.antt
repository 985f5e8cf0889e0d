-- ===== src/Simulation/Matching.antt =====
-- The matching of the simulated broker: `_resolve_due_orders`, `_pump`, and the dispatch of updates.
pub mod Ends
pub mod Loop
pub mod Filled
pub mod Identity
pub mod Balance
use trading_project.Base.{
  ℕ, zero, suc, max, String, Bool, true, false, not, Option, none, some, List, [], ◌∷◌, ◌++◌, leb,
  if◌then◌else◌, nat_eq, ◌==◌,
}
use trading_project.Base.Dict.{Dict}
use trading_project.Models.{Tag}
use trading_project.Broker.{BrokerOrder}
use trading_project.Orders.{is_terminal_status}
use trading_project.Simulation.{
  FillOutcome, SimOrder, Positions, Env, process_due_order, to_broker_order,
}

-- The broker's state; `dispatched` lists what its callbacks were given.
pub record SimulationBroker : Type 0 where
  pub authenticated : Bool
  pub ws_connected : Bool
  pub orders : Dict String SimOrder
  pub orders_by_tag : Dict Tag String
  pub positions : Positions
  pub dispatched : List BrokerOrder

-- the orders and the positions after one round, and the updates of the round
pub record Round : Type 0 where
  pub orders : Dict String SimOrder
  pub positions : Positions
  pub updates : List BrokerOrder

module _ (env : Env) where
  -- `_dispatch_order_update`
  pub dispatch : BrokerOrder → SimulationBroker → SimulationBroker
  dispatch update s =
      if s.ws_connected then record s { dispatched = s.dispatched ++ update ∷ [] } else s

  pub dispatch_all : List BrokerOrder → SimulationBroker → SimulationBroker
  unfolding dispatch
  dispatch_all [] s = s
  dispatch_all (update ∷ updates) s = dispatch_all updates (dispatch update s)

  -- the loop over the orders, under the lock
  abbrev pub after_step :
      String → SimOrder → Positions → Option (SimOrder × Positions) → SimOrder × Positions
  after_step id order positions none = (order, positions)
  after_step id order positions (some step) = step

  abbrev pub updates_of : Option (SimOrder × Positions) → List BrokerOrder
  updates_of none = []
  updates_of (some (order, _)) = to_broker_order order ∷ []

  pub resolve_orders : Bool → Dict String SimOrder → Positions → Round
  resolve_orders force [] positions = record { orders = []; positions = positions; updates = [] }
  resolve_orders force ((id, order) ∷ orders) positions =
      let step = process_due_order env force order positions in
      let (order', positions') = after_step id order positions step in
      let rest = resolve_orders force orders positions' in
      record {
        orders = (id, order') ∷ rest.orders;
        positions = rest.positions;
        updates = updates_of step ++ rest.updates;
      }

  -- `_resolve_due_orders`
  pub resolve_due_orders : Bool → SimulationBroker → List BrokerOrder × SimulationBroker
  unfolding resolve_orders dispatch_all
  resolve_due_orders force s =
      let round = resolve_orders force s.orders s.positions in
      (
        round.updates,
        dispatch_all round.updates
            (record s { orders = round.orders; positions = round.positions }),
      )

  abbrev pub more :
      List BrokerOrder → Option SimulationBroker → SimulationBroker → Option SimulationBroker
  more [] rest s = some s
  more (_ ∷ _) rest s = rest

  -- the loop of `_pump`, by the rounds that it may take; `none` where they are not enough
  pub pump_loop : ℕ → SimulationBroker → Option SimulationBroker
  unfolding resolve_due_orders
  pump_loop zero s = none
  pump_loop (suc n) s =
      let (updates, s') = resolve_due_orders true s in
      let rest = pump_loop n s' in more updates rest s'

  -- The rounds that an order can still take.
  abbrev pub rounds_left : SimOrder → ℕ
  rounds_left order = if is_terminal_status order.status then 0 else max 1 order.remaining_steps

  abbrev pub rounds : Dict String SimOrder → ℕ
  rounds [] = 0
  rounds ((_, order) ∷ orders) = max (rounds_left order) (rounds orders)

  -- `_pump`, given one round more than its orders can take
  pub pump : SimulationBroker → Option SimulationBroker
  unfolding pump_loop
  pump s =
      let looped = pump_loop (suc (rounds s.orders)) s in
      let (_, once) = resolve_due_orders false s in if env.synchronous then looped else some once
