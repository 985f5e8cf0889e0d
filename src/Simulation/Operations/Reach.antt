-- ===== src/Simulation/Operations/Reach.antt =====
-- The states that a simulated broker can reach by its calls.
use trading_project.Base.{◌≡◌, String, Option, none, some, [], string_eq}
use trading_project.Base.Dict.{lookup}
use trading_project.Broker.{PlaceOrderRequest, ModifyOrderRequest}
use trading_project.Simulation.{Env}
use trading_project.Simulation.Matching.{SimulationBroker, pump}
use trading_project.Simulation.Operations.{place_order, modify_order, cancel_order}

-- What the broker does in one step: a call on an order, with what it meets, or a matching, which the
-- reading calls and the matching thread do. The identifier of a new order, a UUID, is not in use.
pub data Step : SimulationBroker → Option SimulationBroker → Type 0 where
  places :
      (env : Env) (request : PlaceOrderRequest) (s : SimulationBroker)
      → lookup env.next_order_id s.orders ≡ none
      → Step s (place_order env request s).1
  modifies :
      (env : Env) (request : ModifyOrderRequest) (s : SimulationBroker)
      → Step s (modify_order env request s).1
  cancels : (env : Env) (id : String) (s : SimulationBroker) → Step s (cancel_order env id s).1
  matches : (env : Env) (s : SimulationBroker) → Step s (pump env s)

pub data Reachable : SimulationBroker → Type 0 where
  start : {s : SimulationBroker} → s.orders ≡ [] → s.positions ≡ [] → Reachable s
  next :
      {s t : SimulationBroker} {o : Option SimulationBroker}
      → Reachable s
      → Step s o
      → o ≡ some t
      → Reachable t
