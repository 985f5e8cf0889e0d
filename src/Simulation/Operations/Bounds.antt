-- ===== src/Simulation/Operations/Bounds.antt =====
-- What the orders of the simulated broker satisfy in every state that its calls reach.
use mathlib.Core.Path.{subst}
use trading_project.Base.{
  ℕ, ◌≡◌, refl, sym, arith, inl, inr, Bool-cases, String, Bool, true, false, Option, none, some, [],
  ◌∷◌, ◌==◌, string_eq,
}
use trading_project.Base.Dict.{Dict, lookup, insert}
use trading_project.Broker.{BrokerInstrument, BrokerError, PlaceOrderRequest, ModifyOrderRequest}
use trading_project.Orders.{is_terminal_status}
use trading_project.Simulation.{SimOrder, Env, to_broker_order}
use trading_project.Simulation.Matching.{SimulationBroker}
use trading_project.Simulation.Matching.Loop.{After, dispatch-Holds}
use trading_project.Simulation.Matching.Filled.{IsFilledWithin, AllWithin, pump-AllWithin}
use trading_project.Simulation.Operations.Reach.{
  Step, places, modifies, cancels, matches, Reachable, start, next,
}
use trading_project.Simulation.Operations.{
  build_sim_order, with_order, decide_outcome, acknowledged, place_known, place_unless, place_order,
  modified, below_filled, store_updated, modify_found, modify_unless, modify_order, cancel_found,
  cancel_unless, cancel_order,
}

abbrev pub Within : Option SimulationBroker → Type 0
Within o = After (λ d positions. AllWithin d) o

insert-AllWithin :
    (id : String) (order : SimOrder) (d : Dict String SimOrder)
    → IsFilledWithin order
    → AllWithin d
    → AllWithin (insert id order d)
unfolding AllWithin
insert-AllWithin id order [] h hs = (h, tt)
insert-AllWithin id order ((j, other) ∷ d) h hs = elim (Bool-cases (id == j)) [
  | inl same ↦ rw same (h, hs.1)
  | inr other_id ↦ rw other_id (hs.0, insert-AllWithin id order d h hs.1)
]

lookup-IsFilledWithin :
    (id : String) (order : SimOrder) (d : Dict String SimOrder)
    → lookup id d ≡ some order
    → AllWithin d
    → IsFilledWithin order
unfolding AllWithin
lookup-IsFilledWithin id order [] e hs = cc
lookup-IsFilledWithin id order ((j, other) ∷ d) e hs = elim (Bool-cases (id == j)) [
  | inl same ↦
      let found : other ≡ order = ground (arith, same, e) in subst IsFilledWithin found hs.0
  | inr other_id ↦ lookup-IsFilledWithin id order d (ground (arith, other_id, e)) hs.1
]

module _ (env : Env) where
  with_order-AllWithin :
      (request : PlaceOrderRequest) (s : SimulationBroker)
      → AllWithin s.orders
      → AllWithin (with_order env request s).orders
  unfolding with_order build_sim_order
  with_order-AllWithin request s h =
      insert-AllWithin env.next_order_id (build_sim_order env request (decide_outcome env)) s.orders
        (record { within = omega arith; complete = λ e. cc }) h

  acknowledged-Within :
      (lost : Bool) (placed : SimulationBroker)
      → AllWithin placed.orders
      → Within (acknowledged env lost placed).1
  unfolding acknowledged
  acknowledged-Within true placed h = h
  acknowledged-Within false placed h = pump-AllWithin env placed h

  place_known-Within :
      (request : PlaceOrderRequest) (o : Option BrokerInstrument) (s : SimulationBroker)
      → AllWithin s.orders
      → Within (place_known env request o s).1
  unfolding place_known
  place_known-Within request none s h = h
  place_known-Within request (some instrument) s h =
      acknowledged-Within env.ack_times_out (with_order env request s)
        (with_order-AllWithin request s h)

  place_unless-Within :
      (o : Option BrokerError) (request : PlaceOrderRequest) (s : SimulationBroker)
      → AllWithin s.orders
      → Within (place_unless env o request s).1
  unfolding place_unless
  place_unless-Within (some e) request s h = h
  place_unless-Within none request s h = place_known-Within request _ s h

  store_updated-AllWithin :
      (id : String) (order : SimOrder) (s : SimulationBroker)
      → IsFilledWithin order
      → AllWithin s.orders
      → AllWithin (store_updated env id order s).orders
  unfolding store_updated
  store_updated-AllWithin id order s h hs =
      dispatch-Holds env (λ d positions. AllWithin d) (to_broker_order order)
        (record s { orders = insert id order s.orders }) (insert-AllWithin id order s.orders h hs)

  modified-IsFilledWithin :
      (request : ModifyOrderRequest) (order : SimOrder)
      → is_terminal_status order.status ≡ false
      → below_filled env request.quantity order ≡ false
      → IsFilledWithin order
      → IsFilledWithin (modified env request order)
  unfolding modified is_terminal_status
  modified-IsFilledWithin request order live fits h = by_quantity request.quantity fits
    where
      by_quantity :
          (quantity : Option ℕ)
          → below_filled env quantity order ≡ false
          → IsFilledWithin (modified env (record request { quantity = quantity }) order)
      by_quantity none fits = record {
        within = h.within;
        complete = λ e. absurd (ground (arith, live, e));
      }
      by_quantity (some q) fits = record {
        within = ground (arith, fits);
        complete = λ e. absurd (ground (arith, live, e));
      }

  modify_found-Within :
      (request : ModifyOrderRequest) (o : Option SimOrder) (s : SimulationBroker)
      → lookup request.broker_order_id s.orders ≡ o
      → AllWithin s.orders
      → Within (modify_found env request o s).1
  unfolding modify_found
  modify_found-Within request none s e h = h
  modify_found-Within request (some order) s e h =
      elim (Bool-cases (is_terminal_status order.status)) [
        | inl over ↦ rw over h
        | inr live ↦ rw live (elim (Bool-cases (below_filled env request.quantity order)) [
          | inl low ↦ rw low h
          | inr fits ↦ rw fits (
              store_updated-AllWithin request.broker_order_id (modified env request order) s
                (modified-IsFilledWithin request order live fits
                  (lookup-IsFilledWithin request.broker_order_id order s.orders e h))
                h)
        ])
      ]

  cancel_found-Within :
      (id : String) (o : Option SimOrder) (s : SimulationBroker)
      → lookup id s.orders ≡ o
      → AllWithin s.orders
      → Within (cancel_found env id o s).1
  unfolding cancel_found
  cancel_found-Within id none s e h = h
  cancel_found-Within id (some order) s e h =
      let sound = lookup-IsFilledWithin id order s.orders e h in
      elim (Bool-cases (is_terminal_status order.status)) [
        | inl over ↦ rw over h
        | inr live ↦ rw live (
            store_updated-AllWithin id _ s (record { within = sound.within; complete = λ e. cc }) h)
      ]

  modify_unless-Within :
      (o : Option BrokerError) (request : ModifyOrderRequest) (s : SimulationBroker)
      → AllWithin s.orders
      → Within (modify_unless env o request s).1
  unfolding modify_unless
  modify_unless-Within (some e) request s h = h
  modify_unless-Within none request s h = modify_found-Within request _ s refl h

  cancel_unless-Within :
      (o : Option BrokerError) (id : String) (s : SimulationBroker)
      → AllWithin s.orders
      → Within (cancel_unless env o id s).1
  unfolding cancel_unless
  cancel_unless-Within (some e) id s h = h
  cancel_unless-Within none id s h = cancel_found-Within id _ s refl h

step-Within :
    (s : SimulationBroker) (o : Option SimulationBroker) → Step s o → AllWithin s.orders → Within o
unfolding place_order modify_order cancel_order
step-Within _ _ (places env request s fresh) h = place_unless-Within env _ request s h
step-Within _ _ (modifies env request s) h = modify_unless-Within env _ request s h
step-Within _ _ (cancels env id s) h = cancel_unless-Within env _ id s h
step-Within _ _ (matches env s) h = pump-AllWithin env s h

-- In every state that the broker can reach from one without orders, no order has more filled than its
-- quantity, and a complete order has all of it filled.
pub Reachable-AllWithin : (s : SimulationBroker) → Reachable s → AllWithin s.orders
unfolding AllWithin
Reachable-AllWithin s (start none_yet no_position) = subst AllWithin (sym none_yet) tt
Reachable-AllWithin s (next {s = before} {o = o} reached step same) =
    subst Within same (step-Within before o step (Reachable-AllWithin before reached))
