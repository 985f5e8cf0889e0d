-- ===== src/Simulation/Operations/Book.antt =====
-- The positions of the simulated broker are the sums of what its orders filled, in every state that its
-- calls reach.
use mathlib.Core.Path.{subst}
use trading_project.Base.{
  ◌≡◌, refl, sym, ap, ◌∙◌, arith, inl, inr, Bool-cases, String, Bool, true, false, Option, none,
  some, [], ◌∷◌, ◌==◌, string_eq, if◌then◌else◌,
}
use trading_project.Base.Int.{pos, ◌+ℤ◌, +ℤ_zero}
use trading_project.Base.Dict.{Dict, lookup, insert}
use trading_project.Broker.{BrokerInstrument, BrokerError, PlaceOrderRequest, ModifyOrderRequest}
use trading_project.Enums.{TransactionType}
use trading_project.Orders.{is_terminal_status}
use trading_project.Simulation.{
  SimOrder, PositionKey, position_key_eq, Env, key_of, signed, to_broker_order,
}
use trading_project.Simulation.Matching.{SimulationBroker}
use trading_project.Simulation.Matching.Loop.{After, dispatch-Holds}
use trading_project.Simulation.Matching.Balance.{filled_of, total_filled, Balances, pump-Balances}
use trading_project.Simulation.Operations.{
  build_sim_order, with_order, decide_outcome, acknowledged, place_known, place_unless, place_order,
  modified, below_filled, store_updated, modify_found, modify_unless, modify_order, cancel_found,
  cancel_unless, cancel_order,
}
use trading_project.Simulation.Operations.Reach.{
  Step, places, modifies, cancels, matches, Reachable, start, next,
}

module _ (key : PositionKey) where
  -- an order more that has nothing filled, and an order in place of one with as much filled
  insert_new-total :
      (id : String) (order : SimOrder) (d : Dict String SimOrder)
      → lookup id d ≡ none
      → filled_of key order ≡ pos 0
      → total_filled key (insert id order d) ≡ total_filled key d
  unfolding total_filled
  insert_new-total id order [] e empty = +ℤ_zero (filled_of key order) ∙ empty
  insert_new-total id order ((j, other) ∷ d) e empty = elim (Bool-cases (id == j)) [
    | inl same ↦ absurd (ground (arith, same, e))
    | inr new ↦ rw new (
        ap (λ t. filled_of key other +ℤ t)
          (insert_new-total id order d (ground (arith, new, e)) empty))
  ]

  insert_same-total :
      (id : String) (old order : SimOrder) (d : Dict String SimOrder)
      → lookup id d ≡ some old
      → filled_of key order ≡ filled_of key old
      → total_filled key (insert id order d) ≡ total_filled key d
  unfolding total_filled
  insert_same-total id old order [] e same_fill = cc
  insert_same-total id old order ((j, other) ∷ d) e same_fill = elim (Bool-cases (id == j)) [
    | inl here ↦
        let found : old ≡ other = ground (arith, here, e) in
        rw here (ap (λ t. t +ℤ total_filled key d) (same_fill ∙ ap (filled_of key) found))
    | inr further ↦ rw further (
        ap (λ t. filled_of key other +ℤ t)
          (insert_same-total id old order d (ground (arith, further, e)) same_fill))
  ]

abbrev Booked : PositionKey → Option SimulationBroker → Type 0
Booked key o = After (Balances key) o

module _ (env : Env) (key : PositionKey) where
  abbrev Book : SimulationBroker → Type 0
  Book s = Balances key s.orders s.positions

  new_order-empty :
      (request : PlaceOrderRequest)
      → filled_of key (build_sim_order env request (decide_outcome env)) ≡ pos 0
  unfolding build_sim_order
  new_order-empty request =
      by_side request.transaction_type
        (key == key_of (build_sim_order env request (decide_outcome env)))
    where
      by_side :
          (side : TransactionType) (same : Bool) → (if same then signed side 0 else pos 0) ≡ pos 0
      by_side TransactionType.buy true = refl
      by_side TransactionType.sell true = refl
      by_side TransactionType.buy false = refl
      by_side TransactionType.sell false = refl

  with_order-Book :
      (request : PlaceOrderRequest) (s : SimulationBroker)
      → lookup env.next_order_id s.orders ≡ none
      → Book s
      → Book (with_order env request s)
  unfolding with_order Balances
  with_order-Book request s fresh h =
      h
      ∙ sym (
          insert_new-total key env.next_order_id (build_sim_order env request (decide_outcome env))
            s.orders fresh (new_order-empty request))

  acknowledged-Booked :
      (lost : Bool) (placed : SimulationBroker)
      → Book placed
      → Booked key (acknowledged env lost placed).1
  unfolding acknowledged
  acknowledged-Booked true placed h = h
  acknowledged-Booked false placed h = pump-Balances env key placed h

  place_known-Booked :
      (request : PlaceOrderRequest) (o : Option BrokerInstrument) (s : SimulationBroker)
      → lookup env.next_order_id s.orders ≡ none
      → Book s
      → Booked key (place_known env request o s).1
  unfolding place_known
  place_known-Booked request none s fresh h = h
  place_known-Booked request (some instrument) s fresh h =
      acknowledged-Booked env.ack_times_out (with_order env request s)
        (with_order-Book request s fresh h)

  place_unless-Booked :
      (o : Option BrokerError) (request : PlaceOrderRequest) (s : SimulationBroker)
      → lookup env.next_order_id s.orders ≡ none
      → Book s
      → Booked key (place_unless env o request s).1
  unfolding place_unless
  place_unless-Booked (some e) request s fresh h = h
  place_unless-Booked none request s fresh h = place_known-Booked request _ s fresh h

  store_updated-Book :
      (id : String) (old order : SimOrder) (s : SimulationBroker)
      → lookup id s.orders ≡ some old
      → filled_of key order ≡ filled_of key old
      → Book s
      → Book (store_updated env id order s)
  unfolding store_updated
  store_updated-Book id old order s e same h =
      dispatch-Holds env (Balances key) (to_broker_order order)
        (record s { orders = insert id order s.orders })
        (unfold Balances in h ∙ sym (insert_same-total key id old order s.orders e same))

  modify_found-Booked :
      (request : ModifyOrderRequest) (o : Option SimOrder) (s : SimulationBroker)
      → lookup request.broker_order_id s.orders ≡ o
      → Book s
      → Booked key (modify_found env request o s).1
  unfolding modify_found
  modify_found-Booked request none s e h = h
  modify_found-Booked request (some order) s e h =
      elim (Bool-cases (is_terminal_status order.status)) [
        | inl over ↦ rw over h
        | inr live ↦ rw live (elim (Bool-cases (below_filled env request.quantity order)) [
          | inl low ↦ rw low h
          | inr fits ↦ rw fits (
              store_updated-Book request.broker_order_id order (modified env request order) s e
                (unfold modified in refl) h)
        ])
      ]

  cancel_found-Booked :
      (id : String) (o : Option SimOrder) (s : SimulationBroker)
      → lookup id s.orders ≡ o
      → Book s
      → Booked key (cancel_found env id o s).1
  unfolding cancel_found
  cancel_found-Booked id none s e h = h
  cancel_found-Booked id (some order) s e h = elim (Bool-cases (is_terminal_status order.status)) [
    | inl over ↦ rw over h
    | inr live ↦ rw live (store_updated-Book id order _ s e refl h)
  ]

  modify_unless-Booked :
      (o : Option BrokerError) (request : ModifyOrderRequest) (s : SimulationBroker)
      → Book s
      → Booked key (modify_unless env o request s).1
  unfolding modify_unless
  modify_unless-Booked (some e) request s h = h
  modify_unless-Booked none request s h = modify_found-Booked request _ s refl h

  cancel_unless-Booked :
      (o : Option BrokerError) (id : String) (s : SimulationBroker)
      → Book s
      → Booked key (cancel_unless env o id s).1
  unfolding cancel_unless
  cancel_unless-Booked (some e) id s h = h
  cancel_unless-Booked none id s h = cancel_found-Booked id _ s refl h

module _ (key : PositionKey) where
  step-Booked :
      (s : SimulationBroker) (o : Option SimulationBroker)
      → Step s o
      → Balances key s.orders s.positions
      → Booked key o
  unfolding place_order modify_order cancel_order
  step-Booked _ _ (places env request s fresh) h = place_unless-Booked env key _ request s fresh h
  step-Booked _ _ (modifies env request s) h = modify_unless-Booked env key _ request s h
  step-Booked _ _ (cancels env id s) h = cancel_unless-Booked env key _ id s h
  step-Booked _ _ (matches env s) h = pump-Balances env key s h

  -- In every state that the broker can reach from one without orders and positions, the quantity of each
  -- position is the sum of what the orders of its instrument and product filled, bought less sold.
  pub Reachable-Balances : (s : SimulationBroker) → Reachable s → Balances key s.orders s.positions
  unfolding Balances total_filled
  Reachable-Balances s (start no_order no_position) = rw (no_order, no_position) refl
  Reachable-Balances s (next {s = before} {o = o} reached step same) =
      subst (Booked key) same (step-Booked before o step (Reachable-Balances before reached))
