-- ===== src/Simulation/Matching/Ends.antt =====
-- The loop of the synchronous broker ends, with every order over.
use trading_project.Base.{
  ℕ, zero, suc, ◌-◌, ◌≤◌, ◌<◌, ◌≡◌, refl, sym, ◌∙◌, arith, inl, inr, Bool-cases, String, true,
  Option, none, some, List, [], ◌∷◌, ◌++◌, ltb,
}
use trading_project.Base.Int.{ℤ}
use trading_project.Base.Dict.{Dict}
use trading_project.Broker.{BrokerOrder}
use trading_project.Orders.{is_terminal_status}
use trading_project.Simulation.{
  FillOutcome, SimOrder, Positions, Env, step_qty, advanced, filled_order, filled_step, matched,
  process_due_order,
}
use trading_project.Simulation.Matching.{
  SimulationBroker, dispatch, dispatch_all, after_step, updates_of, resolve_orders,
  resolve_due_orders, more, pump_loop, rounds_left, rounds, pump,
}

module _ (env : Env) where
  abbrev left : SimOrder → ℕ
  left order = rounds_left env order

  advanced_fewer :
      (order : SimOrder)
      → (order.remaining_steps ≤ 1 → order.quantity ≤ order.filled_quantity)
      → left (advanced env order) ≤ order.remaining_steps - 1
  unfolding advanced is_terminal_status
  advanced_fewer order last = ground arith

  step_fewer :
      (order : SimOrder) (price : ℤ) (positions : Positions)
      → left (filled_step env order (step_qty env order) price positions).0
        ≤ order.remaining_steps - 1
  unfolding filled_step step_qty
  step_fewer order price positions = elim (Bool-cases (ltb 0 (step_qty env order))) [
    | inl fills ↦ rw fills (
        advanced_fewer (filled_order env order (step_qty env order) price)
          (unfold filled_order in λ last. ground arith))
    | inr nothing ↦ rw nothing (advanced_fewer order (λ last. ground (arith, nothing)))
  ]

  matched_fewer :
      (order : SimOrder) (o : FillOutcome) (positions : Positions)
      → left (matched env order o positions).0 ≤ order.remaining_steps - 1
  unfolding matched is_terminal_status
  matched_fewer order FillOutcome.rejected positions = ground arith
  matched_fewer order FillOutcome.full_fill positions = step_fewer order _ positions
  matched_fewer order FillOutcome.partial_then_fill positions = step_fewer order _ positions

  -- a round leaves an order one round less, and it is quiet exactly about the orders that are over
  order_fewer :
      (id : String) (order : SimOrder) (positions : Positions)
      → left (after_step env id order positions (process_due_order env true order positions)).0
        ≤ left order - 1
  unfolding process_due_order
  order_fewer id order positions = elim (Bool-cases (is_terminal_status order.status)) [
    | inl over ↦ rw over (rw over (omega arith))
    | inr live ↦
        let fewer = matched_fewer order order.outcome positions in rw live (omega (arith, fewer))
  ]

  orders_fewer :
      (d : Dict String SimOrder) (positions : Positions)
      → rounds env (resolve_orders env true d positions).orders ≤ rounds env d - 1
  unfolding resolve_orders
  orders_fewer [] positions = omega arith
  orders_fewer ((id, order) ∷ d) positions =
      let step = process_due_order env true order positions in
      let (order', positions') = after_step env id order positions step in
      let one = order_fewer id order positions in
      let rest = orders_fewer d positions' in omega (arith, one, rest)

  -- a round is quiet exactly where no order has one left
  order_quiet :
      (order : SimOrder) (positions : Positions)
      → updates_of env (process_due_order env true order positions) ≡ []
      → left order ≡ 0
  unfolding process_due_order
  order_quiet order positions h = elim (Bool-cases (is_terminal_status order.status)) [
    | inl over ↦ ground (arith, over)
    | inr live ↦ absurd (ground (arith, live, h))
  ]

  order_over :
      (order : SimOrder) (positions : Positions)
      → left order ≡ 0
      → process_due_order env true order positions ≡ none
  unfolding process_due_order
  order_over order positions h = elim (Bool-cases (is_terminal_status order.status)) [
    | inl over ↦ ground (arith, over)
    | inr live ↦ absurd (ground (arith, live, h))
  ]

  orders_quiet :
      (d : Dict String SimOrder) (positions : Positions)
      → (resolve_orders env true d positions).updates ≡ []
      → rounds env d ≡ 0
  unfolding resolve_orders
  orders_quiet [] positions h = refl
  orders_quiet ((id, order) ∷ d) positions h =
      let step = process_due_order env true order positions in
      let (order', positions') = after_step env id order positions step in
      let (first, others) = parts (updates_of env step) _ h in
      let one = order_quiet order positions first in
      let rest = orders_quiet d positions' others in omega (arith, one, rest)
    where
      parts : (us vs : List BrokerOrder) → us ++ vs ≡ [] → (us ≡ []) × (vs ≡ [])
      parts [] vs e = (refl, e)
      parts (u ∷ us) vs e = absurd (ground (arith, e))

  orders_over :
      (d : Dict String SimOrder) (positions : Positions)
      → rounds env d ≡ 0
      → (resolve_orders env true d positions).updates ≡ []
  unfolding resolve_orders
  orders_over [] positions h = refl
  orders_over ((id, order) ∷ d) positions h =
      let rest = orders_over d positions (omega (arith, h)) in
      rw (order_over order positions (omega (arith, h))) rest

  dispatch-orders : (u : BrokerOrder) (s : SimulationBroker) → (dispatch env u s).orders ≡ s.orders
  unfolding dispatch
  dispatch-orders u s = elim (Bool-cases s.ws_connected) [
    | inl on ↦ rw on refl
    | inr off ↦ rw off refl
  ]

  dispatch_all-orders :
      (us : List BrokerOrder) (s : SimulationBroker) → (dispatch_all env us s).orders ≡ s.orders
  unfolding dispatch_all
  dispatch_all-orders [] s = refl
  dispatch_all-orders (u ∷ us) s = dispatch_all-orders us (dispatch env u s) ∙ dispatch-orders u s

  resolved_fewer :
      (s : SimulationBroker)
      → rounds env (resolve_due_orders env true s).1.orders ≤ rounds env s.orders - 1
  unfolding resolve_due_orders
  resolved_fewer s =
      let round = resolve_orders env true s.orders s.positions in
      rw
        (dispatch_all-orders round.updates
          (record s { orders = round.orders; positions = round.positions }))
        (orders_fewer s.orders s.positions)

  resolved_updates :
      (s : SimulationBroker)
      → (resolve_due_orders env true s).0 ≡ (resolve_orders env true s.orders s.positions).updates
  unfolding resolve_due_orders
  resolved_updates s = refl

  -- The loop gets by with the rounds that its orders have left, and one to see that there is none.
  Over : Option SimulationBroker → Type 0
  Over none = ⊥
  Over (some s') = rounds env s'.orders ≡ 0

  loop_step :
      (n : ℕ) (s : SimulationBroker) (updates : List BrokerOrder)
      → (resolve_due_orders env true s).0 ≡ updates
      → rounds env s.orders ≤ n
      → (rounds env (resolve_due_orders env true s).1.orders ≤ n - 1
          → 0 < n
          → Over (pump_loop env n (resolve_due_orders env true s).1))
      → Over (
          more env updates
            (pump_loop env n (resolve_due_orders env true s).1)
            (resolve_due_orders env true s).1)
  unfolding Over
  loop_step n s [] quiet bound next =
      let fewer = resolved_fewer s in
      let over = orders_quiet s.orders s.positions (sym (resolved_updates s) ∙ quiet) in
      omega (arith, fewer, over)
  loop_step n s (u ∷ us) loud bound next =
      let fewer = resolved_fewer s in
      let some_left : 0 < rounds env s.orders = elim (Bool-cases (ltb 0 (rounds env s.orders))) [
        | inl some_left ↦ ground (arith, some_left)
        | inr nothing ↦
            let over : rounds env s.orders ≡ 0 = ground (arith, nothing) in
            let quiet = resolved_updates s ∙ orders_over s.orders s.positions over in
            absurd (ground (arith, quiet, loud))
      ] in
      next (omega (arith, fewer, bound)) (omega (arith, some_left, bound))

  loop-Over :
      (n : ℕ) (s : SimulationBroker) → rounds env s.orders ≤ n → Over (pump_loop env (suc n) s)
  unfolding pump_loop
  loop-Over zero s bound =
      loop_step zero s _ refl bound (λ fewer some_left. absurd (omega (arith, some_left)))
  loop-Over (suc n) s bound =
      loop_step (suc n) s _ refl bound
        (λ fewer some_left. loop-Over n (resolve_due_orders env true s).1 (omega (arith, fewer)))

  loop_ends :
      (o : Option SimulationBroker)
      → Over o
      → (s' : SimulationBroker) × (o ≡ some s') × (rounds env s'.orders ≡ 0)
  unfolding Over
  loop_ends none h = absurd h
  loop_ends (some s') h = (s', refl, h)

-- Every order is complete, rejected, cancelled or in error.
pub AllOver : Dict String SimOrder → Type 0
AllOver [] = Unit
AllOver ((_, order) ∷ d) = (is_terminal_status order.status ≡ true) × AllOver d

rounds-AllOver : (env : Env) (d : Dict String SimOrder) → rounds env d ≡ 0 → AllOver d
unfolding AllOver
rounds-AllOver env [] h = tt
rounds-AllOver env ((id, order) ∷ d) h = (
  elim (Bool-cases (is_terminal_status order.status)) [
    | inl over ↦ over
    | inr live ↦ absurd (ground (arith, live, h))
  ],
  rounds-AllOver env d (omega (arith, h)),
)

-- On a synchronous broker the matching of any state comes to an end, and then every order is over:
-- none is left open, whatever the steps and quantities of its orders.
pub pump-AllOver :
    (env : Env) (s : SimulationBroker)
    → env.synchronous ≡ true
    → (s' : SimulationBroker) × (pump env s ≡ some s') × AllOver s'.orders
unfolding pump
pump-AllOver env s synchronous =
    let (s', same, over) = loop_ends env _ (loop-Over env (rounds env s.orders) s (omega arith)) in
    (s', rw synchronous same, rounds-AllOver env s'.orders over)
