-- ===== src/Simulation/Matching/Filled.antt =====
-- What the matching keeps of the orders: nothing is filled beyond the quantity.
use trading_project.Base.{
  ℕ, ◌-◌, ◌≤◌, ◌≡◌, arith, inl, inr, Bool-cases, String, Bool, not, [], ◌∷◌, leb, ltb, ◌&&◌,
  string_eq,
}
use trading_project.Base.Int.{ℤ}
use trading_project.Base.Dict.{Dict}
use trading_project.Enums.{OrderStatus}
use trading_project.Orders.{is_terminal_status}
use trading_project.Simulation.{
  FillOutcome, SimOrder, Positions, Env, step_qty, advanced, filled_order, filled_step, matched,
  process_due_order,
}
use trading_project.Simulation.Matching.{SimulationBroker, after_step, resolve_orders, pump}
use trading_project.Simulation.Matching.Loop.{After, pump-After}

-- No more is filled than ordered, and all of it once the order is complete.
pub record IsFilledWithin (order : SimOrder) : Type 0 where
  pub within : order.filled_quantity ≤ order.quantity
  pub complete : order.status ≡ OrderStatus.complete → order.filled_quantity ≡ order.quantity

unfoldable pub AllWithin : Dict String SimOrder → Type 0
AllWithin [] = Unit
AllWithin ((_, order) ∷ d) = IsFilledWithin order × AllWithin d

module _ (env : Env) where
  advanced-IsFilledWithin :
      (order : SimOrder)
      → order.filled_quantity ≤ order.quantity
      → IsFilledWithin (advanced env order)
  unfolding advanced
  advanced-IsFilledWithin order h = elim (Bool-cases (leb order.quantity order.filled_quantity)) [
    | inl all ↦ rw all (record { within = h; complete = λ e. ground (arith, all) })
    | inr some_left ↦ rw some_left (record { within = h; complete = λ e. cc })
  ]

  step_qty_within : (order : SimOrder) → step_qty env order ≤ order.quantity - order.filled_quantity
  unfolding step_qty
  step_qty_within order = ground arith

  filled_step-IsFilledWithin :
      (order : SimOrder) (qty : ℕ) (price : ℤ) (positions : Positions)
      → qty ≤ order.quantity - order.filled_quantity
      → order.filled_quantity ≤ order.quantity
      → IsFilledWithin (filled_step env order qty price positions).0
  unfolding filled_step
  filled_step-IsFilledWithin order qty price positions fits h = elim (Bool-cases (ltb 0 qty)) [
    | inl fills ↦ rw fills (
        advanced-IsFilledWithin (filled_order env order qty price)
          (unfold filled_order in omega (arith, fits, h)))
    | inr nothing ↦ rw nothing (advanced-IsFilledWithin order h)
  ]

  matched-IsFilledWithin :
      (order : SimOrder) (o : FillOutcome) (positions : Positions)
      → order.filled_quantity ≤ order.quantity
      → IsFilledWithin (matched env order o positions).0
  unfolding matched
  matched-IsFilledWithin order FillOutcome.rejected positions h = record {
    within = h;
    complete = λ e. cc;
  }
  matched-IsFilledWithin order FillOutcome.full_fill positions h =
      filled_step-IsFilledWithin order _ _ positions (step_qty_within order) h
  matched-IsFilledWithin order FillOutcome.partial_then_fill positions h =
      filled_step-IsFilledWithin order _ _ positions (step_qty_within order) h

  -- one order of a round
  step-IsFilledWithin :
      (force : Bool) (id : String) (order : SimOrder) (positions : Positions)
      → IsFilledWithin order
      → IsFilledWithin
          (after_step env id order positions (process_due_order env force order positions)).0
  unfolding process_due_order
  step-IsFilledWithin force id order positions h =
      elim (Bool-cases (is_terminal_status order.status)) [
        | inl over ↦ rw over h
        | inr live ↦ rw live (elim (Bool-cases (not force && ltb env.now order.resolve_at)) [
          | inl early ↦ rw early h
          | inr due ↦ rw due (matched-IsFilledWithin order order.outcome positions h.within)
        ])
      ]

  resolve_orders-AllWithin :
      (force : Bool) (d : Dict String SimOrder) (positions : Positions)
      → AllWithin d
      → AllWithin (resolve_orders env force d positions).orders
  unfolding resolve_orders AllWithin
  resolve_orders-AllWithin force [] positions h = tt
  resolve_orders-AllWithin force ((id, order) ∷ d) positions h =
      let positions' =
        (after_step env id order positions (process_due_order env force order positions)).1 in
      (
        step-IsFilledWithin force id order positions h.0,
        resolve_orders-AllWithin force d positions' h.1,
      )

  pub pump-AllWithin :
      (s : SimulationBroker) → AllWithin s.orders → After (λ d positions. AllWithin d) (pump env s)
  pump-AllWithin s h = pump-After env _ resolve_orders-AllWithin s h
