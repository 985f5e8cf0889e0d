-- ===== src/Simulation/Matching/Identity.antt =====
-- The matching keeps the identifier and the tag of an order, and where they lead.
use trading_project.Base.{
  ℕ, ◌≡◌, inl, inr, Bool-cases, String, Bool, true, false, not, Option, none, some, [], ◌∷◌, leb,
  ltb, ◌&&◌, ◌==◌, string_eq, if◌then◌else◌,
}
use trading_project.Base.Int.{ℤ}
use trading_project.Base.Dict.{Dict, lookup}
use trading_project.Models.{Tag, tag_eq}
use trading_project.Orders.{is_terminal_status}
use trading_project.Simulation.{
  FillOutcome, SimOrder, Positions, Env, advanced, filled_order, filled_step, matched,
  process_due_order,
}
use trading_project.Simulation.Matching.{SimulationBroker, after_step, resolve_orders, pump}
use trading_project.Simulation.Matching.Loop.{Kept, RoundsKeep, pump-Kept}

-- An order of the identifier and the tag.
pub record IsNamed (id : String) (tag : Tag) (order : SimOrder) : Type 0 where
  pub same_id : order.broker_order_id ≡ id
  pub same_tag : order.tag ≡ tag

module _ (id : String) (tag : Tag) where
  -- the order that the identifier leads to
  unfoldable pub Leads : Option SimOrder → Type 0
  Leads none = ⊥
  Leads (some order) = IsNamed id tag order

  -- The tag leads to the identifier, and that to an order of the two.
  pub record IsFindable (s : SimulationBroker) : Type 0 where
    pub tagged : lookup tag s.orders_by_tag ≡ some id
    pub led : Leads (lookup id s.orders)

module _ (env : Env) (id : String) (tag : Tag) where
  advanced-IsNamed : (order : SimOrder) → IsNamed id tag order → IsNamed id tag (advanced env order)
  unfolding advanced
  advanced-IsNamed order h = elim (Bool-cases (leb order.quantity order.filled_quantity)) [
    | inl all ↦ rw all (record { same_id = h.same_id; same_tag = h.same_tag })
    | inr part ↦ rw part (record { same_id = h.same_id; same_tag = h.same_tag })
  ]

  filled_step-IsNamed :
      (order : SimOrder) (n : ℕ) (price : ℤ) (positions : Positions)
      → IsNamed id tag order
      → IsNamed id tag (filled_step env order n price positions).0
  unfolding filled_step
  filled_step-IsNamed order n price positions h = elim (Bool-cases (ltb 0 n)) [
    | inl fills ↦ rw fills (
        advanced-IsNamed (filled_order env order n price)
          (unfold filled_order in record { same_id = h.same_id; same_tag = h.same_tag }))
    | inr nothing ↦ rw nothing (advanced-IsNamed order h)
  ]

  matched-IsNamed :
      (order : SimOrder) (o : FillOutcome) (positions : Positions)
      → IsNamed id tag order
      → IsNamed id tag (matched env order o positions).0
  unfolding matched
  matched-IsNamed order FillOutcome.rejected positions h = record {
    same_id = h.same_id;
    same_tag = h.same_tag;
  }
  matched-IsNamed order FillOutcome.full_fill positions h =
      filled_step-IsNamed order _ _ positions h
  matched-IsNamed order FillOutcome.partial_then_fill positions h =
      filled_step-IsNamed order _ _ positions h

  step-IsNamed :
      (force : Bool) (key : String) (order : SimOrder) (positions : Positions)
      → IsNamed id tag order
      → IsNamed id tag
          (after_step env key order positions (process_due_order env force order positions)).0
  unfolding process_due_order
  step-IsNamed force key order positions h = elim (Bool-cases (is_terminal_status order.status)) [
    | inl over ↦ rw over h
    | inr live ↦ rw live (elim (Bool-cases (not force && ltb env.now order.resolve_at)) [
      | inl early ↦ rw early h
      | inr due ↦ rw due (matched-IsNamed order order.outcome positions h)
    ])
  ]

  round-Leads :
      (force : Bool) (d : Dict String SimOrder) (positions : Positions)
      → Leads id tag (lookup id d)
      → Leads id tag (lookup id (resolve_orders env force d positions).orders)
  unfolding resolve_orders Leads
  round-Leads force [] positions h = h
  round-Leads force ((key, order) ∷ d) positions h =
      let (order', positions') =
        after_step env key order positions (process_due_order env force order positions) in
      by_key (id == key) order order' (lookup id d)
        (lookup id (resolve_orders env force d positions').orders) h
        (step-IsNamed force key order positions) (round-Leads force d positions')
    where
      by_key :
          (here : Bool) (order order' : SimOrder) (rest rest' : Option SimOrder)
          → Leads id tag (if here then some order else rest)
          → (IsNamed id tag order → IsNamed id tag order')
          → (Leads id tag rest → Leads id tag rest')
          → Leads id tag (if here then some order' else rest')
      by_key true order order' rest rest' h step next = step h
      by_key false order order' rest rest' h step next = next h

  rounds_keep : RoundsKeep env (IsFindable id tag)
  rounds_keep = record {
    dispatched = λ s us h. record { tagged = h.tagged; led = h.led };
    round = λ force s h. record {
      tagged = h.tagged;
      led = round-Leads force s.orders s.positions h.led;
    };
  }

  pub pump-IsFindable :
      (s : SimulationBroker) → IsFindable id tag s → Kept (IsFindable id tag) (pump env s)
  pump-IsFindable s h = pump-Kept env (IsFindable id tag) rounds_keep s h
