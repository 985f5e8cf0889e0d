-- ===== src/Simulation/Matching/Balance.antt =====
-- The book of the simulated broker: its positions are the signed sums of what its orders filled.
use trading_project.Base.{
  ℕ, ◌+◌, ◌≡◌, refl, sym, ap, ◌∙◌, arith, inl, inr, Bool-cases, String, Bool, true, false, not,
  some, [], ◌∷◌, ltb, leb, ◌&&◌, ◌==◌, string_eq, if◌then◌else◌,
}
use trading_project.Base.Int.{ℤ, pos, ◌+ℤ◌, eqb_ℤ, eqb_ℤ_iff, int_laws, +ℤ_comm, +ℤ_assoc}
use trading_project.Base.Dict.{Dict, lookup, lookup-insert}
use trading_project.Enums.{TransactionType}
use trading_project.Orders.{is_terminal_status}
use trading_project.Simulation.{
  FillOutcome, SimOrder, SimPosition, PositionKey, position_key_eq, Positions, Env, signed,
  same_side, add_to, reduce, update_position, key_of, or_flat, filled_order, filled_positions,
  advanced, filled_step, matched, process_due_order,
}
use trading_project.Simulation.Matching.{SimulationBroker, after_step, resolve_orders, pump}
use trading_project.Simulation.Matching.Loop.{After, pump-After}

module _ (env : Env) where
  add_to-quantity :
      (p : SimPosition) (delta price : ℤ)
      → (add_to env p delta price).quantity ≡ p.quantity +ℤ delta
  unfolding add_to
  add_to-quantity p delta price = elim (Bool-cases (eqb_ℤ (p.quantity +ℤ delta) (pos 0))) [
    | inl zero ↦ rw zero (sym ((eqb_ℤ_iff (p.quantity +ℤ delta) (pos 0)).0 zero))
    | inr more ↦ rw more refl
  ]

  -- A fill moves the quantity of a position by the signed quantity that was filled.
  update_position-quantity :
      (p : SimPosition) (side : TransactionType) (n : ℕ) (price : ℤ)
      → (update_position env p side n price).quantity ≡ p.quantity +ℤ signed side n
  unfolding update_position reduce
  update_position-quantity p side n price = elim (Bool-cases (eqb_ℤ p.quantity (pos 0))) [
    | inl empty ↦ rw empty (add_to-quantity p (signed side n) price)
    | inr held ↦ rw held (by_side (same_side env p.quantity (signed side n)))
  ]
    where
      by_side :
          (same : Bool)
          → (if same
              then add_to env p (signed side n) price
              else reduce env p (signed side n) price).quantity
            ≡ p.quantity +ℤ signed side n
      by_side true = add_to-quantity p (signed side n) price
      by_side false = refl

module _ (key : PositionKey) where
  -- the quantity of the position of the key, and what an order filled of it
  abbrev pub quantity_of : Positions → ℤ
  quantity_of positions = (or_flat (lookup key positions)).quantity

  abbrev pub filled_of : SimOrder → ℤ
  filled_of order =
      if key == key_of order then signed order.transaction_type order.filled_quantity else pos 0

  unfoldable pub total_filled : Dict String SimOrder → ℤ
  total_filled [] = pos 0
  total_filled ((_, order) ∷ d) = filled_of order +ℤ total_filled d

  -- The book balances: the position of the key is what the orders filled of it.
  unfoldable pub Balances : Dict String SimOrder → Positions → Type 0
  Balances d positions = quantity_of positions ≡ total_filled d

module _ (env : Env) (key : PositionKey) where
  signed_sum :
      (side : TransactionType) (a b : ℕ) → signed side (a + b) ≡ signed side a +ℤ signed side b
  unfolding ◌+ℤ◌
  signed_sum TransactionType.buy a b = ground arith
  signed_sum TransactionType.sell a b = ground arith

  swapped : (q a b : ℤ) → q +ℤ a +ℤ b ≡ q +ℤ (b +ℤ a)
  swapped q a b = +ℤ_assoc q a b ∙ ap (λ x. q +ℤ x) (+ℤ_comm a b)

  updated : SimOrder → ℕ → ℤ → Positions → SimPosition
  updated order n price positions =
      update_position env (or_flat (lookup (key_of order) positions)) order.transaction_type n price

  updated-quantity :
      (order : SimOrder) (n : ℕ) (price : ℤ) (positions : Positions)
      → (updated order n price positions).quantity
        ≡ (or_flat (lookup (key_of order) positions)).quantity +ℤ signed order.transaction_type n
  unfolding updated
  updated-quantity order n price positions =
      update_position-quantity env (or_flat (lookup (key_of order) positions))
        order.transaction_type n price

  filled_order-signed :
      (order : SimOrder) (n : ℕ) (price : ℤ)
      → signed order.transaction_type (filled_order env order n price).filled_quantity
        ≡ signed order.transaction_type order.filled_quantity +ℤ signed order.transaction_type n
  unfolding filled_order
  filled_order-signed order n price = signed_sum order.transaction_type order.filled_quantity n

  lookup_filled :
      (order : SimOrder) (n : ℕ) (price : ℤ) (positions : Positions)
      → lookup key (filled_positions env order n price positions) ≡ (
          if key == key_of order
          then some (updated order n price positions)
          else lookup key positions)
  unfolding filled_positions updated
  lookup_filled order n price positions = lookup-insert key (key_of order) _ positions

  -- A fill moves the position and the order alike.
  fill_balances :
      (order : SimOrder) (n : ℕ) (price : ℤ) (positions : Positions)
      → quantity_of key (filled_positions env order n price positions) +ℤ filled_of key order
        ≡ quantity_of key positions +ℤ filled_of key (filled_order env order n price)
  unfolding filled_order
  fill_balances order n price positions =
      ap (λ o. (or_flat o).quantity +ℤ filled_of key order) (lookup_filled order n price positions)
      ∙ by_key (key == key_of order) refl
    where
      by_key :
          (same : Bool)
          → (key == key_of order) ≡ same
          → (or_flat (
                if same
                then some (updated order n price positions)
                else lookup key positions)).quantity
              +ℤ (if same then signed order.transaction_type order.filled_quantity else pos 0)
            ≡ quantity_of key positions
              +ℤ (if same
                  then signed order.transaction_type
                      (filled_order env order n price).filled_quantity
                  else pos 0)
      by_key true e =
          let side = order.transaction_type in
          let found : key ≡ key_of order = (position_key_eq.beq_iff key (key_of order)).0 e in
          let here = or_flat (lookup (key_of order) positions) in
          ap (λ q. q +ℤ signed side order.filled_quantity)
            (updated-quantity order n price positions)
          ∙ swapped here.quantity (signed side n) (signed side order.filled_quantity)
          ∙ ap
              (λ x.
                (or_flat (lookup x positions)).quantity
                +ℤ (signed side order.filled_quantity +ℤ signed side n))
              (sym found)
          ∙ ap (λ x. quantity_of key positions +ℤ x) (sym (filled_order-signed order n price))
      by_key false e = refl

  -- the end of a step changes neither what is filled nor the key
  advanced-filled : (order : SimOrder) → filled_of key (advanced env order) ≡ filled_of key order
  unfolding advanced
  advanced-filled order = elim (Bool-cases (leb order.quantity order.filled_quantity)) [
    | inl all ↦ rw all refl
    | inr some_left ↦ rw some_left refl
  ]

  Balanced : SimOrder → Positions → SimOrder × Positions → Type 0
  Balanced order positions step =
      quantity_of key step.1 +ℤ filled_of key order
      ≡ quantity_of key positions +ℤ filled_of key step.0

  filled_step-Balanced :
      (order : SimOrder) (n : ℕ) (price : ℤ) (positions : Positions)
      → Balanced order positions (filled_step env order n price positions)
  unfolding filled_step Balanced
  filled_step-Balanced order n price positions = elim (Bool-cases (ltb 0 n)) [
    | inl fills ↦ rw fills (
        fill_balances order n price positions
        ∙ ap (λ x. quantity_of key positions +ℤ x)
            (sym (advanced-filled (filled_order env order n price))))
    | inr nothing ↦
        rw nothing (ap (λ x. quantity_of key positions +ℤ x) (sym (advanced-filled order)))
  ]

  matched-Balanced :
      (order : SimOrder) (o : FillOutcome) (positions : Positions)
      → Balanced order positions (matched env order o positions)
  unfolding matched Balanced
  matched-Balanced order FillOutcome.rejected positions = refl
  matched-Balanced order FillOutcome.full_fill positions =
      unfold Balanced in filled_step-Balanced order _ _ positions
  matched-Balanced order FillOutcome.partial_then_fill positions =
      unfold Balanced in filled_step-Balanced order _ _ positions

  step-Balanced :
      (force : Bool) (id : String) (order : SimOrder) (positions : Positions)
      → Balanced order positions
          (after_step env id order positions (process_due_order env force order positions))
  unfolding process_due_order Balanced
  step-Balanced force id order positions = elim (Bool-cases (is_terminal_status order.status)) [
    | inl over ↦ rw over refl
    | inr live ↦ rw live (elim (Bool-cases (not force && ltb env.now order.resolve_at)) [
      | inl early ↦ rw early refl
      | inr due ↦ rw due (matched-Balanced order order.outcome positions)
    ])
  ]

  -- the sums of a round: what the position gains, the orders gain
  moved_together :
      (q0 q1 q2 a a' t t' : ℤ)
      → q1 +ℤ a ≡ q0 +ℤ a'
      → q2 +ℤ t ≡ q1 +ℤ t'
      → q2 +ℤ (a +ℤ t) ≡ q0 +ℤ (a' +ℤ t')
  moved_together q0 q1 q2 a a' t t' h k =
      sym (swapped q2 t a)
      ∙ ap (λ x. x +ℤ a) k
      ∙ swapped q1 t' a
      ∙ sym (+ℤ_assoc q1 a t')
      ∙ ap (λ x. x +ℤ t') h
      ∙ +ℤ_assoc q0 a' t'

  round_balances :
      (force : Bool) (d : Dict String SimOrder) (positions : Positions)
      → let r = resolve_orders env force d positions in
        quantity_of key r.positions +ℤ total_filled key d
        ≡ quantity_of key positions +ℤ total_filled key r.orders
  unfolding resolve_orders total_filled Balanced
  round_balances force [] positions = refl
  round_balances force ((id, order) ∷ d) positions =
      let step = after_step env id order positions (process_due_order env force order positions) in
      moved_together (quantity_of key positions) (quantity_of key step.1) _ (filled_of key order)
        (filled_of key step.0) (total_filled key d) _ (step-Balanced force id order positions)
        (round_balances force d step.1)

  cancels_right : (a b c : ℤ) → a +ℤ b ≡ b +ℤ c → a ≡ c
  cancels_right a b c h = grind (int_laws, h)

  round-Balances :
      (force : Bool) (d : Dict String SimOrder) (positions : Positions)
      → Balances key d positions
      → let r = resolve_orders env force d positions in Balances key r.orders r.positions
  unfolding Balances
  round-Balances force d positions h =
      let r = resolve_orders env force d positions in
      cancels_right (quantity_of key r.positions) (total_filled key d) (total_filled key r.orders)
        (round_balances force d positions ∙ ap (λ x. x +ℤ total_filled key r.orders) h)

  pub pump-Balances :
      (s : SimulationBroker) → Balances key s.orders s.positions → After (Balances key) (pump env s)
  pump-Balances s h = pump-After env (Balances key) round-Balances s h
