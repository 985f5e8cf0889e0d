-- ===== src/Simulation/Operations/Reads.antt =====
-- The calls of the simulated broker that only look, after a matching: its orders, its positions and the
-- margin that they use.
pub mod Lost
use trading_project.Base.{
  ℕ, ◌/◌, max, String, Option, none, some, List, [], ◌∷◌, map, if◌then◌else◌, string_eq,
}
use trading_project.Base.Int.{ℤ, pos, abs, ◌+ℤ◌, ◌-ℤ◌, ◌*ℤ◌, eqb_ℤ}
use trading_project.Base.Dict.{Dict, lookup, values}
use trading_project.Enums.{Exchange, ProductType}
use trading_project.Models.{Tag, tag_eq}
use trading_project.Broker.Contract.{BrokerPosition, BrokerMargins}
use trading_project.Broker.{
  BrokerInstrument, BrokerOrder, BrokerError, BrokerResult, returned, raised,
}
use trading_project.Simulation.{SimOrder, SimPosition, PositionKey, Positions, Env, to_broker_order}
use trading_project.Simulation.Matching.{SimulationBroker, pump}
use trading_project.Simulation.Operations.{Call, stopped_read}

module _ (env : Env) where
  module _ {A : Type 0} (answer : SimulationBroker → BrokerResult A) where
    -- the answer is read from the state that the matching left; there is none if it did not end
    matched_answer : SimulationBroker → Option SimulationBroker → Call A
    matched_answer s none = (raised BrokerError.timeout, none)
    matched_answer s (some s') = (answer s', some s')

    read_unless : Option BrokerError → SimulationBroker → Call A
    unfolding matched_answer
    read_unless (some e) s = (raised e, some s)
    read_unless none s = matched_answer s (pump env s)

    pub read : SimulationBroker → Call A
    unfolding read_unless stopped_read
    read s = read_unless (stopped_read env) s

  found_order : Option SimOrder → BrokerResult BrokerOrder
  found_order none = raised BrokerError.order_not_found
  found_order (some order) = returned (to_broker_order order)

  pub get_order : String → SimulationBroker → Call BrokerOrder
  unfolding read found_order
  get_order id s = read (λ s'. found_order (lookup id s'.orders)) s

  pub get_orders : SimulationBroker → Call (List BrokerOrder)
  unfolding read
  get_orders s = read (λ s'. returned (map to_broker_order (values s'.orders))) s

  -- the identifier that a tag leads to is that of an order
  tagged_order : Option String → Dict String SimOrder → Option BrokerOrder
  tagged_order none orders = none
  tagged_order (some id) orders = elim (lookup id orders) [
    | none ↦ none
    | some order ↦ some (to_broker_order order)
  ]

  pub find_order_by_tag : Tag → SimulationBroker → Call (Option BrokerOrder)
  unfolding read tagged_order
  find_order_by_tag tag s =
      read (λ s'. returned (tagged_order (lookup tag s'.orders_by_tag) s'.orders)) s

  -- `get_positions`: the open ones, at the last price
  abbrev position_at : PositionKey → SimPosition → ℤ → BrokerPosition
  position_at key position last_price = record {
    exchange = key.exchange;
    tradingsymbol = key.tradingsymbol;
    product = key.product;
    quantity = position.quantity;
    average_price = position.average_price;
    last_price = last_price;
    pnl = position.realized_pnl +ℤ position.quantity *ℤ (last_price -ℤ position.average_price);
  }

  pub open_positions : Positions → List BrokerPosition
  open_positions [] = []
  open_positions ((key, position) ∷ positions) =
      let rest = open_positions positions in
      if eqb_ℤ position.quantity (pos 0)
      then rest
      else position_at key position
          (env.get_ltp (record { exchange = key.exchange; tradingsymbol = key.tradingsymbol }))
        ∷ rest

  pub get_positions : SimulationBroker → Call (List BrokerPosition)
  unfolding read open_positions
  get_positions s = read (λ s'. returned (open_positions s'.positions)) s

  -- `get_margins`: the lots of a position, and what they and the realized amounts sum up to
  abbrev lots_of : SimPosition → Option BrokerInstrument → ℕ
  lots_of position none = abs position.quantity
  lots_of position (some instrument) = max 1 (abs position.quantity / instrument.lot_size)

  pub margin_sums : ℤ → Positions → ℤ × ℤ
  margin_sums margin_per_lot [] = (pos 0, pos 0)
  margin_sums margin_per_lot ((key, position) ∷ positions) =
      let (used, realized) = margin_sums margin_per_lot positions in
      (
        (if eqb_ℤ position.quantity (pos 0)
            then used
            else margin_per_lot
                *ℤ pos (
                    lots_of position (
                      env.get_by_symbol
                        (record { exchange = key.exchange; tradingsymbol = key.tradingsymbol })))
              +ℤ used),
        position.realized_pnl +ℤ realized,
      )

  pub get_margins : ℤ → ℤ → SimulationBroker → Call BrokerMargins
  unfolding read margin_sums
  get_margins initial_cash margin_per_lot s =
      read
        (λ s'.
          let (used, realized) = margin_sums margin_per_lot s'.positions in
          returned (record {
            segment = "NFO";
            available_cash = initial_cash +ℤ realized -ℤ used;
            used_margin = used;
            opening_balance = initial_cash;
          }))
        s
