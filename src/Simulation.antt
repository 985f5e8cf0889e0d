-- ===== src/Simulation.antt =====
-- `SimulationBroker` of src/algo/brokers/simulation/simulation_broker.py: its orders, its positions and
-- how one order is matched. Quotients of amounts are `Decimal`'s, a parameter; the clock, the random
-- draws, the prices and the catalogue are what a call meets. Calls are modelled one after another.
pub mod Matching
pub mod Operations
use trading_project.Base.{
  ℕ, suc, ◌+◌, ◌-◌, ◌*◌, ◌/◌, min, max, ◌≡◌, ◌↔◌, arith, String, Bool, true, false, Option, none,
  some, List, [], ◌∷◌, leb, ltb, eqb, ◌==◌, ◌&&◌, not, string_eq, if◌then◌else◌,
}
use trading_project.Base.Eq.{Eq}
use trading_project.Base.Int.{ℤ, pos, negsuc, sub_ℕ, ◌+ℤ◌, ◌-ℤ◌, ◌*ℤ◌, abs, ltb_ℤ, eqb_ℤ}
use trading_project.Base.Dict.{Dict, lookup, insert}
use trading_project.Enums.{
  Exchange, exchange_eq, OrderStatus, OrderType, ProductType, product_type_eq, TransactionType,
}
use trading_project.Models.{Tag}
use trading_project.Broker.{InstrumentIdentifier, BrokerInstrument, BrokerOrder}
use trading_project.Orders.{is_terminal_status}

pub data FillOutcome : Type 0 where
  full_fill partial_then_fill rejected : FillOutcome

-- `_SimOrder`
pub record SimOrder : Type 0 where
  pub broker_order_id : String
  pub tag : Tag
  pub exchange : Exchange
  pub tradingsymbol : String
  pub transaction_type : TransactionType
  pub product : ProductType
  pub quantity : ℕ
  pub order_type : OrderType
  pub price : Option ℤ
  pub trigger_price : Option ℤ
  pub status : OrderStatus
  pub filled_quantity : ℕ
  pub average_price : Option ℤ
  pub placed_at : ℕ
  pub filled_at : Option ℕ
  pub exchange_updated_at : ℕ
  pub status_message : Option String
  pub outcome : FillOutcome
  pub resolve_at : ℕ
  pub remaining_steps : ℕ
  pub step_quantity : ℕ

-- `_SimPosition`
pub record SimPosition : Type 0 where
  pub quantity : ℤ
  pub average_price : ℤ
  pub realized_pnl : ℤ

abbrev pub flat : SimPosition
flat = record { quantity = pos 0; average_price = pos 0; realized_pnl = pos 0 }

pub record PositionKey : Type 0 where
  pub exchange : Exchange
  pub tradingsymbol : String
  pub product : ProductType

abbrev pub position_key_beq : PositionKey → PositionKey → Bool
position_key_beq a b =
    a.exchange == b.exchange && a.tradingsymbol == b.tradingsymbol && a.product == b.product

pub position_key_beq_iff : (a b : PositionKey) → (position_key_beq a b ≡ true) ↔ (a ≡ b)
position_key_beq_iff a b = ground (
  arith,
  exchange_eq.beq_iff a.exchange b.exchange,
  string_eq.beq_iff a.tradingsymbol b.tradingsymbol,
  product_type_eq.beq_iff a.product b.product,
)

instance abbrev pub position_key_eq : Eq PositionKey
position_key_eq = record { beq = position_key_beq; beq_iff = position_key_beq_iff }

abbrev pub Positions : Type 0
Positions = Dict PositionKey SimPosition

-- What one call meets: the clock, the prices, the catalogue and the draws of the random generator,
-- with the settings that it reads.
pub record Env : Type 0 where
  pub now : ℕ
  pub get_ltp : InstrumentIdentifier → ℤ
  pub get_by_symbol : InstrumentIdentifier → Option BrokerInstrument
  pub divided : ℤ → ℕ → ℤ
  pub connection_fails : Bool
  pub exceeds_timeout : Bool
  pub ack_times_out : Bool
  pub draws_rejection : Bool
  pub draws_partial : Bool
  pub partial_fill_steps : ℕ
  pub next_order_id : String
  pub synchronous : Bool
  pub fill_latency : ℕ

abbrev pub signed : TransactionType → ℕ → ℤ
signed TransactionType.buy n = pos n
signed TransactionType.sell n = sub_ℕ 0 n

abbrev is_positive : ℤ → Bool
is_positive q = ltb_ℤ (pos 0) q

abbrev pub key_of : SimOrder → PositionKey
key_of order = record {
  exchange = order.exchange;
  tradingsymbol = order.tradingsymbol;
  product = order.product;
}

abbrev pub or_flat : Option SimPosition → SimPosition
or_flat none = flat
or_flat (some p) = p

module _ (env : Env) where
  -- `_update_position`: a fill that opens or adds to the position
  add_to : SimPosition → ℤ → ℤ → SimPosition
  add_to position signed_delta fill_price =
      let total_qty = position.quantity +ℤ signed_delta in
      if eqb_ℤ total_qty (pos 0)
      then record { quantity = pos 0; average_price = pos 0; realized_pnl = position.realized_pnl }
      else record {
        quantity = total_qty;
        average_price =
            env.divided
              (position.average_price *ℤ pos (abs position.quantity)
                +ℤ fill_price *ℤ pos (abs signed_delta))
              (abs total_qty);
        realized_pnl = position.realized_pnl;
      }

  -- and one that reduces it, closes it or turns it round
  reduce : SimPosition → ℤ → ℤ → SimPosition
  reduce position signed_delta fill_price =
      let closing_qty = min (abs position.quantity) (abs signed_delta) in
      let realized =
        if is_positive position.quantity
        then pos closing_qty *ℤ (fill_price -ℤ position.average_price)
        else pos closing_qty *ℤ (position.average_price -ℤ fill_price) in
      let new_quantity = position.quantity +ℤ signed_delta in
      record {
        quantity = new_quantity;
        average_price =
            if eqb (abs signed_delta - closing_qty) 0
            then (if eqb_ℤ new_quantity (pos 0) then pos 0 else position.average_price)
            else fill_price;
        realized_pnl = position.realized_pnl +ℤ realized;
      }

  abbrev pub same_side : ℤ → ℤ → Bool
  same_side quantity delta =
      if is_positive quantity then is_positive delta else not (is_positive delta)

  pub update_position : SimPosition → TransactionType → ℕ → ℤ → SimPosition
  unfolding add_to reduce
  update_position position side filled_qty fill_price =
      let signed_delta = signed side filled_qty in
      if eqb_ℤ position.quantity (pos 0)
      then add_to position signed_delta fill_price
      else if same_side position.quantity signed_delta
      then add_to position signed_delta fill_price
      else reduce position signed_delta fill_price

  -- `average_price or Decimal("0")`
  abbrev or_zero : Option ℤ → ℤ
  or_zero none = pos 0
  or_zero (some price) = price

  -- `_apply_fill`: on the order, and on the positions
  pub filled_order : SimOrder → ℕ → ℤ → SimOrder
  filled_order order filled_delta fill_price = record order {
    average_price = some (
        env.divided
          (or_zero order.average_price *ℤ pos order.filled_quantity
            +ℤ fill_price *ℤ pos filled_delta)
          (order.filled_quantity + filled_delta));
    filled_quantity = order.filled_quantity + filled_delta;
  }

  pub filled_positions : SimOrder → ℕ → ℤ → Positions → Positions
  unfolding update_position
  filled_positions order filled_delta fill_price positions =
      insert (key_of order)
        (update_position (or_flat (lookup (key_of order) positions)) order.transaction_type
          filled_delta fill_price)
        positions

  -- What a step of the order fills. The subtraction may stop at 0 where the source's is negative: then
  -- nothing is filled in either.
  pub step_qty : SimOrder → ℕ
  step_qty order =
      let remaining_to_fill = order.quantity - order.filled_quantity in
      if leb order.remaining_steps 1
      then remaining_to_fill
      else min order.step_quantity remaining_to_fill

  -- the end of `_process_due_order`
  pub advanced : SimOrder → SimOrder
  advanced order =
      if leb order.quantity order.filled_quantity
      then record order {
        status = OrderStatus.complete;
        filled_at = some env.now;
        remaining_steps = 0;
        exchange_updated_at = env.now;
      }
      else record order {
        status = OrderStatus.opened;
        resolve_at = env.now + env.fill_latency;
        remaining_steps = order.remaining_steps - 1;
        exchange_updated_at = env.now;
      }

  filled_step : SimOrder → ℕ → ℤ → Positions → SimOrder × Positions
  unfolding advanced filled_order filled_positions
  filled_step order qty fill_price positions =
      if ltb 0 qty
      then (
        advanced (filled_order order qty fill_price),
        filled_positions order qty fill_price positions,
      )
      else (advanced order, positions)

  matched : SimOrder → FillOutcome → Positions → SimOrder × Positions
  unfolding filled_step step_qty
  matched order FillOutcome.rejected positions = (
    record order {
      status = OrderStatus.rejected;
      status_message = some "Simulated rejection";
      exchange_updated_at = env.now;
      remaining_steps = 0;
    },
    positions,
  )
  matched order _ positions =
      filled_step order (step_qty order)
        (env.get_ltp (record { exchange = order.exchange; tradingsymbol = order.tradingsymbol }))
        positions

  -- `_process_due_order`; `none` where the order is over or not due
  pub process_due_order : Bool → SimOrder → Positions → Option (SimOrder × Positions)
  unfolding matched
  process_due_order force order positions =
      if is_terminal_status order.status
      then none
      else if not force && ltb env.now order.resolve_at
      then none
      else some (matched order order.outcome positions)

-- `_to_broker_order`
abbrev pub to_broker_order : SimOrder → BrokerOrder
to_broker_order order = record {
  broker_order_id = order.broker_order_id;
  tag = some order.tag;
  status = order.status;
  exchange = order.exchange;
  tradingsymbol = order.tradingsymbol;
  transaction_type = order.transaction_type;
  product = order.product;
  order_type = order.order_type;
  quantity = order.quantity;
  filled_quantity = order.filled_quantity;
  average_price = order.average_price;
  trigger_price = order.trigger_price;
  placed_at = some order.placed_at;
  filled_at = order.filled_at;
  exchange_updated_at = some order.exchange_updated_at;
  status_message = order.status_message;
  raw_response = none;
}
