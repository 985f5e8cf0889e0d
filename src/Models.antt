-- ===== src/Models.antt =====
-- The rows of src/algo/database/models: what the modelled code reads and writes. Money columns are
-- NUMERIC(18, 4), so an amount is the integer count of ten-thousandths; fractions are
-- NUMERIC(6, 4), counted likewise. Times are instants, dates are day numbers. A key or a tag that is
-- rendered from a leg is kept as the parts that are rendered, which the text determines. The columns
-- `created_at`, `updated_at` and `version` belong to the mapper and have no field here.
use trading_project.Base.{
  ℕ, ◌≡◌, ◌↔◌, String, Bool, true, false, Option, arith, ◌&&◌, ◌==◌, nat_eq, string_eq, not,
  if◌then◌else◌,
}
use trading_project.Base.Eq.{Eq}
use trading_project.Base.Int.{ℤ}
use trading_project.Enums.{
  Exchange, OptionType, PositionState, ExitReason, TradeLegStatus, OrderPurpose, TransactionType,
  OrderType, OrderStatus, IntentStatus, option_type_eq, order_purpose_eq, StateTransitionActor,
}

pub record Position : Type 0 where
  pub id : ℕ
  pub strategy_instance_id : ℕ
  pub trade_date : ℕ
  pub state : PositionState
  pub expiry_date : Option ℕ
  pub strike : Option ℤ
  pub strike_interval : Option ℤ
  pub lots : Option ℕ
  pub lot_size : Option ℕ
  pub quantity : Option ℕ
  pub entry_spot_ltp : Option ℤ
  pub target_pct : Option ℤ
  pub sl_pct : Option ℤ
  pub combined_entry_premium : Option ℤ
  pub target_premium : Option ℤ
  pub stoploss_premium : Option ℤ
  pub combined_exit_premium : Option ℤ
  pub exit_reason : Option ExitReason
  pub realized_pnl : Option ℤ
  pub entry_signal_time : Option ℕ
  pub entry_completed_at : Option ℕ
  pub exit_signal_time : Option ℕ
  pub exit_completed_at : Option ℕ
  pub error_message : Option String
  pub needs_reconciliation : Bool

pub record PositionStateTransition : Type 0 where
  pub position_id : ℕ
  pub from_state : PositionState
  pub to_state : PositionState
  pub reason : Option String
  pub actor : StateTransitionActor

pub record Trade : Type 0 where
  pub id : ℕ
  pub position_id : ℕ
  pub option_type : OptionType
  pub trading_symbol : String
  pub exchange : Exchange
  pub strike : ℤ
  pub quantity : ℕ
  pub entry_price : Option ℤ
  pub exit_price : Option ℤ
  pub entry_time : Option ℕ
  pub exit_time : Option ℕ
  pub realized_pnl : Option ℤ
  pub status : TradeLegStatus

-- What idempotency keys and broker tags are rendered from: an entry or an exit of one leg of one
-- instance on one day.
pub record LegKey : Type 0 where
  pub purpose : OrderPurpose
  pub instance_id : ℕ
  pub trade_date : ℕ
  pub option_type : OptionType
  -- the marker of the order that unwinds the leg of a failed entry
  pub unwind : Bool

abbrev pub leg_key_beq : LegKey → LegKey → Bool
leg_key_beq a b =
    a.purpose == b.purpose
    && a.instance_id == b.instance_id
    && a.trade_date == b.trade_date
    && a.option_type == b.option_type
    && (if a.unwind then b.unwind else not b.unwind)

pub leg_key_beq_iff : (a b : LegKey) → (leg_key_beq a b ≡ true) ↔ (a ≡ b)
leg_key_beq_iff a b = ground (
  arith,
  order_purpose_eq.beq_iff a.purpose b.purpose,
  option_type_eq.beq_iff a.option_type b.option_type,
)

instance abbrev pub leg_key_eq : Eq LegKey
leg_key_eq = record { beq = leg_key_beq; beq_iff = leg_key_beq_iff }

-- A tag that the platform rendered, or any other text.
pub data Tag : Type 0 where
  leg : LegKey → Tag
  text : String → Tag

abbrev pub tag_beq : Tag → Tag → Bool
tag_beq (Tag.leg a) (Tag.leg b) = a == b
tag_beq (Tag.text a) (Tag.text b) = a == b
tag_beq _ _ = false

pub tag_beq_iff : (a b : Tag) → (tag_beq a b ≡ true) ↔ (a ≡ b)
tag_beq_iff (Tag.leg a) (Tag.leg b) = ground (arith, leg_key_beq_iff a b)
tag_beq_iff (Tag.text a) (Tag.text b) = ground (arith, string_eq.beq_iff a b)
tag_beq_iff (Tag.leg a) (Tag.text b) = ground arith
tag_beq_iff (Tag.text a) (Tag.leg b) = ground arith

instance abbrev pub tag_eq : Eq Tag
tag_eq = record { beq = tag_beq; beq_iff = tag_beq_iff }

pub record OrderIntent : Type 0 where
  pub id : ℕ
  pub trade_id : ℕ
  pub purpose : OrderPurpose
  pub transaction_type : TransactionType
  pub quantity : ℕ
  pub idempotency_key : LegKey
  pub broker_tag : Tag
  pub status : IntentStatus
  pub broker_call_started_at : Option ℕ

pub record Order : Type 0 where
  pub id : ℕ
  pub trade_id : ℕ
  pub intent_id : Option ℕ
  pub purpose : OrderPurpose
  pub transaction_type : TransactionType
  pub order_type : OrderType
  pub quantity : ℕ
  pub filled_quantity : ℕ
  pub average_price : Option ℤ
  pub status : OrderStatus
  pub broker_order_id : Option String
  pub broker_tag : Option Tag
  pub placed_at : Option ℕ
  pub filled_at : Option ℕ
  pub error_message : Option String
  pub raw_response : Option String
  pub retry_count : ℕ
