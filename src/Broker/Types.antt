-- ===== src/Broker/Types.antt =====
-- The value types that brokers and their callers exchange.
use trading_project.Base.{ℕ, ◌≡◌, ◌↔◌, String, Bool, true, Option, arith, ◌&&◌, ◌==◌, string_eq}
use trading_project.Base.Eq.{Eq}
use trading_project.Base.Int.{ℤ}
use trading_project.Models.{Tag}
use trading_project.Enums.{
  Exchange, exchange_eq, OptionType, TransactionType, OrderType, ProductType, OrderStatus,
}

pub record InstrumentIdentifier : Type 0 where
  pub exchange : Exchange
  pub tradingsymbol : String

abbrev pub instrument_beq : InstrumentIdentifier → InstrumentIdentifier → Bool
instrument_beq a b = a.exchange == b.exchange && a.tradingsymbol == b.tradingsymbol

pub instrument_beq_iff : (a b : InstrumentIdentifier) → (instrument_beq a b ≡ true) ↔ (a ≡ b)
instrument_beq_iff a b = ground (
  arith,
  exchange_eq.beq_iff a.exchange b.exchange,
  string_eq.beq_iff a.tradingsymbol b.tradingsymbol,
)

instance abbrev pub instrument_eq : Eq InstrumentIdentifier
instrument_eq = record { beq = instrument_beq; beq_iff = instrument_beq_iff }

pub record BrokerInstrument : Type 0 where
  pub instrument_token : ℕ
  pub exchange : Exchange
  pub tradingsymbol : String
  pub name : String
  pub lot_size : ℕ
  pub tick_size : ℤ
  pub expiry : Option ℕ
  pub strike : Option ℤ
  pub option_type : Option OptionType

pub record PlaceOrderRequest : Type 0 where
  pub exchange : Exchange
  pub tradingsymbol : String
  pub transaction_type : TransactionType
  pub quantity : ℕ
  pub product : ProductType
  pub order_type : OrderType
  pub price : Option ℤ
  pub trigger_price : Option ℤ
  pub tag : Tag

pub record ModifyOrderRequest : Type 0 where
  pub broker_order_id : String
  pub quantity : Option ℕ
  pub price : Option ℤ
  pub trigger_price : Option ℤ
  pub order_type : Option OrderType

pub record BrokerOrder : Type 0 where
  pub broker_order_id : String
  pub tag : Option Tag
  pub status : OrderStatus
  pub exchange : Exchange
  pub tradingsymbol : String
  pub transaction_type : TransactionType
  pub product : ProductType
  pub order_type : OrderType
  pub quantity : ℕ
  pub filled_quantity : ℕ
  pub average_price : Option ℤ
  pub trigger_price : Option ℤ
  pub placed_at : Option ℕ
  pub filled_at : Option ℕ
  pub exchange_updated_at : Option ℕ
  pub status_message : Option String
  pub raw_response : Option String

pub record Tick : Type 0 where
  pub instrument : InstrumentIdentifier
  pub last_price : ℤ
  pub timestamp : ℕ

-- The classes of brokers/exceptions.py.
pub data BrokerError : Type 0 where
  connection timeout rate_limit_exceeded authentication : BrokerError
  order_rejected order_not_found order_not_modifiable order_not_cancellable : BrokerError
  instrument_not_found invalid_order_request : BrokerError

pub data BrokerResult {ℓ} (A : Type ℓ) : Type ℓ where
  returned : A → BrokerResult A
  raised : BrokerError → BrokerResult A
