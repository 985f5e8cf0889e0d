-- ===== src/Broker/Contract.antt =====
-- src/algo/brokers/broker_base.py: the portfolio and market data types, and the abstract class
-- `BrokerBase` as a record of its methods. Each method that has a `timeout` takes it as its last
-- argument, and each works on the broker's own state.
use trading_project.Base.{ℕ, String, Bool, Option, List}
use trading_project.Base.Int.{ℤ}
use trading_project.Base.Dict.{Dict}
use trading_project.Enums.{Exchange, OptionType, ProductType}
use trading_project.Models.{Tag}
use trading_project.Broker.Types.{
  InstrumentIdentifier, BrokerInstrument, PlaceOrderRequest, ModifyOrderRequest, BrokerOrder,
  BrokerResult,
}

pub record PlaceOrderResult : Type 0 where
  pub broker_order_id : String
  pub raw_response : Option String

pub record BrokerPosition : Type 0 where
  pub exchange : Exchange
  pub tradingsymbol : String
  pub product : ProductType
  pub quantity : ℤ
  pub average_price : ℤ
  pub last_price : ℤ
  pub pnl : ℤ

pub record BrokerHolding : Type 0 where
  pub exchange : Exchange
  pub tradingsymbol : String
  pub quantity : ℤ
  pub average_price : ℤ
  pub last_price : ℤ

pub record BrokerMargins : Type 0 where
  pub segment : String
  pub available_cash : ℤ
  pub used_margin : ℤ
  pub opening_balance : ℤ

pub record BrokerQuote : Type 0 where
  pub instrument : InstrumentIdentifier
  pub last_price : ℤ
  pub ohlc_open : ℤ
  pub ohlc_high : ℤ
  pub ohlc_low : ℤ
  pub ohlc_close : ℤ
  pub volume : ℤ
  pub timestamp : ℕ

pub record HealthStatus : Type 0 where
  pub healthy : Bool
  pub checked_at : ℕ
  pub latency_ms : Option ℕ
  pub detail : Option String

-- the keyword arguments of `find_option_contract`
pub record OptionQuery : Type 0 where
  pub underlying : String
  pub expiry : ℕ
  pub strike : ℤ
  pub option_type : OptionType
  pub exchange : Exchange

-- A method's result and what it leaves of the broker, by the timeout that the caller allows.
abbrev pub Method : Type 0 → Type 0 → Type 0
Method S A = Option ℕ → S → BrokerResult A × S

pub record BrokerBase : Type 1 where
  pub State : Type 0
  pub authenticate : Method State (Unit {0})
  pub health_check : Method State HealthStatus
  pub place_order : PlaceOrderRequest → Method State PlaceOrderResult
  pub modify_order : ModifyOrderRequest → Method State (Unit {0})
  pub cancel_order : String → Method State (Unit {0})
  pub get_order : String → Method State BrokerOrder
  pub get_orders : Method State (List BrokerOrder)
  pub find_order_by_tag : Tag → Method State (Option BrokerOrder)
  pub get_positions : Method State (List BrokerPosition)
  pub get_holdings : Method State (List BrokerHolding)
  pub get_margins : Method State BrokerMargins
  pub get_quote : List InstrumentIdentifier → Method State (Dict InstrumentIdentifier BrokerQuote)
  pub get_ltp : List InstrumentIdentifier → Method State (Dict InstrumentIdentifier ℤ)
  pub get_instrument : Exchange → String → Method State BrokerInstrument
  pub find_option_contract : OptionQuery → Method State BrokerInstrument
  pub list_option_expiries : String → Exchange → Method State (Option (List ℕ))
  pub is_authenticated : State → Bool
  pub close : State → State
  pub connect_websocket : Method State (Unit {0})
  pub disconnect_websocket : State → State
  pub is_websocket_connected : State → Bool
