-- ===== src/Entry.antt =====
-- `EntryLogic` of src/algo/strategy_engine/strategies/strategy_1/entry_logic.py: its types, and the
-- keys and requests of its orders. Messages of results and logs have no model; one instant and one day
-- stand for all reads of the clock in a call. The children hold its database writes and the procedure.
pub mod Durable
pub mod Writes
pub mod Procedure
pub mod Tests
use trading_project.Base.{ℕ, ◌*◌, String, Bool, true, false, Option, none, some, ltb}
use trading_project.Base.Int.{ℤ}
use trading_project.Enums.{OptionType, OrderPurpose, OrderType, ProductType, TransactionType}
use trading_project.Models.{Position, LegKey, Tag}
use trading_project.Result.{Result, ok, err, guard, value_error, runtime_error}
use trading_project.Broker.{BrokerInstrument, BrokerResult, PlaceOrderRequest}
use trading_project.Strike.{InstrumentSpec, ContractRequest}

pub data EntryOutcome : Type 0 where
  entered skipped_already_exists skipped_expiry_day blocked_by_risk entry_rejected : EntryOutcome
  partial_entry_error ambiguous_error persistence_divergence : EntryOutcome

pub record EntryResult : Type 0 where
  pub outcome : EntryOutcome
  pub position_id : Option ℕ

pub data LegOutcome : Type 0 where
  filled failed ambiguous : LegOutcome

pub record LegResult : Type 0 where
  pub outcome : LegOutcome
  pub fill_price : Option ℤ

-- The settings that the entry reads, with the instance's identity.
pub record EntryConfig : Type 0 where
  pub instance_id : ℕ
  pub instrument : String
  pub lots : ℕ
  pub product_type : ProductType
  pub target_pct : ℤ
  pub sl_pct : ℤ
  pub skip_on_expiry_day : Bool
  pub fill_attempts : ℕ

-- What the services around the entry answer in one call: the expiry calendar, the risk gateway's
-- `is_halted` and `approve_entry`, the spot price, the instrument's spec and the broker's contracts;
-- the row that another writer creates first, the database's rounding of a level to its column, and
-- whether the final write fails.
pub record Services : Type 0 where
  pub current_expiry : Result ℕ
  pub halted : Bool
  pub approved : Bool
  pub spot_ltp : Result ℤ
  pub spec : Result InstrumentSpec
  pub find_option_contract : ContractRequest → BrokerResult BrokerInstrument
  pub rival : Option Position
  pub to_column : ℤ → ℤ
  pub commit_fails : Bool

pub record LegIds : Type 0 where
  pub trade_id : ℕ
  pub intent_id : ℕ
  pub tradingsymbol : String
  pub contract : BrokerInstrument

-- `_DurableRecord`; its dictionary of legs always has the two
pub record DurableRecord : Type 0 where
  pub position_id : ℕ
  pub quantity : ℕ
  pub ce : LegIds
  pub pe : LegIds

-- `_LegIds.option_type`, an assertion in the source
asserted : Option OptionType → Result OptionType
asserted none = err runtime_error
asserted (some t) = ok t

pub leg_option_type : LegIds → Result OptionType
unfolding asserted
leg_option_type leg = asserted leg.contract.option_type

module _ (cfg : EntryConfig) (trade_date : ℕ) where
  abbrev pub entry_key : OptionType → LegKey
  entry_key option_type = record {
    purpose = OrderPurpose.entry;
    instance_id = cfg.instance_id;
    trade_date = trade_date;
    option_type = option_type;
    unwind = false;
  }

  abbrev pub unwind_key : OptionType → LegKey
  unwind_key option_type = record {
    purpose = OrderPurpose.exit;
    instance_id = cfg.instance_id;
    trade_date = trade_date;
    option_type = option_type;
    unwind = true;
  }

-- `_validate_tag`: a tag E<instance>-<yymmdd>-<type> has at most 20 characters up to nine digits of the
-- instance, and a tag that starts with U is as long.
pub validate_tag : EntryConfig → Result (Unit {0})
validate_tag cfg = guard (ltb cfg.instance_id 1000000000) value_error

abbrev pub leg_request : EntryConfig → TransactionType → LegIds → ℕ → Tag → PlaceOrderRequest
leg_request cfg side leg quantity tag = record {
  exchange = leg.contract.exchange;
  tradingsymbol = leg.tradingsymbol;
  transaction_type = side;
  quantity = quantity;
  product = cfg.product_type;
  order_type = OrderType.market;
  price = none;
  trigger_price = none;
  tag = tag;
}

abbrev pub leg_result : LegOutcome → Option ℤ → LegResult
leg_result outcome price = record { outcome = outcome; fill_price = price }

abbrev pub entry_result : EntryOutcome → Option ℕ → EntryResult
entry_result outcome id = record { outcome = outcome; position_id = id }
