-- ===== src/Strike.antt =====
-- src/algo/strategy_engine/strategies/strategy_1/strike_selector.py with the types of
-- src/algo/services/instrument_service.py and expiry_service.py. The quotient of two amounts is taken
-- exactly, where the source's `Decimal` keeps 28 digits of it; the broker's answers are a parameter.
pub mod Nearest
mod Tests
use trading_project.Base.{
  ℕ, ◌+◌, ◌*◌, ◌/◌, ◌≡◌, String, Bool, true, false, Option, none, some, List, [], ◌∷◌, not, ltb,
  ◌&&◌, ◌==◌, nat_eq, string_eq, option_eq, if◌then◌else◌,
}
use trading_project.Base.Int.{ℤ, pos, negsuc, int_eq}
use trading_project.Enums.{Exchange, exchange_eq, OptionType, option_type_eq}
use trading_project.Result.{Result, ok, err, guard, ◌>>=◌, ◌>>◌, strike_selection, broker_error}
use trading_project.Broker.{BrokerInstrument, BrokerError, BrokerResult, returned, raised}

-- `InstrumentSpec`
pub record InstrumentSpec : Type 0 where
  pub instrument : String
  pub exchange : Exchange
  pub strike_interval : ℤ
  pub lot_size : ℕ
  pub tick_size : ℤ
  pub underlying_symbol : Option String

pub record StraddleStrikeSelection : Type 0 where
  pub instrument : String
  pub exchange : Exchange
  pub spot_ltp : ℤ
  pub strike_interval : ℤ
  pub atm_strike : ℤ
  pub expiry : ℕ
  pub call : BrokerInstrument
  pub put : BrokerInstrument

-- `quantize(Decimal("1"), rounding=ROUND_HALF_UP)` of a quotient of positive amounts
abbrev pub round_half_up : ℕ → ℕ → ℕ
round_half_up n d = (2 * n + d) / (2 * d)

unfoldable pub compute_atm_strike : ℤ → ℤ → Result ℤ
compute_atm_strike (pos spot) (pos interval) = do
  guard (ltb 0 spot) strike_selection
  guard (ltb 0 interval) strike_selection
  ok (pos (round_half_up spot interval * interval))
compute_atm_strike _ _ = err strike_selection

-- What a contract is asked for: the arguments of `find_option_contract`.
pub record ContractRequest : Type 0 where
  pub underlying : String
  pub expiry : ℕ
  pub strike : ℤ
  pub option_type : OptionType
  pub exchange : Exchange

unfoldable pub validate_resolved_contract : BrokerInstrument → ContractRequest → Result (Unit {0})
validate_resolved_contract resolved r =
    guard
      (resolved.strike == some r.strike
        && resolved.expiry == some r.expiry
        && resolved.option_type == some r.option_type
        && resolved.exchange == r.exchange)
      strike_selection

contract_answer : ContractRequest → BrokerResult BrokerInstrument → Result BrokerInstrument
contract_answer r (returned resolved) = do validate_resolved_contract resolved r; ok resolved
contract_answer r (raised BrokerError.instrument_not_found) = err strike_selection
contract_answer r (raised _) = err broker_error

module _ (find_option_contract : ContractRequest → BrokerResult BrokerInstrument) where
  unfoldable pub resolve_contract : ContractRequest → Result BrokerInstrument
  unfolding contract_answer
  resolve_contract r = contract_answer r (find_option_contract r)

  abbrev underlying_of : String → Option String → String
  underlying_of instrument none = instrument
  underlying_of instrument (some symbol) = if symbol == "" then instrument else symbol

  abbrev leg_request : String → InstrumentSpec → ℤ → ℕ → OptionType → ContractRequest
  leg_request instrument spec strike expiry option_type = record {
    underlying = underlying_of instrument spec.underlying_symbol;
    expiry = expiry;
    strike = strike;
    option_type = option_type;
    exchange = spec.exchange;
  }

  -- `select`, given the instrument's spec and what the expiry service answers
  unfoldable pub select : String → InstrumentSpec → Result ℕ → ℤ → Result StraddleStrikeSelection
  unfolding resolve_contract
  select instrument spec current_expiry spot_ltp = do
    atm_strike ← compute_atm_strike spot_ltp spec.strike_interval
    expiry ← current_expiry
    call ← resolve_contract (leg_request instrument spec atm_strike expiry OptionType.ce)
    put ← resolve_contract (leg_request instrument spec atm_strike expiry OptionType.pe)
    ok (record {
      instrument = instrument;
      exchange = spec.exchange;
      spot_ltp = spot_ltp;
      strike_interval = spec.strike_interval;
      atm_strike = atm_strike;
      expiry = expiry;
      call = call;
      put = put;
    })
