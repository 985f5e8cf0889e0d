-- ===== src/Strike/Tests.antt =====
-- A straddle of NIFTY at 24,030 with strikes 50 apart.
use trading_project.Base.{ℕ, ◌≡◌, refl, arith, none, some}
use trading_project.Base.Int.{pos}
use trading_project.Enums.{Exchange, OptionType}
use trading_project.Result.{ok}
use trading_project.Broker.{BrokerInstrument, returned}
use trading_project.Strike.{
  InstrumentSpec, StraddleStrikeSelection, ContractRequest, compute_atm_strike,
  validate_resolved_contract, select,
}
use trading_project.Strike.Nearest.{
  IsNearest, compute_atm_strike-IsNearest, IsStraddle, select-IsStraddle,
}

compute_atm_strike-IsNearest_example :
    (strike : ℕ) × (compute_atm_strike (pos 240300000) (pos 500000) ≡ ok (pos strike))
    × IsNearest 240300000 500000 strike
compute_atm_strike-IsNearest_example =
    compute_atm_strike-IsNearest 240300000 500000 (omega arith) (omega arith)

abbrev spec : InstrumentSpec
spec = record {
  instrument = "NIFTY";
  exchange = Exchange.nfo;
  strike_interval = pos 500000;
  lot_size = 75;
  tick_size = pos 500;
  underlying_symbol = none;
}

abbrev contract : ContractRequest → BrokerInstrument
contract r = record {
  instrument_token = 1;
  exchange = r.exchange;
  tradingsymbol = "NIFTY24050";
  name = r.underlying;
  lot_size = 75;
  tick_size = pos 500;
  expiry = some r.expiry;
  strike = some r.strike;
  option_type = some r.option_type;
}

abbrev asked : OptionType → ContractRequest
asked option_type = record {
  underlying = "NIFTY";
  expiry = 20005;
  strike = pos 240500000;
  option_type = option_type;
  exchange = Exchange.nfo;
}

abbrev straddle : StraddleStrikeSelection
straddle = record {
  instrument = "NIFTY";
  exchange = Exchange.nfo;
  spot_ltp = pos 240300000;
  strike_interval = pos 500000;
  atm_strike = pos 240500000;
  expiry = 20005;
  call = contract (asked OptionType.ce);
  put = contract (asked OptionType.pe);
}

selected : select (λ r. returned (contract r)) "NIFTY" spec (ok 20005) (pos 240300000) ≡ ok straddle
unfolding select compute_atm_strike validate_resolved_contract
selected = refl

select-IsStraddle_example : IsStraddle spec (pos 240300000) straddle
select-IsStraddle_example =
    select-IsStraddle (λ r. returned (contract r)) "NIFTY" spec (ok 20005) (pos 240300000) straddle
      selected
