-- ===== src/Entry/Tests.antt =====
-- An entry of a straddle of NIFTY at a broker that fills every order.
use trading_project.Base.{ℕ, String, ◌==◌, nat_eq, if◌then◌else◌, suc, true, false, none, some, []}
use trading_project.Base.Int.{pos}
use trading_project.Enums.{
  Exchange, InstanceStatus, TransactionType, OrderType, ProductType, OrderStatus,
}
use trading_project.Result.{ok}
use trading_project.Broker.{BrokerInstrument, BrokerOrder, returned}
use trading_project.Runtime.{BrokerPort, World}
use trading_project.Runtime.Recording.{recording}
use trading_project.Strike.{ContractRequest}
use trading_project.Entry.{EntryConfig, Services}
use trading_project.Entry.Procedure.Settled.{Settled}

abbrev filled : String → BrokerOrder
filled id = record {
  broker_order_id = id;
  tag = none;
  status = OrderStatus.complete;
  exchange = Exchange.nfo;
  tradingsymbol = "NIFTY24050";
  transaction_type = TransactionType.sell;
  product = ProductType.normal;
  order_type = OrderType.market;
  quantity = 75;
  filled_quantity = 75;
  average_price = some (pos 1200000);
  trigger_price = none;
  placed_at = none;
  filled_at = some 105;
  exchange_updated_at = none;
  status_message = none;
  raw_response = none;
}

-- It gives each order an identifier of its own.
abbrev pub filling : BrokerPort
filling = record {
  State = ℕ;
  place_order = λ r n. (returned (if n == 0 then "B1" else "B2"), suc n);
  get_order = λ id n. (returned (filled id), n);
  find_order_by_tag = λ tag n. (returned none, n);
}

abbrev pub cfg : EntryConfig
cfg = record {
  instance_id = 1;
  instrument = "NIFTY";
  lots = 1;
  product_type = ProductType.normal;
  target_pct = pos 1000;
  sl_pct = pos 2000;
  skip_on_expiry_day = true;
  fill_attempts = 20;
}

abbrev contract : ContractRequest → BrokerInstrument
contract r = record {
  instrument_token = 1;
  exchange = r.exchange;
  tradingsymbol = "NIFTY24050";
  name = r.underlying;
  lot_size = 75;
  tick_size = pos 500;
  expiry = some r.expiry;
  strike = some r.strike;
  option_type = some r.option_type;
}

abbrev pub services : Services
services = record {
  current_expiry = ok 20005;
  halted = false;
  approved = true;
  spot_ltp = ok (pos 240300000);
  spec = ok (record {
    instrument = "NIFTY";
    exchange = Exchange.nfo;
    strike_interval = pos 500000;
    lot_size = 75;
    tick_size = pos 500;
    underlying_symbol = none;
  });
  find_option_contract = λ r. returned (contract r);
  rival = none;
  to_column = λ level. level;
  commit_fails = false;
}

abbrev pub morning : World (recording filling)
morning = record {
  store = record {
    position = none;
    trades = [];
    intents = [];
    orders = [];
    audit = [];
    breaks = [];
    instance_status = some InstanceStatus.active;
    next_id = 1;
  };
  broker = ([], 0);
  locked = false;
}
