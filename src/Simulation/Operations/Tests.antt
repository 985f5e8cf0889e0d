-- ===== src/Simulation/Operations/Tests.antt =====
-- An order whose acknowledgement is lost, in three partial fills.
use trading_project.Base.{◌≡◌, refl, true, false, Option, none, some, []}
use trading_project.Base.Int.{pos}
use trading_project.Enums.{Exchange, TransactionType, OrderType, ProductType}
use trading_project.Models.{Tag}
use trading_project.Broker.{
  BrokerInstrument, BrokerOrder, BrokerError, PlaceOrderRequest, returned, raised,
}
use trading_project.Simulation.Operations.Reads.{find_order_by_tag}
use trading_project.Simulation.Operations.Reads.Lost.{IsAnswerFor, place_order-IsAnswerFor}
use trading_project.Simulation.{Env, PositionKey}
use trading_project.Simulation.Matching.{SimulationBroker, pump}
use trading_project.Simulation.Matching.Ends.{AllOver, pump-AllOver}
use trading_project.Simulation.Matching.Filled.{AllWithin}
use trading_project.Simulation.Matching.Balance.{Balances}
use trading_project.Simulation.Operations.{
  place_order, place_unless, place_known, acknowledged, stopped_mutation, with_order,
}
use trading_project.Simulation.Operations.Reach.{Reachable, start, next, places, matches}
use trading_project.Simulation.Operations.Bounds.{Reachable-AllWithin}
use trading_project.Simulation.Operations.Book.{Reachable-Balances}

abbrev instrument : BrokerInstrument
instrument = record {
  instrument_token = 1;
  exchange = Exchange.nfo;
  tradingsymbol = "NIFTY24050CE";
  name = "NIFTY";
  lot_size = 75;
  tick_size = pos 500;
  expiry = none;
  strike = none;
  option_type = none;
}

abbrev env : Env
env = record {
  now = 100;
  get_ltp = λ i. pos 1200000;
  get_by_symbol = λ i. some instrument;
  divided = λ total n. total;
  connection_fails = false;
  exceeds_timeout = false;
  ack_times_out = true;
  draws_rejection = false;
  draws_partial = true;
  partial_fill_steps = 3;
  next_order_id = "SIM1";
  synchronous = true;
  fill_latency = 2;
}

abbrev request : PlaceOrderRequest
request = record {
  exchange = Exchange.nfo;
  tradingsymbol = "NIFTY24050CE";
  transaction_type = TransactionType.sell;
  quantity = 75;
  product = ProductType.normal;
  order_type = OrderType.market;
  price = none;
  trigger_price = none;
  tag = Tag.text "E1";
}

abbrev idle : SimulationBroker
idle = record {
  authenticated = true;
  ws_connected = true;
  orders = [];
  orders_by_tag = [];
  positions = [];
  dispatched = [];
}

abbrev placed : SimulationBroker
placed = with_order env request idle

lost : (place_order env request idle).1 ≡ some placed
unfolding place_order place_unless place_known acknowledged stopped_mutation
lost = refl

pump-AllOver_example : (s' : SimulationBroker) × (pump env placed ≡ some s') × AllOver s'.orders
pump-AllOver_example = pump-AllOver env placed refl

abbrev settled : SimulationBroker
settled = (pump-AllOver env placed refl).0

settled-Reachable : Reachable settled
settled-Reachable =
    next (next (start refl refl) (places env request idle refl) lost) (matches env placed)
      (pump-AllOver env placed refl).1

Reachable-AllWithin_example : AllWithin settled.orders
Reachable-AllWithin_example = Reachable-AllWithin settled settled-Reachable

abbrev key : PositionKey
key = record {
  exchange = Exchange.nfo;
  tradingsymbol = "NIFTY24050CE";
  product = ProductType.normal;
}

Reachable-Balances_example : Balances key settled.orders settled.positions
Reachable-Balances_example = Reachable-Balances key settled settled-Reachable

-- A later call that gets through.
abbrev later : Env
later = record env { now = 160; ack_times_out = false; next_order_id = "SIM2" }

place_order-IsAnswerFor_example :
    (t u : SimulationBroker) × (answer : Option BrokerOrder) × (place_order env request idle
      ≡ (raised BrokerError.timeout, some t))
    × (find_order_by_tag later (Tag.text "E1") t ≡ (returned answer, some u))
    × IsAnswerFor "SIM1" (Tag.text "E1") answer
place_order-IsAnswerFor_example =
    place_order-IsAnswerFor env later request idle instrument refl refl refl refl refl refl refl
      refl
