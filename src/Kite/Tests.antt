-- ===== src/Kite/Tests.antt =====
-- Requests and responses with the constants that Kite Connect documents, and the theorems at them.
use trading_project.Base.{ℕ, false, suc, List, ◌≡◌, refl, true, none, some, [], ◌∷◌, arith}
use trading_project.Base.Int.{pos, ◌*ℤ◌}
use trading_project.Enums.{
  Exchange, TransactionType, ProductType, OrderType, OrderStatus, OrderPurpose, OptionType,
}
use trading_project.Models.{Tag}
use trading_project.Broker.{PlaceOrderRequest}
use trading_project.Kite.{Value, KiteDict, Kite, AreDistinct, text, whole}
use trading_project.Kite.Requests.{place_order_kwargs}
use trading_project.Kite.Values.{
  price_or_none, text_or_none, or_else, mapped, mapping_error, attribute_error, from_kite_status,
}
use trading_project.Kite.Calls.{ClientCall, failed, read, Tried, read-Tried, is_retryable}
use trading_project.Kite.Faults.{translate_kite_exception, other_connection_error}
use trading_project.Kite.RoundTrip.{Answer, IsRowOf, read_back, to_broker_order-place_order_kwargs}
use trading_project.Kite.Responses.{to_broker_order, to_broker_position}

abbrev documented : Kite
documented = record {
  exchange_nfo = "NFO";
  exchange_bfo = "BFO";
  exchange_nse = "NSE";
  exchange_bse = "BSE";
  transaction_type_buy = "BUY";
  transaction_type_sell = "SELL";
  product_mis = "MIS";
  product_nrml = "NRML";
  order_type_market = "MARKET";
  order_type_limit = "LIMIT";
  variety_regular = "regular";
  upper = λ s. s;
  text_int = λ s. none;
  text_decimal = λ s. none;
  shown = λ v. "";
  float = λ d. d;
  localize = λ t. t;
  payload = λ d. "";
}

documented-AreDistinct : AreDistinct documented
documented-AreDistinct = record {
  nfo_bfo = refl;
  nfo_nse = refl;
  nfo_bse = refl;
  bfo_nse = refl;
  bfo_bse = refl;
  nse_bse = refl;
  buy_sell = refl;
  mis_nrml = refl;
  limit_market = refl;
}

abbrev sell_call : PlaceOrderRequest
sell_call = record {
  exchange = Exchange.nfo;
  tradingsymbol = "NIFTY24000CE";
  transaction_type = TransactionType.sell;
  quantity = 75;
  product = ProductType.intraday;
  order_type = OrderType.market;
  price = none;
  trigger_price = none;
  tag = Tag.leg (record {
    purpose = OrderPurpose.entry;
    instance_id = 1;
    trade_date = 20000;
    option_type = OptionType.ce;
    unwind = true;
  });
}

abbrev partly_filled : Answer
partly_filled = record {
  order_id = "B7";
  status = "OPEN";
  filled = 25;
  average_price = some (pos 1500000);
  status_message = none;
}

abbrev row : KiteDict
row =
    ("order_id", text "B7")
    ∷ ("status", text "OPEN")
    ∷ ("filled_quantity", whole (pos 25))
    ∷ ("average_price", whole (pos 150))
    ∷ ("trigger_price", whole (pos 0))
    ∷ place_order_kwargs documented sell_call

row-IsRowOf : IsRowOf documented sell_call partly_filled row
unfolding place_order_kwargs price_or_none text_or_none or_else ◌*ℤ◌
row-IsRowOf = record {
  exchange = refl;
  tradingsymbol = refl;
  transaction_type = refl;
  quantity = refl;
  product = refl;
  order_type = refl;
  tag = refl;
  trigger_price = refl;
  order_id = refl;
  status = refl;
  filled = refl;
  average_price = refl;
  status_message = refl;
}

to_broker_order-place_order_kwargs_example :
    (status : OrderStatus) × (to_broker_order documented row
      ≡ mapped (read_back documented sell_call partly_filled row status))
to_broker_order-place_order_kwargs_example =
    to_broker_order-place_order_kwargs documented documented-AreDistinct sell_call partly_filled row
      row-IsRowOf (omega arith) (omega arith) refl

-- a status that is no text escapes as an `AttributeError`
odd_status : from_kite_status documented (whole (pos 3)) ≡ attribute_error
unfolding from_kite_status
odd_status = refl

-- a dictionary without an exchange is reported as one that cannot be mapped
no_exchange : to_broker_position documented (("tradingsymbol", text "X") ∷ []) ≡ mapping_error
unfolding to_broker_position
no_exchange = refl

-- a client whose network is down, with the count of its calls
abbrev unreachable : ClientCall ℕ (List Value)
unreachable n = (failed other_connection_error, suc n)

three_attempts : (read 3 (λ m. false) unreachable 0).1 ≡ 3
unfolding read translate_kite_exception is_retryable
three_attempts = refl

read-Tried_example :
    Tried (λ n. n) unreachable (λ n. refl) 3 (λ m. false) 0 (read 3 (λ m. false) unreachable 0)
read-Tried_example = read-Tried (λ n. n) unreachable (λ n. refl) 2 (λ m. false) 0
