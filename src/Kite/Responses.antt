-- ===== src/Kite/Responses.antt =====
-- src/algo/brokers/kite/mapper.py: orders, positions and holdings out of the client's dictionaries.
use trading_project.Base.{ℕ, String, ◌&&◌, none, some, ltb, leb, if◌then◌else◌, string_eq}
use trading_project.Base.Int.{ℤ, pos, negsuc}
use trading_project.Base.Dict.{lookup}
use trading_project.Broker.{BrokerOrder}
use trading_project.Broker.Contract.{BrokerPosition, BrokerHolding}
use trading_project.Kite.{
  Value, nothing, whole, KiteDict, Kite, from_kite_transaction_type, from_kite_product,
  from_kite_order_type,
}
use trading_project.Kite.Values.{
  Mapped, mapped, mapping_error, ◌>>=◌, ◌>>◌, require, or_error, or_else, get, text_or_none,
  tag_or_none, required_text, int_of, decimal_or_zero, price_or_none, localized, str_of,
  from_kite_exchange, from_kite_status,
}

-- `data[key]`
abbrev pub item : String → KiteDict → Mapped Value
item key d = or_error (lookup key d)

-- `Field(gt=0)` of the quantity, `Field(ge=0)` of the filled quantity, and not more than that filled
unfoldable pub natural : ℤ → Mapped ℕ
natural (pos n) = mapped n
natural (negsuc n) = mapping_error

module _ (k : Kite) where
  unfoldable pub to_broker_order : KiteDict → Mapped BrokerOrder
  to_broker_order d = do
    filled ← int_of k (or_else (get "filled_quantity" d) (whole (pos 0)))
    quantity ← int_of k (or_else (get "quantity" d) (whole (pos 0)))
    order_id ← item "order_id" d
    status ← from_kite_status k (get "status" d)
    exchange_word ← item "exchange" d
    exchange ← from_kite_exchange k exchange_word
    symbol ← item "tradingsymbol" d
    average_price ← price_or_none k (get "average_price" d)
    trigger_price ← price_or_none k (get "trigger_price" d)
    tag ← tag_or_none (or_else (get "tag" d) nothing)
    tradingsymbol ← required_text symbol
    status_message ← text_or_none (or_else (get "status_message" d) nothing)
    filled_quantity ← natural filled
    ordered ← natural quantity
    require (ltb 0 ordered && leb filled_quantity ordered)
    mapped (record {
      broker_order_id = str_of k order_id;
      tag = tag;
      status = status;
      exchange = exchange;
      tradingsymbol = tradingsymbol;
      transaction_type = from_kite_transaction_type k (get "transaction_type" d);
      product = from_kite_product k (get "product" d);
      order_type = from_kite_order_type k (get "order_type" d);
      quantity = ordered;
      filled_quantity = filled_quantity;
      average_price = average_price;
      trigger_price = trigger_price;
      placed_at = localized k (get "order_timestamp" d);
      filled_at = if ltb 0 filled_quantity then localized k (get "exchange_timestamp" d) else none;
      exchange_updated_at =
          localized k (or_else (get "exchange_update_timestamp" d) (get "exchange_timestamp" d));
      status_message = status_message;
      raw_response = some (k.payload d);
    })

  unfoldable pub to_broker_position : KiteDict → Mapped BrokerPosition
  to_broker_position d = do
    exchange_word ← item "exchange" d
    exchange ← from_kite_exchange k exchange_word
    symbol ← item "tradingsymbol" d
    quantity ← int_of k (or_else (get "quantity" d) (whole (pos 0)))
    average_price ← decimal_or_zero k (get "average_price" d)
    last_price ← decimal_or_zero k (get "last_price" d)
    pnl ← decimal_or_zero k (get "pnl" d)
    tradingsymbol ← required_text symbol
    mapped (record {
      exchange = exchange;
      tradingsymbol = tradingsymbol;
      product = from_kite_product k (get "product" d);
      quantity = quantity;
      average_price = average_price;
      last_price = last_price;
      pnl = pnl;
    })

  unfoldable pub to_broker_holding : KiteDict → Mapped BrokerHolding
  to_broker_holding d = do
    exchange_word ← item "exchange" d
    exchange ← from_kite_exchange k exchange_word
    symbol ← item "tradingsymbol" d
    quantity ← int_of k (or_else (get "quantity" d) (whole (pos 0)))
    average_price ← decimal_or_zero k (get "average_price" d)
    last_price ← decimal_or_zero k (get "last_price" d)
    tradingsymbol ← required_text symbol
    mapped (record {
      exchange = exchange;
      tradingsymbol = tradingsymbol;
      quantity = quantity;
      average_price = average_price;
      last_price = last_price;
    })
