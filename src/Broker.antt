-- ===== src/Broker.antt =====
-- The types of src/algo/brokers/broker_base.py, the errors of brokers/exceptions.py, and the tick of
-- strategy_engine/strategy_context.py. Response payloads (`raw_response`) are opaque texts.
pub mod Types
pub mod Contract
pub use Types.*
use trading_project.Base.{
  ℕ, ◌≤◌, ◌≡◌, Bool, true, false, none, some, arith, ltb, leb, is_some, ◌&&◌, not,
}
use trading_project.Enums.{OrderType}
use trading_project.Result.{Result, ok, err, guard, ◌>>◌, ◌>>=◌, value_error}

price_matches : OrderType → Bool → Result (Unit {0})
price_matches OrderType.limit priced = guard priced value_error
price_matches OrderType.market priced = guard (not priced) value_error

-- `PlaceOrderRequest`'s validators: positive quantity, and a price exactly for LIMIT orders. The
-- length of the tag, 1 to 20 characters, is the argument `tag_length`.
unfoldable pub validate_request : ℕ → PlaceOrderRequest → Result PlaceOrderRequest
unfolding price_matches
validate_request tag_length r = do
  guard (ltb 0 r.quantity) value_error
  guard (leb 1 tag_length && leb tag_length 20) value_error
  price_matches r.order_type (is_some r.price)
  ok r
