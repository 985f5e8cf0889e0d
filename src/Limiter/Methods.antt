-- ===== src/Limiter/Methods.antt =====
-- brokers/rate_limiter.py: the methods of `RateLimitedBroker`.
use trading_project.Base.{ℕ, String, Option, List, Bool}
use trading_project.Base.Int.{ℤ}
use trading_project.Base.Dict.{Dict}
use trading_project.Enums.{Exchange}
use trading_project.Models.{Tag}
use trading_project.Broker.{
  InstrumentIdentifier, BrokerInstrument, PlaceOrderRequest, ModifyOrderRequest, BrokerOrder,
  BrokerResult,
}
use trading_project.Broker.Contract.{
  BrokerBase, PlaceOrderResult, BrokerPosition, BrokerHolding, BrokerMargins, BrokerQuote,
  HealthStatus, OptionQuery,
}
use trading_project.Limiter.{Clock}
use trading_project.Limiter.Delegate.{MethodName, RateLimited, throttled}

module _ (c : Clock) (inner : BrokerBase) where
  -- A method of the limited broker.
  abbrev pub Limited : Type 0 → Type 0
  Limited A = Option ℕ → RateLimited inner → Option (BrokerResult A) × RateLimited inner

  unfoldable pub authenticate : Limited (Unit {0})
  authenticate = throttled c inner MethodName.authenticate inner.authenticate

  unfoldable pub health_check : Limited HealthStatus
  health_check = throttled c inner MethodName.health_check inner.health_check

  unfoldable pub place_order : PlaceOrderRequest → Limited PlaceOrderResult
  place_order r = throttled c inner MethodName.place_order (inner.place_order r)

  unfoldable pub modify_order : ModifyOrderRequest → Limited (Unit {0})
  modify_order r = throttled c inner MethodName.modify_order (inner.modify_order r)

  unfoldable pub cancel_order : String → Limited (Unit {0})
  cancel_order id = throttled c inner MethodName.cancel_order (inner.cancel_order id)

  unfoldable pub get_order : String → Limited BrokerOrder
  get_order id = throttled c inner MethodName.get_order (inner.get_order id)

  unfoldable pub get_orders : Limited (List BrokerOrder)
  get_orders = throttled c inner MethodName.get_orders inner.get_orders

  unfoldable pub find_order_by_tag : Tag → Limited (Option BrokerOrder)
  find_order_by_tag t = throttled c inner MethodName.find_order_by_tag (inner.find_order_by_tag t)

  unfoldable pub get_positions : Limited (List BrokerPosition)
  get_positions = throttled c inner MethodName.get_positions inner.get_positions

  unfoldable pub get_holdings : Limited (List BrokerHolding)
  get_holdings = throttled c inner MethodName.get_holdings inner.get_holdings

  unfoldable pub get_margins : Limited BrokerMargins
  get_margins = throttled c inner MethodName.get_margins inner.get_margins

  unfoldable pub get_quote :
      List InstrumentIdentifier → Limited (Dict InstrumentIdentifier BrokerQuote)
  get_quote is = throttled c inner MethodName.get_quote (inner.get_quote is)

  unfoldable pub get_ltp : List InstrumentIdentifier → Limited (Dict InstrumentIdentifier ℤ)
  get_ltp is = throttled c inner MethodName.get_ltp (inner.get_ltp is)

  unfoldable pub get_instrument : Exchange → String → Limited BrokerInstrument
  get_instrument e s = throttled c inner MethodName.get_instrument (inner.get_instrument e s)

  unfoldable pub find_option_contract : OptionQuery → Limited BrokerInstrument
  find_option_contract q =
      throttled c inner MethodName.find_option_contract (inner.find_option_contract q)

  unfoldable pub list_option_expiries : String → Exchange → Limited (Option (List ℕ))
  list_option_expiries u e =
      throttled c inner MethodName.list_option_expiries (inner.list_option_expiries u e)

  unfoldable pub is_authenticated : RateLimited inner → Bool
  is_authenticated l = inner.is_authenticated l.broker

  unfoldable pub close : RateLimited inner → RateLimited inner
  close l = record l { broker = inner.close l.broker }

  unfoldable pub connect_websocket :
      Option ℕ → RateLimited inner → BrokerResult (Unit {0}) × RateLimited inner
  connect_websocket timeout l =
      let (answer, s) = inner.connect_websocket timeout l.broker in
      (answer, record l { broker = s })

  unfoldable pub disconnect_websocket : RateLimited inner → RateLimited inner
  disconnect_websocket l = record l { broker = inner.disconnect_websocket l.broker }

  unfoldable pub is_websocket_connected : RateLimited inner → Bool
  is_websocket_connected l = inner.is_websocket_connected l.broker
