-- ===== src/Limiter/Delegate.antt =====
-- brokers/rate_limiter.py, `RateLimitedBroker`: every method of `BrokerBase` throttles and then
-- delegates to the broker inside. What is neither an answer nor an error of the broker, such as the
-- `IndexError` of an empty bucket, is `none`.
pub mod Implements
use trading_project.Base.{ℕ, String, Option, none, some, List, [], Bool, ◌==◌, if◌then◌else◌, ◌+◌}
use trading_project.Base.Int.{ℤ}
use trading_project.Base.Dict.{Dict}
use trading_project.Enums.{Exchange}
use trading_project.Models.{Tag}
use trading_project.Broker.{
  InstrumentIdentifier, BrokerInstrument, PlaceOrderRequest, ModifyOrderRequest, BrokerOrder,
  BrokerResult, returned, raised, rate_limit_exceeded,
}
use trading_project.Broker.Contract.{
  BrokerBase, Method, PlaceOrderResult, BrokerPosition, BrokerHolding, BrokerMargins, BrokerQuote,
  HealthStatus, OptionQuery,
}
use trading_project.Limiter.{
  RateLimitCategory, order_mutation, order_read, portfolio_read, market_data, instrument_lookup,
  general, category_eq, RateLimitRule, TokenBucket, new_bucket, Clock, Acquired, acquired, exceeded,
  broken, still_waiting, Waited, acquire,
}

-- The names of the throttled methods, the keys of `_METHOD_CATEGORIES`.
pub data MethodName : Type 0 where
  authenticate health_check place_order modify_order cancel_order : MethodName
  get_order get_orders find_order_by_tag get_positions get_holdings get_margins : MethodName
  get_quote get_ltp get_instrument find_option_contract list_option_expiries : MethodName

-- `_METHOD_CATEGORIES`
unfoldable pub method_category : MethodName → RateLimitCategory
method_category authenticate = general
method_category health_check = general
method_category place_order = order_mutation
method_category modify_order = order_mutation
method_category cancel_order = order_mutation
method_category get_order = order_read
method_category get_orders = order_read
method_category find_order_by_tag = order_read
method_category get_positions = portfolio_read
method_category get_holdings = portfolio_read
method_category get_margins = portfolio_read
method_category get_quote = market_data
method_category get_ltp = market_data
method_category get_instrument = instrument_lookup
method_category find_option_contract = instrument_lookup
method_category list_option_expiries = instrument_lookup

-- `RateLimitConfig.rules`
abbrev pub RateLimitConfig : Type 0
RateLimitConfig = RateLimitCategory → Option RateLimitRule

abbrev pub Buckets : Type 0
Buckets = RateLimitCategory → Option TokenBucket

abbrev pub set_bucket : RateLimitCategory → TokenBucket → Buckets → Buckets
set_bucket k b buckets j = if k == j then some b else buckets j

abbrev pub bucket_of : Option RateLimitRule → Option TokenBucket
bucket_of none = none
bucket_of (some r) = some (new_bucket r)

-- `deadline`, from a first reading of the clock
abbrev pub deadline_from : Option ℕ → ℕ → Option ℕ
deadline_from none now = none
deadline_from (some timeout) now = some (now + timeout)

-- no other thread uses the broker
abbrev pub alone : ℕ → ℕ → List ℕ
alone asleep woken = []

-- `bucket.acquire(deadline=deadline)` in `_throttle`, for calls that come one after the other; two
-- passes are enough
unfoldable pub acquire_slot : Clock → TokenBucket → Option ℕ → ℕ → Waited
unfolding acquire
acquire_slot c b timeout now =
    let first = c.read now in acquire c alone 2 (deadline_from timeout first) (c.read first) b

module _ (inner : BrokerBase) where
  -- The broker inside, the buckets, and the clock's last reading.
  pub record RateLimited : Type 0 where
    pub broker : inner.State
    pub buckets : Buckets
    pub clock : ℕ

  -- `RateLimitedBroker.__init__`
  unfoldable pub limit : RateLimitConfig → inner.State → ℕ → RateLimited
  limit rules s now = record { broker = s; buckets = λ k. bucket_of (rules k); clock = now }

  -- what `acquire` raises goes to the caller, and else the broker inside is called
  after_throttle :
      {A : Type 0}
      → Acquired
      → Method inner.State A
      → Option ℕ
      → RateLimited
      → Option (BrokerResult A) × RateLimited
  after_throttle acquired call timeout l =
      let (answer, s) = call timeout l.broker in (some answer, record l { broker = s })
  after_throttle exceeded call timeout l = (some (raised rate_limit_exceeded), l)
  after_throttle broken call timeout l = (none, l)
  after_throttle still_waiting call timeout l = (none, l)

  after_wait :
      {A : Type 0}
      → RateLimitCategory
      → Waited
      → Method inner.State A
      → Option ℕ
      → RateLimited
      → Option (BrokerResult A) × RateLimited
  unfolding after_throttle
  after_wait k w call timeout l =
      after_throttle w.outcome call timeout
        (record l { buckets = set_bucket k w.bucket l.buckets; clock = w.now })

module _ (c : Clock) (inner : BrokerBase) where
  -- a category with no rule is not throttled
  through :
      {A : Type 0}
      → RateLimitCategory
      → Option TokenBucket
      → Method inner.State A
      → Option ℕ
      → RateLimited inner
      → Option (BrokerResult A) × RateLimited inner
  unfolding after_wait after_throttle
  through k none call timeout l = after_throttle inner acquired call timeout l
  through k (some b) call timeout l =
      after_wait inner k (acquire_slot c b timeout l.clock) call timeout l

  -- `self._throttle(name, timeout)` and then the call of the broker inside
  unfoldable pub throttled :
      {A : Type 0}
      → MethodName
      → Method inner.State A
      → Option ℕ
      → RateLimited inner
      → Option (BrokerResult A) × RateLimited inner
  unfolding through acquire_slot method_category
  throttled name call timeout l =
      through (method_category name) (l.buckets (method_category name)) call timeout l
