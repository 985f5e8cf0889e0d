-- ===== src/Limiter/Refines.antt =====
-- brokers/rate_limiter.py: `RateLimitedBroker` stands in for the broker inside. A program's calls are
-- a list of requests with the timeouts that it allows.
use trading_project.Base.{ℕ, String, Option, none, some, List, [], ◌∷◌, ◌≡◌, true}
use trading_project.Base.Int.{ℤ}
use trading_project.Base.Dict.{Dict}
use trading_project.Enums.{Exchange}
use trading_project.Models.{Tag}
use trading_project.Broker.{
  InstrumentIdentifier, BrokerInstrument, PlaceOrderRequest, ModifyOrderRequest, BrokerOrder,
  BrokerResult, returned, raised, rate_limit_exceeded,
}
use trading_project.Broker.Contract.{
  BrokerBase, Method, PlaceOrderResult, BrokerPosition, BrokerHolding, BrokerMargins, BrokerQuote,
  HealthStatus, OptionQuery,
}
use trading_project.Limiter.{RateLimitCategory, RateLimitRule, rule_accepted, Clock}
use trading_project.Limiter.Delegate.{MethodName, RateLimited, RateLimitConfig, limit, throttled}
use trading_project.Limiter.Delegate.Implements.{
  AllUsed, Throttled, done, not_done, throttled-Throttled, limit-AllUsed,
}
use trading_project.Limiter.Methods

-- A call of a throttled method.
pub data Call : Type 0 where
  authenticate health_check get_orders get_positions get_holdings get_margins : Call
  place_order : PlaceOrderRequest → Call
  modify_order : ModifyOrderRequest → Call
  cancel_order get_order : String → Call
  find_order_by_tag : Tag → Call
  get_quote get_ltp : List InstrumentIdentifier → Call
  get_instrument : Exchange → String → Call
  find_option_contract : OptionQuery → Call
  list_option_expiries : String → Exchange → Call

-- What it may return.
pub data Reply : Type 0 where
  nothing : Reply
  health : HealthStatus → Reply
  placed : PlaceOrderResult → Reply
  order : BrokerOrder → Reply
  orders : List BrokerOrder → Reply
  found : Option BrokerOrder → Reply
  positions : List BrokerPosition → Reply
  holdings : List BrokerHolding → Reply
  margins : BrokerMargins → Reply
  quotes : Dict InstrumentIdentifier BrokerQuote → Reply
  prices : Dict InstrumentIdentifier ℤ → Reply
  instrument : BrokerInstrument → Reply
  expiries : Option (List ℕ) → Reply

module _ {A : Type 0} (wrap : A → Reply) where
  abbrev reply : BrokerResult A → BrokerResult Reply
  reply (returned a) = returned (wrap a)
  reply (raised e) = raised e

  abbrev limited_reply : Option (BrokerResult A) → Option (BrokerResult Reply)
  limited_reply none = none
  limited_reply (some a) = some (reply a)

module _ (inner : BrokerBase) where
  abbrev replying : {A : Type 0} → (A → Reply) → Method inner.State A → Method inner.State Reply
  replying wrap m timeout s = let (a, s') = m timeout s in (reply wrap a, s')

  -- the call, made of the broker inside
  unfoldable pub ask_inner : Call → Method inner.State Reply
  ask_inner authenticate = replying (λ _. nothing) inner.authenticate
  ask_inner health_check = replying health inner.health_check
  ask_inner (place_order r) = replying placed (inner.place_order r)
  ask_inner (modify_order r) = replying (λ _. nothing) (inner.modify_order r)
  ask_inner (cancel_order id) = replying (λ _. nothing) (inner.cancel_order id)
  ask_inner (get_order id) = replying order (inner.get_order id)
  ask_inner get_orders = replying orders inner.get_orders
  ask_inner (find_order_by_tag t) = replying found (inner.find_order_by_tag t)
  ask_inner get_positions = replying positions inner.get_positions
  ask_inner get_holdings = replying holdings inner.get_holdings
  ask_inner get_margins = replying margins inner.get_margins
  ask_inner (get_quote is) = replying quotes (inner.get_quote is)
  ask_inner (get_ltp is) = replying prices (inner.get_ltp is)
  ask_inner (get_instrument e s) = replying instrument (inner.get_instrument e s)
  ask_inner (find_option_contract q) = replying instrument (inner.find_option_contract q)
  ask_inner (list_option_expiries u e) = replying expiries (inner.list_option_expiries u e)

  -- What a program may see of calls made one after another, by the broker inside: each call is
  -- answered by it, or refused with `BrokerRateLimitExceededError` and not made at all.
  pub data Allowed
      : List (Call × Option ℕ)
        → inner.State
        → inner.State
        → List (Option (BrokerResult Reply))
        → Type 0 where
    over : {s : inner.State} → Allowed [] s s []
    answered :
        {call : Call} {timeout : Option ℕ} {calls : List (Call × Option ℕ)} {s t : inner.State}
        {rs : List (Option (BrokerResult Reply))}
        → Allowed calls (ask_inner call timeout s).1 t rs
        → Allowed ((call, timeout) ∷ calls) s t (some (ask_inner call timeout s).0 ∷ rs)
    refused :
        {call : Call} {timeout : Option ℕ} {calls : List (Call × Option ℕ)} {s t : inner.State}
        {rs : List (Option (BrokerResult Reply))}
        → Allowed calls s t rs
        → Allowed ((call, timeout) ∷ calls) s t (some (raised rate_limit_exceeded) ∷ rs)

module _ (c : Clock) (inner : BrokerBase) where
  abbrev limited :
      {A : Type 0} → (A → Reply) → Methods.Limited c inner A → Methods.Limited c inner Reply
  limited wrap m timeout l = let (a, l') = m timeout l in (limited_reply wrap a, l')

  -- the call, made of the limited broker
  unfoldable pub ask_limited : Call → Methods.Limited c inner Reply
  ask_limited authenticate = limited (λ _. nothing) (Methods.authenticate c inner)
  ask_limited health_check = limited health (Methods.health_check c inner)
  ask_limited (place_order r) = limited placed (Methods.place_order c inner r)
  ask_limited (modify_order r) = limited (λ _. nothing) (Methods.modify_order c inner r)
  ask_limited (cancel_order id) = limited (λ _. nothing) (Methods.cancel_order c inner id)
  ask_limited (get_order id) = limited order (Methods.get_order c inner id)
  ask_limited get_orders = limited orders (Methods.get_orders c inner)
  ask_limited (find_order_by_tag t) = limited found (Methods.find_order_by_tag c inner t)
  ask_limited get_positions = limited positions (Methods.get_positions c inner)
  ask_limited get_holdings = limited holdings (Methods.get_holdings c inner)
  ask_limited get_margins = limited margins (Methods.get_margins c inner)
  ask_limited (get_quote is) = limited quotes (Methods.get_quote c inner is)
  ask_limited (get_ltp is) = limited prices (Methods.get_ltp c inner is)
  ask_limited (get_instrument e s) = limited instrument (Methods.get_instrument c inner e s)
  ask_limited (find_option_contract q) = limited instrument (Methods.find_option_contract c inner q)
  ask_limited (list_option_expiries u e) =
      limited expiries (Methods.list_option_expiries c inner u e)

  -- calls made of the limited broker one after another
  unfoldable pub ask_all :
      List (Call × Option ℕ)
      → RateLimited inner
      → List (Option (BrokerResult Reply)) × RateLimited inner
  ask_all [] l = ([], l)
  ask_all ((call, timeout) ∷ calls) l =
      let (a, l') = ask_limited call timeout l in let (rs, l'') = ask_all calls l' in (a ∷ rs, l'')

  limited-Throttled :
      {A : Type 0} (wrap : A → Reply) (name : MethodName) (m : Method inner.State A)
      (timeout : Option ℕ) (l : RateLimited inner)
      → AllUsed l.clock l.buckets
      → Throttled inner
          (replying inner wrap m)
          timeout
          l
          (limited wrap (throttled c inner name m) timeout l)
  limited-Throttled wrap name m timeout l before =
      elim (throttled-Throttled inner m timeout l c name before) [
        | done buckets clock after e ↦ done buckets clock after (rw e)
        | not_done buckets clock after e ↦ not_done buckets clock after (rw e)
      ]

  ask_limited-Throttled :
      (call : Call) (timeout : Option ℕ) (l : RateLimited inner)
      → AllUsed l.clock l.buckets
      → Throttled inner (ask_inner inner call) timeout l (ask_limited call timeout l)
  unfolding ask_inner ask_limited Methods.authenticate Methods.health_check Methods.place_order
      Methods.modify_order Methods.cancel_order Methods.get_order Methods.get_orders
      Methods.find_order_by_tag Methods.get_positions Methods.get_holdings Methods.get_margins
      Methods.get_quote Methods.get_ltp Methods.get_instrument Methods.find_option_contract
      Methods.list_option_expiries
  ask_limited-Throttled authenticate =
      limited-Throttled (λ _. nothing) MethodName.authenticate inner.authenticate
  ask_limited-Throttled health_check =
      limited-Throttled health MethodName.health_check inner.health_check
  ask_limited-Throttled (place_order r) =
      limited-Throttled placed MethodName.place_order (inner.place_order r)
  ask_limited-Throttled (modify_order r) =
      limited-Throttled (λ _. nothing) MethodName.modify_order (inner.modify_order r)
  ask_limited-Throttled (cancel_order id) =
      limited-Throttled (λ _. nothing) MethodName.cancel_order (inner.cancel_order id)
  ask_limited-Throttled (get_order id) =
      limited-Throttled order MethodName.get_order (inner.get_order id)
  ask_limited-Throttled get_orders = limited-Throttled orders MethodName.get_orders inner.get_orders
  ask_limited-Throttled (find_order_by_tag t) =
      limited-Throttled found MethodName.find_order_by_tag (inner.find_order_by_tag t)
  ask_limited-Throttled get_positions =
      limited-Throttled positions MethodName.get_positions inner.get_positions
  ask_limited-Throttled get_holdings =
      limited-Throttled holdings MethodName.get_holdings inner.get_holdings
  ask_limited-Throttled get_margins =
      limited-Throttled margins MethodName.get_margins inner.get_margins
  ask_limited-Throttled (get_quote is) =
      limited-Throttled quotes MethodName.get_quote (inner.get_quote is)
  ask_limited-Throttled (get_ltp is) =
      limited-Throttled prices MethodName.get_ltp (inner.get_ltp is)
  ask_limited-Throttled (get_instrument e s) =
      limited-Throttled instrument MethodName.get_instrument (inner.get_instrument e s)
  ask_limited-Throttled (find_option_contract q) =
      limited-Throttled instrument MethodName.find_option_contract (inner.find_option_contract q)
  ask_limited-Throttled (list_option_expiries u e) =
      limited-Throttled expiries MethodName.list_option_expiries (inner.list_option_expiries u e)

  ask_all-Allowed :
      (calls : List (Call × Option ℕ)) (l : RateLimited inner)
      → AllUsed l.clock l.buckets
      → Allowed inner calls l.broker (ask_all calls l).1.broker (ask_all calls l).0
  unfolding ask_all
  ask_all-Allowed [] l before = over
  ask_all-Allowed ((call, timeout) ∷ calls) l before =
      elim (ask_limited-Throttled call timeout l before) [
        | done buckets clock after e ↦ rw e (answered (ask_all-Allowed calls _ after))
        | not_done buckets clock after e ↦ rw e (refused (ask_all-Allowed calls _ after))
      ]

  -- A limiter with positive rules refines the broker inside: whatever calls are made of it, one after
  -- the other and with whatever timeouts, each returns, and either the broker inside has answered it
  -- or it was refused with `BrokerRateLimitExceededError` and the broker inside was not called. The
  -- two brokers end in the same state.
  pub RateLimitedBroker-Allowed :
      (rules : RateLimitConfig)
      → ((k : RateLimitCategory) (r : RateLimitRule) → rules k ≡ some r → rule_accepted r ≡ true)
      → (calls : List (Call × Option ℕ)) (s : inner.State) (now : ℕ)
      → Allowed inner calls s
          (ask_all calls (limit inner rules s now)).1.broker
          (ask_all calls (limit inner rules s now)).0
  unfolding limit
  RateLimitedBroker-Allowed rules accepted calls s now =
      ask_all-Allowed calls (limit inner rules s now) (limit-AllUsed inner rules s now accepted)
