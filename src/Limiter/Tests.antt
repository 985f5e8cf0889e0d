-- ===== src/Limiter/Tests.antt =====
-- Runs of the limiter, and the theorems at concrete inputs.
use trading_project.Base.{
  ℕ, ◌+◌, ◌≤◌, ◌<◌, ◌≡◌, ◌↔◌, refl, true, false, Option, none, some, List, [], ◌∷◌, count, arith,
  max,
}
use trading_project.Broker.{returned, raised, connection, order_not_found}
use trading_project.Broker.Contract.{BrokerBase}
use trading_project.Limiter.{
  RateLimitCategory, order_mutation, category_eq, RateLimitRule, rule_accepted, TokenBucket,
  attempt, granted, wait_until, Clock, exceeded, acquire,
}
use trading_project.Limiter.Window.{
  Attempts, start, next, within, recent, Attempts-spaced, attempt-granted_iff,
}
use trading_project.Limiter.Acquire.{Ends, acquire-Attempts}
use trading_project.Limiter.Delegate.{RateLimitConfig, limit, alone}
use trading_project.Limiter.Refines.{
  Call, cancel_order, get_order, ask_all, Allowed, RateLimitedBroker-Allowed,
}

abbrev two_in_ten : RateLimitRule
two_in_ten = record { max_calls = 2; per_seconds = 10 }

-- a clock that stands still between two readings and wakes sleepers one unit late
abbrev ticking : Clock
ticking = record {
  read = λ now. now;
  read_forward = λ now. omega arith;
  sleep_until = λ target now. max target now + 1;
  not_early = λ target now. omega arith;
  forward = λ target now. omega arith;
}

abbrev after_two : TokenBucket
after_two = record { rule = two_in_ten; calls = 3 ∷ 5 ∷ [] }

third_waits : attempt 6 after_two ≡ (wait_until 13, after_two)
unfolding attempt
third_waits = refl

two_in_ten_accepted : rule_accepted two_in_ten ≡ true
unfolding rule_accepted
two_in_ten_accepted = refl

-- two calls are let through, and a third waits
asked_at_six : Attempts two_in_ten after_two (3 ∷ 5 ∷ []) 6
unfolding attempt
asked_at_six = next 6 (next 5 (next 3 start (omega arith)) (omega arith)) (omega arith)

Attempts-spaced_example : count (within 10 1) (3 ∷ 5 ∷ []) ≤ 2
Attempts-spaced_example = Attempts-spaced two_in_ten two_in_ten_accepted asked_at_six 1

attempt-granted_iff_example :
    ((attempt 13 after_two).0 ≡ granted) ↔ (recent two_in_ten (3 ∷ 5 ∷ []) 13 < 2)
attempt-granted_iff_example =
    attempt-granted_iff two_in_ten two_in_ten_accepted 13 asked_at_six (omega arith)

-- with a deadline at 9 the third call is refused at once
third_refused : (acquire ticking alone 2 (some 9) 6 after_two).outcome ≡ exceeded
unfolding acquire attempt
third_refused = refl

acquire-Attempts_example :
    Ends two_in_ten (3 ∷ 5 ∷ []) (some 20) 6 (acquire ticking alone 2 (some 20) 6 after_two)
acquire-Attempts_example =
    acquire-Attempts ticking alone two_in_ten two_in_ten_accepted (λ asleep woken. refl) 0 (some 20)
      6 asked_at_six (omega arith)

-- a broker that counts the calls it gets
abbrev counting : BrokerBase
counting = record {
  State = ℕ;
  authenticate = λ timeout n. (returned tt, n + 1);
  health_check = λ timeout n. (raised connection, n + 1);
  place_order =
      λ r timeout n. (returned (record { broker_order_id = "1"; raw_response = none }), n + 1);
  modify_order = λ r timeout n. (returned tt, n + 1);
  cancel_order = λ id timeout n. (returned tt, n + 1);
  get_order = λ id timeout n. (raised order_not_found, n + 1);
  get_orders = λ timeout n. (returned [], n + 1);
  find_order_by_tag = λ t timeout n. (returned none, n + 1);
  get_positions = λ timeout n. (returned [], n + 1);
  get_holdings = λ timeout n. (returned [], n + 1);
  get_margins = λ timeout n. (raised connection, n + 1);
  get_quote = λ is timeout n. (returned [], n + 1);
  get_ltp = λ is timeout n. (returned [], n + 1);
  get_instrument = λ e s timeout n. (raised connection, n + 1);
  find_option_contract = λ q timeout n. (raised connection, n + 1);
  list_option_expiries = λ u e timeout n. (returned none, n + 1);
  is_authenticated = λ n. true;
  close = λ n. n;
  connect_websocket = λ timeout n. (returned tt, n);
  disconnect_websocket = λ n. n;
  is_websocket_connected = λ n. false;
}

-- order mutations only are limited
abbrev some_rules : RateLimitConfig
some_rules order_mutation = some two_in_ten
some_rules _ = none

some_rules_accepted :
    (k : RateLimitCategory) (r : RateLimitRule) → some_rules k ≡ some r → rule_accepted r ≡ true
unfolding rule_accepted
some_rules_accepted k r e = ground arith

abbrev four_calls : List (Call × Option ℕ)
four_calls =
    (cancel_order "7", some 5)
    ∷ (cancel_order "8", some 5)
    ∷ (cancel_order "9", some 5)
    ∷ (get_order "7", none)
    ∷ []

RateLimitedBroker-Allowed_example :
    Allowed counting four_calls 0
      (ask_all ticking counting four_calls (limit counting some_rules 0 100)).1.broker
      (ask_all ticking counting four_calls (limit counting some_rules 0 100)).0
RateLimitedBroker-Allowed_example =
    RateLimitedBroker-Allowed ticking counting some_rules some_rules_accepted four_calls 0 100
