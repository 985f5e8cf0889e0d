-- ===== src/Exit/Tests.antt =====
-- Exits of a straddle at a broker that fills every order, and after a crash.
use trading_project.Base.{
  ℕ, suc, ◌≡◌, ◌↔◌, inl, refl, Bool, true, false, Option, none, some, [], ◌∷◌,
}
use trading_project.Base.Int.{pos}
use trading_project.Enums.{
  Exchange, OptionType, InstanceStatus, PositionState, ExitReason, TradeLegStatus, OrderPurpose,
  TransactionType, OrderType, ProductType, OrderStatus, IntentStatus,
}
use trading_project.Models.{Position, Trade, Tag, OrderIntent}
use trading_project.Broker.{BrokerOrder, returned}
use trading_project.Position.Tests.{fresh}
use trading_project.Exit.Decision.{evaluate_exit, Trigger, evaluate_exit_iff}
use trading_project.Store.{find_trade, find_intent}
use trading_project.Exit.Flow.{ExitConfig, ExitLeg}
use trading_project.Runtime.{BrokerPort, World}
use trading_project.Exit.Procedure.{close_leg, exit}
use trading_project.Exit.Procedure.Outcome.{Settled, exit-Settled}
use trading_project.Exit.Procedure.Adoption.{close_leg-adopts}

evaluate_exit_iff_example :
    (evaluate_exit 54000 55200 false (some (pos 130)) (some (pos 140)) (some (pos 240))
      ≡ record { should_exit = true; reason = some ExitReason.target })
    ↔ Trigger 54000 55200 false
        (some (pos 130))
        (some (pos 140))
        (some (pos 240))
        (some ExitReason.target)
evaluate_exit_iff_example =
    evaluate_exit_iff 54000 55200 false (some (pos 130)) (some (pos 140)) (some (pos 240))
      (some ExitReason.target)

abbrev filled : BrokerOrder
filled = record {
  broker_order_id = "B1";
  tag = none;
  status = OrderStatus.complete;
  exchange = Exchange.nfo;
  tradingsymbol = "NIFTY24000CE";
  transaction_type = TransactionType.buy;
  product = ProductType.normal;
  order_type = OrderType.market;
  quantity = 75;
  filled_quantity = 75;
  average_price = some (pos 700000);
  trigger_price = none;
  placed_at = none;
  filled_at = some 900;
  exchange_updated_at = none;
  status_message = none;
  raw_response = none;
}

-- A broker that fills everything and counts the orders it is sent; it finds any tag it is asked for
-- once an order was sent.
abbrev counting : BrokerPort
counting = record {
  State = ℕ;
  place_order = λ r n. (returned "B1", suc n);
  get_order = λ id n. (returned filled, n);
  find_order_by_tag = λ tag n. (returned (some filled), n);
}

abbrev cfg : ExitConfig
cfg = record {
  instance_id = 1;
  product_type = ProductType.normal;
  fill_attempts = 3;
  close_attempts = 3;
}

abbrev leg_of : ℕ → OptionType → Trade
leg_of id option_type = record {
  id = id;
  position_id = 7;
  option_type = option_type;
  trading_symbol = "NIFTY24000";
  exchange = Exchange.nfo;
  strike = pos 240000000;
  quantity = 75;
  entry_price = some (pos 1000000);
  exit_price = none;
  entry_time = some 100;
  exit_time = none;
  realized_pnl = none;
  status = TradeLegStatus.opened;
}

abbrev begun : OrderIntent
begun = record {
  id = 21;
  trade_id = 11;
  purpose = OrderPurpose.exit;
  transaction_type = TransactionType.buy;
  quantity = 75;
  idempotency_key = record {
    purpose = OrderPurpose.exit;
    instance_id = 1;
    trade_date = 20000;
    option_type = OptionType.ce;
    unwind = false;
  };
  broker_tag = Tag.text "X1";
  status = IntentStatus.submitted_unconfirmed;
  broker_call_started_at = some 850;
}

abbrev held : Position
held = record fresh { state = PositionState.opened }

abbrev world : Option Position → Bool → World counting
world position locked = record {
  store = record {
    position = position;
    trades = leg_of 11 OptionType.ce ∷ leg_of 12 OptionType.pe ∷ [];
    intents = begun ∷ [];
    orders = [];
    audit = [];
    breaks = [];
    instance_status = some InstanceStatus.active;
    next_id = 100;
  };
  broker = 0;
  locked = locked;
}

exit-Settled_example :
    let (r, w') = exit counting cfg 900 20000 false ExitReason.target (world (some held) false) in
    Settled 900 false ExitReason.target held r w'.store
exit-Settled_example =
    exit-Settled counting cfg 900 20000 false ExitReason.target held (world (some held) false) refl
      refl refl refl (inl refl)

abbrev exit_leg : ExitLeg
exit_leg = record {
  trade_id = 11;
  intent_id = 21;
  tradingsymbol = "NIFTY24000";
  exchange = Exchange.nfo;
  option_type = OptionType.ce;
  quantity = 75;
}

-- No order is sent for the leg whose intent is marked.
close_leg-adopts_example :
    (close_leg counting cfg 900 20000 exit_leg (world (some held) true)).1.broker ≡ 0
close_leg-adopts_example =
    close_leg-adopts counting (λ n. n ≡ 0)
      (record { get_order = λ id s h. h; find_order = λ t s h. h }) cfg 900 20000 exit_leg
      (leg_of 11 OptionType.ce) begun (world (some held) true) (unfold find_trade in refl)
      (unfold find_intent in refl) refl tt refl
