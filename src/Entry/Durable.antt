-- ===== src/Entry/Durable.antt =====
-- `_create_durable_record`: before anything is sent, the position row, its two trades and their
-- intents are written, all or none; with `PositionRepository.get_or_create` and `add_trade`.
pub mod Frame
use trading_project.Base.{ℕ, ◌+◌, ◌*◌, Option, none, some, [], ◌∷◌, ◌++◌, true, false}
use trading_project.Base.Int.{ℤ}
use trading_project.Enums.{OptionType, PositionState, TradeLegStatus, TransactionType}
use trading_project.Models.{Position, Trade}
use trading_project.Result.{ok}
use trading_project.Action.{pure, lift, gets, ◌>>=◌, ◌>>◌, unit_of_work}
use trading_project.Broker.{BrokerInstrument}
use trading_project.Store.{Store, Db, get_or_create_intent}
use trading_project.Strike.{StraddleStrikeSelection}
use trading_project.Entry.{EntryConfig, Services, LegIds, DurableRecord, entry_key, validate_tag}

module _ (cfg : EntryConfig) (now trade_date : ℕ) where
  -- the row of a new position
  abbrev pub entry_row : StraddleStrikeSelection → ℕ → Position
  entry_row selection id = record {
    id = id;
    strategy_instance_id = cfg.instance_id;
    trade_date = trade_date;
    state = PositionState.entry_pending;
    expiry_date = some selection.expiry;
    strike = some selection.atm_strike;
    strike_interval = some selection.strike_interval;
    lots = some cfg.lots;
    lot_size = some selection.call.lot_size;
    quantity = some (cfg.lots * selection.call.lot_size);
    entry_spot_ltp = some selection.spot_ltp;
    target_pct = some cfg.target_pct;
    sl_pct = some cfg.sl_pct;
    combined_entry_premium = none;
    target_premium = none;
    stoploss_premium = none;
    combined_exit_premium = none;
    exit_reason = none;
    realized_pnl = none;
    entry_signal_time = some now;
    entry_completed_at = none;
    exit_signal_time = none;
    exit_completed_at = none;
    error_message = none;
    needs_reconciliation = false;
  }

  -- `get_or_create`: the identifier of the row, if this call created it. A row that the lookup finds,
  -- or that another writer's insert made first, stays.
  unfoldable pub get_or_create_position :
      Option Position → Option Position → StraddleStrikeSelection → Db (Option ℕ)
  get_or_create_position (some p) rival selection s = (ok none, s)
  get_or_create_position none (some p) selection s = (ok none, record s { position = some p })
  get_or_create_position none none selection s = (
    ok (some s.next_id),
    record s { position = some (entry_row selection s.next_id); next_id = s.next_id + 1 },
  )

  -- `add_trade`
  unfoldable pub add_trade : ℕ → OptionType → BrokerInstrument → ℤ → ℕ → Db ℕ
  add_trade position_id option_type contract strike quantity s = (
    ok s.next_id,
    record s {
      trades =
          s.trades
          ++ (record {
            id = s.next_id;
            position_id = position_id;
            option_type = option_type;
            trading_symbol = contract.tradingsymbol;
            exchange = contract.exchange;
            strike = strike;
            quantity = quantity;
            entry_price = none;
            exit_price = none;
            entry_time = none;
            exit_time = none;
            realized_pnl = none;
            status = TradeLegStatus.pending;
          })
            ∷ [];
      next_id = s.next_id + 1;
    },
  )

  -- one turn of the loop over the two contracts
  pub add_leg : ℕ → OptionType → BrokerInstrument → ℤ → ℕ → Db LegIds
  unfolding add_trade validate_tag
  add_leg position_id option_type contract strike quantity = do
    trade_id ← add_trade position_id option_type contract strike quantity
    lift (validate_tag cfg)
    intent_id ←
        get_or_create_intent (entry_key cfg trade_date option_type) TransactionType.sell trade_id
          quantity
    pure (record {
      trade_id = trade_id;
      intent_id = intent_id;
      tradingsymbol = contract.tradingsymbol;
      contract = contract;
    })

  pub add_legs : StraddleStrikeSelection → Option ℕ → Db (Option DurableRecord)
  add_legs selection none = pure none
  add_legs selection (some id) =
      let quantity = cfg.lots * selection.call.lot_size in
      do
        ce ← add_leg id OptionType.ce selection.call selection.atm_strike quantity
        pe ← add_leg id OptionType.pe selection.put selection.atm_strike quantity
        pure (some (record { position_id = id; quantity = quantity; ce = ce; pe = pe }))

  pub create_durable_record : Option Position → StraddleStrikeSelection → Db (Option DurableRecord)
  unfolding add_legs
  create_durable_record rival selection = unit_of_work do
    existing ← gets (λ s. s.position)
    created ← get_or_create_position existing rival selection
    add_legs selection created
