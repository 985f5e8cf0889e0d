-- ===== src/Risk/Entry/Tests.antt =====
-- The validation of one entry, and the loss check of an account with a bad day.
use trading_project.Base.{ℕ, ◌≡◌, refl, true, false, none, some, [], ◌∷◌, not}
use trading_project.Base.Int.{pos, negsuc, ◌+ℤ◌, ◌-ℤ◌, ◌*ℤ◌}
use trading_project.Enums.{InstanceStatus, PositionState}
use trading_project.Broker.{returned}
use trading_project.Position.Tests.{fresh}
use trading_project.Risk.Flags.{list_active_relevant_to}
use trading_project.Risk.Checks.{
  MarginPort, RiskCoreConfig, StrategyIdentity, Book, get_instance, get_by_instance_and_date,
  count_for_account_on_date, realized_pnl_for_account_on_date, has_flag, get_portfolio_row,
  was_breached, crossed, check_daily_loss_limit, check_trading_hours, check_strategy_state,
  check_kill_switch, check_emergency_stop, check_duplicate_position, check_max_daily_entries,
  check_broker_connectivity, check_available_margin,
}
use trading_project.Risk.Entry.{run_checks, EntryWorld, entry_checks, validate_entry}
use trading_project.Risk.Entry.FailFast.{FailFast, run_checks-FailFast}
use trading_project.Risk.Entry.Approved.{IsClear, validate_entry-IsClear}
use trading_project.Risk.Entry.Latch.{check_daily_loss_limit-records, check_daily_loss_limit-sticky}

abbrev solvent : MarginPort
solvent = record {
  State = ℕ;
  health_check = λ s. (returned true, s);
  get_margins = λ s. (returned (pos 3000000000), s);
}

abbrev cfg : RiskCoreConfig
cfg = record {
  market_open_time = 33300;
  market_close_time = 55800;
  max_daily_entries_per_account = 2;
  legs_per_entry = 2;
  margin_per_lot_by_instrument = ("NIFTY", pos 500000000) ∷ [];
  daily_loss_limit_by_account = some (pos 200000000);
}

abbrev who : StrategyIdentity
who = record { account_id = 4; instance_id = 1; instrument = "NIFTY" }

abbrev book : Book
book = record {
  flag_table = record { flags = []; next_id = 1 };
  instances = record { id = 1; account_id = 4; status = InstanceStatus.active } ∷ [];
  positions = [];
  daily = [];
}

abbrev world : EntryWorld solvent
world = record { book = book; broker = 0 }

approved : (validate_entry solvent cfg 50 36000 20000 false who 3 world).0.approved ≡ true
unfolding validate_entry run_checks check_daily_loss_limit check_trading_hours check_strategy_state
    check_kill_switch check_emergency_stop check_duplicate_position check_max_daily_entries
    check_broker_connectivity check_available_margin get_instance get_by_instance_and_date
    count_for_account_on_date realized_pnl_for_account_on_date has_flag get_portfolio_row crossed
    list_active_relevant_to ◌+ℤ◌ ◌-ℤ◌ ◌*ℤ◌
approved = refl

validate_entry-IsClear_example : IsClear cfg 36000 20000 who book
validate_entry-IsClear_example =
    validate_entry-IsClear solvent cfg 50 36000 20000 false who 3 world approved

run_checks-FailFast_example :
    let ((results, passes), w') =
      run_checks (entry_checks solvent cfg 50 36000 20000 false who 3) world in
    FailFast (entry_checks solvent cfg 50 36000 20000 false who 3) world results passes w'
run_checks-FailFast_example =
    run_checks-FailFast (entry_checks solvent cfg 50 36000 20000 false who 3) world

-- A position of the account that closed at a loss of more than the limit.
abbrev bad_day : Book
bad_day = record book {
  positions =
      record fresh {
        state = PositionState.closed;
        strategy_instance_id = 1;
        realized_pnl = some (negsuc 250000000);
      }
      ∷ [];
}

check_daily_loss_limit-records_example :
    let (passes, book') = check_daily_loss_limit false 4 20000 50 (some (pos 200000000)) bad_day in
    was_breached (get_portfolio_row 4 20000 book'.daily) ≡ not passes
check_daily_loss_limit-records_example =
    check_daily_loss_limit-records 4 20000 50 (pos 200000000) bad_day

abbrev breached_book : Book
breached_book = record book {
  daily =
      record {
        account_id = 4;
        instrument = none;
        trade_date = 20000;
        realized_pnl = pos 0;
        unrealized_pnl = pos 0;
        loss_limit = pos 200000000;
        breached = true;
        breached_at = some 40;
      }
      ∷ [];
}

row_is_breached : was_breached (get_portfolio_row 4 20000 breached_book.daily) ≡ true
unfolding get_portfolio_row
row_is_breached = refl

check_daily_loss_limit-sticky_example :
    let (passes, book') =
      check_daily_loss_limit true 4 20000 50 (some (pos 200000000)) breached_book in
    (passes ≡ false) × (was_breached (get_portfolio_row 4 20000 book'.daily) ≡ true)
check_daily_loss_limit-sticky_example =
    check_daily_loss_limit-sticky 4 20000 true 50 (pos 200000000) breached_book row_is_breached
