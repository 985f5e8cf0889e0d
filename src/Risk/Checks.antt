-- ===== src/Risk/Checks.antt =====
-- The checks of `RiskCore.validate_entry` (src/algo/risk/risk_core.py) and the queries they make.
-- A check returns whether it passed, beside what it leaves: none of them returns SKIPPED itself.
-- Only the daily loss check writes; `conflict` says that its write met a concurrent one.
use trading_project.Base.{
  ℕ, String, Bool, true, false, Option, none, some, List, [], ◌∷◌, any, count, leb, ltb, is_some,
  not, ◌&&◌, ◌||◌, ◌==◌, eqb, nat_eq, string_eq, option_eq, if◌then◌else◌,
}
use trading_project.Base.Int.{ℤ, pos, ◌+ℤ◌, ◌-ℤ◌, ◌*ℤ◌, leb_ℤ, ltb_ℤ}
use trading_project.Base.Dict.{Dict, lookup}
use trading_project.Enums.{InstanceStatus, instance_status_eq, RiskFlagType, risk_flag_type_eq}
use trading_project.Models.{Position}
use trading_project.Broker.{BrokerResult, returned, raised}
use trading_project.Risk.Flags.{FlagTable, list_active_relevant_to}

-- The part of `BrokerBase` that the checks use: whether it is healthy, and the available cash.
pub record MarginPort : Type 1 where
  pub State : Type 0
  pub health_check : State → BrokerResult Bool × State
  pub get_margins : State → BrokerResult ℤ × State

pub record RiskCoreConfig : Type 0 where
  pub market_open_time : ℕ
  pub market_close_time : ℕ
  pub max_daily_entries_per_account : ℕ
  pub legs_per_entry : ℕ
  pub margin_per_lot_by_instrument : Dict String ℤ
  pub daily_loss_limit_by_account : Option ℤ

pub record StrategyIdentity : Type 0 where
  pub account_id : ℕ
  pub instance_id : ℕ
  pub instrument : String

pub record StrategyInstance : Type 0 where
  pub id : ℕ
  pub account_id : ℕ
  pub status : InstanceStatus

pub record DailyRiskState : Type 0 where
  pub account_id : ℕ
  pub instrument : Option String
  pub trade_date : ℕ
  pub realized_pnl : ℤ
  pub unrealized_pnl : ℤ
  pub loss_limit : ℤ
  pub breached : Bool
  pub breached_at : Option ℕ

-- What the checks read of the database.
pub record Book : Type 0 where
  pub flag_table : FlagTable
  pub instances : List StrategyInstance
  pub positions : List Position
  pub daily : List DailyRiskState

unfoldable pub get_instance : ℕ → List StrategyInstance → Option StrategyInstance
get_instance id [] = none
get_instance id (i ∷ is) = if eqb i.id id then some i else get_instance id is

unfoldable pub get_by_instance_and_date : ℕ → ℕ → List Position → Option Position
get_by_instance_and_date id date [] = none
get_by_instance_and_date id date (p ∷ ps) =
    if p.strategy_instance_id == id && p.trade_date == date
    then some p
    else get_by_instance_and_date id date ps

-- the join of a position with its instance
of_account : ℕ → List StrategyInstance → Position → Bool
of_account account_id instances p =
    any (λ i. i.id == p.strategy_instance_id && i.account_id == account_id) instances

unfoldable pub count_for_account_on_date : ℕ → ℕ → Book → ℕ
unfolding of_account
count_for_account_on_date account_id date book =
    count (λ p. of_account account_id book.instances p && p.trade_date == date) book.positions

-- `coalesce(sum(…), 0)`, which passes over NULL
abbrev amount : Option ℤ → ℤ
amount none = pos 0
amount (some x) = x

sum_realized : ℕ → ℕ → List StrategyInstance → List Position → ℤ
unfolding of_account
sum_realized account_id date instances [] = pos 0
sum_realized account_id date instances (p ∷ ps) =
    let rest = sum_realized account_id date instances ps in
    if of_account account_id instances p && p.trade_date == date
    then amount p.realized_pnl +ℤ rest
    else rest

unfoldable pub realized_pnl_for_account_on_date : ℕ → ℕ → Book → ℤ
unfolding sum_realized
realized_pnl_for_account_on_date account_id date book =
    sum_realized account_id date book.instances book.positions

-- the row of the whole account
unfoldable pub is_portfolio_row : ℕ → ℕ → DailyRiskState → Bool
is_portfolio_row account_id date row =
    row.account_id == account_id && row.trade_date == date && not (is_some row.instrument)

unfoldable pub get_portfolio_row : ℕ → ℕ → List DailyRiskState → Option DailyRiskState
unfolding is_portfolio_row
get_portfolio_row account_id date [] = none
get_portfolio_row account_id date (row ∷ rows) =
    if is_portfolio_row account_id date row
    then some row
    else get_portfolio_row account_id date rows

-- `update_pnl` and `mark_breached`
unfoldable pub written_row : ℤ → ℤ → Bool → ℕ → DailyRiskState → DailyRiskState
written_row realized unrealized latch_breach now row = record row {
  realized_pnl = realized;
  unrealized_pnl = unrealized;
  breached = row.breached || latch_breach;
  breached_at = if latch_breach && not row.breached then some now else row.breached_at;
}

abbrev new_row : ℕ → ℕ → ℤ → DailyRiskState
new_row account_id date loss_limit = record {
  account_id = account_id;
  instrument = none;
  trade_date = date;
  realized_pnl = pos 0;
  unrealized_pnl = pos 0;
  loss_limit = loss_limit;
  breached = false;
  breached_at = none;
}

-- `_persist_daily_risk` on the rows: the row of the account, made if there is none, is written
unfoldable pub persist_rows :
    ℕ → ℕ → ℤ → (DailyRiskState → DailyRiskState) → List DailyRiskState → List DailyRiskState
unfolding is_portfolio_row
persist_rows account_id date limit write [] = write (new_row account_id date limit) ∷ []
persist_rows account_id date limit write (row ∷ rows) =
    if is_portfolio_row account_id date row
    then write row ∷ rows
    else row ∷ persist_rows account_id date limit write rows

-- `existing.… if existing is not None else …`
abbrev pub was_breached : Option DailyRiskState → Bool
was_breached none = false
was_breached (some row) = row.breached

abbrev unrealized_of : Option DailyRiskState → ℤ
unrealized_of none = pos 0
unrealized_of (some row) = row.unrealized_pnl

abbrev limit_of : ℤ → Option DailyRiskState → ℤ
limit_of limit none = limit
limit_of limit (some row) = row.loss_limit

-- `total_pnl <= -effective_limit`
unfoldable pub crossed : ℕ → ℕ → ℤ → Book → Bool
crossed account_id date limit book =
    let existing = get_portfolio_row account_id date book.daily in
    leb_ℤ (realized_pnl_for_account_on_date account_id date book +ℤ unrealized_of existing)
      (pos 0 -ℤ limit_of limit existing)

abbrev persisted : Bool → ℕ → ℕ → ℕ → ℤ → Book → List DailyRiskState
persisted conflict account_id date now limit book =
    if conflict
    then book.daily
    else persist_rows account_id date limit
        (written_row (realized_pnl_for_account_on_date account_id date book)
          (unrealized_of (get_portfolio_row account_id date book.daily))
          (crossed account_id date limit book) now)
        book.daily

-- `_check_daily_loss_limit`
unfoldable pub check_daily_loss_limit : Bool → ℕ → ℕ → ℕ → Option ℤ → Book → Bool × Book
check_daily_loss_limit conflict account_id date now none book = (true, book)
check_daily_loss_limit conflict account_id date now (some limit) book = (
  not (
      was_breached (get_portfolio_row account_id date book.daily)
      || crossed account_id date limit book),
  record book { daily = persisted conflict account_id date now limit book },
)

unfoldable pub check_trading_hours : RiskCoreConfig → ℕ → Bool
check_trading_hours cfg now_ist_time =
    leb cfg.market_open_time now_ist_time && leb now_ist_time cfg.market_close_time

-- the active flags of one type that concern the instance, `[f for f in flags if …]`
unfoldable pub has_flag : RiskFlagType → StrategyIdentity → Book → Bool
has_flag flag_type identity book =
    any (λ f. f.target.flag_type == flag_type)
      (list_active_relevant_to identity.account_id identity.instance_id book.flag_table.flags)

abbrev is_active : Option StrategyInstance → Bool
is_active none = false
is_active (some i) = i.status == InstanceStatus.active

unfoldable pub check_strategy_state : StrategyIdentity → Book → Bool
check_strategy_state identity book =
    is_active (get_instance identity.instance_id book.instances)
    && not (has_flag RiskFlagType.freeze identity book)

unfoldable pub check_kill_switch : StrategyIdentity → Book → Bool
check_kill_switch identity book = not (has_flag RiskFlagType.kill_switch identity book)

unfoldable pub check_emergency_stop : StrategyIdentity → Book → Bool
check_emergency_stop identity book = not (has_flag RiskFlagType.emergency_exit identity book)

unfoldable pub check_duplicate_position : StrategyIdentity → ℕ → Book → Bool
check_duplicate_position identity date book =
    not (is_some (get_by_instance_and_date identity.instance_id date book.positions))

unfoldable pub check_max_daily_entries : RiskCoreConfig → StrategyIdentity → ℕ → Book → Bool
check_max_daily_entries cfg identity date book =
    ltb (count_for_account_on_date identity.account_id date book) cfg.max_daily_entries_per_account

abbrev healthy : BrokerResult Bool → Bool
healthy (returned ok) = ok
healthy (raised _) = false

abbrev enough : ℤ → BrokerResult ℤ → Bool
enough required (returned available) = not (ltb_ℤ available required)
enough required (raised _) = false

module _ (b : MarginPort) where
  unfoldable pub check_broker_connectivity : b.State → Bool × b.State
  check_broker_connectivity s = let (answer, s') = b.health_check s in (healthy answer, s')

  margin_for : RiskCoreConfig → ℕ → Option ℤ → b.State → Bool × b.State
  margin_for cfg quantity none s = (false, s)
  margin_for cfg quantity (some per_lot) s =
      let (answer, s') = b.get_margins s in
      (enough (per_lot *ℤ pos quantity *ℤ pos cfg.legs_per_entry) answer, s')

  unfoldable pub check_available_margin :
      RiskCoreConfig → StrategyIdentity → ℕ → b.State → Bool × b.State
  unfolding margin_for
  check_available_margin cfg identity quantity s =
      margin_for cfg quantity (lookup identity.instrument cfg.margin_per_lot_by_instrument) s
