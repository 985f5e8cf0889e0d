-- ===== src/Risk/Entry.antt =====
-- `RiskCore.validate_entry`: the nine checks in order, each skipped once one has failed.
pub mod FailFast
pub mod Approved
pub mod Latch
mod Tests
use trading_project.Base.{
  ℕ, String, Bool, true, false, Option, none, some, List, [], ◌∷◌, all, not, ◌&&◌, if◌then◌else◌,
}
use trading_project.Risk.Checks.{
  MarginPort, RiskCoreConfig, StrategyIdentity, Book, check_daily_loss_limit, check_trading_hours,
  check_strategy_state, check_kill_switch, check_emergency_stop, check_duplicate_position,
  check_max_daily_entries, check_broker_connectivity, check_available_margin,
}

pub data RiskCheckStatus : Type 0 where
  passed failed skipped : RiskCheckStatus

pub record RiskCheckResult : Type 0 where
  pub name : String
  pub status : RiskCheckStatus

pub record RiskValidationResult : Type 0 where
  pub approved : Bool
  pub checks : List RiskCheckResult

-- `failed_check`
unfoldable pub failed_check : List RiskCheckResult → Option RiskCheckResult
failed_check [] = none
failed_check (c ∷ cs) = elim c.status [ RiskCheckStatus.failed ↦ some c | _ ↦ failed_check cs ]

-- A check by its name, on what the checks share.
abbrev pub Check : Type 0 → Type 0
Check W = String × (W → Bool × W)

abbrev verdict : String → Bool → RiskCheckResult
verdict name true = record { name = name; status = RiskCheckStatus.passed }
verdict name false = record { name = name; status = RiskCheckStatus.failed }

module _ {W : Type 0} where
  abbrev skip : List (Check W) → List RiskCheckResult
  skip [] = []
  skip ((name, check) ∷ cs) = record { name = name; status = RiskCheckStatus.skipped } ∷ skip cs

  -- The loop, up to the first failure and after it: the results, whether none failed, and what is
  -- left.
  unfoldable pub run_checks : List (Check W) → W → (List RiskCheckResult × Bool) × W
  run_checks [] w = (([], true), w)
  run_checks ((name, check) ∷ cs) w =
      let (ok, w') = check w in
      let ((results, approved), w'') = run_checks cs w' in
      if ok
      then ((verdict name true ∷ results, approved), w'')
      else ((verdict name false ∷ skip cs, false), w')

-- The database and the broker.
module _ (b : MarginPort) where
  pub record EntryWorld : Type 0 where
    pub book : Book
    pub broker : b.State

  abbrev pub on_book : (Book → Bool) → EntryWorld → Bool × EntryWorld
  on_book test w = (test w.book, w)

  abbrev writing_book : (Book → Bool × Book) → EntryWorld → Bool × EntryWorld
  writing_book check w = let (ok, book') = check w.book in (ok, record w { book = book' })

  abbrev at_broker : (b.State → Bool × b.State) → EntryWorld → Bool × EntryWorld
  at_broker check w = let (ok, s) = check w.broker in (ok, record w { broker = s })

  module _ (cfg : RiskCoreConfig) (now now_ist_time today : ℕ) (conflict : Bool) where
    unfoldable pub entry_checks : StrategyIdentity → ℕ → List (Check EntryWorld)
    entry_checks identity quantity =
        ("trading_hours", on_book (λ _. check_trading_hours cfg now_ist_time))
        ∷ ("strategy_state", on_book (check_strategy_state identity))
        ∷ ("kill_switch", on_book (check_kill_switch identity))
        ∷ ("emergency_stop", on_book (check_emergency_stop identity))
        ∷ (
          "daily_loss_limit",
          writing_book (
              check_daily_loss_limit conflict identity.account_id today now
                cfg.daily_loss_limit_by_account),
        )
        ∷ ("duplicate_position", on_book (check_duplicate_position identity today))
        ∷ ("max_daily_entries", on_book (check_max_daily_entries cfg identity today))
        ∷ ("broker_connectivity", at_broker (check_broker_connectivity b))
        ∷ ("available_margin", at_broker (check_available_margin b cfg identity quantity))
        ∷ []

    unfoldable pub validate_entry :
        StrategyIdentity → ℕ → EntryWorld → RiskValidationResult × EntryWorld
    unfolding entry_checks
    validate_entry identity quantity w =
        let ((results, approved), w') = run_checks (entry_checks identity quantity) w in
        (record { approved = approved; checks = results }, w')
