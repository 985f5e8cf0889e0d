-- ===== src/Risk/Entry/Approved.antt =====
-- What an approved entry rests on.
use trading_project.Base.{
  ℕ, ◌≤◌, ◌<◌, ◌≡◌, ◌∙◌, sym, refl, String, Bool, true, false, Option, none, some, List, [], ◌∷◌,
  arith, any, ◌==◌, Bool-cases, Option-cases, inl, inr,
}
use trading_project.Base.Int.{ℤ}
use trading_project.Enums.{InstanceStatus, instance_status_eq, RiskFlagType, risk_flag_type_eq}
use trading_project.Risk.Flags.{RiskControlFlag, list_active_relevant_to}
use trading_project.Risk.KillSwitch.{is_halted}
use trading_project.Risk.Checks.{
  MarginPort, RiskCoreConfig, StrategyIdentity, StrategyInstance, Book, get_instance,
  get_by_instance_and_date, count_for_account_on_date, has_flag, check_daily_loss_limit,
  check_trading_hours, check_strategy_state, check_kill_switch, check_emergency_stop,
  check_duplicate_position, check_max_daily_entries,
}
use trading_project.Risk.Entry.{Check, run_checks, EntryWorld, validate_entry}

next_check :
    {W : Type 0} (n : String) (c : W → Bool × W) (cs : List (Check W)) (w : W)
    → (run_checks ((n, c) ∷ cs) w).0.1 ≡ true
    → ((c w).0 ≡ true) × ((run_checks cs (c w).1).0.1 ≡ true)
unfolding run_checks
next_check n c cs w h = elim (Bool-cases (c w).0) [
  | inl ok ↦ (ok, rw ok at h)
  | inr not_ok ↦ absurd (cc (rw not_ok at h))
]

-- A flag has one of the three types, so that a list without any of them is empty.
no_flag_at_all :
    (flags : List RiskControlFlag)
    → any (λ f. f.target.flag_type == RiskFlagType.freeze) flags ≡ false
    → any (λ f. f.target.flag_type == RiskFlagType.kill_switch) flags ≡ false
    → any (λ f. f.target.flag_type == RiskFlagType.emergency_exit) flags ≡ false
    → any (λ _. true) flags ≡ false
no_flag_at_all [] a b c = refl
no_flag_at_all (f ∷ fs) a b c = ground arith

-- What the database says when an entry is approved.
pub record IsClear (cfg : RiskCoreConfig) (now_ist_time today : ℕ) (identity : StrategyIdentity)
    (book : Book) : Type 0 where
  pub opened : cfg.market_open_time ≤ now_ist_time
  pub not_closed : now_ist_time ≤ cfg.market_close_time
  pub instance_row : StrategyInstance
  pub found : get_instance identity.instance_id book.instances ≡ some instance_row
  pub active : instance_row.status ≡ InstanceStatus.active
  pub not_halted : is_halted identity.account_id identity.instance_id book.flag_table ≡ false
  pub first_today : get_by_instance_and_date identity.instance_id today book.positions ≡ none
  pub below_cap :
      count_for_account_on_date identity.account_id today book < cfg.max_daily_entries_per_account

checks-IsClear :
    (cfg : RiskCoreConfig) (now_ist_time today : ℕ) (identity : StrategyIdentity) (book : Book)
    → check_trading_hours cfg now_ist_time ≡ true
    → check_strategy_state identity book ≡ true
    → check_kill_switch identity book ≡ true
    → check_emergency_stop identity book ≡ true
    → check_duplicate_position identity today book ≡ true
    → check_max_daily_entries cfg identity today book ≡ true
    → IsClear cfg now_ist_time today identity book
unfolding check_trading_hours check_strategy_state check_kill_switch check_emergency_stop
    check_duplicate_position check_max_daily_entries has_flag is_halted
checks-IsClear cfg now_ist_time today identity book hours state kill emergency duplicate cap =
    elim (Option-cases (get_instance identity.instance_id book.instances)) [
      | inl missing ↦ absurd (ground (arith, state))
      | inr (row, found) ↦ record {
        opened = ground (arith, hours);
        not_closed = ground (arith, hours);
        instance_row = row;
        found = found;
        active =
            (instance_status_eq.beq_iff row.status InstanceStatus.active).0 (ground (arith, state));
        not_halted =
            no_flag_at_all
              (list_active_relevant_to identity.account_id identity.instance_id
                book.flag_table.flags)
              (ground (arith, state)) (ground (arith, kill)) (ground (arith, emergency));
        first_today = ground (arith, duplicate);
        below_cap = ground (arith, cap);
      }
    ]

-- The daily loss check writes none of the rows that the later checks read.
later_checks :
    (cfg : RiskCoreConfig) (identity : StrategyIdentity) (conflict : Bool)
    (account_id today now : ℕ) (limit : Option ℤ) (book : Book)
    → let book' = (check_daily_loss_limit conflict account_id today now limit book).1 in
      (check_duplicate_position identity today book' ≡ check_duplicate_position identity today book)
      × (check_max_daily_entries cfg identity today book'
          ≡ check_max_daily_entries cfg identity today book)
unfolding check_daily_loss_limit check_duplicate_position check_max_daily_entries
    count_for_account_on_date
later_checks cfg identity conflict account_id today now none book = (refl, refl)
later_checks cfg identity conflict account_id today now (some limit) book = (refl, refl)

module _ (b : MarginPort) (cfg : RiskCoreConfig) (now now_ist_time today : ℕ)
    (conflict : Bool) where
  -- An entry is approved only within the hours of the market, for an instance that is ACTIVE and not
  -- halted by any flag, that has no position for the day, while the account is below its cap of
  -- entries; all of this at the start of the validation.
  pub validate_entry-IsClear :
      (identity : StrategyIdentity) (quantity : ℕ) (w : EntryWorld b)
      → (validate_entry b cfg now now_ist_time today conflict identity quantity w).0.approved ≡ true
      → IsClear cfg now_ist_time today identity w.book
  unfolding validate_entry
  validate_entry-IsClear identity quantity w h =
      let (hours, h1) = next_check _ _ _ w h in
      let (state, h2) = next_check _ _ _ w h1 in
      let (kill, h3) = next_check _ _ _ w h2 in
      let (emergency, h4) = next_check _ _ _ w h3 in
      let (loss, h5) = next_check _ _ _ w h4 in
      let (duplicate, h6) = next_check _ _ _ _ h5 in
      let (cap, h7) = next_check _ _ _ _ h6 in
      let (same_positions, same_count) =
        later_checks cfg identity conflict identity.account_id today now
          cfg.daily_loss_limit_by_account w.book in
      checks-IsClear cfg now_ist_time today identity w.book hours state kill emergency
        (sym same_positions ∙ duplicate) (sym same_count ∙ cap)
