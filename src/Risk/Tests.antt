-- ===== src/Risk/Tests.antt =====
-- Two flags over a day: a global stop that is lifted, and one of an account that stays.
use trading_project.Base.{◌≡◌, ◌≢◌, ap, refl, true, none, some, List, [], ◌∷◌, arith}
use trading_project.Enums.{RiskFlagType, RiskFlagScope}
use trading_project.Result.{ok}
use trading_project.Risk.Flags.{Target, FlagTable, scope_matches_populated_fk, covers}
use trading_project.Risk.KillSwitch.{engage, disengage, is_halted}
use trading_project.Risk.KillSwitch.History.{
  active_count, disengage_lem, Command, run, IsUnique, run-IsUnique,
}
use trading_project.Risk.KillSwitch.Halts.{engage_halts}

abbrev everything : Target
everything = record {
  flag_type = RiskFlagType.kill_switch;
  scope = RiskFlagScope.global;
  account_id = none;
  strategy_instance_id = none;
}

abbrev account_4 : Target
account_4 = record {
  flag_type = RiskFlagType.freeze;
  scope = RiskFlagScope.account;
  account_id = some 4;
  strategy_instance_id = none;
}

abbrev no_flags : FlagTable
no_flags = record { flags = []; next_id = 1 }

abbrev day : List Command
day =
    Command.engaging everything "drill" "ops" 10
    ∷ Command.engaging account_4 "margin" "ops" 20
    ∷ Command.engaging everything "again" "ops" 30
    ∷ Command.disengaging everything "ops" 40
    ∷ []

they_differ : everything ≢ account_4
they_differ e = let same = ap (λ (t : Target). t.scope) e in ground arith

run-IsUnique_example : IsUnique (run day no_flags)
run-IsUnique_example = run-IsUnique day no_flags (record { at_most_one = λ u. omega arith })

disengage_lem_example :
    let (r, table') = disengage everything "ops" 40 no_flags in
    (r ≡ ok 0)
    × (active_count everything table'.flags ≡ 0)
    × (active_count account_4 table'.flags ≡ 0)
disengage_lem_example =
    disengage_lem everything account_4 "ops" 40 no_flags (unfold scope_matches_populated_fk in refl)
      they_differ

engage_halts_example : is_halted 4 9 (engage account_4 "margin" "ops" 20 no_flags).1 ≡ true
engage_halts_example =
    engage_halts 4 9 account_4 "margin" "ops" 20 no_flags
      (unfold scope_matches_populated_fk in refl) (unfold covers in refl)
