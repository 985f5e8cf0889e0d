-- ===== src/Risk/KillSwitch.antt =====
-- `KillSwitch`. The commands return the table beside their result.
pub mod History
pub mod Halts
use trading_project.Base.{
  ℕ, zero, suc, String, Bool, true, false, Option, none, some, List, [], ◌∷◌, any, is_some, not,
  ◌&&◌, ◌||◌, ◌==◌, nat_eq, option_eq, if◌then◌else◌,
}
use trading_project.Enums.{RiskFlagType, RiskFlagScope, risk_flag_type_eq, risk_flag_scope_eq}
use trading_project.Result.{Result, ok, err, guard, ◌>>◌, value_error}
use trading_project.Risk.Flags.{
  Target, RiskControlFlag, FlagTable, list_active, list_active_relevant_to, activate, clear,
}

unfoldable pub validate_scope_target : Target → Result (Unit {0})
validate_scope_target t = do
  guard
      (not (
        t.scope == RiskFlagScope.global
        && (is_some t.account_id || is_some t.strategy_instance_id)))
      value_error
  guard
      (not (
        t.scope == RiskFlagScope.account
        && (not (is_some t.account_id) || is_some t.strategy_instance_id)))
      value_error
  guard (not (t.scope == RiskFlagScope.strategy_instance && not (is_some t.strategy_instance_id)))
      value_error

-- `_matches`
unfoldable pub matches : Target → RiskControlFlag → Bool
matches t flag =
    flag.target.flag_type == t.flag_type
    && flag.target.scope == t.scope
    && flag.target.account_id == t.account_id
    && flag.target.strategy_instance_id == t.strategy_instance_id

-- `_find_matching_active(…) is not None`
unfoldable pub has_matching_active : Target → List RiskControlFlag → Bool
unfolding matches
has_matching_active t flags = any (λ flag. matches t flag) (list_active flags)

engage_valid :
    Target → String → String → ℕ → FlagTable → Result (Unit {0}) → Result Bool × FlagTable
engage_valid t reason activated_by now table (err e) = (err e, table)
engage_valid t reason activated_by now table (ok _) =
    if has_matching_active t table.flags
    then (ok false, table)
    else (ok true, activate t reason activated_by now table)

unfoldable pub engage : Target → String → String → ℕ → FlagTable → Result Bool × FlagTable
unfolding engage_valid
engage t reason activated_by now table =
    engage_valid t reason activated_by now table (validate_scope_target t)

-- The loop of `disengage` over the active rows, in place: the rows, and how many were cleared.
unfoldable pub clear_matching :
    Target → String → ℕ → List RiskControlFlag → List RiskControlFlag × ℕ
clear_matching t cleared_by now [] = ([], 0)
clear_matching t cleared_by now (flag ∷ flags) =
    let (rest, cleared) = clear_matching t cleared_by now flags in
    if flag.active && matches t flag
    then (clear cleared_by now flag ∷ rest, suc cleared)
    else (flag ∷ rest, cleared)

disengage_valid : Target → String → ℕ → FlagTable → Result (Unit {0}) → Result ℕ × FlagTable
disengage_valid t cleared_by now table (err e) = (err e, table)
disengage_valid t cleared_by now table (ok _) =
    let (rest, cleared) = clear_matching t cleared_by now table.flags in
    (ok cleared, record table { flags = rest })

unfoldable pub disengage : Target → String → ℕ → FlagTable → Result ℕ × FlagTable
unfolding disengage_valid
disengage t cleared_by now table = disengage_valid t cleared_by now table (validate_scope_target t)

-- `x is None or value is x`
abbrev narrowed_type : Option RiskFlagType → RiskControlFlag → Bool
narrowed_type none flag = true
narrowed_type (some x) flag = flag.target.flag_type == x

abbrev narrowed_scope : Option RiskFlagScope → RiskControlFlag → Bool
narrowed_scope none flag = true
narrowed_scope (some x) flag = flag.target.scope == x

unfoldable pub is_engaged : Option RiskFlagType → Option RiskFlagScope → FlagTable → Bool
is_engaged flag_type scope table =
    any (λ flag. narrowed_type flag_type flag && narrowed_scope scope flag)
      (list_active table.flags)

-- `RiskCore.is_halted`
unfoldable pub is_halted : ℕ → ℕ → FlagTable → Bool
is_halted account_id instance_id table =
    any (λ _. true) (list_active_relevant_to account_id instance_id table.flags)
