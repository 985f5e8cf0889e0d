-- ===== src/Risk/Flags.antt =====
-- The rows of src/algo/database/models/risk_control_flag.py and the methods of
-- `RiskControlFlagRepository`. The table is a list of rows, oldest first, with the next identifier.
use trading_project.Base.{
  ℕ, ◌+◌, String, Bool, true, false, Option, none, some, List, [], ◌∷◌, ◌++◌, filter, is_some, not,
  ◌&&◌, ◌||◌, ◌==◌, nat_eq, option_eq,
}
use trading_project.Enums.{RiskFlagType, RiskFlagScope, risk_flag_scope_eq}

-- What a flag applies to.
pub record Target : Type 0 where
  pub flag_type : RiskFlagType
  pub scope : RiskFlagScope
  pub account_id : Option ℕ
  pub strategy_instance_id : Option ℕ

pub record RiskControlFlag : Type 0 where
  pub id : ℕ
  pub target : Target
  pub active : Bool
  pub reason : Option String
  pub activated_by : Option String
  pub activated_at : ℕ
  pub cleared_at : Option ℕ
  pub cleared_by : Option String

pub record FlagTable : Type 0 where
  pub flags : List RiskControlFlag
  pub next_id : ℕ

-- the CHECK constraint `scope_matches_populated_fk`
unfoldable pub scope_matches_populated_fk : Target → Bool
scope_matches_populated_fk t =
    t.scope == RiskFlagScope.global
      && not (is_some t.account_id)
      && not (is_some t.strategy_instance_id)
    || t.scope == RiskFlagScope.account
      && is_some t.account_id
      && not (is_some t.strategy_instance_id)
    || t.scope == RiskFlagScope.strategy_instance && is_some t.strategy_instance_id

unfoldable pub list_active : List RiskControlFlag → List RiskControlFlag
list_active flags = filter (λ f. f.active) flags

-- whether the scope of a flag covers an instance of an account
unfoldable pub covers : Target → ℕ → ℕ → Bool
covers t account_id strategy_instance_id =
    t.scope == RiskFlagScope.global
    || t.scope == RiskFlagScope.account && t.account_id == some account_id
    || t.scope == RiskFlagScope.strategy_instance
      && t.strategy_instance_id == some strategy_instance_id

unfoldable pub list_active_relevant_to : ℕ → ℕ → List RiskControlFlag → List RiskControlFlag
unfolding covers
list_active_relevant_to account_id strategy_instance_id flags =
    filter (λ f. f.active && covers f.target account_id strategy_instance_id) flags

abbrev pub new_flag : ℕ → Target → String → String → ℕ → RiskControlFlag
new_flag id t reason activated_by activated_at = record {
  id = id;
  target = t;
  active = true;
  reason = some reason;
  activated_by = some activated_by;
  activated_at = activated_at;
  cleared_at = none;
  cleared_by = none;
}

unfoldable pub activate : Target → String → String → ℕ → FlagTable → FlagTable
activate t reason activated_by activated_at table = record {
  flags = table.flags ++ new_flag table.next_id t reason activated_by activated_at ∷ [];
  next_id = table.next_id + 1;
}

unfoldable pub clear : String → ℕ → RiskControlFlag → RiskControlFlag
clear cleared_by cleared_at flag = record flag {
  active = false;
  cleared_by = some cleared_by;
  cleared_at = some cleared_at;
}
