-- ===== src/Risk/KillSwitch/Halts.antt =====
-- What a flag halts: `RiskCore.is_halted` against the commands.
use trading_project.Base.{
  ℕ, ◌≡◌, inl, inr, refl, String, Bool, true, false, List, [], ◌∷◌, ◌++◌, arith, any, filter, ◌&&◌,
  ◌||◌, nat_eq, option_eq, Bool-cases,
}
use trading_project.Enums.{risk_flag_scope_eq}
use trading_project.Result.{Result, ok, err}
use trading_project.Risk.Flags.{
  Target, RiskControlFlag, FlagTable, scope_matches_populated_fk, list_active,
  list_active_relevant_to, covers, new_flag, activate, clear,
}
use trading_project.Risk.KillSwitch.{
  validate_scope_target, matches, has_matching_active, engage_valid, engage, clear_matching,
  disengage_valid, disengage, is_halted,
}
use trading_project.Risk.KillSwitch.History.{matches_target, valid_target}

module _ (account_id instance_id : ℕ) where
  abbrev halting : RiskControlFlag → Bool
  halting f = f.active && covers f.target account_id instance_id

  is_halted-any :
      (table : FlagTable) → is_halted account_id instance_id table ≡ any halting table.flags
  unfolding is_halted list_active_relevant_to
  is_halted-any table = any_filtered table.flags
    where
      any_filtered :
          (flags : List RiskControlFlag)
          → any (λ _. true) (filter halting flags) ≡ any halting flags
      any_filtered [] = refl
      any_filtered (f ∷ fs) = ground (arith, any_filtered fs)

  any_appended :
      (flags : List RiskControlFlag) (f : RiskControlFlag)
      → any halting (flags ++ f ∷ []) ≡ (any halting flags || halting f)
  any_appended [] f = ground arith
  any_appended (x ∷ xs) f = ground (arith, any_appended xs f)

  any_matching :
      (t : Target) (flags : List RiskControlFlag)
      → covers t account_id instance_id ≡ true
      → has_matching_active t flags ≡ true
      → any halting flags ≡ true
  unfolding has_matching_active list_active
  any_matching t [] c h = cc
  any_matching t (f ∷ fs) c h = elim (Bool-cases (f.active && matches t f)) [
    | inl found ↦
        let same : f.target ≡ t = matches_target t f (ground (arith, found)) in
        let covered : covers f.target account_id instance_id ≡ true = rw same c in
        ground (arith, found, covered)
    | inr later ↦ ground (arith, any_matching t fs c, later)
  ]

  -- After a valid command to engage a flag, every instance that the flag covers is halted: all of
  -- them for a global flag, those of the account, or the one.
  pub engage_halts :
      (t : Target) (why by : String) (now : ℕ) (table : FlagTable)
      → scope_matches_populated_fk t ≡ true
      → covers t account_id instance_id ≡ true
      → is_halted account_id instance_id (engage t why by now table).1 ≡ true
  unfolding engage engage_valid activate
  engage_halts t why by now table h c =
      rw (is_halted-any, valid_target t h)
        (elim (Bool-cases (has_matching_active t table.flags)) [
          | inl active ↦ rw active (any_matching t table.flags c active)
          | inr fresh ↦
              rw fresh
                (ground (arith, any_appended table.flags (new_flag table.next_id t why by now), c))
        ])

  cleared_any :
      (t : Target) (by : String) (now : ℕ) (flags : List RiskControlFlag)
      → covers t account_id instance_id ≡ false
      → any halting (clear_matching t by now flags).0 ≡ any halting flags
  unfolding clear_matching clear
  cleared_any t by now [] c = refl
  cleared_any t by now (f ∷ fs) c = elim (Bool-cases (f.active && matches t f)) [
    | inl found ↦
        let same : f.target ≡ t = matches_target t f (ground (arith, found)) in
        let uncovered : covers f.target account_id instance_id ≡ false = rw same c in
        rw found (ground (arith, cleared_any t by now fs c, uncovered))
    | inr kept ↦ rw kept (ground (arith, cleared_any t by now fs c))
  ]

  disengage_valid_halts :
      (t : Target) (by : String) (now : ℕ) (table : FlagTable) (r : Result (Unit {0}))
      → covers t account_id instance_id ≡ false
      → any halting (disengage_valid t by now table r).1.flags ≡ any halting table.flags
  unfolding disengage_valid
  disengage_valid_halts t by now table (err e) c = refl
  disengage_valid_halts t by now table (ok _) c = cleared_any t by now table.flags c

  -- Disengaging a flag that does not cover an instance neither releases it nor halts it, also where
  -- the command is refused.
  pub disengage_halts :
      (t : Target) (by : String) (now : ℕ) (table : FlagTable)
      → covers t account_id instance_id ≡ false
      → is_halted account_id instance_id (disengage t by now table).1
        ≡ is_halted account_id instance_id table
  unfolding disengage
  disengage_halts t by now table c =
      rw (is_halted-any (disengage t by now table).1, is_halted-any table)
        (disengage_valid_halts t by now table (validate_scope_target t) c)
