-- ===== src/Risk/KillSwitch/History.antt =====
-- The flags over a history of commands.
use mathlib.Core.Path.{subst}
use trading_project.Base.{
  ℕ, ◌+◌, ◌≤◌, ◌≡◌, ◌≢◌, ◌∙◌, ap, sym, inl, inr, refl, String, true, false, List, [], ◌∷◌, arith,
  count, not, ◌&&◌, ◌==◌, nat_eq, option_eq, if◌then◌else◌, Bool-cases, count-append, ==-refl,
}
use trading_project.Enums.{risk_flag_type_eq, risk_flag_scope_eq}
use trading_project.Result.{Result, ok, err, Result-cases, is_ok}
use trading_project.Risk.Flags.{
  Target, RiskControlFlag, FlagTable, scope_matches_populated_fk, list_active, new_flag, activate,
  clear,
}
use trading_project.Risk.KillSwitch.{
  validate_scope_target, matches, has_matching_active, engage_valid, engage, clear_matching,
  disengage_valid, disengage,
}

-- How many active rows there are for a target.
abbrev pub active_count : Target → List RiskControlFlag → ℕ
active_count t flags = count (λ f. f.active && matches t f) flags

has_matching_active_count :
    (t : Target) (flags : List RiskControlFlag)
    → has_matching_active t flags ≡ not (active_count t flags == 0)
unfolding has_matching_active list_active
has_matching_active_count t [] = refl
has_matching_active_count t (f ∷ fs) = ground (arith, has_matching_active_count t fs)

-- The validation of a command accepts exactly the targets whose rows the CHECK constraint of the
-- table allows.
pub validate_scope_target_iff :
    (t : Target) → is_ok (validate_scope_target t) ≡ scope_matches_populated_fk t
unfolding validate_scope_target scope_matches_populated_fk
validate_scope_target_iff t = ground arith

same_fields :
    (s t : Target)
    → s.flag_type ≡ t.flag_type
    → s.scope ≡ t.scope
    → s.account_id ≡ t.account_id
    → s.strategy_instance_id ≡ t.strategy_instance_id
    → s ≡ t
same_fields s t a b c d = cc

pub matches_target : (t : Target) (f : RiskControlFlag) → matches t f ≡ true → f.target ≡ t
unfolding matches
matches_target t f h =
    same_fields f.target t
      ((risk_flag_type_eq.beq_iff f.target.flag_type t.flag_type).0 (ground (arith, h)))
      ((risk_flag_scope_eq.beq_iff f.target.scope t.scope).0 (ground (arith, h)))
      ((option_eq.beq_iff f.target.account_id t.account_id).0 (ground (arith, h)))
      ((option_eq.beq_iff f.target.strategy_instance_id t.strategy_instance_id).0
        (ground (arith, h)))

matches_own : (t : Target) (f : RiskControlFlag) → f.target ≡ t → matches t f ≡ true
unfolding matches
matches_own t f h = rw h (
    rw (==-refl t.flag_type, ==-refl t.scope, ==-refl t.account_id, ==-refl t.strategy_instance_id))

-- Clearing takes every active row of the target, counts them, and leaves every other target's rows.
clear_matching-count :
    (t u : Target) (by : String) (now : ℕ) (flags : List RiskControlFlag)
    → let (rest, cleared) = clear_matching t by now flags in
      (cleared ≡ active_count t flags)
      × (active_count t rest ≡ 0)
      × (active_count u rest ≤ active_count u flags)
unfolding clear_matching clear
clear_matching-count t u by now [] = (refl, refl, omega arith)
clear_matching-count t u by now (f ∷ fs) =
    let (same, none_left, fewer) = clear_matching-count t u by now fs in
    elim (Bool-cases (f.active && matches t f)) [
      | inl taken ↦ rw taken (ground (arith, same), none_left, ground (arith, fewer))
      | inr kept ↦ rw kept (same, ground (arith, none_left, kept), ground (arith, fewer))
    ]

clear_matching-others :
    (t u : Target) (by : String) (now : ℕ) (flags : List RiskControlFlag)
    → t ≢ u
    → active_count u (clear_matching t by now flags).0 ≡ active_count u flags
unfolding clear_matching clear
clear_matching-others t u by now [] differ = refl
clear_matching-others t u by now (f ∷ fs) differ =
    let rest = clear_matching-others t u by now fs differ in
    elim (Bool-cases (f.active && matches t f)) [
      | inl taken ↦
          let other : matches u f ≡ false = elim (Bool-cases (matches u f)) [
            | inl both ↦ absurd (
                differ (sym (matches_target t f (ground (arith, taken))) ∙ matches_target u f both))
            | inr not_both ↦ not_both
          ] in
          rw taken (ground (arith, rest, other))
      | inr kept ↦ rw kept (ground (arith, rest))
    ]

pub valid_target :
    (t : Target) → scope_matches_populated_fk t ≡ true → validate_scope_target t ≡ ok tt
valid_target t h = elim (Result-cases (validate_scope_target t)) [
  | inl (done, passes) ↦ passes
  | inr (e, fails) ↦ absurd (ground (arith, validate_scope_target_iff t, fails))
]

-- Disengaging a target clears all its active flags and says how many they were; afterwards none is
-- active, and the active flags of another target are as many as before.
pub disengage_lem :
    (t u : Target) (by : String) (now : ℕ) (table : FlagTable)
    → scope_matches_populated_fk t ≡ true
    → t ≢ u
    → let (r, table') = disengage t by now table in
      (r ≡ ok (active_count t table.flags))
      × (active_count t table'.flags ≡ 0)
      × (active_count u table'.flags ≡ active_count u table.flags)
unfolding disengage disengage_valid
disengage_lem t u by now table h differ =
    let (same, none_left, fewer) = clear_matching-count t u by now table.flags in
    rw (valid_target t h)
      (ap ok same, none_left, clear_matching-others t u by now table.flags differ)

active_count-activate :
    (t u : Target) (why by : String) (now : ℕ) (table : FlagTable)
    → active_count u (activate t why by now table).flags
      ≡ active_count u table.flags
        + (if matches u (new_flag table.next_id t why by now) then 1 else 0)
unfolding activate
active_count-activate t u why by now table = ground (
  arith,
  count-append (λ f. f.active && matches u f) table.flags
      (new_flag table.next_id t why by now ∷ []),
)

-- Engaging twice: whatever the reason, the operator and the instant of the second command, it
-- reports that nothing new was engaged and changes nothing.
pub engage_idempotent :
    (t : Target) (why by why' by' : String) (now later : ℕ) (table : FlagTable)
    → scope_matches_populated_fk t ≡ true
    → let after = (engage t why by now table).1 in engage t why' by' later after ≡ (ok false, after)
unfolding engage engage_valid
engage_idempotent t why by why' by' now later table h =
    rw (valid_target t h) (elim (Bool-cases (has_matching_active t table.flags)) [
      | inl active ↦ rw active (rw active)
      | inr fresh ↦
          let own = matches_own t (new_flag table.next_id t why by now) refl in
          let counted = active_count-activate t t why by now table in
          let now_active : has_matching_active t (activate t why by now table).flags ≡ true =
            ground (
              arith,
              has_matching_active_count t (activate t why by now table).flags,
              own,
              counted,
            ) in
          rw fresh (rw now_active)
    ])

pub data Command : Type 0 where
  engaging : Target → String → String → ℕ → Command
  disengaging : Target → String → ℕ → Command

unfoldable pub after : Command → FlagTable → FlagTable
unfolding engage disengage
after (engaging t why by now) table = (engage t why by now table).1
after (disengaging t by now) table = (disengage t by now table).1

unfoldable pub run : List Command → FlagTable → FlagTable
run [] table = table
run (c ∷ cs) table = run cs (after c table)

pub record IsUnique (table : FlagTable) : Type 0 where
  pub at_most_one : (u : Target) → active_count u table.flags ≤ 1

engaged-IsUnique :
    (t : Target) (why by : String) (now : ℕ) (table : FlagTable)
    → IsUnique table
    → (u : Target) → active_count u (engage_valid t why by now table (ok tt)).1.flags ≤ 1
unfolding engage_valid
engaged-IsUnique t why by now table h u = elim (Bool-cases (has_matching_active t table.flags)) [
  | inl active ↦ rw active (h.at_most_one u)
  | inr fresh ↦
      let none_yet : active_count t table.flags ≡ 0 =
        ground (arith, has_matching_active_count t table.flags, fresh) in
      elim (Bool-cases (matches u (new_flag table.next_id t why by now))) [
        | inl own ↦
            let same : t ≡ u = matches_target u (new_flag table.next_id t why by now) own in
            let empty = subst (λ x. active_count x table.flags ≡ 0) same none_yet in
            rw fresh (ground (arith, active_count-activate t u why by now table, own, empty))
        | inr other ↦
            rw fresh
              (ground (arith, active_count-activate t u why by now table, other, h.at_most_one u))
      ]
]

engage_valid-IsUnique :
    (t : Target) (why by : String) (now : ℕ) (table : FlagTable) (r : Result (Unit {0}))
    → IsUnique table
    → IsUnique (engage_valid t why by now table r).1
unfolding engage_valid
engage_valid-IsUnique t why by now table (err e) h = h
engage_valid-IsUnique t why by now table (ok _) h = record {
  at_most_one = engaged-IsUnique t why by now table h;
}

disengage_valid-IsUnique :
    (t : Target) (by : String) (now : ℕ) (table : FlagTable) (r : Result (Unit {0}))
    → IsUnique table
    → IsUnique (disengage_valid t by now table r).1
unfolding disengage_valid
disengage_valid-IsUnique t by now table (err e) h = h
disengage_valid-IsUnique t by now table (ok _) h = record {
  at_most_one =
      λ u. ground (arith, (clear_matching-count t u by now table.flags).2, h.at_most_one u);
}

after-IsUnique : (c : Command) (table : FlagTable) → IsUnique table → IsUnique (after c table)
unfolding after engage disengage
after-IsUnique (engaging t why by now) table h =
    engage_valid-IsUnique t why by now table (validate_scope_target t) h
after-IsUnique (disengaging t by now) table h =
    disengage_valid-IsUnique t by now table (validate_scope_target t) h

-- If no target has two active flags, none has after any history of commands: engaging again never
-- stacks up duplicates.
pub run-IsUnique :
    (cs : List Command) (table : FlagTable) → IsUnique table → IsUnique (run cs table)
unfolding run
run-IsUnique [] table h = h
run-IsUnique (c ∷ cs) table h = run-IsUnique cs (after c table) (after-IsUnique c table h)
