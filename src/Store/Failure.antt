-- ===== src/Store/Failure.antt =====
-- `_fail_to_error`, of the entry and of the exit alike: the position goes to ERROR and its instance is
-- frozen.
use trading_project.Base.{
  ℕ, ◌≡◌, ◌≢◌, String, false, Option, none, some, ==-refl, nat_eq, ◌==◌, ◌||◌, arith, if◌then◌else◌,
}
use trading_project.Enums.{PositionState, position_state_eq, ExitReason, StateTransitionActor}
use trading_project.Models.{Position}
use trading_project.Result.{ok}
use trading_project.Action.{pure, gets, ◌>>=◌, ◌>>◌, unit_of_work, committed}
use trading_project.Store.{Store, Db, transition_position, freeze_instance, frozen_status}
use trading_project.Store.Moves.{moved_store, fail_exit}

unfoldable pub same_row : ℕ → Option Position → Option Position
same_row id none = none
same_row id (some p) = if p.id == id then some p else none

-- `_fail_to_error`
fail_row : String → Option Position → Db (Unit {0})
fail_row message none = pure tt
fail_row message (some p) =
    if p.state == PositionState.closed || p.state == PositionState.error
    then pure tt
    else transition_position
        (record p { exit_reason = some ExitReason.error; error_message = some message })
        PositionState.error StateTransitionActor.strategy (some message)

unfoldable pub fail_to_error : String → ℕ → Db (Unit {0})
unfolding fail_row
fail_to_error message id =
    unit_of_work do fail_row message (← gets (λ s. same_row id s.position)); freeze_instance

abbrev pub failed_row : String → Position → Position
failed_row message p = record p {
  state = PositionState.error;
  exit_reason = some ExitReason.error;
  error_message = some message;
}

module _ (p : Position) (s : Store) where
  pub same_row_id : s.position ≡ some p → same_row p.id s.position ≡ some p
  unfolding same_row
  same_row_id h = rw h (rw (==-refl p.id))

  pub fail_to_error_lem :
      (message : String)
      → s.position ≡ some p
      → p.state ≢ PositionState.closed
      → p.state ≢ PositionState.error
      → fail_to_error message p.id s ≡ (
        ok tt,
        record (moved_store
            (record p { exit_reason = some ExitReason.error; error_message = some message })
            PositionState.error
            StateTransitionActor.strategy
            (some message)
            s) { instance_status = frozen_status s.instance_status },
      )
  unfolding fail_to_error fail_row unit_of_work ◌>>=◌ freeze_instance committed
  fail_to_error_lem message h nc ne =
      let not_closed : (p.state == PositionState.closed) ≡ false = ground arith in
      let not_failed : (p.state == PositionState.error) ≡ false = ground arith in
      rw (same_row_id h) (
        rw (not_closed, not_failed)
          (rw (
            fail_exit
              (record p { exit_reason = some ExitReason.error; error_message = some message })
              StateTransitionActor.strategy (some message) s nc ne)))
