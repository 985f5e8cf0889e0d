-- ===== src/Position/Tests.antt =====
-- Runs of the position state machine, and the theorems at concrete positions.
use trading_project.Base.{◌≤◌, ◌≡◌, ◌↔◌, refl, true, false, none, List, [], ◌∷◌, length}
use trading_project.Enums.{PositionState, StateTransitionActor}
use trading_project.Models.{Position}
use trading_project.Result.{err, illegal_transition}
use trading_project.Position.{is_transition_allowed_for_actor, transition}
use trading_project.Position.Graph.{Edge, is_transition_allowed_for_actor_iff}
use trading_project.Position.Trace.{
  Request, handle, run, Chain, run-Chain, run-length, run-error_frozen,
}

abbrev pub fresh : Position
fresh = record {
  id = 7;
  strategy_instance_id = 1;
  trade_date = 20000;
  state = PositionState.idle;
  expiry_date = none;
  strike = none;
  strike_interval = none;
  lots = none;
  lot_size = none;
  quantity = none;
  entry_spot_ltp = none;
  target_pct = none;
  sl_pct = none;
  combined_entry_premium = none;
  target_premium = none;
  stoploss_premium = none;
  combined_exit_premium = none;
  exit_reason = none;
  realized_pnl = none;
  entry_signal_time = none;
  entry_completed_at = none;
  exit_signal_time = none;
  exit_completed_at = none;
  error_message = none;
  needs_reconciliation = false;
}

abbrev ask : PositionState → StateTransitionActor → Request
ask s a = record { stale = false; to_state = s; actor = a; reason = none }

-- A day that enters, repeats a request, tries to skip the exit, fails and is resolved.
abbrev day : List Request
day =
    ask PositionState.entry_pending StateTransitionActor.strategy
    ∷ ask PositionState.entry_pending StateTransitionActor.recovery
    ∷ ask PositionState.opened StateTransitionActor.strategy
    ∷ ask PositionState.closed StateTransitionActor.strategy
    ∷ ask PositionState.error StateTransitionActor.kill_switch
    ∷ ask PositionState.closed StateTransitionActor.strategy
    ∷ ask PositionState.closed StateTransitionActor.manual
    ∷ ask PositionState.error StateTransitionActor.manual
    ∷ []

run-day : ((run fresh day).0.state ≡ PositionState.closed) × (length (run fresh day).1 ≡ 4)
unfolding run handle
run-day = (refl, refl)

stray_resolution :
    transition false
      (record fresh { state = PositionState.error })
      PositionState.closed
      StateTransitionActor.strategy
      none
    ≡ err (
        illegal_transition PositionState.error PositionState.closed StateTransitionActor.strategy
          true)
unfolding transition
stray_resolution = refl

is_transition_allowed_for_actor_iff_example :
    (is_transition_allowed_for_actor PositionState.error PositionState.closed
        StateTransitionActor.kill_switch
      ≡ true)
    ↔ Edge PositionState.error PositionState.closed StateTransitionActor.kill_switch
is_transition_allowed_for_actor_iff_example =
    is_transition_allowed_for_actor_iff PositionState.error PositionState.closed
      StateTransitionActor.kill_switch

run-Chain_example : Chain PositionState.idle (run fresh day).1 (run fresh day).0.state
run-Chain_example = run-Chain fresh day

run-length_example : length (run fresh day).1 ≤ 5
run-length_example = run-length fresh day

run-error_frozen_example :
    run
      (record fresh { state = PositionState.error })
      (ask PositionState.closed StateTransitionActor.strategy ∷ [])
    ≡ (record fresh { state = PositionState.error }, [])
run-error_frozen_example =
    run-error_frozen (record fresh { state = PositionState.error })
      (ask PositionState.closed StateTransitionActor.strategy ∷ []) refl refl
