-- ===== src/Position.antt =====
-- The position state machine: src/algo/strategy_engine/strategies/strategy_1/state_machine.py and
-- `PositionRepository.transition_state`. A transition hands back the position and the audit row.
-- Whether the session's flush meets a stale row is the database's answer, the argument `stale`.
pub mod Graph
pub mod Trace
pub mod Tests
use trading_project.Base.{
  Bool, true, false, Option, none, some, List, [], ◌∷◌, String, any, not, ◌==◌, if◌then◌else◌,
}
use trading_project.Enums.{
  PositionState, StateTransitionActor, position_state_eq, state_transition_actor_eq,
}
use trading_project.Models.{Position, PositionStateTransition}
use trading_project.Result.{
  Result, ok, err, guard, ◌>>=◌, ◌>>◌, illegal_transition, concurrent_modification,
}

-- `_ALLOWED_TRANSITIONS`
unfoldable pub allowed_transitions : PositionState → List PositionState
allowed_transitions PositionState.idle = PositionState.entry_pending ∷ PositionState.error ∷ []
allowed_transitions PositionState.entry_pending =
    PositionState.opened ∷ PositionState.closed ∷ PositionState.error ∷ []
allowed_transitions PositionState.opened = PositionState.exit_pending ∷ PositionState.error ∷ []
allowed_transitions PositionState.exit_pending = PositionState.closed ∷ PositionState.error ∷ []
allowed_transitions PositionState.error = PositionState.closed ∷ []
allowed_transitions PositionState.closed = []

-- `_ACTOR_RESTRICTED_EDGES.get((from_state, to_state))`
unfoldable pub restricted_actors :
    PositionState → PositionState → Option (List StateTransitionActor)
restricted_actors PositionState.error PositionState.closed =
    some (StateTransitionActor.manual ∷ StateTransitionActor.recovery ∷ [])
restricted_actors _ _ = none

unfoldable pub is_transition_allowed : PositionState → PositionState → Bool
unfolding allowed_transitions
is_transition_allowed from_state to_state =
    any (λ s. to_state == s) (allowed_transitions from_state)

abbrev actor_permitted : StateTransitionActor → Option (List StateTransitionActor) → Bool
actor_permitted actor none = true
actor_permitted actor (some actors) = any (λ a. actor == a) actors

unfoldable pub is_transition_allowed_for_actor :
    PositionState → PositionState → StateTransitionActor → Bool
unfolding is_transition_allowed restricted_actors
is_transition_allowed_for_actor from_state to_state actor =
    if not (is_transition_allowed from_state to_state)
    then false
    else actor_permitted actor (restricted_actors from_state to_state)

unfoldable pub assert_transition_allowed :
    PositionState → PositionState → StateTransitionActor → Result (Unit {0})
unfolding is_transition_allowed restricted_actors
assert_transition_allowed from_state to_state actor = do
  guard (is_transition_allowed from_state to_state)
      (illegal_transition from_state to_state actor false)
  guard (actor_permitted actor (restricted_actors from_state to_state))
      (illegal_transition from_state to_state actor true)

-- TERMINAL_STATES and IN_FLIGHT_STATES
unfoldable pub is_terminal : PositionState → Bool
is_terminal s = any (λ t. s == t) (PositionState.closed ∷ [])

unfoldable pub is_in_flight : PositionState → Bool
is_in_flight s = any (λ t. s == t) (PositionState.entry_pending ∷ PositionState.exit_pending ∷ [])

-- `PositionRepository.transition_state`: the state and the audit row go out in one flush.
unfoldable pub transition_state :
    Bool
    → Position
    → PositionState
    → StateTransitionActor
    → Option String
    → Result (Position × PositionStateTransition)
transition_state stale position to_state actor reason =
    if stale
    then err concurrent_modification
    else ok (
      record position { state = to_state },
      record {
        position_id = position.id;
        from_state = position.state;
        to_state = to_state;
        reason = reason;
        actor = actor;
      },
    )

-- `PositionStateMachine.transition`; `none` is the idempotent no-op.
unfoldable pub transition :
    Bool
    → Position
    → PositionState
    → StateTransitionActor
    → Option String
    → Result (Option (Position × PositionStateTransition))
unfolding assert_transition_allowed transition_state
transition stale position to_state actor reason = if position.state == to_state then ok none else do
  assert_transition_allowed position.state to_state actor
  moved ← transition_state stale position to_state actor reason
  ok (some moved)

unfoldable pub mark_error :
    Bool
    → Position
    → StateTransitionActor
    → String
    → Result (Option (Position × PositionStateTransition))
unfolding transition
mark_error stale position actor reason =
    transition stale position PositionState.error actor (some reason)

abbrev pub current_state : Position → PositionState
current_state position = position.state
