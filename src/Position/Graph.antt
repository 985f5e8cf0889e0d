-- ===== src/Position/Graph.antt =====
-- The legal graph that the header of state_machine.py draws, as a relation, and the checks of
-- Position.antt against it.
use trading_project.Base.{
  ◌≡◌, ◌≢◌, ◌↔◌, refl, Bool, true, false, Option, none, some, String, arith, ◌==◌, if◌then◌else◌,
}
use trading_project.Enums.{PositionState, StateTransitionActor, position_state_eq}
use trading_project.Models.{Position, PositionStateTransition}
use trading_project.Result.{Result, ok, err, illegal_transition, concurrent_modification}
use trading_project.Position.{
  is_transition_allowed, is_transition_allowed_for_actor, assert_transition_allowed, is_terminal,
  mark_error, transition,
}

-- One arrow of the diagram, with the actors that may take it.
pub data Edge : PositionState → PositionState → StateTransitionActor → Type 0 where
  enter : (a : StateTransitionActor) → Edge PositionState.idle PositionState.entry_pending a
  fill_entry : (a : StateTransitionActor) → Edge PositionState.entry_pending PositionState.opened a
  abandon_entry :
      (a : StateTransitionActor) → Edge PositionState.entry_pending PositionState.closed a
  start_exit : (a : StateTransitionActor) → Edge PositionState.opened PositionState.exit_pending a
  fill_exit : (a : StateTransitionActor) → Edge PositionState.exit_pending PositionState.closed a
  fail :
      (s : PositionState) (a : StateTransitionActor)
      → s ≢ PositionState.closed
      → s ≢ PositionState.error
      → Edge s PositionState.error a
  resolve_manual : Edge PositionState.error PositionState.closed StateTransitionActor.manual
  resolve_recovery : Edge PositionState.error PositionState.closed StateTransitionActor.recovery

Edge-allowed :
    {s t : PositionState} {a : StateTransitionActor}
    → Edge s t a
    → is_transition_allowed_for_actor s t a ≡ true
unfolding is_transition_allowed_for_actor
Edge-allowed (enter a) = refl
Edge-allowed (fill_entry a) = refl
Edge-allowed (abandon_entry a) = refl
Edge-allowed (start_exit a) = refl
Edge-allowed (fill_exit a) = refl
Edge-allowed (fail s a nc ne) = ground arith
Edge-allowed resolve_manual = refl
Edge-allowed resolve_recovery = refl

allowed-Edge :
    (s t : PositionState) (a : StateTransitionActor)
    → is_transition_allowed_for_actor s t a ≡ true
    → Edge s t a
unfolding is_transition_allowed_for_actor
allowed-Edge PositionState.idle PositionState.entry_pending a h = enter a
allowed-Edge PositionState.idle PositionState.error a h = fail _ a (λ e. cc) (λ e. cc)
allowed-Edge PositionState.entry_pending PositionState.opened a h = fill_entry a
allowed-Edge PositionState.entry_pending PositionState.closed a h = abandon_entry a
allowed-Edge PositionState.entry_pending PositionState.error a h = fail _ a (λ e. cc) (λ e. cc)
allowed-Edge PositionState.opened PositionState.exit_pending a h = start_exit a
allowed-Edge PositionState.opened PositionState.error a h = fail _ a (λ e. cc) (λ e. cc)
allowed-Edge PositionState.exit_pending PositionState.closed a h = fill_exit a
allowed-Edge PositionState.exit_pending PositionState.error a h = fail _ a (λ e. cc) (λ e. cc)
allowed-Edge PositionState.error PositionState.closed StateTransitionActor.manual h = resolve_manual
allowed-Edge PositionState.error PositionState.closed StateTransitionActor.recovery h =
    resolve_recovery
allowed-Edge _ _ _ h = cc

-- The check for an actor accepts exactly the arrows of the diagram.
pub is_transition_allowed_for_actor_iff :
    (s t : PositionState) (a : StateTransitionActor)
    → (is_transition_allowed_for_actor s t a ≡ true) ↔ Edge s t a
is_transition_allowed_for_actor_iff s t a = (allowed-Edge s t a, Edge-allowed)

-- The raising check passes exactly where the Boolean one holds, and its error says which of the
-- two rules was broken: the arrow is missing, or the actor may not take it.
pub assert_transition_allowed_lem :
    (s t : PositionState) (a : StateTransitionActor)
    → assert_transition_allowed s t a ≡ (
        if is_transition_allowed_for_actor s t a
        then ok tt
        else err (illegal_transition s t a (is_transition_allowed s t)))
unfolding assert_transition_allowed is_transition_allowed_for_actor
assert_transition_allowed_lem s t a = ground arith

-- A state is terminal exactly when no actor can leave it.
pub is_terminal_iff :
    (s : PositionState)
    → (is_terminal s ≡ true) ↔ (
        (t : PositionState) (a : StateTransitionActor)
        → is_transition_allowed_for_actor s t a ≡ false)
unfolding is_terminal is_transition_allowed_for_actor
is_terminal_iff PositionState.closed = (λ h t a. refl, λ h. refl)
is_terminal_iff PositionState.idle =
    (λ h. cc, λ h. cc (h PositionState.error StateTransitionActor.manual))
is_terminal_iff PositionState.entry_pending =
    (λ h. cc, λ h. cc (h PositionState.error StateTransitionActor.manual))
is_terminal_iff PositionState.opened =
    (λ h. cc, λ h. cc (h PositionState.error StateTransitionActor.manual))
is_terminal_iff PositionState.exit_pending =
    (λ h. cc, λ h. cc (h PositionState.error StateTransitionActor.manual))
is_terminal_iff PositionState.error =
    (λ h. cc, λ h. cc (h PositionState.closed StateTransitionActor.manual))

-- What moving a position to ERROR gives, by the state it is in.
abbrev error_outcome :
    PositionState
    → Bool
    → Position
    → StateTransitionActor
    → String
    → Result (Option (Position × PositionStateTransition))
error_outcome PositionState.error stale p a why = ok none
error_outcome PositionState.closed stale p a why =
    err (illegal_transition PositionState.closed PositionState.error a false)
error_outcome s true p a why = err concurrent_modification
error_outcome s false p a why = ok (
    some (
      record p { state = PositionState.error },
      record {
        position_id = p.id;
        from_state = s;
        to_state = PositionState.error;
        reason = some why;
        actor = a;
      },
    ))

-- `mark_error` moves every state but CLOSED and ERROR, whoever asks; it does nothing in ERROR, is
-- refused in CLOSED, and fails elsewhere only if the flush met a stale row.
pub mark_error_lem :
    (stale : Bool) (p : Position) (a : StateTransitionActor) (why : String)
    → mark_error stale p a why ≡ error_outcome p.state stale p a why
unfolding mark_error
mark_error_lem stale p a why = ground arith

-- A legal move of a row that is not stale changes the state alone.
pub transition_legal :
    (p : Position) (t : PositionState) (a : StateTransitionActor) (why : Option String)
    → (p.state == t) ≡ false
    → is_transition_allowed_for_actor p.state t a ≡ true
    → transition false p t a why
      ≡ ok (
          some (
            record p { state = t },
            record {
              position_id = p.id;
              from_state = p.state;
              to_state = t;
              reason = why;
              actor = a;
            },
          ))
unfolding transition is_transition_allowed_for_actor
transition_legal p t a why h k = ground arith
