-- ===== src/Store/Moves.antt =====
-- The moves that an entry and an exit make, on the store.
use mathlib.Core.Path.{subst}
use trading_project.Base.{
  ◌≡◌, ◌≢◌, refl, sym, Option, some, String, [], ◌∷◌, ◌++◌, true, false, ◌==◌, arith,
}
use trading_project.Enums.{PositionState, StateTransitionActor, position_state_eq}
use trading_project.Models.{Position, PositionStateTransition}
use trading_project.Result.{ok}
use trading_project.Position.{is_transition_allowed_for_actor}
use trading_project.Position.Graph.{Edge, is_transition_allowed_for_actor_iff, transition_legal}
use trading_project.Store.{Store, transition_position, transition_result}

abbrev pub moved_row :
    Position → PositionState → StateTransitionActor → Option String → PositionStateTransition
moved_row p t a why = record {
  position_id = p.id;
  from_state = p.state;
  to_state = t;
  reason = why;
  actor = a;
}

abbrev pub moved_store :
    Position → PositionState → StateTransitionActor → Option String → Store → Store
moved_store p t a why s = record s {
  position = some (record p { state = t });
  audit = s.audit ++ moved_row p t a why ∷ [];
}

-- A legal move writes the session's copy of the position, with its new state, and the audit row.
pub transition_position_legal :
    (p : Position) (t : PositionState) (a : StateTransitionActor) (why : Option String) (s : Store)
    → (p.state == t) ≡ false
    → is_transition_allowed_for_actor p.state t a ≡ true
    → transition_position p t a why s ≡ (ok tt, moved_store p t a why s)
unfolding transition_position
transition_position_legal p t a why s h k = rw (transition_legal p t a why h k, transition_result)

pub start_exit :
    (p : Position) (a : StateTransitionActor) (why : Option String) (s : Store)
    → p.state ≡ PositionState.opened
    → transition_position p PositionState.exit_pending a why s
      ≡ (ok tt, moved_store p PositionState.exit_pending a why s)
start_exit p a why s h =
    transition_position_legal p PositionState.exit_pending a why s (ground arith) (
      subst (λ x. is_transition_allowed_for_actor x PositionState.exit_pending a ≡ true) (sym h)
        (unfold is_transition_allowed_for_actor in refl))

pub finish_exit :
    (p : Position) (a : StateTransitionActor) (why : Option String) (s : Store)
    → p.state ≡ PositionState.exit_pending
    → transition_position p PositionState.closed a why s
      ≡ (ok tt, moved_store p PositionState.closed a why s)
finish_exit p a why s h = transition_position_legal p PositionState.closed a why s (ground arith) (
    subst (λ x. is_transition_allowed_for_actor x PositionState.closed a ≡ true) (sym h)
      (unfold is_transition_allowed_for_actor in refl))

pub fail_exit :
    (p : Position) (a : StateTransitionActor) (why : Option String) (s : Store)
    → p.state ≢ PositionState.closed
    → p.state ≢ PositionState.error
    → transition_position p PositionState.error a why s
      ≡ (ok tt, moved_store p PositionState.error a why s)
fail_exit p a why s nc ne = transition_position_legal p PositionState.error a why s (ground arith) (
    (is_transition_allowed_for_actor_iff p.state PositionState.error a).1
      (Edge.fail p.state a nc ne))

pub open_entry :
    (p : Position) (a : StateTransitionActor) (why : Option String) (s : Store)
    → p.state ≡ PositionState.entry_pending
    → transition_position p PositionState.opened a why s
      ≡ (ok tt, moved_store p PositionState.opened a why s)
open_entry p a why s h = transition_position_legal p PositionState.opened a why s (ground arith) (
    subst (λ x. is_transition_allowed_for_actor x PositionState.opened a ≡ true) (sym h)
      (unfold is_transition_allowed_for_actor in refl))
