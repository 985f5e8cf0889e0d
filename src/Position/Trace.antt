-- ===== src/Position/Trace.antt =====
-- A position over a run of requests, each its own unit of work: a refused one is rolled back.
use trading_project.Base.{
  ℕ, ◌+◌, ◌≤◌, ◌≡◌, refl, Bool, true, false, Option, none, some, List, [], ◌∷◌, ◌++◌, String, arith,
  length, any, ◌<◌, ◌==◌, not, ◌&&◌, if◌then◌else◌,
}
use trading_project.Enums.{PositionState, StateTransitionActor, position_state_eq}
use trading_project.Models.{Position, PositionStateTransition}
use trading_project.Result.{Result, ok, err}
use trading_project.Position.{is_transition_allowed_for_actor, transition}
use trading_project.Position.Graph.{Edge, is_transition_allowed_for_actor_iff}

pub record Request : Type 0 where
  pub stale : Bool
  pub to_state : PositionState
  pub actor : StateTransitionActor
  pub reason : Option String

-- What one request leaves: the position, and the audit row if there is a new one.
unfoldable pub settle :
    Position
    → Result (Option (Position × PositionStateTransition))
    → Position × List PositionStateTransition
settle p (ok (some (p', row))) = (p', row ∷ [])
settle p (ok none) = (p, [])
settle p (err _) = (p, [])

unfoldable pub handle : Position → Request → Position × List PositionStateTransition
unfolding transition settle
handle p r = settle p (transition r.stale p r.to_state r.actor r.reason)

-- The position after the requests, and the audit rows they wrote, oldest first.
unfoldable pub run : Position → List Request → Position × List PositionStateTransition
run p [] = (p, [])
run p (r ∷ rs) = let (p', new) = handle p r in let (q, rows) = run p' rs in (q, new ++ rows)

-- The rows lead from one state to another along arrows of the diagram.
pub data Chain : PositionState → List PositionStateTransition → PositionState → Type 0 where
  stop : (s : PositionState) → Chain s [] s
  step :
      {s t u : PositionState} {row : PositionStateTransition} {rows : List PositionStateTransition}
      → row.from_state ≡ s
      → row.to_state ≡ t
      → Edge s t row.actor
      → Chain t rows u
      → Chain s (row ∷ rows) u

abbrev row_of : Position → Request → PositionStateTransition
row_of p r = record {
  position_id = p.id;
  from_state = p.state;
  to_state = r.to_state;
  reason = r.reason;
  actor = r.actor;
}

abbrev accepted : Position → Request → Bool
accepted p r =
    not (p.state == r.to_state)
    && is_transition_allowed_for_actor p.state r.to_state r.actor
    && not r.stale

-- A request is taken when it names another state, the arrow is legal for the actor, and the flush
-- met no stale row; the row written is then the arrow. Otherwise nothing changes.
pub handle_lem :
    (p : Position) (r : Request)
    → handle p r
      ≡ (if accepted p r then (record p { state = r.to_state }, row_of p r ∷ []) else (p, []))
unfolding handle is_transition_allowed_for_actor
handle_lem p r = ground arith

accepted-Edge : (p : Position) (r : Request) → accepted p r ≡ true → Edge p.state r.to_state r.actor
accepted-Edge p r h =
    (is_transition_allowed_for_actor_iff p.state r.to_state r.actor).0 (ground arith)

handle-Chain_cases :
    (p : Position) (r : Request) (rows : List PositionStateTransition) (u : PositionState)
    (b : Bool) (m : Position × List PositionStateTransition)
    → accepted p r ≡ b
    → m ≡ (if b then (record p { state = r.to_state }, row_of p r ∷ []) else (p, []))
    → Chain m.0.state rows u
    → Chain p.state (m.1 ++ rows) u
handle-Chain_cases p r rows u true m h e c = rw e (step refl refl (accepted-Edge p r h) (rw e at c))
handle-Chain_cases p r rows u false m h e c = rw e (rw e at c)

handle-Chain :
    (p : Position) (r : Request) (rows : List PositionStateTransition) (u : PositionState)
    → Chain (handle p r).0.state rows u
    → Chain p.state ((handle p r).1 ++ rows) u
handle-Chain p r rows u =
    handle-Chain_cases p r rows u (accepted p r) (handle p r) refl (handle_lem p r)

-- The audit rows of any run form a path of the diagram from the first state to the last.
pub run-Chain : (p : Position) (rs : List Request) → Chain p.state (run p rs).1 (run p rs).0.state
unfolding run
run-Chain p [] = stop p.state
run-Chain p (r ∷ rs) = handle-Chain p r _ _ (run-Chain (handle p r).0 rs)

-- How many arrows can still follow.
abbrev rank : PositionState → ℕ
rank PositionState.idle = 5
rank PositionState.entry_pending = 4
rank PositionState.opened = 3
rank PositionState.exit_pending = 2
rank PositionState.error = 1
rank PositionState.closed = 0

Edge-rank : {s t : PositionState} {a : StateTransitionActor} → Edge s t a → rank t < rank s
Edge-rank (Edge.enter a) = omega arith
Edge-rank (Edge.fill_entry a) = omega arith
Edge-rank (Edge.abandon_entry a) = omega arith
Edge-rank (Edge.start_exit a) = omega arith
Edge-rank (Edge.fill_exit a) = omega arith
Edge-rank (Edge.fail s a nc ne) = ground arith
Edge-rank Edge.resolve_manual = omega arith
Edge-rank Edge.resolve_recovery = omega arith

Chain-length :
    {s u : PositionState} {rows : List PositionStateTransition}
    → Chain s rows u
    → length rows + rank u ≤ rank s
Chain-length (stop s) = omega arith
Chain-length (step _ _ edge c) = omega (arith, Edge-rank edge, Chain-length c)

-- However many requests arrive, a day's position moves at most five times.
pub run-length : (p : Position) (rs : List Request) → length (run p rs).1 ≤ 5
run-length p rs = ground (arith, Chain-length (run-Chain p rs))

abbrev pub is_resolver : StateTransitionActor → Bool
is_resolver StateTransitionActor.manual = true
is_resolver StateTransitionActor.recovery = true
is_resolver _ = false

-- A position that is in ERROR and meets requests of the strategy, the risk manager and the kill
-- switch alone stays in ERROR, and its log does not grow.
pub run-error_frozen :
    (p : Position) (rs : List Request)
    → p.state ≡ PositionState.error
    → any (λ r. is_resolver r.actor) rs ≡ false
    → run p rs ≡ (p, [])
unfolding run
run-error_frozen p [] h none_resolves = refl
run-error_frozen p (r ∷ rs) h none_resolves =
    let e : handle p r ≡ (p, []) =
      unfold is_transition_allowed_for_actor in ground (arith, handle_lem p r) in
    rw e (run-error_frozen p rs h (ground arith))

-- A closed position never changes again, whoever asks.
pub run-closed_final :
    (p : Position) (rs : List Request) → p.state ≡ PositionState.closed → run p rs ≡ (p, [])
unfolding run
run-closed_final p [] h = refl
run-closed_final p (r ∷ rs) h =
    let e : handle p r ≡ (p, []) =
      unfold is_transition_allowed_for_actor in ground (arith, handle_lem p r) in
    rw e (run-closed_final p rs h)
