-- ===== src/Reconciliation/Positions.antt =====
-- reconciliation_engine.py: the positions that are not terminal, each by its legs and by what the
-- broker holds. The strategy's `PositionReconciler` is a parameter, which may raise.
pub mod Repairing
use trading_project.Base.{
  ℕ, String, Bool, true, false, not, ◌&&◌, ◌||◌, Option, none, some, List, [], ◌∷◌, ◌++◌, ◌==◌, any,
  filter, map, eqb, nat_eq, string_eq, is_some, if◌then◌else◌,
}
use trading_project.Base.Int.{ℤ, pos, int_eq}
use trading_project.Enums.{
  PositionState, position_state_eq, TradeLegStatus, trade_leg_status_eq, ReconciliationBreakType,
}
use trading_project.Models.{Position, Trade}
use trading_project.Result.{Result}
use trading_project.Action.{Action, pure, ◌>>=◌, ◌>>◌, unit_of_work}
use trading_project.Broker.Contract.{BrokerPosition}
use trading_project.Reconciliation.{
  Database, Break, ReconciliationItem, ReconciliationOutcome, consistent_no_action, entry_finalized,
  exit_finalized, entry_aborted_no_fills, position_errored, needs_finalization_no_reconciler,
  exit_pending_left_for_recovery, the_position, record_break, find_position, update_position,
  move_position, error_and_freeze,
}

abbrev pub Db : Type 0 → Type 0
Db A = Action Database A

-- `PositionReconciler`, the strategy's part
pub record PositionReconciler : Type 0 where
  pub finalize_entry : Position → Db (Unit {0})
  pub finalize_exit : Position → Db (Unit {0})

abbrev pub about : ℕ → ReconciliationOutcome → Bool → ReconciliationItem
about id outcome broke = record {
  subject = the_position id;
  outcome = outcome;
  break_recorded = broke;
}

abbrev pub position_break : ReconciliationBreakType → ℕ → Break
position_break kind id = record {
  break_type = kind;
  position_id = some id;
  order_id = none;
  intent_id = none;
}

-- a change of the tables that cannot raise, and what is reported
abbrev pub write : (Database → Database) → ReconciliationItem → Db ReconciliationItem
write f item d = (Result.ok item, f d)

-- `_error_position`
unfoldable pub error_position : Position → ReconciliationBreakType → String → Db ReconciliationItem
error_position p kind reason =
    write (λ d. record_break (position_break kind p.id) (error_and_freeze p reason d))
      (about p.id position_errored true)

-- without a reconciler: a break, and the flag on the position
unfoldable pub flag_unfinalized : Position → Db ReconciliationItem
flag_unfinalized p =
    write
      (λ d.
        let broken = record_break (position_break ReconciliationBreakType.other p.id) d in
        record broken {
          positions =
              update_position p.id (record p { needs_reconciliation = true }) broken.positions;
        })
      (about p.id needs_finalization_no_reconciler true)

-- `_finalize_entry`, `_finalize_exit`
unfoldable pub finalize_entry : Option PositionReconciler → Position → Db ReconciliationItem
finalize_entry none p = flag_unfinalized p
finalize_entry (some r) p = do r.finalize_entry p; pure (about p.id entry_finalized false)

unfoldable pub finalize_exit : Option PositionReconciler → Position → Db ReconciliationItem
finalize_exit none p = flag_unfinalized p
finalize_exit (some r) p = do r.finalize_exit p; pure (about p.id exit_finalized false)

-- `[t for t in trades if t.status is status]` is not empty
abbrev pub any_leg : TradeLegStatus → List Trade → Bool
any_leg status ts = any (λ t. t.status == status) ts

-- `_reconcile_entry_pending`
unfoldable pub reconcile_entry_pending :
    Option PositionReconciler → Position → List Trade → Db ReconciliationItem
reconcile_entry_pending r p ts =
    if any_leg TradeLegStatus.opened ts && not (any_leg TradeLegStatus.pending ts)
    then finalize_entry r p
    else if not (any_leg TradeLegStatus.opened ts)
    then write
        (move_position p PositionState.closed
          "reconciliation: entry never filled at broker; no exposure opened")
        (about p.id entry_aborted_no_fills false)
    else error_position p ReconciliationBreakType.partial_entry "partial entry"

-- `_reconcile_exit_pending`
unfoldable pub reconcile_exit_pending :
    Option PositionReconciler → Position → List Trade → Db ReconciliationItem
reconcile_exit_pending r p ts =
    if any_leg TradeLegStatus.closed ts && not (any_leg TradeLegStatus.opened ts)
    then finalize_exit r p
    else if any_leg TradeLegStatus.closed ts && any_leg TradeLegStatus.opened ts
    then error_position p ReconciliationBreakType.other "partial exit"
    else pure (about p.id exit_pending_left_for_recovery false)

-- whether an OPEN leg's symbol is not among the live ones
abbrev pub any_missing : List Trade → List String → Bool
any_missing ts live =
    any (λ t. t.status == TradeLegStatus.opened && not (any (λ s. s == t.trading_symbol) live)) ts

-- `_reconcile_open`
unfoldable pub reconcile_open : Option (List String) → Position → List Trade → Db ReconciliationItem
reconcile_open none p ts = pure (about p.id consistent_no_action false)
reconcile_open (some live) p ts =
    if any_missing ts live
    then error_position p ReconciliationBreakType.broker_flat_db_open "DB OPEN but broker flat"
    else pure (about p.id consistent_no_action false)

by_state :
    PositionState
    → Option PositionReconciler
    → Option (List String)
    → Position
    → List Trade
    → Db ReconciliationItem
by_state PositionState.closed r live p ts = pure (about p.id consistent_no_action false)
by_state PositionState.error r live p ts = pure (about p.id consistent_no_action false)
by_state PositionState.entry_pending r live p ts = reconcile_entry_pending r p ts
by_state PositionState.exit_pending r live p ts = reconcile_exit_pending r p ts
by_state PositionState.idle r live p ts = reconcile_open live p ts
by_state PositionState.opened r live p ts = reconcile_open live p ts

-- `list_trades_for_position`
abbrev pub legs_of : ℕ → List Trade → List Trade
legs_of id ts = filter (λ t. eqb t.position_id id) ts

position_found :
    Option PositionReconciler → Option (List String) → ℕ → Option Position → Db ReconciliationItem
unfolding by_state
position_found r live id none d = (Result.ok (about id consistent_no_action false), d)
position_found r live id (some p) d = by_state p.state r live p (legs_of id d.trades) d

-- `_reconcile_one_position`, in a unit of work of its own
unfoldable pub reconcile_one_position :
    Option PositionReconciler → Option (List String) → ℕ → Db ReconciliationItem
unfolding position_found
reconcile_one_position r live id =
    unit_of_work (λ d. position_found r live id (find_position id d.positions) d)

unfoldable pub reconcile_positions_each :
    Option PositionReconciler → Option (List String) → List ℕ → Db (List ReconciliationItem)
reconcile_positions_each r live [] = pure []
reconcile_positions_each r live (id ∷ ids) = do
  item ← reconcile_one_position r live id
  items ← reconcile_positions_each r live ids
  pure (item ∷ items)

-- the ids of `list_non_terminal()` without those in ERROR
unfoldable pub list_to_reconcile : List Position → List ℕ
list_to_reconcile ps =
    map (λ p. p.id)
      (filter
        (λ p.
          p.state == PositionState.entry_pending
          || p.state == PositionState.opened
          || p.state == PositionState.exit_pending)
        ps)

-- the symbols in which the broker holds something
unfoldable pub live_symbols : Option (List BrokerPosition) → Option (List String)
live_symbols none = none
live_symbols (some bps) =
    some (map (λ bp. bp.tradingsymbol) (filter (λ bp. not (bp.quantity == pos 0)) bps))

-- `_reconcile_positions`
unfoldable pub reconcile_positions :
    Option PositionReconciler → Option (List BrokerPosition) → Db (List ReconciliationItem)
unfolding reconcile_positions_each live_symbols list_to_reconcile
reconcile_positions r bps d =
    reconcile_positions_each r (live_symbols bps) (list_to_reconcile d.positions) d
