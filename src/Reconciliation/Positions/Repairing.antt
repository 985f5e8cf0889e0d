-- ===== src/Reconciliation/Positions/Repairing.antt =====
-- reconciliation_engine.py: what the repairs of positions keep to, given that the strategy's
-- `PositionReconciler` does.
use mathlib.Core.Path.{subst}
use trading_project.Base.{
  ℕ, ◌+◌, ◌≡◌, inl, inr, refl, sym, String, true, false, not, ◌&&◌, Option, none, some, List, [],
  ◌∷◌, Bool-cases,
}
use trading_project.Enums.{
  PositionState, TradeLegStatus, trade_leg_status_eq, ReconciliationBreakType, StateTransitionActor,
}
use trading_project.Models.{Position, Trade}
use trading_project.Result.{Result, ok, err}
use trading_project.Action.{pure, continue, ◌>>=◌, unit_of_work, committed}
use trading_project.Position.{is_transition_allowed_for_actor}
use trading_project.Broker.Contract.{BrokerPosition}
use trading_project.Reconciliation.{
  Database, ReconciliationItem, record_break, find_position, breaks_recorded,
}
use trading_project.Reconciliation.Repairs.{
  Repairs-refl, Repairs-trans, IsTrace, trace-cons, breaks_of, is_done, record_break-Repairs,
  move_position-Repairs, error_and_freeze-Repairs, find_position-id, update_position-left,
}
use trading_project.Reconciliation.Positions.{
  Db, PositionReconciler, position_break, error_position, flag_unfinalized, finalize_entry,
  finalize_exit, reconcile_entry_pending, reconcile_exit_pending, reconcile_open, by_state,
  position_found, legs_of, any_leg, any_missing, reconcile_one_position, reconcile_positions_each,
  list_to_reconcile, live_symbols, reconcile_positions,
}

closing_allowed :
    (s : PositionState)
    → s ≡ PositionState.entry_pending
    → is_transition_allowed_for_actor s PositionState.closed StateTransitionActor.recovery ≡ true
unfolding is_transition_allowed_for_actor
closing_allowed s pending = rw pending

module _ (R : ℕ → Database → Database → Type 0) where
  -- What a step within a unit of work has done, if it did not raise.
  abbrev pub Step : {A : Type 0} → (A → ℕ) → Database → Result A × Database → Type 0
  Step weight d (ok a, d') = R (weight a) d d'
  Step weight d (err e, d') = Unit

  -- What units of work that may raise have done: what their result counts, or what is counted nowhere.
  abbrev pub Outcome : {A : Type 0} → (A → ℕ) → Database → Result A × Database → Type 0
  Outcome weight d (ok a, d') = R (weight a) d d'
  Outcome weight d (err e, d') = (k : ℕ) × R k d d'

  -- What is asked of the strategy's reconciler, of a row that is in doubt: where it does not raise, it
  -- keeps to the relation and records no break.
  pub record KeepsTo (r : PositionReconciler) : Type 0 where
    pub entry :
        (p : Position) (d : Database)
        → find_position p.id d.positions ≡ some p
        → p.state ≡ PositionState.entry_pending
        → Step (λ _. 0) d (r.finalize_entry p d)
    pub exit :
        (p : Position) (d : Database)
        → find_position p.id d.positions ≡ some p
        → p.state ≡ PositionState.exit_pending
        → Step (λ _. 0) d (r.finalize_exit p d)

  abbrev pub AllKeepTo : Option PositionReconciler → Type 0
  AllKeepTo none = Unit
  AllKeepTo (some r) = KeepsTo r

module _ (R : ℕ → Database → Database → Type 0) (laws : IsTrace R) (p : Position) (d : Database)
    (found : find_position p.id d.positions ≡ some p) (live : is_done p.state ≡ false) where
  error_position-Step :
      (kind : ReconciliationBreakType) (reason : String)
      → Step R breaks_of d (error_position p kind reason d)
  unfolding error_position
  error_position-Step kind reason = laws.of_repairs (
      Repairs-trans (error_and_freeze-Repairs p reason d found live)
        (record_break-Repairs (position_break kind p.id) _))

  flag_unfinalized-Step : Step R breaks_of d (flag_unfinalized p d)
  unfolding flag_unfinalized record_break
  flag_unfinalized-Step =
      let r = record_break-Repairs (position_break ReconciliationBreakType.other p.id) d in
      laws.of_repairs (record {
        counted = r.counted;
        audited = r.audited;
        left_alone =
            update_position-left (record p { needs_reconciliation = true }) p p.id d.positions refl
              found live;
      })

  after_finalizing :
      (item : ReconciliationItem) (m : Result (Unit {0}) × Database)
      → item.break_recorded ≡ false
      → Step R (λ _. 0) d m
      → Step R breaks_of d (continue m.0 (λ _. pure item) m.1)
  after_finalizing item (ok _, d') quiet h = rw quiet h
  after_finalizing item (err e, d') quiet h = tt

  finalize_entry-Step :
      (r : Option PositionReconciler)
      → AllKeepTo R r
      → p.state ≡ PositionState.entry_pending
      → Step R breaks_of d (finalize_entry r p d)
  unfolding finalize_entry ◌>>=◌
  finalize_entry-Step none k pending = flag_unfinalized-Step
  finalize_entry-Step (some r) k pending =
      after_finalizing _ (r.finalize_entry p d) refl (k.entry p d found pending)

  finalize_exit-Step :
      (r : Option PositionReconciler)
      → AllKeepTo R r
      → p.state ≡ PositionState.exit_pending
      → Step R breaks_of d (finalize_exit r p d)
  unfolding finalize_exit ◌>>=◌
  finalize_exit-Step none k pending = flag_unfinalized-Step
  finalize_exit-Step (some r) k pending =
      after_finalizing _ (r.finalize_exit p d) refl (k.exit p d found pending)

  reconcile_entry_pending-Step :
      (r : Option PositionReconciler) (ts : List Trade)
      → AllKeepTo R r
      → p.state ≡ PositionState.entry_pending
      → Step R breaks_of d (reconcile_entry_pending r p ts d)
  unfolding reconcile_entry_pending
  reconcile_entry_pending-Step r ts k pending =
      elim (Bool-cases
        (any_leg TradeLegStatus.opened ts && not (any_leg TradeLegStatus.pending ts))) [
          | inl all_filled ↦ rw all_filled (finalize_entry-Step r k pending)
          | inr not_all ↦ rw not_all (elim (Bool-cases (any_leg TradeLegStatus.opened ts)) [
            | inl some_filled ↦
                rw some_filled
                  (error_position-Step ReconciliationBreakType.partial_entry "partial entry")
            | inr none_filled ↦ rw none_filled (
                laws.of_repairs (
                  move_position-Repairs p p d found live PositionState.closed _
                    (closing_allowed p.state pending)))
          ])
        ]

  reconcile_exit_pending-Step :
      (r : Option PositionReconciler) (ts : List Trade)
      → AllKeepTo R r
      → p.state ≡ PositionState.exit_pending
      → Step R breaks_of d (reconcile_exit_pending r p ts d)
  unfolding reconcile_exit_pending
  reconcile_exit_pending-Step r ts k pending =
      elim (Bool-cases
        (any_leg TradeLegStatus.closed ts && not (any_leg TradeLegStatus.opened ts))) [
          | inl all_closed ↦ rw all_closed (finalize_exit-Step r k pending)
          | inr not_all ↦
              rw not_all
                (elim (Bool-cases
                  (any_leg TradeLegStatus.closed ts && any_leg TradeLegStatus.opened ts)) [
                    | inl partly ↦
                        rw partly (error_position-Step ReconciliationBreakType.other "partial exit")
                    | inr unclosed ↦ rw unclosed (laws.of_repairs (Repairs-refl d))
                  ])
        ]

  reconcile_open-Step :
      (live_ones : Option (List String)) (ts : List Trade)
      → Step R breaks_of d (reconcile_open live_ones p ts d)
  unfolding reconcile_open
  reconcile_open-Step none ts = laws.of_repairs (Repairs-refl d)
  reconcile_open-Step (some symbols) ts = elim (Bool-cases (any_missing ts symbols)) [
    | inl missing ↦
        rw missing (
          error_position-Step ReconciliationBreakType.broker_flat_db_open "DB OPEN but broker flat")
    | inr present ↦ rw present (laws.of_repairs (Repairs-refl d))
  ]

module _ (R : ℕ → Database → Database → Type 0) (laws : IsTrace R) (r : Option PositionReconciler)
    (keeps : AllKeepTo R r) (symbols : Option (List String)) where
  by_state-Step :
      (s : PositionState) (p : Position) (ts : List Trade) (d : Database)
      → p.state ≡ s
      → find_position p.id d.positions ≡ some p
      → Step R breaks_of d (by_state s r symbols p ts d)
  unfolding by_state
  by_state-Step PositionState.closed p ts d e found = laws.of_repairs (Repairs-refl d)
  by_state-Step PositionState.error p ts d e found = laws.of_repairs (Repairs-refl d)
  by_state-Step PositionState.entry_pending p ts d e found =
      reconcile_entry_pending-Step R laws p d found (rw e) r ts keeps e
  by_state-Step PositionState.exit_pending p ts d e found =
      reconcile_exit_pending-Step R laws p d found (rw e) r ts keeps e
  by_state-Step PositionState.idle p ts d e found =
      reconcile_open-Step R laws p d found (rw e) symbols ts
  by_state-Step PositionState.opened p ts d e found =
      reconcile_open-Step R laws p d found (rw e) symbols ts

  position_found-Step :
      (id : ℕ) (o : Option Position) (d : Database)
      → find_position id d.positions ≡ o
      → Step R breaks_of d (position_found r symbols id o d)
  unfolding position_found
  position_found-Step id none d e = laws.of_repairs (Repairs-refl d)
  position_found-Step id (some p) d e = by_state-Step p.state p (legs_of id d.trades) d refl (
      subst (λ k. find_position k d.positions ≡ some p) (sym (find_position-id id d.positions p e))
        e)

  -- what raises is rolled back
  committed-Outcome :
      (m : Db ReconciliationItem) (d : Database) (a : Result ReconciliationItem × Database)
      → Step R breaks_of d a
      → Outcome R breaks_of d (committed m d a)
  unfolding committed
  committed-Outcome m d (ok item, d') h = h
  committed-Outcome m d (err e, d') h = (0, laws.of_repairs (Repairs-refl d))

  reconcile_one_position-Outcome :
      (id : ℕ) (d : Database) → Outcome R breaks_of d (reconcile_one_position r symbols id d)
  unfolding reconcile_one_position unit_of_work
  reconcile_one_position-Outcome id d =
      committed-Outcome (λ e. position_found r symbols id (find_position id e.positions) e) d
        (position_found r symbols id (find_position id d.positions) d)
        (position_found-Step id (find_position id d.positions) d refl)

  nothing_recorded : (d : Database) → R (breaks_recorded []) d d
  unfolding breaks_recorded
  nothing_recorded d = laws.of_repairs (Repairs-refl d)

  after_items :
      (item : ReconciliationItem) (d e : Database) (m : Result (List ReconciliationItem) × Database)
      → R (breaks_of item) d e
      → Outcome R breaks_recorded e m
      → Outcome R breaks_recorded d (continue m.0 (λ items. pure (item ∷ items)) m.1)
  after_items item d e (ok items, f) first rest = trace-cons laws item items first rest
  after_items item d e (err _, f) first (k, rest) = (breaks_of item + k, laws.trans first rest)

  after_item :
      (rest : Db (List ReconciliationItem)) (d : Database)
      (m : Result ReconciliationItem × Database)
      → ((e : Database) → Outcome R breaks_recorded e (rest e))
      → Outcome R breaks_of d m
      → Outcome R breaks_recorded d
          (continue m.0 (λ item. do items ← rest; pure (item ∷ items)) m.1)
  unfolding ◌>>=◌
  after_item rest d (ok item, e) k first = after_items item d e (rest e) first (k e)
  after_item rest d (err _, e) k first = first

  reconcile_positions_each-Outcome :
      (ids : List ℕ) (d : Database)
      → Outcome R breaks_recorded d (reconcile_positions_each r symbols ids d)
  unfolding reconcile_positions_each ◌>>=◌
  reconcile_positions_each-Outcome [] d = nothing_recorded d
  reconcile_positions_each-Outcome (id ∷ ids) d =
      after_item (reconcile_positions_each r symbols ids) d (reconcile_one_position r symbols id d)
        (λ e. reconcile_positions_each-Outcome ids e) (reconcile_one_position-Outcome id d)

pub reconcile_positions-Outcome :
    (R : ℕ → Database → Database → Type 0) (laws : IsTrace R) (r : Option PositionReconciler)
    (bps : Option (List BrokerPosition)) (d : Database)
    → AllKeepTo R r
    → Outcome R breaks_recorded d (reconcile_positions r bps d)
unfolding reconcile_positions
reconcile_positions-Outcome R laws r bps d keeps =
    reconcile_positions_each-Outcome R laws r keeps (live_symbols bps)
      (list_to_reconcile d.positions) d
