-- ===== src/Reconciliation/Engine/Report.antt =====
-- reconciliation_engine.py, `reconcile`: what a whole run keeps to, and what its report says.
use trading_project.Base.{ℕ, ◌+◌, ◌≡◌, Option, none, some, List, [], ◌∷◌, ◌++◌, length, All, true}
use trading_project.Models.{Position}
use trading_project.Result.{Result, ok, err}
use trading_project.Action.{pure, continue, ◌>>=◌}
use trading_project.Broker.{BrokerOrder, BrokerResult, BrokerError, returned, raised}
use trading_project.Broker.Contract.{BrokerBase, BrokerPosition}
use trading_project.Reconciliation.{
  Database, ReconciliationItem, breaks_recorded, find_position, group_orders_by_tag,
}
use trading_project.Reconciliation.Repairs.{
  Repairs-refl, IsTrace, trace-append, Counted, Counted-IsTrace, Orderly, Orderly-IsTrace,
  IsAllowed, is_done,
}
use trading_project.Reconciliation.Intents.{reconcile_intents}
use trading_project.Reconciliation.Intents.Repairing.{reconcile_intents-Repairs}
use trading_project.Reconciliation.Orphans.{detect_orphans_and_duplicates}
use trading_project.Reconciliation.Orphans.Recorded.{detect_orphans-Repairs}
use trading_project.Reconciliation.Positions.{PositionReconciler, reconcile_positions}
use trading_project.Reconciliation.Positions.Repairing.{
  Outcome, AllKeepTo, reconcile_positions-Outcome,
}
use trading_project.Reconciliation.Engine.{unavailable, if_returned, repair, with_orders, reconcile}

module _ (R : ℕ → Database → Database → Type 0) (laws : IsTrace R) where
  -- the items of the positions behind those of the intents and of the tags
  append_items :
      (xs ys : List ReconciliationItem) (d e f : Database)
      (m : Result (List ReconciliationItem) × Database)
      → R (breaks_recorded xs) d e
      → R (breaks_recorded ys) e f
      → Outcome R breaks_recorded f m
      → Outcome R breaks_recorded d (continue m.0 (λ zs. pure (xs ++ ys ++ zs)) m.1)
  append_items xs ys d e f (ok zs, g) of_xs of_ys of_zs =
      trace-append laws (xs ++ ys) zs (trace-append laws xs ys of_xs of_ys) of_zs
  append_items xs ys d e f (err _, g) of_xs of_ys (k, rest) =
      (breaks_recorded (xs ++ ys) + k, laws.trans (trace-append laws xs ys of_xs of_ys) rest)

  repair-Outcome :
      (r : Option PositionReconciler) (now : ℕ) (orders : List BrokerOrder)
      (positions : Option (List BrokerPosition)) (d : Database)
      → AllKeepTo R r
      → Outcome R breaks_recorded d (repair r now orders positions d)
  unfolding repair ◌>>=◌
  repair-Outcome r now orders positions d keeps =
      let grouped = group_orders_by_tag orders in
      let (of_intents, d1) = reconcile_intents grouped now d in
      let (of_tags, d2) = detect_orphans_and_duplicates grouped d1 in
      append_items of_intents of_tags d d1 d2 (reconcile_positions r positions d2)
        (laws.of_repairs (reconcile_intents-Repairs grouped now d))
        (laws.of_repairs (detect_orphans-Repairs grouped d1))
        (reconcile_positions-Outcome R laws r positions d2 keeps)

  module _ (b : BrokerBase) (r : Option PositionReconciler) (now : ℕ) (s : b.State)
      (d : Database) where
    quiet_report : R (breaks_recorded (unavailable ∷ [])) d d
    unfolding breaks_recorded
    quiet_report = laws.of_repairs (Repairs-refl d)

    with_orders-Outcome :
        (orders : BrokerResult (List BrokerOrder))
        → AllKeepTo R r
        → Outcome R breaks_recorded d
            ((with_orders b r now orders s d).0, (with_orders b r now orders s d).2)
    unfolding with_orders
    with_orders-Outcome (raised e) keeps = quiet_report
    with_orders-Outcome (returned orders) keeps =
        repair-Outcome r now orders (if_returned (b.get_positions none s).0) d keeps

  reconcile-Outcome :
      (b : BrokerBase) (r : Option PositionReconciler) (now : ℕ) (s : b.State) (d : Database)
      → AllKeepTo R r
      → Outcome R breaks_recorded d ((reconcile b r now s d).0, (reconcile b r now s d).2)
  unfolding reconcile
  reconcile-Outcome b r now s d keeps =
      with_orders-Outcome b r now (b.get_orders none s).1 d (b.get_orders none s).0 keeps

  some-Trace :
      (d d' : Database) (o : Result (List ReconciliationItem))
      → Outcome R breaks_recorded d (o, d')
      → (k : ℕ) × R k d d'
  some-Trace d d' (ok xs) h = (breaks_recorded xs, h)
  some-Trace d d' (err why) h = h

module _ (b : BrokerBase) (r : Option PositionReconciler) (now : ℕ) (s : b.State)
    (d : Database) where
  -- If the strategy's reconciler, where it finalizes a position in doubt without raising, records no
  -- break itself, a run that reports has recorded exactly as many breaks as the report says, the
  -- report of an unavailable broker included.
  pub reconcile-breaks_recorded :
      AllKeepTo Counted r
      → (items : List ReconciliationItem) → (reconcile b r now s d).0 ≡ ok items
      → length (reconcile b r now s d).2.breaks ≡ length d.breaks + breaks_recorded items
  reconcile-breaks_recorded keeps items e =
      of_report (reconcile b r now s d).0 (reconcile b r now s d).2 e
        (reconcile-Outcome Counted Counted-IsTrace b r now s d keeps)
    where
      of_report :
          (o : Result (List ReconciliationItem)) (d' : Database)
          → o ≡ ok items
          → Outcome Counted breaks_recorded d (o, d')
          → length d'.breaks ≡ length d.breaks + breaks_recorded items
      of_report (ok xs) d' same h = let is_items : xs ≡ items = cc in rw (← is_items) h
      of_report (err why) d' same h = cc

  -- Whether a run reports or raises: an audit trail of transitions that the state machine allows to
  -- their actors stays one, and positions that were CLOSED or in ERROR are as they were; if that holds
  -- of the strategy's reconciler, where it finalizes a position in doubt without raising.
  pub reconcile-audited :
      AllKeepTo Orderly r
      → (All IsAllowed d.audit → All IsAllowed (reconcile b r now s d).2.audit)
        × ((j : ℕ) (p : Position)
            → find_position j d.positions ≡ some p
            → is_done p.state ≡ true
            → find_position j (reconcile b r now s d).2.positions ≡ some p)
  reconcile-audited keeps =
      let (k, h) =
        some-Trace Orderly Orderly-IsTrace d _ _
          (reconcile-Outcome Orderly Orderly-IsTrace b r now s d keeps) in
      (h.audited, h.left_alone)

-- A run that cannot read the broker's orders repairs nothing, reads nothing more from the broker, and
-- reports that the broker was unavailable.
pub reconcile-unavailable :
    (b : BrokerBase) (r : Option PositionReconciler) (now : ℕ) (s s' : b.State) (d : Database)
    (e : BrokerError)
    → b.get_orders none s ≡ (raised e, s')
    → reconcile b r now s d ≡ (ok (unavailable ∷ []), s', d)
unfolding reconcile with_orders
reconcile-unavailable b r now s s' d e failed = rw failed
