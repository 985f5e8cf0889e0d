-- ===== src/Reconciliation/Engine.antt =====
-- reconciliation_engine.py, `ReconciliationEngine.reconcile`: the broker's orders and positions are
-- read once, first, and then the three parts run.
pub mod Report
use trading_project.Base.{ℕ, Option, none, some, List, [], ◌∷◌, ◌++◌, false, Bool}
use trading_project.Base.Dict.{Dict}
use trading_project.Models.{Tag}
use trading_project.Result.{Result, ok, err}
use trading_project.Action.{pure, ◌>>=◌}
use trading_project.Broker.{BrokerOrder, BrokerResult, returned, raised}
use trading_project.Broker.Contract.{BrokerBase, BrokerPosition}
use trading_project.Reconciliation.{
  Database, ReconciliationItem, broker_unavailable, the_broker, group_orders_by_tag,
}
use trading_project.Reconciliation.Intents.{reconcile_intents}
use trading_project.Reconciliation.Orphans.{detect_orphans_and_duplicates}
use trading_project.Reconciliation.Positions.{Db, PositionReconciler, reconcile_positions}

abbrev pub unavailable : ReconciliationItem
unavailable = record { subject = the_broker; outcome = broker_unavailable; break_recorded = false }

-- the positions, in front of which stand the items of the intents and the orphans
unfoldable pub repair :
    Option PositionReconciler
    → ℕ
    → List BrokerOrder
    → Option (List BrokerPosition)
    → Db (List ReconciliationItem)
repair r now orders positions d =
    let grouped = group_orders_by_tag orders in
    let (of_intents, d1) = reconcile_intents grouped now d in
    let (of_tags, d2) = detect_orphans_and_duplicates grouped d1 in
    (do
      of_positions ← reconcile_positions r positions
      pure (of_intents ++ of_tags ++ of_positions))
      d2

-- `None` where the positions cannot be read
abbrev if_returned : BrokerResult (List BrokerPosition) → Option (List BrokerPosition)
if_returned (returned ps) = some ps
if_returned (raised _) = none

module _ (b : BrokerBase) (r : Option PositionReconciler) (now : ℕ) where
  -- once the orders are read
  with_orders :
      BrokerResult (List BrokerOrder)
      → b.State
      → Database
      → Result (List ReconciliationItem) × b.State × Database
  with_orders (raised _) s d = (ok (unavailable ∷ []), s, d)
  with_orders (returned orders) s d =
      let (positions, s') = b.get_positions none s in
      let (items, d') = repair r now orders (if_returned positions) d in (items, s', d')

  -- `reconcile`: the items of its report, the broker, and the tables
  unfoldable pub reconcile :
      b.State → Database → Result (List ReconciliationItem) × b.State × Database
  unfolding with_orders
  reconcile s d = let (orders, s') = b.get_orders none s in with_orders orders s' d
