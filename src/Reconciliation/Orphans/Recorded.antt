-- ===== src/Reconciliation/Orphans/Recorded.antt =====
-- reconciliation_engine.py, `_detect_orphans_and_duplicates`, as one of the repairs.
use trading_project.Base.{Bool, true, false, List, [], ◌∷◌}
use trading_project.Base.Dict.{Dict}
use trading_project.Models.{Tag}
use trading_project.Broker.{BrokerOrder}
use trading_project.Reconciliation.{Database, ReconciliationItem, breaks_recorded}
use trading_project.Reconciliation.Repairs.{
  Repairs, Repairs-refl, Repairs-cons, record_break-Repairs,
}
use trading_project.Reconciliation.Orphans.{
  attributable, orphan_break, orphan_item, detect_one, detect_orphans_and_duplicates,
}

module _ {d : Database} (t : Tag) where
  detect_one-Repairs :
      (known : Bool) (rest : Database → List ReconciliationItem × Database)
      → ((e : Database) → Repairs (breaks_recorded (rest e).0) e (rest e).1)
      → Repairs (breaks_recorded (detect_one t known rest d).0) d (detect_one t known rest d).1
  unfolding detect_one
  detect_one-Repairs true rest k = k d
  detect_one-Repairs false rest k =
      Repairs-cons (orphan_item t) _ (record_break-Repairs orphan_break d) (k _)

pub detect_orphans-Repairs :
    (groups : Dict Tag (List BrokerOrder)) (d : Database)
    → Repairs
        (breaks_recorded (detect_orphans_and_duplicates groups d).0)
        d
        (detect_orphans_and_duplicates groups d).1
unfolding detect_orphans_and_duplicates breaks_recorded
detect_orphans-Repairs [] d = Repairs-refl d
detect_orphans-Repairs ((t, _) ∷ groups) d =
    detect_one-Repairs t (attributable t d.intents) (detect_orphans_and_duplicates groups)
      (λ e. detect_orphans-Repairs groups e)
