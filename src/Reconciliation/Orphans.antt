-- ===== src/Reconciliation/Orphans.antt =====
-- reconciliation_engine.py, `_detect_orphans_and_duplicates`: broker orders whose tag no intent has.
pub mod Recorded
use trading_project.Base.{
  ℕ, Bool, true, false, Option, none, some, List, [], ◌∷◌, ◌==◌, is_some, if◌then◌else◌,
}
use trading_project.Base.Dict.{Dict}
use trading_project.Enums.{ReconciliationBreakType}
use trading_project.Models.{OrderIntent, Tag, tag_eq}
use trading_project.Broker.{BrokerOrder}
use trading_project.Reconciliation.{
  Database, Break, ReconciliationItem, orphan_order_detected, the_tag, record_break,
}

-- `OrderIntentRepository.get_by_broker_tag(tag) is not None`
unfoldable pub attributable : Tag → List OrderIntent → Bool
attributable t [] = false
attributable t (i ∷ is) = if i.broker_tag == t then true else attributable t is

abbrev pub orphan_break : Break
orphan_break = record {
  break_type = ReconciliationBreakType.orphan_fill;
  position_id = none;
  order_id = none;
  intent_id = none;
}

abbrev pub orphan_item : Tag → ReconciliationItem
orphan_item t = record {
  subject = the_tag t;
  outcome = orphan_order_detected;
  break_recorded = true;
}

-- one group, in front of what the other groups come to
unfoldable pub detect_one :
    Tag
    → Bool
    → (Database → List ReconciliationItem × Database)
    → Database
    → List ReconciliationItem × Database
detect_one t true rest d = rest d
detect_one t false rest d =
    let (items, d') = rest (record_break orphan_break d) in (orphan_item t ∷ items, d')

unfoldable pub detect_orphans_and_duplicates :
    Dict Tag (List BrokerOrder) → Database → List ReconciliationItem × Database
unfolding detect_one attributable
detect_orphans_and_duplicates [] d = ([], d)
detect_orphans_and_duplicates ((t, _) ∷ groups) d =
    detect_one t (attributable t d.intents) (detect_orphans_and_duplicates groups) d
