-- ===== src/Reconciliation.antt =====
-- src/algo/services/reconciliation_engine.py: the tables that a run reads and repairs, for all
-- instances, what it reports, and the steps that its parts share. Every row's `detail`, `snapshot`
-- and `detected_at` are texts and times for the operator, and are left out.
pub mod Intents
pub mod Orphans
pub mod Positions
pub mod Engine
pub mod Repairs
pub mod Tests
use trading_project.Base.{
  ℕ, ◌+◌, String, Bool, true, false, Option, none, some, List, [], ◌∷◌, ◌++◌, ◌==◌, nat_eq, eqb,
  if◌then◌else◌, count,
}
use trading_project.Base.Dict.{Dict, lookup, insert}
use trading_project.Enums.{
  PositionState, InstanceStatus, StateTransitionActor, ReconciliationBreakType,
}
use trading_project.Models.{
  Position, PositionStateTransition, Trade, OrderIntent, Order, Tag, tag_eq,
}
use trading_project.Broker.{BrokerOrder}
use trading_project.Orders.Table.{has_text}
use trading_project.Store.{frozen_status}

-- A row of `reconciliation_breaks`.
pub record Break : Type 0 where
  pub break_type : ReconciliationBreakType
  pub position_id : Option ℕ
  pub order_id : Option ℕ
  pub intent_id : Option ℕ

-- The tables. The identifiers of new rows come from one counter.
pub record Database : Type 0 where
  pub positions : List Position
  pub trades : List Trade
  pub intents : List OrderIntent
  pub orders : List Order
  pub audit : List PositionStateTransition
  pub breaks : List Break
  pub instances : Dict ℕ InstanceStatus
  pub next_id : ℕ

-- `ReconciliationOutcome`
pub data ReconciliationOutcome : Type 0 where
  broker_unavailable consistent_no_action : ReconciliationOutcome
  intent_failed_not_at_broker fill_recorded partial_fill_recorded : ReconciliationOutcome
  rejection_recorded order_still_in_flight order_row_created : ReconciliationOutcome
  duplicate_orders_detected orphan_order_detected : ReconciliationOutcome
  entry_finalized exit_finalized entry_aborted_no_fills position_errored : ReconciliationOutcome
  needs_finalization_no_reconciler exit_pending_left_for_recovery : ReconciliationOutcome

-- What the text `subject` names.
pub data Subject : Type 0 where
  the_broker : Subject
  the_intent : ℕ → Subject
  the_position : ℕ → Subject
  the_tag : Tag → Subject

pub record ReconciliationItem : Type 0 where
  pub subject : Subject
  pub outcome : ReconciliationOutcome
  pub break_recorded : Bool

-- `ReconciliationReport.breaks_recorded`
unfoldable pub breaks_recorded : List ReconciliationItem → ℕ
breaks_recorded items = count (λ i. i.break_recorded) items

-- `_record_break`
unfoldable pub record_break : Break → Database → Database
record_break b d = record d { breaks = d.breaks ++ b ∷ [] }

-- `setdefault(order.tag, []).append(order)`
abbrev file_under : Option (List BrokerOrder) → BrokerOrder → List BrokerOrder
file_under none o = o ∷ []
file_under (some os) o = os ++ o ∷ []

file_order : Option Tag → BrokerOrder → Dict Tag (List BrokerOrder) → Dict Tag (List BrokerOrder)
file_order none o grouped = grouped
file_order (some t) o grouped =
    if has_text t then insert t (file_under (lookup t grouped) o) grouped else grouped

-- `_group_orders_by_tag`, with the groups so far
unfoldable pub group_from :
    Dict Tag (List BrokerOrder) → List BrokerOrder → Dict Tag (List BrokerOrder)
unfolding file_order
group_from grouped [] = grouped
group_from grouped (o ∷ os) = group_from (file_order o.tag o grouped) os

unfoldable pub group_orders_by_tag : List BrokerOrder → Dict Tag (List BrokerOrder)
unfolding group_from
group_orders_by_tag orders = group_from [] orders

-- `orders_by_tag.get(tag, [])`
abbrev list_or_empty : Option (List BrokerOrder) → List BrokerOrder
list_or_empty none = []
list_or_empty (some os) = os

abbrev pub matches : Dict Tag (List BrokerOrder) → Tag → List BrokerOrder
matches grouped t = list_or_empty (lookup t grouped)

unfoldable pub find_position : ℕ → List Position → Option Position
find_position id [] = none
find_position id (p ∷ ps) = if eqb p.id id then some p else find_position id ps

unfoldable pub update_position : ℕ → Position → List Position → List Position
update_position id new [] = []
update_position id new (p ∷ ps) = if eqb p.id id then new ∷ ps else p ∷ update_position id new ps

-- `PositionRepository.transition_state` by the recovery actor: the state and the audit row
unfoldable pub move_position : Position → PositionState → String → Database → Database
move_position p to_state reason d = record d {
  positions = update_position p.id (record p { state = to_state }) d.positions;
  audit =
      d.audit
      ++ record {
        position_id = p.id;
        from_state = p.state;
        to_state = to_state;
        reason = some reason;
        actor = StateTransitionActor.recovery;
      }
        ∷ [];
}

-- the instance of a position is frozen, where it has one
freeze_found : ℕ → Option InstanceStatus → Database → Database
freeze_found id none d = d
freeze_found id (some _) d = record d { instances = insert id InstanceStatus.frozen d.instances }

-- what `_error_position` and `_error_position_of_intent` do in common
unfoldable pub error_and_freeze : Position → String → Database → Database
unfolding freeze_found move_position
error_and_freeze p reason d =
    let flagged = record p { error_message = some reason; needs_reconciliation = true } in
    let moved = move_position flagged PositionState.error reason d in
    freeze_found p.strategy_instance_id (lookup p.strategy_instance_id moved.instances) moved
