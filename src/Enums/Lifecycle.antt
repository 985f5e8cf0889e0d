-- ===== src/Enums/Lifecycle.antt =====
-- src/algo/common/enums.py: positions, legs, instances, flags and breaks.
use trading_project.Base.{ℕ, ◌≡◌, ◌↔◌, true, arith, eqb}
use trading_project.Base.Eq.{Eq}

pub data InstanceStatus : Type 0 where
  active frozen disabled : InstanceStatus

pub data PositionState : Type 0 where
  idle entry_pending opened exit_pending closed error : PositionState

pub data ExitReason : Type 0 where
  target stoploss timeout kill_switch manual error : ExitReason

pub data TradeLegStatus : Type 0 where
  pending opened closed unwound error : TradeLegStatus

pub data StateTransitionActor : Type 0 where
  strategy risk_manager kill_switch recovery manual : StateTransitionActor

pub data RiskFlagType : Type 0 where
  kill_switch emergency_exit freeze : RiskFlagType

pub data RiskFlagScope : Type 0 where
  global account strategy_instance : RiskFlagScope

pub data ReconciliationBreakType : Type 0 where
  orphan_fill broker_flat_db_open ambiguous_ack partial_entry quantity_mismatch other :
      ReconciliationBreakType

abbrev pub instance_status_index : InstanceStatus → ℕ
instance_status_index InstanceStatus.active = 0
instance_status_index InstanceStatus.frozen = 1
instance_status_index InstanceStatus.disabled = 2

pub instance_status_beq_iff :
    (a b : InstanceStatus)
    → (eqb (instance_status_index a) (instance_status_index b) ≡ true) ↔ (a ≡ b)
instance_status_beq_iff a b = ground arith

instance abbrev pub instance_status_eq : Eq InstanceStatus
instance_status_eq = record {
  beq = λ a b. eqb (instance_status_index a) (instance_status_index b);
  beq_iff = instance_status_beq_iff;
}

abbrev pub position_state_index : PositionState → ℕ
position_state_index PositionState.idle = 0
position_state_index PositionState.entry_pending = 1
position_state_index PositionState.opened = 2
position_state_index PositionState.exit_pending = 3
position_state_index PositionState.closed = 4
position_state_index PositionState.error = 5

pub position_state_beq_iff :
    (a b : PositionState) → (eqb (position_state_index a) (position_state_index b) ≡ true) ↔ (a ≡ b)
position_state_beq_iff a b = ground arith

instance abbrev pub position_state_eq : Eq PositionState
position_state_eq = record {
  beq = λ a b. eqb (position_state_index a) (position_state_index b);
  beq_iff = position_state_beq_iff;
}

abbrev pub exit_reason_index : ExitReason → ℕ
exit_reason_index ExitReason.target = 0
exit_reason_index ExitReason.stoploss = 1
exit_reason_index ExitReason.timeout = 2
exit_reason_index ExitReason.kill_switch = 3
exit_reason_index ExitReason.manual = 4
exit_reason_index ExitReason.error = 5

pub exit_reason_beq_iff :
    (a b : ExitReason) → (eqb (exit_reason_index a) (exit_reason_index b) ≡ true) ↔ (a ≡ b)
exit_reason_beq_iff a b = ground arith

instance abbrev pub exit_reason_eq : Eq ExitReason
exit_reason_eq = record {
  beq = λ a b. eqb (exit_reason_index a) (exit_reason_index b);
  beq_iff = exit_reason_beq_iff;
}

abbrev pub trade_leg_status_index : TradeLegStatus → ℕ
trade_leg_status_index TradeLegStatus.pending = 0
trade_leg_status_index TradeLegStatus.opened = 1
trade_leg_status_index TradeLegStatus.closed = 2
trade_leg_status_index TradeLegStatus.unwound = 3
trade_leg_status_index TradeLegStatus.error = 4

pub trade_leg_status_beq_iff :
    (a b : TradeLegStatus)
    → (eqb (trade_leg_status_index a) (trade_leg_status_index b) ≡ true) ↔ (a ≡ b)
trade_leg_status_beq_iff a b = ground arith

instance abbrev pub trade_leg_status_eq : Eq TradeLegStatus
trade_leg_status_eq = record {
  beq = λ a b. eqb (trade_leg_status_index a) (trade_leg_status_index b);
  beq_iff = trade_leg_status_beq_iff;
}

abbrev pub state_transition_actor_index : StateTransitionActor → ℕ
state_transition_actor_index StateTransitionActor.strategy = 0
state_transition_actor_index StateTransitionActor.risk_manager = 1
state_transition_actor_index StateTransitionActor.kill_switch = 2
state_transition_actor_index StateTransitionActor.recovery = 3
state_transition_actor_index StateTransitionActor.manual = 4

pub state_transition_actor_beq_iff :
    (a b : StateTransitionActor)
    → (eqb (state_transition_actor_index a) (state_transition_actor_index b) ≡ true) ↔ (a ≡ b)
state_transition_actor_beq_iff a b = ground arith

instance abbrev pub state_transition_actor_eq : Eq StateTransitionActor
state_transition_actor_eq = record {
  beq = λ a b. eqb (state_transition_actor_index a) (state_transition_actor_index b);
  beq_iff = state_transition_actor_beq_iff;
}

abbrev pub risk_flag_type_index : RiskFlagType → ℕ
risk_flag_type_index RiskFlagType.kill_switch = 0
risk_flag_type_index RiskFlagType.emergency_exit = 1
risk_flag_type_index RiskFlagType.freeze = 2

pub risk_flag_type_beq_iff :
    (a b : RiskFlagType) → (eqb (risk_flag_type_index a) (risk_flag_type_index b) ≡ true) ↔ (a ≡ b)
risk_flag_type_beq_iff a b = ground arith

instance abbrev pub risk_flag_type_eq : Eq RiskFlagType
risk_flag_type_eq = record {
  beq = λ a b. eqb (risk_flag_type_index a) (risk_flag_type_index b);
  beq_iff = risk_flag_type_beq_iff;
}

abbrev pub risk_flag_scope_index : RiskFlagScope → ℕ
risk_flag_scope_index RiskFlagScope.global = 0
risk_flag_scope_index RiskFlagScope.account = 1
risk_flag_scope_index RiskFlagScope.strategy_instance = 2

pub risk_flag_scope_beq_iff :
    (a b : RiskFlagScope)
    → (eqb (risk_flag_scope_index a) (risk_flag_scope_index b) ≡ true) ↔ (a ≡ b)
risk_flag_scope_beq_iff a b = ground arith

instance abbrev pub risk_flag_scope_eq : Eq RiskFlagScope
risk_flag_scope_eq = record {
  beq = λ a b. eqb (risk_flag_scope_index a) (risk_flag_scope_index b);
  beq_iff = risk_flag_scope_beq_iff;
}

abbrev pub reconciliation_break_type_index : ReconciliationBreakType → ℕ
reconciliation_break_type_index ReconciliationBreakType.orphan_fill = 0
reconciliation_break_type_index ReconciliationBreakType.broker_flat_db_open = 1
reconciliation_break_type_index ReconciliationBreakType.ambiguous_ack = 2
reconciliation_break_type_index ReconciliationBreakType.partial_entry = 3
reconciliation_break_type_index ReconciliationBreakType.quantity_mismatch = 4
reconciliation_break_type_index ReconciliationBreakType.other = 5

pub reconciliation_break_type_beq_iff :
    (a b : ReconciliationBreakType)
    → (eqb (reconciliation_break_type_index a) (reconciliation_break_type_index b) ≡ true) ↔ (a ≡ b)
reconciliation_break_type_beq_iff a b = ground arith

instance abbrev pub reconciliation_break_type_eq : Eq ReconciliationBreakType
reconciliation_break_type_eq = record {
  beq = λ a b. eqb (reconciliation_break_type_index a) (reconciliation_break_type_index b);
  beq_iff = reconciliation_break_type_beq_iff;
}
