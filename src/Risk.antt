-- ===== src/Risk.antt =====
-- src/algo/risk/kill_switch.py with src/algo/database/repositories/risk_control_flag_repository.py,
-- and `RiskCore.is_halted` of src/algo/risk/risk_core.py: the flags that stop trading.
pub mod Flags
pub mod KillSwitch
pub mod Checks
pub mod Entry
mod Tests
