-- ===== src/Exit.antt =====
-- src/algo/strategy_engine/strategies/strategy_1/exit_logic.py: when to leave the straddle, and the
-- procedure that closes its legs at the broker and in the database.
pub mod Decision
pub mod Flow
pub mod Finish
pub mod Procedure
mod Tests
