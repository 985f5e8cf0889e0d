-- ===== src/Premium.antt =====
-- src/algo/strategy_engine/strategies/strategy_1/combined_premium.py: the premium of the straddle,
-- its target and stoploss levels, and the tracker that follows the ticks.
-- A premium counts ten-thousandths, a fraction too, and a level, the product of the two, counts
-- hundred-millionths: `Decimal` products of these are exact, so nothing is rounded.
pub mod Thresholds
pub mod Tracker
mod Tests
