-- ===== src/Entry/Procedure.antt =====
-- `EntryLogic.enter` and what it does at the broker, over the database writes of Entry/Writes.antt. The
-- final write may be refused by the database; the other units of work are taken to commit.
pub mod Legs
pub mod Fills
pub mod Outcome
pub mod Endings
pub mod Placing
pub mod Settled
use trading_project.Base.{
  ℕ, ◌≡◌, String, Bool, true, false, Option, none, some, ◌==◌, ◌||◌, ◌&&◌, not, nat_eq,
  if◌then◌else◌,
}
use trading_project.Base.Int.{ℤ, ◌+ℤ◌}
use trading_project.Enums.{ReconciliationBreakType, TransactionType}
use trading_project.Models.{Position, Tag}
use trading_project.Result.{Result, ok, err, runtime_error, broker_error}
use trading_project.Action.{Action, pure, raise, lift, gets, ◌>>=◌, ◌>>◌, unit_of_work}
use trading_project.Broker.{BrokerOrder, BrokerError, BrokerResult, returned, raised}
use trading_project.Orders.{is_terminal_status}
use trading_project.Premium.Thresholds.{PremiumThresholds, compute_thresholds}
use trading_project.Runtime.{BrokerPort, World, try_store, in_store, ask, poll}
use trading_project.Store.{mark_failed, reconcile_order_terminal, record_break_row}
use trading_project.Store.Failure.{fail_to_error}
use trading_project.Strike.{InstrumentSpec, StraddleStrikeSelection, select}
use trading_project.Entry.{
  EntryConfig, Services, EntryOutcome, EntryResult, LegIds, LegOutcome, LegResult, DurableRecord,
  leg_request, leg_result, entry_result,
}
use trading_project.Entry.Durable.{create_durable_record}
use trading_project.Entry.Writes.{
  begin_leg, record_leg_rejection, acknowledge_leg, settle_leg, open_position, begin_unwind,
  record_unwind,
}

module _ (b : BrokerPort) (cfg : EntryConfig) (now trade_date : ℕ) where
  abbrev pub Run : Type 0 → Type 0
  Run A = Action (World b) A

  -- `_confirm_and_record`
  confirm_polled : LegIds → ℕ → String → Option BrokerOrder → Run LegResult
  confirm_polled leg order_id id none = pure (leg_result LegOutcome.ambiguous none)
  confirm_polled leg order_id id (some bo) = do
    in_store b (unit_of_work (reconcile_order_terminal id bo now))
    in_store b (settle_leg cfg now trade_date leg order_id)

  confirm_and_record : LegIds → ℕ → String → Run LegResult
  unfolding confirm_polled
  confirm_and_record leg quantity id = do
    order_id ← in_store b (acknowledge_leg cfg now trade_date leg quantity id)
    terminal ← poll b cfg.fill_attempts id
    confirm_polled leg order_id id terminal

  failed_leg : Run LegResult
  failed_leg = pure (leg_result LegOutcome.failed none)

  -- what the broker says to the order of a leg; it is not sent again
  leg_placed : LegIds → ℕ → BrokerResult String → Run LegResult
  unfolding confirm_and_record failed_leg
  leg_placed leg quantity (returned id) = confirm_and_record leg quantity id
  leg_placed leg quantity (raised BrokerError.order_rejected) = do
    in_store b (record_leg_rejection cfg now trade_date leg)
    failed_leg
  leg_placed leg quantity (raised BrokerError.invalid_order_request) = do
    in_store b (record_leg_rejection cfg now trade_date leg)
    failed_leg
  leg_placed leg quantity (raised BrokerError.connection) = do
    in_store b (unit_of_work (mark_failed leg.intent_id))
    failed_leg
  leg_placed leg quantity (raised BrokerError.rate_limit_exceeded) = do
    in_store b (unit_of_work (mark_failed leg.intent_id))
    failed_leg
  leg_placed leg quantity (raised BrokerError.timeout) = pure (leg_result LegOutcome.ambiguous none)
  leg_placed leg quantity (raised _) = raise broker_error

  pub place_leg : LegIds → ℕ → Run LegResult
  unfolding leg_placed
  place_leg leg quantity = do
    tag ← in_store b (begin_leg cfg now trade_date leg)
    answer ← ask b (b.place_order (leg_request cfg TransactionType.sell leg quantity tag))
    leg_placed leg quantity answer

  -- `_auto_unwind`: whether the leg's order was bought back
  unwind_placed : LegIds → ℕ → BrokerResult String → Run Bool
  unwind_placed leg intent_id (raised _) = pure false
  unwind_placed leg intent_id (returned id) = do
    answer ← poll b cfg.fill_attempts id
    in_store b (record_unwind cfg now trade_date leg intent_id answer)

  pub auto_unwind : LegIds → ℕ → Run Bool
  unfolding unwind_placed
  auto_unwind leg quantity = do
    begun ← in_store b (begin_unwind cfg now trade_date leg quantity)
    answer ← ask b (b.place_order (leg_request cfg TransactionType.buy leg quantity begun.1))
    unwind_placed leg begun.0 answer

  pub record_break : ReconciliationBreakType → Run (Unit {0})
  record_break kind = in_store b (unit_of_work (record_break_row kind))

  pub fail : ℕ → EntryOutcome → String → Run EntryResult
  fail id outcome reason = do
    in_store b (fail_to_error reason id)
    pure (entry_result outcome (some id))

  -- `_finalize_open`
  prices : LegResult → LegResult → Result (ℤ × ℤ)
  prices ce pe = both ce.fill_price pe.fill_price
    where
      both : Option ℤ → Option ℤ → Result (ℤ × ℤ)
      both (some ce_price) (some pe_price) = ok (ce_price, pe_price)
      both _ _ = err runtime_error

  opened_or_not : ℕ → Result (Unit {0}) → Run EntryResult
  unfolding record_break
  opened_or_not id (ok done) = pure (entry_result EntryOutcome.entered (some id))
  opened_or_not id (err e) = do
    record_break ReconciliationBreakType.orphan_fill
    pure (entry_result EntryOutcome.persistence_divergence (some id))

  pub finalize_open : Services → DurableRecord → LegResult → LegResult → Run EntryResult
  unfolding prices opened_or_not
  finalize_open services durable ce pe = do
    fills ← lift (prices ce pe)
    levels ← lift (compute_thresholds (fills.0 +ℤ fills.1) cfg.target_pct cfg.sl_pct)
    written ← try_store b (
        open_position cfg now trade_date services.to_column services.commit_fails durable fills.0
          fills.1 levels)
    opened_or_not durable.position_id written

  -- the put did not fill: the call is bought back
  pub partial_entry : DurableRecord → ReconciliationBreakType → Run EntryResult
  unfolding fail
  partial_entry durable kind = do
    auto_unwind durable.ce durable.quantity
    record_break kind
    fail durable.position_id EntryOutcome.partial_entry_error "partial entry"

  after_put : Services → DurableRecord → LegResult → LegResult → LegOutcome → Run EntryResult
  after_put services durable ce pe LegOutcome.filled = finalize_open services durable ce pe
  after_put services durable ce pe LegOutcome.ambiguous =
      partial_entry durable ReconciliationBreakType.ambiguous_ack
  after_put services durable ce pe LegOutcome.failed =
      partial_entry durable ReconciliationBreakType.partial_entry

  pub after_call : Services → DurableRecord → LegResult → LegOutcome → Run EntryResult
  unfolding after_put partial_entry
  after_call services durable ce LegOutcome.failed =
      fail durable.position_id EntryOutcome.entry_rejected "CE leg failed before any exposure"
  after_call services durable ce LegOutcome.ambiguous = do
    record_break ReconciliationBreakType.ambiguous_ack
    fail durable.position_id EntryOutcome.ambiguous_error "CE leg outcome ambiguous"
  after_call services durable ce LegOutcome.filled = do
    pe ← place_leg durable.pe durable.quantity
    after_put services durable ce pe pe.outcome

  pub place_and_finalize : Services → DurableRecord → Run EntryResult
  unfolding after_call
  place_and_finalize services durable = do
    ce ← place_leg durable.ce durable.quantity
    after_call services durable ce ce.outcome

  -- `_should_skip_expiry_day`
  should_skip_expiry_day : Services → Result Bool
  should_skip_expiry_day services =
      if cfg.skip_on_expiry_day then on_expiry services.current_expiry else ok false
    where
      on_expiry : Result ℕ → Result Bool
      on_expiry (err e) = err e
      on_expiry (ok expiry) = ok (expiry == trade_date)

  -- `_check_risk`, whether it blocks
  abbrev pub blocked : Services → Bool
  blocked services = services.halted || not services.approved

  -- `_resolve_straddle`
  resolve_straddle : Services → Result StraddleStrikeSelection
  resolve_straddle services = resolved services.spot_ltp services.spec
    where
      resolved : Result ℤ → Result InstrumentSpec → Result StraddleStrikeSelection
      resolved (err e) spec = err e
      resolved (ok spot) (err e) = err e
      resolved (ok spot) (ok spec) =
          select services.find_option_contract cfg.instrument spec services.current_expiry spot

  created_or_lost : Services → Option DurableRecord → Run EntryResult
  created_or_lost services none = pure (entry_result EntryOutcome.skipped_already_exists none)
  created_or_lost services (some durable) = place_and_finalize services durable

  enter_approved : Services → Run EntryResult
  unfolding created_or_lost resolve_straddle
  enter_approved services = do
    selection ← lift (resolve_straddle services)
    durable ← in_store b (create_durable_record cfg now trade_date services.rival selection)
    created_or_lost services durable

  enter_checked : Services → Bool → Run EntryResult
  unfolding enter_approved
  enter_checked services true = pure (entry_result EntryOutcome.skipped_expiry_day none)
  enter_checked services false =
      if blocked services
      then pure (entry_result EntryOutcome.blocked_by_risk none)
      else enter_approved services

  enter_new : Services → Option Position → Run EntryResult
  unfolding enter_checked should_skip_expiry_day
  enter_new services (some p) = pure (entry_result EntryOutcome.skipped_already_exists none)
  enter_new services none = do
    skip ← lift (should_skip_expiry_day services)
    enter_checked services skip

  unfoldable pub enter : Services → Run EntryResult
  unfolding enter_new
  enter services = do
    existing ← in_store b (unit_of_work (gets (λ s. s.position)))
    enter_new services existing
