-- ===== src/Exit/Procedure.antt =====
-- `ExitLogic.exit` and what it does at the broker, over the database writes of Exit/Flow.antt.
pub mod Frame
pub mod Adoption
pub mod Outcome
pub mod Guards
use trading_project.Base.{
  ℕ, zero, suc, ◌≡◌, String, Bool, true, false, Option, none, some, List, [], ◌∷◌, ◌++◌, all, any,
  is_some, not, ◌||◌, nat_eq, ◌==◌, if◌then◌else◌,
}
use trading_project.Base.Int.{ℤ, pos, ◌+ℤ◌}
use trading_project.Base.Dict.{Dict, values}
use trading_project.Enums.{
  OptionType, PositionState, position_state_eq, ExitReason, TradeLegStatus, StateTransitionActor,
  OrderStatus, ReconciliationBreakType,
}
use trading_project.Models.{Position, Trade, OrderIntent, LegKey, Tag}
use trading_project.Result.{
  Result, ok, err, guard, value_error, missing_fill_price, runtime_error, broker_error,
  concurrent_modification,
}
use trading_project.Action.{Action, pure, raise, lift, gets, ◌>>=◌, ◌>>◌, unit_of_work}
use trading_project.Broker.{
  PlaceOrderRequest, BrokerOrder, BrokerError, BrokerResult, returned, raised,
}
use trading_project.Orders.{is_terminal_status}
use trading_project.Store.{
  Store, Db, get_intent_or_raise, mark_broker_call_started, mark_failed, set_position,
  transition_position, record_break_row, freeze_instance,
}
use trading_project.Store.Failure.{fail_to_error}
use trading_project.Exit.Finish.{finalize}
use trading_project.Runtime.{BrokerPort, World, try_store, in_store, ask, poll, usable_price}
use trading_project.Exit.Flow.{
  ExitConfig, ExitOutcome, ExitResult, LegCloseOutcome, LegCloseResult, ExitLeg, Prepared, prepared,
  finished, actor_by_reason, leg_result, result, leg_key, prepare_exit, record_close_fill,
  record_refused_close, record_rejected_close, acknowledge_close, close_request, read_leg,
}

module _ (b : BrokerPort) where
  abbrev Run : Type 0 → Type 0
  Run A = Action (World b) A

  module _ (cfg : ExitConfig) (now trade_date : ℕ) where
    -- a COMPLETE close: recorded at a usable price, and otherwise left to reconciliation
    complete_close : ExitLeg → String → BrokerOrder → Option ℤ → Run LegCloseResult
    complete_close leg id bo none = pure (leg_result LegCloseOutcome.ambiguous none)
    complete_close leg id bo (some price) = do
      in_store b (record_close_fill cfg now trade_date leg id price bo)
      pure (leg_result LegCloseOutcome.closed (some price))

    is_complete : OrderStatus → Bool
    is_complete OrderStatus.complete = true
    is_complete _ = false

    -- `_adopt_existing_order` once the order is known
    adopt_polled : ExitLeg → Option BrokerOrder → Run LegCloseResult
    adopt_polled leg none = pure (leg_result LegCloseOutcome.ambiguous none)
    adopt_polled leg (some bo) =
        if is_complete bo.status
        then complete_close leg bo.broker_order_id bo (usable_price bo.average_price)
        else pure (leg_result LegCloseOutcome.ambiguous none)

    pub adopt_found : ExitLeg → BrokerResult (Option BrokerOrder) → Run (Option LegCloseResult)
    adopt_found leg (raised _) = pure (some (leg_result LegCloseOutcome.ambiguous none))
    adopt_found leg (returned none) = pure none
    adopt_found leg (returned (some existing)) = do
      terminal ← poll b cfg.fill_attempts existing.broker_order_id
      r ← adopt_polled leg terminal
      pure (some r)

    pub adopt_existing_order : ExitLeg → Tag → Run (Option LegCloseResult)
    unfolding adopt_found
    adopt_existing_order leg tag = do adopt_found leg (← ask b (b.find_order_by_tag tag))

    -- `_confirm_close`
    confirm_polled : ExitLeg → String → Option BrokerOrder → Run LegCloseResult
    confirm_polled leg id none = pure (leg_result LegCloseOutcome.ambiguous none)
    confirm_polled leg id (some bo) =
        if is_complete bo.status
        then complete_close leg id bo (usable_price bo.average_price)
        else (do
          in_store b (record_rejected_close cfg now trade_date leg id bo)
          pure (leg_result LegCloseOutcome.failed none))

    pub confirm_close : ExitLeg → String → Run LegCloseResult
    confirm_close leg id = do
      in_store b (acknowledge_close cfg now trade_date leg id)
      confirm_polled leg id (← poll b cfg.fill_attempts id)

    -- one attempt's answer; `again` is the rest of the loop
    placed : ExitLeg → Run LegCloseResult → BrokerResult String → Run LegCloseResult
    placed leg again (returned id) = confirm_close leg id
    placed leg again (raised BrokerError.order_rejected) = do
      in_store b (record_refused_close cfg now trade_date leg)
      pure (leg_result LegCloseOutcome.failed none)
    placed leg again (raised BrokerError.invalid_order_request) = do
      in_store b (record_refused_close cfg now trade_date leg)
      pure (leg_result LegCloseOutcome.failed none)
    placed leg again (raised BrokerError.connection) = again
    placed leg again (raised BrokerError.rate_limit_exceeded) = again
    placed leg again (raised BrokerError.timeout) = pure (leg_result LegCloseOutcome.ambiguous none)
    placed leg again (raised _) = raise broker_error

    -- the loop of `_place_close_with_retries`, by the attempts that are left
    place_close : ℕ → ExitLeg → Tag → Run LegCloseResult
    place_close zero leg broker_tag = do
      in_store b (unit_of_work (mark_failed leg.intent_id))
      pure (leg_result LegCloseOutcome.failed none)
    place_close (suc n) leg broker_tag =
        let again = place_close n leg broker_tag in
        do
          answer ← ask b (b.place_order (close_request cfg now trade_date leg broker_tag))
          placed leg again answer

    pub place_close_with_retries : ExitLeg → Tag → Run LegCloseResult
    place_close_with_retries leg broker_tag = do
      in_store b (unit_of_work (mark_broker_call_started leg.intent_id now))
      place_close cfg.close_attempts leg broker_tag

    or_place : ExitLeg → Tag → Option LegCloseResult → Run LegCloseResult
    or_place leg broker_tag (some r) = pure r
    or_place leg broker_tag none = place_close_with_retries leg broker_tag

    -- an intent whose broker call was begun may have an order already
    adopt_or_place : ExitLeg → OrderIntent → Run LegCloseResult
    adopt_or_place leg intent =
        if is_some intent.broker_call_started_at
        then (do or_place leg intent.broker_tag (← adopt_existing_order leg intent.broker_tag))
        else place_close_with_retries leg intent.broker_tag

    -- `_close_leg` for a leg that is not closed yet
    close_open_leg : ExitLeg → Run LegCloseResult
    close_open_leg leg = do
      intent ← in_store b (unit_of_work (get_intent_or_raise leg.intent_id))
      adopt_or_place leg intent

    close_read_leg : ExitLeg → TradeLegStatus × Option ℤ → Run LegCloseResult
    close_read_leg leg (TradeLegStatus.closed, price) =
        pure (leg_result LegCloseOutcome.closed price)
    close_read_leg leg (_, price) = close_open_leg leg

    pub close_leg : ExitLeg → Run LegCloseResult
    close_leg leg = do
      status ← in_store b (unit_of_work (read_leg cfg now trade_date leg))
      close_read_leg leg status

    -- the loop over the legs; one leg's failure does not stop the next
    pub close_legs : List ExitLeg → Run (List LegCloseResult)
    close_legs [] = pure []
    close_legs (leg ∷ legs) = do r ← close_leg leg; rs ← close_legs legs; pure (r ∷ rs)

module _ (b : BrokerPort) (cfg : ExitConfig) (now trade_date : ℕ) (commit_fails : Bool) where
  finalized : ℕ → Result ℤ → Run b ExitResult
  finalized id (ok realized) =
      pure (record {
        outcome = ExitOutcome.exited;
        position_id = some id;
        realized_pnl = some realized;
      })
  finalized id (err e) = do
    in_store b (unit_of_work (record_break_row ReconciliationBreakType.other))
    pure (result ExitOutcome.persistence_divergence (some id))

  pub finalize_closed : ℕ → ExitReason → Run b ExitResult
  unfolding finalized
  finalize_closed id reason = do finalized id (← try_store b (finalize now commit_fails id reason))

  is_closed : LegCloseResult → Bool
  is_closed r = elim r.outcome [ LegCloseOutcome.closed ↦ true | _ ↦ false ]

  is_ambiguous : LegCloseResult → Bool
  is_ambiguous r = elim r.outcome [ LegCloseOutcome.ambiguous ↦ true | _ ↦ false ]

  pub incomplete : ℕ → Bool → Run b ExitResult
  incomplete id unclear = do
    in_store b (
        unit_of_work (
          record_break_row (
            if unclear
            then ReconciliationBreakType.ambiguous_ack
            else ReconciliationBreakType.other)))
    in_store b (fail_to_error "exit incomplete" id)
    pure (
        result (if unclear then ExitOutcome.ambiguous_error else ExitOutcome.partial_exit_error)
          (some id))

  conclude : ℕ → ExitReason → List LegCloseResult → Run b ExitResult
  unfolding is_closed is_ambiguous
  conclude id reason rs =
      if all is_closed rs then finalize_closed id reason else incomplete id (any is_ambiguous rs)

  close_prepared : ExitReason → Prepared → Run b ExitResult
  close_prepared reason (finished r) = pure r
  close_prepared reason (prepared id legs) = do
    rs ← close_legs b cfg now trade_date (values legs)
    conclude id reason rs

  -- what runs under the lock
  pub exit_body : ExitReason → Run b ExitResult
  unfolding conclude close_prepared
  exit_body reason = do
    found ← in_store b (unit_of_work (prepare_exit cfg now trade_date reason))
    close_prepared reason found

  abbrev set_lock : Bool → World b → World b
  set_lock held w = record w { locked = held }

  released : Result ExitResult × World b → Result ExitResult × World b
  released (r, w) = (r, set_lock false w)

  -- `ExitLogic.exit`; the `finally` releases the lock also where the body raised
  unfoldable pub exit : ExitReason → Run b ExitResult
  unfolding released exit_body
  exit reason w =
      if w.locked
      then (ok (result ExitOutcome.skipped_exit_in_progress none), w)
      else released (exit_body reason (set_lock true w))
