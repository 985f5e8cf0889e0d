-- ===== src/Exit/Finish.antt =====
-- The database side of the ending of an exit: `_finalize_closed`.
pub mod Ending
use trading_project.Base.{
  ℕ, zero, suc, ◌≡◌, String, Bool, true, false, Option, none, some, List, [], ◌∷◌, ◌++◌, all, any,
  is_some, not, ◌||◌, nat_eq, ◌==◌, if◌then◌else◌,
}
use trading_project.Base.Int.{ℤ, pos, ◌+ℤ◌}
use trading_project.Base.Dict.{Dict, values}
use trading_project.Enums.{
  OptionType, PositionState, position_state_eq, ExitReason, TradeLegStatus, StateTransitionActor,
  OrderStatus, ReconciliationBreakType,
}
use trading_project.Models.{Position, Trade, OrderIntent, LegKey, Tag}
use trading_project.Result.{
  Result, ok, err, guard, value_error, missing_fill_price, runtime_error, broker_error,
  concurrent_modification,
}
use trading_project.Action.{Action, pure, raise, lift, gets, ◌>>=◌, ◌>>◌, unit_of_work}
use trading_project.Broker.{
  PlaceOrderRequest, BrokerOrder, BrokerError, BrokerResult, returned, raised,
}
use trading_project.Orders.{is_terminal_status}
use trading_project.Store.{
  Store, Db, get_intent_or_raise, mark_broker_call_started, mark_failed, set_position,
  transition_position, record_break_row, freeze_instance,
}
use trading_project.Store.Failure.{same_row}
use trading_project.Exit.Flow.{
  ExitConfig, ExitOutcome, ExitResult, LegCloseOutcome, LegCloseResult, ExitLeg, Prepared, prepared,
  finished, actor_by_reason, leg_result, result, leg_key, prepare_exit, record_close_fill,
  record_refused_close, record_rejected_close, acknowledge_close, close_request, read_leg,
}

-- The sums of the exit prices and of the realized amounts; `none` if a leg lacks one of the two.
pub totals : List Trade → Option (ℤ × ℤ)
totals [] = some (pos 0, pos 0)
totals (t ∷ ts) = add_totals t.exit_price t.realized_pnl (totals ts)
  where
    add_totals : Option ℤ → Option ℤ → Option (ℤ × ℤ) → Option (ℤ × ℤ)
    add_totals (some price) (some pnl) (some (prices, pnls)) = some (price +ℤ prices, pnl +ℤ pnls)
    add_totals _ _ _ = none

module _ (now : ℕ) (commit_fails : Bool) where
  closing : Position → ExitReason → Option (ℤ × ℤ) → Db ℤ
  closing p reason none = raise missing_fill_price
  closing p reason (some (prices, pnls)) = do
    transition_position
        (record p {
          combined_exit_premium = some prices;
          realized_pnl = some pnls;
          exit_reason = some reason;
          exit_completed_at = some now;
        })
        PositionState.closed (actor_by_reason reason) (some "exit complete")
    lift (guard (not commit_fails) concurrent_modification)
    pure pnls

  finalize_row : ExitReason → Option Position → Db ℤ
  unfolding closing
  finalize_row reason none = raise runtime_error
  finalize_row reason (some p) = do closing p reason (← gets (λ s. totals s.trades))

  -- the `try` of `_finalize_closed`
  pub finalize : ℕ → ExitReason → Db ℤ
  unfolding finalize_row
  finalize id reason = unit_of_work do finalize_row reason (← gets (λ s. same_row id s.position))
