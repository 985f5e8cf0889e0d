-- ===== src/Exit/Finish/Ending.antt =====
-- The two endings of an exit on the store: the final write of a closed position, and the move to
-- ERROR that freezes the instance.
use trading_project.Base.{
  ℕ, ◌≡◌, ◌⊎◌, inl, inr, refl, Bool, true, false, Option, none, some, nat_eq, Bool-cases,
}
use trading_project.Base.Int.{ℤ}
use trading_project.Enums.{PositionState, position_state_eq, ExitReason}
use trading_project.Models.{Position}
use trading_project.Result.{Result, ok, err, Error}
use trading_project.Action.{◌>>=◌, unit_of_work, committed}
use trading_project.Store.{Store}
use trading_project.Store.Moves.{finish_exit}
use trading_project.Exit.Flow.{actor_by_reason}
use trading_project.Store.Failure.{same_row_id}
use trading_project.Exit.Finish.{totals, closing, finalize_row, finalize}

-- The row of a position whose exit is complete, and of one whose exit failed.
abbrev pub closed_row : ℕ → ExitReason → ℤ → ℤ → Position → Position
closed_row now reason prices pnl p = record p {
  state = PositionState.closed;
  combined_exit_premium = some prices;
  realized_pnl = some pnl;
  exit_reason = some reason;
  exit_completed_at = some now;
}

module _ (now : ℕ) (commit_fails : Bool) (p : Position) (s : Store) where
  -- What the final write may come to.
  pub data Finalized (reason : ExitReason) : Result ℤ × Store → Type 0 where
    written :
        {s' : Store} {prices pnl : ℤ}
        → commit_fails ≡ false
        → totals s.trades ≡ some (prices, pnl)
        → s'.trades ≡ s.trades
        → s'.position ≡ some (closed_row now reason prices pnl p)
        → Finalized reason (ok pnl, s')
    refused :
        {e : Error} → (commit_fails ≡ true) ⊎ (totals s.trades ≡ none) → Finalized reason (err e, s)

  closing-totals :
      (reason : ExitReason) (t : Option (ℤ × ℤ))
      → totals s.trades ≡ t
      → p.state ≡ PositionState.exit_pending
      → Finalized reason (
          committed (closing now commit_fails p reason t) s (closing now commit_fails p reason t s))
  unfolding closing ◌>>=◌ committed
  closing-totals reason none h pending = refused (inr h)
  closing-totals reason (some (prices, pnl)) h pending =
      rw
        (finish_exit
          (record p {
            combined_exit_premium = some prices;
            realized_pnl = some pnl;
            exit_reason = some reason;
            exit_completed_at = some now;
          })
          (actor_by_reason reason) (some "exit complete") s pending)
        (elim (Bool-cases commit_fails) [
          | inl fails ↦ rw fails (refused (inl refl))
          | inr commits ↦ rw commits (written refl h refl refl)
        ])

  pub finalize-Finalized :
      (reason : ExitReason)
      → s.position ≡ some p
      → p.state ≡ PositionState.exit_pending
      → Finalized reason (finalize now commit_fails p.id reason s)
  unfolding finalize finalize_row unit_of_work ◌>>=◌
  finalize-Finalized reason h pending =
      rw (same_row_id p s h) (closing-totals reason (totals s.trades) refl pending)
