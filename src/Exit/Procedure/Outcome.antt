-- ===== src/Exit/Procedure/Outcome.antt =====
-- What an exit comes to: the result that it returns says how the position row was left.
use trading_project.Base.{
  ℕ, ◌≡◌, ◌⊎◌, inl, inr, refl, Bool, true, false, Option, none, some, List, [], ◌∷◌, ◌++◌, all,
  nat_eq, Bool-cases,
}
use trading_project.Base.Int.{ℤ}
use trading_project.Base.Dict.{values}
use trading_project.Enums.{InstanceStatus, PositionState, ExitReason, ReconciliationBreakType}
use trading_project.Models.{Position}
use trading_project.Result.{Result, ok, err, Error}
use trading_project.Action.{◌>>=◌, continue, unit_of_work, committed}
use trading_project.Store.{Store, record_break_row, frozen_status}
use trading_project.Exit.Flow.{
  ExitConfig, ExitOutcome, ExitResult, LegCloseResult, Prepared, result, prepare_exit,
}
use trading_project.Exit.Flow.Frame.{Began, began, prepare_exit-Began}
use trading_project.Exit.Finish.{totals, finalize}
use trading_project.Runtime.{BrokerPort, World, in_store, try_store}
use trading_project.Exit.Procedure.{
  close_legs, finalized, finalize_closed, is_closed, incomplete, conclude, close_prepared,
  exit_body, released, exit,
}
use trading_project.Exit.Procedure.Frame.{close_legs-Stays}
use trading_project.Store.Failure.{failed_row, fail_to_error_lem}
use trading_project.Exit.Finish.Ending.{closed_row, Finalized, written, refused, finalize-Finalized}

abbrev pub pending_row : Position → Position
pending_row p = record p { state = PositionState.exit_pending }

abbrev pub exited_result : Position → ℤ → ExitResult
exited_result p pnl = record {
  outcome = ExitOutcome.exited;
  position_id = some p.id;
  realized_pnl = some pnl;
}

-- How the row `p` is left, by the answer.
module _ (now : ℕ) (commit_fails : Bool) (reason : ExitReason) (p : Position) where
  pub data Settled : Result ExitResult → Store → Type 0 where
    exited :
        {s : Store} {prices pnl : ℤ}
        → commit_fails ≡ false
        → totals s.trades ≡ some (prices, pnl)
        → s.position ≡ some (closed_row now reason prices pnl p)
        → Settled (ok (exited_result p pnl)) s
    diverged :
        {s : Store} (before : List ReconciliationBreakType)
        → (commit_fails ≡ true) ⊎ (totals s.trades ≡ none)
        → s.position ≡ some (pending_row p)
        → s.breaks ≡ before ++ ReconciliationBreakType.other ∷ []
        → Settled (ok (result ExitOutcome.persistence_divergence (some p.id))) s
    ambiguous :
        {s : Store} (before : List ReconciliationBreakType) (status : Option InstanceStatus)
        → s.position ≡ some (failed_row "exit incomplete" p)
        → s.breaks ≡ before ++ ReconciliationBreakType.ambiguous_ack ∷ []
        → s.instance_status ≡ frozen_status status
        → Settled (ok (result ExitOutcome.ambiguous_error (some p.id))) s
    partial :
        {s : Store} (before : List ReconciliationBreakType) (status : Option InstanceStatus)
        → s.position ≡ some (failed_row "exit incomplete" p)
        → s.breaks ≡ before ++ ReconciliationBreakType.other ∷ []
        → s.instance_status ≡ frozen_status status
        → Settled (ok (result ExitOutcome.partial_exit_error (some p.id))) s
    raised :
        {s : Store} {e : Error}
        → (s.position ≡ some p) ⊎ (s.position ≡ some (pending_row p))
        → Settled (err e) s

module _ (b : BrokerPort) (cfg : ExitConfig) (now trade_date : ℕ) (commit_fails : Bool)
    (reason : ExitReason) (p : Position) where
  abbrev Ends : (World b → Result ExitResult × World b) → World b → Type 0
  Ends m w = let (r, w') = m w in Settled now commit_fails reason p r w'.store

  finalize_closed-Settled :
      (w : World b) (m : Result ℤ × Store)
      → finalize now commit_fails p.id reason w.store ≡ m
      → w.store.position ≡ some (pending_row p)
      → Finalized now commit_fails (pending_row p) w.store reason m
      → Ends (finalize_closed b cfg now trade_date commit_fails p.id reason) w
  unfolding finalize_closed finalized try_store in_store ◌>>=◌ unit_of_work committed
      record_break_row
  finalize_closed-Settled w (ok pnl, s') e h (written commits sum same row) =
      rw e (exited commits (rw same sum) row)
  finalize_closed-Settled w (err x, s) e h (refused why) = rw e (diverged w.store.breaks why h refl)

  incomplete-Settled :
      (w : World b) (unclear : Bool)
      → w.store.position ≡ some (pending_row p)
      → Ends (incomplete b cfg now trade_date commit_fails p.id unclear) w
  unfolding incomplete in_store ◌>>=◌ unit_of_work committed record_break_row
  incomplete-Settled w true h =
      rw
        (fail_to_error_lem (pending_row p)
          (record w.store { breaks = w.store.breaks ++ ReconciliationBreakType.ambiguous_ack ∷ [] })
          "exit incomplete" h (λ e. cc) (λ e. cc))
        (ambiguous w.store.breaks w.store.instance_status refl refl refl)
  incomplete-Settled w false h =
      rw
        (fail_to_error_lem (pending_row p)
          (record w.store { breaks = w.store.breaks ++ ReconciliationBreakType.other ∷ [] })
          "exit incomplete" h (λ e. cc) (λ e. cc))
        (partial w.store.breaks w.store.instance_status refl refl refl)

  conclude-Settled :
      (w : World b) (rs : List LegCloseResult)
      → w.store.position ≡ some (pending_row p)
      → Ends (conclude b cfg now trade_date commit_fails p.id reason rs) w
  unfolding conclude
  conclude-Settled w rs h =
      elim (Bool-cases (all (is_closed b cfg now trade_date commit_fails) rs)) [
        | inl closed ↦ rw closed (
            finalize_closed-Settled w (finalize now commit_fails p.id reason w.store) refl h
              (finalize-Finalized now commit_fails (pending_row p) w.store reason h refl))
        | inr not_closed ↦ rw not_closed (incomplete-Settled w _ h)
      ]

  concluded-Settled :
      (r : Result (List LegCloseResult)) (w : World b)
      → w.store.position ≡ some (pending_row p)
      → Ends (continue r (conclude b cfg now trade_date commit_fails p.id reason)) w
  concluded-Settled (ok rs) w h = conclude-Settled w rs h
  concluded-Settled (err e) w h = raised (inr h)

  close_prepared-Settled :
      (w : World b) (m : Result Prepared × Store)
      → unit_of_work (prepare_exit cfg now trade_date reason) w.store ≡ m
      → Began p m
      → Ends (exit_body b cfg now trade_date commit_fails reason) w
  unfolding exit_body in_store ◌>>=◌ close_prepared
  close_prepared-Settled w (m, s) e (began legs h) =
      let w' : World b = record w { store = s } in
      let kept =
        (close_legs-Stays b (λ _. Unit)
            (record { get_order = λ id s h. tt; find_order = λ tag s h. tt }) (some (pending_row p))
            cfg now trade_date (λ r s h. tt) (values legs)).from
          w' (record { broker_side = tt; row = h }) in
      let (r, w'') = close_legs b cfg now trade_date (values legs) w' in
      rw e (concluded-Settled r w'' kept.row)
  close_prepared-Settled w (m, s) e (Began.refused h) = rw e (raised (inl h))

  released-Settled :
      (m : Result ExitResult × World b)
      → Settled now commit_fails reason p m.0 m.1.store
      → Settled now commit_fails reason p
          (released b cfg now trade_date commit_fails m).0
          (released b cfg now trade_date commit_fails m).1.store
  unfolding released
  released-Settled (r, w) h = h

  -- An exit of the open position of its instance for the day, which another thread is not already
  -- closing, always ends in one of these ways. EXITED: the row is CLOSED, with the sums over the legs that the database holds.
  -- Divergence: the final write failed or a leg lacks its amount, the row is left in EXIT_PENDING,
  -- and a break is recorded. A failed or ambiguous leg: the row is in ERROR, a break of the kind is
  -- recorded and the instance, if there is one, is frozen. If the exit raised, the row is as it was
  -- or in EXIT_PENDING.
  pub exit-Settled :
      (w : World b)
      → w.locked ≡ false
      → w.store.position ≡ some p
      → p.strategy_instance_id ≡ cfg.instance_id
      → p.trade_date ≡ trade_date
      → (p.state ≡ PositionState.opened) ⊎ (p.state ≡ PositionState.exit_pending)
      → let (r, w') = exit b cfg now trade_date commit_fails reason w in
        Settled now commit_fails reason p r w'.store
  unfolding exit
  exit-Settled w unlocked row own today live =
      let w' : World b = record w { locked = true } in
      let ends =
        close_prepared-Settled w' (unit_of_work (prepare_exit cfg now trade_date reason) w.store)
          refl (prepare_exit-Began cfg now trade_date reason p w.store row own today live) in
      rw unlocked (released-Settled (exit_body b cfg now trade_date commit_fails reason w') ends)
