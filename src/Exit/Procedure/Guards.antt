-- ===== src/Exit/Procedure/Guards.antt =====
-- The exit of a position that is not open.
use trading_project.Base.{ℕ, ◌≡◌, refl, Bool, true, false, some}
use trading_project.Enums.{ExitReason}
use trading_project.Result.{Result, ok}
use trading_project.Action.{◌>>=◌}
use trading_project.Exit.Flow.{ExitConfig, ExitResult, position_of_day}
use trading_project.Exit.Flow.Frame.{idle_result, prepare_exit-idle}
use trading_project.Runtime.{BrokerPort, World, in_store}
use trading_project.Exit.Procedure.{close_prepared, exit_body, released, exit}

module _ (b : BrokerPort) (cfg : ExitConfig) (now trade_date : ℕ) (commit_fails : Bool)
    (reason : ExitReason) where
  abbrev Exit : World b → Result ExitResult × World b
  Exit = exit b cfg now trade_date commit_fails reason

  exit_body-idle :
      (w : World b) (r : ExitResult)
      → idle_result (position_of_day cfg now trade_date w.store.position) ≡ some r
      → exit_body b cfg now trade_date commit_fails reason w ≡ (ok r, w)
  unfolding exit_body in_store ◌>>=◌ close_prepared
  exit_body-idle w r h = rw (prepare_exit-idle cfg now trade_date reason w.store r h)

  -- With no position of the instance for the day, or one that is neither OPEN nor EXIT_PENDING, the exit says so and touches
  -- neither the database nor the broker.
  pub exit-idle :
      (w : World b) (r : ExitResult)
      → w.locked ≡ false
      → idle_result (position_of_day cfg now trade_date w.store.position) ≡ some r
      → let (answer, w') = Exit w in (answer ≡ ok r) × (w'.store ≡ w.store) × (w'.broker ≡ w.broker)
  unfolding exit released
  exit-idle w r free idle =
      rw free (rw (exit_body-idle (record w { locked = true }) r idle) (refl, refl, refl))
