-- ===== src/Day.antt =====
-- A day of an instance: `EntryLogic.enter`, and then `ExitLogic.exit` of the position that it opened.
mod Tests
use trading_project.Base.{
  ℕ, ◌∙◌, sym, ◌≡◌, ◌≢◌, refl, arith, inl, Bool, false, Option, none, some, [],
}
use trading_project.Enums.{PositionState, ExitReason}
use trading_project.Models.{Position}
use trading_project.Result.{Result, ok, err}
use trading_project.Runtime.{BrokerPort, World}
use trading_project.Runtime.Recording.{recording}
use trading_project.Strike.{StraddleStrikeSelection}
use trading_project.Entry.{
  EntryConfig, Services, EntryOutcome, EntryResult, DurableRecord, entry_result,
}
use trading_project.Entry.Procedure.{enter}
use trading_project.Entry.Procedure.Outcome.{
  Placed, entered, diverged, rejected, ambiguous, partial, raised,
}
use trading_project.Entry.Procedure.Settled.{
  Settled as EntrySettled, skipped, expiry_day, blocked_by_risk, placed, raised as entry_raised,
  enter-Settled,
}
use trading_project.Exit.Flow.{ExitConfig}
use trading_project.Exit.Procedure.{exit}
use trading_project.Exit.Procedure.Outcome.{Settled as ExitSettled, exit-Settled}

module _ (b : BrokerPort) (cfg : EntryConfig) (trade_date : ℕ) where
  -- The entry opened the position of the row, of its instance and its day, or it did not enter.
  pub data Opens : Result EntryResult → World (recording b) → Type 0 where
    opens :
        {r : Result EntryResult} {w : World (recording b)} (p : Position)
        → r ≡ ok (entry_result EntryOutcome.entered (some p.id))
        → p.state ≡ PositionState.opened
        → p.strategy_instance_id ≡ cfg.instance_id
        → p.trade_date ≡ trade_date
        → w.store.position ≡ some p
        → Opens r w
    stays_out :
        {r : Result EntryResult} {w : World (recording b)}
        → ((id : Option ℕ) → r ≢ ok (entry_result EntryOutcome.entered id))
        → Opens r w

  module _ (now : ℕ) (services : Services) where
    Placed-Opens :
        (selection : StraddleStrikeSelection) (durable : DurableRecord) (r : Result EntryResult)
        (w : World (recording b))
        → Placed b cfg now trade_date services selection durable r w
        → Opens r w
    Placed-Opens selection durable r w
          (entered ce_price pe_price levels ce pe commits fills known at) =
        opens _ refl refl refl refl at.row
    Placed-Opens selection durable r w (diverged ce pe before at breaks) = stays_out (λ id e. cc)
    Placed-Opens selection durable r w (rejected ce log failed) = stays_out (λ id e. cc)
    Placed-Opens selection durable r w (ambiguous ce before log breaks failed) =
        stays_out (λ id e. cc)
    Placed-Opens selection durable r w (partial ce pe back before kind why log breaks failed) =
        stays_out (λ id e. cc)
    Placed-Opens selection durable r w (raised l orders at) = stays_out (λ id e. cc)

    settled-Opens :
        (q : Option Position) (r : Result EntryResult) (w : World (recording b))
        → EntrySettled b cfg now trade_date services q r w
        → Opens r w
    settled-Opens q r w (skipped p why at) = stays_out (λ id e. cc)
    settled-Opens q r w (expiry_day set day at) = stays_out (λ id e. cc)
    settled-Opens q r w (blocked_by_risk why at) = stays_out (λ id e. cc)
    settled-Opens q r w (placed selection durable free approved resolved same h) =
        Placed-Opens selection durable r w h
    settled-Opens q r w (entry_raised at) = stays_out (λ id e. cc)

    pub enter-Opens :
        (w : World (recording b))
        → w.broker.0 ≡ []
        → let (r, w') = enter (recording b) cfg now trade_date services w in Opens r w'
    enter-Opens w log =
        settled-Opens w.store.position _ _ (enter-Settled b cfg now trade_date services w log)

    module _ (exit_cfg : ExitConfig) (own : exit_cfg.instance_id ≡ cfg.instance_id) (later : ℕ)
        (commit_fails : Bool) (reason : ExitReason) where
      -- What an entry's answer, and the world that it left, say of an exit that finds its lock free.
      pub data CanLeave : Result EntryResult → World (recording b) → Type 0 where
        in_a_position :
            {r : Result EntryResult} {w : World (recording b)} (p : Position)
            → r ≡ ok (entry_result EntryOutcome.entered (some p.id))
            → (let (answer, w') =
                  exit
                    (recording b)
                    exit_cfg
                    later
                    trade_date
                    commit_fails
                    reason
                    (record w { locked = false }) in
                ExitSettled later commit_fails reason p answer w'.store)
            → CanLeave r w
        stayed_out :
            {r : Result EntryResult} {w : World (recording b)}
            → ((id : Option ℕ) → r ≢ ok (entry_result EntryOutcome.entered id))
            → CanLeave r w

      Opens-CanLeave : (r : Result EntryResult) (w : World (recording b)) → Opens r w → CanLeave r w
      Opens-CanLeave r w (opens p answer is_open of_instance of_day row) = in_a_position p answer (
          exit-Settled (recording b) exit_cfg later trade_date commit_fails reason p
            (record w { locked = false }) refl row (of_instance ∙ sym own) of_day (inl is_open))
      Opens-CanLeave r w (stays_out never) = stayed_out never

      -- Whatever an entry comes to, it either does not answer ENTERED, or there is the position that it
      -- names, and the exit of the same instance on the same day at the same broker, which finds its lock
      -- free, looks that position up and settles it: the exit logic takes over what the entry logic
      -- left.
      pub enter-CanLeave :
          (w : World (recording b))
          → w.broker.0 ≡ []
          → let (r, w') = enter (recording b) cfg now trade_date services w in CanLeave r w'
      enter-CanLeave w log = Opens-CanLeave _ _ (enter-Opens w log)
