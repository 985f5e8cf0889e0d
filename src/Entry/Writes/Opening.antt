-- ===== src/Entry/Writes/Opening.antt =====
-- The write that turns a filled entry into an open position: all of it, or none.
use trading_project.Base.{ℕ, ◌≡◌, refl, Bool, true, false, not, Option, none, some}
use trading_project.Base.Int.{ℤ, ◌+ℤ◌}
use trading_project.Enums.{PositionState, StateTransitionActor}
use trading_project.Models.{Position}
use trading_project.Result.{Error, Result, ok, err, guard, concurrent_modification}
use trading_project.Action.{lift, ◌>>=◌}
use trading_project.Action.Triple.{Triple, Triple-bind, Keeps-then, Triple-unit_of_work}
use trading_project.Premium.Thresholds.{PremiumThresholds}
use trading_project.Store.{Store, transition_position}
use trading_project.Store.Failure.{same_row, same_row_id}
use trading_project.Store.Frame.{Holds, mark_confirmed-Holds}
use trading_project.Store.Moves.{open_entry}
use trading_project.Entry.{EntryConfig, DurableRecord}
use trading_project.Entry.Writes.{filled_row, open_row, open_position}
use trading_project.Entry.Writes.Frame.{open_trade-Holds}

module _ (cfg : EntryConfig) (now trade_date : ℕ) (to_column : ℤ → ℤ) (commit_fails : Bool)
    (durable : DurableRecord) (ce_price pe_price : ℤ) (levels : PremiumThresholds)
    (p : Position) where
  -- the row of the open position
  abbrev pub opened_row : Position
  opened_row = record (filled_row cfg now trade_date to_column (ce_price +ℤ pe_price) levels p) {
    state = PositionState.opened;
  }

  pub data Opened : Result (Unit {0}) → Store → Type 0 where
    opened : {s : Store} → commit_fails ≡ false → s.position ≡ some opened_row → Opened (ok tt) s
    refused : {s : Store} {e : Error} → s.position ≡ some p → Opened (err e) s

  Inside : Result (Unit {0}) → Store → Type 0
  Inside (ok done) s = Opened (ok tt) s
  Inside (err e) s = Unit

  Moved : Result (Unit {0}) → Store → Type 0
  Moved (ok done) s = Holds (some opened_row) s
  Moved (err e) s = Unit

  committed-Inside :
      (fails : Bool)
      → commit_fails ≡ fails
      → Triple (Holds (some opened_row)) (lift (guard (not fails) concurrent_modification)) Inside
  unfolding Inside
  committed-Inside true e = record { from = λ s h. tt }
  committed-Inside false e = record { from = λ s h. opened e h }

  move-Moved :
      p.state ≡ PositionState.entry_pending
      → Triple
          (Holds (some p))
          (transition_position
            (filled_row cfg now trade_date to_column (ce_price +ℤ pe_price) levels p)
            PositionState.opened
            StateTransitionActor.strategy
            (some "entry filled"))
          Moved
  unfolding Moved
  move-Moved h = record {
    from = λ s row.
        rw
          (open_entry (filled_row cfg now trade_date to_column (ce_price +ℤ pe_price) levels p)
            StateTransitionActor.strategy (some "entry filled") s h)
          refl;
  }

  open_row-Inside :
      p.state ≡ PositionState.entry_pending
      → Triple
          (Holds (some p))
          (open_row cfg now trade_date to_column commit_fails durable ce_price pe_price levels
            (some p))
          Inside
  unfolding open_row Inside Moved
  open_row-Inside h =
      let q = some opened_row in
      Keeps-then _ _ (open_trade-Holds cfg now trade_date (some p) durable.ce ce_price)
        (λ e s h. tt)
        (λ _.
          Keeps-then _ _ (open_trade-Holds cfg now trade_date (some p) durable.pe pe_price)
            (λ e s h. tt)
            (λ _.
              Triple-bind Moved _ _ (move-Moved h) (λ e s h. tt)
                (λ _.
                  Keeps-then _ _ (mark_confirmed-Holds q durable.ce.intent_id) (λ e s h. tt)
                    (λ _.
                      Keeps-then _ _ (mark_confirmed-Holds q durable.pe.intent_id) (λ e s h. tt)
                        (λ _. committed-Inside commit_fails refl)))))

  found-Inside :
      (row : Option Position) (s : Store)
      → row ≡ some p
      → p.state ≡ PositionState.entry_pending
      → Holds (some p) s
      → let (r, t) =
          open_row cfg now trade_date to_column commit_fails durable ce_price pe_price levels row
            s in
        Inside r t
  found-Inside none s e h holds = cc
  found-Inside (some p') s e h holds = rw e ((open_row-Inside h).from s holds)

  pub open_position-Opened :
      p.id ≡ durable.position_id
      → p.state ≡ PositionState.entry_pending
      → Triple
          (Holds (some p))
          (open_position cfg now trade_date to_column commit_fails durable ce_price pe_price levels)
          Opened
  unfolding open_position Inside ◌>>=◌
  open_position-Opened same h =
      Triple-unit_of_work Inside _
        (record {
          from = λ s holds.
              found-Inside (same_row durable.position_id s.position) s
                (rw (← same) (same_row_id p s holds)) h holds;
        })
        (λ a t h. h) (λ e t h. refused h)
