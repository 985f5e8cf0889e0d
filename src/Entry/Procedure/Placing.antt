-- ===== src/Entry/Procedure/Placing.antt =====
-- The placing of the two legs of an entry ends in one of those ways, at any broker.
use mathlib.Core.Path.{subst}
use trading_project.Base.{ℕ, ◌≡◌, inl, inr, refl, [], Option, some}
use trading_project.Base.Int.{ℤ}
use trading_project.Models.{Position, Tag}
use trading_project.Result.{Error, Result, ok, err}
use trading_project.Action.Triple.{Triple, Triple-bind, Ran, Triple-Ran}
use trading_project.Runtime.{BrokerPort, World}
use trading_project.Runtime.Recording.{recording, At}
use trading_project.Strike.{StraddleStrikeSelection}
use trading_project.Entry.{
  EntryConfig, Services, EntryResult, LegIds, LegOutcome, LegResult, DurableRecord,
}
use trading_project.Entry.Writes.Filling.{HasRow}
use trading_project.Entry.Procedure.{after_put, after_call, place_leg, place_and_finalize}
use trading_project.Entry.Procedure.Fills.{place_leg-Priced}
use trading_project.Entry.Procedure.Legs.{Sends, sent, unsent, place_leg-Sends}
use trading_project.Entry.Procedure.Outcome.{
  pending_entry, sell, sold_call, sold_both, nothing, call, both, Fills, Placed, raised,
}
use trading_project.Entry.Procedure.Endings.{
  rejected-Placed, ambiguous-Placed, partial_entry-Placed, finalize_open-Placed,
}

module _ (b : BrokerPort) (cfg : EntryConfig) (now trade_date : ℕ) (services : Services)
    (selection : StraddleStrikeSelection) (durable : DurableRecord) where
  abbrev pending : Option Position
  pending = some (pending_entry b cfg now trade_date services selection durable)

  abbrev Ends : Result EntryResult → World (recording b) → Type 0
  Ends = Placed b cfg now trade_date services selection durable

  put_raised :
      (ce : Tag) (e : Error) (w : World (recording b))
      → Sends b
          (sold_call cfg durable ce)
          pending
          (sell cfg durable durable.pe)
          {A = LegResult}
          (err e)
          w
      → Ends (err e) w
  put_raised ce e w (sent pe h) = raised _ (both ce pe) h
  put_raised ce e w (unsent h) = raised _ (call ce) h

  -- the prices of two legs that were placed, wherever they have any
  abbrev Runs : Tag → LegResult → LegResult → Type 0
  Runs ce ce_result pe_result =
      (ce_price pe_price : ℤ)
      → ce_result.fill_price ≡ some ce_price
      → pe_result.fill_price ≡ some pe_price
      → Fills b cfg now trade_date services selection durable ce ce_price pe_price

  after_put-Placed :
      (ce pe : Tag) (ce_result pe_result : LegResult) (o : LegOutcome)
      → Runs ce ce_result pe_result
      → Triple
          (At b (sold_both cfg durable ce pe) pending)
          (after_put (recording b) cfg now trade_date services durable ce_result pe_result o)
          Ends
  unfolding after_put
  after_put-Placed ce pe ce_result pe_result LegOutcome.filled runs =
      finalize_open-Placed b cfg now trade_date services selection durable ce pe ce_result pe_result
        runs
  after_put-Placed ce pe ce_result pe_result LegOutcome.ambiguous runs =
      partial_entry-Placed b cfg now trade_date services selection durable ce pe _ (inl refl)
  after_put-Placed ce pe ce_result pe_result LegOutcome.failed runs =
      partial_entry-Placed b cfg now trade_date services selection durable ce pe _ (inr refl)

  -- the run of one leg, from a state of which `P` held
  abbrev LegRan : (World (recording b) → Type 0) → LegIds → LegResult → World (recording b) → Type 0
  LegRan P leg r = Ran P (place_leg (recording b) cfg now trade_date leg durable.quantity) (ok r)

  -- once the call is placed, with its order alone
  abbrev Between : Tag → LegResult → World (recording b) → Type 0
  Between ce ce_result w =
      LegRan (At b [] pending) durable.ce ce_result w × At b (sold_call cfg durable ce) pending w

  both_ran :
      (ce : Tag) (ce_result pe_result : LegResult) (w : World (recording b))
      → LegRan (Between ce ce_result) durable.pe pe_result w
      → Runs ce ce_result pe_result
  both_ran ce ce_result pe_result w ran ce_price pe_price ce_known pe_known =
      let (sold, at) = ran.held in
      record {
        before = sold.start;
        between = ran.start;
        after = w;
        call_result = ce_result;
        put_result = pe_result;
        started = sold.held;
        went_on = at;
        call_run = sold.run;
        put_run = ran.run;
        call_price = ce_known;
        put_price = pe_known;
        call_row = left_row durable.ce sold.start ce_result ran.start sold.run ce_price ce_known;
        put_row = left_row durable.pe ran.start pe_result w ran.run pe_price pe_known;
      }
    where
      left_row :
          (leg : LegIds) (v : World (recording b)) (r : LegResult) (w : World (recording b))
          → place_leg (recording b) cfg now trade_date leg durable.quantity v ≡ (ok r, w)
          → HasRow (ok r) w.store
      left_row leg v r w run =
          subst (λ m. HasRow m.0 m.1.store) run
            ((place_leg-Priced (recording b) cfg now trade_date leg durable.quantity).from v tt)

  put_sent :
      (ce : Tag) (ce_result pe_result : LegResult) (w : World (recording b))
      → LegRan (Between ce ce_result) durable.pe pe_result w
      → Sends b (sold_call cfg durable ce) pending (sell cfg durable durable.pe) (ok pe_result) w
      → let (r, w') =
          after_put
            (recording b)
            cfg
            now
            trade_date
            services
            durable
            ce_result
            pe_result
            pe_result.outcome
            w in
        Ends r w'
  put_sent ce ce_result pe_result w ran (sent pe h) =
      (after_put-Placed ce pe ce_result pe_result pe_result.outcome
          (both_ran ce ce_result pe_result w ran)).from
        w h

  after_call-Placed :
      (ce : Tag) (ce_result : LegResult) (o : LegOutcome)
      → Triple
          (Between ce ce_result)
          (after_call (recording b) cfg now trade_date services durable ce_result o)
          Ends
  unfolding after_call
  after_call-Placed ce ce_result LegOutcome.failed = record {
    from = λ w h. (rejected-Placed b cfg now trade_date services selection durable ce).from w h.1;
  }
  after_call-Placed ce ce_result LegOutcome.ambiguous = record {
    from = λ w h. (ambiguous-Placed b cfg now trade_date services selection durable ce).from w h.1;
  }
  after_call-Placed ce ce_result LegOutcome.filled =
      Triple-bind _ _ _
        (Triple-Ran _ (λ w h. h.1)
          (place_leg-Sends b cfg now trade_date (sold_call cfg durable ce) pending durable.pe
            durable.quantity))
        (λ e w h. put_raised ce e w h.1)
        (λ pe_result. record { from = λ w h. put_sent ce ce_result pe_result w h.0 h.1 })

  call_raised :
      (e : Error) (w : World (recording b))
      → Sends b [] pending (sell cfg durable durable.ce) {A = LegResult} (err e) w
      → Ends (err e) w
  call_raised e w (sent ce h) = raised _ (call ce) h
  call_raised e w (unsent h) = raised _ nothing h

  call_sent :
      (ce_result : LegResult) (w : World (recording b))
      → LegRan (At b [] pending) durable.ce ce_result w
      → Sends b [] pending (sell cfg durable durable.ce) (ok ce_result) w
      → let (r, w') =
          after_call
            (recording b)
            cfg
            now
            trade_date
            services
            durable
            ce_result
            ce_result.outcome
            w in
        Ends r w'
  call_sent ce_result w ran (sent ce h) =
      (after_call-Placed ce ce_result ce_result.outcome).from w (ran, h)

  pub place_and_finalize-Placed :
      Triple
        (At b [] pending)
        (place_and_finalize (recording b) cfg now trade_date services durable)
        Ends
  unfolding place_and_finalize
  place_and_finalize-Placed =
      Triple-bind _ _ _
        (Triple-Ran _ (λ w h. h)
          (place_leg-Sends b cfg now trade_date [] pending durable.ce durable.quantity))
        (λ e w h. call_raised e w h.1)
        (λ ce_result. record { from = λ w h. call_sent ce_result w h.0 h.1 })
