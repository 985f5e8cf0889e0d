-- ===== src/Entry/Procedure/Endings.antt =====
-- The ways in which placing the legs of an entry can end: the failures, and the final write.
use trading_project.Base.{
  ℕ, ◌≡◌, ◌⊎◌, ◌∙◌, sym, ap, arith, refl, Bool, [], ◌∷◌, ◌++◌, Option, none, some,
}
use trading_project.Base.Int.{ℤ, ◌+ℤ◌}
use trading_project.Enums.{ReconciliationBreakType}
use trading_project.Models.{Position, Tag}
use trading_project.Result.{Error, Result, ok, err}
use trading_project.Action.{◌>>=◌, unit_of_work, committed}
use trading_project.Action.Triple.{Triple, Triple-known, Triple-lift, Triple-bind}
use trading_project.Premium.Thresholds.{PremiumThresholds, compute_thresholds}
use trading_project.Store.{record_break_row}
use trading_project.Store.Failure.{fail_to_error_lem}
use trading_project.Runtime.{BrokerPort, World, try_store, in_store}
use trading_project.Runtime.Recording.{recording, At}
use trading_project.Strike.{StraddleStrikeSelection}
use trading_project.Entry.{
  EntryConfig, Services, EntryOutcome, EntryResult, LegOutcome, LegResult, DurableRecord,
}
use trading_project.Entry.Writes.Opening.{Opened, opened, refused, open_position-Opened}
use trading_project.Entry.Writes.{open_position}
use trading_project.Entry.Procedure.{
  record_break, fail, prices, opened_or_not, finalize_open, partial_entry, after_call,
}
use trading_project.Entry.Procedure.Legs.{Sends, sent, unsent, auto_unwind-Sends}
use trading_project.Entry.Procedure.Outcome.{
  pending_entry, buy, sold_call, sold_both, bought_back, both, unwound, Fills, Placed, entered,
  diverged, rejected, ambiguous, partial, raised,
}

module _ (b : BrokerPort) (cfg : EntryConfig) (now trade_date : ℕ) (services : Services)
    (selection : StraddleStrikeSelection) (durable : DurableRecord) where
  abbrev pending : Option Position
  pending = some (pending_entry b cfg now trade_date services selection durable)

  abbrev Ends : Result EntryResult → World (recording b) → Type 0
  Ends = Placed b cfg now trade_date services selection durable

  pub rejected-Placed :
      (ce : Tag)
      → Triple
          (At b (sold_call cfg durable ce) pending)
          (fail
            (recording b)
            cfg
            now
            trade_date
            durable.position_id
            EntryOutcome.entry_rejected
            "CE leg failed before any exposure")
          Ends
  unfolding fail in_store ◌>>=◌
  rejected-Placed ce = record {
    from = λ w h.
        rw
          (fail_to_error_lem (pending_entry b cfg now trade_date services selection durable) w.store
            "CE leg failed before any exposure" h.row (λ e. cc) (λ e. cc))
          (rejected ce h.broker_side
            (record { row = refl; before = w.store.instance_status; instance_status = refl }));
  }

  pub ambiguous-Placed :
      (ce : Tag)
      → Triple
          (At b (sold_call cfg durable ce) pending)
          (after_call
            (recording b)
            cfg
            now
            trade_date
            services
            durable
            (record { outcome = LegOutcome.ambiguous; fill_price = none })
            LegOutcome.ambiguous)
          Ends
  unfolding after_call fail record_break in_store ◌>>=◌ unit_of_work committed record_break_row
  ambiguous-Placed ce = record {
    from = λ w h.
        rw
          (fail_to_error_lem (pending_entry b cfg now trade_date services selection durable)
            (record w.store {
              breaks = w.store.breaks ++ ReconciliationBreakType.ambiguous_ack ∷ [];
            })
            "CE leg outcome ambiguous" h.row (λ e. cc) (λ e. cc))
          (ambiguous ce w.store.breaks h.broker_side refl
            (record { row = refl; before = w.store.instance_status; instance_status = refl }));
  }

  partial_end-Placed :
      (ce pe back : Tag) (kind : ReconciliationBreakType)
      → (kind ≡ ReconciliationBreakType.ambiguous_ack)
        ⊎ (kind ≡ ReconciliationBreakType.partial_entry)
      → Triple
          (At b (bought_back cfg durable ce pe back) pending)
          (λ w.
            (record_break (recording b) cfg now trade_date kind >>= λ _.
            fail
              (recording b)
              cfg
              now
              trade_date
              durable.position_id
              EntryOutcome.partial_entry_error
              "partial entry")
              w)
          Ends
  unfolding fail record_break in_store ◌>>=◌ unit_of_work committed record_break_row
  partial_end-Placed ce pe back kind why = record {
    from = λ w h.
        rw
          (fail_to_error_lem (pending_entry b cfg now trade_date services selection durable)
            (record w.store { breaks = w.store.breaks ++ kind ∷ [] }) "partial entry" h.row
            (λ e. cc) (λ e. cc))
          (partial ce pe back w.store.breaks kind why h.broker_side refl
            (record { row = refl; before = w.store.instance_status; instance_status = refl }));
  }

  unwound_or_raised :
      (ce pe : Tag) (e : Error) (w : World (recording b))
      → Sends b
          (sold_both cfg durable ce pe)
          pending
          (buy cfg durable durable.ce)
          {A = Bool}
          (err e)
          w
      → Ends (err e) w
  unwound_or_raised ce pe e w (sent back h) = raised _ (unwound ce pe back) h
  unwound_or_raised ce pe e w (unsent h) = raised _ (both ce pe) h

  back_of :
      (ce pe : Tag) (done : Bool) (kind : ReconciliationBreakType) (w : World (recording b))
      → (kind ≡ ReconciliationBreakType.ambiguous_ack)
        ⊎ (kind ≡ ReconciliationBreakType.partial_entry)
      → Sends b (sold_both cfg durable ce pe) pending (buy cfg durable durable.ce) (ok done) w
      → let (r, w') =
          (record_break (recording b) cfg now trade_date kind >>= λ _.
          fail
            (recording b)
            cfg
            now
            trade_date
            durable.position_id
            EntryOutcome.partial_entry_error
            "partial entry")
            w in
        Ends r w'
  back_of ce pe done kind w why (sent back h) = (partial_end-Placed ce pe back kind why).from w h

  pub partial_entry-Placed :
      (ce pe : Tag) (kind : ReconciliationBreakType)
      → (kind ≡ ReconciliationBreakType.ambiguous_ack)
        ⊎ (kind ≡ ReconciliationBreakType.partial_entry)
      → Triple
          (At b (sold_both cfg durable ce pe) pending)
          (partial_entry (recording b) cfg now trade_date durable kind)
          Ends
  unfolding partial_entry
  partial_entry-Placed ce pe kind why =
      Triple-bind _ _ _
        (auto_unwind-Sends b cfg now trade_date (sold_both cfg durable ce pe) pending durable.ce
          durable.quantity)
        (unwound_or_raised ce pe) (λ done. record { from = λ w h. back_of ce pe done kind w why h })

  -- the final write, tried
  Written :
      (ce pe : Tag) (ce_price pe_price : ℤ) (levels : PremiumThresholds)
      → Result (Result (Unit {0}))
      → World (recording b)
      → Type 0
  Written ce pe ce_price pe_price levels (ok written) w =
      (w.broker.0 ≡ (sold_both cfg durable ce pe))
      × Opened cfg now trade_date services.to_column services.commit_fails durable ce_price pe_price
          levels (pending_entry b cfg now trade_date services selection durable) written w.store
  Written ce pe ce_price pe_price levels (err e) w = ⊥

  try_open-Written :
      (ce pe : Tag) (ce_price pe_price : ℤ) (levels : PremiumThresholds)
      → Triple
          (At b (sold_both cfg durable ce pe) pending)
          (try_store (recording b) (
            open_position cfg now trade_date services.to_column services.commit_fails durable
              ce_price pe_price levels))
          (Written ce pe ce_price pe_price levels)
  unfolding try_store Written
  try_open-Written ce pe ce_price pe_price levels = record {
    from = λ w h. (
      h.broker_side,
      (open_position-Opened cfg now trade_date services.to_column services.commit_fails durable
            ce_price pe_price levels (pending_entry b cfg now trade_date services selection durable)
            refl refl).from
          w.store h.row,
    );
  }

  opened_or_not-Placed :
      (ce pe : Tag) (ce_price pe_price : ℤ) (levels : PremiumThresholds)
      (written : Result (Unit {0}))
      → Fills b cfg now trade_date services selection durable ce ce_price pe_price
      → compute_thresholds (ce_price +ℤ pe_price) cfg.target_pct cfg.sl_pct ≡ ok levels
      → Triple
          (Written ce pe ce_price pe_price levels (ok written))
          (opened_or_not (recording b) cfg now trade_date durable.position_id written)
          Ends
  unfolding opened_or_not record_break Written in_store ◌>>=◌ unit_of_work committed
      record_break_row
  opened_or_not-Placed ce pe ce_price pe_price levels written fills known = record {
    from = λ w h. let (log, done) = h in ends written w log done;
  }
    where
      ends :
          (written : Result (Unit {0})) (w : World (recording b))
          → w.broker.0 ≡ sold_both cfg durable ce pe
          → Opened cfg now trade_date services.to_column services.commit_fails durable ce_price
              pe_price levels
              (pending_entry b cfg now trade_date services selection durable)
              written
              w.store
          → let (r, w') =
              opened_or_not (recording b) cfg now trade_date durable.position_id written w in
            Ends r w'
      ends (ok tt) w log (opened commits row) =
          entered ce_price pe_price levels ce pe commits fills known
            (record { broker_side = log; row = row })
      ends (err e) w log (refused row) =
          diverged ce pe w.store.breaks (record { broker_side = log; row = row }) refl

  prices_known :
      (call put : LegResult) (x y : Option ℤ) (fills : ℤ × ℤ)
      → call.fill_price ≡ x
      → put.fill_price ≡ y
      → prices (recording b) cfg now trade_date call put ≡ ok fills
      → (call.fill_price ≡ some fills.0) × (put.fill_price ≡ some fills.1)
  unfolding prices
  prices_known call put none y fills hx hy e = absurd (ground (arith, hx, e))
  prices_known call put (some p) none fills hx hy e = absurd (ground (arith, hx, hy, e))
  prices_known call put (some p) (some q) fills hx hy e =
      let same : (p, q) ≡ fills = pair-injective (p, q) fills (sym (rw (hx, hy)) ∙ e) in
      (hx ∙ ap (λ f. some f.0) same, hy ∙ ap (λ f. some f.1) same)
    where
      pair-injective : (f g : ℤ × ℤ) → ok f ≡ ok g → f ≡ g
      pair-injective f g h = cc

  pub finalize_open-Placed :
      (ce pe : Tag) (ce_result pe_result : LegResult)
      → ((ce_price pe_price : ℤ)
          → ce_result.fill_price ≡ some ce_price
          → pe_result.fill_price ≡ some pe_price
          → Fills b cfg now trade_date services selection durable ce ce_price pe_price)
      → Triple
          (At b (sold_both cfg durable ce pe) pending)
          (finalize_open (recording b) cfg now trade_date services durable ce_result pe_result)
          Ends
  unfolding finalize_open Written
  finalize_open-Placed ce pe ce_result pe_result runs =
      Triple-bind _ _ _ (Triple-lift _) (λ e w h. raised _ (both ce pe) h.1)
        (λ fills. Triple-known _ (λ priced.
          let (ce_known, pe_known) =
            prices_known ce_result pe_result ce_result.fill_price pe_result.fill_price fills refl
              refl priced in
          Triple-bind _ _ _ (Triple-lift _) (λ e w h. raised _ (both ce pe) h.1)
            (λ levels. Triple-known _ (λ known.
              Triple-bind (Written ce pe fills.0 fills.1 levels) _ _
                (try_open-Written ce pe fills.0 fills.1 levels) (λ e w h. absurd h)
                (λ written.
                  opened_or_not-Placed ce pe fills.0 fills.1 levels written
                    (runs fills.0 fills.1 ce_known pe_known) known)))))
