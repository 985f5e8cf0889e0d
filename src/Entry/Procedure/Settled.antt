-- ===== src/Entry/Procedure/Settled.antt =====
-- What an entry comes to, from the first check to the last write.
use trading_project.Base.{
  ℕ, ◌≡◌, ◌⊎◌, inl, inr, refl, Bool, true, false, Bool-cases, [], Option, none, some, ◌==◌, nat_eq,
  ◌∙◌, ap, arith,
}
use trading_project.Base.Int.{ℤ}
use trading_project.Models.{Position}
use trading_project.Result.{Error, Result, ok, err}
use trading_project.Action.{unit_of_work, ◌>>=◌, committed}
use trading_project.Action.Triple.{
  Triple, Triple-if, Triple-pure, Triple-known, Triple-lift, Triple-bind,
}
use trading_project.Runtime.{BrokerPort, World, in_store}
use trading_project.Runtime.Recording.{recording, At}
use trading_project.Strike.{InstrumentSpec, StraddleStrikeSelection}
use trading_project.Strike.Nearest.{IsStraddle, select-IsStraddle}
use trading_project.Entry.{
  EntryConfig, Services, EntryOutcome, EntryResult, DurableRecord, entry_result,
}
use trading_project.Entry.Durable.{create_durable_record}
use trading_project.Entry.Durable.Frame.{
  IsRecordOf, Created, created, lost, refused, create_durable_record-Created,
}
use trading_project.Entry.Procedure.{
  should_skip_expiry_day, blocked, resolve_straddle, created_or_lost, enter_approved, enter_checked,
  enter_new, enter,
}
use trading_project.Entry.Procedure.Outcome.{Placed}
use trading_project.Entry.Procedure.Placing.{place_and_finalize-Placed}

module _ (b : BrokerPort) (cfg : EntryConfig) (now trade_date : ℕ) (services : Services) where
  -- The selection is the straddle next to the spot price that was read.
  pub record IsResolved (selection : StraddleStrikeSelection) : Type 0 where
    pub spot : ℤ
    pub spec : InstrumentSpec
    pub spot_ltp : services.spot_ltp ≡ ok spot
    pub spec_known : services.spec ≡ ok spec
    pub straddle : IsStraddle spec spot selection

  pub data Settled (q : Option Position) : Result EntryResult → World (recording b) → Type 0 where
    skipped :
        {w : World (recording b)} (p : Position)
        → (q ≡ some p) ⊎ ((q ≡ none) × (services.rival ≡ some p))
        → At b [] (some p) w
        → Settled q (ok (entry_result EntryOutcome.skipped_already_exists none)) w
    expiry_day :
        {w : World (recording b)}
        → cfg.skip_on_expiry_day ≡ true
        → services.current_expiry ≡ ok trade_date
        → At b [] q w
        → Settled q (ok (entry_result EntryOutcome.skipped_expiry_day none)) w
    blocked_by_risk :
        {w : World (recording b)}
        → (services.halted ≡ true) ⊎ (services.approved ≡ false)
        → At b [] q w
        → Settled q (ok (entry_result EntryOutcome.blocked_by_risk none)) w
    placed :
        {r : Result EntryResult} {w : World (recording b)} (selection : StraddleStrikeSelection)
        (durable : DurableRecord)
        → services.halted ≡ false
        → services.approved ≡ true
        → IsResolved selection
        → IsRecordOf cfg selection durable
        → Placed b cfg now trade_date services selection durable r w
        → Settled q r w
    raised : {w : World (recording b)} {e : Error} → At b [] q w → Settled q (err e) w

  resolve-IsResolved :
      (selection : StraddleStrikeSelection) (spot : Result ℤ) (spec : Result InstrumentSpec)
      → services.spot_ltp ≡ spot
      → services.spec ≡ spec
      → resolve_straddle (recording b) cfg now trade_date services ≡ ok selection
      → IsResolved selection
  unfolding resolve_straddle
  resolve-IsResolved selection (err e) spec hs hp h = absurd (ground (arith, hs, h))
  resolve-IsResolved selection (ok spot) (err e) hs hp h = absurd (ground (arith, hs, hp, h))
  resolve-IsResolved selection (ok spot) (ok spec) hs hp h = record {
    spot = spot;
    spec = spec;
    spot_ltp = hs;
    spec_known = hp;
    straddle =
        select-IsStraddle services.find_option_contract cfg.instrument spec services.current_expiry
          spot selection (ground (arith, hs, hp, h));
  }

  Recorded :
      (selection : StraddleStrikeSelection)
      → Result (Option DurableRecord)
      → World (recording b)
      → Type 0
  Recorded selection r w =
      (w.broker.0 ≡ []) × Created cfg now trade_date services.rival selection r w.store

  record_entry-Recorded :
      (selection : StraddleStrikeSelection)
      → Triple
          (At b [] none)
          (in_store
            (recording b)
            (create_durable_record cfg now trade_date services.rival selection))
          (Recorded selection)
  unfolding in_store Recorded
  record_entry-Recorded selection = record {
    from = λ w h. (
      h.broker_side,
      (create_durable_record-Created cfg now trade_date services.rival selection).from w.store
          h.row,
    );
  }

  lost_or_placed :
      (selection : StraddleStrikeSelection) (o : Option DurableRecord) (w : World (recording b))
      → services.halted ≡ false
      → services.approved ≡ true
      → IsResolved selection
      → w.broker.0 ≡ []
      → Created cfg now trade_date services.rival selection (ok o) w.store
      → let (r, w') = created_or_lost (recording b) cfg now trade_date services o w in
        Settled none r w'
  unfolding created_or_lost
  lost_or_placed selection (some durable) w free approved resolved log (created d same row) =
      placed selection durable free approved resolved same (
        (place_and_finalize-Placed b cfg now trade_date services selection durable).from w
          (record { broker_side = log; row = row }))
  lost_or_placed selection none w free approved resolved log (lost p rival row) =
      skipped p (inr (refl, rival)) (record { broker_side = log; row = row })

  not_recorded :
      (selection : StraddleStrikeSelection) (e : Error) (w : World (recording b))
      → Recorded selection (err e) w
      → Settled none (err e) w
  unfolding Recorded
  not_recorded selection e w h = let (log, nothing) = h in by_row log nothing
    where
      by_row :
          w.broker.0 ≡ []
          → Created cfg now trade_date services.rival selection (err e) w.store
          → Settled none (err e) w
      by_row log (refused row) = raised (record { broker_side = log; row = row })

  enter_approved-Settled :
      services.halted ≡ false
      → services.approved ≡ true
      → Triple
          (At b [] none)
          (enter_approved (recording b) cfg now trade_date services)
          (Settled none)
  unfolding enter_approved Recorded
  enter_approved-Settled free approved =
      Triple-bind _ _ _ (Triple-lift _) (λ e w h. raised h.1)
        (λ selection. Triple-known _ (λ known.
          Triple-bind _ _ _ (record_entry-Recorded selection) (not_recorded selection) (λ o.
            record {
              from = λ w h.
                  lost_or_placed selection o w free approved
                    (resolve-IsResolved selection services.spot_ltp services.spec refl refl known)
                    h.0 h.1;
            })))

  skip_known :
      (set : Bool) (expiry : Result ℕ)
      → cfg.skip_on_expiry_day ≡ set
      → services.current_expiry ≡ expiry
      → should_skip_expiry_day (recording b) cfg now trade_date services ≡ ok true
      → (cfg.skip_on_expiry_day ≡ true) × (services.current_expiry ≡ ok trade_date)
  unfolding should_skip_expiry_day
  skip_known false expiry hs he h = absurd (ground (arith, hs, h))
  skip_known true (err e) hs he h = absurd (ground (arith, hs, he, h))
  skip_known true (ok day) hs he h =
      let same : (day == trade_date) ≡ true = ground (arith, hs, he, h) in
      (hs, he ∙ ap ok ((nat_eq.beq_iff day trade_date).0 same))

  blocked_why :
      blocked (recording b) cfg now trade_date services ≡ true
      → (services.halted ≡ true) ⊎ (services.approved ≡ false)
  blocked_why h = elim (Bool-cases services.halted) [
    | inl halted ↦ inl halted
    | inr free ↦ inr (ground (arith, free, h))
  ]

  enter_checked-Settled :
      (skip : Bool)
      → should_skip_expiry_day (recording b) cfg now trade_date services ≡ ok skip
      → Triple
          (At b [] none)
          (enter_checked (recording b) cfg now trade_date services skip)
          (Settled none)
  unfolding enter_checked
  enter_checked-Settled true h =
      let (set, day) = skip_known cfg.skip_on_expiry_day services.current_expiry refl refl h in
      record { from = λ w at. expiry_day set day at }
  enter_checked-Settled false h =
      Triple-if (blocked (recording b) cfg now trade_date services) _ _
        (λ stop. record { from = λ w at. blocked_by_risk (blocked_why stop) at })
        (λ go. enter_approved-Settled (ground (arith, go)) (ground (arith, go)))

  enter_new-Settled :
      (q : Option Position)
      → Triple (At b [] q) (enter_new (recording b) cfg now trade_date services q) (Settled q)
  unfolding enter_new
  enter_new-Settled (some p) = Triple-pure _ (λ w h. skipped p (inl refl) h)
  enter_new-Settled none =
      Triple-bind _ _ _ (Triple-lift _) (λ e w h. raised h.1)
        (λ skip. Triple-known _ (λ known. enter_checked-Settled skip known))

  pub enter-Settled :
      (w : World (recording b))
      → w.broker.0 ≡ []
      → let (r, w') = enter (recording b) cfg now trade_date services w in
        Settled w.store.position r w'
  unfolding enter in_store ◌>>=◌ unit_of_work committed
  enter-Settled w log =
      (enter_new-Settled w.store.position).from w (record { broker_side = log; row = refl })
