-- ===== src/Premium/Tests.antt =====
-- The premium and its levels at concrete prices.
use trading_project.Base.{ℕ, ◌≡◌, refl, none, some, List, [], ◌∷◌}
use trading_project.Base.Int.{ℤ, pos, ◌+ℤ◌, ◌-ℤ◌, ◌*ℤ◌}
use trading_project.Enums.{Exchange}
use trading_project.Result.{ok, err, value_error}
use trading_project.Broker.{InstrumentIdentifier, Tick}
use trading_project.Premium.Thresholds.{
  PremiumThresholds, compute_combined_premium, compute_thresholds,
}
use trading_project.Premium.Tracker.{CombinedPremiumTracker, new_tracker, record_entry}
use trading_project.Premium.Tracker.Ticks.{Call, after, run, IsValid, run-new_tracker, levels_final}

-- a premium of 200, a target of 30% and a stoploss of 20%
abbrev premium : ℤ
premium = pos 2000000

abbrev levels : PremiumThresholds
levels = record {
  entry_premium = premium;
  target_premium = pos 14000000000;
  stoploss_premium = pos 24000000000;
  target_pct = pos 3000;
  sl_pct = pos 2000;
}

levels_of_200 : compute_thresholds premium (pos 3000) (pos 2000) ≡ ok levels
unfolding compute_thresholds ◌*ℤ◌ ◌-ℤ◌ ◌+ℤ◌
levels_of_200 = refl

levels_of_0 : compute_thresholds (pos 0) (pos 3000) (pos 2000) ≡ err value_error
unfolding compute_thresholds
levels_of_0 = refl

abbrev call_leg : InstrumentIdentifier
call_leg = record { exchange = Exchange.nfo; tradingsymbol = "NIFTY24000CE" }

abbrev put_leg : InstrumentIdentifier
put_leg = record { exchange = Exchange.nfo; tradingsymbol = "NIFTY24000PE" }

abbrev tracker : CombinedPremiumTracker
tracker = record {
  call_instrument = call_leg;
  put_instrument = put_leg;
  target_pct = pos 3000;
  sl_pct = pos 2000;
  latest_call_price = none;
  latest_put_price = none;
  latest_price_at = none;
  thresholds = none;
}

tracker_made : new_tracker call_leg put_leg (pos 3000) (pos 2000) ≡ ok tracker
unfolding new_tracker
tracker_made = refl

tracker_refused : new_tracker call_leg call_leg (pos 3000) (pos 2000) ≡ err value_error
unfolding new_tracker
tracker_refused = refl

abbrev tick_of : InstrumentIdentifier → ℕ → ℕ → Tick
tick_of i price at = record { instrument = i; last_price = pos price; timestamp = at }

abbrev ticks : List Tick
ticks = tick_of call_leg 900000 10 ∷ tick_of put_leg 800000 11 ∷ tick_of call_leg 950000 12 ∷ []

abbrev calls : List Call
calls =
    Call.tick (tick_of call_leg 900000 10)
    ∷ Call.entry (pos 1200000) (pos 800000) 15
    ∷ Call.tick (tick_of put_leg 790000 20)
    ∷ Call.entry (pos 1) (pos 1) 25
    ∷ []

run-calls : (run calls tracker).thresholds ≡ some levels
unfolding run after compute_combined_premium compute_thresholds ◌+ℤ◌ ◌*ℤ◌ ◌-ℤ◌
run-calls = refl

run-new_tracker_example : IsValid (run calls tracker)
run-new_tracker_example =
    run-new_tracker call_leg put_leg (pos 3000) (pos 2000) tracker calls tracker_made

levels_final_example :
    let u = run calls (record tracker { thresholds = some levels }) in
    (u.thresholds ≡ some levels) × (record_entry (pos 5) (pos 6) 30 u ≡ (err value_error, u))
levels_final_example =
    levels_final calls (pos 5) (pos 6) 30 (record tracker { thresholds = some levels }) levels refl
