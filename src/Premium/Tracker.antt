-- ===== src/Premium/Tracker.antt =====
-- `CombinedPremiumTracker`. Its methods return the tracker beside their result: a price that a tick
-- wrote stays written also where the premium is then refused.
pub mod Ticks
use trading_project.Base.{
  ℕ, ◌≡◌, Bool, true, false, Option, none, some, not, ◌||◌, ◌==◌, is_some, if◌then◌else◌,
}
use trading_project.Base.Int.{ℤ}
use trading_project.Result.{
  Result, ok, err, guard, ◌>>=◌, ◌>>◌, value_error, type_error, runtime_error,
}
use trading_project.Broker.{InstrumentIdentifier, instrument_eq, Tick}
use trading_project.Premium.Thresholds.{
  compute_combined_premium, validate_fraction, PremiumThresholds, compute_thresholds,
}

pub record PremiumSnapshot : Type 0 where
  pub combined_premium : ℤ
  pub ce_price : ℤ
  pub pe_price : ℤ
  pub as_of : ℕ

pub record CombinedPremiumTracker : Type 0 where
  pub call_instrument : InstrumentIdentifier
  pub put_instrument : InstrumentIdentifier
  pub target_pct : ℤ
  pub sl_pct : ℤ
  pub latest_call_price : Option ℤ
  pub latest_put_price : Option ℤ
  pub latest_price_at : Option ℕ
  pub thresholds : Option PremiumThresholds

-- `__init__`
unfoldable pub new_tracker :
    InstrumentIdentifier → InstrumentIdentifier → ℤ → ℤ → Result CombinedPremiumTracker
unfolding validate_fraction
new_tracker call put target_pct sl_pct = do
  guard (not (call == put)) value_error
  validate_fraction target_pct
  validate_fraction sl_pct
  ok (record {
    call_instrument = call;
    put_instrument = put;
    target_pct = target_pct;
    sl_pct = sl_pct;
    latest_call_price = none;
    latest_put_price = none;
    latest_price_at = none;
    thresholds = none;
  })

-- `from_context`: a configuration without one of the two fractions, as a `Decimal`, is refused.
unfoldable pub from_context :
    Option ℤ
    → Option ℤ
    → InstrumentIdentifier
    → InstrumentIdentifier
    → Result CombinedPremiumTracker
unfolding new_tracker
from_context (some target_pct) (some sl_pct) call put = new_tracker call put target_pct sl_pct
from_context (some _) none call put = err type_error
from_context none _ call put = err type_error

record_entry_levels : CombinedPremiumTracker → ℤ → ℤ → Result PremiumThresholds
record_entry_levels t call_fill_price put_fill_price = do
  guard (not (is_some t.thresholds)) value_error
  entry_premium ← compute_combined_premium call_fill_price put_fill_price
  compute_thresholds entry_premium t.target_pct t.sl_pct

record_entry_store :
    Result PremiumThresholds
    → ℤ
    → ℤ
    → ℕ
    → CombinedPremiumTracker
    → Result PremiumThresholds × CombinedPremiumTracker
record_entry_store (err e) call_fill_price put_fill_price at t = (err e, t)
record_entry_store (ok levels) call_fill_price put_fill_price at t = (
  ok levels,
  record t {
    thresholds = some levels;
    latest_call_price = some call_fill_price;
    latest_put_price = some put_fill_price;
    latest_price_at = some at;
  },
)

unfoldable pub record_entry :
    ℤ → ℤ → ℕ → CombinedPremiumTracker → Result PremiumThresholds × CombinedPremiumTracker
unfolding record_entry_levels record_entry_store
record_entry call_fill_price put_fill_price at t =
    record_entry_store (record_entry_levels t call_fill_price put_fill_price) call_fill_price
      put_fill_price at t

snapshot_of : Option ℤ → Option ℤ → Option ℕ → Result (Option PremiumSnapshot)
snapshot_of (some call) (some put) (some at) = do
  combined ← compute_combined_premium call put
  ok (some (record { combined_premium = combined; ce_price = call; pe_price = put; as_of = at }))
-- the `assert`
snapshot_of (some call) (some put) none = err runtime_error
snapshot_of (some call) none at = ok none
snapshot_of none put at = ok none

unfoldable pub current_snapshot : CombinedPremiumTracker → Result (Option PremiumSnapshot)
unfolding snapshot_of
current_snapshot t = snapshot_of t.latest_call_price t.latest_put_price t.latest_price_at

abbrev record_tick : CombinedPremiumTracker → Tick → CombinedPremiumTracker
record_tick t tick =
    if tick.instrument == t.call_instrument
    then record t {
      latest_call_price = some tick.last_price;
      latest_price_at = some tick.timestamp;
    }
    else if tick.instrument == t.put_instrument
    then record t { latest_put_price = some tick.last_price; latest_price_at = some tick.timestamp }
    else t

-- `on_tick`; a tick of another instrument gives `none` and changes nothing
unfoldable pub on_tick :
    Tick → CombinedPremiumTracker → Result (Option PremiumSnapshot) × CombinedPremiumTracker
unfolding current_snapshot
on_tick tick t =
    if tick.instrument == t.call_instrument || tick.instrument == t.put_instrument
    then (current_snapshot (record_tick t tick), record_tick t tick)
    else (ok none, t)
