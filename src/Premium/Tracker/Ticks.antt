-- ===== src/Premium/Tracker/Ticks.antt =====
-- The tracker over a history of calls: what the prices, the levels and the snapshot are.
use trading_project.Base.{
  ℕ, ◌≡◌, ◌≢◌, inl, inr, refl, false, Option, none, some, List, [], ◌∷◌, map, arith, ◌||◌, ◌==◌,
  is_some, if◌then◌else◌, Option-cases,
}
use trading_project.Base.Int.{ℤ}
use trading_project.Result.{Result, ok, err, value_error, runtime_error, Result-cases}
use trading_project.Broker.{InstrumentIdentifier, instrument_eq, Tick}
use trading_project.Premium.Thresholds.{
  compute_combined_premium, PremiumThresholds, AreOrdered, compute_thresholds-AreOrdered,
}
use trading_project.Premium.Tracker.{
  CombinedPremiumTracker, new_tracker, record_entry_levels, record_entry_store, record_entry,
  current_snapshot, on_tick,
}

pub data Call : Type 0 where
  tick : Tick → Call
  entry : ℤ → ℤ → ℕ → Call

-- The tracker that one call leaves.
unfoldable pub after : Call → CombinedPremiumTracker → CombinedPremiumTracker
unfolding on_tick record_entry
after (tick x) t = (on_tick x t).1
after (entry call put at) t = (record_entry call put at t).1

unfoldable pub run : List Call → CombinedPremiumTracker → CombinedPremiumTracker
run [] t = t
run (c ∷ cs) t = run cs (after c t)

pub record IsValid (t : CombinedPremiumTracker) : Type 0 where
  pub distinct : (t.call_instrument == t.put_instrument) ≡ false
  pub stamped :
      (is_some t.latest_call_price || is_some t.latest_put_price) ≡ is_some t.latest_price_at
  pub ordered : (r : PremiumThresholds) → t.thresholds ≡ some r → AreOrdered r

new_tracker-IsValid :
    (call put : InstrumentIdentifier) (target sl : ℤ) (t : CombinedPremiumTracker)
    → new_tracker call put target sl ≡ ok t
    → IsValid t
unfolding new_tracker
new_tracker-IsValid call put target sl t h = record {
  distinct = ground arith;
  stamped = ground arith;
  ordered = λ r e. let nothing : t.thresholds ≡ none = ground arith in cc;
}

tick-IsValid : (x : Tick) (t : CombinedPremiumTracker) → IsValid t → IsValid (on_tick x t).1
unfolding on_tick
tick-IsValid x t v = record {
  distinct = ground (arith, v.distinct);
  stamped = ground (arith, v.stamped);
  ordered = λ r e. v.ordered r (ground arith);
}

levels-AreOrdered :
    (t : CombinedPremiumTracker) (call put : ℤ) (r : PremiumThresholds)
    → record_entry_levels t call put ≡ ok r
    → AreOrdered r
unfolding record_entry_levels
levels-AreOrdered t call put r h = elim (Option-cases t.thresholds) [
  | inl unset ↦ elim (Result-cases (compute_combined_premium call put)) [
    | inl (premium, computed) ↦
        (compute_thresholds-AreOrdered premium t.target_pct t.sl_pct r (ground arith)).3
    | inr (e, refused) ↦ absurd (ground arith)
  ]
  | inr (old, set) ↦ absurd (ground arith)
]

store-IsValid :
    (m : Result PremiumThresholds) (call put : ℤ) (at : ℕ) (t : CombinedPremiumTracker)
    → record_entry_levels t call put ≡ m
    → IsValid t
    → IsValid (record_entry_store m call put at t).1
unfolding record_entry_store
store-IsValid (err e) call put at t h v = v
store-IsValid (ok levels) call put at t h v = record {
  distinct = v.distinct;
  stamped = refl;
  ordered =
      λ r e. let same : levels ≡ r = cc in levels-AreOrdered t call put r (ground (arith, h, same));
}

after-IsValid : (c : Call) (t : CombinedPremiumTracker) → IsValid t → IsValid (after c t)
unfolding after
after-IsValid (tick x) t v = tick-IsValid x t v
after-IsValid (entry call put at) t v =
    store-IsValid (record_entry_levels t call put) call put at t refl v

pub run-IsValid : (cs : List Call) (t : CombinedPremiumTracker) → IsValid t → IsValid (run cs t)
unfolding run
run-IsValid [] t v = v
run-IsValid (c ∷ cs) t v = run-IsValid cs (after c t) (after-IsValid c t v)

-- A tracker that the constructor made stays valid over any calls: its two instruments differ, a
-- price is always stamped, and levels that it holds are positive and in order.
pub run-new_tracker :
    (call put : InstrumentIdentifier) (target sl : ℤ) (t : CombinedPremiumTracker) (cs : List Call)
    → new_tracker call put target sl ≡ ok t
    → IsValid (run cs t)
run-new_tracker call put target sl t cs h =
    run-IsValid cs t (new_tracker-IsValid call put target sl t h)

combined-ne-runtime_error : (ce pe : ℤ) → compute_combined_premium ce pe ≢ err runtime_error
unfolding compute_combined_premium
combined-ne-runtime_error ce pe h = ground arith

-- In a valid tracker the `assert` of `current_snapshot` cannot fail.
pub current_snapshot-ne-runtime_error :
    (t : CombinedPremiumTracker) → IsValid t → current_snapshot t ≢ err runtime_error
unfolding current_snapshot
current_snapshot-ne-runtime_error t v h = elim (Option-cases t.latest_call_price) [
  | inl none_yet ↦ ground arith
  | inr (ce, e) ↦ elim (Option-cases t.latest_put_price) [
    | inl none_yet ↦ ground arith
    | inr (pe, e') ↦ ground (arith, v.stamped, combined-ne-runtime_error ce pe)
  ]
]

-- The price of the last tick of an instrument, or the price before them all.
abbrev pub latest : InstrumentIdentifier → List Tick → Option ℤ → Option ℤ
latest i [] before = before
latest i (x ∷ xs) before = latest i xs (if x.instrument == i then some x.last_price else before)

-- The legs, their latest prices and the levels of a tracker.
abbrev pub View :
    CombinedPremiumTracker
    → InstrumentIdentifier
    → InstrumentIdentifier
    → Option ℤ
    → Option ℤ
    → Option PremiumThresholds
    → Type 0
View t call put ce pe levels =
    (t.call_instrument ≡ call)
    × (t.put_instrument ≡ put)
    × (t.latest_call_price ≡ ce)
    × (t.latest_put_price ≡ pe)
    × (t.thresholds ≡ levels)

after-View :
    (x : Tick) (t : CombinedPremiumTracker) (call put : InstrumentIdentifier) (ce pe : Option ℤ)
    (levels : Option PremiumThresholds)
    → (call == put) ≡ false
    → View t call put ce pe levels
    → View
        (after (tick x) t)
        call
        put
        (if x.instrument == call then some x.last_price else ce)
        (if x.instrument == put then some x.last_price else pe)
        levels
unfolding after on_tick
after-View x t call put ce pe levels h v = ground (
  arith,
  instrument_eq.beq_iff x.instrument call,
  instrument_eq.beq_iff x.instrument put,
  instrument_eq.beq_iff call put,
)

run-View :
    (ts : List Tick) (t : CombinedPremiumTracker) (call put : InstrumentIdentifier)
    (ce pe : Option ℤ) (levels : Option PremiumThresholds)
    → (call == put) ≡ false
    → View t call put ce pe levels
    → View (run (map tick ts) t) call put (latest call ts ce) (latest put ts pe) levels
unfolding run
run-View [] t call put ce pe levels h v = v
run-View (x ∷ xs) t call put ce pe levels h v =
    run-View xs (after (tick x) t) call put _ _ levels h (after-View x t call put ce pe levels h v)

-- Whatever ticks arrive, of whatever instruments, each leg shows the price of its own last tick,
-- and neither the legs nor the levels change.
pub run-latest :
    (ts : List Tick) (t : CombinedPremiumTracker)
    → (t.call_instrument == t.put_instrument) ≡ false
    → View
        (run (map tick ts) t)
        t.call_instrument
        t.put_instrument
        (latest t.call_instrument ts t.latest_call_price)
        (latest t.put_instrument ts t.latest_put_price)
        t.thresholds
run-latest ts t h =
    run-View ts t t.call_instrument t.put_instrument t.latest_call_price t.latest_put_price
      t.thresholds h (refl, refl, refl, refl, refl)

record_entry_again :
    (call put : ℤ) (at : ℕ) (t : CombinedPremiumTracker) (r : PremiumThresholds)
    → t.thresholds ≡ some r
    → record_entry call put at t ≡ (err value_error, t)
unfolding record_entry
record_entry_again call put at t r h = ground arith

after_keeps_levels :
    (c : Call) (t : CombinedPremiumTracker) (r : PremiumThresholds)
    → t.thresholds ≡ some r
    → (after c t).thresholds ≡ some r
unfolding after on_tick
after_keeps_levels (tick x) t r h = ground arith
after_keeps_levels (entry call put at) t r h = rw (record_entry_again call put at t r h, after) h

-- Levels, once recorded, are final: every later entry is refused and changes nothing, and no call
-- moves them.
pub levels_final :
    (cs : List Call) (call put : ℤ) (at : ℕ) (t : CombinedPremiumTracker) (r : PremiumThresholds)
    → t.thresholds ≡ some r
    → let u = run cs t in
      (u.thresholds ≡ some r) × (record_entry call put at u ≡ (err value_error, u))
unfolding run
levels_final [] call put at t r h = (h, record_entry_again call put at t r h)
levels_final (c ∷ cs) call put at t r h =
    levels_final cs call put at (after c t) r (after_keeps_levels c t r h)
