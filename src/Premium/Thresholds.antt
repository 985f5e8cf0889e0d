-- ===== src/Premium/Thresholds.antt =====
-- `compute_combined_premium`, `compute_target_premium`, `compute_stoploss_premium`,
-- `compute_thresholds`, and what they promise.
use mathlib.Core.Path.{subst}
use trading_project.Base.{ℕ, ◌+◌, ◌-◌, ◌||◌, ◌*◌, ◌<◌, ◌≡◌, arith, not, ◌&&◌, if◌then◌else◌}
use trading_project.Base.Int.{ℤ, pos, negsuc, ◌+ℤ◌, ◌-ℤ◌, ◌*ℤ◌, ◌<ℤ◌, ltb_ℤ, leb_ℤ}
use trading_project.Result.{Result, ok, err, guard, ◌>>=◌, ◌>>◌, value_error}

-- `Decimal("1")` as a fraction
abbrev pub one : ℤ
one = pos 10000

unfoldable pub compute_combined_premium : ℤ → ℤ → Result ℤ
compute_combined_premium ce_price pe_price = do
  guard (not (ltb_ℤ ce_price (pos 0))) value_error
  guard (not (ltb_ℤ pe_price (pos 0))) value_error
  ok (ce_price +ℤ pe_price)

unfoldable pub validate_fraction : ℤ → Result (Unit {0})
validate_fraction value = guard (ltb_ℤ (pos 0) value && ltb_ℤ value one) value_error

unfoldable pub validate_positive_premium : ℤ → Result (Unit {0})
validate_positive_premium value = guard (not (leb_ℤ value (pos 0))) value_error

unfoldable pub compute_target_premium : ℤ → ℤ → Result ℤ
unfolding validate_fraction validate_positive_premium
compute_target_premium entry_premium target_pct = do
  validate_fraction target_pct
  validate_positive_premium entry_premium
  ok (entry_premium *ℤ (one -ℤ target_pct))

unfoldable pub compute_stoploss_premium : ℤ → ℤ → Result ℤ
unfolding validate_fraction validate_positive_premium
compute_stoploss_premium entry_premium sl_pct = do
  validate_fraction sl_pct
  validate_positive_premium entry_premium
  ok (entry_premium *ℤ (one +ℤ sl_pct))

pub record PremiumThresholds : Type 0 where
  pub entry_premium : ℤ
  pub target_premium : ℤ
  pub stoploss_premium : ℤ
  pub target_pct : ℤ
  pub sl_pct : ℤ

unfoldable pub compute_thresholds : ℤ → ℤ → ℤ → Result PremiumThresholds
unfolding compute_target_premium compute_stoploss_premium
compute_thresholds entry_premium target_pct sl_pct = do
  target ← compute_target_premium entry_premium target_pct
  stoploss ← compute_stoploss_premium entry_premium sl_pct
  ok (record {
    entry_premium = entry_premium;
    target_premium = target;
    stoploss_premium = stoploss;
    target_pct = target_pct;
    sl_pct = sl_pct;
  })

-- A fraction strictly between 0 and 1.
abbrev pub IsFraction : ℤ → Type 0
IsFraction f = (pos 0 <ℤ f) × (f <ℤ one)

-- The levels are in order, with the premium that was sold strictly between them.
pub record AreOrdered (t : PremiumThresholds) : Type 0 where
  pub positive : pos 0 <ℤ t.target_premium
  pub target_below : t.target_premium <ℤ t.entry_premium *ℤ one
  pub stoploss_above : t.entry_premium *ℤ one <ℤ t.stoploss_premium

mul_parts_pos : (n m : ℕ) → pos n *ℤ pos m ≡ pos (n * m)
unfolding ◌*ℤ◌
mul_parts_pos n m = grind arith

mul_lt : (n a b : ℕ) → 0 < n → a < b → n * a < n * b
mul_lt n a b h k = grind arith

one-minus : (t : ℕ) → t < 10000 → one -ℤ pos t ≡ pos (10000 - t)
unfolding ◌-ℤ◌
one-minus t h = ground arith

one-plus : (t : ℕ) → one +ℤ pos t ≡ pos (10000 + t)
unfolding ◌+ℤ◌
one-plus t = ground arith

compute_thresholds_levels :
    (e t s : ℕ)
    → 0 < e
    → 0 < t
    → t < 10000
    → 0 < s
    → (pos 0 <ℤ pos e *ℤ (one -ℤ pos t))
      × (pos e *ℤ (one -ℤ pos t) <ℤ pos e *ℤ one)
      × (pos e *ℤ one <ℤ pos e *ℤ (one +ℤ pos s))
compute_thresholds_levels e t s he ht ht' hs =
    rw (one-minus t ht', one-plus s)
      (simp mul_parts_pos (
        omega (arith, mul_lt e 0 (10000 - t) he (omega arith)),
        omega (arith, mul_lt e (10000 - t) 10000 he (omega arith)),
        omega (arith, mul_lt e 10000 (10000 + s) he (omega arith)),
      ))

abbrev thresholds_of : ℤ → ℤ → ℤ → PremiumThresholds
thresholds_of e t s = record {
  entry_premium = e;
  target_premium = e *ℤ (one -ℤ t);
  stoploss_premium = e *ℤ (one +ℤ s);
  target_pct = t;
  sl_pct = s;
}

-- For a positive premium and two proper fractions the levels are computed, positive, and in order
-- around the premium.
pub compute_thresholds_ok :
    (e t s : ℤ)
    → pos 0 <ℤ e
    → IsFraction t
    → IsFraction s
    → (r : PremiumThresholds) × (compute_thresholds e t s ≡ ok r) × AreOrdered r
unfolding compute_thresholds
compute_thresholds_ok (pos e) (pos t) (pos s) he ht hs = (
  thresholds_of (pos e) (pos t) (pos s),
  ground arith,
  (let l =
        compute_thresholds_levels e t s (omega arith) (omega arith) (omega arith) (omega arith) in
      record { positive = l.0; target_below = l.1; stoploss_above = l.2 }),
)
compute_thresholds_ok (negsuc e) t s he ht hs = absurd (omega arith)
compute_thresholds_ok (pos e) (negsuc t) s he ht hs = absurd (omega (arith, ht.0))
compute_thresholds_ok (pos e) (pos t) (negsuc s) he ht hs = absurd (omega (arith, hs.0))

compute_thresholds_inputs :
    (e t s : ℤ) (r : PremiumThresholds)
    → compute_thresholds e t s ≡ ok r
    → (pos 0 <ℤ e) × IsFraction t × IsFraction s
unfolding compute_thresholds
compute_thresholds_inputs e t s r h = ground arith

-- Levels are computed only for a positive premium and two proper fractions, and any that are
-- computed are positive and in order around the premium.
pub compute_thresholds-AreOrdered :
    (e t s : ℤ) (r : PremiumThresholds)
    → compute_thresholds e t s ≡ ok r
    → (pos 0 <ℤ e) × IsFraction t × IsFraction s × AreOrdered r
compute_thresholds-AreOrdered e t s r h =
    let (he, ht, hs) = compute_thresholds_inputs e t s r h in
    let (r', computed, ordered) = compute_thresholds_ok e t s he ht hs in
    let same : r' ≡ r = cc in (he, ht, hs, subst AreOrdered same ordered)

-- A premium is the sum of two prices, and is refused exactly when one of them is negative.
pub compute_combined_premium_lem :
    (ce pe : ℤ)
    → compute_combined_premium ce pe
      ≡ (if ltb_ℤ ce (pos 0) || ltb_ℤ pe (pos 0) then err value_error else ok (ce +ℤ pe))
unfolding compute_combined_premium
compute_combined_premium_lem ce pe = ground arith
