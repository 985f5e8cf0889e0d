-- ===== src/Exit/Decision.antt =====
-- `evaluate_exit` and `compute_leg_realized_pnl`, the pure part. Prices and levels are read from the
-- database, in ten-thousandths; times of day count from midnight. The `detail` text has no field.
use mathlib.Core.Path.{subst}
use trading_project.Base.{
  ℕ, ◌*◌, ◌≤◌, ◌≡◌, ◌↔◌, refl, ap, Bool, true, false, Option, none, some, arith, leb, is_some,
  if◌then◌else◌, Bool-cases, inl, inr,
}
use trading_project.Base.Int.{ℤ, pos, leb_ℤ, ◌≤ℤ◌, ◌+ℤ◌, ◌-ℤ◌, ◌*ℤ◌, int_laws, -ℤ_parts, *ℤ_parts}
use trading_project.Enums.{ExitReason}

pub record ExitDecision : Type 0 where
  pub should_exit : Bool
  pub reason : Option ExitReason

abbrev exit_for : ExitReason → ExitDecision
exit_for r = record { should_exit = true; reason = some r }

abbrev stay : ExitDecision
stay = record { should_exit = false; reason = none }

-- `level is not None and premium >= level`, and the same for `<=`
abbrev at_or_above : ℤ → Option ℤ → Bool
at_or_above premium none = false
at_or_above premium (some level) = leb_ℤ level premium

abbrev at_or_below : ℤ → Option ℤ → Bool
at_or_below premium none = false
at_or_below premium (some level) = leb_ℤ premium level

evaluate_premium : Option ℤ → Option ℤ → Option ℤ → ExitDecision
evaluate_premium none target stoploss = stay
evaluate_premium (some premium) target stoploss =
    if at_or_above premium stoploss
    then exit_for ExitReason.stoploss
    else if at_or_below premium target
    then exit_for ExitReason.target
    else stay

unfoldable pub evaluate_exit : ℕ → ℕ → Bool → Option ℤ → Option ℤ → Option ℤ → ExitDecision
unfolding evaluate_premium
evaluate_exit now_ist_time hard_cutoff_time halted combined_premium target_premium
      stoploss_premium =
    if leb hard_cutoff_time now_ist_time
    then exit_for ExitReason.timeout
    else if halted
    then exit_for ExitReason.kill_switch
    else evaluate_premium combined_premium target_premium stoploss_premium

-- a short leg earns what the price fell
unfoldable pub compute_leg_realized_pnl : ℤ → ℤ → ℕ → ℤ
compute_leg_realized_pnl entry_price exit_price quantity =
    (entry_price -ℤ exit_price) *ℤ pos quantity

-- What the four triggers are, in the order in which they take precedence.
module _ (now cutoff : ℕ) (halted : Bool) (premium aim stoploss : Option ℤ) where
  abbrev pub CutOff : Type 0
  CutOff = cutoff ≤ now

  abbrev pub Stopped : Type 0
  Stopped = (p : ℤ) × (s : ℤ) × (premium ≡ some p) × (stoploss ≡ some s) × (s ≤ℤ p)

  abbrev pub OnTarget : Type 0
  OnTarget = (p : ℤ) × (t : ℤ) × (premium ≡ some p) × (aim ≡ some t) × (p ≤ℤ t)

  pub data Trigger : Option ExitReason → Type 0 where
    timeout : CutOff → Trigger (some ExitReason.timeout)
    kill_switch : ¬ CutOff → halted ≡ true → Trigger (some ExitReason.kill_switch)
    stop : ¬ CutOff → halted ≡ false → Stopped → Trigger (some ExitReason.stoploss)
    target : ¬ CutOff → halted ≡ false → ¬ Stopped → OnTarget → Trigger (some ExitReason.target)
    quiet : ¬ CutOff → halted ≡ false → ¬ Stopped → ¬ OnTarget → Trigger none

abbrev decided : Option ExitReason → ExitDecision
decided r = record { should_exit = is_some r; reason = r }

stopped : Option ℤ → Option ℤ → Bool
stopped none stoploss = false
stopped (some p) stoploss = at_or_above p stoploss

on_target : Option ℤ → Option ℤ → Bool
on_target none aim = false
on_target (some p) aim = at_or_below p aim

stopped_iff :
    (premium stoploss : Option ℤ)
    → (stopped premium stoploss ≡ true)
      ↔ ((p : ℤ) × (s : ℤ) × (premium ≡ some p) × (stoploss ≡ some s) × (s ≤ℤ p))
unfolding stopped
stopped_iff none stoploss = (λ h. cc, λ h. cc)
stopped_iff (some p) none = (λ h. cc, λ h. cc)
stopped_iff (some p) (some s) = (λ h. (p, s, refl, refl, ground arith), λ h. ground arith)

on_target_iff :
    (premium aim : Option ℤ)
    → (on_target premium aim ≡ true)
      ↔ ((p : ℤ) × (t : ℤ) × (premium ≡ some p) × (aim ≡ some t) × (p ≤ℤ t))
unfolding on_target
on_target_iff none aim = (λ h. cc, λ h. cc)
on_target_iff (some p) none = (λ h. cc, λ h. cc)
on_target_iff (some p) (some t) = (λ h. (p, t, refl, refl, ground arith), λ h. ground arith)

-- The code's ladder as one of tests.
evaluate_exit_ladder :
    (now cutoff : ℕ) (halted : Bool) (premium aim stoploss : Option ℤ)
    → evaluate_exit now cutoff halted premium aim stoploss ≡ (
        if leb cutoff now
        then decided (some ExitReason.timeout)
        else if halted
        then decided (some ExitReason.kill_switch)
        else if stopped premium stoploss
        then decided (some ExitReason.stoploss)
        else if on_target premium aim
        then decided (some ExitReason.target)
        else decided none)
unfolding evaluate_exit stopped on_target
evaluate_exit_ladder now cutoff halted none aim stoploss = ground arith
evaluate_exit_ladder now cutoff halted (some p) aim stoploss = ground arith

-- The decision that the code takes has its trigger.
evaluate_exit_triggered :
    (now cutoff : ℕ) (halted : Bool) (premium aim stoploss : Option ℤ)
    → (r : Option ExitReason) × (evaluate_exit now cutoff halted premium aim stoploss ≡ decided r)
      × Trigger now cutoff halted premium aim stoploss r
evaluate_exit_triggered now cutoff halted premium aim stoploss =
    rw evaluate_exit_ladder (elim (Bool-cases (leb cutoff now)) [
      | inl late ↦ (some ExitReason.timeout, rw late, timeout (ground arith))
      | inr early ↦ elim (Bool-cases halted) [
        | inl h ↦ (some ExitReason.kill_switch, rw (early, h), kill_switch (λ c. ground arith) h)
        | inr h ↦ elim (Bool-cases (stopped premium stoploss)) [
          | inl s ↦ (
            some ExitReason.stoploss,
            rw (early, h, s),
            stop (λ c. ground arith) h ((stopped_iff premium stoploss).0 s),
          )
          | inr s ↦ elim (Bool-cases (on_target premium aim)) [
            | inl t ↦ (
              some ExitReason.target,
              rw (early, h, s, t),
              target (λ c. ground arith) h (λ c. cc ((stopped_iff premium stoploss).1 c))
                  ((on_target_iff premium aim).0 t),
            )
            | inr t ↦ (
              none,
              rw (early, h, s, t),
              quiet (λ c. ground arith) h (λ c. cc ((stopped_iff premium stoploss).1 c))
                  (λ c. cc ((on_target_iff premium aim).1 c)),
            )
          ]
        ]
      ]
    ])

Trigger-unique :
    {now cutoff : ℕ} {halted : Bool} {premium aim stoploss : Option ℤ} {r r' : Option ExitReason}
    → Trigger now cutoff halted premium aim stoploss r
    → Trigger now cutoff halted premium aim stoploss r'
    → r ≡ r'
Trigger-unique (timeout c) (timeout c') = refl
Trigger-unique (timeout c) (kill_switch n h) = absurd (n c)
Trigger-unique (timeout c) (stop n h s) = absurd (n c)
Trigger-unique (timeout c) (target n h s t) = absurd (n c)
Trigger-unique (timeout c) (quiet n h s t) = absurd (n c)
Trigger-unique (kill_switch n h) (timeout c) = absurd (n c)
Trigger-unique (kill_switch n h) (kill_switch n' h') = refl
Trigger-unique (kill_switch n h) (stop n' h' s) = cc
Trigger-unique (kill_switch n h) (target n' h' s t) = cc
Trigger-unique (kill_switch n h) (quiet n' h' s t) = cc
Trigger-unique (stop n h s) (timeout c) = absurd (n c)
Trigger-unique (stop n h s) (kill_switch n' h') = cc
Trigger-unique (stop n h s) (stop n' h' s') = refl
Trigger-unique (stop n h s) (target n' h' s' t) = absurd (s' s)
Trigger-unique (stop n h s) (quiet n' h' s' t) = absurd (s' s)
Trigger-unique (target n h s t) (timeout c) = absurd (n c)
Trigger-unique (target n h s t) (kill_switch n' h') = cc
Trigger-unique (target n h s t) (stop n' h' s') = absurd (s s')
Trigger-unique (target n h s t) (target n' h' s' t') = refl
Trigger-unique (target n h s t) (quiet n' h' s' t') = absurd (t' t)
Trigger-unique (quiet n h s t) (timeout c) = absurd (n c)
Trigger-unique (quiet n h s t) (kill_switch n' h') = cc
Trigger-unique (quiet n h s t) (stop n' h' s') = absurd (s s')
Trigger-unique (quiet n h s t) (target n' h' s' t') = absurd (t t')
Trigger-unique (quiet n h s t) (quiet n' h' s' t') = refl

-- The monitor leaves for a reason exactly when that reason has its trigger, in the order cutoff,
-- halt, stoploss, target, and stays exactly when none has.
pub evaluate_exit_iff :
    (now cutoff : ℕ) (halted : Bool) (premium aim stoploss : Option ℤ) (r : Option ExitReason)
    → (evaluate_exit now cutoff halted premium aim stoploss ≡ decided r)
      ↔ Trigger now cutoff halted premium aim stoploss r
evaluate_exit_iff now cutoff halted premium aim stoploss r =
    let (r', decides, trigger) = evaluate_exit_triggered now cutoff halted premium aim stoploss in
    (
      λ h.
          let same : r' ≡ r = cc in
          subst (Trigger now cutoff halted premium aim stoploss) same trigger,
      λ t. let same : r' ≡ r = Trigger-unique trigger t in rw (← same) decides,
    )

-- A leg sold at one price and bought back at another earns the difference for every unit: what was
-- taken in is what was paid out and what was earned.
pub compute_leg_realized_pnl_lem :
    (entry exit quantity : ℕ)
    → pos (exit * quantity) +ℤ compute_leg_realized_pnl (pos entry) (pos exit) quantity
      ≡ pos (entry * quantity)
unfolding compute_leg_realized_pnl
compute_leg_realized_pnl_lem entry exit quantity = omega (
  int_laws,
  ap (λ (t : ℕ). t * quantity) (-ℤ_parts (pos entry) (pos exit)),
  *ℤ_parts (pos entry -ℤ pos exit) (pos quantity),
)
