-- ===== src/Limiter/Acquire.antt =====
-- brokers/rate_limiter.py, `_TokenBucket.acquire`: it ends, and how.
use trading_project.Base.{
  ℕ, suc, ◌≤◌, ◌<◌, ◌++◌, ◌≡◌, refl, inl, inr, true, false, Option, none, some, List, [], ◌∷◌,
  Bool-cases, ltb→lt, arith,
}
use trading_project.Limiter.{
  RateLimitRule, TokenBucket, granted, wait_until, attempt, rule_accepted, Clock, acquired,
  exceeded, Waited, passes, acquire, too_late,
}
use trading_project.Limiter.Window.{
  Attempts, Attempts-Sound, lets_through, holds_back, FirstFree, Past, remembering, recent,
  attempt-Admits, Past-later,
}

-- How `acquire` ends: with a slot, at a time when the last `per_seconds` hold fewer than
-- `max_calls` calls; or refused, when they hold `max_calls` of them at every moment up to the
-- deadline.
pub data Ends (r : RateLimitRule) (g : List ℕ) (deadline : Option ℕ) (asked : ℕ)
    : Waited → Type 0 where
  in_time :
      {w : Waited}
      → w.outcome ≡ acquired
      → asked ≤ w.now
      → recent r g w.now < r.max_calls
      → w.bucket ≡ remembering r (g ++ w.now ∷ []) w.now
      → Ends r g deadline asked w
  refused :
      {w : Waited} (d : ℕ)
      → deadline ≡ some d
      → w.outcome ≡ exceeded
      → w.now ≡ asked
      → w.bucket ≡ remembering r g asked
      → ((e : ℕ) → asked ≤ e → e ≤ d → r.max_calls ≤ recent r g e)
      → Ends r g deadline asked w

too_late_lem :
    (deadline : Option ℕ) (target : ℕ)
    → too_late deadline target ≡ true
    → (d : ℕ) × (deadline ≡ some d) × (d < target)
too_late_lem none target h = cc
too_late_lem (some d) target h = (d, refl, ltb→lt d target h)

module _ (c : Clock) (others : ℕ → ℕ → List ℕ) (r : RateLimitRule)
    (accepted : rule_accepted r ≡ true) where
  module _ (fuel : ℕ) (deadline : Option ℕ) (now : ℕ) (b kept : TokenBucket) where
    -- a pass that lets the call through ends the loop
    acquire-granted :
        attempt now b ≡ (granted, kept)
        → acquire c others (suc fuel) deadline now b
          ≡ record { outcome = acquired; now = now; bucket = kept }
    unfolding acquire
    acquire-granted e = rw (e, acquire) (rw e)

    acquire-late :
        (target : ℕ)
        → attempt now b ≡ (wait_until target, kept)
        → too_late deadline target ≡ true
        → acquire c others (suc fuel) deadline now b
          ≡ record { outcome = exceeded; now = now; bucket = kept }
    unfolding acquire
    acquire-late target e h = rw (e, acquire) (rw h (rw e))

    acquire-again :
        (target : ℕ)
        → attempt now b ≡ (wait_until target, kept)
        → too_late deadline target ≡ false
        → acquire c others (suc fuel) deadline now b
          ≡ acquire c others fuel deadline
              (c.sleep_until target now)
              (passes (others now (c.sleep_until target now)) kept)
    unfolding acquire
    acquire-again target e h = rw (e, acquire) (rw h (rw e))

  -- no other thread makes a pass while this one waits
  module _ (quiet : (asleep woken : ℕ) → others asleep woken ≡ []) where
    -- the pass after the wait lets the call through
    second_pass :
        (fuel : ℕ) (deadline : Option ℕ) (g : List ℕ) (now target : ℕ)
        → Past r accepted g now
        → FirstFree r g now target
        → Ends r g deadline now
            (acquire c others (suc fuel) deadline (c.sleep_until target now) (remembering r g now))
    second_pass fuel deadline g now target past first =
        let woken = c.sleep_until target now in
        let later = c.forward target now in
        let free : recent r g woken < r.max_calls =
          omega (arith, first.frees woken later (c.not_early target now), past.bounded) in
        elim (attempt-Admits r accepted g now woken past later) [
          | lets_through few e ↦
              rw (acquire-granted fuel deadline woken _ _ e) (in_time refl later few refl)
          | holds_back _ many _ _ ↦ absurd (omega arith)
        ]

    pub acquire-Ends :
        (fuel : ℕ) (deadline : Option ℕ) (g : List ℕ) (t now : ℕ)
        → Past r accepted g t
        → t ≤ now
        → Ends r g deadline now (acquire c others (suc (suc fuel)) deadline now (remembering r g t))
    acquire-Ends fuel deadline g t now past later =
        elim (attempt-Admits r accepted g t now past later) [
          | lets_through few e ↦
              rw (acquire-granted (suc fuel) deadline now _ _ e)
                (in_time refl (omega arith) few refl)
          | holds_back target many first e ↦ elim (Bool-cases (too_late deadline target)) [
            | inl late ↦
                let (d, is_deadline, before) = too_late_lem deadline target late in
                rw (acquire-late (suc fuel) deadline now _ _ target e late) (
                  refused d is_deadline refl refl refl
                    (λ f from upto. omega (arith, first.full f from (omega arith))))
            | inr wait ↦
                rw (acquire-again (suc fuel) deadline now _ _ target e wait, quiet now)
                  (second_pass fuel deadline g now target (Past-later r accepted g t now later past)
                    first)
          ]
        ]

    -- `acquire` returns, given that no other thread takes a turn at the bucket while this one waits: on
    -- the bucket of any run of threads it then needs at most one wait, and either holds a slot, taken
    -- when the last `per_seconds` held fewer than `max_calls` calls, or was refused because at every
    -- moment up to the deadline they held `max_calls` of them.
    pub acquire-Attempts :
        {b : TokenBucket} {g : List ℕ} {t : ℕ} (fuel : ℕ) (deadline : Option ℕ) (now : ℕ)
        → Attempts r b g t
        → t ≤ now
        → Ends r g deadline now (acquire c others (suc (suc fuel)) deadline now b)
    acquire-Attempts {g} {t} fuel deadline now run later =
        let (same, past) = Attempts-Sound r accepted run in
        rw same (acquire-Ends fuel deadline g t now past later)
