-- ===== src/Limiter.antt =====
-- src/algo/brokers/rate_limiter.py: the sliding-window limiter of one category, `_TokenBucket`, and
-- the rules it is built from. Times are readings of the monotonic clock in a fixed unit. Each
-- `attempt` is one pass through the locked block of `acquire`, so a sequence of attempts is any
-- interleaving of the threads that share the bucket.
pub mod Window
pub mod Acquire
pub mod Delegate
pub mod Methods
pub mod Refines
pub mod Tests
use trading_project.Base.{
  ℕ, zero, suc, ◌+◌, ◌≤◌, ◌<◌, ◌&&◌, ◌++◌, Bool, true, false, Option, none, some, List, [], ◌∷◌,
  if◌then◌else◌, ltb, leb, eqb, filter, length,
}
use trading_project.Base.Eq.{Eq}
use trading_project.Base.{◌≡◌, ◌↔◌, arith}

-- `RateLimitCategory`
pub data RateLimitCategory : Type 0 where
  order_mutation order_read portfolio_read market_data : RateLimitCategory
  instrument_lookup general : RateLimitCategory

abbrev pub category_index : RateLimitCategory → ℕ
category_index order_mutation = 0
category_index order_read = 1
category_index portfolio_read = 2
category_index market_data = 3
category_index instrument_lookup = 4
category_index general = 5

pub category_beq_iff :
    (a b : RateLimitCategory) → (eqb (category_index a) (category_index b) ≡ true) ↔ (a ≡ b)
category_beq_iff a b = ground arith

instance abbrev pub category_eq : Eq RateLimitCategory
category_eq = record {
  beq = λ a b. eqb (category_index a) (category_index b);
  beq_iff = category_beq_iff;
}

-- `RateLimitRule`
pub record RateLimitRule : Type 0 where
  pub max_calls : ℕ
  pub per_seconds : ℕ

-- the two `Field(gt=0)` of `RateLimitRule`
unfoldable pub rule_accepted : RateLimitRule → Bool
rule_accepted r = ltb 0 r.max_calls && ltb 0 r.per_seconds

-- `_TokenBucket`: the rule and the times of the calls that are remembered, oldest first.
pub record TokenBucket : Type 0 where
  pub rule : RateLimitRule
  pub calls : List ℕ

-- `_TokenBucket.__init__`
abbrev pub new_bucket : RateLimitRule → TokenBucket
new_bucket r = record { rule = r; calls = [] }

-- `t > now - per_seconds`, without a subtraction
abbrev pub in_window : ℕ → ℕ → ℕ → Bool
in_window per now t = ltb now (t + per)

-- What one pass through the locked block comes to: a slot, or the time until which to wait. On
-- `calls[0]` of an empty list Python raises `IndexError`.
pub data Slot : Type 0 where
  granted : Slot
  wait_until : ℕ → Slot
  index_error : Slot

oldest : ℕ → List ℕ → Slot
oldest per [] = index_error
oldest per (t ∷ _) = wait_until (t + per)

-- The locked block of `acquire`, at the clock's reading `now`. The pruned list is kept in both
-- cases.
unfoldable pub attempt : ℕ → TokenBucket → Slot × TokenBucket
unfolding oldest
attempt now b =
    let kept = filter (in_window b.rule.per_seconds now) b.calls in
    if ltb (length kept) b.rule.max_calls
    then (granted, record b { calls = kept ++ now ∷ [] })
    else (oldest b.rule.per_seconds kept, record b { calls = kept })

-- The clock: it does not go back, and a sleep that was asked to last until some time does not return
-- before that time.
pub record Clock : Type 0 where
  pub read : ℕ → ℕ
  pub read_forward : (now : ℕ) → now ≤ read now
  pub sleep_until : ℕ → ℕ → ℕ
  pub not_early : (target now : ℕ) → target ≤ sleep_until target now
  pub forward : (target now : ℕ) → now ≤ sleep_until target now

-- How `acquire` ends: with a slot, with `BrokerRateLimitExceededError`, or with the error of
-- `calls[0]`; `still_waiting` means that the fuel ran out.
pub data Acquired : Type 0 where
  acquired : Acquired
  exceeded : Acquired
  broken : Acquired
  still_waiting : Acquired

-- `deadline is not None and wait_until > deadline`
abbrev pub too_late : Option ℕ → ℕ → Bool
too_late none target = false
too_late (some deadline) target = ltb deadline target

-- The clock's reading, the bucket, and the way a call ended.
pub record Waited : Type 0 where
  pub outcome : Acquired
  pub now : ℕ
  pub bucket : TokenBucket

-- The passes of the other threads that share the bucket, one after the other: their clock readings.
abbrev pub passes : List ℕ → TokenBucket → TokenBucket
passes [] b = b
passes (t ∷ ts) b = passes ts (attempt t b).1

module _ (c : Clock) (others : ℕ → ℕ → List ℕ) where
  -- `_TokenBucket.acquire` by one thread. The lock is not held while it waits: `others now woken` are
  -- the passes that other threads make in that time.
  unfoldable pub acquire : ℕ → Option ℕ → ℕ → TokenBucket → Waited
  acquire zero deadline now b = record { outcome = still_waiting; now = now; bucket = b }
  acquire (suc fuel) deadline now b =
      let (slot, kept) = attempt now b in
      elim slot [
        | granted ↦ record { outcome = acquired; now = now; bucket = kept }
        | index_error ↦ record { outcome = broken; now = now; bucket = kept }
        | wait_until target ↦
            if too_late deadline target
            then record { outcome = exceeded; now = now; bucket = kept }
            else (let woken = c.sleep_until target now in
                acquire fuel deadline woken (passes (others now woken) kept))
      ]
