-- ===== src/Limiter/Delegate/Implements.antt =====
-- brokers/rate_limiter.py: what one throttled call does to the buckets and to the broker inside.
use mathlib.Core.Path.{subst}
use trading_project.Base.{
  ℕ, ◌≤◌, ◌++◌, ◌≡◌, ◌⊎◌, refl, ◌∙◌, inl, inr, true, Option, none, some, List, [], ◌∷◌, ◌==◌,
  Bool-cases, arith,
}
use trading_project.Broker.{BrokerResult, raised, rate_limit_exceeded}
use trading_project.Broker.Contract.{BrokerBase, Method}
use trading_project.Limiter.{
  RateLimitCategory, category_eq, RateLimitRule, rule_accepted, TokenBucket, new_bucket, Clock,
  Waited, acquired, exceeded,
}
use trading_project.Limiter.Window.{
  Past, Past-later, Past-append, remembering, Attempts-Sound, start,
}
use trading_project.Limiter.Acquire.{Ends, in_time, refused, acquire-Ends}
use trading_project.Limiter.Delegate.{
  alone, MethodName, method_category, RateLimitConfig, Buckets, set_bucket, bucket_of, RateLimited,
  limit, throttled, through, acquire_slot, deadline_from, after_wait, after_throttle,
}

-- A bucket is what its attempts up to `clock` have left of a new bucket.
pub data Used (clock : ℕ) (b : TokenBucket) : Type 0 where
  used :
      (r : RateLimitRule) (accepted : rule_accepted r ≡ true) (g : List ℕ) (last : ℕ)
      → last ≤ clock
      → b ≡ remembering r g last
      → Past r accepted g last
      → Used clock b

-- All the buckets of a limiter are.
abbrev pub AllUsed : ℕ → Buckets → Type 0
AllUsed clock buckets =
    (k : RateLimitCategory) (b : TokenBucket) → buckets k ≡ some b → Used clock b

Used-later : {t u : ℕ} {b : TokenBucket} → t ≤ u → Used t b → Used u b
Used-later later (used r accepted g last before pruned past) =
    used r accepted g last (omega arith) pruned past

-- Two ways to end, and how a bucket is left.
record Outcome (asked : ℕ) (w : Waited) : Type 0 where
  settled : (w.outcome ≡ acquired) ⊎ (w.outcome ≡ exceeded)
  later : asked ≤ w.now
  left_used : Used w.now w.bucket

module _ (r : RateLimitRule) (accepted : rule_accepted r ≡ true) (g : List ℕ) (t asked : ℕ) where
  Ends-Outcome :
      {deadline : Option ℕ} {w : Waited}
      → Past r accepted g t
      → t ≤ asked
      → Ends r g deadline asked w
      → Outcome asked w
  Ends-Outcome {w} past after (in_time done later few e) = record {
    settled = inl done;
    later = later;
    left_used =
        used r accepted (g ++ w.now ∷ []) w.now (omega arith) e
          (Past-append r accepted g t w.now (omega arith) past few);
  }
  Ends-Outcome {w} past after (refused d _ done same e _) = record {
    settled = inr done;
    later = omega arith;
    left_used =
        used r accepted g asked (omega arith) e (Past-later r accepted g t asked after past);
  }

Outcome-later : {t u : ℕ} {w : Waited} → t ≤ u → Outcome u w → Outcome t w
Outcome-later before o = record {
  settled = o.settled;
  later = omega (arith, o.later);
  left_used = o.left_used;
}

set_bucket-AllUsed :
    (k : RateLimitCategory) (clock : ℕ) (w : Waited) (buckets : Buckets)
    → AllUsed clock buckets
    → Outcome clock w
    → AllUsed w.now (set_bucket k w.bucket buckets)
set_bucket-AllUsed k clock w buckets before o j b e = elim (Bool-cases (k == j)) [
  | inl same ↦
      let e' : some w.bucket ≡ some b = rw same at e in
      let taken : w.bucket ≡ b = cc in subst (Used w.now) taken o.left_used
  | inr other ↦ Used-later o.later (before j b (rw other at e))
]

module _ (c : Clock) where
  acquire_slot-Outcome :
      (b : TokenBucket) (timeout : Option ℕ) (clock : ℕ)
      → Used clock b
      → Outcome clock (acquire_slot c b timeout clock)
  unfolding acquire_slot
  acquire_slot-Outcome b timeout clock (used r accepted g last before pruned past) =
      let first = c.read clock in
      let asked = c.read first in
      let later : clock ≤ asked = omega (arith, c.read_forward clock, c.read_forward first) in
      rw pruned (
        Outcome-later later (
          Ends-Outcome r accepted g last asked past (omega arith) (
            acquire-Ends c alone r accepted (λ asleep woken. refl) 0 (deadline_from timeout first) g
              last asked past (omega arith))))

module _ (inner : BrokerBase) where
  -- How a throttled call ends: the broker inside has done it, or it was refused and the broker
  -- inside was not called. Either way the buckets are what their attempts have left.
  pub data Throttled {A : Type 0} (call : Method inner.State A) (timeout : Option ℕ)
      (l : RateLimited inner) : Option (BrokerResult A) × RateLimited inner → Type 0 where
    done :
        (buckets : Buckets) (clock : ℕ) {a : Option (BrokerResult A) × RateLimited inner}
        → AllUsed clock buckets
        → a ≡ (
          some (call timeout l.broker).0,
          record { broker = (call timeout l.broker).1; buckets = buckets; clock = clock },
        )
        → Throttled call timeout l a
    not_done :
        (buckets : Buckets) (clock : ℕ) {a : Option (BrokerResult A) × RateLimited inner}
        → AllUsed clock buckets
        → a ≡ (
          some (raised rate_limit_exceeded),
          record { broker = l.broker; buckets = buckets; clock = clock },
        )
        → Throttled call timeout l a

  module _ {A : Type 0} (call : Method inner.State A) (timeout : Option ℕ)
      (l : RateLimited inner) where
    after_wait-Throttled :
        (k : RateLimitCategory) (w : Waited)
        → AllUsed l.clock l.buckets
        → Outcome l.clock w
        → Throttled call timeout l (after_wait inner k w call timeout l)
    unfolding after_wait after_throttle
    after_wait-Throttled k w before o =
        let after = set_bucket-AllUsed k l.clock w l.buckets before o in
        elim o.settled [
          | inl got ↦ rw got (done (set_bucket k w.bucket l.buckets) w.now after refl)
          | inr late ↦ rw late (not_done (set_bucket k w.bucket l.buckets) w.now after refl)
        ]

    through-Throttled :
        (c : Clock) (k : RateLimitCategory) (found : Option TokenBucket)
        → AllUsed l.clock l.buckets
        → ((b : TokenBucket) → found ≡ some b → Used l.clock b)
        → Throttled call timeout l (through c inner k found call timeout l)
    unfolding through after_throttle
    through-Throttled c k none before known = done l.buckets l.clock before refl
    through-Throttled c k (some b) before known =
        after_wait-Throttled k _ before (acquire_slot-Outcome c b timeout l.clock (known b refl))

    pub throttled-Throttled :
        (c : Clock) (name : MethodName)
        → AllUsed l.clock l.buckets
        → Throttled call timeout l (throttled c inner name call timeout l)
    unfolding throttled
    throttled-Throttled c name before =
        through-Throttled c _ _ before (before (method_category name))

fresh-Used :
    (found : Option RateLimitRule) (now : ℕ)
    → ((r : RateLimitRule) → found ≡ some r → rule_accepted r ≡ true)
    → (b : TokenBucket) → bucket_of found ≡ some b
    → Used now b
fresh-Used none now accepted b e = cc
fresh-Used (some r) now accepted b e =
    let fresh : b ≡ new_bucket r = cc in
    let (same, past) = Attempts-Sound r (accepted r refl) start in
    used r (accepted r refl) [] 0 (omega arith) (fresh ∙ same) past

-- A new limiter's buckets are fresh.
pub limit-AllUsed :
    (inner : BrokerBase) (rules : RateLimitConfig) (s : inner.State) (now : ℕ)
    → ((k : RateLimitCategory) (r : RateLimitRule) → rules k ≡ some r → rule_accepted r ≡ true)
    → AllUsed now (limit inner rules s now).buckets
unfolding limit
limit-AllUsed inner rules s now accepted k = fresh-Used (rules k) now (accepted k)
