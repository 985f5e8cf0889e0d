-- ===== src/Limiter/Window.antt =====
-- brokers/rate_limiter.py: the pruned list of a bucket stands for all the calls that were ever let
-- through, and no window of `per_seconds` holds more than `max_calls` of them.
use mathlib.Core.Path.{subst}
use trading_project.Base.{
  ℕ, suc, ◌+◌, ◌≤◌, ◌<◌, ◌&&◌, ◌++◌, ◌≡◌, ◌↔◌, refl, ◌∙◌, ap, inl, inr, Bool, true, false, List, [],
  ◌∷◌, ltb, leb, filter, length, length-filter_le, All, All-append, All-filter, All-map, sym, count,
  lt→ltb, ltb→lt, count-append, Bool-cases, arith,
}
use trading_project.Limiter.{
  RateLimitRule, TokenBucket, Slot, granted, wait_until, index_error, attempt, new_bucket,
  in_window, rule_accepted, oldest,
}

-- The history of the calls that were let through, after an attempt.
abbrev pub recorded : Slot → ℕ → List ℕ → List ℕ
recorded granted now g = g ++ now ∷ []
recorded (wait_until _) now g = g
recorded index_error now g = g

-- The buckets, with the history and the clock's last reading, that attempts of any number of
-- threads reach: the lock orders them, and the clock does not go back.
pub data Attempts (r : RateLimitRule) : TokenBucket → List ℕ → ℕ → Type 0 where
  start : Attempts r (new_bucket r) [] 0
  next :
      {b : TokenBucket} {g : List ℕ} {t : ℕ} (now : ℕ)
      → Attempts r b g t
      → t ≤ now
      → Attempts r (attempt now b).1 (recorded (attempt now b).0 now g) now

-- A window of length `per` that begins at `s`.
abbrev pub within : ℕ → ℕ → ℕ → Bool
within per s t = leb s t && ltb t (s + per)

module _ {ℓ} {A : Type ℓ} (p q : A → Bool) (weaker : (a : A) → p a ≡ true → q a ≡ true) where
  pub filter-filter : (xs : List A) → filter p (filter q xs) ≡ filter p xs
  filter-filter [] = refl
  filter-filter (x ∷ xs) = ground (arith, weaker x, filter-filter xs)

  pub count_mono : (xs : List A) → count p xs ≤ count q xs
  count_mono [] = omega arith
  count_mono (x ∷ xs) = ground (arith, weaker x, count_mono xs)

-- Oldest first.
abbrev pub Sorted : List ℕ → Type 0
Sorted [] = Unit
Sorted (x ∷ xs) = All (λ y. x ≤ y) xs × Sorted xs

Sorted-filter : (p : ℕ → Bool) (xs : List ℕ) → Sorted xs → Sorted (filter p xs)
Sorted-filter p [] h = tt
Sorted-filter p (x ∷ xs) h = elim (Bool-cases (p x)) [
  | inl keep ↦ rw keep (All-filter (λ y. x ≤ y) p xs h.0, Sorted-filter p xs h.1)
  | inr drop ↦ rw drop (Sorted-filter p xs h.1)
]

Sorted-append :
    (xs : List ℕ) (now : ℕ) → Sorted xs → All (λ x. x ≤ now) xs → Sorted (xs ++ now ∷ [])
Sorted-append [] now h below = (tt, tt)
Sorted-append (x ∷ xs) now h below =
    (All-append (λ y. x ≤ y) xs (now ∷ []) h.0 (below.0, tt), Sorted-append xs now h.1 below.1)

module _ {ℓ} {A : Type ℓ} (p : A → Bool) where
  pub filter-All : (xs : List A) → All (λ x. p x ≡ true) xs → filter p xs ≡ xs
  filter-All [] h = refl
  filter-All (x ∷ xs) h = ground (arith, filter-All xs)

  pub filter-append : (xs ys : List A) → filter p (xs ++ ys) ≡ filter p xs ++ filter p ys
  filter-append [] ys = refl
  filter-append (x ∷ xs) ys = ground (arith, filter-append xs ys)

  pub length-filter : (xs : List A) → length (filter p xs) ≡ count p xs
  length-filter [] = refl
  length-filter (x ∷ xs) = ground (arith, length-filter xs)

le→not_ltb : (a b : ℕ) → b ≤ a → ltb a b ≡ false
le→not_ltb a b h = ground arith

-- The bucket that remembers of the history `g` what the window at time `t` holds.
abbrev pub remembering : RateLimitRule → List ℕ → ℕ → TokenBucket
remembering r g t = record { rule = r; calls = filter (in_window r.per_seconds t) g }

-- How many of the calls were let through in the last `per_seconds`.
abbrev pub recent : RateLimitRule → List ℕ → ℕ → ℕ
recent r g now = count (in_window r.per_seconds now) g

module _ (r : RateLimitRule) (g : List ℕ) (t now : ℕ) (later : t ≤ now) where
  kept_lem :
      filter (in_window r.per_seconds now) (filter (in_window r.per_seconds t) g)
      ≡ filter (in_window r.per_seconds now) g
  kept_lem = filter-filter _ _ (λ u h. ground arith) g

  attempt-remembering :
      attempt now (remembering r g t) ≡ attempt now (record { rule = r; calls = g })
  unfolding attempt
  attempt-remembering = rw kept_lem

nonempty : (xs : List ℕ) → 0 < length xs → (u : ℕ) × (us : List ℕ) × (xs ≡ u ∷ us)
nonempty [] h = elim h [ ]
nonempty (u ∷ us) h = (u, us, refl)

-- What is known of the time until which a call waits: once it has come a slot is free, and before
-- it has come none is.
pub record FirstFree (r : RateLimitRule) (g : List ℕ) (now target : ℕ) : Type 0 where
  pub frees : (d : ℕ) → now ≤ d → target ≤ d → recent r g d < recent r g now
  pub full : (d : ℕ) → now ≤ d → d < target → recent r g d ≡ recent r g now

module _ (r : RateLimitRule) (g : List ℕ) (now : ℕ) where
  -- counting after a pruning
  recent_kept :
      (d : ℕ)
      → now ≤ d
      → recent r g d
        ≡ length (filter (in_window r.per_seconds d) (filter (in_window r.per_seconds now) g))
  recent_kept d later =
      sym (length-filter (in_window r.per_seconds d) g) ∙ ap length (sym (kept_lem r g now d later))

  module _ (u : ℕ) (us : List ℕ) (kept : filter (in_window r.per_seconds now) g ≡ u ∷ us)
      (sorted : Sorted (u ∷ us)) where
    recent_now : recent r g now ≡ suc (length us)
    recent_now = sym (length-filter (in_window r.per_seconds now) g) ∙ ap length kept

    kept-FirstFree : FirstFree r g now (u + r.per_seconds)
    kept-FirstFree = record {
      frees = λ d later reached. ground (
        arith,
        recent_now,
        recent_kept d later,
        ap (λ xs. length (filter (in_window r.per_seconds d) xs)) kept,
        length-filter_le (in_window r.per_seconds d) us,
      );
      full = λ d later early.
          recent_kept d later
          ∙ ap (λ xs. length (filter (in_window r.per_seconds d) xs)) kept
          ∙ ap length (
              filter-All (in_window r.per_seconds d) (u ∷ us) (
                ground arith,
                All-map (λ y. u ≤ y) (λ y. in_window r.per_seconds d y ≡ true) us
                    (λ y h. ground arith) sorted.0,
              ))
          ∙ sym recent_now;
    }

module _ (r : RateLimitRule) (accepted : rule_accepted r ≡ true) (g : List ℕ) (now : ℕ) where
  kept_with_now :
      filter (in_window r.per_seconds now) (g ++ now ∷ [])
      ≡ filter (in_window r.per_seconds now) g ++ now ∷ []
  unfolding rule_accepted
  kept_with_now = filter-append (in_window r.per_seconds now) g (now ∷ []) ∙ ground arith

  attempt-granted :
      recent r g now < r.max_calls
      → attempt now (record { rule = r; calls = g }) ≡ (granted, remembering r (g ++ now ∷ []) now)
  unfolding attempt
  attempt-granted h =
      rw (kept_with_now, length-filter (in_window r.per_seconds now) g, lt→ltb _ _ h)

  kept-pos : r.max_calls ≤ recent r g now → 0 < length (filter (in_window r.per_seconds now) g)
  unfolding rule_accepted
  kept-pos h = ground (arith, length-filter (in_window r.per_seconds now) g)

  attempt-full :
      Sorted g
      → r.max_calls ≤ recent r g now
      → (target : ℕ) × FirstFree r g now target
        × (attempt now (record { rule = r; calls = g }) ≡ (wait_until target, remembering r g now))
  unfolding attempt oldest
  attempt-full sorted h =
      let (u, us, e) = nonempty (filter (in_window r.per_seconds now) g) (kept-pos h) in
      (
        u + r.per_seconds,
        kept-FirstFree r g now u us e
            (subst Sorted e (Sorted-filter (in_window r.per_seconds now) g sorted)),
        rw (length-filter (in_window r.per_seconds now) g, le→not_ltb _ _ h, e),
      )

-- A call is let through when fewer than `max_calls` were in the last `per_seconds`, and else waits
-- until a slot is free. What the bucket remembers is enough to tell.
pub data Admits (r : RateLimitRule) (g : List ℕ) (now : ℕ) : Slot × TokenBucket → Type 0 where
  lets_through :
      {a : Slot × TokenBucket}
      → recent r g now < r.max_calls
      → a ≡ (granted, remembering r (g ++ now ∷ []) now)
      → Admits r g now a
  holds_back :
      {a : Slot × TokenBucket} (target : ℕ)
      → r.max_calls ≤ recent r g now
      → FirstFree r g now target
      → a ≡ (wait_until target, remembering r g now)
      → Admits r g now a

module _ (r : RateLimitRule) (accepted : rule_accepted r ≡ true) where
  -- What holds of the history at a reading `t` of the clock.
  pub record Past (g : List ℕ) (t : ℕ) : Type 0 where
    pub sorted : Sorted g
    pub until : All (λ u. u ≤ t) g
    pub bounded : recent r g t ≤ r.max_calls
    pub spaced : (s : ℕ) → count (within r.per_seconds s) g ≤ r.max_calls

  pub attempt-Admits :
      (g : List ℕ) (t now : ℕ)
      → Past g t
      → t ≤ now
      → Admits r g now (attempt now (remembering r g t))
  attempt-Admits g t now past later =
      let same = attempt-remembering r g t now later in
      elim (Bool-cases (ltb (recent r g now) r.max_calls)) [
        | inl few ↦
            let h : recent r g now < r.max_calls = ltb→lt _ _ few in
            lets_through h (same ∙ attempt-granted r accepted g now h)
        | inr many ↦
            let h : r.max_calls ≤ recent r g now = ground arith in
            let (target, first, e) = attempt-full r accepted g now past.sorted h in
            holds_back target h first (same ∙ e)
      ]

  spaced-append :
      (g : List ℕ) (t now : ℕ)
      → Past g t
      → recent r g now < r.max_calls
      → (s : ℕ) → count (within r.per_seconds s) (g ++ now ∷ []) ≤ r.max_calls
  spaced-append g t now past few s =
      let fewer = λ (h : s ≤ now) (k : now < s + r.per_seconds).
        count_mono (within r.per_seconds s) (in_window r.per_seconds now) (λ u m. ground arith) g in
      elim (Bool-cases (within r.per_seconds s now)) [
        | inl here ↦ ground (
          arith,
          fewer (ground arith) (ground arith),
          count-append (within r.per_seconds s) g (now ∷ []),
        )
        | inr away ↦
            ground (arith, past.spaced s, count-append (within r.per_seconds s) g (now ∷ []))
      ]

  pub Past-append :
      (g : List ℕ) (t now : ℕ)
      → t ≤ now
      → Past g t
      → recent r g now < r.max_calls
      → Past (g ++ now ∷ []) now
  Past-append g t now later past few =
      let below = All-map (λ u. u ≤ t) (λ u. u ≤ now) g (λ u h. omega arith) past.until in
      record {
        sorted = Sorted-append g now past.sorted below;
        until = All-append (λ u. u ≤ now) g (now ∷ []) below (omega arith, tt);
        bounded = ground (arith, count-append (in_window r.per_seconds now) g (now ∷ []));
        spaced = spaced-append g t now past few;
      }

  pub Past-later : (g : List ℕ) (t now : ℕ) → t ≤ now → Past g t → Past g now
  Past-later g t now later past = record {
    sorted = past.sorted;
    until = All-map (λ u. u ≤ t) (λ u. u ≤ now) g (λ u h. omega arith) past.until;
    bounded = omega (
      arith,
      past.bounded,
      count_mono (in_window r.per_seconds now) (in_window r.per_seconds t) (λ u h. ground arith) g,
    );
    spaced = past.spaced;
  }

  -- The invariant of the attempts: the bucket is the pruned history.
  abbrev pub Sound : TokenBucket → List ℕ → ℕ → Type 0
  Sound b g t = (b ≡ remembering r g t) × Past g t

  Admits-Sound :
      (g : List ℕ) (t now : ℕ) {a : Slot × TokenBucket}
      → t ≤ now
      → Admits r g now a
      → Past g t
      → Sound a.1 (recorded a.0 now g) now
  Admits-Sound g t now later (lets_through few e) past =
      rw e (refl, Past-append g t now later past few)
  Admits-Sound g t now later (holds_back target _ _ e) past =
      rw e (refl, Past-later g t now later past)

  pub Attempts-Sound : {b : TokenBucket} {g : List ℕ} {t : ℕ} → Attempts r b g t → Sound b g t
  Attempts-Sound start =
      (refl, record { sorted = tt; until = tt; bounded = omega arith; spaced = λ s. omega arith })
  Attempts-Sound (next {b} {g} {t} now before later) =
      let (same, past) = Attempts-Sound before in
      rw same (Admits-Sound g t now later (attempt-Admits g t now past later) past)

  -- However the calls of several threads interleave, no window of `per_seconds` holds more than
  -- `max_calls` of the calls that a bucket let through.
  pub Attempts-spaced :
      {b : TokenBucket} {g : List ℕ} {t : ℕ}
      → Attempts r b g t
      → (s : ℕ) → count (within r.per_seconds s) g ≤ r.max_calls
  Attempts-spaced run = (Attempts-Sound run).1.spaced

  Admits-granted_iff :
      {g : List ℕ} {now : ℕ} {a : Slot × TokenBucket}
      → Admits r g now a
      → (a.0 ≡ granted) ↔ (recent r g now < r.max_calls)
  Admits-granted_iff (lets_through few e) = rw e (λ _. few, λ _. refl)
  Admits-granted_iff (holds_back target many _ e) = rw e (λ h. cc, λ h. absurd (omega arith))

  -- A bucket that has run lets the next call through exactly when fewer than `max_calls` of all the
  -- calls it ever let through lie in the last `per_seconds`, though it remembers only some of them.
  pub attempt-granted_iff :
      {b : TokenBucket} {g : List ℕ} {t : ℕ} (now : ℕ)
      → Attempts r b g t
      → t ≤ now
      → ((attempt now b).0 ≡ granted) ↔ (recent r g now < r.max_calls)
  attempt-granted_iff {g} {t} now run later =
      let (same, past) = Attempts-Sound run in
      rw same (Admits-granted_iff (attempt-Admits g t now past later))
