-- ===== src/Action/Triple.antt =====
-- What an action that starts in one kind of state leaves behind, by its result: an invariant that
-- the steps of a procedure move forward.
use trading_project.Base.{◌≡◌, refl, Bool, true, false, if◌then◌else◌}
use trading_project.Result.{Error, Result, ok, err}
use trading_project.Action.{Action, pure, raise, lift, continue, ◌>>=◌, committed, unit_of_work}
use trading_project.Action.Keeps.{Keeps}

pub record Triple {ℓ κ} {S A : Type ℓ} (P : S → Type κ) (m : Action S A) (Q : Result A → S → Type κ)
    : Type (ℓ ⊔ κ) where
  pub from : (s : S) → P s → Q (m s).0 (m s).1

module _ {ℓ κ} {S A : Type ℓ} {P : S → Type κ} where
  pub Triple-pure :
      {Q : Result A → S → Type κ} (a : A) → ((s : S) → P s → Q (ok a) s) → Triple P (pure a) Q
  Triple-pure a k = record { from = k }

  pub Triple-raise :
      {Q : Result A → S → Type κ} (e : Error) → ((s : S) → P s → Q (err e) s) → Triple P (raise e) Q
  Triple-raise e k = record { from = k }

  either :
      (Q : Result A → S → Type κ) (r : Result A) (s : S)
      → ((a : A) (t : S) → P t → Q (ok a) t)
      → ((e : Error) (t : S) → P t → Q (err e) t)
      → P s
      → Q r s
  either Q (ok a) s done stop h = done a s h
  either Q (err e) s done stop h = stop e s h

  pub Keeps-Triple :
      {Q : Result A → S → Type κ} (m : Action S A)
      → Keeps P m
      → ((a : A) (t : S) → P t → Q (ok a) t)
      → ((e : Error) (t : S) → P t → Q (err e) t)
      → Triple P m Q
  Keeps-Triple {Q} m k done stop = record {
    from = λ s h. let (r, t) = m s in either Q r t done stop (k.from s h);
  }

  -- what is known beside the state
  pub Triple-known :
      {Q : Result A → S → Type κ} {F : Type κ} (m : Action S A)
      → (F → Triple P m Q)
      → Triple (λ s. F × P s) m Q
  Triple-known m k = record { from = λ s h. let (known, holds) = h in (k known).from s holds }

  pub Triple-if :
      {Q : Result A → S → Type κ} (t : Bool) (m n : Action S A)
      → (t ≡ true → Triple P m Q)
      → (t ≡ false → Triple P n Q)
      → Triple P (if t then m else n) Q
  Triple-if true m n km kn = km refl
  Triple-if false m n km kn = kn refl

module _ {ℓ κ} {S A B : Type ℓ} where
  continue-Triple :
      (R : Result A → S → Type κ) (Q : Result B → S → Type κ) (r : Result A) (f : A → Action S B)
      (s : S)
      → ((a : A) → Triple (R (ok a)) (f a) Q)
      → ((e : Error) (t : S) → R (err e) t → Q (err e) t)
      → R r s
      → Q (continue r f s).0 (continue r f s).1
  continue-Triple R Q (ok a) f s k stop h = (k a).from s h
  continue-Triple R Q (err e) f s k stop h = stop e s h

module _ {ℓ κ} {S A B : Type ℓ} {P : S → Type κ} where
  pub Triple-bind :
      {Q : Result B → S → Type κ} (R : Result A → S → Type κ) (m : Action S A) (f : A → Action S B)
      → Triple P m R
      → ((e : Error) (t : S) → R (err e) t → Q (err e) t)
      → ((a : A) → Triple (R (ok a)) (f a) Q)
      → Triple P (m >>= f) Q
  unfolding ◌>>=◌
  Triple-bind {Q} R m f km stop k = record {
    from = λ s h. let (r, s') = m s in continue-Triple R Q r f s' k stop (km.from s h);
  }

  -- a step that keeps the state of affairs, in front
  pub Keeps-then :
      {Q : Result B → S → Type κ} (m : Action S A) (f : A → Action S B)
      → Keeps P m
      → ((e : Error) (t : S) → P t → Q (err e) t)
      → ((a : A) → Triple P (f a) Q)
      → Triple P (m >>= f) Q
  Keeps-then m f km stop k = Triple-bind (λ _. P) m f (record { from = km.from }) stop k

module _ {ℓ κ} {S A : Type ℓ} {P : S → Type κ} where
  committed-Triple :
      (R Q : Result A → S → Type κ) (m : Action S A) (s : S) (r : Result A × S)
      → ((a : A) (t : S) → R (ok a) t → Q (ok a) t)
      → ((e : Error) (t : S) → P t → Q (err e) t)
      → P s
      → R r.0 r.1
      → Q (committed m s r).0 (committed m s r).1
  unfolding committed
  committed-Triple R Q m s (ok a, t) done stop before h = done a t h
  committed-Triple R Q m s (err e, t) done stop before h = stop e s before

  -- a unit of work that raises leaves what it found
  pub Triple-unit_of_work :
      {Q : Result A → S → Type κ} (R : Result A → S → Type κ) (m : Action S A)
      → Triple P m R
      → ((a : A) (t : S) → R (ok a) t → Q (ok a) t)
      → ((e : Error) (t : S) → P t → Q (err e) t)
      → Triple P (unit_of_work m) Q
  unfolding unit_of_work
  Triple-unit_of_work {Q} R m k done stop = record {
    from = λ s h. committed-Triple R Q m s (m s) done stop h (k.from s h);
  }

module _ {ℓ} {S A : Type ℓ} {P : S → Type ℓ} where
  pub Triple-lift : (r : Result A) → Triple P (lift r) (λ r' s. (r ≡ r') × P s)
  Triple-lift r = record { from = λ s h. (refl, h) }

-- A run that led to a result and a state, from a state of which `P` held.
pub record Ran {ℓ} {S A : Type ℓ} (P : S → Type ℓ) (m : Action S A) (r : Result A) (t : S)
    : Type ℓ where
  pub start : S
  pub held : P start
  pub run : m start ≡ (r, t)

module _ {ℓ} {S A : Type ℓ} {P Q : S → Type ℓ} where
  -- what a run leaves, beside the run itself
  pub Triple-Ran :
      {R : Result A → S → Type ℓ} (m : Action S A)
      → ((s : S) → Q s → P s)
      → Triple P m R
      → Triple Q m (λ r t. Ran Q m r t × R r t)
  Triple-Ran m weaker k = record {
    from = λ s h. (record { start = s; held = h; run = refl }, k.from s (weaker s h));
  }
