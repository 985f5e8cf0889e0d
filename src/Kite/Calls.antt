-- ===== src/Kite/Calls.antt =====
-- src/algo/brokers/kite/kite_broker.py: how a call of the client is made: a read again after an error
-- that may pass, up to a number of attempts, and a call that changes an order once.
use trading_project.Base.{
  [], ◌∷◌, ◌≢◌, ℕ, zero, suc, ◌+◌, ◌≤◌, ◌<◌, ◌≡◌, inl, inr, refl, String, Bool, true, false, ◌||◌,
  not, some, Bool-cases, eqb, eqb_iff, if◌then◌else◌, arith,
}
use trading_project.Broker.{PlaceOrderRequest, ModifyOrderRequest, BrokerError}
use trading_project.Broker.Contract.{PlaceOrderResult}
use trading_project.Kite.{Kite, KiteDict, Value}
use trading_project.Kite.Values.{str_of}
use trading_project.Kite.Requests.{place_order_kwargs, modify_order_kwargs}
use trading_project.Kite.Faults.{
  KiteException, order, Translated, as_broker, translate_kite_exception,
}

-- What a call of the client comes to.
pub data Fetched (A : Type 0) : Type 0 where
  got : A → Fetched A
  failed : KiteException → Fetched A

-- What the caller sees. `no_error` is the failed assertion after no attempt at all.
pub data Reported (A : Type 0) : Type 0 where
  result : A → Reported A
  raised : Translated → Reported A
  no_error : Reported A

-- the subclasses of `RetryableBrokerError`
unfoldable pub is_retryable : Translated → Bool
is_retryable (as_broker BrokerError.connection) = true
is_retryable (as_broker BrokerError.timeout) = true
is_retryable (as_broker BrokerError.rate_limit_exceeded) = true
is_retryable _ = false

-- A client of any state, and its calls.
abbrev pub ClientCall : Type 0 → Type 0 → Type 0
ClientCall S A = S → Fetched A × S

module _ {S A : Type 0} where
  -- after an error, in front of the attempts that are left: `expired` says whether the clock leaves
  -- no time for one more delay
  after_failure : Translated → Bool → Bool → (S → Reported A × S) → S → Reported A × S
  after_failure t last expired rest s =
      if not (is_retryable t)
      then (raised t, s)
      else if last || expired
      then (raised t, s)
      else rest s

  after_fetch : Fetched A → Bool → Bool → (S → Reported A × S) → S → Reported A × S
  unfolding after_failure
  after_fetch (got a) last expired rest s = (result a, s)
  after_fetch (failed e) last expired rest s =
      after_failure (translate_kite_exception e false) last expired rest s

  -- `_read`, by the attempts that are left
  unfoldable pub read : ℕ → (ℕ → Bool) → ClientCall S A → S → Reported A × S
  unfolding after_fetch
  read zero expired call s = (no_error, s)
  read (suc n) expired call s =
      let (answer, s') = call s in
      after_fetch answer (eqb n 0) (expired n) (λ t. read n expired call t) s'

abbrev as_mutation : KiteException → Translated
as_mutation e = translate_kite_exception e true

-- `except OrderException` in front of the translation
unless_order : BrokerError → KiteException → Translated
unless_order refusal order = as_broker refusal
unless_order refusal e = translate_kite_exception e true

module _ {S : Type 0} (k : Kite) where
  or_raise :
      {A B : Type 0} → (KiteException → Translated) → (A → B) → Fetched A × S → Reported B × S
  or_raise translate f (got a, s) = (result (f a), s)
  or_raise translate f (failed e, s) = (raised (translate e), s)

  unfoldable pub place_order :
      (KiteDict → ClientCall S Value) → PlaceOrderRequest → S → Reported PlaceOrderResult × S
  unfolding or_raise
  place_order client r s =
      or_raise as_mutation
        (λ id. record {
          broker_order_id = str_of k id;
          raw_response = some (k.payload (("order_id", id) ∷ []));
        })
        (client (place_order_kwargs k r) s)

  unfoldable pub modify_order :
      (KiteDict → ClientCall S Value) → ModifyOrderRequest → S → Reported (Unit {0}) × S
  unfolding or_raise unless_order
  modify_order client r s =
      or_raise (unless_order BrokerError.order_not_modifiable) (λ _. tt)
        (client (modify_order_kwargs k r) s)

  unfoldable pub cancel_order :
      (String → String → ClientCall S Value) → String → S → Reported (Unit {0}) × S
  unfolding or_raise unless_order
  cancel_order client id s =
      or_raise (unless_order BrokerError.order_not_cancellable) (λ _. tt)
        (client k.variety_regular id s)

-- What a state has seen of calls, and a call that is seen once.
module _ {S A : Type 0} (calls : S → ℕ) (call : ClientCall S A)
    (counted : (s : S) → calls (call s).1 ≡ suc (calls s)) where
  -- What a read comes to in at most `n` attempts: it makes one at least and no more than `n`, and
  -- reports an error that may pass only after all of them, as long as the clock leaves time.
  pub record Tried (n : ℕ) (expired : ℕ → Bool) (before : S) (r : Reported A × S) : Type 0 where
    pub at_least_once : calls before < calls r.1
    pub at_most : calls r.1 ≤ calls before + n
    pub gives_up :
        (t : Translated)
        → r.0 ≡ raised t
        → is_retryable t ≡ true
        → ((m : ℕ) → expired m ≡ false)
        → calls r.1 ≡ calls before + n
    pub answers : r.0 ≢ no_error

  module _ (expired : ℕ → Bool) (s s' : S) (one_more : calls s' ≡ suc (calls s)) where
    -- an error that does not pass, or a result
    result-Tried : (n : ℕ) (a : A) → Tried (suc n) expired s (result a, s')
    result-Tried n a = record {
      at_least_once = omega arith;
      at_most = omega arith;
      gives_up = λ t e. cc;
      answers = λ e. cc;
    }

    raised-Tried :
        (n : ℕ) (t : Translated)
        → (is_retryable t ≡ true → ((m : ℕ) → expired m ≡ false) → n ≡ 0)
        → Tried (suc n) expired s (raised t, s')
    raised-Tried n t only_last = record {
      at_least_once = omega arith;
      at_most = omega arith;
      gives_up = λ u e passes in_time.
          let same : t ≡ u = cc in
          let passes' : is_retryable t ≡ true = rw same passes in
          omega (arith, only_last passes' in_time);
      answers = λ e. cc;
    }

    later-Tried : (n : ℕ) (r : Reported A × S) → Tried n expired s' r → Tried (suc n) expired s r
    later-Tried n r tried = record {
      at_least_once = omega (arith, tried.at_least_once);
      at_most = omega (arith, tried.at_most);
      gives_up = λ t e passes in_time. omega (arith, tried.gives_up t e passes in_time);
      answers = tried.answers;
    }

    after_failure-Tried :
        (n : ℕ) (t : Translated) (rest : S → Reported A × S)
        → (n ≢ 0 → Tried n expired s' (rest s'))
        → Tried (suc n) expired s (after_failure t (eqb n 0) (expired n) rest s')
    unfolding after_failure
    after_failure-Tried n t rest again = elim (Bool-cases (is_retryable t)) [
      | inr final ↦ rw final (raised-Tried n t (λ passes in_time. cc))
      | inl passes ↦ rw passes (elim (Bool-cases (eqb n 0)) [
        | inl last ↦ rw last (raised-Tried n t (λ _ _. (eqb_iff n 0).0 last))
        | inr more ↦ rw more (elim (Bool-cases (expired n)) [
          | inl late ↦ rw late (raised-Tried n t (λ _ in_time. let early = in_time n in cc))
          | inr early ↦
              rw early (later-Tried n (rest s') (again (λ is_zero. absurd (ground arith))))
        ])
      ])
    ]

    after_fetch-Tried :
        (n : ℕ) (answer : Fetched A) (rest : S → Reported A × S)
        → (n ≢ 0 → Tried n expired s' (rest s'))
        → Tried (suc n) expired s (after_fetch answer (eqb n 0) (expired n) rest s')
    unfolding after_fetch
    after_fetch-Tried n (got a) rest again = result-Tried n a
    after_fetch-Tried n (failed e) rest again =
        after_failure-Tried n (translate_kite_exception e false) rest again

  -- A read with at least one attempt makes between one call of the client and as many as it has
  -- attempts, ends with a result or an error, and reports an error that may pass only after all its
  -- attempts, unless the clock ran out.
  pub read-Tried :
      (n : ℕ) (expired : ℕ → Bool) (s : S) → Tried (suc n) expired s (read (suc n) expired call s)
  unfolding read
  read-Tried zero expired s =
      after_fetch-Tried expired s (call s).1 (counted s) 0 (call s).0 _
        (λ nonzero. absurd (nonzero refl))
  read-Tried (suc n) expired s =
      after_fetch-Tried expired s (call s).1 (counted s) (suc n) (call s).0 _
        (λ _. read-Tried n expired (call s).1)
