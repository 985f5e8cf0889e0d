-- ===== src/Strike/Nearest.antt =====
-- The strike next to the spot price, and what a selection holds.
use mathlib.Core.Path.{subst}
use trading_project.Base.{
  ℕ, ◌+◌, ◌*◌, ◌/◌, ◌≤◌, ◌<◌, ◌≡◌, refl, inl, inr, String, some, arith, nat_eq, option_eq,
}
use trading_project.Base.Int.{ℤ, pos, int_eq}
use trading_project.Enums.{OptionType, option_type_eq, exchange_eq}
use trading_project.Result.{Result, ok, Result-cases}
use trading_project.Broker.{BrokerInstrument, BrokerError, BrokerResult, returned, raised}
use trading_project.Strike.{
  InstrumentSpec, StraddleStrikeSelection, round_half_up, compute_atm_strike, ContractRequest,
  validate_resolved_contract, contract_answer, resolve_contract, leg_request, select,
}

div_bounds : (n d : ℕ) → 0 < d → (n / d * d ≤ n) × (n < n / d * d + d)
div_bounds n d h = grind arith

-- The strike is a multiple of the interval, at most half an interval away from the spot, and above it
-- where two are equally near.
pub record IsNearest (spot interval strike : ℕ) : Type 0 where
  pub steps : ℕ
  pub multiple : strike ≡ steps * interval
  pub not_far_above : 2 * strike ≤ 2 * spot + interval
  pub not_far_below : 2 * spot < 2 * strike + interval

round_half_up-IsNearest :
    (spot interval : ℕ)
    → 0 < interval
    → IsNearest spot interval (round_half_up spot interval * interval)
round_half_up-IsNearest spot interval h =
    let (low, high) = div_bounds (2 * spot + interval) (2 * interval) (omega arith) in
    let twice : round_half_up spot interval * (2 * interval)
        ≡ 2 * (round_half_up spot interval * interval) =
      grind arith in
    record {
      steps = round_half_up spot interval;
      multiple = refl;
      not_far_above = omega (arith, low, twice);
      not_far_below = omega (arith, high, twice);
    }

-- For a positive price and interval the strike is computed, and it is the nearest one.
pub compute_atm_strike-IsNearest :
    (spot interval : ℕ)
    → 0 < spot
    → 0 < interval
    → (strike : ℕ) × (compute_atm_strike (pos spot) (pos interval) ≡ ok (pos strike))
      × IsNearest spot interval strike
unfolding compute_atm_strike
compute_atm_strike-IsNearest spot interval hs hi =
    (round_half_up spot interval * interval, ground arith, round_half_up-IsNearest spot interval hi)

-- A contract that was asked for.
pub record Answers (r : ContractRequest) (c : BrokerInstrument) : Type 0 where
  pub strike : c.strike ≡ some r.strike
  pub expiry : c.expiry ≡ some r.expiry
  pub option_type : c.option_type ≡ some r.option_type
  pub exchange : c.exchange ≡ r.exchange

validated-Answers :
    (c : BrokerInstrument) (r : ContractRequest)
    → validate_resolved_contract c r ≡ ok tt
    → Answers r c
unfolding validate_resolved_contract
validated-Answers c r h = record {
  strike = (option_eq.beq_iff c.strike (some r.strike)).0 (ground (arith, h));
  expiry = (option_eq.beq_iff c.expiry (some r.expiry)).0 (ground (arith, h));
  option_type = (option_eq.beq_iff c.option_type (some r.option_type)).0 (ground (arith, h));
  exchange = (exchange_eq.beq_iff c.exchange r.exchange).0 (ground (arith, h));
}

answer-Answers :
    (r : ContractRequest) (a : BrokerResult BrokerInstrument) (c : BrokerInstrument)
    → contract_answer r a ≡ ok c
    → Answers r c
unfolding contract_answer
answer-Answers r (returned c') c h = elim (Result-cases (validate_resolved_contract c' r)) [
  | inl (done, valid) ↦
      let same : c' ≡ c = ground (arith, valid) in
      subst (Answers r) same (validated-Answers c' r valid)
  | inr (e, refused) ↦ absurd (ground (arith, refused))
]
answer-Answers r (raised BrokerError.instrument_not_found) c h = cc
answer-Answers r (raised BrokerError.connection) c h = cc
answer-Answers r (raised BrokerError.timeout) c h = cc
answer-Answers r (raised BrokerError.rate_limit_exceeded) c h = cc
answer-Answers r (raised BrokerError.authentication) c h = cc
answer-Answers r (raised BrokerError.order_rejected) c h = cc
answer-Answers r (raised BrokerError.order_not_found) c h = cc
answer-Answers r (raised BrokerError.order_not_modifiable) c h = cc
answer-Answers r (raised BrokerError.order_not_cancellable) c h = cc
answer-Answers r (raised BrokerError.invalid_order_request) c h = cc

-- What a selection holds, whatever the broker answered.
pub record IsStraddle (spec : InstrumentSpec) (spot : ℤ) (r : StraddleStrikeSelection)
    : Type 0 where
  pub spot_price : r.spot_ltp ≡ spot
  pub strike : compute_atm_strike spot spec.strike_interval ≡ ok r.atm_strike
  pub call_strike : r.call.strike ≡ some r.atm_strike
  pub put_strike : r.put.strike ≡ some r.atm_strike
  pub call_expiry : r.call.expiry ≡ some r.expiry
  pub put_expiry : r.put.expiry ≡ some r.expiry
  pub call_type : r.call.option_type ≡ some OptionType.ce
  pub put_type : r.put.option_type ≡ some OptionType.pe
  pub call_exchange : r.call.exchange ≡ spec.exchange
  pub put_exchange : r.put.exchange ≡ spec.exchange

-- Two legs that a broker returned are taken only if they are the call and the put of the strike next
-- to the spot price, of one expiry, on the instrument's exchange.
pub select-IsStraddle :
    (find : ContractRequest → BrokerResult BrokerInstrument) (instrument : String)
    (spec : InstrumentSpec) (expiry : Result ℕ) (spot : ℤ) (r : StraddleStrikeSelection)
    → select find instrument spec expiry spot ≡ ok r
    → IsStraddle spec spot r
unfolding select resolve_contract
select-IsStraddle find instrument spec expiry spot r h =
    elim (Result-cases (compute_atm_strike spot spec.strike_interval)) [
      | inr (e, no_strike) ↦ absurd (ground (arith, no_strike))
      | inl (k, strike) ↦ elim (Result-cases expiry) [
        | inr (e, no_expiry) ↦ absurd (ground (arith, strike, no_expiry))
        | inl (d, day) ↦
            let ask = λ (t : OptionType). leg_request find instrument spec k d t in
            elim (Result-cases (resolve_contract find (ask OptionType.ce))) [
              | inr (e, no_call) ↦ absurd (ground (arith, strike, day, no_call))
              | inl (c, call) ↦ elim (Result-cases (resolve_contract find (ask OptionType.pe))) [
                | inr (e, no_put) ↦ absurd (ground (arith, strike, day, call, no_put))
                | inl (p, put) ↦
                    let ac = answer-Answers (ask OptionType.ce) (find (ask OptionType.ce)) c call in
                    let ap = answer-Answers (ask OptionType.pe) (find (ask OptionType.pe)) p put in
                    record {
                      spot_price = ground (arith, strike, day, call, put);
                      strike = ground (arith, strike, day, call, put);
                      call_strike = ground (arith, strike, day, call, put, ac.strike);
                      put_strike = ground (arith, strike, day, call, put, ap.strike);
                      call_expiry = ground (arith, strike, day, call, put, ac.expiry);
                      put_expiry = ground (arith, strike, day, call, put, ap.expiry);
                      call_type = ground (arith, strike, day, call, put, ac.option_type);
                      put_type = ground (arith, strike, day, call, put, ap.option_type);
                      call_exchange = ground (arith, strike, day, call, put, ac.exchange);
                      put_exchange = ground (arith, strike, day, call, put, ap.exchange);
                    }
              ]
            ]
      ]
    ]
