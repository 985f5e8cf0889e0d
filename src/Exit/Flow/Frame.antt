-- ===== src/Exit/Flow/Frame.antt =====
-- Closing the legs, whatever the broker answers, leaves the position row to the steps around it.
use mathlib.Core.Path.{subst}
use trading_project.Base.{
  ℕ, nat_eq, ◌≡◌, ◌⊎◌, inl, inr, ◌∙◌, ap, sym, refl, arith, String, Option, none, some, List, [],
  ◌∷◌,
}
use trading_project.Base.Int.{ℤ}
use trading_project.Base.Dict.{Dict}
use trading_project.Enums.{OptionType, PositionState, ExitReason}
use trading_project.Models.{Position, Trade}
use trading_project.Result.{Result, ok, err, Error}
use trading_project.Action.{◌>>=◌, continue, unit_of_work, committed, pure}
use trading_project.Store.Moves.{moved_store, start_exit}
use trading_project.Broker.{BrokerOrder}
use trading_project.Action.Keeps.{
  Keeps, Keeps-bind, Keeps-raise, Keeps-pure, Keeps-lift, Keeps-unit_of_work,
}
use trading_project.Store.{Store, Db, find_trade}
use trading_project.Store.Frame.{
  Holds, get_trade_by_id_lem, get_trade_by_id-Holds, set_trade-Holds, mark_placed-Holds,
  mark_confirmed-Holds, mark_failed-Holds, get_or_create_intent-Holds, create_order-Holds,
  reconcile_order_terminal-Holds,
}
use trading_project.Exit.Flow.{
  ExitOutcome, ExitResult, result, Prepared, prepared, finished, actor_by_reason, prepare_position,
  prepare_found, position_of_day, prepare_exit, ExitConfig, ExitLeg, prepare_legs, trade_exists,
  record_close_fill, record_refused_close, record_rejected_close, acknowledge_close, leg_status,
  read_leg,
}

module _ (cfg : ExitConfig) (now trade_date : ℕ) (q : Option Position) where
  pub prepare_legs-Holds :
      (ts : List Trade) (legs : Dict OptionType ExitLeg)
      → Keeps (Holds q) (prepare_legs cfg now trade_date ts legs)
  unfolding prepare_legs
  prepare_legs-Holds [] legs = Keeps-pure legs
  prepare_legs-Holds (t ∷ ts) legs = Keeps-bind _ _ (Keeps-lift _) (λ _.
      Keeps-bind _ _ (get_or_create_intent-Holds q _ _ t.id t.quantity)
        (λ id. prepare_legs-Holds ts _))

  trade_exists-Holds : (o : Option Trade) → Keeps (Holds q) (trade_exists cfg now trade_date o)
  unfolding trade_exists
  trade_exists-Holds none = Keeps-raise _
  trade_exists-Holds (some t) = Keeps-pure tt

  pub record_close_fill-Holds :
      (leg : ExitLeg) (id : String) (price : ℤ) (bo : BrokerOrder)
      → Keeps (Holds q) (record_close_fill cfg now trade_date leg id price bo)
  unfolding record_close_fill
  record_close_fill-Holds leg id price bo =
      Keeps-bind _ _ (Keeps-unit_of_work _ (reconcile_order_terminal-Holds q id bo _)) (λ _.
        Keeps-unit_of_work _ (
          Keeps-bind _ _ (get_trade_by_id-Holds q leg.trade_id) (λ o.
            Keeps-bind _ _ (trade_exists-Holds o) (λ _.
              Keeps-bind _ _ (set_trade-Holds q leg.trade_id _)
                (λ _. mark_confirmed-Holds q leg.intent_id)))))

  pub record_refused_close-Holds :
      (leg : ExitLeg) → Keeps (Holds q) (record_refused_close cfg now trade_date leg)
  unfolding record_refused_close
  record_refused_close-Holds leg = Keeps-unit_of_work _ (
      Keeps-bind _ _ (Keeps-lift _) (λ _.
        Keeps-bind _ _ (create_order-Holds q _ _ _ _ _ _) (λ _. mark_failed-Holds q leg.intent_id)))

  pub record_rejected_close-Holds :
      (leg : ExitLeg) (id : String) (bo : BrokerOrder)
      → Keeps (Holds q) (record_rejected_close cfg now trade_date leg id bo)
  unfolding record_rejected_close
  record_rejected_close-Holds leg id bo =
      Keeps-bind _ _ (Keeps-unit_of_work _ (reconcile_order_terminal-Holds q id bo now))
        (λ _. Keeps-unit_of_work _ (mark_failed-Holds q leg.intent_id))

  pub acknowledge_close-Holds :
      (leg : ExitLeg) (id : String) → Keeps (Holds q) (acknowledge_close cfg now trade_date leg id)
  unfolding acknowledge_close
  acknowledge_close-Holds leg id = Keeps-unit_of_work _ (
      Keeps-bind _ _ (Keeps-lift _) (λ _.
        Keeps-bind _ _ (create_order-Holds q _ _ _ _ _ _) (λ _. mark_placed-Holds q leg.intent_id)))

  leg_status-Holds :
      (leg : ExitLeg) (o : Option Trade) → Keeps (Holds q) (leg_status cfg now trade_date leg o)
  unfolding leg_status
  leg_status-Holds leg none = Keeps-raise _
  leg_status-Holds leg (some t) = Keeps-pure _

  pub read_leg-Holds : (leg : ExitLeg) → Keeps (Holds q) (read_leg cfg now trade_date leg)
  unfolding read_leg
  read_leg-Holds leg = Keeps-bind _ _ (get_trade_by_id-Holds q leg.trade_id) (leg_status-Holds leg)

-- What preparing the exit of an open position may come to: the legs, with the row in EXIT_PENDING,
-- or a refusal that left the row.
pub data Began (p : Position) : Result Prepared × Store → Type 0 where
  began :
      {s : Store} (legs : Dict OptionType ExitLeg)
      → s.position ≡ some (record p { state = PositionState.exit_pending })
      → Began p (ok (prepared p.id legs), s)
  refused : {s : Store} {e : Error} → s.position ≡ some p → Began p (err e, s)

legs_prepared : ℕ → Dict OptionType ExitLeg → Db Prepared
legs_prepared id legs = pure (prepared id legs)

module _ (cfg : ExitConfig) (now trade_date : ℕ) (reason : ExitReason) (p : Position) where
  committed-Began :
      (m : Db Prepared) (before : Store) (r : Result (Dict OptionType ExitLeg)) (s : Store)
      → before.position ≡ some p
      → s.position ≡ some (record p { state = PositionState.exit_pending })
      → Began p (committed m before (continue r (legs_prepared p.id) s))
  unfolding committed legs_prepared
  committed-Began m before (ok legs) s h k = began legs k
  committed-Began m before (err e) s h k = refused h

  prepare_position-Began :
      (m : Db Prepared) (before s : Store) (state : PositionState)
      → p.state ≡ state
      → (state ≡ PositionState.opened) ⊎ (state ≡ PositionState.exit_pending)
      → before.position ≡ some p
      → s.position ≡ some p
      → Began p (committed m before (prepare_position cfg now trade_date reason p state s))
  unfolding prepare_position ◌>>=◌ legs_prepared
  prepare_position-Began m before s PositionState.opened at _ hb h =
      let p' : Position = record p { state = PositionState.exit_pending } in
      let s' =
        moved_store p PositionState.exit_pending (actor_by_reason reason) (some "exit triggered")
          s in
      let kept = (prepare_legs-Holds cfg now trade_date (some p') s.trades []).from s' refl in
      let (r, s'') = prepare_legs cfg now trade_date s.trades [] s' in
      rw (start_exit p (actor_by_reason reason) (some "exit triggered") s at)
        (committed-Began m before r s'' hb kept)
  prepare_position-Began m before s PositionState.exit_pending at _ hb h =
      let same : p ≡ record p { state = PositionState.exit_pending } =
        ap (λ x. record p { state = x }) at in
      let kept = (prepare_legs-Holds cfg now trade_date _ s.trades []).from s (h ∙ ap some same) in
      let (r, s'') = prepare_legs cfg now trade_date s.trades [] s in
      committed-Began m before r s'' hb kept
  prepare_position-Began m before s PositionState.idle at (inl h) hb h' = cc
  prepare_position-Began m before s PositionState.idle at (inr h) hb h' = cc
  prepare_position-Began m before s PositionState.entry_pending at (inl h) hb h' = cc
  prepare_position-Began m before s PositionState.entry_pending at (inr h) hb h' = cc
  prepare_position-Began m before s PositionState.closed at (inl h) hb h' = cc
  prepare_position-Began m before s PositionState.closed at (inr h) hb h' = cc
  prepare_position-Began m before s PositionState.error at (inl h) hb h' = cc
  prepare_position-Began m before s PositionState.error at (inr h) hb h' = cc

  pub prepare_exit-Began :
      (s : Store)
      → s.position ≡ some p
      → p.strategy_instance_id ≡ cfg.instance_id
      → p.trade_date ≡ trade_date
      → (p.state ≡ PositionState.opened) ⊎ (p.state ≡ PositionState.exit_pending)
      → Began p (unit_of_work (prepare_exit cfg now trade_date reason) s)
  unfolding prepare_exit prepare_found position_of_day unit_of_work ◌>>=◌
  prepare_exit-Began s h own today live =
      let m = prepare_exit cfg now trade_date reason in
      let found : position_of_day cfg now trade_date s.position ≡ some p =
        rw h (rw ((nat_eq.beq_iff _ _).1 own, (nat_eq.beq_iff _ _).1 today) refl) in
      subst (λ q. Began p (committed m s (prepare_found cfg now trade_date reason q s))) (sym found)
        (prepare_position-Began m s s p.state refl live h h)

-- Nothing to close: there is no position, or it is neither OPEN nor EXIT_PENDING.
abbrev idle_row : Position → PositionState → Option ExitResult
idle_row p PositionState.closed = some (result ExitOutcome.skipped_already_closed (some p.id))
idle_row p PositionState.opened = none
idle_row p PositionState.exit_pending = none
idle_row p _ = some (result ExitOutcome.not_open (some p.id))

abbrev pub idle_result : Option Position → Option ExitResult
idle_result none = some (result ExitOutcome.not_open none)
idle_result (some p) = idle_row p p.state

module _ (cfg : ExitConfig) (now trade_date : ℕ) (reason : ExitReason) where
  prepare_position-idle :
      (p : Position) (state : PositionState) (r : ExitResult) (s : Store)
      → idle_row p state ≡ some r
      → prepare_position cfg now trade_date reason p state s ≡ (ok (finished r), s)
  unfolding prepare_position
  prepare_position-idle p PositionState.closed r s h = ground arith
  prepare_position-idle p PositionState.idle r s h = ground arith
  prepare_position-idle p PositionState.entry_pending r s h = ground arith
  prepare_position-idle p PositionState.error r s h = ground arith
  prepare_position-idle p PositionState.opened r s h = cc
  prepare_position-idle p PositionState.exit_pending r s h = cc

  prepare_found-idle :
      (o : Option Position) (r : ExitResult) (s : Store)
      → idle_result o ≡ some r
      → prepare_found cfg now trade_date reason o s ≡ (ok (finished r), s)
  unfolding prepare_found
  prepare_found-idle none r s h = ground arith
  prepare_found-idle (some p) r s h = prepare_position-idle p p.state r s h

  pub prepare_exit-idle :
      (s : Store) (r : ExitResult)
      → idle_result (position_of_day cfg now trade_date s.position) ≡ some r
      → unit_of_work (prepare_exit cfg now trade_date reason) s ≡ (ok (finished r), s)
  unfolding prepare_exit unit_of_work ◌>>=◌ committed
  prepare_exit-idle s r h =
      rw (prepare_found-idle (position_of_day cfg now trade_date s.position) r s h)

module _ (cfg : ExitConfig) (now trade_date : ℕ) where
  pub read_leg_found :
      (leg : ExitLeg) (t : Trade) (s : Store)
      → find_trade leg.trade_id s.trades ≡ some t
      → unit_of_work (read_leg cfg now trade_date leg) s ≡ (ok (t.status, t.exit_price), s)
  unfolding read_leg leg_status unit_of_work ◌>>=◌ committed
  read_leg_found leg t s h = rw (get_trade_by_id_lem leg.trade_id s, h) refl
