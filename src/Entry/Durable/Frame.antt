-- ===== src/Entry/Durable/Frame.antt =====
-- What creating the record of an entry comes to.
use trading_project.Base.{ℕ, ◌+◌, ◌*◌, ◌≡◌, refl, Option, none, some}
use trading_project.Base.Int.{ℤ}
use trading_project.Enums.{OptionType}
use trading_project.Models.{Position}
use trading_project.Result.{Error, Result, ok, err}
use trading_project.Action.{continue, ◌>>=◌}
use trading_project.Action.Keeps.{Keeps, Keeps-lift}
use trading_project.Action.Triple.{
  Triple, Triple-pure, Triple-known, Triple-bind, Keeps-then, Triple-unit_of_work,
}
use trading_project.Broker.{BrokerInstrument}
use trading_project.Store.{Store}
use trading_project.Store.Frame.{Holds, get_or_create_intent-Holds}
use trading_project.Strike.{StraddleStrikeSelection}
use trading_project.Entry.{EntryConfig, LegIds, DurableRecord}
use trading_project.Entry.Durable.{
  entry_row, get_or_create_position, add_trade, add_leg, add_legs, create_durable_record,
}

-- A leg of a contract.
pub record IsLegOf (asked : BrokerInstrument) (leg : LegIds) : Type 0 where
  pub contract : leg.contract ≡ asked
  pub symbol : leg.tradingsymbol ≡ asked.tradingsymbol

-- The two legs of a record, and the quantity of each.
pub record IsRecordOf (cfg : EntryConfig) (selection : StraddleStrikeSelection) (d : DurableRecord)
    : Type 0 where
  pub quantity : d.quantity ≡ cfg.lots * selection.call.lot_size
  pub ce : IsLegOf selection.call d.ce
  pub pe : IsLegOf selection.put d.pe

module _ (cfg : EntryConfig) (now trade_date : ℕ) (rival : Option Position)
    (selection : StraddleStrikeSelection) where
  -- A record with its row in ENTRY_PENDING; or another writer's row; or nothing at all.
  pub data Created : Result (Option DurableRecord) → Store → Type 0 where
    created :
        {s : Store} (d : DurableRecord)
        → IsRecordOf cfg selection d
        → s.position ≡ some (entry_row cfg now trade_date selection d.position_id)
        → Created (ok (some d)) s
    lost : {s : Store} (p : Position) → rival ≡ some p → s.position ≡ some p → Created (ok none) s
    refused : {s : Store} {e : Error} → s.position ≡ none → Created (err e) s

  module _ (q : Option Position) where
    -- a leg of the contract, where the leg was added
    LegAdded : BrokerInstrument → Result LegIds → Store → Type 0
    LegAdded contract (ok leg) s = IsLegOf contract leg × Holds q s
    LegAdded contract (err e) s = Unit

    add_trade-Holds :
        (id : ℕ) (t : OptionType) (contract : BrokerInstrument) (strike : ℤ) (quantity : ℕ)
        → Keeps (Holds q) (add_trade cfg now trade_date id t contract strike quantity)
    unfolding add_trade
    add_trade-Holds id t contract strike quantity = record { from = λ s h. h }

    add_leg-LegAdded :
        (id : ℕ) (t : OptionType) (contract : BrokerInstrument) (strike : ℤ) (quantity : ℕ)
        → Triple
            (Holds q)
            (add_leg cfg now trade_date id t contract strike quantity)
            (LegAdded contract)
    unfolding add_leg LegAdded
    add_leg-LegAdded id t contract strike quantity =
        Keeps-then _ _ (add_trade-Holds id t contract strike quantity) (λ e s h. tt)
          (λ trade_id.
            Keeps-then _ _ (Keeps-lift _) (λ e s h. tt)
              (λ _.
                Keeps-then _ _ (get_or_create_intent-Holds q _ _ trade_id quantity) (λ e s h. tt)
                  (λ intent_id.
                    Triple-pure _ (λ s h. (record { contract = refl; symbol = refl }, h)))))

  -- inside the unit of work, where a raise is still to be rolled back
  Inside : Result (Option DurableRecord) → Store → Type 0
  Inside (ok r) s = Created (ok r) s
  Inside (err e) s = Unit

  add_legs-Inside :
      (id : ℕ)
      → Triple
          (Holds (some (entry_row cfg now trade_date selection id)))
          (add_legs cfg now trade_date selection (some id))
          Inside
  unfolding add_legs LegAdded Inside
  add_legs-Inside id =
      let q = some (entry_row cfg now trade_date selection id) in
      Triple-bind (LegAdded q selection.call) _ _ (add_leg-LegAdded q id _ _ _ _) (λ e s h. tt)
        (λ ce. Triple-known _ (λ of_call.
          Triple-bind (LegAdded q selection.put) _ _ (add_leg-LegAdded q id _ _ _ _) (λ e t h. tt)
            (λ pe. Triple-known _ (λ of_put.
              Triple-pure _
                (λ t h. created _ (record { quantity = refl; ce = of_call; pe = of_put }) h)))))

  get_or_create-Inside :
      (existing o : Option Position) (s : Store)
      → existing ≡ none
      → rival ≡ o
      → let (r, t) = get_or_create_position cfg now trade_date existing o selection s in
        Inside
          (continue r (add_legs cfg now trade_date selection) t).0
          (continue r (add_legs cfg now trade_date selection) t).1
  unfolding get_or_create_position Inside add_legs
  get_or_create-Inside (some p) o s gone e = cc
  get_or_create-Inside none none s gone e =
      (add_legs-Inside s.next_id).from
        (record s {
          position = some (entry_row cfg now trade_date selection s.next_id);
          next_id = s.next_id + 1;
        })
        refl
  get_or_create-Inside none (some p) s gone e = lost p e refl

  pub create_durable_record-Created :
      Triple (Holds none) (create_durable_record cfg now trade_date rival selection) Created
  unfolding create_durable_record ◌>>=◌ Inside
  create_durable_record-Created =
      Triple-unit_of_work Inside _
        (record { from = λ s h. get_or_create-Inside s.position rival s h refl }) (λ a t h. h)
        (λ e t h. refused h)
