-- ===== src/Entry/Procedure/Outcome.antt =====
-- What placing the two legs of an entry comes to, at any broker: the answer, the position row, and the
-- orders that were sent.
use trading_project.Base.{ℕ, ◌≡◌, ◌⊎◌, false, List, [], ◌∷◌, ◌++◌, String, Option, some}
use trading_project.Base.Int.{ℤ, ◌+ℤ◌}
use trading_project.Enums.{InstanceStatus, ReconciliationBreakType, TransactionType}
use trading_project.Models.{Position, Tag}
use trading_project.Result.{Error, Result, ok, err}
use trading_project.Broker.{PlaceOrderRequest}
use trading_project.Premium.Thresholds.{PremiumThresholds, compute_thresholds}
use trading_project.Store.{frozen_status}
use trading_project.Store.Failure.{failed_row}
use trading_project.Runtime.{BrokerPort, World}
use trading_project.Runtime.Recording.{recording, At}
use trading_project.Strike.{StraddleStrikeSelection}
use trading_project.Entry.{
  EntryConfig, Services, EntryOutcome, EntryResult, LegIds, LegResult, DurableRecord, leg_request,
  entry_result,
}
use trading_project.Entry.Durable.{entry_row}
use trading_project.Entry.Writes.Opening.{opened_row}
use trading_project.Entry.Writes.Filling.{FillRow}
use trading_project.Entry.Procedure.{place_leg}

module _ (cfg : EntryConfig) (durable : DurableRecord) where
  abbrev pub sell : LegIds → Tag → PlaceOrderRequest
  sell leg = leg_request cfg TransactionType.sell leg durable.quantity

  abbrev pub buy : LegIds → Tag → PlaceOrderRequest
  buy leg = leg_request cfg TransactionType.buy leg durable.quantity

  -- How far the orders of an entry can get: the call is sold, the put is sold, the call is bought
  -- back.
  abbrev pub sold_call : Tag → List PlaceOrderRequest
  sold_call ce = sell durable.ce ce ∷ []

  abbrev pub sold_both : Tag → Tag → List PlaceOrderRequest
  sold_both ce pe = sell durable.ce ce ∷ sell durable.pe pe ∷ []

  abbrev pub bought_back : Tag → Tag → Tag → List PlaceOrderRequest
  bought_back ce pe back = sell durable.ce ce ∷ sell durable.pe pe ∷ buy durable.ce back ∷ []

  pub data Orders : List PlaceOrderRequest → Type 0 where
    nothing : Orders []
    call : (ce : Tag) → Orders (sold_call ce)
    both : (ce pe : Tag) → Orders (sold_both ce pe)
    unwound : (ce pe back : Tag) → Orders (bought_back ce pe back)

module _ (b : BrokerPort) (cfg : EntryConfig) (now trade_date : ℕ) (services : Services)
    (selection : StraddleStrikeSelection) (durable : DurableRecord) where
  abbrev pub pending_entry : Position
  pending_entry = entry_row cfg now trade_date selection durable.position_id

  -- The row in ERROR, with the instance frozen.
  pub record IsFailed (message : String) (w : World (recording b)) : Type 0 where
    pub row : w.store.position ≡ some (failed_row message pending_entry)
    pub before : Option InstanceStatus
    pub instance_status : w.store.instance_status ≡ frozen_status before

  -- The runs of the two legs, the put's from where the call's ended: each was reported with its price,
  -- and that is the usable price of a row of an order that is COMPLETE in the database that it left.
  pub record Fills (ce : Tag) (ce_price pe_price : ℤ) : Type 0 where
    pub before : World (recording b)
    pub between : World (recording b)
    pub after : World (recording b)
    pub call_result : LegResult
    pub put_result : LegResult
    pub started : At b [] (some pending_entry) before
    pub went_on : At b (sold_call cfg durable ce) (some pending_entry) between
    pub call_run :
        place_leg (recording b) cfg now trade_date durable.ce durable.quantity before
        ≡ (ok call_result, between)
    pub put_run :
        place_leg (recording b) cfg now trade_date durable.pe durable.quantity between
        ≡ (ok put_result, after)
    pub call_price : call_result.fill_price ≡ some ce_price
    pub put_price : put_result.fill_price ≡ some pe_price
    pub call_row : FillRow ce_price between.store
    pub put_row : FillRow pe_price after.store

  pub data Placed : Result EntryResult → World (recording b) → Type 0 where
    entered :
        {w : World (recording b)} (ce_price pe_price : ℤ) (levels : PremiumThresholds) (ce pe : Tag)
        → services.commit_fails ≡ false
        → Fills ce ce_price pe_price
        → compute_thresholds (ce_price +ℤ pe_price) cfg.target_pct cfg.sl_pct ≡ ok levels
        → At b
            (sold_both cfg durable ce pe)
            (some (
              opened_row cfg now trade_date services.to_column services.commit_fails durable
                ce_price pe_price levels pending_entry))
            w
        → Placed (ok (entry_result EntryOutcome.entered (some durable.position_id))) w
    diverged :
        {w : World (recording b)} (ce pe : Tag) (before : List ReconciliationBreakType)
        → At b (sold_both cfg durable ce pe) (some pending_entry) w
        → w.store.breaks ≡ before ++ ReconciliationBreakType.orphan_fill ∷ []
        → Placed
            (ok (entry_result EntryOutcome.persistence_divergence (some durable.position_id)))
            w
    rejected :
        {w : World (recording b)} (ce : Tag)
        → w.broker.0 ≡ sold_call cfg durable ce
        → IsFailed "CE leg failed before any exposure" w
        → Placed (ok (entry_result EntryOutcome.entry_rejected (some durable.position_id))) w
    ambiguous :
        {w : World (recording b)} (ce : Tag) (before : List ReconciliationBreakType)
        → w.broker.0 ≡ sold_call cfg durable ce
        → w.store.breaks ≡ before ++ ReconciliationBreakType.ambiguous_ack ∷ []
        → IsFailed "CE leg outcome ambiguous" w
        → Placed (ok (entry_result EntryOutcome.ambiguous_error (some durable.position_id))) w
    partial :
        {w : World (recording b)} (ce pe back : Tag) (before : List ReconciliationBreakType)
        (kind : ReconciliationBreakType)
        → (kind ≡ ReconciliationBreakType.ambiguous_ack)
          ⊎ (kind ≡ ReconciliationBreakType.partial_entry)
        → w.broker.0 ≡ bought_back cfg durable ce pe back
        → w.store.breaks ≡ before ++ kind ∷ []
        → IsFailed "partial entry" w
        → Placed (ok (entry_result EntryOutcome.partial_entry_error (some durable.position_id))) w
    raised :
        {w : World (recording b)} {e : Error} (l : List PlaceOrderRequest)
        → Orders cfg durable l
        → At b l (some pending_entry) w
        → Placed (err e) w
