-- ===== src/Entry/Writes/Filling.antt =====
-- The price of a leg that `settle_leg` reports as filled is that of a complete order's row.
use trading_project.Base.{ℕ, ◌≡◌, refl, Bool-cases, inl, inr, Option, none, some, ◌==◌}
use trading_project.Base.Int.{ℤ}
use trading_project.Enums.{OrderStatus, order_status_eq}
use trading_project.Models.{Order}
use trading_project.Result.{Result, ok, err}
use trading_project.Action.{continue, pure, ◌>>=◌, unit_of_work, committed}
use trading_project.Orders.Table.{get_by_id}
use trading_project.Store.{Store, mark_failed}
use trading_project.Runtime.{usable_price}
use trading_project.Entry.{EntryConfig, LegIds, LegOutcome, LegResult, leg_result}
use trading_project.Entry.Writes.{or_no_order, filled_at_price, settled_leg, settle_leg}

-- an order's row that is COMPLETE, with this usable price
pub record FillRow (price : ℤ) (s : Store) : Type 0 where
  pub order_id : ℕ
  pub order : Order
  pub found : get_by_id order_id s.orders ≡ some order
  pub complete : order.status ≡ OrderStatus.complete
  pub priced : usable_price order.average_price ≡ some price

abbrev pub HasRow : Result LegResult → Store → Type 0
HasRow (ok r) s = (price : ℤ) → r.fill_price ≡ some price → FillRow price s
HasRow (err e) s = Unit

module _ (cfg : EntryConfig) (now trade_date : ℕ) where
  unpriced-HasRow :
      (r : Result (Unit {0})) (s : Store)
      → let (r', s') = continue r (λ _. pure (leg_result LegOutcome.failed none)) s in HasRow r' s'
  unpriced-HasRow (ok done) s = λ price h. cc
  unpriced-HasRow (err e) s = tt

  filled_at_price-HasRow :
      (o : Option ℤ) (id : ℕ) (order : Order) (s : Store)
      → get_by_id id s.orders ≡ some order
      → order.status ≡ OrderStatus.complete
      → usable_price order.average_price ≡ o
      → let (r, s') = filled_at_price cfg now trade_date o s in HasRow r s'
  unfolding filled_at_price
  filled_at_price-HasRow none id order s found complete e = tt
  filled_at_price-HasRow (some p) id order s found complete e = λ price h. record {
    order_id = id;
    order = order;
    found = found;
    complete = complete;
    priced = cc;
  }

  settled_leg-HasRow :
      (leg : LegIds) (id : ℕ) (order : Order) (s : Store)
      → get_by_id id s.orders ≡ some order
      → let (r, s') = settled_leg cfg now trade_date leg order s in HasRow r s'
  unfolding settled_leg ◌>>=◌
  settled_leg-HasRow leg id order s found =
      elim (Bool-cases (order.status == OrderStatus.complete)) [
        | inl complete ↦ rw complete (
            filled_at_price-HasRow (usable_price order.average_price) id order s found
              ((order_status_eq.beq_iff order.status OrderStatus.complete).0 complete) refl)
        | inr other ↦ let (r, t) = mark_failed leg.intent_id s in rw other (unpriced-HasRow r t)
      ]

  committed-HasRow :
      (m : Store → Result LegResult × Store) (s : Store) (a : Result LegResult × Store)
      → HasRow a.0 a.1
      → let (r, s') = committed m s a in HasRow r s'
  unfolding committed
  committed-HasRow m s (ok r, t) h = h
  committed-HasRow m s (err e, t) h = tt

  found-HasRow :
      (leg : LegIds) (id : ℕ) (o : Option Order) (s : Store)
      → get_by_id id s.orders ≡ o
      → let (r, s') =
          (do order ← or_no_order cfg now trade_date o; settled_leg cfg now trade_date leg order)
            s in
        HasRow r s'
  unfolding or_no_order ◌>>=◌
  found-HasRow leg id none s e = tt
  found-HasRow leg id (some order) s e = settled_leg-HasRow leg id order s e

  pub settle_leg-HasRow :
      (leg : LegIds) (id : ℕ) (s : Store)
      → let (r, s') = settle_leg cfg now trade_date leg id s in HasRow r s'
  unfolding settle_leg unit_of_work ◌>>=◌
  settle_leg-HasRow leg id s =
      committed-HasRow (settle_leg cfg now trade_date leg id) s _
        (found-HasRow leg id (get_by_id id s.orders) s refl)
