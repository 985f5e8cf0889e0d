-- ===== src/Runtime/Frame.antt =====
-- What the shared steps keep: a fact about the broker's state, and the position row.
use trading_project.Base.{ℕ, zero, suc, String, Option, none, some}
use trading_project.Models.{Position, Tag}
use trading_project.Result.{Result, ok}
use trading_project.Broker.{BrokerOrder, BrokerResult}
use trading_project.Action.Keeps.{Keeps, Keeps-bind, Keeps-pure}
use trading_project.Store.{Db}
use trading_project.Store.Frame.{Holds}
use trading_project.Runtime.{BrokerPort, World, in_store, ask, terminal_only, poll}

-- A fact about the broker's state, and the position row of the store.
pub record Stays (b : BrokerPort) (P : b.State → Type 0) (q : Option Position) (w : World b)
    : Type 0 where
  pub broker_side : P w.broker
  pub row : Holds q w.store

module _ (b : BrokerPort) (P : b.State → Type 0) (q : Option Position) where
  pub in_store-Stays :
      {A : Type 0} (m : Db A) → Keeps (Holds q) m → Keeps (Stays b P q) (in_store b m)
  unfolding in_store
  in_store-Stays m k = record {
    from = λ w h. record { broker_side = h.broker_side; row = k.from w.store h.row };
  }

  pub ask-Stays :
      {A : Type 0} (call : b.State → BrokerResult A × b.State)
      → ((s : b.State) → P s → P (call s).1)
      → Keeps (Stays b P q) (ask b call)
  unfolding ask
  ask-Stays call k = record {
    from = λ w h. record { broker_side = k w.broker h.broker_side; row = h.row };
  }

-- What reading orders at the broker keeps.
pub record ReadsKeep (b : BrokerPort) (P : b.State → Type 0) : Type 0 where
  pub get_order : (id : String) (s : b.State) → P s → P (b.get_order id s).1
  pub find_order : (tag : Tag) (s : b.State) → P s → P (b.find_order_by_tag tag s).1

module _ (b : BrokerPort) (P : b.State → Type 0) (reads : ReadsKeep b P) (q : Option Position) where
  poll_step-Stays :
      (o : Option BrokerOrder) (rest : World b → Result (Option BrokerOrder) × World b)
      → Keeps (Stays b P q) rest
      → Keeps (Stays b P q) (elim o [ some bo ↦ (λ w. (ok (some bo), w)) | none ↦ rest ])
  poll_step-Stays none rest k = k
  poll_step-Stays (some bo) rest k = Keeps-pure (some bo)

  pub poll-Stays : (n : ℕ) (id : String) → Keeps (Stays b P q) (poll b n id)
  unfolding poll
  poll-Stays zero id = Keeps-pure none
  poll-Stays (suc n) id =
      Keeps-bind _ _ (ask-Stays b P q _ (reads.get_order id))
        (λ answer. poll_step-Stays (terminal_only b answer) _ (poll-Stays n id))
