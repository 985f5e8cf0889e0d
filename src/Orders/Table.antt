-- ===== src/Orders/Table.antt =====
-- `OrderUpdateProcessor.process` on the table of orders: locating the row, and what happens to the
-- rows around it.
use mathlib.Core.Path.{subst}
use trading_project.Base.{
  ℕ, ◌≡◌, inl, inr, refl, sym, Bool, true, false, Option, none, some, List, [], ◌∷◌, String, arith,
  not, is_some, ◌&&◌, string_eq, nat_eq, option_eq, if◌then◌else◌, ◌==◌, eqb, Option-cases,
}
use trading_project.Models.{Order, Tag, tag_eq}
use trading_project.Broker.{BrokerOrder}
use trading_project.Orders.{OrderUpdateOutcome, apply_broker_order_update}

abbrev pub Orders : Type 0
Orders = List Order

-- `session.get`, and the same row read for update
unfoldable pub get_by_id : ℕ → Orders → Option Order
get_by_id id [] = none
get_by_id id (o ∷ os) = if eqb o.id id then some o else get_by_id id os

unfoldable pub get_by_broker_order_id : String → Orders → Option Order
get_by_broker_order_id key [] = none
get_by_broker_order_id key (o ∷ os) =
    if o.broker_order_id == some key then some o else get_by_broker_order_id key os

unfoldable pub get_by_broker_tag : Tag → Orders → Option Order
get_by_broker_tag tag [] = none
get_by_broker_tag tag (o ∷ os) =
    if o.broker_tag == some tag then some o else get_by_broker_tag tag os

-- whether a tag is a true value: only the empty text is not
abbrev pub has_text : Tag → Bool
has_text (Tag.leg _) = true
has_text (Tag.text s) = not (s == "")

by_tag : Option Tag → Orders → Option Order
by_tag none orders = none
by_tag (some tag) orders = if has_text tag then get_by_broker_tag tag orders else none

abbrev pub first_found : Option Order → Option Order → Option Order
first_found (some o) other = some o
first_found none other = other

-- `_locate`: by the broker's id, and where that finds nothing by the tag
unfoldable pub locate : BrokerOrder → Orders → Option Order
unfolding get_by_broker_order_id get_by_broker_tag by_tag
locate bo orders =
    first_found
      (if bo.broker_order_id == "" then none else get_by_broker_order_id bo.broker_order_id orders)
      (by_tag bo.tag orders)

-- the row is written back in its place
unfoldable pub replace : ℕ → Order → Orders → Orders
replace id new [] = []
replace id new (o ∷ os) = if eqb o.id id then new ∷ os else o ∷ replace id new os

-- Whether the session has something to flush.
abbrev writes : Order → BrokerOrder → OrderUpdateOutcome → Bool
writes order bo OrderUpdateOutcome.already_terminal = false
writes order bo OrderUpdateOutcome.no_change =
    not (is_some order.broker_order_id) && not (bo.broker_order_id == "")
writes order bo _ = true

-- A flush that the database refuses is rolled back and reported as a conflict.
commit :
    Bool → Order → BrokerOrder → Orders → Order × OrderUpdateOutcome → OrderUpdateOutcome × Orders
unfolding replace
commit refused order bo orders (order', outcome) =
    if refused && writes order bo outcome
    then (OrderUpdateOutcome.conflict, orders)
    else (outcome, replace order.id order' orders)

process_row : Bool → BrokerOrder → ℕ → Orders → Option Order → OrderUpdateOutcome × Orders
unfolding commit
process_row refused bo now orders none = (OrderUpdateOutcome.not_found, orders)
process_row refused bo now orders (some order) =
    commit refused order bo orders (apply_broker_order_update order bo now)

process_located : Bool → BrokerOrder → ℕ → Orders → Option Order → OrderUpdateOutcome × Orders
unfolding process_row
process_located refused bo now orders none = (OrderUpdateOutcome.not_found, orders)
process_located refused bo now orders (some located) =
    process_row refused bo now orders (get_by_id located.id orders)

-- `process`; `refused` is the database's answer to the flush
unfoldable pub process : Bool → BrokerOrder → ℕ → Orders → OrderUpdateOutcome × Orders
unfolding process_located
process refused bo now orders = process_located refused bo now orders (locate bo orders)

replace_same :
    (id : ℕ) (o : Order) (orders : Orders)
    → get_by_id id orders ≡ some o
    → replace id o orders ≡ orders
unfolding get_by_id replace
replace_same id o [] h = refl
replace_same id o (x ∷ xs) h = ground (arith, replace_same id o xs)

-- The outcomes that say that nothing was written.
abbrev pub is_quiet : OrderUpdateOutcome → Bool
is_quiet OrderUpdateOutcome.not_found = true
is_quiet OrderUpdateOutcome.conflict = true
is_quiet OrderUpdateOutcome.already_terminal = true
is_quiet _ = false

quiet_apply :
    (o : Order) (bo : BrokerOrder) (now : ℕ)
    → is_quiet (apply_broker_order_update o bo now).1 ≡ true
    → (apply_broker_order_update o bo now).0 ≡ o
unfolding apply_broker_order_update
quiet_apply o bo now h = ground arith

quiet_commit :
    (refused : Bool) (o : Order) (bo : BrokerOrder) (orders : Orders)
    (r : Order × OrderUpdateOutcome)
    → get_by_id o.id orders ≡ some o
    → (is_quiet r.1 ≡ true → r.0 ≡ o)
    → is_quiet (commit refused o bo orders r).0 ≡ true
    → (commit refused o bo orders r).1 ≡ orders
unfolding commit
quiet_commit refused o bo orders r row same h = ground (arith, replace_same o.id o orders row, same)

get_by_id-id : (i : ℕ) (orders : Orders) (o : Order) → get_by_id i orders ≡ some o → o.id ≡ i
unfolding get_by_id
get_by_id-id i [] o h = cc
get_by_id-id i (x ∷ xs) o h = ground (arith, get_by_id-id i xs o)

-- A snapshot that is reported as unknown, conflicting or late has left the whole table as it was,
-- also where the database refused the write.
pub process_quiet :
    (refused : Bool) (bo : BrokerOrder) (now : ℕ) (orders : Orders)
    → is_quiet (process refused bo now orders).0 ≡ true
    → (process refused bo now orders).1 ≡ orders
unfolding process
process_quiet refused bo now orders h = elim (Option-cases (locate bo orders)) [
  | inl unknown ↦ rw (unknown, process_located)
  | inr (l, found) ↦ elim (Option-cases (get_by_id l.id orders)) [
    | inl gone ↦ rw (found, process_located) (rw (gone, process_row))
    | inr (o, row) ↦
        rw (found, process_located)
          (rw (row, process_row)
            (quiet_commit refused o bo orders (apply_broker_order_update o bo now)
              (subst (λ i. get_by_id i orders ≡ some o) (sym (get_by_id-id l.id orders o row)) row)
              (quiet_apply o bo now) (rw (row, process_row) at (rw (found, process_located) at h))))
  ]
]
