-- ===== src/Kite/Requests.antt =====
-- src/algo/brokers/kite/mapper.py: the keyword arguments of the client's calls. A text key stands for
-- an argument's name; what is left of an amount in `float(d)` is a parameter, `float`.
use trading_project.Base.{ℕ, String, Option, none, some, [], ◌∷◌, ◌++◌}
use trading_project.Base.Int.{ℤ, pos}
use trading_project.Enums.{OrderType}
use trading_project.Models.{Tag}
use trading_project.Broker.{PlaceOrderRequest, ModifyOrderRequest}
use trading_project.Kite.{
  Value, whole, amount, text, mark, KiteDict, Kite, to_kite_exchange, to_kite_transaction_type,
  to_kite_product, to_kite_order_type,
}

abbrev pub tag_value : Tag → Value
tag_value (Tag.leg key) = mark key
tag_value (Tag.text s) = text s

-- `if price is not None: kwargs[key] = float(price)`
abbrev pub if_priced : Kite → String → Option ℤ → KiteDict
if_priced k key none = []
if_priced k key (some p) = (key, amount (k.float p)) ∷ []

abbrev if_counted : String → Option ℕ → KiteDict
if_counted key none = []
if_counted key (some n) = (key, whole (pos n)) ∷ []

module _ (k : Kite) where
  unfoldable pub place_order_kwargs : PlaceOrderRequest → KiteDict
  place_order_kwargs r =
      ("variety", text k.variety_regular)
      ∷ ("exchange", text (to_kite_exchange k r.exchange))
      ∷ ("tradingsymbol", text r.tradingsymbol)
      ∷ ("transaction_type", text (to_kite_transaction_type k r.transaction_type))
      ∷ ("quantity", whole (pos r.quantity))
      ∷ ("product", text (to_kite_product k r.product))
      ∷ ("order_type", text (to_kite_order_type k r.order_type))
      ∷ ("tag", tag_value r.tag)
      ∷ (if_priced k "price" r.price ++ if_priced k "trigger_price" r.trigger_price)

  abbrev if_typed : Option OrderType → KiteDict
  if_typed none = []
  if_typed (some t) = ("order_type", text (to_kite_order_type k t)) ∷ []

  unfoldable pub modify_order_kwargs : ModifyOrderRequest → KiteDict
  modify_order_kwargs r =
      ("variety", text k.variety_regular)
      ∷ ("order_id", text r.broker_order_id)
      ∷ (if_counted "quantity" r.quantity
          ++ (if_priced k "price" r.price
              ++ (if_priced k "trigger_price" r.trigger_price ++ if_typed r.order_type)))
