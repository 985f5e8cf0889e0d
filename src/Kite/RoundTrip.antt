-- ===== src/Kite/RoundTrip.antt =====
-- src/algo/brokers/kite/mapper.py: what the platform sends to Kite comes back as it was sent.
use trading_project.Base.{
  Bool-cases, inl, inr, ℕ, ◌≤◌, ◌<◌, ◌≡◌, refl, ap, ◌∙◌, ==-refl, String, true, Option, none, some,
  [], ◌∷◌, ◌++◌, ◌==◌, string_eq, ltb, lt→ltb, le→leb, if◌then◌else◌,
}
use trading_project.Base.Int.{ℤ, pos, int_eq}
use trading_project.Base.Dict.{lookup, insert, lookup-insert}
use trading_project.Enums.{Exchange, TransactionType, ProductType, OrderType, OrderStatus}
use trading_project.Models.{Tag}
use trading_project.Broker.{PlaceOrderRequest, BrokerOrder}
use trading_project.Orders.Table.{has_text}
use trading_project.Kite.{
  or_default, nothing, whole, text, KiteDict, Kite, AreDistinct, inverted, to_kite_exchange,
  to_kite_transaction_type, to_kite_product, to_kite_order_type, exchange_from_kite,
  transaction_from_kite, product_from_kite, from_kite_transaction_type, from_kite_product,
  from_kite_order_type, status_of_word,
}
use trading_project.Kite.Values.{
  unless_zero, localized, mapped, or_error, get, or_else, int_of, price_or_none, tag_or_none,
  text_or_none, from_kite_exchange, from_kite_status, str_of, required_text,
}
use trading_project.Kite.Requests.{place_order_kwargs, tag_value, if_priced}
use trading_project.Kite.Responses.{to_broker_order, natural}

module _ {A : Type 0} where
  -- the last of the pairs with the key is the one that is found
  lookup-inverted_pair :
      (s a b : String) (x y : A)
      → lookup s (inverted ((x, a) ∷ (y, b) ∷ []) [])
        ≡ (if s == b then some y else if s == a then some x else none)
  unfolding inverted
  lookup-inverted_pair s a b x y = lookup-insert s b y ((a, x) ∷ [])

  lookup-inverted_four :
      (s a b c e : String) (x y z w : A)
      → lookup s (inverted ((x, a) ∷ (y, b) ∷ (z, c) ∷ (w, e) ∷ []) []) ≡ (
          if s == e
          then some w
          else if s == c
          then some z
          else if s == b
          then some y
          else if s == a
          then some x
          else none)
  unfolding inverted
  lookup-inverted_four s a b c e x y z w =
      lookup-insert s e w (insert c z (insert b y ((a, x) ∷ [])))
      ∙ ap (λ (o : Option A). if s == e then some w else o)
          (lookup-insert s c z (insert b y ((a, x) ∷ []))
            ∙ ap (λ (o : Option A). if s == c then some z else o)
                (lookup-insert s b y ((a, x) ∷ [])))

module _ (k : Kite) (d : AreDistinct k) where
  exchange_lookup : (e : Exchange) → lookup (to_kite_exchange k e) (exchange_from_kite k) ≡ some e
  unfolding to_kite_exchange exchange_from_kite
  exchange_lookup Exchange.nfo =
      lookup-inverted_four k.exchange_nfo k.exchange_nfo k.exchange_bfo k.exchange_nse
        k.exchange_bse _ _ _ _
      ∙ rw (d.nfo_bse, d.nfo_nse, d.nfo_bfo, ==-refl k.exchange_nfo)
  exchange_lookup Exchange.bfo =
      lookup-inverted_four k.exchange_bfo k.exchange_nfo k.exchange_bfo k.exchange_nse
        k.exchange_bse _ _ _ _
      ∙ rw (d.bfo_bse, d.bfo_nse, ==-refl k.exchange_bfo)
  exchange_lookup Exchange.nse =
      lookup-inverted_four k.exchange_nse k.exchange_nfo k.exchange_bfo k.exchange_nse
        k.exchange_bse _ _ _ _
      ∙ rw (d.nse_bse, ==-refl k.exchange_nse)
  exchange_lookup Exchange.bse =
      lookup-inverted_four k.exchange_bse k.exchange_nfo k.exchange_bfo k.exchange_nse
        k.exchange_bse _ _ _ _
      ∙ rw (==-refl k.exchange_bse)

  from_kite_exchange-to_kite :
      (e : Exchange) → from_kite_exchange k (text (to_kite_exchange k e)) ≡ mapped e
  unfolding from_kite_exchange
  from_kite_exchange-to_kite e = ap or_error (exchange_lookup e)

  transaction_lookup :
      (t : TransactionType)
      → lookup (to_kite_transaction_type k t) (transaction_from_kite k) ≡ some t
  unfolding to_kite_transaction_type transaction_from_kite
  transaction_lookup TransactionType.buy =
      lookup-inverted_pair k.transaction_type_buy k.transaction_type_buy k.transaction_type_sell _ _
      ∙ rw (d.buy_sell, ==-refl k.transaction_type_buy)
  transaction_lookup TransactionType.sell =
      lookup-inverted_pair k.transaction_type_sell k.transaction_type_buy k.transaction_type_sell _
        _
      ∙ rw (==-refl k.transaction_type_sell)

  from_kite_transaction_type-to_kite :
      (t : TransactionType) → from_kite_transaction_type k (text (to_kite_transaction_type k t)) ≡ t
  unfolding from_kite_transaction_type
  from_kite_transaction_type-to_kite t =
      ap (λ o. or_default k o TransactionType.buy) (transaction_lookup t)

  product_lookup : (t : ProductType) → lookup (to_kite_product k t) (product_from_kite k) ≡ some t
  unfolding to_kite_product product_from_kite
  product_lookup ProductType.intraday =
      lookup-inverted_pair k.product_mis k.product_mis k.product_nrml _ _
      ∙ rw (d.mis_nrml, ==-refl k.product_mis)
  product_lookup ProductType.normal =
      lookup-inverted_pair k.product_nrml k.product_mis k.product_nrml _ _
      ∙ rw (==-refl k.product_nrml)

  from_kite_product-to_kite :
      (t : ProductType) → from_kite_product k (text (to_kite_product k t)) ≡ t
  unfolding from_kite_product
  from_kite_product-to_kite t = ap (λ o. or_default k o ProductType.normal) (product_lookup t)

  from_kite_order_type-to_kite :
      (t : OrderType) → from_kite_order_type k (text (to_kite_order_type k t)) ≡ t
  unfolding from_kite_order_type to_kite_order_type
  from_kite_order_type-to_kite OrderType.market = rw (==-refl k.order_type_market)
  from_kite_order_type-to_kite OrderType.limit = rw d.limit_market

-- What Kite says of an order that was placed, beside its arguments.
pub record Answer : Type 0 where
  pub order_id : String
  pub status : String
  pub filled : ℕ
  pub average_price : Option ℤ
  pub status_message : Option String

-- What is asked of the row of an order in Kite's order book: under the names of the arguments with
-- which the order was placed it has their values, with a trigger price that reads the same; and it
-- has the answer.
pub record IsRowOf (k : Kite) (r : PlaceOrderRequest) (a : Answer) (row : KiteDict) : Type 0 where
  pub exchange : lookup "exchange" row ≡ lookup "exchange" (place_order_kwargs k r)
  pub tradingsymbol : lookup "tradingsymbol" row ≡ lookup "tradingsymbol" (place_order_kwargs k r)
  pub transaction_type :
      lookup "transaction_type" row ≡ lookup "transaction_type" (place_order_kwargs k r)
  pub quantity : lookup "quantity" row ≡ lookup "quantity" (place_order_kwargs k r)
  pub product : lookup "product" row ≡ lookup "product" (place_order_kwargs k r)
  pub order_type : lookup "order_type" row ≡ lookup "order_type" (place_order_kwargs k r)
  pub tag : lookup "tag" row ≡ lookup "tag" (place_order_kwargs k r)
  pub trigger_price :
      price_or_none k (get "trigger_price" row)
      ≡ price_or_none k (get "trigger_price" (place_order_kwargs k r))
  pub order_id : lookup "order_id" row ≡ some (text a.order_id)
  pub status : lookup "status" row ≡ some (text a.status)
  pub filled : lookup "filled_quantity" row ≡ some (whole (pos a.filled))
  pub average_price : price_or_none k (get "average_price" row) ≡ mapped a.average_price
  pub status_message :
      text_or_none (or_else (get "status_message" row) nothing) ≡ mapped a.status_message

module _ (k : Kite) where
  int_of-whole : (n : ℤ) → int_of k (or_else (whole n) (whole (pos 0))) ≡ mapped n
  unfolding int_of or_else
  int_of-whole n = elim (Bool-cases (n == pos 0)) [
    | inl zero_ ↦ let is_zero : n ≡ pos 0 = (int_eq.beq_iff n (pos 0)).0 zero_ in rw is_zero
    | inr other ↦ rw other
  ]

  status_read : (s : String) → (st : OrderStatus) × (from_kite_status k (text s) ≡ mapped st)
  unfolding from_kite_status
  status_read s = elim (Bool-cases (s == "")) [
    | inl empty ↦ (status_of_word (k.upper ""), rw empty)
    | inr word ↦ (status_of_word (k.upper s), rw word)
  ]

  tag_read :
      (t : Tag) → has_text t ≡ true → tag_or_none (or_else (tag_value t) nothing) ≡ mapped (some t)
  unfolding tag_or_none or_else
  tag_read (Tag.leg key) h = refl
  tag_read (Tag.text s) h = rw h

-- what is read of an amount that was sent as a `float`
abbrev pub as_float : Kite → Option ℤ → Option ℤ
as_float k none = none
as_float k (some p) = some (k.float p)

trigger_read :
    (k : Kite) (p q : Option ℤ)
    → price_or_none k (get "trigger_price" (if_priced k "price" p ++ if_priced k "trigger_price" q))
      ≡ mapped (unless_zero k (as_float k q))
unfolding price_or_none
trigger_read k none none = refl
trigger_read k none (some q) = refl
trigger_read k (some p) none = refl
trigger_read k (some p) (some q) = refl

module _ (k : Kite) (r : PlaceOrderRequest) (a : Answer) (row : KiteDict) where
  -- the order that is read, up to its status
  abbrev pub read_back : OrderStatus → BrokerOrder
  read_back status = record {
    broker_order_id = a.order_id;
    tag = some r.tag;
    status = status;
    exchange = r.exchange;
    tradingsymbol = r.tradingsymbol;
    transaction_type = r.transaction_type;
    product = r.product;
    order_type = r.order_type;
    quantity = r.quantity;
    filled_quantity = a.filled;
    average_price = a.average_price;
    trigger_price = unless_zero k (as_float k r.trigger_price);
    placed_at = localized k (get "order_timestamp" row);
    filled_at = if ltb 0 a.filled then localized k (get "exchange_timestamp" row) else none;
    exchange_updated_at =
        localized k (or_else (get "exchange_update_timestamp" row) (get "exchange_timestamp" row));
    status_message = a.status_message;
    raw_response = some (k.payload row);
  }

module _ (k : Kite) (d : AreDistinct k) (r : PlaceOrderRequest) (a : Answer) (row : KiteDict)
    (is_row : IsRowOf k r a row) (some_quantity : 0 < r.quantity) (within : a.filled ≤ r.quantity)
    (tagged : has_text r.tag ≡ true) where
  -- If an order was placed with a tag, for at least one, and the row that Kite's order book has of it
  -- repeats the arguments and has no more filled than was ordered, then the row is read as the order
  -- that was placed: with the exchange, symbol, side, product, type, quantity and tag of the request,
  -- the trigger price that its `float` stands for (zero is read as none), and the id, the filled
  -- quantity, the average price and the message of the row.
  pub to_broker_order-place_order_kwargs :
      (status : OrderStatus) × (to_broker_order k row ≡ mapped (read_back k r a row status))
  unfolding to_broker_order place_order_kwargs natural required_text str_of
  to_broker_order-place_order_kwargs =
      let (status, known) = status_read k a.status in
      (
        status,
        rw (
          is_row.filled,
          is_row.quantity,
          is_row.order_id,
          is_row.status,
          is_row.exchange,
          is_row.tradingsymbol,
          is_row.transaction_type,
          is_row.product,
          is_row.order_type,
          is_row.tag,
          is_row.average_price,
          is_row.status_message,
          is_row.trigger_price,
          int_of-whole k (pos a.filled),
          int_of-whole k (pos r.quantity),
          known,
          from_kite_exchange-to_kite k d r.exchange,
          trigger_read k r.price r.trigger_price,
          tag_read k r.tag tagged,
          lt→ltb 0 r.quantity some_quantity,
          le→leb a.filled r.quantity within,
          from_kite_transaction_type-to_kite k d r.transaction_type,
          from_kite_product-to_kite k d r.product,
          from_kite_order_type-to_kite k d r.order_type,
        ),
      )
