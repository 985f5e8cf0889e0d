-- ===== src/Kite.antt =====
-- src/algo/brokers/kite/mapper.py: the words that Kite Connect uses for the platform's enums, and
-- back. The client library is a parameter: its constants, and what Python and pytz make of texts and
-- of naive times.
pub mod Values
pub mod Requests
pub mod Responses
pub mod Faults
pub mod RoundTrip
pub mod Calls
pub mod Tests
use trading_project.Base.{
  ℕ, ◌≡◌, refl, ==-refl, String, Bool, true, false, Option, none, some, List, [], ◌∷◌, ◌==◌,
  string_eq, if◌then◌else◌,
}
use trading_project.Base.Int.{ℤ}
use trading_project.Base.Dict.{Dict, lookup, insert}
use trading_project.Enums.{
  Exchange, OptionType, TransactionType, OrderType, ProductType, OrderStatus,
}
use trading_project.Models.{LegKey}

-- A value in a dictionary of the client: numbers by their kind, a text, a text that renders a leg's
-- tag, a time with or without its zone, or anything else that is true.
pub data Value : Type 0 where
  nothing : Value
  whole : ℤ → Value
  amount : ℤ → Value
  text : String → Value
  mark : LegKey → Value
  naive aware : ℕ → Value
  other : Value

abbrev pub KiteDict : Type 0
KiteDict = Dict String Value

-- The constants of `KiteConnect`, `str.upper`, `int` and `Decimal` of a text, `str` of a value that
-- is no text, the amount that `Decimal(str(float(d)))` comes to, the localizing of a naive time, and
-- the payload that is kept of a response.
pub record Kite : Type 0 where
  pub exchange_nfo : String
  pub exchange_bfo : String
  pub exchange_nse : String
  pub exchange_bse : String
  pub transaction_type_buy : String
  pub transaction_type_sell : String
  pub product_mis : String
  pub product_nrml : String
  pub order_type_market : String
  pub order_type_limit : String
  pub variety_regular : String
  pub upper : String → String
  pub text_int : String → Option ℤ
  pub text_decimal : String → Option ℤ
  pub shown : Value → String
  pub float : ℤ → ℤ
  pub localize : ℕ → ℕ
  pub payload : KiteDict → String

-- The constants of one kind are different texts.
pub record AreDistinct (k : Kite) : Type 0 where
  pub nfo_bfo : (k.exchange_nfo == k.exchange_bfo) ≡ false
  pub nfo_nse : (k.exchange_nfo == k.exchange_nse) ≡ false
  pub nfo_bse : (k.exchange_nfo == k.exchange_bse) ≡ false
  pub bfo_nse : (k.exchange_bfo == k.exchange_nse) ≡ false
  pub bfo_bse : (k.exchange_bfo == k.exchange_bse) ≡ false
  pub nse_bse : (k.exchange_nse == k.exchange_bse) ≡ false
  pub buy_sell : (k.transaction_type_buy == k.transaction_type_sell) ≡ false
  pub mis_nrml : (k.product_mis == k.product_nrml) ≡ false
  pub limit_market : (k.order_type_limit == k.order_type_market) ≡ false

-- `{v: k for k, v in table.items()}`
unfoldable pub inverted : {A : Type 0} → List (A × String) → Dict String A → Dict String A
inverted [] d = d
inverted ((a, v) ∷ table) d = inverted table (insert v a d)

module _ (k : Kite) where
  unfoldable pub to_kite_exchange : Exchange → String
  to_kite_exchange Exchange.nfo = k.exchange_nfo
  to_kite_exchange Exchange.bfo = k.exchange_bfo
  to_kite_exchange Exchange.nse = k.exchange_nse
  to_kite_exchange Exchange.bse = k.exchange_bse

  unfoldable pub to_kite_transaction_type : TransactionType → String
  to_kite_transaction_type TransactionType.buy = k.transaction_type_buy
  to_kite_transaction_type TransactionType.sell = k.transaction_type_sell

  unfoldable pub to_kite_product : ProductType → String
  to_kite_product ProductType.intraday = k.product_mis
  to_kite_product ProductType.normal = k.product_nrml

  unfoldable pub to_kite_order_type : OrderType → String
  to_kite_order_type OrderType.market = k.order_type_market
  to_kite_order_type OrderType.limit = k.order_type_limit

  -- `_EXCHANGE_FROM_KITE`, `_TRANSACTION_FROM_KITE`, `_PRODUCT_FROM_KITE`
  unfoldable pub exchange_from_kite : Dict String Exchange
  unfolding inverted
  exchange_from_kite =
      inverted
        ((Exchange.nfo, k.exchange_nfo)
          ∷ (Exchange.bfo, k.exchange_bfo)
          ∷ (Exchange.nse, k.exchange_nse)
          ∷ (Exchange.bse, k.exchange_bse)
          ∷ [])
        []

  unfoldable pub transaction_from_kite : Dict String TransactionType
  unfolding inverted
  transaction_from_kite =
      inverted
        ((TransactionType.buy, k.transaction_type_buy)
          ∷ (TransactionType.sell, k.transaction_type_sell)
          ∷ [])
        []

  unfoldable pub product_from_kite : Dict String ProductType
  unfolding inverted
  product_from_kite =
      inverted ((ProductType.intraday, k.product_mis) ∷ (ProductType.normal, k.product_nrml) ∷ [])
        []

  abbrev pub or_default : {A : Type 0} → Option A → A → A
  or_default none d = d
  or_default (some a) d = a

  -- `_TRANSACTION_FROM_KITE.get(value, BUY)`
  unfoldable pub from_kite_transaction_type : Value → TransactionType
  unfolding transaction_from_kite
  from_kite_transaction_type (text s) =
      or_default (lookup s transaction_from_kite) TransactionType.buy
  from_kite_transaction_type _ = TransactionType.buy

  unfoldable pub from_kite_product : Value → ProductType
  unfolding product_from_kite
  from_kite_product (text s) = or_default (lookup s product_from_kite) ProductType.normal
  from_kite_product _ = ProductType.normal

  unfoldable pub from_kite_order_type : Value → OrderType
  from_kite_order_type (text s) =
      if s == k.order_type_market then OrderType.market else OrderType.limit
  from_kite_order_type _ = OrderType.limit

-- `_STATUS_FROM_KITE`, PENDING for any other word
unfoldable pub status_of_word : String → OrderStatus
status_of_word s =
    if s == "COMPLETE"
    then OrderStatus.complete
    else if s == "REJECTED"
    then OrderStatus.rejected
    else if s == "CANCELLED"
    then OrderStatus.cancelled
    else if s == "OPEN"
    then OrderStatus.opened
    else OrderStatus.pending

unfoldable pub from_kite_option_type : Value → Option OptionType
from_kite_option_type (text s) =
    if s == "CE" then some OptionType.ce else if s == "PE" then some OptionType.pe else none
from_kite_option_type _ = none
