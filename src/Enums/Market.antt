-- ===== src/Enums/Market.antt =====
-- src/algo/common/enums.py: instruments and orders.
use trading_project.Base.{ℕ, ◌≡◌, ◌↔◌, true, arith, eqb}
use trading_project.Base.Eq.{Eq}

pub data Exchange : Type 0 where
  nfo bfo nse bse : Exchange

pub data OptionType : Type 0 where
  ce pe : OptionType

pub data OrderPurpose : Type 0 where
  entry exit : OrderPurpose

pub data TransactionType : Type 0 where
  buy sell : TransactionType

pub data OrderType : Type 0 where
  market limit : OrderType

pub data ProductType : Type 0 where
  intraday normal : ProductType

pub data OrderStatus : Type 0 where
  pending opened complete rejected cancelled error : OrderStatus

pub data IntentStatus : Type 0 where
  pending submitted_unconfirmed placed confirmed failed cancelled : IntentStatus

abbrev pub exchange_index : Exchange → ℕ
exchange_index Exchange.nfo = 0
exchange_index Exchange.bfo = 1
exchange_index Exchange.nse = 2
exchange_index Exchange.bse = 3

pub exchange_beq_iff :
    (a b : Exchange) → (eqb (exchange_index a) (exchange_index b) ≡ true) ↔ (a ≡ b)
exchange_beq_iff a b = ground arith

instance abbrev pub exchange_eq : Eq Exchange
exchange_eq = record {
  beq = λ a b. eqb (exchange_index a) (exchange_index b);
  beq_iff = exchange_beq_iff;
}

abbrev pub option_type_index : OptionType → ℕ
option_type_index OptionType.ce = 0
option_type_index OptionType.pe = 1

pub option_type_beq_iff :
    (a b : OptionType) → (eqb (option_type_index a) (option_type_index b) ≡ true) ↔ (a ≡ b)
option_type_beq_iff a b = ground arith

instance abbrev pub option_type_eq : Eq OptionType
option_type_eq = record {
  beq = λ a b. eqb (option_type_index a) (option_type_index b);
  beq_iff = option_type_beq_iff;
}

abbrev pub order_purpose_index : OrderPurpose → ℕ
order_purpose_index OrderPurpose.entry = 0
order_purpose_index OrderPurpose.exit = 1

pub order_purpose_beq_iff :
    (a b : OrderPurpose) → (eqb (order_purpose_index a) (order_purpose_index b) ≡ true) ↔ (a ≡ b)
order_purpose_beq_iff a b = ground arith

instance abbrev pub order_purpose_eq : Eq OrderPurpose
order_purpose_eq = record {
  beq = λ a b. eqb (order_purpose_index a) (order_purpose_index b);
  beq_iff = order_purpose_beq_iff;
}

abbrev pub transaction_type_index : TransactionType → ℕ
transaction_type_index TransactionType.buy = 0
transaction_type_index TransactionType.sell = 1

pub transaction_type_beq_iff :
    (a b : TransactionType)
    → (eqb (transaction_type_index a) (transaction_type_index b) ≡ true) ↔ (a ≡ b)
transaction_type_beq_iff a b = ground arith

instance abbrev pub transaction_type_eq : Eq TransactionType
transaction_type_eq = record {
  beq = λ a b. eqb (transaction_type_index a) (transaction_type_index b);
  beq_iff = transaction_type_beq_iff;
}

abbrev pub order_type_index : OrderType → ℕ
order_type_index OrderType.market = 0
order_type_index OrderType.limit = 1

pub order_type_beq_iff :
    (a b : OrderType) → (eqb (order_type_index a) (order_type_index b) ≡ true) ↔ (a ≡ b)
order_type_beq_iff a b = ground arith

instance abbrev pub order_type_eq : Eq OrderType
order_type_eq = record {
  beq = λ a b. eqb (order_type_index a) (order_type_index b);
  beq_iff = order_type_beq_iff;
}

abbrev pub product_type_index : ProductType → ℕ
product_type_index ProductType.intraday = 0
product_type_index ProductType.normal = 1

pub product_type_beq_iff :
    (a b : ProductType) → (eqb (product_type_index a) (product_type_index b) ≡ true) ↔ (a ≡ b)
product_type_beq_iff a b = ground arith

instance abbrev pub product_type_eq : Eq ProductType
product_type_eq = record {
  beq = λ a b. eqb (product_type_index a) (product_type_index b);
  beq_iff = product_type_beq_iff;
}

abbrev pub order_status_index : OrderStatus → ℕ
order_status_index OrderStatus.pending = 0
order_status_index OrderStatus.opened = 1
order_status_index OrderStatus.complete = 2
order_status_index OrderStatus.rejected = 3
order_status_index OrderStatus.cancelled = 4
order_status_index OrderStatus.error = 5

pub order_status_beq_iff :
    (a b : OrderStatus) → (eqb (order_status_index a) (order_status_index b) ≡ true) ↔ (a ≡ b)
order_status_beq_iff a b = ground arith

instance abbrev pub order_status_eq : Eq OrderStatus
order_status_eq = record {
  beq = λ a b. eqb (order_status_index a) (order_status_index b);
  beq_iff = order_status_beq_iff;
}

abbrev pub intent_status_index : IntentStatus → ℕ
intent_status_index IntentStatus.pending = 0
intent_status_index IntentStatus.submitted_unconfirmed = 1
intent_status_index IntentStatus.placed = 2
intent_status_index IntentStatus.confirmed = 3
intent_status_index IntentStatus.failed = 4
intent_status_index IntentStatus.cancelled = 5

pub intent_status_beq_iff :
    (a b : IntentStatus) → (eqb (intent_status_index a) (intent_status_index b) ≡ true) ↔ (a ≡ b)
intent_status_beq_iff a b = ground arith

instance abbrev pub intent_status_eq : Eq IntentStatus
intent_status_eq = record {
  beq = λ a b. eqb (intent_status_index a) (intent_status_index b);
  beq_iff = intent_status_beq_iff;
}
