-- ===== src/Kite/Values.antt =====
-- src/algo/brokers/kite/mapper.py: numbers, prices, texts and times out of a response.
use trading_project.Base.{
  ℕ, ◌+◌, ◌/◌, String, Bool, true, false, not, Option, none, some, ◌==◌, string_eq, if◌then◌else◌,
}
use trading_project.Base.Int.{ℤ, pos, negsuc, ◌*ℤ◌, ◌-ℤ◌, int_eq}
use trading_project.Base.Dict.{lookup}
use trading_project.Enums.{Exchange, OrderStatus}
use trading_project.Models.{Tag}
use trading_project.Kite.{
  Value, nothing, whole, amount, text, mark, naive, aware, other, KiteDict, Kite,
  exchange_from_kite, status_of_word,
}

-- What a mapping comes to: a value, `KiteMappingError`, or an exception that nothing here catches.
pub data Mapped {ℓ} (A : Type ℓ) : Type ℓ where
  mapped : A → Mapped A
  mapping_error : Mapped A
  attribute_error : Mapped A

infixl 5 ◌>>=◌ ◌>>◌
abbrev pub ◌>>=◌ {ℓ κ} : {A : Type ℓ} {B : Type κ} → Mapped A → (A → Mapped B) → Mapped B
mapped a >>= f = f a
mapping_error >>= f = mapping_error
attribute_error >>= f = attribute_error

abbrev pub ◌>>◌ {κ} : {B : Type κ} → Mapped (Unit {0}) → Mapped B → Mapped B
m >> k = m >>= λ _. k

-- a test whose failure is a `ValueError`
abbrev pub require : Bool → Mapped (Unit {0})
require true = mapped tt
require false = mapping_error

abbrev pub or_error : {A : Type 0} → Option A → Mapped A
or_error none = mapping_error
or_error (some a) = mapped a

-- whether a value counts as true
unfoldable pub truthy : Value → Bool
truthy nothing = false
truthy (whole n) = not (n == pos 0)
truthy (amount n) = not (n == pos 0)
truthy (text s) = not (s == "")
truthy (mark t) = true
truthy (naive _) = true
truthy (aware _) = true
truthy other = true

-- `v or w`
unfoldable pub or_else : Value → Value → Value
unfolding truthy
or_else v w = if truthy v then v else w

-- `data.get(key)`
abbrev pub get_found : Option Value → Value
get_found none = nothing
get_found (some v) = v

abbrev pub get : String → KiteDict → Value
get key d = get_found (lookup key d)

-- `int` of an amount drops the fraction
abbrev truncated : ℤ → ℤ
truncated (pos n) = pos (n / 10000)
truncated (negsuc n) = pos 0 -ℤ pos ((n + 1) / 10000)

-- a text that `str | None` accepts
unfoldable pub text_or_none : Value → Mapped (Option String)
text_or_none nothing = mapped none
text_or_none (text s) = mapped (some s)
text_or_none _ = mapping_error

unfoldable pub tag_or_none : Value → Mapped (Option Tag)
tag_or_none nothing = mapped none
tag_or_none (text s) = mapped (some (Tag.text s))
tag_or_none (mark key) = mapped (some (Tag.leg key))
tag_or_none _ = mapping_error

unfoldable pub required_text : Value → Mapped String
required_text (text s) = mapped s
required_text _ = mapping_error

module _ (k : Kite) where
  -- `int(v)`
  unfoldable pub int_of : Value → Mapped ℤ
  int_of (whole n) = mapped n
  int_of (amount n) = mapped (truncated n)
  int_of (text s) = or_error (k.text_int s)
  int_of _ = mapping_error

  -- `_decimal`, in ten-thousandths
  unfoldable pub decimal : Value → Mapped (Option ℤ)
  decimal nothing = mapped none
  decimal (whole n) = mapped (some (n *ℤ pos 10000))
  decimal (amount n) = mapped (some n)
  decimal (text s) =
      if s == "" then mapped none else (do d ← or_error (k.text_decimal s); mapped (some d))
  decimal _ = mapping_error

  abbrev zero_if_none : Option ℤ → ℤ
  zero_if_none none = pos 0
  zero_if_none (some d) = d

  unfoldable pub decimal_or_zero : Value → Mapped ℤ
  unfolding decimal
  decimal_or_zero v = do d ← decimal v; mapped (zero_if_none d)

  abbrev pub unless_zero : Option ℤ → Option ℤ
  unless_zero none = none
  unless_zero (some d) = if d == pos 0 then none else some d

  -- `_price_or_none`
  unfoldable pub price_or_none : Value → Mapped (Option ℤ)
  unfolding decimal
  price_or_none v = do d ← decimal v; mapped (unless_zero d)

  -- `_localize`
  unfoldable pub localized : Value → Option ℕ
  localized (naive t) = some (k.localize t)
  localized (aware t) = some t
  localized _ = none

  -- `str(v)`
  unfoldable pub str_of : Value → String
  str_of (text s) = s
  str_of v = k.shown v

  unfoldable pub from_kite_exchange : Value → Mapped Exchange
  unfolding exchange_from_kite
  from_kite_exchange (text s) = or_error (lookup s (exchange_from_kite k))
  from_kite_exchange _ = mapping_error

  -- `(value or "").upper()` is refused by what is true and no text
  word_status : Value → Mapped OrderStatus
  word_status (text s) = mapped (status_of_word (k.upper s))
  word_status (mark t) = mapped OrderStatus.pending
  word_status _ = attribute_error

  unfoldable pub from_kite_status : Value → Mapped OrderStatus
  unfolding word_status or_else
  from_kite_status v = word_status (or_else v (text ""))
