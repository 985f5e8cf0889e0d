-- ===== src/Kite/Faults.antt =====
-- src/algo/brokers/kite/mapper.py, `translate_kite_exception`: what an exception of the client comes
-- to. The classes of kiteconnect and requests are a parameter of the platform: their documented
-- hierarchy is the table `is_instance`.
use trading_project.Base.{◌≡◌, ◌⊎◌, Bool, true, false, if◌then◌else◌}
use trading_project.Broker.{BrokerError}

-- The exceptions that a call may raise, each by its most specific class of those that are told
-- apart: those of kiteconnect, those of requests, the platform's own, and any other.
pub data KiteException : Type 0 where
  token permission input order network malformed general : KiteException
  connect_timeout read_timeout other_timeout other_connection_error : KiteException
  broker : BrokerError → KiteException
  unexpected : KiteException

-- The classes that the code asks for.
pub data ExceptionClass : Type 0 where
  token_exception permission_exception input_exception order_exception : ExceptionClass
  network_exception data_exception general_exception : ExceptionClass
  connect_timeout_error read_timeout_error timeout_error connection_error : ExceptionClass

-- `isinstance`: in requests, a connect timeout is a timeout and a connection error, a read timeout is
-- a timeout.
unfoldable pub is_instance : KiteException → ExceptionClass → Bool
is_instance token token_exception = true
is_instance permission permission_exception = true
is_instance input input_exception = true
is_instance order order_exception = true
is_instance network network_exception = true
is_instance malformed data_exception = true
is_instance general general_exception = true
is_instance connect_timeout connect_timeout_error = true
is_instance connect_timeout timeout_error = true
is_instance connect_timeout connection_error = true
is_instance read_timeout read_timeout_error = true
is_instance read_timeout timeout_error = true
is_instance other_timeout timeout_error = true
is_instance other_connection_error connection_error = true
is_instance _ _ = false

-- The error that is raised in its place: one of the platform's classes, `KiteMappingError`, or a
-- plain `BrokerError`.
pub data Translated : Type 0 where
  as_broker : BrokerError → Translated
  as_mapping_error : Translated
  as_plain : Translated

-- the last lines: the platform's own errors pass through
passed_through : KiteException → Translated
passed_through (broker e) = as_broker e
passed_through _ = as_plain

unfoldable pub translate_kite_exception : KiteException → Bool → Translated
unfolding passed_through is_instance
translate_kite_exception e mutating =
    if is_instance e token_exception
    then as_broker BrokerError.authentication
    else if is_instance e permission_exception
    then as_broker BrokerError.authentication
    else if is_instance e input_exception
    then as_broker BrokerError.invalid_order_request
    else if is_instance e order_exception
    then as_broker BrokerError.order_rejected
    else if is_instance e connect_timeout_error
    then as_broker BrokerError.connection
    else if is_instance e read_timeout_error
    then as_broker BrokerError.timeout
    else if is_instance e timeout_error
    then as_broker BrokerError.timeout
    else if is_instance e connection_error
    then as_broker BrokerError.connection
    else if is_instance e network_exception
    then (if mutating then as_broker BrokerError.timeout else as_broker BrokerError.connection)
    else if is_instance e data_exception
    then as_mapping_error
    else if is_instance e general_exception
    then as_plain
    else passed_through e

-- `is_instrument_not_found`
unfoldable pub is_instrument_not_found : KiteException → Bool
unfolding is_instance
is_instrument_not_found e = is_instance e input_exception

-- Whether the request may have reached the exchange when the call raises: what the libraries document
-- of each exception, and of the platform's own errors what their classes say.
unfoldable pub outcome_unknown : KiteException → Bool
outcome_unknown network = true
outcome_unknown read_timeout = true
outcome_unknown other_timeout = true
outcome_unknown other_connection_error = true
outcome_unknown (broker BrokerError.timeout) = true
outcome_unknown _ = false

-- How the translation of an exception of a mutating call tells apart those of unknown outcome, and
-- how that of a read differs.
pub record TellsApart (e : KiteException) : Type 0 where
  pub ambiguous :
      outcome_unknown e ≡ true
      → (translate_kite_exception e true ≡ as_broker BrokerError.timeout)
        ⊎ (e ≡ other_connection_error)
  pub only_ambiguous :
      translate_kite_exception e true ≡ as_broker BrokerError.timeout → outcome_unknown e ≡ true
  pub not_sent :
      translate_kite_exception e true ≡ as_broker BrokerError.connection
      → (outcome_unknown e ≡ false) ⊎ (e ≡ other_connection_error)
  pub of_read :
      (translate_kite_exception e false ≡ translate_kite_exception e true)
      ⊎ ((e ≡ network) × (translate_kite_exception e false ≡ as_broker BrokerError.connection))
