-- ===== src/DeliveryPolicy/Exceptions.antt =====
-- The exception classes that app/services/notifications/delivery_policy.py tells apart: those of
-- signal_errors.py and smtp_transport.py beside it, and the standard library's.
use justup.Prelude.{ℕ, zero, suc, String, Bool, false, ◌||◌, Option, none, some, List, ◌==◌}

pub data Class : Type 0 where
  exception : Class
  signal_error signal_unavailable signal_not_installed signal_not_registered : Class
  signal_timeout signal_rate_limited signal_recipient_invalid signal_send_failed : Class
  os_error smtp_exception smtp_configuration_error smtp_encryption_error smtp_not_supported : Class
  smtp_partial_refusal smtp_envelope_error smtp_acceptance_unknown smtp_not_accepted : Class
  smtp_response_exception smtp_authentication_error smtp_connect_error smtp_helo_error : Class
  smtp_sender_refused smtp_data_error smtp_recipients_refused smtp_server_disconnected : Class
  ssl_error ssl_cert_verification_error timeout_error connection_error : Class
  connection_reset_error broken_pipe_error : Class

-- The base class.
unfoldable pub base : Class → Option Class
base exception = none
base signal_unavailable = some signal_error
base signal_not_installed = some signal_unavailable
base signal_not_registered = some signal_error
base signal_timeout = some signal_error
base signal_rate_limited = some signal_error
base signal_recipient_invalid = some signal_error
base signal_send_failed = some signal_error
base smtp_exception = some os_error
base smtp_configuration_error = some smtp_exception
base smtp_encryption_error = some smtp_exception
base smtp_not_supported = some smtp_exception
base smtp_partial_refusal = some smtp_exception
base smtp_envelope_error = some smtp_exception
base smtp_acceptance_unknown = some smtp_exception
base smtp_not_accepted = some smtp_exception
base smtp_response_exception = some smtp_exception
base smtp_authentication_error = some smtp_response_exception
base smtp_connect_error = some smtp_response_exception
base smtp_helo_error = some smtp_response_exception
base smtp_sender_refused = some smtp_response_exception
base smtp_data_error = some smtp_response_exception
base smtp_recipients_refused = some smtp_exception
base smtp_server_disconnected = some smtp_exception
base ssl_error = some os_error
base ssl_cert_verification_error = some ssl_error
base timeout_error = some os_error
base connection_error = some os_error
base connection_reset_error = some connection_error
base broken_pipe_error = some connection_error
base _ = some exception

unfoldable pub number : Class → ℕ
number exception = 0
number signal_error = 1
number signal_unavailable = 2
number signal_not_installed = 3
number signal_not_registered = 4
number signal_timeout = 5
number signal_rate_limited = 6
number signal_recipient_invalid = 7
number signal_send_failed = 8
number os_error = 9
number smtp_exception = 10
number smtp_configuration_error = 11
number smtp_encryption_error = 12
number smtp_not_supported = 13
number smtp_partial_refusal = 14
number smtp_envelope_error = 15
number smtp_acceptance_unknown = 16
number smtp_not_accepted = 17
number smtp_response_exception = 18
number smtp_authentication_error = 19
number smtp_connect_error = 20
number smtp_helo_error = 21
number smtp_sender_refused = 22
number smtp_data_error = 23
number smtp_recipients_refused = 24
number smtp_server_disconnected = 25
number ssl_error = 26
number ssl_cert_verification_error = 27
number timeout_error = 28
number connection_error = 29
number connection_reset_error = 30
number broken_pipe_error = 31

-- Whether `c` or one of the bases above it is `other`; no class is more than five steps below
-- `exception`.
climb : (Class → Bool) → Option Class → Bool
climb up none = false
climb up (some c) = up c

unfoldable pub is_subclass : ℕ → Class → Class → Bool
unfolding base number climb
is_subclass zero other c = number c == number other
is_subclass (suc steps) other c =
    number c == number other || climb (is_subclass steps other) (base c)

-- A raised exception, with the attributes that the policy reads: `str(exc)`, the name of its type,
-- `retry_after_seconds` of SignalRateLimited (a negative one counts as 0), `smtp_code` and the
-- decoded `smtp_error` of SMTPResponseException (a negative code counts as 0), and the codes of
-- `recipients` of SMTPRecipientsRefused.
pub record Raised : Type 0 where
  pub class : Class
  pub type_name : String
  pub message : String
  pub retry_after_seconds : ℕ
  pub smtp_code : ℕ
  pub smtp_error : List ℕ
  pub recipient_codes : List ℕ

unfoldable pub isinstance : Raised → Class → Bool
unfolding is_subclass
isinstance e other = is_subclass 5 other e.class
