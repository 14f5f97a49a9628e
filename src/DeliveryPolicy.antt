-- ===== src/DeliveryPolicy.antt =====
-- The delivery policy of app/services/notifications/delivery_policy.py.
mod Exceptions
pub use Exceptions.{
  Class, exception, signal_error, signal_unavailable, signal_not_installed, signal_not_registered,
  signal_timeout, signal_rate_limited, signal_recipient_invalid, signal_send_failed, os_error,
  smtp_exception, smtp_configuration_error, smtp_encryption_error, smtp_not_supported,
  smtp_partial_refusal, smtp_envelope_error, smtp_acceptance_unknown, smtp_not_accepted,
  smtp_response_exception, smtp_authentication_error, smtp_connect_error, smtp_helo_error,
  smtp_sender_refused, smtp_data_error, smtp_recipients_refused, smtp_server_disconnected,
  ssl_error, ssl_cert_verification_error, timeout_error, connection_error, connection_reset_error,
  broken_pipe_error, Raised,
}
unfoldable pub use Exceptions.{isinstance}
pub mod Classes
pub mod Backoff
pub mod Keys
mod Tests
use justup.Prelude.{
  ℕ, ◌+◌, ◌*◌, ◌^◌, String, Bool, true, false, not, ◌&&◌, ◌||◌, Option, none, some, List, [], ◌∷◌,
  ◌++◌, leb, ltb, ◌==◌, str_eq, min, max, if◌then◌else◌,
}
use justup.Text.{codes, contains_any, lower, strip, before}

abbrev pub base_delay_seconds : ℕ
base_delay_seconds = 60

abbrev pub max_delay_seconds : ℕ
max_delay_seconds = 900

-- 24 * 3600
abbrev pub message_validity_seconds : ℕ
message_validity_seconds = 86400

abbrev pub max_retries : ℕ
max_retries = 5

-- 24 * 3600
abbrev pub max_cooldown_seconds : ℕ
max_cooldown_seconds = 86400

abbrev pub max_pacing_wait_seconds : ℕ
max_pacing_wait_seconds = 3

abbrev pub smtp_rate_limit_cooldown_seconds : ℕ
smtp_rate_limit_cooldown_seconds = 900

abbrev pub signal_rate_limit_fallback_seconds : ℕ
signal_rate_limit_fallback_seconds = 3600

pub data FailureKind : Type 0 where
  transient rate_limited limited permanent : FailureKind

pub record Failure : Type 0 where
  pub kind : FailureKind
  pub reason : String
  pub cooldown_seconds : Option ℕ
  pub uncertain : Bool

-- `Failure(kind, reason)`
abbrev plain : FailureKind → String → Failure
plain kind reason = record {
  kind = kind;
  reason = reason;
  cooldown_seconds = none;
  uncertain = false;
}

abbrev unconfirmed : String → Failure
unconfirmed reason = record {
  kind = transient;
  reason = reason;
  cooldown_seconds = none;
  uncertain = true;
}

abbrev cooling : String → ℕ → Failure
cooling reason seconds = record {
  kind = rate_limited;
  reason = reason;
  cooldown_seconds = some seconds;
  uncertain = false;
}

rate_words : List (List ℕ)
rate_words =
    codes "rate"
    ∷ codes "throttl"
    ∷ codes "too many"
    ∷ codes "limit"
    ∷ codes "quota"
    ∷ codes "slow down"
    ∷ codes "exceed"
    ∷ []

is_throttle_code : ℕ → Bool
is_throttle_code c = c == 421 || c == 450 || c == 451 || c == 452

-- `_reason`
reason_of : Raised → String
reason_of e = if str_eq e.message "" then e.type_name else e.message

unfoldable pub names_rate : List ℕ → Bool
unfolding rate_words contains_any lower
names_rate text = contains_any rate_words (lower text)

smtp_response_failure : ℕ → List ℕ → String → Failure
unfolding is_throttle_code
smtp_response_failure c text reason =
    if leb 500 c
    then plain permanent reason
    else if is_throttle_code c && names_rate text
    then cooling reason smtp_rate_limit_cooldown_seconds
    else plain transient reason

-- codes and min(codes) >= 500
all_final : List ℕ → Bool
all_final [] = true
all_final (c ∷ cs) = leb 500 c && all_final cs

is_final : List ℕ → Bool
unfolding all_final
is_final [] = false
is_final (c ∷ cs) = all_final (c ∷ cs)

-- The branches of `classify_failure` from the generic network errors on.
classify_network : Raised → String → Failure
classify_network e reason =
    if isinstance e ssl_error
    then plain limited reason
    else if isinstance e timeout_error
        || isinstance e connection_reset_error
        || isinstance e broken_pipe_error
    then unconfirmed reason
    else if isinstance e os_error
    then plain transient reason
    else plain limited reason

-- The branches for SMTP.
classify_smtp : Raised → String → Failure
unfolding is_final classify_network smtp_response_failure
classify_smtp e reason =
    if isinstance e smtp_configuration_error
      || isinstance e smtp_encryption_error
      || isinstance e smtp_not_supported
    then plain limited reason
    else if isinstance e smtp_authentication_error
    then plain limited reason
    else if isinstance e smtp_partial_refusal || isinstance e smtp_envelope_error
    then plain permanent reason
    else if isinstance e smtp_acceptance_unknown
    then unconfirmed reason
    else if isinstance e smtp_not_accepted
    then plain transient reason
    else if (isinstance e smtp_connect_error || isinstance e smtp_helo_error) && leb 500 e.smtp_code
    then plain limited reason
    else if isinstance e smtp_recipients_refused
    then plain (if is_final e.recipient_codes then permanent else transient) reason
    else if isinstance e smtp_sender_refused && leb 500 e.smtp_code
    then plain limited reason
    else if isinstance e smtp_response_exception
    then smtp_response_failure e.smtp_code e.smtp_error reason
    else if isinstance e smtp_server_disconnected
    then unconfirmed reason
    else if isinstance e smtp_exception
    then plain transient reason
    else classify_network e reason

unfoldable pub classify_failure : Raised → Failure
unfolding classify_smtp reason_of
classify_failure e =
    if isinstance e signal_rate_limited
    then cooling (reason_of e) (
        min
          (if ltb 0 e.retry_after_seconds
            then e.retry_after_seconds
            else signal_rate_limit_fallback_seconds)
          max_cooldown_seconds)
    else if isinstance e signal_recipient_invalid || isinstance e signal_not_registered
    then plain permanent (reason_of e)
    else if isinstance e signal_not_installed
    then plain limited (reason_of e)
    else if isinstance e signal_timeout
    then unconfirmed (reason_of e)
    else if isinstance e signal_unavailable || isinstance e signal_send_failed
    then plain transient (reason_of e)
    else classify_smtp e (reason_of e)

-- `delay` of `backoff_delay_seconds`
unfoldable pub delay_seconds : ℕ → ℕ
delay_seconds attempt = min (base_delay_seconds * 2 ^ min attempt 16) max_delay_seconds

-- `backoff_delay_seconds` in units of 1 / (4 * parts) of a second, where `random.random()` returns
-- `drawn / parts` with `drawn < parts`: delay + delay * 0.25 * (2 * drawn / parts - 1).
unfoldable pub backoff_delay : ℕ → ℕ → ℕ → ℕ
backoff_delay parts drawn attempt =
    max (base_delay_seconds * (4 * parts)) (delay_seconds attempt * (3 * parts + 2 * drawn))

signal_prefix : List ℕ
signal_prefix = codes "signal:"

pub data Channel : Type 0 where
  email signal : Channel

unfoldable pub channel_text : Channel → List ℕ
channel_text email = codes "email"
channel_text signal = codes "signal"

-- `sender or ''` is the empty text without a sender.
unfoldable pub channel_key : Channel → List ℕ → List ℕ
unfolding channel_text signal_prefix
channel_key email sender = channel_text email
channel_key signal sender = signal_prefix ++ strip sender

unfoldable pub channel_of_key : List ℕ → List ℕ
channel_of_key key = before b':' key

pub record ChannelPolicy : Type 0 where
  pub min_interval_ms : ℕ
  pub batch_limit : ℕ

-- `CHANNEL_POLICIES`, in milliseconds.
unfoldable pub channel_policy : Channel → ChannelPolicy
channel_policy email = record { min_interval_ms = 2500; batch_limit = 4 }
channel_policy signal = record { min_interval_ms = 10000; batch_limit = 1 }
