-- ===== src/DeliveryPolicy/Classes.antt =====
-- What the order of the `isinstance` tests of `classify_failure` comes to, class by class
-- (app/services/notifications/delivery_policy.py).
use justup.Prelude.{
  ℕ, String, ◌≤◌, ◌≡◌, ◌≢◌, true, ◌&&◌, Option, none, some, List, arith, leb, if◌then◌else◌,
}
use justup.DeliveryPolicy.{
  Class, exception, signal_error, signal_not_installed, signal_not_registered, signal_rate_limited,
  signal_recipient_invalid, smtp_configuration_error, smtp_encryption_error, smtp_not_supported,
  smtp_partial_refusal, smtp_envelope_error, smtp_response_exception, smtp_authentication_error,
  smtp_connect_error, smtp_helo_error, smtp_sender_refused, smtp_data_error,
  smtp_recipients_refused, ssl_error, ssl_cert_verification_error, Raised, isinstance, FailureKind,
  transient, rate_limited, limited, permanent, Failure, classify_failure, names_rate,
  is_throttle_code, is_final, max_cooldown_seconds,
}

-- An SMTP answer below 500: throttled, or a passing trouble.
passing : Raised → FailureKind
passing e =
    if is_throttle_code e.smtp_code && names_rate e.smtp_error then rate_limited else transient

-- An answer of 500 or more to the message itself, or to the session.
abbrev by_code : FailureKind → Raised → FailureKind
by_code final e = if leb 500 e.smtp_code then final else passing e

-- The kind for each class, written down without the order of tests.
pub kind_for : Class → Raised → FailureKind
kind_for signal_not_registered e = permanent
kind_for signal_recipient_invalid e = permanent
kind_for smtp_partial_refusal e = permanent
kind_for smtp_envelope_error e = permanent
kind_for smtp_response_exception e = by_code permanent e
kind_for smtp_data_error e = by_code permanent e
kind_for smtp_recipients_refused e = if is_final e.recipient_codes then permanent else transient
kind_for smtp_connect_error e = by_code limited e
kind_for smtp_helo_error e = by_code limited e
kind_for smtp_sender_refused e = by_code limited e
kind_for signal_rate_limited e = rate_limited
kind_for exception e = limited
kind_for signal_error e = limited
kind_for signal_not_installed e = limited
kind_for smtp_configuration_error e = limited
kind_for smtp_encryption_error e = limited
kind_for smtp_not_supported e = limited
kind_for smtp_authentication_error e = limited
kind_for ssl_error e = limited
kind_for ssl_cert_verification_error e = limited
kind_for _ e = transient

module _ (type_name message : String) (wait code : ℕ) (answer recipients : List ℕ) where
  abbrev raised : Class → Raised
  raised c = record {
    class = c;
    type_name = type_name;
    message = message;
    retry_after_seconds = wait;
    smtp_code = code;
    smtp_error = answer;
    recipient_codes = recipients;
  }

  kind_of_class : (c : Class) → (classify_failure (raised c)).kind ≡ kind_for c (raised c)
  unfolding classify_failure isinstance kind_for passing
  kind_of_class exception = ground arith
  kind_of_class _ = ground arith

-- `classify_failure` gives each class the kind of the table: final only for a verdict on the message
-- itself, never for a setup, sign-in or TLS problem, which waits for an administrator; throttled
-- only for Signal's rate limit and the four SMTP codes with a rate word; anything else is retried.
pub classify_failure-kind_for : (e : Raised) → (classify_failure e).kind ≡ kind_for e.class e
classify_failure-kind_for e =
    kind_of_class e.type_name e.message e.retry_after_seconds e.smtp_code e.smtp_error
      e.recipient_codes e.class

abbrev pub CooldownFits : FailureKind → Option ℕ → Type 0
CooldownFits kind none = kind ≢ rate_limited
CooldownFits kind (some seconds) =
    (kind ≡ rate_limited) × (1 ≤ seconds) × (seconds ≤ max_cooldown_seconds)

pub record IsConsistent (f : Failure) : Type 0 where
  pub pause : CooldownFits f.kind f.cooldown_seconds
  pub doubt : f.uncertain ≡ true → f.kind ≡ transient

module _ (type_name message : String) (wait code : ℕ) (answer recipients : List ℕ) where
  IsConsistent-class :
      (c : Class)
      → IsConsistent (classify_failure (raised type_name message wait code answer recipients c))
  unfolding classify_failure isinstance
  IsConsistent-class exception = ground arith
  IsConsistent-class _ = ground arith

-- A failure carries a cooldown exactly when it is a rate limit, of at least one second and at most
-- a day, and only a failure that is retried without limit is marked as uncertain.
pub classify_failure-IsConsistent : (e : Raised) → IsConsistent (classify_failure e)
classify_failure-IsConsistent e =
    IsConsistent-class e.type_name e.message e.retry_after_seconds e.smtp_code e.smtp_error
      e.recipient_codes e.class
