-- ===== src/DeliveryPolicy/Tests.antt =====
-- Runs of app/services/notifications/delivery_policy.py on concrete failures.
use justup.Prelude.{◌≡◌, refl, some, []}
use justup.Text.{codes}
use justup.DeliveryPolicy.{
  Raised, smtp_data_error, classify_failure, rate_limited, isinstance, names_rate,
}

-- 452 4.7.0 Rate exceeded
abbrev throttled : Raised
throttled = record {
  class = smtp_data_error;
  type_name = "SMTPDataError";
  message = "(452, b'4.7.0 Rate exceeded')";
  retry_after_seconds = 0;
  smtp_code = 452;
  smtp_error = codes "4.7.0 Rate exceeded";
  recipient_codes = [];
}

throttled_is_rate_limited : (classify_failure throttled).kind ≡ rate_limited
unfolding classify_failure isinstance names_rate
throttled_is_rate_limited = refl

throttled_pauses : (classify_failure throttled).cooldown_seconds ≡ some 900
unfolding classify_failure isinstance names_rate
throttled_pauses = refl
