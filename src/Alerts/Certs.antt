-- ===== src/Alerts/Certs.antt =====
-- The alert on an expiring certificate: `_maybe_cert_alert` of app/monitor/scheduler.py, inside its
-- work section. `written` says whether the database accepts the change; if not, the error is logged
-- and nothing is changed.
use justup.Prelude.{
  ℕ, ◌+◌, ◌≡◌, refl, Bool, true, false, Option, none, some, List, [], ◌∷◌, ltb, count_if,
  if◌then◌else◌, arith, ℤ, pos, negsuc,
}

-- `days_left > CERT_EXPIRY_ALERT_DAYS`
abbrev pub is_beyond : ℤ → Bool
is_beyond (pos n) = ltb 7 n
is_beyond (negsuc n) = false

pub data CertEvent : Type 0 where
  cert_opened : ℕ → ℤ → CertEvent
  cert_resolved : ℕ → CertEvent

pub record CertRuntime : Type 0 where
  pub cert_alert_sent : Bool
  pub cert_alert_id : Option ℕ
  pub next_id : ℕ
  pub log : List CertEvent

-- The certificate was renewed.
renewed : Bool → CertRuntime → CertRuntime
renewed written rt = elim rt.cert_alert_id [
  | none ↦ record rt { cert_alert_sent = false }
  | some id ↦
      if rt.cert_alert_sent
      then if written
        then record rt {
          cert_alert_sent = false;
          cert_alert_id = none;
          log = cert_resolved id ∷ rt.log;
        }
        else rt
      else record rt { cert_alert_sent = false }
]

unfoldable pub maybe_cert_alert : Bool → ℤ → CertRuntime → CertRuntime
unfolding renewed
maybe_cert_alert written days_left rt =
    if is_beyond days_left
    then renewed written rt
    else if rt.cert_alert_sent
    then rt
    else if written
    then record rt {
      cert_alert_sent = true;
      cert_alert_id = some rt.next_id;
      next_id = rt.next_id + 1;
      log = cert_opened rt.next_id days_left ∷ rt.log;
    }
    else rt

unfoldable pub watch : List (Bool × ℤ) → CertRuntime → CertRuntime
unfolding maybe_cert_alert
watch [] rt = rt
watch ((written, days_left) ∷ checks) rt = watch checks (maybe_cert_alert written days_left rt)

abbrev pub is_cert_opened : CertEvent → Bool
is_cert_opened (cert_opened id days_left) = true
is_cert_opened (cert_resolved id) = false

abbrev pub is_cert_resolved : CertEvent → Bool
is_cert_resolved (cert_opened id days_left) = false
is_cert_resolved (cert_resolved id) = true

abbrev pub has_id : CertRuntime → Bool
has_id rt = elim rt.cert_alert_id [ none ↦ false | some id ↦ true ]

pub record IsOnce (rt : CertRuntime) : Type 0 where
  pub kept : has_id rt ≡ rt.cert_alert_sent
  pub paired :
      count_if is_cert_opened rt.log
      ≡ count_if is_cert_resolved rt.log + (if rt.cert_alert_sent then 1 else 0)

renewed-IsOnce : (written : Bool) (rt : CertRuntime) → IsOnce rt → IsOnce (renewed written rt)
unfolding renewed
renewed-IsOnce written rt p = ground (arith, p.kept, p.paired)

maybe_cert_alert-IsOnce :
    (written : Bool) (days_left : ℤ) (rt : CertRuntime)
    → IsOnce rt
    → IsOnce (maybe_cert_alert written days_left rt)
unfolding maybe_cert_alert
maybe_cert_alert-IsOnce written days_left rt p =
    ground (arith, p.kept, p.paired, renewed-IsOnce written rt p)

watch-kept : (checks : List (Bool × ℤ)) (rt : CertRuntime) → IsOnce rt → IsOnce (watch checks rt)
unfolding watch
watch-kept [] rt p = p
watch-kept ((written, days_left) ∷ checks) rt p =
    watch-kept checks (maybe_cert_alert written days_left rt)
      (maybe_cert_alert-IsOnce written days_left rt p)

abbrev pub no_alert : CertRuntime
no_alert = record { cert_alert_sent = false; cert_alert_id = none; next_id = 1; log = [] }

-- Whatever days are measured and whichever writes fail, the certificate alert of a target is opened
-- again only after the one before it was resolved: as many were resolved as opened, but for the one that the
-- runtime holds, which it marks as sent.
pub watch-IsOnce : (checks : List (Bool × ℤ)) → IsOnce (watch checks no_alert)
watch-IsOnce checks = watch-kept checks no_alert (record { kept = refl; paired = omega arith })
