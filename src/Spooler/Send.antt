-- ===== src/Spooler/Send.antt =====
-- One network send and how its outcome is written (`_send_item`, `_result_for`, `_apply_result` of
-- app/services/notifications/spooler.py). The senders and `getaddresses` are parameters.
pub mod Outage
use justup.Prelude.{
  ℕ, String, Bool, true, false, not, ◌||◌, Option, none, some, List, [], ◌∷◌, ◌++◌, ◌==◌, ltb,
  if◌then◌else◌,
}
use justup.Text.{codes, strip}
use justup.DeliveryPolicy.{
  Channel, email, signal, channel_key, Failure, FailureKind, Raised, classify_failure,
}
use justup.DeliveryPolicy as Policy
use justup.Spooler.{
  Row, State, ResultKind, accepted, transient, rate_limited, retry, permanent, deferred, Series,
  is_test, mark_sent, mark_retry, mark_failed_permanent, release, set_cooldown, marked, is_email,
}

pub record DeliveryResult : Type 0 where
  pub kind : ResultKind
  pub error : List ℕ
  pub delay_seconds : Option ℕ
  pub uncertain : Bool
  pub cooldown_seconds : Option ℕ

-- `DeliveryResult(kind, error)`
abbrev pub plain_result : ResultKind → List ℕ → DeliveryResult
plain_result kind error = record {
  kind = kind;
  error = error;
  delay_seconds = none;
  uncertain = false;
  cooldown_seconds = none;
}

-- `_RESULT_KIND`
abbrev pub result_kind : FailureKind → ResultKind
result_kind Policy.transient = transient
result_kind Policy.rate_limited = rate_limited
result_kind Policy.limited = retry
result_kind Policy.permanent = permanent

-- `_result_for`
pub result_for : Failure → DeliveryResult
result_for f = record {
  kind = result_kind f.kind;
  error = codes f.reason;
  delay_seconds = f.cooldown_seconds;
  uncertain = f.uncertain;
  cooldown_seconds = f.cooldown_seconds;
}

-- How the call of a sender ends.
pub data Call : Type 0 where
  returned : Bool → Call
  raised : Raised → Call
  in_maintenance : Call

unfoldable pub outcome : String → Call → DeliveryResult
unfolding result_for classify_failure
outcome refusal (returned true) = plain_result accepted []
outcome refusal (returned false) = plain_result retry (codes refusal)
outcome refusal (raised e) = result_for (classify_failure e)
outcome refusal in_maintenance = plain_result deferred (codes "maintenance")

-- `len(getaddresses([address])) != 1 or not address.strip()`
abbrev is_not_one : (String → ℕ) → String → Bool
is_not_one addresses address =
    not (addresses address == 1) || elim (strip (codes address)) [ [] ↦ true | _ ∷ _ ↦ false ]

abbrev send_signal : Option (Row → Call) → Row → DeliveryResult
unfolding outcome
send_signal none r = plain_result retry (codes "Signal sender not configured")
send_signal (some send) r = outcome "send_signal returned False" (send r)

abbrev send_email : Option (Row → Call) → (String → ℕ) → Row → DeliveryResult
unfolding outcome strip
send_email none addresses r = plain_result retry (codes "Email sender not configured")
send_email (some send) addresses r =
    if is_not_one addresses r.address
    then plain_result permanent (codes "queue entry must have exactly one recipient address")
    else outcome "send_email returned False" (send r)

pub send_item : Option (Row → Call) → Option (Row → Call) → (String → ℕ) → Row → DeliveryResult
unfolding send_signal send_email
send_item signal_sender email_sender addresses r = elim r.channel [
  | signal ↦ send_signal signal_sender r
  | email ↦ send_email email_sender addresses r
]

-- `_remember_failure_kind`
pub remember_failure_kind : ℕ → ResultKind → State → State
remember_failure_kind now kind st = record st {
  series = some (record {
    since = elim st.series [ none ↦ now | some series ↦ series.since ];
    at = now;
    kind = kind;
  });
}

abbrev is_passing : ResultKind → Bool
is_passing transient = true
is_passing rate_limited = true
is_passing _ = false

-- `_item_key`
unfoldable pub item_key : Row → List ℕ
unfolding channel_key
item_key r = channel_key r.channel r.payload.sender

cool_down : ℕ → Row → DeliveryResult → State → State
unfolding set_cooldown item_key
cool_down now r result st = elim result.cooldown_seconds [
  | none ↦ st
  | some seconds ↦
      if ltb 0 seconds then set_cooldown now (item_key r) seconds result.error st else st
]

-- The last branch of `_apply_result`: a failure that may be retried.
retry_result : ℕ → ℕ → Row → DeliveryResult → State → State
unfolding marked remember_failure_kind
retry_result now drawn r result st =
    if is_test r.type
    then mark_failed_permanent now r.id (marked result.uncertain result.error) st
    else let told = if is_email r.channel then remember_failure_kind now result.kind st else st in
      (mark_retry now drawn r.id result.error result.delay_seconds result.uncertain
        (is_passing result.kind) told).1

by_kind : ℕ → ℕ → Row → DeliveryResult → State → State
unfolding retry_result
by_kind now drawn r result st = elim result.kind [
  | accepted ↦ mark_sent now r.id st
  | permanent ↦ mark_failed_permanent now r.id result.error st
  | deferred ↦ (release now r.id st).1
  | _ ↦ retry_result now drawn r result st
]

-- `_apply_result`, for the item `r` as it was claimed.
pub apply_result : ℕ → ℕ → Row → DeliveryResult → State → State
unfolding cool_down by_kind
apply_result now drawn r result st = by_kind now drawn r result (cool_down now r result st)
