-- ===== src/Spooler/Ledger.antt =====
-- What every step of the notification queue keeps (app/services/notifications/spooler.py): the
-- inbox is told of each final state once, the retry budget holds, and a final row stays as it is.
pub mod Settle
use mathlib.Core.Option.{some-injective}
use justup.Prelude.{
  ℕ, ◌+◌, ◌≤◌, ◌<◌, ◌≡◌, refl, sym, ap, ◌∙◌, subst, Bool, true, false, not, ◌&&◌, Option, some,
  List, ◌==◌, ==_iff, arith, if◌then◌else◌, count_if, All, Bool-cases, inl, inr, str_eq,
}
use justup.DeliveryPolicy.{Channel, email, max_retries}
use justup.Spooler.{
  NotificationType, Payload, Row, State, sent, failed, is_open, is_test, Event, delivery_sent,
  delivery_failed, find, modify, settle, record_delivery, tell_sent, tell_failed, Message, is_alert,
  same_channel, same_id, same_word, stored_event, given_event, same_alert,
}
use justup.Spooler.Rows.{find-modify, All-modify, count-modify}

abbrev pub has_sent : Row → Bool
has_sent r = elim r.status [ sent ↦ true | _ ↦ false ]

abbrev pub has_failed : Row → Bool
has_failed r = elim r.status [ failed ↦ true | _ ↦ false ]

-- The inbox calls name the channel of what was handed off, and the id of what has failed.
abbrev pub is_sent_on : Channel → Event → Bool
is_sent_on c (delivery_sent d) = same_channel d c
is_sent_on c _ = false

abbrev pub is_failed_of : ℕ → Event → Bool
is_failed_of i (delivery_failed id c t reason) = id == i
is_failed_of i _ = false

abbrev pub has_id : ℕ → Row → Bool
has_id i r = r.id == i

abbrev pub has_sent_on : Channel → Row → Bool
has_sent_on c r = has_sent r && same_channel r.channel c

abbrev pub has_failed_as : ℕ → Row → Bool
has_failed_as i r = has_failed r && r.id == i

abbrev pub has_failed_message : Row → Bool
has_failed_message r = has_failed r && not (is_test r.type)

abbrev pub has_failed_message_as : ℕ → Row → Bool
has_failed_message_as i r = has_failed_message r && r.id == i

abbrev pub WithinBudget : Row → Type 0
WithinBudget r = is_open r.status ≡ true → r.limited_attempts ≤ max_retries

abbrev pub Older : ℕ → Row → Type 0
Older next r = r.id < next

pub record Sound (st : State) : Type 0 where
  pub unique : (i : ℕ) → count_if (has_id i) st.rows ≤ 1
  pub older : All (Older st.next_id) st.rows
  pub sent_told :
      (c : Channel) → count_if (is_sent_on c) st.events ≡ count_if (has_sent_on c) st.rows
  pub told_failed :
      (i : ℕ) → count_if (is_failed_of i) st.events ≤ count_if (has_failed_as i) st.rows
  pub failed_told :
      (i : ℕ) → count_if (has_failed_message_as i) st.rows ≤ count_if (is_failed_of i) st.events
  pub budget : All WithinBudget st.rows

-- What no operation changes of a row
pub record Identity : Type 0 where
  pub id : ℕ
  pub type : NotificationType
  pub channel : Channel
  pub recipient_id : Option ℕ
  pub payload : Payload

abbrev pub identity_of : Row → Identity
identity_of r = record {
  id = r.id;
  type = r.type;
  channel = r.channel;
  recipient_id = r.recipient_id;
  payload = r.payload;
}

abbrev pub Keeps : (Row → Row) → Type 0
Keeps f = (x : Row) → identity_of (f x) ≡ identity_of x

abbrev as_named : Message → Identity → Bool
as_named m i =
    is_alert i.type
    && same_channel i.channel m.channel
    && same_id i.recipient_id m.recipient_id
    && same_word i.payload.alert_id m.payload.alert_id
    && str_eq (stored_event i.payload) (given_event m.payload)

pub same_alert-Keeps :
    (f : Row → Row) (m : Message) (x : Row) → Keeps f → same_alert m (f x) ≡ same_alert m x
same_alert-Keeps f m x keeps = ap (as_named m) (keeps x)

pub record Step (a b : State) : Type 0 where
  pub sound : Sound a → Sound b
  pub frozen :
      (id : ℕ) {r : Row}
      → find id a.rows ≡ some r
      → is_open r.status ≡ false
      → find id b.rows ≡ some r
  pub alerts : (m : Message) → count_if (same_alert m) a.rows ≤ count_if (same_alert m) b.rows

pub Step-refl : (a : State) → Step a a
Step-refl a = record { sound = λ s. s; frozen = λ id h q. h; alerts = λ m. omega arith }

pub Step-trans : {a b c : State} → Step a b → Step b c → Step a c
Step-trans s t = record {
  sound = λ h. t.sound (s.sound h);
  frozen = λ id h q. t.frozen id (s.frozen id h q) q;
  alerts = λ m. omega (arith, s.alerts m, t.alerts m);
}

-- A call of the inbox says `sent` or `failed` once, and changes no row.
pub record Tells (done : Bool) (r : Row) (a b : State) : Type 0 where
  pub same_rows : b.rows ≡ a.rows
  pub same_next : b.next_id ≡ a.next_id
  pub tells_sent :
      (c : Channel)
      → count_if (is_sent_on c) b.events
        ≡ (if done && same_channel r.channel c then 1 else 0) + count_if (is_sent_on c) a.events
  pub tells_failed :
      (i : ℕ)
      → count_if (is_failed_of i) b.events
        ≡ (if not done && r.id == i then 1 else 0) + count_if (is_failed_of i) a.events

sent_counts : (r : Row) (st : State) → Tells true r st (tell_sent r st)
unfolding tell_sent
sent_counts r st = record {
  same_rows = ground arith;
  same_next = ground arith;
  tells_sent = λ c. ground arith;
  tells_failed = λ i. ground arith;
}

failed_counts : (r : Row) (st : State) → Tells false r st (tell_failed r st)
unfolding tell_failed
failed_counts r st = record {
  same_rows = ground arith;
  same_next = ground arith;
  tells_sent = λ c. ground arith;
  tells_failed = λ i. ground arith;
}

record_delivery_counts :
    (done : Bool) (id : ℕ) (st : State) {r : Row}
    → find id st.rows ≡ some r
    → Tells done r st (record_delivery done id st)
unfolding record_delivery
record_delivery_counts true id st {r} h = rw (record_delivery, h) (sent_counts r st)
record_delivery_counts false id st {r} h = rw (record_delivery, h) (failed_counts r st)

pub frozen-modify :
    (i : ℕ) (f : Row → Row) (rows : List Row) {x : Row}
    → ((y : Row) → (f y).id ≡ y.id)
    → find i rows ≡ some x
    → is_open x.status ≡ true
    → (j : ℕ) {r : Row} → find j rows ≡ some r
    → is_open r.status ≡ false
    → find j (modify i f rows) ≡ some r
frozen-modify i f rows {x} keeps h o j {r} q c = elim (Bool-cases (i == j)) [
  | inl e ↦
      let same = (==_iff i j).0 e in
      let found : find j rows ≡ some x = subst (λ k. find k rows ≡ some x) same h in
      absurd (ground arith)
  | inr e ↦ rw (find-modify i j f rows keeps, e, q) refl
]

pub id-Keeps : (f : Row → Row) → Keeps f → (x : Row) → (f x).id ≡ x.id
id-Keeps f keeps x = ap (λ i. i.id) (keeps x)

pub settle_counts :
    (done : Bool) (id : ℕ) (f : Row → Row) (st : State) {r : Row}
    → Keeps f
    → find id st.rows ≡ some r
    → Tells done (f r) (record st { rows = modify id f st.rows }) (settle done id f st)
unfolding settle
settle_counts done id f st {r} keeps h =
    record_delivery_counts done id (record st { rows = modify id f st.rows }) {r = f r}
      (rw (find-modify id id f st.rows (id-Keeps f keeps), h) (ground arith))

-- A state with the same rows and events.
pub side-Step :
    (a b : State) → b.rows ≡ a.rows → b.next_id ≡ a.next_id → b.events ≡ a.events → Step a b
side-Step a b h n e = record {
  sound = λ s. record {
    unique = λ i. rw h (s.unique i);
    older = rw (h, n) s.older;
    sent_told = λ c. rw (h, e) (s.sent_told c);
    told_failed = λ i. rw (h, e) (s.told_failed i);
    failed_told = λ i. rw (h, e) (s.failed_told i);
    budget = rw h s.budget;
  };
  frozen = λ j q c. rw h q;
  alerts = λ m. rw h (omega arith);
}
