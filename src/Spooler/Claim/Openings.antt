-- ===== src/Spooler/Claim/Openings.antt =====
-- Which rows a claim may take, apart from the query (app/services/notifications/spooler.py).
use justup.Prelude.{
  ℕ, ◌+◌, ◌*◌, ◌≤◌, ◌<◌, ◌≡◌, ◌≢◌, ◌⊎◌, refl, subst, String, Bool, true, false, Option, none, some,
  List, [], ◌∷◌, ltb, lt→ltb, ==_iff, ap, sym, ◌&&◌, str_eq, eq_iff, arith, All, All-map,
  Bool-cases, inl, inr,
}
use justup.Text.{same_text, same_text_refl, same_text-eq}
use justup.DeliveryPolicy.{Channel, email, signal}
use justup.Spooler.{
  Row, QueueStatus, NotificationType, pending, processing, sent, failed, is_open, alert, welcome,
  test, is_alert, stored_event, same_channel, same_word,
}
use justup.Spooler.Admission.{same_channel_refl}
use justup.Spooler.Claim.{
  is_candidate, is_due, is_ready, is_held, is_same_id, some_row, holds_back, member_text, sql_key,
}

some_row-none :
    (p : Row → Bool) (rows : List Row) → some_row p rows ≡ false → All (λ r. p r ≡ false) rows
unfolding some_row
some_row-none p [] h = tt
some_row-none p (r ∷ rows) h = (ground (arith, h), some_row-none p rows (ground (arith, h)))

member_text-other :
    (key : List ℕ) (keys : List (List ℕ)) → member_text key keys ≡ false → All (λ k. k ≢ key) keys
unfolding member_text
member_text-other key [] h = tt
member_text-other key (k ∷ keys) h = (
  λ same.
      let equal : same_text k key ≡ true =
        subst (λ t. same_text k t ≡ true) same (same_text_refl k) in
      absurd (ground (arith, h, equal)),
  member_text-other key keys (ground (arith, h)),
)

-- `o` says of an alert that it has begun, `q` is about the same alert on the same way, and `o` is
-- older and neither sent nor given up.
pub record IsOpening (q o : Row) : Type 0 where
  pub older : o.id < q.id
  pub unsent : (o.status ≡ pending) ⊎ (o.status ≡ processing)
  pub an_alert : o.type ≡ alert
  pub same_way : o.channel ≡ q.channel
  pub same_recipient : o.recipient_id ≡ q.recipient_id
  pub alert_id : String
  pub first_alert : o.payload.alert_id ≡ some alert_id
  pub second_alert : q.payload.alert_id ≡ some alert_id
  pub begins : stored_event o.payload ≡ "open"

is_same_id_refl : (i : Option ℕ) → is_same_id i i ≡ true
is_same_id_refl none = refl
is_same_id_refl (some n) = ground arith

unsent-is_open : (s : QueueStatus) → (s ≡ pending) ⊎ (s ≡ processing) → is_open s ≡ true
unsent-is_open s (inl e) = rw e refl
unsent-is_open s (inr e) = rw e refl

IsOpening-holds_back : (q o : Row) → IsOpening q o → holds_back q o ≡ true
IsOpening-holds_back q o h =
    let older : ltb o.id q.id ≡ true = lt→ltb o.id q.id h.older in
    let word : str_eq h.alert_id h.alert_id ≡ true = (eq_iff h.alert_id h.alert_id).1 refl in
    rw
      (
        older,
        unsent-is_open o.status h.unsent,
        h.an_alert,
        h.same_way,
        same_channel_refl q.channel,
        h.same_recipient,
        is_same_id_refl q.recipient_id,
        h.first_alert,
        h.second_alert,
        word,
        (eq_iff (stored_event o.payload) "open").1 h.begins,
      )
      refl

-- A row that a claim may take: `keys` are the blocked paths, `rows` the queue.
pub record IsAllowed (now : ℕ) (keys : List (List ℕ)) (rows : List Row) (r : Row) : Type 0 where
  pub due :
      ((r.status ≡ pending) × (r.next_retry_at ≤ now))
      ⊎ ((r.status ≡ processing) × (r.updated_at + 600 * 1000000 < now))
  pub unblocked : All (λ k. k ≢ sql_key r) keys
  pub in_order :
      r.type ≡ alert → stored_event r.payload ≡ "resolved" → All (λ o. ¬ IsOpening r o) rows

due_cases :
    (now : ℕ) (r : Row)
    → is_due now r ≡ true
    → ((r.status ≡ pending) × (r.next_retry_at ≤ now))
      ⊎ ((r.status ≡ processing) × (r.updated_at + 600 * 1000000 < now))
due_cases now r h = elim (Bool-cases (is_ready now r)) [
  | inl ready ↦ inl (ground (arith, ready), ground (arith, ready))
  | inr late ↦ inr (ground (arith, h, late), ground (arith, h, late))
]

pub candidate-IsAllowed :
    (now : ℕ) (keys : List (List ℕ)) (rows : List Row) (r : Row)
    → is_candidate now keys rows r ≡ true
    → IsAllowed now keys rows r
unfolding is_candidate is_held
candidate-IsAllowed now keys rows r h = record {
  due = due_cases now r (ground (arith, h));
  unblocked = member_text-other (sql_key r) keys (ground (arith, h));
  in_order = λ an_alert resolved.
      let kind : is_alert r.type ≡ true = rw an_alert refl in
      let event : str_eq (stored_event r.payload) "resolved" ≡ true =
        (eq_iff (stored_event r.payload) "resolved").1 resolved in
      let free : some_row (holds_back r) rows ≡ false = ground (arith, h, kind, event) in
      All-map (λ o back opening. absurd (ground (arith, back, IsOpening-holds_back r o opening)))
        rows (some_row-none (holds_back r) rows free);
}

is_alert_eq : (t : NotificationType) → is_alert t ≡ true → t ≡ alert
is_alert_eq alert h = refl
is_alert_eq welcome h = absurd (ground arith)
is_alert_eq test h = absurd (ground arith)

same_channel_eq : (a b : Channel) → same_channel a b ≡ true → a ≡ b
same_channel_eq email email h = refl
same_channel_eq signal signal h = refl
same_channel_eq email signal h = absurd (ground arith)
same_channel_eq signal email h = absurd (ground arith)

is_same_id_eq : (a b : Option ℕ) → is_same_id a b ≡ true → a ≡ b
is_same_id_eq none none h = refl
is_same_id_eq (some a) (some b) h = ap some ((==_iff a b).0 h)
is_same_id_eq none (some b) h = absurd (ground arith)
is_same_id_eq (some a) none h = absurd (ground arith)

same_word_eq :
    (a b : Option String) → same_word a b ≡ true → (w : String) × (a ≡ some w) × (b ≡ some w)
same_word_eq (some a) (some b) h = (a, refl, ap some (sym ((eq_iff a b).0 h)))
same_word_eq none b h = absurd (ground arith)
same_word_eq (some a) none h = absurd (ground arith)

open_unsent : (s : QueueStatus) → is_open s ≡ true → (s ≡ pending) ⊎ (s ≡ processing)
open_unsent pending h = inl refl
open_unsent processing h = inr refl
open_unsent sent h = absurd (ground arith)
open_unsent failed h = absurd (ground arith)

both : (a b : Bool) → (a && b) ≡ true → (a ≡ true) × (b ≡ true)
both true b h = (refl, h)
both false b h = absurd (ground arith)

holds_back-IsOpening : (q o : Row) → holds_back q o ≡ true → IsOpening q o
holds_back-IsOpening q o h =
    let begun = str_eq (stored_event o.payload) "open" in
    let worded = same_word o.payload.alert_id q.payload.alert_id in
    let directed = is_same_id o.recipient_id q.recipient_id in
    let routed = same_channel o.channel q.channel in
    let waiting = ltb o.id q.id && is_open o.status in
    let known = waiting && is_alert o.type in
    let (h1, begins) = both (known && routed && directed && worded) begun h in
    let (h2, named) = both (known && routed && directed) worded h1 in
    let (h3, recipient) = both (known && routed) directed h2 in
    let (h4, way) = both known routed h3 in
    let (h5, an_alert) = both waiting (is_alert o.type) h4 in
    let (older, unsent) = both (ltb o.id q.id) (is_open o.status) h5 in
    let (word, first, second) = same_word_eq o.payload.alert_id q.payload.alert_id named in
    record {
      older = ground (arith, older);
      unsent = open_unsent o.status unsent;
      an_alert = is_alert_eq o.type an_alert;
      same_way = same_channel_eq o.channel q.channel way;
      same_recipient = is_same_id_eq o.recipient_id q.recipient_id recipient;
      alert_id = word;
      first_alert = first;
      second_alert = second;
      begins = (eq_iff (stored_event o.payload) "open").0 begins;
    }

some_row-false :
    (p : Row → Bool) (rows : List Row) → All (λ r. p r ≡ false) rows → some_row p rows ≡ false
unfolding some_row
some_row-false p [] h = refl
some_row-false p (r ∷ rows) h = ground (arith, h.0, some_row-false p rows h.1)

member_text-false :
    (key : List ℕ) (keys : List (List ℕ)) → All (λ k. k ≢ key) keys → member_text key keys ≡ false
unfolding member_text
member_text-false key [] h = refl
member_text-false key (k ∷ keys) h = elim (Bool-cases (same_text k key)) [
  | inl e ↦ absurd (h.0 (same_text-eq k key e))
  | inr e ↦ ground (arith, e, member_text-false key keys h.1)
]

due-is_due :
    (now : ℕ) (r : Row)
    → ((r.status ≡ pending) × (r.next_retry_at ≤ now))
      ⊎ ((r.status ≡ processing) × (r.updated_at + 600 * 1000000 < now))
    → is_due now r ≡ true
due-is_due now r (inl h) = rw (h.0) (ground (arith, h.1))
due-is_due now r (inr h) = rw (h.0) (ground (arith, h.1))

free-is_held :
    (keys : List (List ℕ)) (now : ℕ) (rows : List Row) (r : Row)
    → IsAllowed now keys rows r
    → is_held rows r ≡ false
unfolding is_held
free-is_held keys now rows r h = elim (Bool-cases (is_alert r.type)) [
  | inr e ↦ ground (arith, e)
  | inl e ↦ elim (Bool-cases (str_eq (stored_event r.payload) "resolved")) [
    | inr q ↦ ground (arith, q)
    | inl q ↦
        let none_held =
          h.in_order (is_alert_eq r.type e) ((eq_iff (stored_event r.payload) "resolved").0 q) in
        let free : some_row (holds_back r) rows ≡ false = some_row-false (holds_back r) rows (
          All-map
            (λ o clear. elim (Bool-cases (holds_back r o)) [
              | inl back ↦ absurd (clear (holds_back-IsOpening r o back))
              | inr back ↦ back
            ])
            rows none_held) in
        ground (arith, free)
  ]
]

pub allowed_is_candidate :
    (now : ℕ) (keys : List (List ℕ)) (rows : List Row) (r : Row)
    → IsAllowed now keys rows r
    → is_candidate now keys rows r ≡ true
unfolding is_candidate
allowed_is_candidate now keys rows r h =
    rw
      (
        due-is_due now r h.due,
        member_text-false (sql_key r) keys h.unblocked,
        free-is_held keys now rows r h,
      )
      refl
