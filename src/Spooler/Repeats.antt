-- ===== src/Spooler/Repeats.antt =====
-- An alert that is queued again, after anything the queue did in between
-- (app/services/notifications/spooler.py, `enqueue`).
use justup.Prelude.{
  ℕ, ◌≤◌, ◌≡◌, refl, sym, ap, ◌∙◌, String, Bool, none, some, List, [], ◌∷◌, count_if, arith,
  Bool-cases, Option-cases, inl, inr,
}
use justup.Spooler.{
  Row, State, alert, Message, stored_event, given_event, same_alert, if_named, latest_id, insert,
  known_alert, enqueue,
}
use justup.Spooler.Admission.{enqueue_known, enqueue_fresh, known_alert-insert}
use justup.Spooler.Lifecycle.{Op, run, run-Step}

latest_id-count :
    (p : Row → Bool) (rows : List Row) {id : ℕ} → latest_id p rows ≡ some id → 1 ≤ count_if p rows
unfolding latest_id
latest_id-count p [] h = absurd (ground arith)
latest_id-count p (r ∷ rows) {id} h = elim (Option-cases (latest_id p rows)) [
  | inr (found, e) ↦ ground (arith, latest_id-count p rows e)
  | inl e ↦ elim (Bool-cases (p r)) [
    | inl q ↦ rw q (omega arith)
    | inr q ↦ let nothing : none ≡ some id = rw (e, q) at h in absurd (ground arith)
  ]
]

count-latest_id :
    (p : Row → Bool) (rows : List Row)
    → 1 ≤ count_if p rows
    → (id : ℕ) × (latest_id p rows ≡ some id)
unfolding latest_id
count-latest_id p [] h = absurd (omega arith)
count-latest_id p (r ∷ rows) h = elim (Option-cases (latest_id p rows)) [
  | inr (found, e) ↦ (found, rw e refl)
  | inl e ↦ elim (Bool-cases (p r)) [
    | inl q ↦ (r.id, rw (e, q) refl)
    | inr q ↦
        let (found, f) = count-latest_id p rows (ground (arith, h, q)) in
        absurd (ground (arith, e, f))
  ]
]

known_alert-latest_id :
    (m : Message) (st : State) {id : String}
    → m.type ≡ alert
    → m.payload.alert_id ≡ some id
    → known_alert m st ≡ latest_id (same_alert m) st.rows
unfolding known_alert
known_alert-latest_id m st {id} is_an names =
    let found = latest_id (same_alert m) st.rows in
    ap (λ o. if_named o m.type found) names ∙ ap (λ t. if_named (some id) t found) is_an

-- What is known stays known.
run-known_alert :
    (ops : List Op) (m : Message) (st : State) {id : String} {known : ℕ}
    → m.type ≡ alert
    → m.payload.alert_id ≡ some id
    → known_alert m st ≡ some known
    → (found : ℕ) × (known_alert m (run ops st) ≡ some found)
run-known_alert ops m st is_an names h =
    let before =
      latest_id-count (same_alert m) st.rows (sym (known_alert-latest_id m st is_an names) ∙ h) in
    let (found, e) =
      count-latest_id (same_alert m) (run ops st).rows
        (omega (arith, before, (run-Step ops st).alerts m)) in
    (found, known_alert-latest_id m (run ops st) is_an names ∙ e)

-- An alert event is queued once per recipient and channel: whatever operations of `Op` follow, also
-- those that send the message or give it up, when `enqueue` is called again with the same message,
-- at whatever time, it returns an id and changes nothing. The message is an alert with an alert id
-- and a recipient, and its event is absent or not empty. `Op` has no deletion of rows from the log.
pub enqueue_alert_once :
    (now later drawn again : ℕ) (m : Message) (ops : List Op) (st : State) {recipient : ℕ}
    {id : String}
    → m.type ≡ alert
    → m.recipient_id ≡ some recipient
    → m.payload.alert_id ≡ some id
    → stored_event m.payload ≡ given_event m.payload
    → (found : ℕ) × (enqueue later again m (run ops (enqueue now drawn m st).1)
        ≡ (some found, run ops (enqueue now drawn m st).1))
enqueue_alert_once now later drawn again m ops st is_an to names event =
    elim (Option-cases (known_alert m st)) [
      | inr (known, e) ↦
          let (found, f) = run-known_alert ops m st is_an names e in
          rw (enqueue_known now drawn m st e) (found, enqueue_known later again m (run ops st) f)
      | inl e ↦
          let next = (insert now drawn m st).1 in
          let (found, f) =
            run-known_alert ops m next is_an names
              (known_alert-insert m is_an to names event now drawn st) in
          rw (enqueue_fresh now drawn m st e is_an)
            (found, enqueue_known later again m (run ops next) f)
    ]
