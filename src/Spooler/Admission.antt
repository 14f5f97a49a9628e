-- ===== src/Spooler/Admission.antt =====
-- What `enqueue` adds to the notification queue (app/services/notifications/spooler.py).
use justup.Prelude.{
  ℕ, ◌+◌, ◌≡◌, refl, ap, subst, ◌∙◌, ==_iff, All, All-map, count_if, String, Bool, true, ◌&&◌, none,
  some, List, [], ◌∷◌, ◌++◌, ◌==◌, count_if-append, All-append, str_eq, eq_iff, arith, Bool-cases,
  Option-cases, inl, inr,
}
use justup.DeliveryPolicy.{Channel, email, signal}
use justup.Spooler.{
  Row, State, find, is_test, alert, Message, same_channel, stored_event, given_event, same_alert,
  if_named, over_limit, new_row, latest_id, insert, known_alert, enqueue_new, enqueue, same_test,
}
use justup.Spooler.Ledger.{
  Step, Step-refl, WithinBudget, Older, has_id, has_sent_on, has_failed_as, has_failed_message_as,
}

find-append :
    (j : ℕ) (rows more : List Row) {r : Row} → find j rows ≡ some r → find j (rows ++ more) ≡ some r
unfolding find
find-append j [] more h = absurd (ground arith)
find-append j (x ∷ rows) more {r} h = elim (Bool-cases (x.id == j)) [
  | inl e ↦ rw (e, rw e at h) refl
  | inr e ↦ rw e (find-append j rows more (rw e at h))
]

-- The id of a new row is on no row yet.
count_id-Older : (n : ℕ) (rows : List Row) → All (Older n) rows → count_if (has_id n) rows ≡ 0
count_id-Older n [] all = refl
count_id-Older n (r ∷ rows) all = ground (arith, all.0, count_id-Older n rows all.1)

insert-Step : (now drawn : ℕ) (m : Message) (st : State) → Step st (insert now drawn m st).1
unfolding insert
insert-Step now drawn m st =
    let r = new_row now drawn st.next_id m in
    record {
      sound = λ s. record {
        unique = λ i. elim (Bool-cases (st.next_id == i)) [
          | inl e ↦
              let none_yet : count_if (has_id i) st.rows ≡ 0 =
                subst (λ n. count_if (has_id n) st.rows ≡ 0) ((==_iff st.next_id i).0 e)
                  (count_id-Older st.next_id st.rows s.older) in
              ground (arith, none_yet, count_if-append (has_id i) st.rows (r ∷ []))
          | inr e ↦ ground (arith, e, s.unique i, count_if-append (has_id i) st.rows (r ∷ []))
        ];
        older =
            All-append (Older (st.next_id + 1)) st.rows (r ∷ [])
              (All-map (λ x o. omega (arith, o)) st.rows s.older) (omega arith, tt);
        sent_told =
            λ c. omega (arith, s.sent_told c, count_if-append (has_sent_on c) st.rows (r ∷ []));
        told_failed =
            λ i. omega (arith, s.told_failed i, count_if-append (has_failed_as i) st.rows (r ∷ []));
        failed_told = λ i.
            omega
              (arith, s.failed_told i, count_if-append (has_failed_message_as i) st.rows (r ∷ []));
        budget = All-append WithinBudget st.rows (r ∷ []) s.budget (λ q. omega arith, tt);
      };
      frozen = λ j q c. find-append j st.rows (r ∷ []) q;
      alerts = λ k. omega (arith, count_if-append (same_alert k) st.rows (r ∷ []));
    }

enqueue_new-Step :
    (now drawn : ℕ) (m : Message) (st : State) → Step st (enqueue_new now drawn m st).1
unfolding enqueue_new
enqueue_new-Step now drawn m st =
    elim (Bool-cases (same_channel m.channel signal && is_test m.type)) [
      | inr e ↦ rw (enqueue_new, e) (insert-Step now drawn m st)
      | inl e ↦ elim (Option-cases (latest_id (same_test m) st.rows)) [
        | inr (id, q) ↦ rw (enqueue_new, e, q) (Step-refl st)
        | inl q ↦ elim (Bool-cases (over_limit now m.address st.rows)) [
          | inl o ↦ rw (enqueue_new, e, q, o) (Step-refl st)
          | inr o ↦ rw (enqueue_new, e, q, o) (insert-Step now drawn m st)
        ]
      ]
    ]

pub enqueue-Step : (now drawn : ℕ) (m : Message) (st : State) → Step st (enqueue now drawn m st).1
unfolding enqueue
enqueue-Step now drawn m st = elim (Option-cases (known_alert m st)) [
  | inl e ↦ rw (enqueue, e) (enqueue_new-Step now drawn m st)
  | inr (id, e) ↦ rw (enqueue, e) (Step-refl st)
]

latest_id-last :
    (p : Row → Bool) (rows : List Row) (r : Row)
    → p r ≡ true
    → latest_id p (rows ++ r ∷ []) ≡ some r.id
unfolding latest_id
latest_id-last p [] r h = rw h refl
latest_id-last p (x ∷ rows) r h = rw (latest_id-last p rows r h) refl

pub enqueue_known :
    (now drawn : ℕ) (m : Message) (st : State) {id : ℕ}
    → known_alert m st ≡ some id
    → enqueue now drawn m st ≡ (some id, st)
unfolding enqueue
enqueue_known now drawn m st e = rw (enqueue, e) refl

pub enqueue_fresh :
    (now drawn : ℕ) (m : Message) (st : State)
    → known_alert m st ≡ none
    → m.type ≡ alert
    → enqueue now drawn m st ≡ insert now drawn m st
unfolding enqueue enqueue_new
enqueue_fresh now drawn m st e is_an = elim (Bool-cases (same_channel m.channel signal)) [
  | inl q ↦ rw (enqueue, e, enqueue_new, is_an, q) refl
  | inr q ↦ rw (enqueue, e, enqueue_new, is_an, q) refl
]

pub same_channel_refl : (c : Channel) → same_channel c c ≡ true
same_channel_refl email = refl
same_channel_refl signal = refl

module _ (m : Message) {recipient : ℕ} {id : String} (is_an : m.type ≡ alert)
    (to : m.recipient_id ≡ some recipient) (names : m.payload.alert_id ≡ some id)
    (event : stored_event m.payload ≡ given_event m.payload) where
  same_alert-new_row : (now drawn next : ℕ) → same_alert m (new_row now drawn next m) ≡ true
  same_alert-new_row now drawn next =
      let word : str_eq id id ≡ true = (eq_iff id id).1 refl in
      let phase : str_eq (stored_event m.payload) (given_event m.payload) ≡ true =
        (eq_iff (stored_event m.payload) (given_event m.payload)).1 event in
      rw (is_an, to, names, same_channel_refl m.channel) (ground (arith, word, phase))

  pub known_alert-insert :
      (now drawn : ℕ) (st : State) → known_alert m (insert now drawn m st).1 ≡ some st.next_id
  unfolding known_alert insert
  known_alert-insert now drawn st =
      let r = new_row now drawn st.next_id m in
      let found = latest_id (same_alert m) (st.rows ++ r ∷ []) in
      ap (λ o. if_named o m.type found) names
      ∙ ap (λ t. if_named (some id) t found) is_an
      ∙ latest_id-last (same_alert m) st.rows r (same_alert-new_row now drawn st.next_id)
