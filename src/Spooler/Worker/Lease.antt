-- ===== src/Spooler/Worker/Lease.antt =====
-- The worker sends an item only under its claim (app/services/notifications/spooler.py).
use justup.Prelude.{
  ℕ, ◌≡◌, refl, ◌∙◌, true, ◌&&◌, ◌==◌, none, some, List, arith, Bool-cases, Option-cases, inl, inr,
}
use justup.Spooler.{Row, State, find, is_processing, renew_lease, record_attempt, pacing_wait}
use justup.Spooler.Rows.{find-modify}
use justup.Spooler.Claim.Exclusive.{Held}
use justup.Spooler.Send.{DeliveryResult, item_key}
use justup.Spooler.Worker.{
  Entry, has_entered, Reservation, go, lost, take_lease, reserve_send, Turn, is_cooled, attempt,
  attempt_of, without,
}

-- The row stood in processing under the stamp that the worker has, and stands there under the stamp
-- `now`.
abbrev pub Leased : ℕ → Row → State → State → Type 0
Leased now r before after = Held r.updated_at r.id before.rows × Held now r.id after.rows

renew_lease-Held :
    (now id stamp : ℕ) (st : State) {new : ℕ}
    → (renew_lease now id stamp st).0 ≡ some new
    → Held stamp id st.rows × Held now id (renew_lease now id stamp st).1.rows
unfolding renew_lease
renew_lease-Held now id stamp st {new} got = elim (Option-cases (find id st.rows)) [
  | inl e ↦ let q : none ≡ some new = rw (renew_lease, e) at got in absurd (ground arith)
  | inr (x, e) ↦ elim (Bool-cases (is_processing x.status && x.updated_at == stamp)) [
    | inl p ↦
        let f : Row → Row = λ y. record y { updated_at = now } in
        rw (renew_lease, e, p)
          (
            (x, refl, p),
            (f x, find-modify id id f st.rows (λ y. refl) ∙ rw e (ground arith), ground (arith, p)),
          )
    | inr p ↦ let q : none ≡ some new = rw (renew_lease, e, p) at got in absurd (ground arith)
  ]
]

take_lease-Held :
    (now : ℕ) (r : Row) (st : State)
    → (take_lease now r st).0 ≡ go
    → Leased now r st (take_lease now r st).1
unfolding take_lease record_attempt
take_lease-Held now r st goes = elim (Option-cases (renew_lease now r.id r.updated_at st).0) [
  | inl e ↦ let q : lost ≡ go = rw (take_lease, e) at goes in absurd (ground arith)
  | inr (stamp, e) ↦ rw (take_lease, e) (renew_lease-Held now r.id r.updated_at st e)
]

reserve_send-Held :
    (first later : Entry) (asked now : ℕ) (r : Row) (st : State)
    → (reserve_send first later asked now r st).0 ≡ go
    → Leased now r st (reserve_send first later asked now r st).1
unfolding reserve_send
reserve_send-Held first later asked now r st goes = elim (Bool-cases (has_entered first)) [
  | inr e ↦ absurd (ground (arith, rw (reserve_send, e) at goes))
  | inl e ↦ elim (Option-cases (pacing_wait asked (item_key r) st)) [
    | inl p ↦ absurd (ground (arith, rw (reserve_send, e, p) at goes))
    | inr (wait, p) ↦ elim (Bool-cases (has_entered later)) [
      | inl q ↦
          rw (reserve_send, e, p, q) (take_lease-Held now r st (rw (reserve_send, e, p, q) at goes))
      | inr q ↦ absurd (ground (arith, rw (reserve_send, e, p, q) at goes))
    ]
  ]
]

goes-ahead :
    (answer : DeliveryResult) (reservation : Reservation) {result : DeliveryResult}
    → attempt_of answer reservation ≡ some (true, result)
    → reservation ≡ go
goes-ahead answer go h = refl
goes-ahead answer lost h = absurd (ground arith)
goes-ahead answer (without result) h = absurd (ground arith)

-- An item is sent only while the worker holds its claim: when the decision is to send, the row of the
-- item stood in processing under the very stamp that the worker has claimed it with, so that no
-- other worker has claimed it since, and it stands in processing under the stamp of that moment.
pub sent_under_lease :
    (cooled : List (List ℕ)) (t : Turn) (r : Row) (st : State) {answer : DeliveryResult}
    → (attempt cooled t r st).0 ≡ some (true, answer)
    → Leased t.now r st (attempt cooled t r st).1
unfolding attempt
sent_under_lease cooled t r st {answer} sends = elim (Bool-cases (is_cooled (item_key r) cooled)) [
  | inl e ↦ absurd (ground (arith, rw (attempt, e) at sends))
  | inr e ↦ elim (Bool-cases t.may_send) [
    | inl q ↦
        let reserved = reserve_send t.first t.later t.asked t.now r st in
        let chosen : attempt_of t.answer reserved.0 ≡ some (true, answer) =
          rw (attempt, e, q) at sends in
        rw (attempt, e, q)
          (reserve_send-Held t.first t.later t.asked t.now r st
            (goes-ahead t.answer reserved.0 chosen))
    | inr q ↦ absurd (ground (arith, rw (attempt, e, q) at sends))
  ]
]
