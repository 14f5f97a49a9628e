-- ===== src/Spooler/Cleanup.antt =====
-- The clean-ups of the notification queue keep the ledger
-- (app/services/notifications/spooler.py).
use mathlib.Core.Option.{some-injective}
use justup.Prelude.{
  ℕ, ◌≤◌, ◌≡◌, refl, ap, ◌∙◌, Bool, true, false, some, List, [], ◌∷◌, arith, ltb, Bool-cases,
  Option-cases, inl, inr, ◌&&◌, ◌==◌, All, map, count_if, filter_if,
}
use justup.DeliveryPolicy.{Channel}
use justup.Spooler.{
  Row, State, QueueStatus, is_open, is_pending, is_test, find, expire_all, expire_one, stale_row,
  expire_stale, finalize_retried_tests, finalized_test, same_channel, same_alert,
}
use justup.Spooler.Ledger.{
  Step, Step-refl, Step-trans, WithinBudget, has_sent, has_failed, has_failed_message, has_id,
  has_sent_on, has_failed_as, has_failed_message_as, Older, identity_of, same_alert-Keeps,
}
use justup.Spooler.Ledger.Settle.{settle-Step}

is_pending-is_open : (s : QueueStatus) → is_pending s ≡ true → is_open s ≡ true
is_pending-is_open s h = ground arith

expire_one-Step : (now : ℕ) (r : Row) (st : State) → Step st (expire_one now r st)
unfolding expire_one
expire_one-Step now r st = elim (Option-cases (find r.id st.rows)) [
  | inl e ↦ rw (expire_one, e) (Step-refl st)
  | inr (x, e) ↦ elim (Bool-cases (is_pending x.status)) [
    | inl p ↦
        rw (expire_one, e, p)
          (settle-Step _ (λ y. refl) false r.id st e (is_pending-is_open x.status p) refl)
    | inr n ↦ rw (expire_one, e, n) (Step-refl st)
  ]
]

expire_all-Step : (now : ℕ) (rows : List Row) (st : State) → Step st (expire_all now rows st)
unfolding expire_all
expire_all-Step now [] st = Step-refl st
expire_all-Step now (r ∷ rows) st =
    Step-trans (expire_one-Step now r st) (expire_all-Step now rows (expire_one now r st))

pub expire_stale-Step : (now : ℕ) (st : State) → Step st (expire_stale now st).1
unfolding expire_stale
expire_stale-Step now st = expire_all-Step now (filter_if (stale_row now) st.rows) st

-- What `_finalize_retried_tests` does to one row.
record Finalizes (f : Row → Row) (r : Row) : Type 0 where
  identity_kept : identity_of (f r) ≡ identity_of r
  sent_kept : has_sent (f r) ≡ has_sent r
  failed_kept : has_failed r ≡ true → has_failed (f r) ≡ true
  messages_kept : has_failed_message (f r) ≡ has_failed_message r
  budget_kept : WithinBudget r → WithinBudget (f r)
  final_kept : is_open r.status ≡ false → f r ≡ r

finalized_test-Finalizes : (now : ℕ) (r : Row) → Finalizes (finalized_test now) r
unfolding finalized_test
finalized_test-Finalizes now r =
    elim (Bool-cases (is_test r.type && is_pending r.status && ltb 0 r.retry_count)) [
      | inl e ↦ record {
        identity_kept = rw (finalized_test, e) refl;
        sent_kept = rw (finalized_test, e) (ground (arith, e));
        failed_kept = λ q. rw (finalized_test, e) refl;
        messages_kept = rw (finalized_test, e) (ground (arith, e));
        budget_kept = λ w. rw (finalized_test, e) (λ q. absurd (ground arith));
        final_kept = λ q. absurd (ground (arith, e));
      }
      | inr e ↦ record {
        identity_kept = rw (finalized_test, e) refl;
        sent_kept = rw (finalized_test, e) refl;
        failed_kept = λ q. rw (finalized_test, e) q;
        messages_kept = rw (finalized_test, e) refl;
        budget_kept = λ w. rw (finalized_test, e) w;
        final_kept = λ q. rw (finalized_test, e) refl;
      }
    ]

module _ (f : Row → Row) (finalizes : (r : Row) → Finalizes f r) where
  id_kept : (r : Row) → (f r).id ≡ r.id
  id_kept r = ap (λ i. i.id) (finalizes r).identity_kept

  count_same-map :
      (p : Row → Bool) (rows : List Row)
      → ((r : Row) → p (f r) ≡ p r)
      → count_if p (map f rows) ≡ count_if p rows
  count_same-map p [] same = refl
  count_same-map p (r ∷ rows) same = rw (same r, count_same-map p rows same) refl

  count_more-map :
      (p : Row → Bool) (rows : List Row)
      → ((r : Row) → p r ≡ true → p (f r) ≡ true)
      → count_if p rows ≤ count_if p (map f rows)
  count_more-map p [] more = omega arith
  count_more-map p (r ∷ rows) more = ground (arith, more r, count_more-map p rows more)

  sent_on-kept : (c : Channel) (r : Row) → has_sent_on c (f r) ≡ has_sent_on c r
  sent_on-kept c r =
      ap (λ b. b && same_channel (f r).channel c) (finalizes r).sent_kept
      ∙ ap (λ i. has_sent r && same_channel i.channel c) (finalizes r).identity_kept

  message_as-kept : (i : ℕ) (r : Row) → has_failed_message_as i (f r) ≡ has_failed_message_as i r
  message_as-kept i r =
      ap (λ b. b && (f r).id == i) (finalizes r).messages_kept
      ∙ ap (λ k. has_failed_message r && k == i) (id_kept r)

  failed_as-kept : (i : ℕ) (r : Row) → has_failed_as i r ≡ true → has_failed_as i (f r) ≡ true
  failed_as-kept i r h =
      let failed_still = (finalizes r).failed_kept (ground (arith, h)) in
      rw (failed_still, id_kept r) (ground (arith, h))

  Older-map : (next : ℕ) (rows : List Row) → All (Older next) rows → All (Older next) (map f rows)
  Older-map next [] all = tt
  Older-map next (r ∷ rows) all = (rw (id_kept r) all.0, Older-map next rows all.1)

  budget-map : (rows : List Row) → All WithinBudget rows → All WithinBudget (map f rows)
  budget-map [] all = tt
  budget-map (r ∷ rows) all = ((finalizes r).budget_kept all.0, budget-map rows all.1)

  frozen-map :
      (i : ℕ) (rows : List Row) {r : Row}
      → find i rows ≡ some r
      → is_open r.status ≡ false
      → find i (map f rows) ≡ some r
  unfolding find
  frozen-map i [] h c = absurd (ground arith)
  frozen-map i (x ∷ rows) {r} h c = elim (Bool-cases (x.id == i)) [
    | inl e ↦
        let same : x ≡ r = some-injective x r (rw e at h) in
        let kept : f r ≡ r = (finalizes r).final_kept c in rw (id_kept x, e, same, kept) refl
    | inr e ↦ rw (id_kept x, e) (frozen-map i rows (rw e at h) c)
  ]

  map-Step : (st : State) → Step st (record st { rows = map f st.rows })
  map-Step st = record {
    sound = λ s. record {
      unique = λ i.
          rw (count_same-map (has_id i) st.rows (λ r. ap (λ k. k == i) (id_kept r))) (s.unique i);
      older = Older-map st.next_id st.rows s.older;
      sent_told = λ c. rw (count_same-map (has_sent_on c) st.rows (sent_on-kept c)) (s.sent_told c);
      told_failed = λ i.
          omega
            (arith, s.told_failed i, count_more-map (has_failed_as i) st.rows (failed_as-kept i));
      failed_told = λ i.
          rw (count_same-map (has_failed_message_as i) st.rows (message_as-kept i))
            (s.failed_told i);
      budget = budget-map st.rows s.budget;
    };
    frozen = λ i. frozen-map i st.rows;
    alerts = λ m.
        rw
          (count_same-map (same_alert m) st.rows
            (λ r. same_alert-Keeps f m r (λ x. (finalizes x).identity_kept)))
          (omega arith);
  }

pub finalize_retried_tests-Step : (now : ℕ) (st : State) → Step st (finalize_retried_tests now st)
unfolding finalize_retried_tests
finalize_retried_tests-Step now st = map-Step (finalized_test now) (finalized_test-Finalizes now) st
