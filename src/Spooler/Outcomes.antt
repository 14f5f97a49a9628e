-- ===== src/Spooler/Outcomes.antt =====
-- Each outcome that is written to the notification queue keeps the ledger
-- (app/services/notifications/spooler.py).
use mathlib.Core.Option.{some-injective}
use justup.Prelude.{
  subst, ◌∙◌, not, ℕ, ◌+◌, ◌≡◌, refl, Bool, true, false, Option, none, some, List, arith, ltb, leb,
  if◌then◌else◌, Bool-cases, Option-cases, inl, inr, ◌&&◌, ◌==◌, ltb_false→le,
}
use justup.DeliveryPolicy.{max_retries}
use justup.Spooler.{
  Row, State, QueueStatus, pending, sent, is_open, is_processing, find, open_row, mark_sent,
  renew_lease, release, mark_retry, retry_counted, counted, is_expired, mark_failed_permanent,
}
use justup.Spooler.Ledger.{Step, Step-refl}
use justup.Spooler.Ledger.Settle.{settle-Step, touch-Step}

pub open_row-found :
    (id : ℕ) (rows : List Row) {r : Row}
    → open_row id rows ≡ some r
    → (find id rows ≡ some r) × (is_open r.status ≡ true)
unfolding open_row
open_row-found id rows {r} h = elim (Option-cases (find id rows)) [
  | inl e ↦ let n : none ≡ some r = rw (open_row, e) at h in absurd (ground arith)
  | inr (x, e) ↦ elim (Bool-cases (is_open x.status)) [
    | inl o ↦
        let q : some x ≡ some r = rw (open_row, e, o) at h in
        (e ∙ q, subst (λ y. is_open y.status ≡ true) (some-injective x r q) o)
    | inr c ↦ let q : none ≡ some r = rw (open_row, e, c) at h in absurd (ground arith)
  ]
]

pub mark_sent-Step : (now id : ℕ) (st : State) → Step st (mark_sent now id st)
unfolding mark_sent
mark_sent-Step now id st = elim (Option-cases (open_row id st.rows)) [
  | inl e ↦ rw (mark_sent, e) (Step-refl st)
  | inr (r, e) ↦
      let found = open_row-found id st.rows e in
      rw (mark_sent, e)
        (settle-Step (λ x. record x { status = sent; updated_at = now }) (λ x. refl) true id st
          found.0 found.1 refl)
]

pub mark_failed_permanent-Step :
    (now id : ℕ) (error : List ℕ) (st : State) → Step st (mark_failed_permanent now id error st)
unfolding mark_failed_permanent
mark_failed_permanent-Step now id error st = elim (Option-cases (open_row id st.rows)) [
  | inl e ↦ rw (mark_failed_permanent, e) (Step-refl st)
  | inr (r, e) ↦
      let found = open_row-found id st.rows e in
      rw (mark_failed_permanent, e) (settle-Step _ (λ x. refl) false id st found.0 found.1 refl)
]

is_processing-is_open : (s : QueueStatus) → is_processing s ≡ true → is_open s ≡ true
is_processing-is_open s h = ground arith

pub release-Step : (now id : ℕ) (st : State) → Step st (release now id st).1
unfolding release
release-Step now id st = elim (Option-cases (find id st.rows)) [
  | inl e ↦ rw (release, e) (Step-refl st)
  | inr (r, e) ↦ elim (Bool-cases (is_processing r.status)) [
    | inl p ↦
        rw (release, e, p)
          (touch-Step (λ x. record x { status = pending; updated_at = now }) (λ x. refl) id st e
            (is_processing-is_open r.status p) refl (λ b. b))
    | inr n ↦ rw (release, e, n) (Step-refl st)
  ]
]

pub renew_lease-Step :
    (now id held_stamp : ℕ) (st : State) → Step st (renew_lease now id held_stamp st).1
unfolding renew_lease
renew_lease-Step now id held_stamp st = elim (Option-cases (find id st.rows)) [
  | inl e ↦ rw (renew_lease, e) (Step-refl st)
  | inr (r, e) ↦ elim (Bool-cases (is_processing r.status && r.updated_at == held_stamp)) [
    | inl p ↦
        let o = is_processing-is_open r.status (ground (arith, p)) in
        rw (renew_lease, e, p)
          (touch-Step (λ x. record x { updated_at = now }) (λ x. refl) id st e o o (λ b. b))
    | inr n ↦ rw (renew_lease, e, n) (Step-refl st)
  ]
]

retry_counted-Step :
    (now drawn id : ℕ) (error : List ℕ) (delay : Option ℕ) (passing : Bool) (r : Row) (st : State)
    → find id st.rows ≡ some r
    → is_open r.status ≡ true
    → Step st (retry_counted now drawn id error delay passing (counted passing r) st).1
unfolding retry_counted
retry_counted-Step now drawn id error delay passing r st h o =
    elim (Bool-cases (is_expired now r)) [
      | inl e ↦ rw (retry_counted, e) (settle-Step _ (λ x. refl) false id st h o refl)
      | inr e ↦ elim (Bool-cases (ltb max_retries (counted passing r).limited_attempts)) [
        | inl q ↦ rw (retry_counted, e, q) (settle-Step _ (λ x. refl) false id st h o refl)
        | inr q ↦
            rw (retry_counted, e, q)
              (touch-Step _ (λ x. refl) id st h o refl
                (λ b. ltb_false→le max_retries (counted passing r).limited_attempts q))
      ]
    ]

pub mark_retry-Step :
    (now drawn id : ℕ) (error : List ℕ) (delay : Option ℕ) (uncertain passing : Bool) (st : State)
    → Step st (mark_retry now drawn id error delay uncertain passing st).1
unfolding mark_retry
mark_retry-Step now drawn id error delay uncertain passing st =
    elim (Option-cases (open_row id st.rows)) [
      | inl e ↦ rw (mark_retry, e) (Step-refl st)
      | inr (r, e) ↦
          let found = open_row-found id st.rows e in
          rw (mark_retry, e) (retry_counted-Step now drawn id _ delay passing r st found.0 found.1)
    ]

-- What `mark_retry` promises of the row that it finds open.
abbrev pub may_retry : ℕ → Bool → Option Row → Bool
may_retry now passing none = false
may_retry now passing (some r) =
    not (is_expired now r) && leb (r.limited_attempts + (if passing then 0 else 1)) max_retries

-- `mark_retry` answers yes exactly for an open message within its 24 hours that has not spent its
-- budget with this attempt; a passing failure spends nothing of it. Whatever was queued under the id,
-- whatever the delay and the error.
pub mark_retry_answer :
    (now drawn id : ℕ) (error : List ℕ) (delay : Option ℕ) (uncertain passing : Bool) (st : State)
    → (mark_retry now drawn id error delay uncertain passing st).0
      ≡ may_retry now passing (open_row id st.rows)
unfolding mark_retry retry_counted
mark_retry_answer now drawn id error delay uncertain passing st =
    elim (Option-cases (open_row id st.rows)) [
      | inl e ↦ rw (mark_retry, e) refl
      | inr (r, e) ↦ rw (mark_retry, e) (ground arith)
    ]
