-- ===== src/Spooler/Claim/Recovery.antt =====
-- The claim and its crash recovery keep the ledger of the notification queue
-- (app/services/notifications/spooler.py).
use justup.Prelude.{
  ℕ, ◌+◌, ◌≡◌, refl, true, false, List, [], ◌∷◌, ltb, arith, Bool-cases, Option-cases, inl, inr,
  ltb_false→le,
}
use justup.DeliveryPolicy.{max_retries}
use justup.Spooler.{Row, State, is_open, find, expire_stale, finalize_retried_tests, blocked_keys}
use justup.Spooler.Ledger.{Step, Step-refl, Step-trans}
use justup.Spooler.Ledger.Settle.{settle-Step, touch-Step}
use justup.Spooler.Cleanup.{expire_stale-Step, finalize_retried_tests-Step}
use justup.Spooler.Claim.{
  is_ready, is_stuck, claim_one, claim_all, get_pending_items, candidates, claimed, recovered,
  given_up,
}

stuck-is_open : (now : ℕ) (r : Row) → is_stuck now r ≡ true → is_open r.status ≡ true
stuck-is_open now r h = ground arith

ready-is_open : (now : ℕ) (r : Row) → is_ready now r ≡ true → is_open r.status ≡ true
ready-is_open now r h = ground arith

claim_one-Step : (now id : ℕ) (st : State) → Step st (claim_one now id st).1
unfolding claim_one
claim_one-Step now id st = elim (Option-cases (find id st.rows)) [
  | inl e ↦ rw (claim_one, e) (Step-refl st)
  | inr (x, e) ↦ elim (Bool-cases (is_stuck now x)) [
    | inl s ↦ elim (Bool-cases (ltb max_retries (x.limited_attempts + 1))) [
      | inl b ↦
          rw (claim_one, e, s, b)
            (settle-Step (given_up now) (λ y. refl) false id st e (stuck-is_open now x s) refl)
      | inr b ↦
          rw (claim_one, e, s, b)
            (touch-Step (λ y. claimed now (recovered y)) (λ y. refl) id st e (stuck-is_open now x s)
              refl (λ q. ltb_false→le max_retries (x.limited_attempts + 1) b))
    ]
    | inr s ↦ elim (Bool-cases (is_ready now x)) [
      | inl d ↦
          rw (claim_one, e, s, d)
            (touch-Step (claimed now) (λ y. refl) id st e (ready-is_open now x d) refl (λ q. q))
      | inr d ↦ rw (claim_one, e, s, d) (Step-refl st)
    ]
  ]
]

claim_all-Step : (now : ℕ) (rows : List Row) (st : State) → Step st (claim_all now rows st).1
unfolding claim_all
claim_all-Step now [] st = Step-refl st
claim_all-Step now (r ∷ rows) st =
    Step-trans (claim_one-Step now r.id st) (claim_all-Step now rows (claim_one now r.id st).1)

pub get_pending_items-Step :
    (limit now : ℕ) (st : State) → Step st (get_pending_items limit now st).1
unfolding get_pending_items
get_pending_items-Step limit now st =
    let clean = finalize_retried_tests now st in
    let ready = (expire_stale now clean).1 in
    Step-trans (finalize_retried_tests-Step now st) (
      Step-trans (expire_stale-Step now clean) (
        claim_all-Step now (candidates limit now (blocked_keys now ready.channels) ready.rows)
          ready))
