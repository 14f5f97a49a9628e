-- ===== src/Spooler/Claim/Exclusive.antt =====
-- A claim of the notification queue belongs to one worker until its lease ends
-- (app/services/notifications/spooler.py).
use mathlib.Core.Option.{some-injective}
use justup.Prelude.{
  ℕ, ◌+◌, ◌*◌, ◌≤◌, ◌≡◌, ◌≢◌, refl, sym, ap, subst, ◌∙◌, Bool, true, false, ◌&&◌, Option, none,
  some, List, [], ◌∷◌, ◌==◌, ==_iff, ltb, map, filter_if, take, arith, All, Bool-cases,
  Option-cases, inl, inr,
}
use justup.DeliveryPolicy.{max_retries}
use justup.Spooler.{
  second, Row, State, is_processing, is_pending, find, modify, settle, expire_one, expire_all,
  stale_row, expire_stale, finalize_retried_tests, finalized_test, blocked_keys, failed_with,
  expired_error,
}
use justup.Spooler.Rows.{find-modify}
use justup.Spooler.Ledger.{Keeps, settle_counts}
use justup.Spooler.Claim.{
  processing_timeout, is_due, is_ready, is_stuck, and_claimed, claim_one, claim_all,
  get_pending_items, candidates, given_up, claimed, recovered,
}

-- The row is claimed under this stamp.
abbrev pub is_held_at : ℕ → Row → Bool
is_held_at stamp r = is_processing r.status && r.updated_at == stamp

abbrev pub Held : ℕ → ℕ → List Row → Type 0
Held stamp id rows = (r : Row) × (find id rows ≡ some r) × (is_held_at stamp r ≡ true)

pub Held-modify :
    (stamp id j : ℕ) (f : Row → Row) (rows : List Row) {x : Row}
    → ((y : Row) → (f y).id ≡ y.id)
    → find j rows ≡ some x
    → is_held_at stamp x ≡ false
    → Held stamp id rows
    → Held stamp id (modify j f rows)
Held-modify stamp id j f rows {x} keeps h free (r, found, held) = elim (Bool-cases (j == id)) [
  | inl e ↦
      let there : find id rows ≡ some x = subst (λ k. find k rows ≡ some x) ((==_iff j id).0 e) h in
      let same : x ≡ r = some-injective x r (sym there ∙ found) in
      let clash : is_held_at stamp x ≡ true = rw same held in absurd (ground arith)
  | inr e ↦ (r, find-modify j id f rows keeps ∙ rw e found, held)
]

settle_rows :
    (done : Bool) (j : ℕ) (f : Row → Row) (st : State) {x : Row}
    → Keeps f
    → find j st.rows ≡ some x
    → (settle done j f st).rows ≡ modify j f st.rows
settle_rows done j f st keeps h = (settle_counts done j f st keeps h).same_rows

-- A row that is due at a time within the lease is not held.
due-free :
    (stamp now : ℕ) (x : Row)
    → now ≤ stamp + processing_timeout * second
    → is_due now x ≡ true
    → is_held_at stamp x ≡ false
due-free stamp now x h due = ground arith

ready-due : (now : ℕ) (x : Row) → is_ready now x ≡ true → is_due now x ≡ true
ready-due now x h = ground arith

stuck-due : (now : ℕ) (x : Row) → is_stuck now x ≡ true → is_due now x ≡ true
stuck-due now x h = ground arith

-- A claim that is given is that of the row asked for, which was due.
pub claim_one-got :
    (now j : ℕ) (st : State) {k : ℕ}
    → (claim_one now j st).0 ≡ some k
    → (x : Row) × (find j st.rows ≡ some x) × (is_due now x ≡ true) × (k ≡ j)
unfolding claim_one
claim_one-got now j st {k} got = elim (Option-cases (find j st.rows)) [
  | inl e ↦ let q : none ≡ some k = rw (claim_one, e) at got in absurd (ground arith)
  | inr (x, e) ↦ elim (Bool-cases (is_stuck now x)) [
    | inl s ↦ elim (Bool-cases (ltb max_retries (x.limited_attempts + 1))) [
      | inl b ↦ let q : none ≡ some k = rw (claim_one, e, s, b) at got in absurd (ground arith)
      | inr b ↦
          let q : some j ≡ some k = rw (claim_one, e, s, b) at got in
          (x, e, stuck-due now x s, sym (some-injective j k q))
    ]
    | inr s ↦ elim (Bool-cases (is_ready now x)) [
      | inl d ↦
          let q : some j ≡ some k = rw (claim_one, e, s, d) at got in
          (x, e, ready-due now x d, sym (some-injective j k q))
      | inr d ↦ let q : none ≡ some k = rw (claim_one, e, s, d) at got in absurd (ground arith)
    ]
  ]
]

module _ (stamp now id : ℕ) (within : now ≤ stamp + processing_timeout * second) where
  Held-claim_one :
      (j : ℕ) (st : State) → Held stamp id st.rows → Held stamp id (claim_one now j st).1.rows
  unfolding claim_one
  Held-claim_one j st held = elim (Option-cases (find j st.rows)) [
    | inl e ↦ rw (claim_one, e) held
    | inr (x, e) ↦ elim (Bool-cases (is_stuck now x)) [
      | inl s ↦
          let free = due-free stamp now x within (stuck-due now x s) in
          elim (Bool-cases (ltb max_retries (x.limited_attempts + 1))) [
            | inl b ↦
                rw (claim_one, e, s, b, settle_rows false j (given_up now) st (λ y. refl) e)
                  (Held-modify stamp id j (given_up now) st.rows (λ y. refl) e free held)
            | inr b ↦
                rw (claim_one, e, s, b)
                  (Held-modify stamp id j (λ y. claimed now (recovered y)) st.rows (λ y. refl) e
                    free held)
          ]
      | inr s ↦ elim (Bool-cases (is_ready now x)) [
        | inl d ↦
            rw (claim_one, e, s, d)
              (Held-modify stamp id j (claimed now) st.rows (λ y. refl) e
                (due-free stamp now x within (ready-due now x d)) held)
        | inr d ↦ rw (claim_one, e, s, d) held
      ]
    ]
  ]

  pub Held-claim_all :
      (rows : List Row) (st : State)
      → Held stamp id st.rows
      → Held stamp id (claim_all now rows st).1.rows
  unfolding claim_all
  Held-claim_all [] st held = held
  Held-claim_all (r ∷ rows) st held =
      Held-claim_all rows (claim_one now r.id st).1 (Held-claim_one r.id st held)

  -- A held row is not claimed.
  claim_one-other :
      (j : ℕ) (st : State) {k : ℕ}
      → Held stamp id st.rows
      → (claim_one now j st).0 ≡ some k
      → k ≢ id
  claim_one-other j st {k} (r, found, held) got same =
      let (x, there, due, own) = claim_one-got now j st got in
      let at : find id st.rows ≡ some x =
        subst (λ i. find i st.rows ≡ some x) (sym own ∙ same) there in
      let one : x ≡ r = some-injective x r (sym at ∙ found) in
      let clash : is_held_at stamp x ≡ true = rw one held in
      let free = due-free stamp now x within due in absurd (ground arith)

  others-and_claimed :
      (o : Option ℕ) (ids : List ℕ)
      → ((k : ℕ) → o ≡ some k → k ≢ id)
      → All (λ k. k ≢ id) ids
      → All (λ k. k ≢ id) (and_claimed o ids)
  others-and_claimed none ids first rest = rest
  others-and_claimed (some k) ids first rest = (first k refl, rest)

  claim_all-others :
      (rows : List Row) (st : State)
      → Held stamp id st.rows
      → All (λ k. k ≢ id) (claim_all now rows st).0
  unfolding claim_all
  claim_all-others [] st held = tt
  claim_all-others (r ∷ rows) st held =
      others-and_claimed (claim_one now r.id st).0 (claim_all now rows (claim_one now r.id st).1).0
        (λ k got. claim_one-other r.id st held got)
        (claim_all-others rows (claim_one now r.id st).1 (Held-claim_one r.id st held))

  Held-expire_one :
      (r : Row) (st : State) → Held stamp id st.rows → Held stamp id (expire_one now r st).rows
  unfolding expire_one
  Held-expire_one r st held = elim (Option-cases (find r.id st.rows)) [
    | inl e ↦ rw (expire_one, e) held
    | inr (x, e) ↦ elim (Bool-cases (is_pending x.status)) [
      | inl p ↦
          let free : is_held_at stamp x ≡ false = ground (arith, p) in
          let f = failed_with now (take 500 (expired_error r.last_error)) in
          rw (expire_one, e, p, settle_rows false r.id f st (λ y. refl) e)
            (Held-modify stamp id r.id f st.rows (λ y. refl) e free held)
      | inr p ↦ rw (expire_one, e, p) held
    ]
  ]

  Held-expire_all :
      (rows : List Row) (st : State)
      → Held stamp id st.rows
      → Held stamp id (expire_all now rows st).rows
  unfolding expire_all
  Held-expire_all [] st held = held
  Held-expire_all (r ∷ rows) st held =
      Held-expire_all rows (expire_one now r st) (Held-expire_one r st held)

  finalized_test-id : (x : Row) → (finalized_test now x).id ≡ x.id
  unfolding finalized_test
  finalized_test-id x = ground arith

  finalized_test-held : (x : Row) → is_held_at stamp x ≡ true → finalized_test now x ≡ x
  unfolding finalized_test
  finalized_test-held x h = ground arith

  Held-finalize :
      (rows : List Row) → Held stamp id rows → Held stamp id (map (finalized_test now) rows)
  unfolding find finalized_test
  Held-finalize [] (r, found, held) = absurd (ground arith)
  Held-finalize (x ∷ rows) (r, found, held) = elim (Bool-cases (x.id == id)) [
    | inl e ↦
        let same : x ≡ r = some-injective x r (rw e at found) in
        let kept : finalized_test now x ≡ r = finalized_test-held x (rw same held) ∙ same in
        (r, rw (finalized_test-id x, e) (ap some kept), held)
    | inr e ↦
        let (y, there, own) = Held-finalize rows (r, rw e at found, held) in
        (y, rw (finalized_test-id x, e) there, own)
  ]

  Held-finalize_retried_tests :
      (st : State) → Held stamp id st.rows → Held stamp id (finalize_retried_tests now st).rows
  unfolding finalize_retried_tests
  Held-finalize_retried_tests st held = Held-finalize st.rows held

  Held-expire_stale :
      (st : State) → Held stamp id st.rows → Held stamp id (expire_stale now st).1.rows
  unfolding expire_stale
  Held-expire_stale st held = Held-expire_all (filter_if (stale_row now) st.rows) st held

  pub get_pending_items-others :
      (limit : ℕ) (st : State)
      → Held stamp id st.rows
      → All (λ k. k ≢ id) (get_pending_items limit now st).0
  unfolding get_pending_items
  get_pending_items-others limit st held =
      let ready = (expire_stale now (finalize_retried_tests now st)).1 in
      claim_all-others (candidates limit now (blocked_keys now ready.channels) ready.rows) ready
        (Held-expire_stale (finalize_retried_tests now st) (Held-finalize_retried_tests st held))
