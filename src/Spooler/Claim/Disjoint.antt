-- ===== src/Spooler/Claim/Disjoint.antt =====
-- Two workers never hold the same message of the notification queue
-- (app/services/notifications/spooler.py).
use justup.Prelude.{
  ℕ, ◌+◌, ◌*◌, ◌≤◌, ◌≡◌, ◌≢◌, refl, ◌∙◌, true, Option, none, some, List, [], ◌∷◌, ltb, arith, All,
  All-map, Bool-cases, Option-cases, inl, inr,
}
use justup.DeliveryPolicy.{max_retries}
use justup.Spooler.{
  second, Row, State, find, modify, expire_stale, finalize_retried_tests, blocked_keys,
}
use justup.Spooler.Rows.{find-modify}
use mathlib.Core.Option.{some-injective}
use justup.Spooler.Claim.{
  processing_timeout, is_ready, is_stuck, claim_one, claim_all, get_pending_items, candidates,
  claimed, recovered, and_claimed,
}
use justup.Spooler.Claim.Exclusive.{is_held_at, Held, Held-claim_all, get_pending_items-others}

-- A row that takes on the claim is held.
Held-stamped :
    (now j : ℕ) (f : Row → Row) (rows : List Row) {x : Row}
    → ((y : Row) → (f y).id ≡ y.id)
    → ((y : Row) → is_held_at now (f y) ≡ true)
    → find j rows ≡ some x
    → Held now j (modify j f rows)
Held-stamped now j f rows {x} keeps stamps h =
    (f x, find-modify j j f rows keeps ∙ rw h (ground arith), stamps x)

claimed-held : (now : ℕ) (y : Row) → is_held_at now (claimed now y) ≡ true
claimed-held now y = ground arith

claim_one-Held :
    (now j : ℕ) (st : State) {k : ℕ}
    → (claim_one now j st).0 ≡ some k
    → Held now k (claim_one now j st).1.rows
unfolding claim_one
claim_one-Held now j st {k} got = elim (Option-cases (find j st.rows)) [
  | inl e ↦ let q : none ≡ some k = rw (claim_one, e) at got in absurd (ground arith)
  | inr (x, e) ↦ elim (Bool-cases (is_stuck now x)) [
    | inl s ↦ elim (Bool-cases (ltb max_retries (x.limited_attempts + 1))) [
      | inl b ↦ let q : none ≡ some k = rw (claim_one, e, s, b) at got in absurd (ground arith)
      | inr b ↦
          let q : some j ≡ some k = rw (claim_one, e, s, b) at got in
          rw (claim_one, e, s, b, ← (some-injective j k q))
            (Held-stamped now j (λ y. claimed now (recovered y)) st.rows (λ y. refl)
              (λ y. claimed-held now (recovered y)) e)
    ]
    | inr s ↦ elim (Bool-cases (is_ready now x)) [
      | inl d ↦
          let q : some j ≡ some k = rw (claim_one, e, s, d) at got in
          rw (claim_one, e, s, d, ← (some-injective j k q))
            (Held-stamped now j (claimed now) st.rows (λ y. refl) (claimed-held now) e)
      | inr d ↦ let q : none ≡ some k = rw (claim_one, e, s, d) at got in absurd (ground arith)
    ]
  ]
]

held-and_claimed :
    (P : ℕ → Type 0) (o : Option ℕ) (ids : List ℕ)
    → ((k : ℕ) → o ≡ some k → P k)
    → All P ids
    → All P (and_claimed o ids)
held-and_claimed P none ids first rest = rest
held-and_claimed P (some k) ids first rest = (first k refl, rest)

claim_all-Held :
    (now : ℕ) (rows : List Row) (st : State)
    → All (λ k. Held now k (claim_all now rows st).1.rows) (claim_all now rows st).0
unfolding claim_all
claim_all-Held now [] st = tt
claim_all-Held now (r ∷ rows) st =
    let next = (claim_one now r.id st).1 in
    held-and_claimed (λ k. Held now k (claim_all now rows next).1.rows) (claim_one now r.id st).0
      (claim_all now rows next).0
      (λ k got. Held-claim_all now now k (omega arith) rows next (claim_one-Held now r.id st got))
      (claim_all-Held now rows next)

get_pending_items-Held :
    (limit now : ℕ) (st : State)
    → All
        (λ k. Held now k (get_pending_items limit now st).1.rows)
        (get_pending_items limit now st).0
unfolding get_pending_items
get_pending_items-Held limit now st =
    let ready = (expire_stale now (finalize_retried_tests now st)).1 in
    claim_all-Held now (candidates limit now (blocked_keys now ready.channels) ready.rows) ready

-- What one worker has claimed, no later claim takes again while the lease of ten minutes lasts: the
-- ids that `get_pending_items` returns at `now` and those that a next call returns at any time up to
-- `now` and 600 s are different, each from each.
pub claims_disjoint :
    (limit now again later : ℕ) (st : State)
    → later ≤ now + processing_timeout * second
    → All
        (λ id.
          All (λ k. k ≢ id) (get_pending_items again later (get_pending_items limit now st).1).0)
        (get_pending_items limit now st).0
claims_disjoint limit now again later st h =
    let next = (get_pending_items limit now st).1 in
    All-map (λ id held. get_pending_items-others now later id h again next held)
      (get_pending_items limit now st).0 (get_pending_items-Held limit now st)
