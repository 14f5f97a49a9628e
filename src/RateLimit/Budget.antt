-- ===== src/RateLimit/Budget.antt =====
-- The promise of the limiter (app/utils/rate_limit.py): never more than `limit` admitted requests of
-- one key in any window, over any sequence of requests of any keys.
use justup.Prelude.{
  ℕ, ◌≤◌, ◌<◌, String, ◌≡◌, sym, ◌∙◌, inl, inr, Bool, true, false, ◌&&◌, some, List, [], ◌∷◌, ◌++◌,
  arith, leb, length, str_eq, eq_iff, Bool-cases, if◌then◌else◌, count_if, count_if-append,
  count_if-le-length, leb_false→lt, ap,
}
use justup.RateLimit.{SlidingWindow, Hit, allowed, expire, live, within, hit, init}
use justup.RateLimit.Expiry.{expire-live, expire_expired}
use text.Mathlib.TextPositions.{eq_refl}
use justup.RateLimit.History.{stamps_of, KeyInv, init-KeyInv, verdict}
use justup.RateLimit.Call.{hit-KeyInv, hit-Decides, hit_isolated}

abbrev pub is_allowed : Hit → Bool
is_allowed allowed = true
is_allowed _ = false

-- The times at which requests of `j` were admitted, the latest first.
unfoldable pub run_log : String → ℕ → ℕ → SlidingWindow → List ℕ → List (ℕ × String) → List ℕ
run_log j limit window w log [] = log
run_log j limit window w log ((now, key) ∷ requests) =
    let (r, w') = hit key (some limit) (some window) now w in
    run_log j limit window w' (if str_eq key j && is_allowed r then now ∷ log else log) requests

abbrev pub Ordered : ℕ → List (ℕ × String) → Type 0
Ordered n [] = Unit
Ordered n ((now, key) ∷ requests) = (n ≤ now) × Ordered now requests

record Tracked (j : String) (limit window n : ℕ) (w : SlidingWindow) (log : List ℕ) : Type 0 where
  inv : (k : String) → KeyInv k n w
  covered :
      (t : ℕ) → n ≤ t → count_if (live window t) log ≤ count_if (live window t) (stamps_of j w)
  bounded : (t : ℕ) → count_if (within window t) log ≤ limit

within-le-live :
    (window now t : ℕ) (log : List ℕ)
    → now ≤ t
    → count_if (within window t) log ≤ count_if (live window now) log
within-le-live window now t [] h = omega arith
within-le-live window now t (s ∷ log) h = ground (arith, within-le-live window now t log)

same_live :
    (window t : ℕ) (xs ys : List ℕ)
    → expire t window xs ≡ expire t window ys
    → count_if (live window t) xs ≡ count_if (live window t) ys
same_live window t xs ys e =
    sym (expire-live t window t xs (omega arith))
    ∙ ap (count_if (live window t)) e
    ∙ expire-live t window t ys (omega arith)

module _ (j : String) (limit window : ℕ) where
  bounded_cons :
      (now : ℕ) (log xs : List ℕ)
      → count_if (live window now) log ≤ count_if (live window now) xs
      → length xs < limit
      → ((t : ℕ) → count_if (within window t) log ≤ limit)
      → (t : ℕ) → count_if (within window t) (now ∷ log) ≤ limit
  bounded_cons now log xs c l b t =
      ground (arith, b t, within-le-live window now t log, count_if-le-length (live window now) xs)

  covered_cons :
      (now t : ℕ) (log xs : List ℕ)
      → count_if (live window t) log ≤ count_if (live window t) xs
      → count_if (live window t) (now ∷ log) ≤ count_if (live window t) (xs ++ now ∷ [])
  covered_cons now t log xs c = ground (arith, count_if-append (live window t) xs (now ∷ []))

  not_allowed :
      (now : ℕ) (xs : List ℕ)
      → leb limit (length xs) ≡ true
      → is_allowed (verdict limit window now xs) ≡ false
  not_allowed now xs e = ground arith

  is-allowed :
      (now : ℕ) (xs : List ℕ)
      → leb limit (length xs) ≡ false
      → is_allowed (verdict limit window now xs) ≡ true
  is-allowed now xs e = ground arith

  after_call : ℕ → String → SlidingWindow → SlidingWindow
  after_call now key w = (hit key (some limit) (some window) now w).1

  logged : ℕ → String → SlidingWindow → List ℕ → List ℕ
  logged now key w log =
      if str_eq key j && is_allowed (hit key (some limit) (some window) now w).0
      then now ∷ log
      else log

  module _ (now n : ℕ) (w : SlidingWindow) (log : List ℕ) (h : n ≤ now)
      (v : Tracked j limit window n w log) where
    after-inv : (key k : String) → KeyInv k now (after_call now key w)
    unfolding after_call
    after-inv key k = hit-KeyInv key (some limit) (some window) now n w (v.inv key) k h (v.inv k)

    other-Tracked :
        (key : String)
        → str_eq key j ≡ false
        → Tracked j limit window now (after_call now key w) (logged now key w log)
    unfolding logged after_call
    other-Tracked key e = rw e (record {
      inv = after-inv key;
      covered = λ t k.
          let c = v.covered t (omega arith) in
          let q = same_live window t _ _ (
            hit_isolated j key (some limit) (some window) now t n w (v.inv j)
              (λ p. ground (arith, eq_iff key j)) k) in
          omega arith;
      bounded = v.bounded;
    })

    left : List ℕ
    left = expire now window (stamps_of j w)

    -- What is left covers the log at any later time.
    left-covers : (t : ℕ) → now ≤ t → count_if (live window t) log ≤ count_if (live window t) left
    unfolding left
    left-covers t k =
        let c = v.covered t (omega arith) in rw (expire-live now window t (stamps_of j w) k) c

    kept-Tracked :
        is_allowed (hit j (some limit) (some window) now w).0 ≡ false
        → stamps_of j (after_call now j w) ≡ left
        → Tracked j limit window now (after_call now j w) (logged now j w log)
    unfolding logged
    kept-Tracked r e =
        rw (r, eq_refl j)
          (record {
            inv = after-inv j;
            covered = λ t k. rw e (left-covers t k);
            bounded = v.bounded;
          })

    added-Tracked :
        is_allowed (hit j (some limit) (some window) now w).0 ≡ true
        → stamps_of j (after_call now j w) ≡ left ++ now ∷ []
        → length left < limit
        → Tracked j limit window now (after_call now j w) (logged now j w log)
    unfolding logged
    added-Tracked r e l =
        rw (r, eq_refl j)
          (record {
            inv = after-inv j;
            covered = λ t k. rw e (covered_cons now t log left (left-covers t k));
            bounded = bounded_cons now log left (left-covers now (omega arith)) l v.bounded;
          })

    own-Tracked : Tracked j limit window now (after_call now j w) (logged now j w log)
    unfolding left after_call
    own-Tracked = elim (hit-Decides j (some limit) (some window) now n w (v.inv j)) [
      | inl (r, before, after) ↦
          kept-Tracked (rw r)
            (after ∙ sym (ap (expire now window) before ∙ expire_expired now window [] tt))
      | inr (r, stamps) ↦ elim (Bool-cases (leb limit (length left))) [
        | inl e ↦ kept-Tracked (ap is_allowed r ∙ not_allowed now left e) (rw e at stamps)
        | inr e ↦
            added-Tracked (ap is_allowed r ∙ is-allowed now left e) (rw e at stamps)
              (leb_false→lt limit (length left) e)
      ]
    ]

    call-Tracked :
        (key : String) → Tracked j limit window now (after_call now key w) (logged now key w log)
    call-Tracked key = elim (Bool-cases (str_eq key j)) [
      | inl e ↦ rw ((eq_iff key j).0 e) own-Tracked
      | inr e ↦ other-Tracked key e
    ]

  run-bounded :
      (requests : List (ℕ × String)) (n : ℕ) (w : SlidingWindow) (log : List ℕ)
      → Ordered n requests
      → Tracked j limit window n w log
      → (t : ℕ) → count_if (within window t) (run_log j limit window w log requests) ≤ limit
  unfolding run_log after_call logged
  run-bounded [] n w log o v = v.bounded
  run-bounded ((now, key) ∷ requests) n w log o v =
      run-bounded requests now (after_call now key w) (logged now key w log) o.1
        (call-Tracked now n w log o.0 v key)

-- From an empty limiter, whatever the requests, their keys and the size of the table, as long as the
-- clock does not go back: in every window, wherever it ends, at most `limit` requests of a key were
-- admitted. Sweeps and refusals never give a key a fresh budget.
pub admitted_within_limit :
    (j : String) (limit window max_keys : ℕ) (requests : List (ℕ × String))
    → Ordered 0 requests
    → (t : ℕ)
    → count_if (within window t) (run_log j limit window (init limit window max_keys) [] requests)
      ≤ limit
unfolding init
admitted_within_limit j limit window max_keys requests o =
    run-bounded j limit window requests 0 (init limit window max_keys) [] o (record {
      inv = λ k. init-KeyInv k limit window max_keys;
      covered = λ t h. omega arith;
      bounded = λ t. omega arith;
    })
