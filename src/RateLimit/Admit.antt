-- ===== src/RateLimit/Admit.antt =====
-- `_admit` of app/utils/rate_limit.py: the answer that a route gives from one call of `hit`.
use justup.Prelude.{
  ℕ, zero, suc, ◌+◌, ◌-◌, ◌*◌, ◌/◌, ◌≤◌, String, ◌≡◌, ◌≢◌, ◌∙◌, ◌⊎◌, inl, inr, Option, none, some,
  List, [], ◌∷◌, arith, length, get_or, All, max, min, ap, sym,
}
use justup.RateLimit.{
  SlidingWindow, Hit, allowed, wait, capacity_exhausted, index_error, expire, hit, second,
  fail_closed_retry_max,
}
use justup.RateLimit.Parse.{parse_limit}
use justup.RateLimit.Grammar.{parse_limit_bounds}
use justup.RateLimit.History.{stamps_of, KeyInv, verdict}
use justup.RateLimit.Expiry.{expire-All}
use justup.RateLimit.Call.{hit-Decides, later}
use justup.RateLimit.Retry.{Between, others, wait_exact}

-- `math.ceil` of a wait, in seconds.
abbrev ceil_seconds : ℕ → ℕ
ceil_seconds d = (d + 999999999) / 1000000000

pub data Answer : Type 0 where
  admitted invalid_limit : Answer
  too_many : ℕ → Answer

-- `RateLimitExceededError(retry_after, ...)` keeps at least one second. The last case is the
-- `except Exception` around `hit`.
answer : ℕ → Hit → Answer
answer window allowed = admitted
answer window (wait d) = too_many (max 1 (ceil_seconds d))
answer window capacity_exhausted = too_many (max 1 (min window fail_closed_retry_max))
answer window index_error = too_many (max 1 (min window fail_closed_retry_max))

admit_parsed : Option (ℕ × ℕ) → String → ℕ → SlidingWindow → Answer × SlidingWindow
unfolding answer
admit_parsed none key now w = (invalid_limit, w)
admit_parsed (some (count, window)) key now w =
    let (r, w') = hit key (some count) (some (window * second)) now w in (answer window r, w')

unfoldable pub admit : List ℕ → String → ℕ → SlidingWindow → Answer × SlidingWindow
unfolding admit_parsed
admit limit key now w = admit_parsed (parse_limit limit) key now w

get_or-le : (n : ℕ) (xs : List ℕ) (i : ℕ) → All (λ s. s ≤ n) xs → get_or xs i 0 ≤ n
get_or-le n [] i h = omega arith
get_or-le n (x ∷ xs) zero h = h.0
get_or-le n (x ∷ xs) (suc i) h = get_or-le n xs i h.1

verdict-wait-le :
    (limit window now d : ℕ) (xs : List ℕ)
    → All (λ s. s ≤ now) xs
    → verdict limit window now xs ≡ wait d
    → d ≤ window
verdict-wait-le limit window now d xs h e = ground (arith, get_or-le now xs (length xs - limit) h)

module _ (key : String) (count window now n : ℕ) (w : SlidingWindow) (v : KeyInv key n w)
    (h : n ≤ now) where
  -- A wait is never longer than the window.
  hit-wait-le : (d : ℕ) → (hit key (some count) (some window) now w).0 ≡ wait d → d ≤ window
  hit-wait-le d e = elim (hit-Decides key (some count) (some window) now n w v) [
    | inl (r, _, _) ↦ absurd (ground arith)
    | inr (r, _) ↦
        verdict-wait-le count window now d (expire now window (stamps_of key w))
          (expire-All (λ s. s ≤ now) now window (stamps_of key w) (later h v).past) (sym r ∙ e)
  ]

  -- With a count of at least one, a refusal of a key that has stamps is a wait.
  refusal :
      (r unit : ℕ)
      → 1 ≤ count
      → stamps_of key w ≢ []
      → answer unit (hit key (some count) (some window) now w).0 ≡ too_many r
      → (d : ℕ) × ((hit key (some count) (some window) now w).0 ≡ wait d)
        × (r ≡ max 1 (ceil_seconds d))
  unfolding answer
  refusal r unit c some_stamps e = elim (hit-Decides key (some count) (some window) now n w v) [
    | inl (_, empty, _) ↦ absurd (some_stamps empty)
    | inr (q, _) ↦
        let xs = expire now window (stamps_of key w) in
        let d = get_or xs (length xs - count) 0 + window - now in (d, ground arith, ground arith)
  ]

-- A request that is over its own budget gets a `Retry-After` of at least one second and at most the
-- window, and the same request repeated no earlier than that, after any requests of other keys in that
-- window, is admitted, unless those have filled the table meanwhile.
pub retry_after_honoured :
    (limit : List ℕ) (key : String) (count window now n r : ℕ) (w : SlidingWindow)
    → parse_limit limit ≡ some (count, window)
    → ((k : String) → KeyInv k n w)
    → n ≤ now
    → stamps_of key w ≢ []
    → (admit limit key now w).0 ≡ too_many r
    → (1 ≤ r)
      × (r ≤ window)
      × ((t : ℕ) (requests : List (ℕ × String × ℕ))
          → now + r * second ≤ t
          → Between key now t requests
          → let u = others (window * second) requests (admit limit key now w).1 in
            ((admit limit key t u).0 ≡ admitted)
            ⊎ (((hit key (some count) (some (window * second)) t u).0 ≡ capacity_exhausted)
                × (requests ≢ [])))
unfolding admit
retry_after_honoured limit key count window now n r w p v h some_stamps e =
    let b = parse_limit_bounds limit count window p in
    let e' : answer window (hit key (some count) (some (window * second)) now w).0 ≡ too_many r =
      rw p at e in
    let (d, waits, told) =
      refusal key count (window * second) now n w (v key) h r window b.0 some_stamps e' in
    let short = hit-wait-le key count (window * second) now n w (v key) h d waits in
    (
      omega arith,
      omega arith,
      λ t requests later_by between.
          rw p
            (elim ((wait_exact key count (window * second) now t d n requests w v h between waits).1
              (omega arith)) [ inl a ↦ inl (ap (answer window) a) | inr full ↦ inr full ]),
    )
