-- ===== src/RateLimit/Tests.antt =====
-- Runs of the limiter, and the theorems at concrete tables (app/utils/rate_limit.py).
use justup.Prelude.{
  ℕ, ◌≤◌, ◌+◌, ◌*◌, String, ◌≡◌, ◌≢◌, ◌⊎◌, ◌↔◌, refl, inl, inr, Bool-cases, All, str_eq, none, some,
  List, [], ◌∷◌, arith, count_if, eq_iff,
}
use justup.Dict
use justup.RateLimit.{
  SlidingWindow, allowed, wait, capacity_exhausted, expire, within, init, reset, hit, second,
}
use justup.RateLimit.Expiry.{Ascending}
use justup.RateLimit.History.{KeyInv, stamps_of}
use justup.RateLimit.Budget.{run_log, admitted_within_limit}
use justup.RateLimit.Call.{hit_isolated}
use justup.RateLimit.Retry.{Between, others, wait_exact}
use justup.Text.{codes}
use justup.RateLimit.Parse.{parse_limit}
use justup.RateLimit.Grammar.{IsLimit, parse_limit_exact}
use justup.RateLimit.Admit.{admit, admitted, retry_after_honoured}

program : Unit {0}
unfolding hit others init reset Dict.get Dict.put Dict.retain Dict.occurs expire run_log parse_limit
    admit
program = tt

-- Two requests per ten ticks.
abbrev requests : List (ℕ × String)
requests = (1, "a") ∷ (2, "a") ∷ (3, "b") ∷ (4, "a") ∷ (11, "a") ∷ []

third_is_refused : run_log "a" 2 10 (init 2 10 100) [] requests ≡ 11 ∷ 2 ∷ 1 ∷ []
unfolding program
third_is_refused = refl

admitted_within_limit_example :
    count_if (within 10 11) (run_log "a" 2 10 (init 2 10 100) [] requests) ≤ 2
admitted_within_limit_example = admitted_within_limit "a" 2 10 100 requests (omega arith) 11

-- A table with one key, at its limit of one key.
abbrev busy : SlidingWindow
busy = record {
  limit = 2;
  window = 10;
  max_keys = 1;
  hits = ("a", 1 ∷ 2 ∷ []) ∷ [];
  next_sweep = 0;
}

-- A table with one key is well formed for every key.
single-KeyInv :
    (k : String) (n : ℕ) (w : SlidingWindow) (x : ℕ) (xs : List ℕ)
    → w.hits ≡ ("a", x ∷ xs) ∷ []
    → Ascending (x ∷ xs)
    → All (λ s. s ≤ n) (x ∷ xs)
    → KeyInv k n w
unfolding program
single-KeyInv k n w x xs e up past = elim (Bool-cases (str_eq "a" k)) [
  | inl q ↦ record { once = rw (e, q) (omega arith); rising = rw (e, q) up; past = rw (e, q) past }
  | inr q ↦ record { once = rw (e, q) (omega arith); rising = rw (e, q) tt; past = rw (e, q) tt }
]

busy-KeyInv : (k : String) → KeyInv k 2 busy
busy-KeyInv k = single-KeyInv k 2 busy 1 (2 ∷ []) refl (omega arith) (omega arith)

busy_waits : (hit "a" (some 2) (some 10) 4 busy).0 ≡ wait 7
unfolding program
busy_waits = refl

-- A request of another key comes in between and finds no room.
abbrev between : List (ℕ × String × ℕ)
between = (5, "b", 2) ∷ []

keys_differ : ◌≢◌ {A = String} "a" "b"
keys_differ = ground (arith, eq_iff "a" "b")

wait_exact_example :
    let u = others 10 between (hit "a" (some 2) (some 10) 4 busy).1 in
    let repeated = (hit "a" (some 2) (some 10) 11 u).0 in
    ((repeated ≡ allowed) ⊎ ((repeated ≡ capacity_exhausted) × (between ≢ []))) ↔ (11 ≤ 11)
wait_exact_example =
    wait_exact "a" 2 10 4 11 7 2 between busy busy-KeyInv (omega arith)
      (omega arith, keys_differ, omega arith) busy_waits

-- Where the other key comes once the stamps have run out, it takes the only place.
overtaken :
    (hit "a"
      (some 2)
      (some 10)
      13
      (others 10 ((12, "b", 2) ∷ []) (hit "a" (some 2) (some 10) 4 busy).1)).0
    ≡ capacity_exhausted
unfolding program
overtaken = refl

hit_isolated_example :
    expire 4 10 (stamps_of "a" (hit "b" (some 2) (some 10) 4 busy).1) ≡ 1 ∷ 2 ∷ []
unfolding program
hit_isolated_example =
    hit_isolated "a" "b" (some 2) (some 10) 4 4 2 busy (busy-KeyInv "a") keys_differ (omega arith)

busy_is_full : (hit "b" none none 4 busy).0 ≡ capacity_exhausted
unfolding program
busy_is_full = refl

five_per_minute : parse_limit (codes "5/minute") ≡ some (5, 60)
unfolding program
five_per_minute = refl

parse_limit_exact_example :
    (parse_limit (codes "5/minute") ≡ some (5, 60)) ↔ IsLimit (codes "5/minute") 5 60
parse_limit_exact_example = parse_limit_exact (codes "5/minute") 5 60

abbrev spent : SlidingWindow
spent = record busy { hits = ("a", 1 ∷ []) ∷ []; window = 1 * second }

spent-KeyInv : (k : String) → KeyInv k 2 spent
spent-KeyInv k = single-KeyInv k 2 spent 1 [] refl (omega arith) (omega arith)

retry_after_honoured_example :
    (1 ≤ 1)
    × (1 ≤ 1)
    × ((t : ℕ) (requests : List (ℕ × String × ℕ))
        → 2 + 1 * second ≤ t
        → Between "a" 2 t requests
        → let u = others (1 * second) requests (admit (codes "1/second") "a" 2 spent).1 in
          ((admit (codes "1/second") "a" t u).0 ≡ admitted)
          ⊎ (((hit "a" (some 1) (some (1 * second)) t u).0 ≡ capacity_exhausted) × (requests ≢ [])))
unfolding program
retry_after_honoured_example =
    retry_after_honoured (codes "1/second") "a" 1 1 2 2 1 spent refl spent-KeyInv (omega arith)
      (λ e. cc) refl
