-- ===== src/DeliveryPolicy/Backoff.antt =====
-- The retry delay of app/services/notifications/delivery_policy.py.
use native.Mathlib.Nat.{pow-le-pow_right, mul-le-mul_right}
use justup.Prelude.{ℕ, zero, suc, ◌+◌, ◌*◌, ◌^◌, ◌≤◌, ◌<◌, ◌≡◌, refl, arith, min}
use justup.DeliveryPolicy.{delay_seconds, backoff_delay}

-- The doubling that the doc string spells out, with no cap on the exponent.
delay_table : ℕ → ℕ
delay_table zero = 60
delay_table (suc zero) = 120
delay_table (suc (suc zero)) = 240
delay_table (suc (suc (suc zero))) = 480
delay_table (suc (suc (suc (suc n)))) = 900

delay_seconds-delay_table : (n : ℕ) → delay_seconds n ≡ delay_table n
unfolding delay_seconds delay_table
delay_seconds-delay_table zero = refl
delay_seconds-delay_table (suc zero) = refl
delay_seconds-delay_table (suc (suc zero)) = refl
delay_seconds-delay_table (suc (suc (suc zero))) = refl
delay_seconds-delay_table (suc (suc (suc (suc n)))) =
    let k : 4 ≤ min (suc (suc (suc (suc n)))) 16 = omega arith in
    let p : 2 ^ 4 ≤ 2 ^ min (suc (suc (suc (suc n)))) 16 = pow-le-pow_right (omega arith) k in
    omega arith

delay_table_bounds : (n : ℕ) → (60 ≤ delay_table n) × (delay_table n ≤ 900)
unfolding delay_table
delay_table_bounds zero = omega arith
delay_table_bounds (suc zero) = omega arith
delay_table_bounds (suc (suc zero)) = omega arith
delay_table_bounds (suc (suc (suc zero))) = omega arith
delay_table_bounds (suc (suc (suc (suc n)))) = omega arith

delay_table_mono : (n : ℕ) → delay_table n ≤ delay_table (suc n)
unfolding delay_table
delay_table_mono zero = omega arith
delay_table_mono (suc zero) = omega arith
delay_table_mono (suc (suc zero)) = omega arith
delay_table_mono (suc (suc (suc zero))) = omega arith
delay_table_mono (suc (suc (suc (suc n)))) = omega arith

-- Whatever is drawn, a retry waits at least the base delay of 60 s and less than 1125 s, which is the
-- cap of 900 s and a quarter more; before its jitter the delay never falls from one attempt to the
-- next.
pub backoff_delay_bounds :
    (parts drawn attempt : ℕ)
    → drawn < parts
    → (60 * (4 * parts) ≤ backoff_delay parts drawn attempt)
      × (backoff_delay parts drawn attempt < 1125 * (4 * parts))
      × (delay_seconds attempt ≤ delay_seconds (suc attempt))
unfolding backoff_delay
backoff_delay_bounds parts drawn attempt h =
    let same = delay_seconds-delay_table attempt in
    let next = delay_seconds-delay_table (suc attempt) in
    let cap = (delay_table_bounds attempt).1 in
    let up = delay_table_mono attempt in
    let d : delay_seconds attempt ≤ 900 = omega arith in
    let product : delay_seconds attempt * (3 * parts + 2 * drawn) ≤ 900 * (3 * parts + 2 * drawn) =
      mul-le-mul_right (3 * parts + 2 * drawn) d in
    (omega arith, omega arith, omega arith)
