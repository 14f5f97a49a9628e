-- ===== src/Supervisor/Delays.antt =====
-- How long a crashed service waits (app/utils/supervisor.py, `_next_delay` and `_backoff`).
use justup.Prelude.{
  ℕ, zero, suc, ◌+◌, ◌-◌, ◌*◌, ◌^◌, ◌≤◌, ◌<◌, ◌≡◌, true, false, List, [], ◌∷◌, arith, length, min,
}
use justup.Supervisor.Service.{Setup, Service, is_degraded, default_policy, prune_old}
use justup.Supervisor.Operations.{notify, degrade, backoff_of, decide_delay, next_delay}
use justup.Supervisor.Machine.{Phase, sleeping}

pow_pos : (k : ℕ) → 1 ≤ 2 ^ k
pow_pos zero = omega arith
pow_pos (suc k) = omega (arith, pow_pos k)

product_floor : (d r : ℕ) → 1000 ≤ d → 750 ≤ r → 750000 ≤ d * r
product_floor d r h k = grind arith

pub backoff_of_bounds :
    (c : Setup) (draw attempt : ℕ)
    → c.policy ≡ default_policy
    → (750 ≤ backoff_of c draw attempt) × (backoff_of c draw attempt ≤ 60000)
unfolding backoff_of
backoff_of_bounds c draw attempt e =
    let n = min (attempt - 1) 64 in
    rw e (
      ground (
        arith,
        pow_pos n,
        product_floor (min 60000 (1000 * 2 ^ n)) (1000 + draw - 250) (omega (arith, pow_pos n))
            (omega arith),
      ))

pub length-prune_old-le :
    (window now : ℕ) (xs : List ℕ) → length (prune_old window now xs) ≤ length xs
unfolding prune_old
length-prune_old-le window now [] = omega arith
length-prune_old-le window now (x ∷ xs) = ground (arith, length-prune_old-le window now xs)

-- The wait after a crash, with what the supervisor knows of the service then.
pub record IsPaced (delay : ℕ) (svc : Service) : Type 0 where
  pub slow : is_degraded svc.state ≡ true → delay ≡ 300000
  pub quick : is_degraded svc.state ≡ false → (750 ≤ delay) × (delay ≤ 60000)
  pub few_crashes : is_degraded svc.state ≡ false → length svc.crashes < 5
  pub few_hangs : is_degraded svc.state ≡ false → length svc.hangs < 3

abbrev pub PacedAt : Phase → Service → Type 0
PacedAt (sleeping delay) svc = IsPaced delay svc
PacedAt _ svc = Unit

pub decide_delay-IsPaced :
    (c : Setup) (draw : ℕ) (svc : Service)
    → c.policy ≡ default_policy
    → IsPaced (next_delay c draw svc) (decide_delay c svc)
unfolding decide_delay next_delay degrade notify
decide_delay-IsPaced c draw svc e = ground (arith, e, backoff_of_bounds c draw svc.attempt e)
