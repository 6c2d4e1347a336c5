-- ===== src/Talos/PrePull/Backoff.antt =====
-- The spacing of failed pre-pulls.
use tuppr.Prelude.{ℕ, zero, suc, ◌*◌, ◌≤◌, true, ◌≡◌, leb, arith}
use tuppr.Maintenance.{minute}
use tuppr.Talos.PrePull.{pre_pull_failure_backoff}

many : (n : ℕ) → leb 4 (suc (suc (suc (suc n)))) ≡ true
many n = ground arith

more : (n : ℕ) → leb 4 (suc (suc (suc (suc (suc n))))) ≡ true
more n = ground arith

-- The wait after a failed pre-pull is between one minute and five, and never shrinks from one
-- attempt to the next.
pub pre_pull_failure_backoff_bounds :
    (attempts : ℕ)
    → (1 * minute ≤ pre_pull_failure_backoff attempts)
      × (pre_pull_failure_backoff attempts ≤ 5 * minute)
      × (pre_pull_failure_backoff attempts ≤ pre_pull_failure_backoff (suc attempts))
unfolding pre_pull_failure_backoff
pre_pull_failure_backoff_bounds zero = (omega arith, omega arith, omega arith)
pre_pull_failure_backoff_bounds (suc zero) = (omega arith, omega arith, omega arith)
pre_pull_failure_backoff_bounds (suc (suc zero)) = (omega arith, omega arith, omega arith)
pre_pull_failure_backoff_bounds (suc (suc (suc zero))) = (omega arith, omega arith, omega arith)
pre_pull_failure_backoff_bounds (suc (suc (suc (suc n)))) =
    rw (many n, more n) (omega arith, omega arith, omega arith)
