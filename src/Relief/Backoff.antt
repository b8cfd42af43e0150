-- ===== src/Relief/Backoff.antt =====
-- The schedules of `relief_stall_backoff` and `failed_pass_backoff`, crates/ingestion/src/driver.rs.
use explorer_backend.Base.{
  Bool, arith, false, min, refl, subst, suc, true, zero, ℕ, ◌+◌, ◌-◌, ◌≡◌, ◌≤◌,
}
use explorer_backend.Relief.{failed_pass_backoff, relief_stall_backoff}

-- The intended schedule, by the number of consecutive stalls.
pub stall_wait : ℕ → ℕ
stall_wait zero = 0
stall_wait (suc zero) = 30
stall_wait (suc (suc zero)) = 60
stall_wait (suc (suc (suc zero))) = 120
stall_wait (suc (suc (suc (suc zero)))) = 240
stall_wait (suc (suc (suc (suc (suc n))))) = 300

-- The wait doubles from 30 s to 240 s, and is 300 s from the fifth consecutive stall on.
pub relief_stall_backoff-stall_wait : (n : ℕ) → relief_stall_backoff n ≡ stall_wait n
unfolding relief_stall_backoff stall_wait
relief_stall_backoff-stall_wait zero = refl
relief_stall_backoff-stall_wait (suc zero) = refl
relief_stall_backoff-stall_wait (suc (suc zero)) = refl
relief_stall_backoff-stall_wait (suc (suc (suc zero))) = refl
relief_stall_backoff-stall_wait (suc (suc (suc (suc zero)))) = refl
relief_stall_backoff-stall_wait (suc (suc (suc (suc (suc zero))))) = refl
relief_stall_backoff-stall_wait (suc (suc (suc (suc (suc (suc n)))))) =
    let doublings : min (suc (suc (suc (suc (suc (suc n))))) - 1) 5 ≡ 5 = omega arith in
    rw doublings (ground arith)

stall_wait_step : (n : ℕ) → (stall_wait n ≤ stall_wait (suc n)) × (stall_wait (suc n) ≤ 300)
unfolding stall_wait
stall_wait_step zero = omega arith
stall_wait_step (suc zero) = omega arith
stall_wait_step (suc (suc zero)) = omega arith
stall_wait_step (suc (suc (suc zero))) = omega arith
stall_wait_step (suc (suc (suc (suc zero)))) = omega arith
stall_wait_step (suc (suc (suc (suc (suc n))))) = omega arith

stall_wait_mono : (a k : ℕ) → stall_wait a ≤ stall_wait (k + a)
stall_wait_mono a zero =
    let e : a ≡ zero + a = omega arith in subst (λ n. stall_wait a ≤ stall_wait n) e (omega arith)
stall_wait_mono a (suc k) =
    let e : suc (k + a) ≡ suc k + a = omega arith in
    subst (λ n. stall_wait a ≤ stall_wait n) e
      (omega (arith, stall_wait_mono a k, (stall_wait_step (k + a)).0))

-- After a failed pass: more consecutive stalls never shorten the wait, the wait never exceeds
-- 300 s, a database failure waits 30 s at most, and any other failure waits the relief schedule out.
pub failed_pass_backoff_bounds :
    (failures a b : ℕ) (database_failure : Bool)
    → a ≤ b
    → (failed_pass_backoff failures a database_failure
        ≤ failed_pass_backoff failures b database_failure)
      × (failed_pass_backoff failures a database_failure ≤ 300)
      × (failed_pass_backoff failures a true ≤ 30)
      × (stall_wait a ≤ failed_pass_backoff failures a false)
unfolding failed_pass_backoff
failed_pass_backoff_bounds failures a b database_failure h =
    let e : b - a + a ≡ b = omega arith in
    let mono = subst (λ n. stall_wait a ≤ stall_wait n) e (stall_wait_mono a (b - a)) in
    ground (
      arith,
      mono,
      (stall_wait_step a).0,
      (stall_wait_step a).1,
      relief_stall_backoff-stall_wait a,
      relief_stall_backoff-stall_wait b,
    )

pub stall_wait_range : (n : ℕ) → 1 ≤ n → (30 ≤ stall_wait n) × (stall_wait n ≤ 300)
unfolding stall_wait
stall_wait_range zero h = absurd (omega (arith, h))
stall_wait_range (suc zero) h = omega arith
stall_wait_range (suc (suc zero)) h = omega arith
stall_wait_range (suc (suc (suc zero))) h = omega arith
stall_wait_range (suc (suc (suc (suc zero)))) h = omega arith
stall_wait_range (suc (suc (suc (suc (suc n))))) h = omega arith
