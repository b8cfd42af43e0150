-- ===== src/Relief.antt =====
-- Automatic RPC load shedding: `RpcReliefState` and the backoff schedules of
-- crates/ingestion/src/driver.rs. Each atomic cell is a field; counters are `u32` and wrap where the
-- atomics do. Durations are in seconds.
pub mod Backoff
pub mod History
mod Tests
use explorer_backend.Base.{
  Bool, false, if◌then◌else◌, ltb, max, min, not, true, ℕ, ◌%◌, ◌*◌, ◌+◌, ◌-◌, ◌==◌, ◌^◌, ◌||◌,
}

abbrev pub u32_modulus : ℕ
u32_modulus = 2 ^ 32

abbrev pub relief_recovery_commit_blocks : ℕ
relief_recovery_commit_blocks = 4

abbrev pub relief_stall_backoff_base : ℕ
relief_stall_backoff_base = 30

abbrev pub relief_stall_backoff_max : ℕ
relief_stall_backoff_max = 300

abbrev pub relief_stall_backoff_max_doublings : ℕ
relief_stall_backoff_max_doublings = 5

unfoldable pub relief_stall_backoff : ℕ → ℕ
relief_stall_backoff stall_count =
    if stall_count == 0
    then 0
    else min
        (relief_stall_backoff_base * 2 ^ min (stall_count - 1) relief_stall_backoff_max_doublings)
        relief_stall_backoff_max

unfoldable pub failed_pass_backoff : ℕ → ℕ → Bool → ℕ
failed_pass_backoff consecutive_failures stall_count database_failure =
    let generic = min consecutive_failures 6 * 5 in
    if database_failure then generic else max generic (relief_stall_backoff stall_count)

pub record RpcReliefState : Type 0 where
  pub active : Bool
  pub committed_streak : ℕ
  pub stalled_height : ℕ
  pub stall_count : ℕ

abbrev pub relief_default : RpcReliefState
relief_default = record {
  active = false;
  committed_streak = 0;
  stalled_height = 0;
  stall_count = 0;
}

-- The state after a stall, with the stall count and whether this call entered the mode.
unfoldable pub register_stall : ℕ → RpcReliefState → RpcReliefState × ℕ × Bool
register_stall height r =
    let stalls = if r.stalled_height == height then (r.stall_count + 1) % u32_modulus else 1 in
    (
      record { active = true; committed_streak = 0; stalled_height = height; stall_count = stalls },
      stalls,
      not r.active,
    )

-- `u32::try_from(blocks).unwrap_or(u32::MAX)`
abbrev pub to_u32 : ℕ → ℕ
to_u32 blocks = min blocks (u32_modulus - 1)

abbrev earn : ℕ → RpcReliefState → RpcReliefState × Bool
earn blocks r =
    if ltb (min (r.committed_streak + blocks) (u32_modulus - 1)) relief_recovery_commit_blocks
    then (record r { committed_streak = (r.committed_streak + blocks) % u32_modulus }, false)
    else (record r { committed_streak = 0; active = false }, r.active)

-- The state after a pass without a stall, and whether it left the mode.
unfoldable pub register_progress : ℕ → RpcReliefState → RpcReliefState × Bool
register_progress blocks r =
    let calm = record r { stall_count = 0 } in
    if not r.active || blocks == 0 then (calm, false) else earn (to_u32 blocks) calm

unfoldable pub clear : RpcReliefState → RpcReliefState × Bool
clear r = (record r { stall_count = 0; committed_streak = 0; active = false }, r.active)
