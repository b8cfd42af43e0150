-- ===== src/Worker/Loop.antt =====
-- The block loop of `run_until_shutdown` (crates/ingestion/src/driver.rs): what a turn makes of the
-- result of `sync_once`. Logging has its state here, not its texts; durations are in seconds. The poll
-- tick at the head of the loop and the batch delay in `sync_once` are not here.
pub mod Latest
mod Tests
pub mod Waits
use explorer_backend.Base.{
  Bool, Option, false, if◌then◌else◌, leb, ltb, min, none, not, some, true, ℕ, ◌&&◌, ◌+◌, ◌-◌, ◌||◌,
  nat_eq,
}
use explorer_backend.FetchPlan.{u64_max}
use explorer_backend.Ingest.{Outcome, err, is_database_failure, ok}
use explorer_backend.Relief.{RpcReliefState, failed_pass_backoff, relief_stall_backoff, u32_modulus}
use explorer_backend.Worker.{SyncBatchReport, balance_sync_lag_threshold}

-- `lag` is what the maintenance tasks read for their gate, besides the load-shed mode;
-- `maintenance_paused` is only for the log.
pub record LoopState : Type 0 where
  pub consecutive_sync_failures : ℕ
  pub maintenance_paused : Bool
  pub caught_up_logged : Bool
  pub lag : ℕ

abbrev pub loop_start : LoopState
loop_start = record {
  consecutive_sync_failures = 0;
  maintenance_paused = false;
  caught_up_logged = false;
  lag = u64_max;
}

-- A turn: the state, the backoff, and whether the balance task was woken.
pub record LoopTurn : Type 0 where
  pub state : LoopState
  pub backoff : ℕ
  pub balance_kick : Bool

pub near_tip : ℕ → Bool
near_tip current_lag = leb current_lag balance_sync_lag_threshold

pub stall_backoff : Option ℕ → RpcReliefState → ℕ
stall_backoff (some height) relief = relief_stall_backoff relief.stall_count
stall_backoff none relief = 0

-- `caught_up_logged` after a report.
pub logs_caught_up : SyncBatchReport → Bool → Bool
logs_caught_up report caught_up_logged =
    if ltb 0 report.projected_blocks || ltb report.cursor_height_after report.rpc_tip_height
    then false
    else if not caught_up_logged
    then true
    else caught_up_logged

-- `maintenance_paused` after a report.
pub pauses : Bool → Bool → Bool
pauses near maintenance_paused =
    if near
    then if maintenance_paused then false else maintenance_paused
    else if not maintenance_paused
    then true
    else maintenance_paused

unfoldable pub after_sync :
    {X : Type 0} → Outcome X SyncBatchReport → RpcReliefState → LoopState → LoopTurn
unfolding near_tip stall_backoff logs_caught_up pauses
after_sync (ok report) relief s =
    let current_lag = report.rpc_tip_height - report.cursor_height_after in
    record {
      state = record {
        consecutive_sync_failures = 0;
        maintenance_paused = pauses (near_tip current_lag) s.maintenance_paused;
        caught_up_logged = logs_caught_up report s.caught_up_logged;
        lag = current_lag;
      };
      backoff = stall_backoff report.stalled_height relief;
      balance_kick = near_tip current_lag && ltb 0 report.projected_blocks;
    }
after_sync (err error) relief s =
    let failures = min (s.consecutive_sync_failures + 1) (u32_modulus - 1) in
    record {
      state = record s { consecutive_sync_failures = failures };
      backoff = failed_pass_backoff failures relief.stall_count (is_database_failure error);
      balance_kick = false;
    }
