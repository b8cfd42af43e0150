-- ===== src/Worker/Loop/Waits.antt =====
-- The backoff of the block loop (crates/ingestion/src/driver.rs), by how the window of the pass ended. The
-- poll tick and the batch delay come on top of it.
use explorer_backend.Base.{
  Bool-cases, Option, arith, false, if◌then◌else◌, inl, inr, none, some, true, ℕ, ◌-◌, ◌<◌, ◌≤◌,
  nat_eq,
}
use explorer_backend.FetchPlan.{FetchWindow, WorkerConfig}
use explorer_backend.Ingest.{Database, Outcome, WindowOutcome, err, is_database_failure, ok}
use explorer_backend.Relief.{
  RpcReliefState, failed_pass_backoff, register_stall, relief_stall_backoff, u32_modulus,
}
use explorer_backend.Relief.Backoff.{
  failed_pass_backoff_bounds, relief_stall_backoff-stall_wait, stall_wait_range,
}
use explorer_backend.Worker.{BlockIngestionDriver, after_window, note_outcome}
use explorer_backend.Worker.Loop.{LoopState, after_sync, stall_backoff}

-- A number of seconds where the window stalled at a height, and none where it is done.
if_stalled : Option ℕ → ℕ → ℕ
if_stalled none seconds = 0
if_stalled (some height) seconds = seconds

pub shortest : {X : Type 0} → Outcome X WindowOutcome → ℕ
shortest (err error) = if is_database_failure error then 5 else 30
shortest (ok outcome) = if_stalled outcome.stalled_height 30

pub longest : {X : Type 0} → Outcome X WindowOutcome → ℕ
longest (err error) = if is_database_failure error then 30 else 300
longest (ok outcome) = if_stalled outcome.stalled_height 300

-- A stall is counted.
register_stall_counts :
    (height : ℕ) (relief : RpcReliefState)
    → relief.stall_count < u32_modulus - 1
    → 1 ≤ (register_stall height relief).0.stall_count
unfolding register_stall
register_stall_counts height relief h = ground (arith, h)

stalled_wait : (n : ℕ) → 1 ≤ n → (30 ≤ relief_stall_backoff n) × (relief_stall_backoff n ≤ 300)
stalled_wait n h = ground (arith, relief_stall_backoff-stall_wait n, stall_wait_range n h)

database_wait :
    (n stalls : ℕ)
    → 1 ≤ n
    → (5 ≤ failed_pass_backoff n stalls true) × (failed_pass_backoff n stalls true ≤ 30)
unfolding failed_pass_backoff
database_wait n stalls h = ground (arith, h)

node_wait :
    (n stalls : ℕ)
    → 1 ≤ stalls
    → (30 ≤ failed_pass_backoff n stalls false) × (failed_pass_backoff n stalls false ≤ 300)
node_wait n stalls h =
    let b = failed_pass_backoff_bounds n stalls stalls false (omega arith) in
    (omega (arith, b.3, (stall_wait_range stalls h).0), b.1)

stall_waits :
    (stalled : Option ℕ) (blocks : ℕ) (relief : RpcReliefState)
    → relief.stall_count < u32_modulus - 1
    → let backoff = stall_backoff stalled (note_outcome stalled blocks relief) in
      (if_stalled stalled 30 ≤ backoff) × (backoff ≤ if_stalled stalled 300)
unfolding if_stalled note_outcome stall_backoff
stall_waits none blocks relief h = (omega arith, omega arith)
stall_waits (some height) blocks relief h = stalled_wait _ (register_stall_counts height relief h)

-- After a pass with a window, the loop's backoff, which comes on top of the poll tick and the batch
-- delay, is, whatever the loop's state: zero if the window is done; 30 to 300 seconds if it stalled at
-- a height or failed without any block and not for the database; and 5 to 30 seconds if the database
-- failed; where fewer than 2^32 - 1 stalls at one height were counted before.
pub after_window_waits :
    {X : Type 0} (settings : WorkerConfig) (tip : ℕ) (window : FetchWindow)
    (r : Outcome X WindowOutcome × Database) (v : BlockIngestionDriver) (s : LoopState)
    → v.relief.stall_count < u32_modulus - 1
    → let p = after_window settings tip window r v in
      (shortest r.0 ≤ (after_sync p.0 p.1.relief s).backoff)
      × ((after_sync p.0 p.1.relief s).backoff ≤ longest r.0)
unfolding after_window after_sync shortest longest
after_window_waits settings tip window (ok outcome, d) v s h =
    stall_waits outcome.stalled_height outcome.projected_blocks v.relief h
after_window_waits settings tip window (err error, d) v s h =
    elim (Bool-cases (is_database_failure error)) [
      | inl e ↦ rw e (database_wait _ _ (omega arith))
      | inr e ↦ rw e (node_wait _ _ (register_stall_counts window.from_height v.relief h))
    ]
