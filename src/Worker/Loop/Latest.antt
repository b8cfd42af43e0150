-- ===== src/Worker/Loop/Latest.antt =====
-- The state of the block loop (crates/ingestion/src/driver.rs) by the results of its passes.
use explorer_backend.Base.{
  Bool, List, Option, [], arith, false, leb, ltb, min, none, refl, some, suc, ℕ, ◌&&◌, ◌+◌, ◌-◌,
  ◌==◌, ◌∷◌, ◌≡◌, nat_eq,
}
use explorer_backend.FetchPlan.{u64_max}
use explorer_backend.Ingest.{Outcome, err, ok}
use explorer_backend.Relief.{RpcReliefState, u32_modulus}
use explorer_backend.Worker.{SyncBatchReport}
use explorer_backend.Worker.Loop.{
  LoopState, after_sync, logs_caught_up, loop_start, near_tip, pauses,
}

-- The results of passes with the relief state after each, the latest first.
abbrev pub Results : Type 0 → Type 0
Results X = List (Outcome X SyncBatchReport × RpcReliefState)

unfoldable pub after_results : {X : Type 0} → Results X → LoopState
after_results [] = loop_start
after_results ((o, relief) ∷ rest) = (after_sync o relief (after_results rest)).state

-- The failures since the latest report.
pub failures : {X : Type 0} → Results X → ℕ
failures [] = 0
failures ((ok report, relief) ∷ rest) = 0
failures ((err error, relief) ∷ rest) = suc (failures rest)

pub latest_report : {X : Type 0} → Results X → Option SyncBatchReport
latest_report [] = none
latest_report ((ok report, relief) ∷ rest) = some report
latest_report ((err error, relief) ∷ rest) = latest_report rest

pub latest_lag : Option SyncBatchReport → ℕ
latest_lag none = u64_max
latest_lag (some report) = report.rpc_tip_height - report.cursor_height_after

-- More than 50 blocks behind.
pub far_behind : Option SyncBatchReport → Bool
far_behind none = false
far_behind (some report) = ltb 50 (report.rpc_tip_height - report.cursor_height_after)

-- At the tip, without new blocks.
pub rests_at_tip : Option SyncBatchReport → Bool
rests_at_tip none = false
rests_at_tip (some report) =
    (report.projected_blocks == 0) && leb report.rpc_tip_height report.cursor_height_after

pauses-far_behind :
    (report : SyncBatchReport) (b : Bool)
    → pauses (near_tip (report.rpc_tip_height - report.cursor_height_after)) b
      ≡ far_behind (some report)
unfolding pauses near_tip far_behind
pauses-far_behind report b = ground arith

logs_caught_up-rests_at_tip :
    (report : SyncBatchReport) (b : Bool) → logs_caught_up report b ≡ rests_at_tip (some report)
unfolding logs_caught_up rests_at_tip
logs_caught_up-rests_at_tip report b = ground arith

-- After any passes, the loop's failure counter is the number of failures since the latest report, at
-- most the last number of 32 bits; the lag that is published is that of the latest report, or the
-- last number of 64 bits before the first one; the flag by which the loop logs a pause of maintenance
-- is set exactly if that report is more than 50 blocks behind the tip, and the tip counts as announced
-- exactly if that report is at the tip and has no new block.
pub after_results-by_latest :
    {X : Type 0} (rs : Results X)
    → after_results rs ≡ record {
      consecutive_sync_failures = min (failures rs) (u32_modulus - 1);
      maintenance_paused = far_behind (latest_report rs);
      caught_up_logged = rests_at_tip (latest_report rs);
      lag = latest_lag (latest_report rs);
    }
unfolding after_results after_sync failures latest_report latest_lag far_behind rests_at_tip
after_results-by_latest [] = refl
after_results-by_latest ((ok report, relief) ∷ rest) =
    rw
      (
        pauses-far_behind report (after_results rest).maintenance_paused,
        logs_caught_up-rests_at_tip report (after_results rest).caught_up_logged,
      )
      refl
after_results-by_latest ((err error, relief) ∷ rest) =
    let counted : min (min (failures rest) (u32_modulus - 1) + 1) (u32_modulus - 1)
        ≡ min (suc (failures rest)) (u32_modulus - 1) =
      omega arith in
    rw (after_results-by_latest rest, counted) refl
