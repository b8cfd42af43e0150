-- ===== src/Worker/Loop/Tests.antt =====
-- The block loop (crates/ingestion/src/driver.rs) after a report, a stall and two failures.
use explorer_backend.Base.{
  [], arith, false, min, none, refl, some, true, ◌-◌, ◌∷◌, ◌≡◌, ◌≤◌, nat_eq,
}
use explorer_backend.FetchPlan.{FetchWindow, WorkerConfig, normal}
use explorer_backend.Ingest.{Database, Outcome, WindowOutcome, err, ok, other, sqlx}
use explorer_backend.Relief.{relief_default, u32_modulus}
use explorer_backend.Worker.{BlockIngestionDriver, SyncBatchReport, after_window}
use explorer_backend.Worker.Loop.{after_sync, loop_start}
use explorer_backend.Worker.Loop.Latest.{
  Results, after_results, after_results-by_latest, failures, far_behind, latest_lag, latest_report,
  rests_at_tip,
}
use explorer_backend.Worker.Loop.Waits.{after_window_waits, longest, shortest}

abbrev behind : SyncBatchReport
behind = record {
  rpc_tip_height = 900;
  cursor_height_before = 700;
  from_height = some 701;
  to_height = some 720;
  projected_blocks = 20;
  cursor_height_after = 720;
  fetch_concurrency = 4;
  load_shed = false;
  stalled_height = none;
}

abbrev results : Results Unit
results =
    (err (other tt), relief_default)
    ∷ (err (sqlx tt), relief_default)
    ∷ (ok behind, relief_default)
    ∷ []

after_results-by_latest_example : after_results results ≡ record {
  consecutive_sync_failures = min (failures results) (u32_modulus - 1);
  maintenance_paused = far_behind (latest_report results);
  caught_up_logged = rests_at_tip (latest_report results);
  lag = latest_lag (latest_report results);
}
after_results-by_latest_example = after_results-by_latest results

paused_after_failures : after_results results ≡ record {
  consecutive_sync_failures = 2;
  maintenance_paused = true;
  caught_up_logged = false;
  lag = 180;
}
unfolding after_results after_sync
paused_after_failures = refl

abbrev settings : WorkerConfig
settings = record {
  queue_capacity = 2;
  fetch_batch_size = 2;
  fetch_concurrency = 2;
  sync_mode = normal;
  inter_block_delay = 0;
  batch_delay = 0;
  height_limit = none;
}

abbrev window : FetchWindow
window = record { from_height = 701; to_height = 702; concurrency = 2 }

abbrev stalled : Outcome Unit WindowOutcome × Database
stalled = (
  ok (record { projected_blocks = 1; cursor_height_after = 701; stalled_height = some 702 }),
  record { current_height = 701; blocks = 701 ∷ [] },
)

abbrev driver : BlockIngestionDriver
driver = record {
  relief = relief_default;
  node_guard_checked = true;
  database = record { current_height = 700; blocks = [] };
}

after_window_waits_example :
    (shortest stalled.0
      ≤ (after_sync
          (after_window settings 900 window stalled driver).0
          (after_window settings 900 window stalled driver).1.relief
          loop_start).backoff)
    × ((after_sync
          (after_window settings 900 window stalled driver).0
          (after_window settings 900 window stalled driver).1.relief
          loop_start).backoff
        ≤ longest stalled.0)
after_window_waits_example =
    after_window_waits settings 900 window stalled driver loop_start (omega arith)
