-- ===== src/FetchPlan/Tests.antt =====
-- A fetch window (crates/ingestion/src/lib.rs) planned while shedding load.
use explorer_backend.Base.{arith, some, true, ◌<◌, ◌≡◌, ◌≢◌, ◌≤◌, ◌⊎◌}
use explorer_backend.FetchPlan.{
  FetchWindow, WorkerConfig, caught_up, empty_fetch_batch, fetch, normal, plan_fetch_window, relief,
  target_tip,
}
use explorer_backend.FetchPlan.Laws.{Fits, plan_fetch_window-Fits}

abbrev settings : WorkerConfig
settings = record {
  queue_capacity = 64;
  fetch_batch_size = 100;
  fetch_concurrency = 8;
  sync_mode = normal;
  inter_block_delay = 0;
  batch_delay = 0;
  height_limit = some 5000;
}

plan_fetch_window-Fits_example :
    ((settings.fetch_batch_size ≡ 0) × (plan_fetch_window 10 900 settings true ≡ empty_fetch_batch))
    ⊎ ((settings.fetch_batch_size ≢ 0)
        × (target_tip (some 5000) 900 ≤ 10)
        × (plan_fetch_window 10 900 settings true ≡ caught_up))
    ⊎ ((w : FetchWindow) × (settings.fetch_batch_size ≢ 0)
        × (10 < target_tip (some 5000) 900)
        × (plan_fetch_window 10 900 settings true ≡ fetch w)
        × Fits 10 (target_tip (some 5000) 900) 100 w
        × ((true ≡ true) ⊎ (settings.sync_mode ≡ relief)
            → (w.to_height ≡ w.from_height) × (w.concurrency ≡ 1)))
plan_fetch_window-Fits_example =
    plan_fetch_window-Fits 10 900 settings true (omega arith) (omega arith)
