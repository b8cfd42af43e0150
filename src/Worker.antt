-- ===== src/Worker.antt =====
-- The worker's block loop: `sync_once`, `guard_node_matches_db` and the loop of
-- `run_until_shutdown` in crates/ingestion/src/driver.rs. What the node, the pool and the fetch tasks
-- do in a pass is a parameter, one `Surroundings` for each pass.

pub mod CatchUp
pub mod Growth
pub mod Loop
pub mod Passes
pub mod Reaches
mod Tests
use explorer_backend.Base.{
  Bool, List, Option, Text, eq_ignore_ascii_case, if◌then◌else◌, leb, none, some, true, ℕ, ◌||◌,
  nat_eq,
}
use explorer_backend.FetchPlan.{
  FetchWindow, Plan, WorkerConfig, WorkerSyncMode, caught_up, empty_fetch_batch, fetch, normal,
  plan_fetch_window, sequential,
}
use explorer_backend.Ingest.{
  Database, IngestionError, Outcome, WindowOutcome, err, is_database_failure,
  main_zero_state_boundary_height, node_chain_mismatch, ok, project_window_sequentially,
  validate_zero_state_scope, ◌>>◌,
}
use explorer_backend.Ingest.Pipeline.{Progress, Turn, project_window_pipelined, returned, running}
use explorer_backend.Relief.{RpcReliefState, clear, register_progress, register_stall}

abbrev pub balance_sync_lag_threshold : ℕ
balance_sync_lag_threshold = 50

pub record Surroundings (X Block : Type 0) : Type 0 where
  pub get_block_height : Outcome X ℕ
  pub read_cursor : Outcome X (Unit {0})
  pub block_hash_at_height : ℕ → Outcome X (Option Text)
  pub get_block_by_height : ℕ → Outcome X Text
  pub connect : ℕ → Outcome X (Unit {0})
  pub fetch_decoded_block : ℕ → Outcome X Block
  pub write_block : ℕ → Block → Outcome X (Unit {0})
  pub turns : List (Turn X)

pub record BlockIngestionDriver : Type 0 where
  pub relief : RpcReliefState
  pub node_guard_checked : Bool
  pub database : Database

-- The fields that are not the same in each report.
pub record SyncBatchReport : Type 0 where
  pub rpc_tip_height : ℕ
  pub cursor_height_before : ℕ
  pub from_height : Option ℕ
  pub to_height : Option ℕ
  pub projected_blocks : ℕ
  pub cursor_height_after : ℕ
  pub fetch_concurrency : ℕ
  pub load_shed : Bool
  pub stalled_height : Option ℕ

-- `Some` result of a pass, or nothing where the pipeline has not come to an end.
abbrev pub Pass : Type 0 → Type 0
Pass X = Option (Outcome X SyncBatchReport × BlockIngestionDriver)

report_concurrency : WorkerSyncMode → FetchWindow → ℕ
report_concurrency normal window = window.concurrency
report_concurrency sequential window = 1
report_concurrency WorkerSyncMode.relief window = 1

-- `note_fetch_stall` and `note_fetch_progress`
note_outcome : Option ℕ → ℕ → RpcReliefState → RpcReliefState
note_outcome (some height) projected_blocks r = (register_stall height r).0
note_outcome none projected_blocks r = (register_progress projected_blocks r).0

-- What the pass makes of the window's outcome.
pub after_window :
    {X : Type 0}
    → WorkerConfig
    → ℕ
    → FetchWindow
    → Outcome X WindowOutcome × Database
    → BlockIngestionDriver
    → Outcome X SyncBatchReport × BlockIngestionDriver
after_window settings rpc_tip window (err error, d) v =
    let stalled =
      if is_database_failure error
      then v.relief
      else (register_stall window.from_height v.relief).0 in
    (err error, record v { relief = stalled; database = d })
after_window settings rpc_tip window (ok outcome, d) v = (
  ok (record {
    rpc_tip_height = rpc_tip;
    cursor_height_before = v.database.current_height;
    from_height = some window.from_height;
    to_height = some window.to_height;
    projected_blocks = outcome.projected_blocks;
    cursor_height_after = outcome.cursor_height_after;
    fetch_concurrency = report_concurrency settings.sync_mode window;
    load_shed = v.relief.active;
    stalled_height = outcome.stalled_height;
  }),
  record v {
    relief = note_outcome outcome.stalled_height outcome.projected_blocks v.relief;
    database = d;
  },
)

module _ {X : Type 0} (chain configured_nexus : Text) where
  -- The hashes of the cursor's block: the node's must be the stored one.
  compare_hashes :
      ℕ → Text → Text → BlockIngestionDriver → Outcome X (Unit {0}) × BlockIngestionDriver
  compare_hashes height db_hash node_hash v =
      if eq_ignore_ascii_case db_hash node_hash
      then (ok tt, record v { node_guard_checked = true })
      else (err (node_chain_mismatch height db_hash node_hash chain configured_nexus), v)

  compare_with_node :
      ℕ → Text → Outcome X Text → BlockIngestionDriver → Outcome X (Unit {0}) × BlockIngestionDriver
  compare_with_node height db_hash (err error) v = (err error, v)
  compare_with_node height db_hash (ok node_hash) v = compare_hashes height db_hash node_hash v

module _ {X Block : Type 0} (chain configured_nexus : Text) (settings : WorkerConfig) where
  compare_stored :
      Surroundings X Block
      → ℕ
      → Outcome X (Option Text)
      → BlockIngestionDriver
      → Outcome X (Unit {0}) × BlockIngestionDriver
  compare_stored w height (err error) v = (err error, v)
  compare_stored w height (ok none) v = (ok tt, v)
  compare_stored w height (ok (some db_hash)) v =
      compare_with_node chain configured_nexus height db_hash (w.get_block_by_height height) v

  unfoldable pub guard_node_matches_db :
      Surroundings X Block → ℕ → BlockIngestionDriver → Outcome X (Unit {0}) × BlockIngestionDriver
  unfolding compare_hashes compare_with_node compare_stored
  guard_node_matches_db w cursor_height v =
      if v.node_guard_checked || leb cursor_height main_zero_state_boundary_height
      then (ok tt, v)
      else compare_stored w cursor_height (w.block_hash_at_height cursor_height) v

  pub project_window_in :
      WorkerSyncMode → Surroundings X Block → FetchWindow → ℕ → Database → Progress X Block
  project_window_in normal w window cursor_height d =
      project_window_pipelined chain w.connect w.fetch_decoded_block w.write_block
        settings.queue_capacity w.turns window cursor_height d
  project_window_in sequential w window cursor_height d = returned (
      project_window_sequentially chain w.connect w.fetch_decoded_block w.write_block window
        cursor_height d)
  project_window_in WorkerSyncMode.relief w window cursor_height d = returned (
      project_window_sequentially chain w.connect w.fetch_decoded_block w.write_block window
        cursor_height d)

  pub finish_window : ℕ → FetchWindow → Progress X Block → BlockIngestionDriver → Pass X
  finish_window rpc_tip window (running p) v = none
  finish_window rpc_tip window (returned r) v = some (after_window settings rpc_tip window r v)

  pub follow_plan : Surroundings X Block → ℕ → Plan → BlockIngestionDriver → Pass X
  follow_plan w rpc_tip Plan.empty_fetch_batch v = some (err IngestionError.empty_fetch_batch, v)
  follow_plan w rpc_tip caught_up v = some (
    ok (record {
      rpc_tip_height = rpc_tip;
      cursor_height_before = v.database.current_height;
      from_height = none;
      to_height = none;
      projected_blocks = 0;
      cursor_height_after = v.database.current_height;
      fetch_concurrency = 0;
      load_shed = v.relief.active;
      stalled_height = none;
    }),
    record v { relief = (clear v.relief).0 },
  )
  follow_plan w rpc_tip (fetch window) v =
      finish_window rpc_tip window
        (project_window_in settings.sync_mode w window v.database.current_height v.database) v

  pub after_guard : Surroundings X Block → ℕ → Outcome X (Unit {0}) × BlockIngestionDriver → Pass X
  after_guard w rpc_tip (err error, v) = some (err error, v)
  after_guard w rpc_tip (ok u, v) =
      follow_plan w rpc_tip
        (plan_fetch_window v.database.current_height rpc_tip settings v.relief.active) v

  pub after_scope : Surroundings X Block → ℕ → Outcome X (Unit {0}) → BlockIngestionDriver → Pass X
  after_scope w rpc_tip (err error) v = some (err error, v)
  after_scope w rpc_tip (ok u) v =
      after_guard w rpc_tip (guard_node_matches_db w v.database.current_height v)

  pub after_tip : Surroundings X Block → Outcome X ℕ → BlockIngestionDriver → Pass X
  after_tip w (err error) v = some (err error, v)
  after_tip w (ok rpc_tip) v =
      after_scope w rpc_tip
        (w.read_cursor >> validate_zero_state_scope chain v.database.current_height) v

  unfoldable pub sync_once : Surroundings X Block → BlockIngestionDriver → Pass X
  unfolding after_tip after_scope after_guard follow_plan finish_window after_window note_outcome
      report_concurrency project_window_in
  sync_once w v = after_tip w w.get_block_height v
