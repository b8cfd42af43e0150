-- ===== src/FetchPlan.antt =====
-- The fetch window: `plan_fetch_window` of crates/ingestion/src/lib.rs over the worker settings of
-- crates/config/src/lib.rs. Heights and counts are 64-bit.
pub mod Laws
mod Tests
use explorer_backend.Base.{
  Bool, Option, if◌then◌else◌, leb, ltb, max, min, none, some, ℕ, ◌+◌, ◌-◌, ◌==◌,
}

abbrev pub u64_max : ℕ
u64_max = 18446744073709551615

-- `u64::saturating_add`
abbrev pub saturating_add_u64 : ℕ → ℕ → ℕ
saturating_add_u64 a b = if leb (a + b) u64_max then a + b else u64_max

pub data WorkerSyncMode : Type 0 where
  sequential normal relief : WorkerSyncMode

-- Delays are in milliseconds.
pub record WorkerConfig : Type 0 where
  pub queue_capacity : ℕ
  pub fetch_batch_size : ℕ
  pub fetch_concurrency : ℕ
  pub sync_mode : WorkerSyncMode
  pub inter_block_delay : ℕ
  pub batch_delay : ℕ
  pub height_limit : Option ℕ

batch_size_in : WorkerSyncMode → ℕ → ℕ
batch_size_in relief size = 1
batch_size_in sequential size = size
batch_size_in normal size = size

concurrency_in : WorkerSyncMode → ℕ → ℕ
concurrency_in relief n = 1
concurrency_in sequential n = max n 1
concurrency_in normal n = max n 1

unfoldable pub effective_fetch_batch_size : WorkerConfig → ℕ
unfolding batch_size_in
effective_fetch_batch_size settings = batch_size_in settings.sync_mode settings.fetch_batch_size

unfoldable pub effective_fetch_concurrency : WorkerConfig → ℕ
unfolding concurrency_in
effective_fetch_concurrency settings = concurrency_in settings.sync_mode settings.fetch_concurrency

pub record FetchWindow : Type 0 where
  pub from_height : ℕ
  pub to_height : ℕ
  pub concurrency : ℕ

-- `Err(EmptyFetchBatch)`, `Ok(None)` and `Ok(Some(window))`.
pub data Plan : Type 0 where
  empty_fetch_batch : Plan
  caught_up : Plan
  fetch : FetchWindow → Plan

unfoldable pub target_tip : Option ℕ → ℕ → ℕ
target_tip none rpc_tip = rpc_tip
target_tip (some limit) rpc_tip = min limit rpc_tip

window_from : ℕ → ℕ → ℕ → ℕ → FetchWindow
window_from next target batch_size requested =
    let to = min (saturating_add_u64 next (batch_size - 1)) target in
    record {
      from_height = next;
      to_height = to;
      concurrency = min requested (saturating_add_u64 (to - next) 1);
    }

unfoldable pub plan_fetch_window : ℕ → ℕ → WorkerConfig → Bool → Plan
unfolding effective_fetch_batch_size effective_fetch_concurrency target_tip window_from
plan_fetch_window current_height rpc_tip settings load_shed =
    let target = target_tip settings.height_limit rpc_tip in
    let next = saturating_add_u64 current_height 1 in
    if settings.fetch_batch_size == 0
    then empty_fetch_batch
    else if ltb target next
    then caught_up
    else fetch (
        window_from next target (if load_shed then 1 else effective_fetch_batch_size settings)
          (if load_shed then 1 else effective_fetch_concurrency settings))
