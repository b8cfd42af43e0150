-- ===== src/Worker/Tests.antt =====
-- The worker (crates/ingestion/src/driver.rs) three blocks behind the tip, in load-shed mode.
use explorer_backend.Base.{
  All, List, [], arith, codes, false, none, refl, replicate, some, suc, true, zero, ℕ, ◌<◌, ◌≡◌,
  nat_eq,
}
use explorer_backend.FetchPlan.{WorkerConfig, normal, target_tip, u64_max}
use explorer_backend.Ingest.{ok}
use explorer_backend.Ingest.Pipeline.{Pick, Turn}
use explorer_backend.Ingest.Pipeline.Rounds.{CalmTurn}
use explorer_backend.Worker.{BlockIngestionDriver, Surroundings}
use explorer_backend.Worker.Growth.{Grows}
use explorer_backend.Worker.Passes.{run_passes-Grows}
use explorer_backend.Worker.CatchUp.{Serves}
use explorer_backend.Worker.Reaches.{Reaches, run_passes-Reaches}

abbrev oldest : Pick Unit
oldest = record { index = 9; cancelled = false; panic = none }

abbrev one_by_one : Turn Unit
one_by_one = record { harvest = []; wait = oldest }

abbrev around : Surroundings Unit ℕ
around = record {
  get_block_height = ok 6422603;
  read_cursor = ok tt;
  block_hash_at_height = λ height. ok (some (codes "AB"));
  get_block_by_height = λ height. ok (codes "AB");
  connect = λ height. ok tt;
  fetch_decoded_block = λ height. ok height;
  write_block = λ height block. ok tt;
  turns = replicate 7 one_by_one;
}

abbrev settings : WorkerConfig
settings = record {
  queue_capacity = 2;
  fetch_batch_size = 2;
  fetch_concurrency = 2;
  sync_mode = normal;
  inter_block_delay = 0;
  batch_delay = 0;
  height_limit = none;
}

abbrev shedding : BlockIngestionDriver
shedding = record {
  relief = record {
    active = true;
    committed_streak = 0;
    stalled_height = 6422601;
    stall_count = 2;
  };
  node_guard_checked = false;
  database = record { current_height = 6422600; blocks = [] };
}

replicate-calm : (n : ℕ) → All CalmTurn (replicate n one_by_one)
replicate-calm zero = tt
replicate-calm (suc n) = ((tt, refl), replicate-calm n)

serves : Serves settings 6422603 around
serves = record {
  tip_known = refl;
  cursor_read = refl;
  same_chain = λ height. (codes "AB", refl, refl);
  connected = λ height. refl;
  served = λ height. (height, refl, refl);
  calm = replicate-calm 7;
  enough = omega arith;
}

abbrev passes : List (Surroundings Unit ℕ)
passes = replicate 4 around

run_passes-Reaches_example :
    Reaches
      (codes "main")
      (codes "mainnet")
      settings
      6422603
      (omega arith)
      (omega arith)
      passes
      shedding
unfolding target_tip
run_passes-Reaches_example =
    run_passes-Reaches (codes "main") (codes "mainnet") settings 6422603 (omega arith) (omega arith)
      passes shedding (serves, (serves, (serves, (serves, tt)))) (λ main. omega arith) (omega arith)
      (omega arith)

small_tip : (tip : ℕ) → around.get_block_height ≡ ok tip → tip < u64_max
small_tip tip e = ground arith

reached :
    Reaches
      (codes "main")
      (codes "mainnet")
      settings
      6422603
      (omega arith)
      (omega arith)
      passes
      shedding
unfolding target_tip
reached =
    run_passes-Reaches (codes "main") (codes "mainnet") settings 6422603 (omega arith) (omega arith)
      passes shedding (serves, (serves, (serves, (serves, tt)))) (λ main. omega arith) (omega arith)
      (omega arith)

run_passes-Grows_example : Grows shedding.database reached.after.database
run_passes-Grows_example =
    run_passes-Grows (codes "main") (codes "mainnet") settings passes shedding reached.after
      (small_tip, (small_tip, (small_tip, (small_tip, tt)))) (omega arith) reached.ran
