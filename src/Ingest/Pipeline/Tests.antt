-- ===== src/Ingest/Pipeline/Tests.antt =====
-- Pipelined passes (crates/ingestion/src/driver.rs) over three heights, of which the third cannot be
-- fetched, and whose fetches finish out of order.
use explorer_backend.Base.{
  All, List, [], arith, codes, false, if◌then◌else◌, leb, length, max, none, refl, replicate, some,
  suc, true, zero, ℕ, ◌+◌, ◌∷◌, ◌≡◌, ◌≤◌, nat_eq,
}
use explorer_backend.Base.Map.{insert, lookup, remove}
use explorer_backend.FetchPlan.{FetchWindow}
use explorer_backend.Ingest.{
  Database, IngestionError, Outcome, advance_cursor, err, is_database_failure,
  keeps_committed_prefix, ok, other, project_window_sequentially,
}
use explorer_backend.Ingest.Pipeline.{
  Pick, Pipe, Progress, Turn, abort_from, drain, finish, harvest_all, is_some, join_next, joined,
  limits_of, may_spawn, on_written, pick_task, project_window_pipelined, record_fetched,
  record_result, returned, round, rounds, spawn, start, supersedes, top_up, wait_or_finish,
  window_outcome, write_decoded_block,
}
use explorer_backend.Ingest.Pipeline.Rounds.{CalmTurn}
use explorer_backend.Ingest.Pipeline.Equivalence.{project_window_pipelined-eq-sequentially}
use explorer_backend.Ingest.Pipeline.Sane.{Prefix}
use explorer_backend.Ingest.Pipeline.Prefix.{
  project_window_pipelined-Prefix, project_window_pipelined_bounded,
}

abbrev connected : ℕ → Outcome Unit (Unit {0})
connected height = ok tt

abbrev fetch_two : ℕ → Outcome Unit ℕ
fetch_two height = if leb height 6422602 then ok height else err (other tt)

abbrev written_always : ℕ → ℕ → Outcome Unit (Unit {0})
written_always height block = ok tt

abbrev three : FetchWindow
three = record { from_height = 6422601; to_height = 6422603; concurrency = 3 }

abbrev database : Database
database = record { current_height = 6422600; blocks = [] }

-- The fetch that was started first, whether or not it was cancelled.
abbrev oldest : Pick Unit
oldest = record { index = 9; cancelled = false; panic = none }

-- The fetch that was started last.
abbrev newest : Pick Unit
newest = record { index = 0; cancelled = true; panic = none }

abbrev crashed : Pick Unit
crashed = record { index = 0; cancelled = false; panic = some tt }

abbrev mixed : Turn Unit
mixed = record { harvest = newest ∷ []; wait = oldest }

abbrev one_by_one : Turn Unit
one_by_one = record { harvest = []; wait = oldest }

abbrev pass : List (Turn Unit) → Progress Unit ℕ
pass turns =
    project_window_pipelined (codes "main") connected fetch_two written_always 2 turns three 6422600
      database

abbrev two_blocks : Database
two_blocks = record { current_height = 6422602; blocks = 6422602 ∷ 6422601 ∷ [] }

-- The failed height is fetched first, and the two below it are still written.
out_of_order :
    pass (replicate 10 mixed) ≡ returned (window_outcome 2 6422602 (some 6422603), two_blocks)
unfolding project_window_pipelined start limits_of rounds round top_up may_spawn spawn harvest_all
    join_next joined pick_task abort_from record_fetched record_result supersedes drain
    write_decoded_block on_written wait_or_finish finish lookup insert remove is_some advance_cursor
    keeps_committed_prefix is_database_failure
out_of_order = refl

fetch_two-harmless :
    (height : ℕ) (error : IngestionError Unit)
    → fetch_two height ≡ err error
    → is_database_failure error ≡ false
unfolding is_database_failure
fetch_two-harmless height error e = ground arith

replicate-calm : (n : ℕ) → All CalmTurn (replicate n mixed)
replicate-calm zero = tt
replicate-calm (suc n) = (((refl, tt), refl), replicate-calm n)

project_window_pipelined-eq-sequentially_example :
    project_window_pipelined
      (codes "main")
      connected
      fetch_two
      written_always
      2
      (replicate 10 mixed)
      three
      6422600
      database
    ≡ returned (
        project_window_sequentially
          (codes "main")
          connected
          fetch_two
          written_always
          three
          6422600
          database)
project_window_pipelined-eq-sequentially_example =
    project_window_pipelined-eq-sequentially (codes "main") connected fetch_two written_always 2
      (replicate 10 mixed) three 6422600 database
      (record { connected = λ height. refl; no_database_failure = fetch_two-harmless })
      (record {
        not_empty = omega arith;
        above_cursor = omega arith;
        beyond_zero_state = λ main. omega arith;
      })
      (replicate-calm 10) (omega arith)

-- The first fetch has come back, and the two others run.
abbrev one_back : Pipe Unit ℕ
one_back = record {
  tasks =
      record { height = 6422603; aborted = false }
      ∷ record { height = 6422602; aborted = false }
      ∷ [];
  in_flight = 6422603 ∷ 6422602 ∷ [];
  ready = (6422601, 6422601) ∷ [];
  next_to_spawn = 6422604;
  next_to_write = 6422601;
  projected_blocks = 0;
  cursor_height_after = 6422600;
  fetch_error = none;
  database = database;
}

project_window_pipelined_bounded_example :
    let q = top_up (limits_of 2 three) 1 one_back in
    (length q.tasks ≤ max three.concurrency 1)
    × (length q.tasks + length q.ready ≤ max 2 (max three.concurrency 1))
unfolding project_window_pipelined start limits_of rounds round top_up may_spawn spawn harvest_all
    join_next joined pick_task abort_from record_fetched record_result supersedes drain
    write_decoded_block on_written wait_or_finish finish lookup insert remove is_some advance_cursor
    keeps_committed_prefix is_database_failure
project_window_pipelined_bounded_example =
    project_window_pipelined_bounded (codes "main") connected fetch_two written_always 2 three
      database (omega arith) (one_by_one ∷ []) 6422600 1 one_back refl

abbrev panicking : Turn Unit
panicking = record { harvest = []; wait = crashed }

project_window_pipelined-Prefix_example :
    Prefix
      (limits_of 2 three)
      database
      6422601
      (err (other tt), record { current_height = 6422601; blocks = 6422601 ∷ [] })
unfolding project_window_pipelined start limits_of rounds round top_up may_spawn spawn harvest_all
    join_next joined pick_task abort_from record_fetched record_result supersedes drain
    write_decoded_block on_written wait_or_finish finish lookup insert remove is_some advance_cursor
    keeps_committed_prefix is_database_failure
project_window_pipelined-Prefix_example =
    project_window_pipelined-Prefix (codes "main") connected fetch_two written_always 2 three
      database (omega arith) (one_by_one ∷ panicking ∷ []) 6422600 _ refl
