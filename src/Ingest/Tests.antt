-- ===== src/Ingest/Tests.antt =====
-- A pass (crates/ingestion/src/driver.rs) over three heights, of which the third cannot be fetched.
use explorer_backend.Base.{All, [], arith, codes, if◌then◌else◌, leb, refl, ℕ, ◌+◌, ◌-◌, ◌<◌}
use explorer_backend.FetchPlan.{FetchWindow}
use explorer_backend.Ingest.{
  Database, Outcome, err, main_zero_state_boundary_height, ok, other, project_window_sequentially,
}
use explorer_backend.Ingest.Sequential.{Passes, project_window_sequentially-Passes}
use explorer_backend.Ingest.ZeroState.{project_window_sequentially-Above}

abbrev connected : ℕ → Outcome Unit (Unit {0})
connected height = ok tt

abbrev fetch_two : ℕ → Outcome Unit ℕ
fetch_two height = if leb height 6422602 then ok height else err (other tt)

abbrev written_always : ℕ → ℕ → Outcome Unit (Unit {0})
written_always height block = ok tt

abbrev three : FetchWindow
three = record { from_height = 6422601; to_height = 6422603; concurrency = 1 }

abbrev database : Database
database = record { current_height = 6422600; blocks = [] }

project_window_sequentially-Passes_example :
    Passes
      (codes "main")
      connected
      fetch_two
      written_always
      6422601
      0
      (6422603 + 1 - 6422601)
      database
      (project_window_sequentially
        (codes "main")
        connected
        fetch_two
        written_always
        three
        6422600
        database)
project_window_sequentially-Passes_example =
    project_window_sequentially-Passes (codes "main") connected fetch_two written_always three
      database (omega arith)

project_window_sequentially-Above_example :
    All
      (λ b. main_zero_state_boundary_height < b)
      (project_window_sequentially
        (codes "main")
        connected
        fetch_two
        written_always
        three
        6422600
        database).1.blocks
project_window_sequentially-Above_example =
    project_window_sequentially-Above (codes "main") connected fetch_two written_always three
      6422600 database refl tt
