-- ===== src/Relief/Tests.antt =====
-- The relief state (crates/ingestion/src/driver.rs) after a short history, and one failed pass.
use explorer_backend.Base.{List, [], arith, false, true, ◌∷◌, ◌≤◌}
use explorer_backend.Relief.{failed_pass_backoff}
use explorer_backend.Relief.Backoff.{failed_pass_backoff_bounds, stall_wait}
use explorer_backend.Relief.History.{ReliefCall, progressed, stalled}

abbrev history : List ReliefCall
history = progressed 3 ∷ stalled 70 ∷ stalled 70 ∷ progressed 5 ∷ stalled 69 ∷ []

failed_pass_backoff_bounds_example :
    (failed_pass_backoff 2 3 false ≤ failed_pass_backoff 2 7 false)
    × (failed_pass_backoff 2 3 false ≤ 300)
    × (failed_pass_backoff 2 3 true ≤ 30)
    × (stall_wait 3 ≤ failed_pass_backoff 2 3 false)
failed_pass_backoff_bounds_example = failed_pass_backoff_bounds 2 3 7 false (omega arith)
