-- ===== src/Ingest/Pipeline/Equivalence.antt =====
-- `project_window_pipelined` against `project_window_sequentially`
-- (crates/ingestion/src/driver.rs).
use explorer_backend.Base.{
  All, List, Text, [], arith, codes, false, length, refl, some, text_beq, true, ℕ, ◌*◌, ◌+◌, ◌-◌,
  ◌<◌, ◌≡◌, ◌≢◌, ◌≤◌, nat_eq,
}
use explorer_backend.Base.Map.{lookup}
use explorer_backend.FetchPlan.{FetchWindow}
use explorer_backend.Ingest.{
  Database, IngestionError, Outcome, err, is_database_failure, main_zero_state_boundary_height, ok,
  project_window_sequentially,
}
use explorer_backend.Ingest.Pipeline.{Turn, limits_of, project_window_pipelined, returned, start}
use explorer_backend.Ingest.Pipeline.Rounds.{CalmTurn, rounds-whole}

-- The node and the pool answer as they should: a block's connection is had, and a fetch fails
-- with no database error.
pub record Reliable {X Block : Type 0} (connect : ℕ → Outcome X (Unit {0}))
    (fetch_decoded_block : ℕ → Outcome X Block) : Type 0 where
  pub connected : (height : ℕ) → connect height ≡ ok tt
  pub no_database_failure :
      (height : ℕ) (error : IngestionError X)
      → fetch_decoded_block height ≡ err error
      → is_database_failure error ≡ false

nothing_ready : {V : Type 0} (h : ℕ) (b : V) → lookup h [] ≢ some b
unfolding lookup
nothing_ready h b e = cc e

-- The window starts above the cursor, which is not below the zero state.
pub record Starts (chain : Text) (window : FetchWindow) (d : Database) : Type 0 where
  pub not_empty : window.from_height ≤ window.to_height
  pub above_cursor : d.current_height < window.from_height
  pub beyond_zero_state :
      text_beq chain (codes "main") ≡ true → main_zero_state_boundary_height ≤ d.current_height

module _ {X Block : Type 0} (chain : Text) (connect : ℕ → Outcome X (Unit {0}))
    (fetch_decoded_block : ℕ → Outcome X Block)
    (write_block : ℕ → Block → Outcome X (Unit {0})) where
  -- With no panic, a pipelined pass over a window of `n` heights ends after at most `3 n + 1` rounds
  -- with the result and the database of the sequential pass, whichever fetches finish when and
  -- whichever cancelled ones still come back, if a block's connection is had, the fetches fail with
  -- no database error, and the window starts above a cursor that is not below the zero state.
  pub project_window_pipelined-eq-sequentially :
      (queue_capacity : ℕ) (turns : List (Turn X)) (window : FetchWindow) (cursor_height : ℕ)
      (d : Database)
      → Reliable connect fetch_decoded_block
      → Starts chain window d
      → All CalmTurn turns
      → 3 * (window.to_height + 1 - window.from_height) < length turns
      → project_window_pipelined chain connect fetch_decoded_block write_block queue_capacity turns
          window cursor_height d
        ≡ returned (
            project_window_sequentially chain connect fetch_decoded_block write_block window
              cursor_height d)
  unfolding project_window_pipelined project_window_sequentially limits_of start
  project_window_pipelined-eq-sequentially queue_capacity turns window cursor_height d reliable
        starts calm enough =
      rounds-whole chain connect fetch_decoded_block write_block window.from_height
        (limits_of queue_capacity window) _ reliable.connected reliable.no_database_failure
        (omega arith) (omega arith) turns (start window cursor_height d) calm
        (
          record {
            started = omega arith;
            ordered = omega arith;
            in_window = omega (arith, starts.not_empty);
            written = λ h above below. absurd (omega (arith, above, below));
            sound = λ h b found. absurd (nothing_ready h b found);
            owned = tt;
            failing = λ f e failed. absurd (cc failed);
          },
          λ h above below fine. absurd (omega (arith, above, below)),
        )
        (record {
          same = refl;
          above = starts.above_cursor;
          beyond_zero_state = starts.beyond_zero_state;
        })
        (omega arith)
