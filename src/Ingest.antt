-- ===== src/Ingest.antt =====
-- The sequential block projection of crates/ingestion/src/driver.rs over the cursor of
-- crates/db/src/lib.rs. What the pool, the node and a block's transaction come back with at a height
-- are parameters; the database is its cursor with the heights of the committed blocks.
pub mod Pipeline
pub mod Refetch
pub mod Sequential
pub mod ZeroState
mod Tests
use explorer_backend.Base.{
  Bool, List, Option, Text, codes, false, if◌then◌else◌, leb, ltb, max, none, not, some, suc,
  text_beq, true, zero, ℕ, ◌&&◌, ◌+◌, ◌-◌, ◌∷◌,
}
use explorer_backend.FetchPlan.{FetchWindow}

abbrev pub main_zero_state_boundary_height : ℕ
main_zero_state_boundary_height = 6422526

-- The errors that the driver tells apart; `other` is any of the rest.
pub data IngestionError (X : Type 0) : Type 0 where
  db : X → IngestionError X
  sqlx : X → IngestionError X
  protected_zero_state_cursor_below_boundary :
      (chain : Text) (cursor_height boundary_height : ℕ) → IngestionError X
  protected_zero_state_block : (chain : Text) (height boundary_height : ℕ) → IngestionError X
  empty_fetch_batch : IngestionError X
  node_chain_mismatch :
      (height : ℕ) (db_hash node_hash chain configured_nexus : Text) → IngestionError X
  event_payload_decode :
      (height transaction_index event_index : ℕ) (event_kind : Text) → IngestionError X
  other : X → IngestionError X

pub data Outcome (X A : Type 0) : Type 0 where
  ok : A → Outcome X A
  err : IngestionError X → Outcome X A

-- The cursor, and the committed heights, the latest first.
pub record Database : Type 0 where
  pub current_height : ℕ
  pub blocks : List ℕ

pub record WindowOutcome : Type 0 where
  pub projected_blocks : ℕ
  pub cursor_height_after : ℕ
  pub stalled_height : Option ℕ

unfoldable pub is_database_failure : {X : Type 0} → IngestionError X → Bool
is_database_failure (db x) = true
is_database_failure (sqlx x) = true
is_database_failure (protected_zero_state_cursor_below_boundary chain cursor boundary) = false
is_database_failure (protected_zero_state_block chain height boundary) = false
is_database_failure empty_fetch_batch = false
is_database_failure (node_chain_mismatch height db_hash node_hash chain configured_nexus) = false
is_database_failure (event_payload_decode height tx_index event_index event_kind) = false
is_database_failure (other x) = false

unfoldable pub keeps_committed_prefix : {X : Type 0} → ℕ → IngestionError X → Bool
unfolding is_database_failure
keeps_committed_prefix projected_blocks error =
    ltb 0 projected_blocks && not (is_database_failure error)

unfoldable pub validate_zero_state_scope : {X : Type 0} → Text → ℕ → Outcome X (Unit {0})
validate_zero_state_scope chain cursor =
    if text_beq chain (codes "main") && ltb cursor main_zero_state_boundary_height
    then err
        (protected_zero_state_cursor_below_boundary chain cursor main_zero_state_boundary_height)
    else ok tt

unfoldable pub validate_projected_height : {X : Type 0} → Text → ℕ → Outcome X (Unit {0})
validate_projected_height chain height =
    if text_beq chain (codes "main") && leb height main_zero_state_boundary_height
    then err (protected_zero_state_block chain height main_zero_state_boundary_height)
    else ok tt

infixl 5 ◌>>=◌ ◌>>◌
abbrev pub ◌>>=◌ : {X A B : Type 0} → Outcome X A → (A → Outcome X B) → Outcome X B
ok a >>= f = f a
err e >>= f = err e

abbrev pub ◌>>◌ : {X B : Type 0} → Outcome X (Unit {0}) → Outcome X B → Outcome X B
m >> k = m >>= λ u. k

-- `greatest(current_height, $2)`
unfoldable pub advance_cursor : ℕ → Database → Database
advance_cursor height d = record d { current_height = max d.current_height height }

module _ {X Block : Type 0} (chain : Text) (connect : ℕ → Outcome X (Unit {0}))
    (fetch_decoded_block : ℕ → Outcome X Block)
    (write_block : ℕ → Block → Outcome X (Unit {0})) where
  -- The block's transaction: all of its writes with the cursor, or none of them.
  unfoldable pub commit_block : ℕ → Database → Outcome X (Unit {0}) → Outcome X ℕ × Database
  commit_block height d (err error) = (err error, d)
  commit_block height d (ok u) =
      let after = advance_cursor height (record d { blocks = height ∷ d.blocks }) in
      (ok after.current_height, after)

  unfoldable pub project_raw_block_and_advance_cursor : ℕ → Database → Outcome X ℕ × Database
  unfolding commit_block advance_cursor validate_zero_state_scope validate_projected_height
  project_raw_block_and_advance_cursor height d = commit_block height d (do
    connect height
    validate_zero_state_scope chain d.current_height
    validate_projected_height chain height
    block ← fetch_decoded_block height
    write_block height block)

  abbrev outcome : ℕ → ℕ → Option ℕ → Outcome X WindowOutcome
  outcome projected cursor stalled = ok (record {
    projected_blocks = projected;
    cursor_height_after = cursor;
    stalled_height = stalled;
  })

  -- What a projected block, or a failed one, means for the loop.
  abbrev on_block :
      ℕ
      → ℕ
      → ℕ
      → Outcome X ℕ × Database
      → (ℕ → Database → Outcome X WindowOutcome × Database)
      → Outcome X WindowOutcome × Database
  on_block height projected cursor (ok advanced, d) continue = continue advanced d
  on_block height projected cursor (err error, d) continue =
      if keeps_committed_prefix projected error
      then (outcome projected cursor (some height), d)
      else (err error, d)

  -- The loop over the heights; the last argument is the number of heights left.
  unfoldable pub project_from : ℕ → ℕ → ℕ → Database → ℕ → Outcome X WindowOutcome × Database
  project_from height projected cursor d zero = (outcome projected cursor none, d)
  project_from height projected cursor d (suc left) =
      on_block height projected cursor (project_raw_block_and_advance_cursor height d)
        λ advanced after. project_from (suc height) (projected + 1) advanced after left

  unfoldable pub project_window_sequentially :
      FetchWindow → ℕ → Database → Outcome X WindowOutcome × Database
  unfolding project_from
  project_window_sequentially window cursor_height d =
      project_from window.from_height 0 cursor_height d (window.to_height + 1 - window.from_height)
