-- ===== src/Ingest/ZeroState.antt =====
-- The zero-state boundary of `main` in `project_window_sequentially`
-- (crates/ingestion/src/driver.rs).
use explorer_backend.Base.{
  All, List, Text, arith, codes, refl, suc, text_beq, true, zero, ℕ, ◌+◌, ◌-◌, ◌<◌, ◌≡◌,
}
use explorer_backend.FetchPlan.{FetchWindow}
use explorer_backend.Ingest.{
  Database, Outcome, WindowOutcome, advance_cursor, commit_block, err,
  main_zero_state_boundary_height, ok, on_block, project_from, project_raw_block_and_advance_cursor,
  project_window_sequentially, validate_projected_height, validate_zero_state_scope, ◌>>=◌, ◌>>◌,
}

module _ {X Block : Type 0} (chain : Text) (connect : ℕ → Outcome X (Unit {0}))
    (fetch_decoded_block : ℕ → Outcome X Block)
    (write_block : ℕ → Block → Outcome X (Unit {0})) where
  abbrev Above : List ℕ → Type 0
  Above blocks = All (λ b. main_zero_state_boundary_height < b) blocks

  checked-above :
      (height : ℕ) (rest : Outcome X (Unit {0}))
      → text_beq chain (codes "main") ≡ true
      → ((validate_projected_height chain height >> rest) ≡ ok tt)
      → main_zero_state_boundary_height < height
  unfolding validate_projected_height
  checked-above height rest main e = ground arith

  bind-ok : (m rest : Outcome X (Unit {0})) → ((m >> rest) ≡ ok tt) → rest ≡ ok tt
  bind-ok (ok u) rest e = e
  bind-ok (err error) rest e = cc

  abbrev written : ℕ → Database → Outcome X (Unit {0})
  written height d = do
    connect height
    validate_zero_state_scope chain d.current_height
    validate_projected_height chain height
    block ← fetch_decoded_block height
    write_block height block

  commit_block-Above :
      (height : ℕ) (d : Database) (o : Outcome X (Unit {0}))
      → (o ≡ ok tt → main_zero_state_boundary_height < height)
      → Above d.blocks
      → Above (commit_block chain connect fetch_decoded_block write_block height d o).1.blocks
  unfolding commit_block advance_cursor
  commit_block-Above height d (err error) h a = a
  commit_block-Above height d (ok u) h a = (h refl, a)

  on_block-Above :
      (height projected cursor : ℕ) (r : Outcome X ℕ × Database)
      (continue : ℕ → Database → Outcome X WindowOutcome × Database)
      → Above r.1.blocks
      → ((advanced : ℕ) (after : Database)
          → Above after.blocks
          → Above (continue advanced after).1.blocks)
      → Above
          (on_block chain connect fetch_decoded_block write_block height projected cursor r
            continue).1.blocks
  on_block-Above height projected cursor (ok advanced, after) continue a k = k advanced after a
  on_block-Above height projected cursor (err error, after) continue a k = ground arith

  project_from-Above :
      (left height projected cursor : ℕ) (d : Database)
      → text_beq chain (codes "main") ≡ true
      → Above d.blocks
      → Above
          (project_from chain connect fetch_decoded_block write_block height projected cursor d
            left).1.blocks
  unfolding project_from project_raw_block_and_advance_cursor
  project_from-Above zero height projected cursor d main a = a
  project_from-Above (suc left) height projected cursor d main a =
      on_block-Above height projected cursor
        (commit_block chain connect fetch_decoded_block write_block height d (written height d))
        (λ advanced after.
          project_from chain connect fetch_decoded_block write_block (suc height) (projected + 1)
            advanced after left)
        (commit_block-Above height d (written height d)
          (λ e. checked-above height _ main (
            bind-ok (validate_zero_state_scope chain d.current_height) _
              (bind-ok (connect height) _ e)))
          a)
        (λ advanced after b.
          project_from-Above left (suc height) (projected + 1) advanced after main b)

  -- On the chain `main`, from a database that holds no block at or below the zero-state boundary, no
  -- sequential pass commits such a block, whatever window it is given and wherever the cursor stands.
  pub project_window_sequentially-Above :
      (window : FetchWindow) (cursor : ℕ) (d : Database)
      → text_beq chain (codes "main") ≡ true
      → Above d.blocks
      → Above
          (project_window_sequentially chain connect fetch_decoded_block write_block window cursor
            d).1.blocks
  unfolding project_window_sequentially
  project_window_sequentially-Above window cursor d main a =
      project_from-Above (window.to_height + 1 - window.from_height) window.from_height 0 cursor d
        main a
