-- ===== src/Worker/CatchUp.antt =====
-- The worker (`sync_once` in crates/ingestion/src/driver.rs) with a node that serves every block:
-- it reaches the tip, and leaves the load-shed mode there.
use explorer_backend.Base.{
  All, Text, ap, arith, codes, eq_ignore_ascii_case, length, lowercase, max, none, refl, some, suc,
  text_beq, text_beq_iff, true, zero, ℕ, ◌*◌, ◌+◌, ◌-◌, ◌<◌, ◌∙◌, ◌∷◌, ◌≡◌, ◌≤◌, nat_eq,
}
use explorer_backend.FetchPlan.{
  FetchWindow, WorkerConfig, WorkerSyncMode, normal, sequential, target_tip,
}
use explorer_backend.FetchPlan.Laws.{Fits}
use explorer_backend.Ingest.{
  Database, Outcome, WindowOutcome, advance_cursor, commit_block, main_zero_state_boundary_height,
  ok, project_from, project_raw_block_and_advance_cursor, project_window_sequentially,
  validate_projected_height, validate_zero_state_scope,
}
use explorer_backend.Ingest.Sequential.{cursor_after, cursor_after-step}
use explorer_backend.Ingest.Pipeline.{returned, window_outcome}
use explorer_backend.Ingest.Pipeline.Rounds.{CalmTurn}
use explorer_backend.Ingest.Pipeline.Equivalence.{
  Reliable, project_window_pipelined-eq-sequentially,
}
use explorer_backend.Worker.{
  BlockIngestionDriver, Surroundings, guard_node_matches_db, project_window_in,
}

-- Everything around a pass works, and the pass gets as many rounds as its batch may take.
pub record Serves {X Block : Type 0} (settings : WorkerConfig) (tip : ℕ) (w : Surroundings X Block)
    : Type 0 where
  pub tip_known : w.get_block_height ≡ ok tip
  pub cursor_read : w.read_cursor ≡ ok tt
  pub same_chain :
      (h : ℕ)
      → (hash : Text) × (w.block_hash_at_height h ≡ ok (some hash))
        × (w.get_block_by_height h ≡ ok hash)
  pub connected : (h : ℕ) → w.connect h ≡ ok tt
  pub served :
      (h : ℕ) → (b : Block) × (w.fetch_decoded_block h ≡ ok b) × (w.write_block h b ≡ ok tt)
  pub calm : All CalmTurn w.turns
  pub enough : 3 * settings.fetch_batch_size < length w.turns

-- On `main` the cursor is not below the zero state.
abbrev pub Restored : Text → Database → Type 0
Restored chain d =
    text_beq chain (codes "main") ≡ true → main_zero_state_boundary_height ≤ d.current_height

eq_ignore_ascii_case_refl : (s : Text) → eq_ignore_ascii_case s s ≡ true
unfolding eq_ignore_ascii_case
eq_ignore_ascii_case_refl s = (text_beq_iff (lowercase s) _).1 refl

module _ {X Block : Type 0} (chain configured_nexus : Text) (settings : WorkerConfig)
    (w : Surroundings X Block) (tip : ℕ) (serves : Serves settings tip w) where
  abbrev project_one : ℕ → Database → Outcome X ℕ × Database
  project_one =
      project_raw_block_and_advance_cursor chain w.connect w.fetch_decoded_block w.write_block

  advanced : ℕ → Database → Database
  advanced height d = advance_cursor height (record d { blocks = height ∷ d.blocks })

  pub scope_valid :
      (d : Database)
      → Restored chain d
      → validate_zero_state_scope {X = X} chain d.current_height ≡ ok tt
  unfolding validate_zero_state_scope
  scope_valid d restored = ground (arith, restored)

  height_valid :
      (h : ℕ) (d : Database)
      → Restored chain d
      → d.current_height < h
      → validate_projected_height {X = X} chain h ≡ ok tt
  unfolding validate_projected_height
  height_valid h d restored above = ground (arith, restored)

  max_above : (a b : ℕ) → a < b → max a b ≡ b
  max_above a b h = omega arith

  project_one-served :
      (h : ℕ) (d : Database)
      → Restored chain d
      → d.current_height < h
      → project_one h d ≡ (ok (advanced h d).current_height, advanced h d)
  unfolding project_raw_block_and_advance_cursor commit_block advanced
  project_one-served h d restored above =
      let (b, got, wrote) = serves.served h in
      rw (serves.connected h, scope_valid d restored, height_valid h d restored above, got, wrote)
        refl

  -- A loop that commits all of its heights.
  record Whole (from projected left : ℕ) (d : Database) (r : Outcome X WindowOutcome × Database)
      : Type 0 where
    pub after : Database
    pub result : r ≡ (window_outcome (projected + left) after.current_height none, after)
    pub cursor_at : after.current_height ≡ cursor_after d.current_height from left

  project_from-Whole :
      (left from projected : ℕ) (d : Database)
      → Restored chain d
      → d.current_height < from
      → Whole from projected left d (
          project_from chain w.connect w.fetch_decoded_block w.write_block from projected
            d.current_height d left)
  unfolding project_from advanced advance_cursor
  project_from-Whole zero from projected d restored above = record {
    after = d;
    result = ap (λ n. (window_outcome n d.current_height none, d)) (plus_zero projected);
    cursor_at = refl;
  }
    where
      plus_zero : (n : ℕ) → n ≡ n + 0
      plus_zero n = omega arith
  project_from-Whole (suc left) from projected d restored above =
      rw (project_one-served from d restored above) (
        let at : (advanced from d).current_height ≡ from = max_above d.current_height from above in
        let rest =
          project_from-Whole left (suc from) (projected + 1) (advanced from d)
            (λ main. omega (arith, restored main, at)) (omega (arith, at)) in
        record {
          after = rest.after;
          result =
              rest.result
              ∙ ap (λ n. (window_outcome n rest.after.current_height none, rest.after))
                  (shift projected left);
          cursor_at =
              rest.cursor_at
              ∙ ap (λ c. cursor_after c (suc from) left) at
              ∙ cursor_after-step d.current_height from left;
        })
    where
      shift : (n m : ℕ) → n + 1 + m ≡ n + suc m
      shift n m = omega arith

  -- The result of a pass over a window right above the cursor.
  abbrev pub Done : FetchWindow → Database → Outcome X WindowOutcome × Database → Type 0
  Done window d r =
      (n : ℕ) × (after : Database) × (r ≡ (window_outcome n after.current_height none, after))
      × (after.current_height ≡ window.to_height)

  last_height : (c from to : ℕ) → from ≤ to → cursor_after c from (to + 1 - from) ≡ to
  last_height c from to ordered =
      ap (cursor_after c from) (one_more from to ordered) ∙ add_back from to ordered
    where
      one_more : (a b : ℕ) → a ≤ b → b + 1 - a ≡ suc (b - a)
      one_more a b h = omega arith

      add_back : (a b : ℕ) → a ≤ b → a + (b - a) ≡ b
      add_back a b h = omega arith

  sequential-Done :
      (window : FetchWindow) (d : Database)
      → Restored chain d
      → window.from_height ≡ d.current_height + 1
      → window.from_height ≤ window.to_height
      → Done window d (
          project_window_sequentially chain w.connect w.fetch_decoded_block w.write_block window
            d.current_height d)
  unfolding project_window_sequentially
  sequential-Done window d restored e ordered =
      let whole =
        project_from-Whole (window.to_height + 1 - window.from_height) window.from_height 0 d
          restored (omega (arith, e)) in
      (
        0 + (window.to_height + 1 - window.from_height),
        whole.after,
        whole.result,
        whole.cursor_at ∙ last_height d.current_height window.from_height window.to_height ordered,
      )

  reliable : Reliable w.connect w.fetch_decoded_block
  reliable = record {
    connected = serves.connected;
    no_database_failure =
        λ h e failed. let (b, got, wrote) = serves.served h in absurd (cc (got, failed));
  }

  pub project_window_in-Done :
      (mode : WorkerSyncMode) (window : FetchWindow) (d : Database)
      → Restored chain d
      → Fits d.current_height
          (target_tip settings.height_limit tip)
          settings.fetch_batch_size
          window
      → (r : Outcome X WindowOutcome × Database) × (project_window_in chain configured_nexus
            settings mode w window d.current_height d
          ≡ returned r)
        × Done window d r
  unfolding project_window_in
  project_window_in-Done normal window d restored fits = (
    _,
    project_window_pipelined-eq-sequentially chain w.connect w.fetch_decoded_block w.write_block
        settings.queue_capacity w.turns window d.current_height d reliable
        (record {
          not_empty = fits.ordered;
          above_cursor = omega (arith, fits.starts);
          beyond_zero_state = restored;
        })
        serves.calm (omega (arith, fits.small, fits.starts, serves.enough)),
    sequential-Done window d restored fits.starts fits.ordered,
  )
  project_window_in-Done sequential window d restored fits =
      (_, refl, sequential-Done window d restored fits.starts fits.ordered)
  project_window_in-Done WorkerSyncMode.relief window d restored fits =
      (_, refl, sequential-Done window d restored fits.starts fits.ordered)

  pub guard-passes :
      (height : ℕ) (v : BlockIngestionDriver)
      → (guard_node_matches_db chain configured_nexus settings w height v).0 ≡ ok tt
  unfolding guard_node_matches_db
  guard-passes height v =
      let (hash, stored, given) = serves.same_chain height in
      ground (arith, stored, given, eq_ignore_ascii_case_refl hash)
