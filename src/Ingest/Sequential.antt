-- ===== src/Ingest/Sequential.antt =====
-- What a pass of `project_window_sequentially` (crates/ingestion/src/driver.rs) commits and reports.
use mathlib.Core.List.{append_assoc}
use explorer_backend.Base.{
  Bool, List, Option, Text, [], ap, arith, false, if◌then◌else◌, inl, inr, ltb, max, none, not,
  refl, some, subst, suc, sym, true, zero, ℕ, ◌&&◌, ◌++◌, ◌+◌, ◌-◌, ◌<◌, ◌∙◌, ◌∷◌, ◌≡◌, ◌⊎◌,
}
use explorer_backend.FetchPlan.{FetchWindow}
use explorer_backend.Ingest.{
  Database, IngestionError, Outcome, WindowOutcome, advance_cursor, commit_block, err,
  is_database_failure, keeps_committed_prefix, ok, project_from,
  project_raw_block_and_advance_cursor, project_window_sequentially, validate_projected_height,
  validate_zero_state_scope, ◌>>=◌, ◌>>◌,
}

-- `n` heights from `height` on, the last one first.
abbrev pub heights : ℕ → ℕ → List ℕ
heights height zero = []
heights height (suc n) = heights (suc height) n ++ (height ∷ [])

-- The cursor after `k` blocks from `height` on.
abbrev pub cursor_after : ℕ → ℕ → ℕ → ℕ
cursor_after before height zero = before
cursor_after before height (suc k) = height + k

pub cursor_after-step :
    (before height k : ℕ) → cursor_after height (suc height) k ≡ cursor_after before height (suc k)
cursor_after-step before height zero = omega arith
cursor_after-step before height (suc k) = omega arith

module _ {X Block : Type 0} (chain : Text) (connect : ℕ → Outcome X (Unit {0}))
    (fetch_decoded_block : ℕ → Outcome X Block)
    (write_block : ℕ → Block → Outcome X (Unit {0})) where
  abbrev project_one : ℕ → Database → Outcome X ℕ × Database
  project_one = project_raw_block_and_advance_cursor chain connect fetch_decoded_block write_block

  abbrev pub finished : ℕ → ℕ → Option ℕ → Outcome X WindowOutcome
  finished projected cursor stalled = ok (record {
    projected_blocks = projected;
    cursor_height_after = cursor;
    stalled_height = stalled;
  })

  abbrev with_block : ℕ → Database → Database
  with_block height d = record { current_height = height; blocks = height ∷ d.blocks }

  -- What decides whether the block at a height is committed while the cursor stands at another: the
  -- connection, the two guards, the node's block and its writes.
  abbrev pub block_written : ℕ → ℕ → Outcome X (Unit {0})
  block_written cursor height = do
    connect height
    validate_zero_state_scope chain cursor
    validate_projected_height chain height
    block ← fetch_decoded_block height
    write_block height block

  max-above : (a b : ℕ) → a < b → max a b ≡ b
  max-above a b h = omega arith

  commit_block-cases :
      (height : ℕ) (d : Database) (written : Outcome X (Unit {0}))
      → d.current_height < height
      → ((commit_block chain connect fetch_decoded_block write_block height d written
            ≡ (ok height, with_block height d))
          × (written ≡ ok tt))
        ⊎ ((error : IngestionError X) × (commit_block chain connect fetch_decoded_block write_block
                height d written
              ≡ (err error, d))
            × (written ≡ err error))
  unfolding commit_block advance_cursor
  commit_block-cases height d (err error) h = inr (error, refl, refl)
  commit_block-cases height d (ok u) h = inl (
    ap (λ n. (ok n, record { current_height = n; blocks = height ∷ d.blocks }))
        (max-above d.current_height height h),
    refl,
  )

  -- A block above the cursor is committed with the cursor at it, or nothing changes.
  project_one-cases :
      (height : ℕ) (d : Database)
      → d.current_height < height
      → ((project_one height d ≡ (ok height, with_block height d))
          × (block_written d.current_height height ≡ ok tt))
        ⊎ ((error : IngestionError X) × (project_one height d ≡ (err error, d))
            × (block_written d.current_height height ≡ err error))
  unfolding project_raw_block_and_advance_cursor
  project_one-cases height d h = commit_block-cases height d _ h

  abbrev project_rest : ℕ → ℕ → ℕ → Database → ℕ → Outcome X WindowOutcome × Database
  project_rest = project_from chain connect fetch_decoded_block write_block

  -- The outcome of a pass that committed `k` of its blocks, after `projected` others.
  abbrev pub Reports : ℕ → ℕ → ℕ → ℕ → ℕ → Outcome X WindowOutcome → Type 0
  Reports height projected left cursor k r =
      ((k ≡ left) × (r ≡ finished (projected + k) cursor none))
      ⊎ ((k < left)
          × ((error : IngestionError X) × (block_written cursor (height + k) ≡ err error)
              × (r ≡ (
                  if ltb 0 (projected + k) && not (is_database_failure error)
                  then finished (projected + k) cursor (some (height + k))
                  else err error))))

  -- A pass commits a gap-free prefix of its heights and reports it.
  pub record Passes (height projected left : ℕ) (d : Database)
      (r : Outcome X WindowOutcome × Database) : Type 0 where
    pub committed : ℕ
    pub gap_free : r.1.blocks ≡ heights height committed ++ d.blocks
    pub cursor_at : r.1.current_height ≡ cursor_after d.current_height height committed
    pub written :
        (i : ℕ)
        → i < committed
        → block_written (cursor_after d.current_height height i) (height + i) ≡ ok tt
    pub reports : Reports height projected left r.1.current_height committed r.0

  next_count : (projected k : ℕ) → projected + 1 + k ≡ projected + suc k
  next_count projected k = omega arith

  next_height : (height k : ℕ) → suc height + k ≡ height + suc k
  next_height height k = omega arith

  Reports-step :
      (height projected left cursor k : ℕ) (r : Outcome X WindowOutcome)
      → Reports (suc height) (projected + 1) left cursor k r
      → Reports height projected (suc left) cursor (suc k) r
  Reports-step height projected left cursor k r (inl (whole, e)) =
      inl (omega arith, e ∙ ap (λ n. finished n cursor none) (next_count projected k))
  Reports-step height projected left cursor k r (inr (some_left, (error, failed, e))) = inr (
    omega arith,
    (
      error,
      subst (λ n. block_written cursor n ≡ err error) (next_height height k) failed,
      e
          ∙ ap
              (λ n.
                if ltb 0 n && not (is_database_failure error)
                then finished n cursor (some (suc height + k))
                else err error)
              (next_count projected k)
          ∙ ap
              (λ n.
                if ltb 0 (projected + suc k) && not (is_database_failure error)
                then finished (projected + suc k) cursor (some n)
                else err error)
              (next_height height k),
    ),
  )

  plus_nothing : (n : ℕ) → n + 0 ≡ n
  plus_nothing n = omega arith

  at_first :
      (height : ℕ) (d : Database) (error : IngestionError X)
      → block_written d.current_height height ≡ err error
      → block_written d.current_height (height + 0) ≡ err error
  at_first height d error why =
      subst (λ n. block_written d.current_height n ≡ err error) (sym (plus_nothing height)) why

  -- The block at the front was written, and the others from the next height on.
  written-step :
      (height before committed : ℕ)
      → block_written before height ≡ ok tt
      → ((i : ℕ)
          → i < committed
          → block_written (cursor_after height (suc height) i) (suc height + i) ≡ ok tt)
      → (i : ℕ) → i < suc committed
      → block_written (cursor_after before height i) (height + i) ≡ ok tt
  written-step height before committed here later zero h =
      subst (λ n. block_written before n ≡ ok tt) (sym (plus_nothing height)) here
  written-step height before committed here later (suc i) h =
      subst (λ n. block_written (cursor_after before height (suc i)) n ≡ ok tt)
        (next_height height i)
        (subst (λ c. block_written c (suc height + i) ≡ ok tt) (cursor_after-step before height i)
          (later i (omega (arith, h))))

  failed-Passes :
      (height projected left : ℕ) (d : Database) (error : IngestionError X) (keeps : Bool)
      → keeps_committed_prefix projected error ≡ keeps
      → block_written d.current_height height ≡ err error
      → Passes height projected
          (suc left)
          d
          (if keeps then (finished projected d.current_height (some height), d) else (err error, d))
  unfolding keeps_committed_prefix
  failed-Passes height projected left d error true e why = record {
    committed = 0;
    gap_free = refl;
    cursor_at = refl;
    written = λ i h. absurd (omega (arith, h));
    reports = inr (
      omega arith,
      (error, at_first height d error why, rw (plus_nothing projected, plus_nothing height, e)),
    );
  }
  failed-Passes height projected left d error false e why = record {
    committed = 0;
    gap_free = refl;
    cursor_at = refl;
    written = λ i h. absurd (omega (arith, h));
    reports =
        inr (omega arith, (error, at_first height d error why, rw (plus_nothing projected, e)));
  }

  project_from-Passes :
      (left height projected : ℕ) (d : Database)
      → d.current_height < height
      → Passes height projected left d (project_rest height projected d.current_height d left)
  unfolding project_from
  project_from-Passes zero height projected d h = record {
    committed = 0;
    gap_free = refl;
    cursor_at = refl;
    written = λ i h. absurd (omega (arith, h));
    reports = inl (refl, ap (λ n. finished n d.current_height none) (sym (plus_nothing projected)));
  }
  project_from-Passes (suc left) height projected d h = elim (project_one-cases height d h) [
    | inl (committed, here) ↦ rw committed (
        let p =
          project_from-Passes left (suc height) (projected + 1) (with_block height d)
            (omega arith) in
        record {
          committed = suc p.committed;
          gap_free =
              p.gap_free
              ∙ sym (append_assoc (heights (suc height) p.committed) (height ∷ []) d.blocks);
          cursor_at = p.cursor_at ∙ cursor_after-step d.current_height height p.committed;
          written = written-step height d.current_height p.committed here p.written;
          reports = Reports-step height projected left _ p.committed _ p.reports;
        })
    | inr (error, failed, why) ↦ rw failed (
        failed-Passes height projected left d error (keeps_committed_prefix projected error) refl
          why)
  ]

  -- A sequential pass over a window that starts above the cursor commits a gap-free prefix of the
  -- window's heights in order, with the cursor at the last of them. Each of these heights has a
  -- connection, passes the guards, and has its block fetched and written; and either they are the
  -- whole window, which is reported, or at the next height one of these fails with an error: then the
  -- pass reports a stall at that height if some blocks were committed and the error is not the
  -- database's, and that error otherwise.
  pub project_window_sequentially-Passes :
      (window : FetchWindow) (d : Database)
      → d.current_height < window.from_height
      → Passes window.from_height 0 (window.to_height + 1 - window.from_height) d (
          project_window_sequentially chain connect fetch_decoded_block write_block window
            d.current_height d)
  unfolding project_window_sequentially
  project_window_sequentially-Passes window d h =
      project_from-Passes (window.to_height + 1 - window.from_height) window.from_height 0 d h
