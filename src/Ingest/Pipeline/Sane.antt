-- ===== src/Ingest/Pipeline/Sane.antt =====
-- What `project_window_pipelined` (crates/ingestion/src/driver.rs) keeps in memory and in the
-- database in every state, whatever the node, the pool and the fetch tasks do.
use explorer_backend.Base.{
  Bool-cases, List, Option, [], ap, arith, false, inl, inr, length, max, suc, sym, true, zero, ℕ,
  ◌++◌, ◌+◌, ◌-◌, ◌<◌, ◌∙◌, ◌∷◌, ◌≡◌, ◌≤◌, nat_eq,
}
use explorer_backend.Base.Map.{length-insert}
use explorer_backend.Ingest.{
  Database, IngestionError, Outcome, WindowOutcome, advance_cursor, err, ok,
}
use explorer_backend.Ingest.Sequential.{cursor_after, heights}
use explorer_backend.Ingest.Pipeline.{
  Limits, Pipe, Progress, FetchTask, and_then, may_spawn, record_result, returned, running, spawn,
  supersedes, top_up, window_outcome,
}
use explorer_backend.Ingest.Pipeline.Invariant.{length-abort_from}

-- `k` blocks from a height on were committed, in order.
pub record Extends (before : Database) (from k : ℕ) (d : Database) : Type 0 where
  pub gap_free : d.blocks ≡ heights from k ++ before.blocks
  pub cursor_at : d.current_height ≡ cursor_after before.current_height from k

pub record Sane {X Block : Type 0} (l : Limits) (before : Database) (from : ℕ) (p : Pipe X Block)
    : Type 0 where
  pub few_tasks : length p.tasks ≤ l.concurrency
  pub buffered : length p.tasks + length p.ready + p.next_to_write ≤ p.next_to_spawn
  pub read_ahead : p.next_to_spawn ≤ p.next_to_write + l.max_read_ahead
  pub in_window : p.next_to_spawn ≤ max from (l.to + 1)
  pub counted : p.next_to_write ≡ from + p.projected_blocks
  pub committed : Extends before from p.projected_blocks p.database

-- The result of a pass: a prefix of the window is committed, and a report counts it.
pub record Prefix {X : Type 0} (l : Limits) (before : Database) (from : ℕ)
    (r : Outcome X WindowOutcome × Database) : Type 0 where
  pub committed : ℕ
  pub within : committed ≤ l.to + 1 - from
  pub extends : Extends before from committed r.1
  pub reported : (w : WindowOutcome) → r.0 ≡ ok w → w.projected_blocks ≡ committed

heights-snoc : (from k : ℕ) → heights from (suc k) ≡ (from + k) ∷ heights from k
heights-snoc from zero = ap (λ n. n ∷ []) (plus_zero from)
  where
    plus_zero : (n : ℕ) → n ≡ n + 0
    plus_zero n = omega arith
heights-snoc from (suc k) =
    ap (λ xs. xs ++ (from ∷ [])) (heights-snoc (suc from) k)
    ∙ ap (λ n. n ∷ heights from (suc k)) (shift from k)
  where
    shift : (n m : ℕ) → suc n + m ≡ n + suc m
    shift n m = omega arith

cursor-below :
    (before from k : ℕ)
    → before < from
    → max (cursor_after before from k) (from + k) ≡ cursor_after before from (suc k)
cursor-below before from zero above = omega arith
cursor-below before from (suc k) above = omega arith

pub Extends-advance :
    (before : Database) (from k height : ℕ) (d : Database)
    → before.current_height < from
    → height ≡ from + k
    → Extends before from k d
    → Extends before from (k + 1) (advance_cursor height (record d { blocks = height ∷ d.blocks }))
unfolding advance_cursor
Extends-advance before from k height d above at e = record {
  gap_free =
      rw (at, e.gap_free)
        (ap (λ xs. xs ++ before.blocks)
          (sym (heights-snoc from k) ∙ ap (heights from) (plus_one k)));
  cursor_at =
      rw (at, e.cursor_at)
        (cursor-below before.current_height from k above
          ∙ ap (cursor_after before.current_height from) (plus_one k));
}
  where
    plus_one : (n : ℕ) → suc n ≡ n + 1
    plus_one n = omega arith

-- What a step of the loop leads to.
pub data Good {X Block : Type 0} (l : Limits) (before : Database) (from : ℕ)
    : Progress X Block → Type 0 where
  on : {p : Pipe X Block} → Sane l before from p → Good l before from (running p)
  back :
      {r : Outcome X WindowOutcome × Database}
      → Prefix l before from r
      → Good l before from (returned r)

module _ {X Block : Type 0} (l : Limits) (before : Database) (from : ℕ) where
  abbrev S : Pipe X Block → Type 0
  S p = Sane l before from p

  abbrev G : Progress X Block → Type 0
  G r = Good l before from r

  pub Good-and_then :
      (r : Progress X Block) (f : Pipe X Block → Progress X Block)
      → G r
      → ((p : Pipe X Block) → S p → G (f p))
      → G (and_then r f)
  Good-and_then (running p) f (on s) k = k p s
  Good-and_then (returned r) f (back b) k = back b

  spawn-Sane : (p : Pipe X Block) → may_spawn l p ≡ true → S p → S (spawn p)
  unfolding spawn may_spawn
  spawn-Sane p may s = record {
    few_tasks = ground (arith, may);
    buffered = omega (arith, s.buffered);
    read_ahead = ground (arith, may, s.buffered);
    in_window = ground (arith, may);
    counted = s.counted;
    committed = s.committed;
  }

  pub top_up-Sane : (fuel : ℕ) (p : Pipe X Block) → S p → S (top_up l fuel p)
  unfolding top_up
  top_up-Sane zero p s = s
  top_up-Sane (suc fuel) p s = elim (Bool-cases (may_spawn l p)) [
    | inl may ↦ rw may (top_up-Sane fuel (spawn p) (spawn-Sane p may s))
    | inr stop ↦ rw stop s
  ]

  -- An error, or a report, that leaves the database.
  stops_here :
      (p : Pipe X Block) (o : Outcome X WindowOutcome)
      → S p
      → ((w : WindowOutcome) → o ≡ ok w → w.projected_blocks ≡ p.projected_blocks)
      → G (returned (o, p.database))
  stops_here p o s reported = back (record {
    committed = p.projected_blocks;
    within = omega (arith, s.buffered, s.in_window, s.counted);
    extends = s.committed;
    reported = reported;
  })

  pub reports :
      (p : Pipe X Block) (stalled : Option ℕ)
      → S p
      → G (returned (window_outcome p.projected_blocks p.cursor_height_after stalled, p.database))
  reports p stalled s = stops_here p _ s λ w e. cc e

  pub fails :
      (p : Pipe X Block) (error : IngestionError X) → S p → G (returned (err error, p.database))
  fails p error s = stops_here p _ s λ w e. absurd (cc e)

  pub fewer_tasks :
      (p : Pipe X Block) (ts : List FetchTask) (in_flight : List ℕ)
      → S p
      → length ts ≤ length p.tasks
      → S (record p { tasks = ts; in_flight = in_flight })
  fewer_tasks p ts in_flight s le = record {
    few_tasks = omega (arith, s.few_tasks);
    buffered = omega (arith, s.buffered);
    read_ahead = s.read_ahead;
    in_window = s.in_window;
    counted = s.counted;
    committed = s.committed;
  }

  -- A finished fetch takes the place of its task.
  pub record_result-Sane :
      (height : ℕ) (result : Outcome X Block) (p : Pipe X Block)
      → S (record p { tasks = record { height = height; aborted = false } ∷ p.tasks })
      → S (record_result height result p)
  unfolding record_result
  record_result-Sane height (ok block) p s = record {
    few_tasks = omega (arith, s.few_tasks);
    buffered = omega (arith, s.buffered, length-insert height block p.ready);
    read_ahead = s.read_ahead;
    in_window = s.in_window;
    counted = s.counted;
    committed = s.committed;
  }
  record_result-Sane height (err error) p s = elim (Bool-cases (supersedes height p.fetch_error)) [
    | inl lower ↦ rw lower (record {
      few_tasks = omega (arith, s.few_tasks, length-abort_from height p.in_flight p.tasks);
      buffered = omega (arith, s.buffered, length-abort_from height p.in_flight p.tasks);
      read_ahead = s.read_ahead;
      in_window = s.in_window;
      counted = s.counted;
      committed = s.committed;
    })
    | inr higher ↦ rw higher (fewer_tasks _ p.tasks p.in_flight s (omega arith))
  ]
