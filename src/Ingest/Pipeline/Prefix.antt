-- ===== src/Ingest/Pipeline/Prefix.antt =====
-- The rounds of `project_window_pipelined` (crates/ingestion/src/driver.rs) keep within their limits
-- and commit a gap-free prefix, whatever the node, the pool and the fetch tasks do.
use explorer_backend.Base.{
  Bool-cases, List, Option, Option-cases, Text, [], arith, inl, inr, is_empty, length, ltb, max,
  none, refl, some, subst, suc, zero, ℕ, ◌&&◌, ◌+◌, ◌<◌, ◌==◌, ◌||◌, ◌∷◌, ◌≡◌, ◌≤◌, nat_eq,
}
use explorer_backend.Base.Map.{length-remove_lt, lookup}
use explorer_backend.FetchPlan.{FetchWindow}
use explorer_backend.Ingest.{
  Database, IngestionError, Outcome, WindowOutcome, commit_block, err, keeps_committed_prefix, ok,
  other,
}
use explorer_backend.Ingest.Pipeline.{
  Joined, Limits, Pick, Pipe, Progress, FetchTask, Turn, cancelled, drain, fetched, finish,
  harvest_all, is_some, join_next, joined, limits_of, on_written, panicked, pick_task,
  project_window_pipelined, record_fetched, returned, round, rounds, running, start, top_up,
  wait_or_finish, write_decoded_block,
}
use explorer_backend.Ingest.Pipeline.Invariant.{length-pick_task}
use explorer_backend.Ingest.Pipeline.Sane.{
  Extends-advance, Good, Good-and_then, Prefix, Sane, back, fails, fewer_tasks, on,
  record_result-Sane, reports, top_up-Sane,
}

module _ {X Block : Type 0} (chain : Text) (connect : ℕ → Outcome X (Unit {0}))
    (fetch_decoded_block : ℕ → Outcome X Block) (write_block : ℕ → Block → Outcome X (Unit {0}))
    (l : Limits) (before : Database) (from : ℕ) (above : before.current_height < from) where
  abbrev S : Pipe X Block → Type 0
  S p = Sane l before from p

  abbrev G : Progress X Block → Type 0
  G r = Good l before from r

  record_fetched-Good :
      (task : FetchTask) (j : Joined X Block) (p : Pipe X Block)
      → S (record p { tasks = task ∷ p.tasks })
      → G (record_fetched j p)
  unfolding record_fetched
  record_fetched-Good task cancelled p s =
      on (fewer_tasks l before from _ p.tasks p.in_flight s (omega arith))
  record_fetched-Good task (panicked x) p s = fails l before from _ (other x) s
  record_fetched-Good task (fetched height result) p s = on (
      record_result-Sane l before from height result _
        (fewer_tasks l before from _ _ _ s (omega arith)))

  join_next-Good :
      (pick : Pick X) (ts : List FetchTask) (p : Pipe X Block)
      → S p
      → length ts ≤ length p.tasks
      → G (join_next chain connect fetch_decoded_block write_block pick ts p)
  unfolding join_next
  join_next-Good pick [] p s le = on s
  join_next-Good pick (t ∷ ts) p s le =
      record_fetched-Good t
        (joined chain connect fetch_decoded_block write_block pick (pick_task pick.index t ts).0)
        (record p { tasks = (pick_task pick.index t ts).1 })
        (fewer_tasks l before from p _ p.in_flight s
          (omega (arith, length-pick_task pick.index t ts)))

  harvest_all-Good :
      (picks : List (Pick X)) (p : Pipe X Block)
      → S p
      → G (harvest_all chain connect fetch_decoded_block write_block picks p)
  unfolding harvest_all
  harvest_all-Good [] p s = on s
  harvest_all-Good (pick ∷ picks) p s =
      Good-and_then l before from _ _ (join_next-Good pick p.tasks p s (omega arith))
        λ q t. harvest_all-Good picks q t

  on_written-Good :
      (p : Pipe X Block) (block : Block) (o : Outcome X (Unit {0}))
      (continue : Pipe X Block → Progress X Block)
      → lookup p.next_to_write p.ready ≡ some block
      → S p
      → ((q : Pipe X Block) → S q → G (continue q))
      → G (
          on_written p
            (commit_block chain connect fetch_decoded_block write_block p.next_to_write p.database
              o)
            continue)
  unfolding on_written commit_block
  on_written-Good p block (err error) continue waits s k =
      elim (Bool-cases (keeps_committed_prefix p.projected_blocks error)) [
        | inl keeps ↦ rw keeps (reports l before from p _ s)
        | inr fails' ↦ rw fails' (fails l before from p error s)
      ]
  on_written-Good p block (ok u) continue waits s k = k _ (record {
    few_tasks = s.few_tasks;
    buffered = omega (arith, s.buffered, length-remove_lt p.next_to_write block p.ready waits);
    read_ahead = omega (arith, s.read_ahead);
    in_window = s.in_window;
    counted = omega (arith, s.counted);
    committed =
        Extends-advance before from p.projected_blocks p.next_to_write p.database above s.counted
          s.committed;
  })

  drain-Good :
      (fuel : ℕ) (p : Pipe X Block)
      → S p
      → G (drain chain connect fetch_decoded_block write_block fuel p)
  unfolding drain write_decoded_block
  drain-Good zero p s = on s
  drain-Good (suc fuel) p s = elim (Option-cases (lookup p.next_to_write p.ready)) [
    | inl nothing ↦ rw (nothing, drain) (on s)
    | inr (block, waits) ↦
        rw (waits, drain)
          (on_written-Good p block _ (drain chain connect fetch_decoded_block write_block fuel)
            waits s λ q t. drain-Good fuel q t)
  ]

  finish-Good :
      (failure : Option (ℕ × IngestionError X)) (p : Pipe X Block)
      → S p
      → G (returned (finish failure p))
  unfolding finish
  finish-Good none p s = reports l before from p none s
  finish-Good (some (h, error)) p s = elim (Bool-cases (p.projected_blocks == 0)) [
    | inl nothing ↦ rw nothing (fails l before from p error s)
    | inr some_done ↦ rw some_done (reports l before from p _ s)
  ]

  wait_or_finish-Good :
      (wait : Pick X) (p : Pipe X Block)
      → S p
      → G (wait_or_finish chain connect fetch_decoded_block write_block l wait p)
  unfolding wait_or_finish
  wait_or_finish-Good wait p s =
      elim (Bool-cases (is_empty p.tasks && (is_some p.fetch_error || ltb l.to p.next_to_spawn))) [
        | inl over ↦ rw over (finish-Good p.fetch_error p s)
        | inr stays ↦ rw stays (join_next-Good wait p.tasks p s (omega arith))
      ]

  pub rounds-Good :
      (turns : List (Turn X)) (p : Pipe X Block)
      → S p
      → G (rounds chain connect fetch_decoded_block write_block l turns p)
  unfolding rounds round
  rounds-Good [] p s = on s
  rounds-Good (turn ∷ turns) p s =
      Good-and_then l before from _ _
        (Good-and_then l before from _ _
          (harvest_all-Good turn.harvest _ (top_up-Sane l before from _ p s))
          λ q t.
            Good-and_then l before from _ _ (drain-Good (length q.ready) q t)
              λ r u. wait_or_finish-Good turn.wait r u)
        λ q t. rounds-Good turns q t

module _ {X Block : Type 0} (chain : Text) (connect : ℕ → Outcome X (Unit {0}))
    (fetch_decoded_block : ℕ → Outcome X Block) (write_block : ℕ → Block → Outcome X (Unit {0}))
    (queue_capacity : ℕ) (window : FetchWindow) (d : Database)
    (above : d.current_height < window.from_height) where
  pipelined-Good :
      (turns : List (Turn X)) (cursor_height : ℕ)
      → Good (limits_of queue_capacity window) d window.from_height (
          project_window_pipelined chain connect fetch_decoded_block write_block queue_capacity
            turns window cursor_height d)
  unfolding project_window_pipelined start
  pipelined-Good turns cursor_height =
      rounds-Good chain connect fetch_decoded_block write_block (limits_of queue_capacity window) d
        window.from_height above turns _
        (record {
          few_tasks = omega arith;
          buffered = omega arith;
          read_ahead = omega arith;
          in_window = omega arith;
          counted = omega arith;
          committed = record { gap_free = refl; cursor_at = refl };
        })

  Good-running :
      {l : Limits} {before : Database} {from : ℕ} (p : Pipe X Block)
      → Good l before from (running p)
      → Sane l before from p
  Good-running p (on s) = s

  Good-returned :
      {l : Limits} {before : Database} {from : ℕ} (r : Outcome X WindowOutcome × Database)
      → Good {Block = Block} l before from (returned r)
      → Prefix l before from r
  Good-returned r (back b) = b

  -- After any rounds of a pass over a window above the cursor, panics and failures included, and in
  -- the midst of filling the fetch slots again, no more fetches run than the window's concurrency
  -- (one at least), and the running fetches with the blocks that wait for the writer are no more
  -- than the queue's capacity, or than that concurrency where it is larger.
  pub project_window_pipelined_bounded :
      (turns : List (Turn X)) (cursor_height fuel : ℕ) (p : Pipe X Block)
      → project_window_pipelined chain connect fetch_decoded_block write_block queue_capacity turns
          window cursor_height d
        ≡ running p
      → let q = top_up (limits_of queue_capacity window) fuel p in
        (length q.tasks ≤ max window.concurrency 1)
        × (length q.tasks + length q.ready ≤ max queue_capacity (max window.concurrency 1))
  unfolding limits_of
  project_window_pipelined_bounded turns cursor_height fuel p e =
      let s = Good-running p (
        subst (Good (limits_of queue_capacity window) d window.from_height) e
          (pipelined-Good turns cursor_height)) in
      let t = top_up-Sane _ d window.from_height fuel p s in
      (omega (arith, t.few_tasks), omega (arith, t.buffered, t.read_ahead))

  -- When a pass over a window above the cursor returns, after panics and failures too, the database
  -- holds the blocks that it held before and, in order, a gap-free prefix of the window's heights,
  -- with the cursor at the last of them; a report counts exactly these.
  pub project_window_pipelined-Prefix :
      (turns : List (Turn X)) (cursor_height : ℕ) (r : Outcome X WindowOutcome × Database)
      → project_window_pipelined chain connect fetch_decoded_block write_block queue_capacity turns
          window cursor_height d
        ≡ returned r
      → Prefix (limits_of queue_capacity window) d window.from_height r
  project_window_pipelined-Prefix turns cursor_height r e = Good-returned r (
      subst (Good (limits_of queue_capacity window) d window.from_height) e
        (pipelined-Good turns cursor_height))
