-- ===== src/Ingest/Pipeline/Finishing.antt =====
-- How `project_window_pipelined` (crates/ingestion/src/driver.rs) leaves its loop, and how it fills
-- its fetch slots.
use explorer_backend.Base.{
  Bool-cases, List, Option, Text, [], ap, arith, false, if◌then◌else◌, inl, inr, is_empty, leb,
  leb→le, length, ltb, ltb→lt, lt→ltb, none, refl, some, suc, sym, true, zero, ℕ, ◌*◌, ◌+◌, ◌-◌,
  ◌<◌, ◌==◌, ◌∙◌, ◌∷◌, ◌≡◌, ◌≤◌, nat_eq,
}
use explorer_backend.Base.Map.{lookup}
use explorer_backend.Ingest.{
  Database, IngestionError, Outcome, WindowOutcome, commit_block, err, is_database_failure,
  keeps_committed_prefix, ok, project_from, project_raw_block_and_advance_cursor,
}
use explorer_backend.Ingest.Pipeline.{
  Limits, Pipe, FetchTask, finish, is_some, may_spawn, spawn, top_up,
}
use explorer_backend.Ingest.Pipeline.Invariant.{below_error, fetching}
use explorer_backend.Ingest.Pipeline.Joining.{Kept}
use explorer_backend.Ingest.Pipeline.Writing.{
  Writes, after_block, height_valid, left_to_write, scope_valid,
}

-- What filling the slots leaves alone, and that it stops only when no fetch may be started.
pub record Filled {X Block : Type 0} (l : Limits) (p p' : Pipe X Block) : Type 0 where
  pub writer : p'.next_to_write ≡ p.next_to_write
  pub counted : p'.projected_blocks ≡ p.projected_blocks
  pub cursor : p'.cursor_height_after ≡ p.cursor_height_after
  pub stored : p'.database ≡ p.database
  pub spent :
      2 * (l.to + 1 - p'.next_to_spawn) + length p'.tasks
      ≤ 2 * (l.to + 1 - p.next_to_spawn) + length p.tasks
  pub stopped : may_spawn l p' ≡ false

spawn-Filled :
    {X Block : Type 0} (l : Limits) (p p' : Pipe X Block)
    → may_spawn l p ≡ true
    → Filled l (spawn p) p'
    → Filled l p p'
unfolding spawn may_spawn
spawn-Filled l p p' may f = record {
  writer = f.writer;
  counted = f.counted;
  cursor = f.cursor;
  stored = f.stored;
  spent = ground (arith, f.spent);
  stopped = f.stopped;
}

cannot_spawn :
    {X Block : Type 0} (l : Limits) (p : Pipe X Block)
    → l.to + 1 - p.next_to_spawn ≤ 0
    → may_spawn l p ≡ false
unfolding may_spawn
cannot_spawn l p none_left = ground arith

spawned_less :
    {X Block : Type 0} (l : Limits) (fuel : ℕ) (p : Pipe X Block)
    → l.to + 1 - p.next_to_spawn ≤ suc fuel
    → l.to + 1 - (spawn p).next_to_spawn ≤ fuel
unfolding spawn
spawned_less l fuel p enough = omega arith

pub top_up-Filled :
    {X Block : Type 0} (l : Limits) (fuel : ℕ) (p : Pipe X Block)
    → l.to + 1 - p.next_to_spawn ≤ fuel
    → Filled l p (top_up l fuel p)
unfolding top_up
top_up-Filled l zero p enough = record {
  writer = refl;
  counted = refl;
  cursor = refl;
  stored = refl;
  spent = omega arith;
  stopped = cannot_spawn l p enough;
}
top_up-Filled l (suc fuel) p enough = elim (Bool-cases (may_spawn l p)) [
  | inl may ↦
      rw may
        (spawn-Filled l p _ may (top_up-Filled l fuel (spawn p) (spawned_less l fuel p enough)))
  | inr stop ↦ rw stop (record {
    writer = refl;
    counted = refl;
    cursor = refl;
    stored = refl;
    spent = omega arith;
    stopped = stop;
  })
]

fetching-empty : (h : ℕ) (ts : List FetchTask) → is_empty ts ≡ true → fetching h ts ≡ false
fetching-empty h [] e = refl
fetching-empty h (t ∷ ts) e = absurd (cc e)

module _ {X Block : Type 0} (chain : Text) (connect : ℕ → Outcome X (Unit {0}))
    (fetch_decoded_block : ℕ → Outcome X Block) (write_block : ℕ → Block → Outcome X (Unit {0}))
    (from to : ℕ) (whole : Outcome X WindowOutcome × Database)
    (connected : (h : ℕ) → connect h ≡ ok tt)
    (harmless : (h : ℕ) (e : IngestionError X)
      → fetch_decoded_block h ≡ err e
      → is_database_failure e ≡ false) where
  abbrev Progresses : Pipe X Block → Type 0
  Progresses p = Writes chain connect fetch_decoded_block write_block from to whole connected p

  abbrev rest_at : Pipe X Block → ℕ → Outcome X WindowOutcome × Database
  rest_at p left =
      project_from chain connect fetch_decoded_block write_block p.next_to_write p.projected_blocks
        p.cursor_height_after p.database left

  pub nothing_missing :
      (p : Pipe X Block)
      → Kept fetch_decoded_block from to p
      → is_empty p.tasks ≡ true
      → lookup p.next_to_write p.ready ≡ none
      → below_error p.next_to_write p.fetch_error ≡ true
      → p.next_to_spawn ≤ p.next_to_write
  unfolding is_some
  nothing_missing p (f, c) empty nothing below =
      elim (Bool-cases (leb p.next_to_spawn p.next_to_write)) [
        | inl done ↦ leb→le p.next_to_spawn p.next_to_write done
        | inr missing ↦ ground (
          arith,
          missing,
          nothing,
          fetching-empty p.next_to_write p.tasks empty,
          c p.next_to_write (omega arith) (ground (arith, missing)) below,
        )
      ]

  projects_error :
      (p : Pipe X Block) (error : IngestionError X)
      → Progresses p
      → fetch_decoded_block p.next_to_write ≡ err error
      → project_raw_block_and_advance_cursor chain connect fetch_decoded_block write_block
          p.next_to_write p.database
        ≡ (err error, p.database)
  unfolding project_raw_block_and_advance_cursor commit_block
  projects_error p error w got =
      rw
        (
          connected p.next_to_write,
          scope_valid chain connect fetch_decoded_block write_block from to whole connected p w,
          height_valid chain connect fetch_decoded_block write_block from to whole connected p w,
          got,
        )
        refl

  all_written : (p : Pipe X Block) → to < p.next_to_write → to + 1 - p.next_to_write ≡ 0
  all_written p done = omega arith

  below_none :
      (h : ℕ) (failure : Option (ℕ × IngestionError X))
      → failure ≡ none
      → below_error h failure ≡ true
  unfolding below_error
  below_none h none e = refl
  below_none h (some failed) e = absurd (cc e)

  below_some :
      (h f : ℕ) (error : IngestionError X) (failure : Option (ℕ × IngestionError X))
      → failure ≡ some (f, error)
      → h < f
      → below_error h failure ≡ true
  unfolding below_error
  below_some h f error failure e lt = rw e (lt→ltb h f lt)

  not_written :
      (p : Pipe X Block) (f : ℕ) (error : IngestionError X)
      → Kept fetch_decoded_block from to p
      → p.fetch_error ≡ some (f, error)
      → p.next_to_write ≤ f
  not_written p f error (k, c) failed = elim (Bool-cases (leb p.next_to_write f)) [
    | inl after ↦ leb→le p.next_to_write f after
    | inr before ↦
        let (low, high, fails) = k.failing f error failed in
        ground (arith, before, fails, k.written f low (ground (arith, before)))
  ]

  stalled_at :
      (p : Pipe X Block) (f : ℕ) (error : IngestionError X)
      → Kept fetch_decoded_block from to p
      → is_empty p.tasks ≡ true
      → lookup p.next_to_write p.ready ≡ none
      → p.fetch_error ≡ some (f, error)
      → f ≡ p.next_to_write
  stalled_at p f error held empty nothing failed = elim (Bool-cases (ltb p.next_to_write f)) [
    | inl missing ↦
        let lt = ltb→lt p.next_to_write f missing in
        absurd (
          omega (
            arith,
            nothing_missing p held empty nothing
                (below_some p.next_to_write f error p.fetch_error failed lt),
            held.0.failing f error failed,
          ))
    | inr reached ↦ ground (arith, reached, not_written p f error held failed)
  ]

  stall_of :
      (projected : ℕ) (error : IngestionError X) (stalled hard : Outcome X WindowOutcome × Database)
      → is_database_failure error ≡ false
      → (if projected == 0 then hard else stalled)
        ≡ (if keeps_committed_prefix projected error then stalled else hard)
  unfolding keeps_committed_prefix
  stall_of projected error stalled hard ok' = ground (arith, ok')

  pub finish_whole :
      (p : Pipe X Block)
      → Kept fetch_decoded_block from to p
      → Progresses p
      → is_empty p.tasks ≡ true
      → lookup p.next_to_write p.ready ≡ none
      → p.fetch_error ≡ none
      → to < p.next_to_spawn
      → finish p.fetch_error p ≡ whole
  unfolding finish project_from
  finish_whole p held w empty nothing fine spawned =
      let done : to < p.next_to_write = omega (
        arith,
        nothing_missing p held empty nothing (below_none p.next_to_write p.fetch_error fine),
      ) in
      rw fine (ap (rest_at p) (sym (all_written p done)) ∙ w.same)

  pub finish_stalled :
      (p : Pipe X Block) (f : ℕ) (error : IngestionError X)
      → Kept fetch_decoded_block from to p
      → Progresses p
      → is_empty p.tasks ≡ true
      → lookup p.next_to_write p.ready ≡ none
      → p.fetch_error ≡ some (f, error)
      → finish p.fetch_error p ≡ whole
  unfolding finish
  finish_stalled p f error held w empty nothing failed =
      let here = stalled_at p f error held empty nothing failed in
      let (low, high, fails) = held.0.failing f error failed in
      let fails_here : fetch_decoded_block p.next_to_write ≡ err error = rw (← here) fails in
      rw (failed, here)
        (stall_of p.projected_blocks error _ _ (harmless f error fails)
          ∙ sym (
              after_block chain connect fetch_decoded_block write_block from to whole connected p _
                (projects_error p error w fails_here))
          ∙ sym (
              ap (rest_at p) (
                left_to_write chain connect fetch_decoded_block write_block from to whole connected
                  p (omega (arith, here, held.0.in_window))))
          ∙ w.same)
