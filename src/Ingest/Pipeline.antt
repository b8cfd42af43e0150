-- ===== src/Ingest/Pipeline.antt =====
-- The pipelined block projection of crates/ingestion/src/driver.rs: `project_window_pipelined` with
-- `record_fetched` and `write_decoded_block`. Which fetches are finished when, and which cancelled
-- fetch still comes back with a block, is a schedule: one turn for each round of the loop.
pub mod Invariant
pub mod Harvesting
pub mod Equivalence
pub mod Finishing
pub mod Joining
pub mod Rounds
pub mod Sane
pub mod Prefix
mod Tests
pub mod Writing
use explorer_backend.Base.{
  Bool, List, Option, Text, [], any, false, if◌then◌else◌, is_empty, keep_if, leb, length, ltb, max,
  none, not, some, suc, true, zero, ℕ, ◌&&◌, ◌+◌, ◌-◌, ◌==◌, ◌||◌, ◌∷◌, nat_eq,
}
use explorer_backend.Base.Map.{insert, lookup, remove}
use explorer_backend.FetchPlan.{FetchWindow}
use explorer_backend.Ingest.{
  Database, IngestionError, Outcome, WindowOutcome, commit_block, err, keeps_committed_prefix, ok,
  other, ◌>>◌,
}

-- A fetch that runs, and whether its abort handle was used.
pub record FetchTask : Type 0 where
  pub height : ℕ
  pub aborted : Bool

-- The finished task that the join set hands out next: a cancelled join if the task was aborted in
-- time, a panic, or the fetch's result.
pub record Pick (X : Type 0) : Type 0 where
  pub index : ℕ
  pub cancelled : Bool
  pub panic : Option X

-- One round of the loop: the fetches that are finished when it harvests, and the one it waits for.
pub record Turn (X : Type 0) : Type 0 where
  pub harvest : List (Pick X)
  pub wait : Pick X

pub data Joined (X Block : Type 0) : Type 0 where
  cancelled : Joined X Block
  panicked : X → Joined X Block
  fetched : ℕ → Outcome X Block → Joined X Block

-- The variables of the loop, and the database.
pub record Pipe (X Block : Type 0) : Type 0 where
  pub tasks : List FetchTask
  pub in_flight : List ℕ
  pub ready : List (ℕ × Block)
  pub next_to_spawn : ℕ
  pub next_to_write : ℕ
  pub projected_blocks : ℕ
  pub cursor_height_after : ℕ
  pub fetch_error : Option (ℕ × IngestionError X)
  pub database : Database

pub record Limits : Type 0 where
  pub to : ℕ
  pub concurrency : ℕ
  pub max_read_ahead : ℕ

pub data Progress (X Block : Type 0) : Type 0 where
  running : Pipe X Block → Progress X Block
  returned : Outcome X WindowOutcome × Database → Progress X Block

abbrev pub and_then :
    {X Block : Type 0} → Progress X Block → (Pipe X Block → Progress X Block) → Progress X Block
and_then (running p) f = f p
and_then (returned r) f = returned r

abbrev pub window_outcome : {X : Type 0} → ℕ → ℕ → Option ℕ → Outcome X WindowOutcome
window_outcome projected cursor stalled = ok (record {
  projected_blocks = projected;
  cursor_height_after = cursor;
  stalled_height = stalled;
})

unfoldable pub limits_of : ℕ → FetchWindow → Limits
limits_of queue_capacity window =
    let concurrency = max window.concurrency 1 in
    record {
      to = window.to_height;
      concurrency = concurrency;
      max_read_ahead = max queue_capacity concurrency;
    }

unfoldable pub start : {X Block : Type 0} → FetchWindow → ℕ → Database → Pipe X Block
start window cursor_height d = record {
  tasks = [];
  in_flight = [];
  ready = [];
  next_to_spawn = window.from_height;
  next_to_write = window.from_height;
  projected_blocks = 0;
  cursor_height_after = cursor_height;
  fetch_error = none;
  database = d;
}

unfoldable pub is_some : {A : Type 0} → Option A → Bool
is_some none = false
is_some (some a) = true

unfoldable pub may_spawn : {X Block : Type 0} → Limits → Pipe X Block → Bool
unfolding is_some
may_spawn l p =
    not (is_some p.fetch_error)
    && leb p.next_to_spawn l.to
    && ltb (length p.tasks) l.concurrency
    && ltb (p.next_to_spawn - p.next_to_write) l.max_read_ahead

unfoldable pub spawn : {X Block : Type 0} → Pipe X Block → Pipe X Block
spawn p = record p {
  tasks = record { height = p.next_to_spawn; aborted = false } ∷ p.tasks;
  in_flight = p.next_to_spawn ∷ p.in_flight;
  next_to_spawn = p.next_to_spawn + 1;
}

unfoldable pub top_up : {X Block : Type 0} → Limits → ℕ → Pipe X Block → Pipe X Block
top_up l zero p = p
top_up l (suc fuel) p = let rest = top_up l fuel (spawn p) in if may_spawn l p then rest else p

-- The task at an index, the last one beyond the end, and the others.
unfoldable pub pick_task : ℕ → FetchTask → List FetchTask → FetchTask × List FetchTask
pick_task i t [] = (t, [])
pick_task zero t (u ∷ us) = (t, u ∷ us)
pick_task (suc i) t (u ∷ us) = let (v, rest) = pick_task i u us in (v, t ∷ rest)

-- `in_flight.split_off(&height)` with the aborts.
unfoldable pub abort_from : ℕ → List ℕ → List FetchTask → List FetchTask
abort_from height in_flight [] = []
abort_from height in_flight (t ∷ ts) =
    record t { aborted = t.aborted || (leb height t.height && any (λ h. h == t.height) in_flight) }
    ∷ abort_from height in_flight ts

unfoldable pub supersedes : {X : Type 0} → ℕ → Option (ℕ × IngestionError X) → Bool
supersedes height none = true
supersedes height (some (failed_height, error)) = ltb height failed_height

unfoldable pub record_result :
    {X Block : Type 0} → ℕ → Outcome X Block → Pipe X Block → Pipe X Block
record_result height (ok block) p = record p { ready = insert height block p.ready }
record_result height (err error) p =
    if supersedes height p.fetch_error
    then record p {
      tasks = abort_from height p.in_flight p.tasks;
      in_flight = keep_if (λ h. ltb h height) p.in_flight;
      fetch_error = some (height, error);
    }
    else p

unfoldable pub record_fetched :
    {X Block : Type 0} → Joined X Block → Pipe X Block → Progress X Block
unfolding record_result
record_fetched cancelled p = running p
record_fetched (panicked x) p = returned (err (other x), p.database)
record_fetched (fetched height result) p = running (
    record_result height result
      (record p { in_flight = keep_if (λ h. not (h == height)) p.in_flight }))

unfoldable pub finish :
    {X Block : Type 0}
    → Option (ℕ × IngestionError X)
    → Pipe X Block
    → Outcome X WindowOutcome × Database
finish none p = (window_outcome p.projected_blocks p.cursor_height_after none, p.database)
finish (some (stalled_height, error)) p =
    if p.projected_blocks == 0
    then (err error, p.database)
    else (window_outcome p.projected_blocks p.cursor_height_after (some stalled_height), p.database)

unfoldable pub on_written :
    {X Block : Type 0}
    → Pipe X Block
    → Outcome X ℕ × Database
    → (Pipe X Block → Progress X Block)
    → Progress X Block
on_written p (ok advanced_height, d) continue = continue (record p {
  ready = remove p.next_to_write p.ready;
  next_to_write = p.next_to_write + 1;
  projected_blocks = p.projected_blocks + 1;
  cursor_height_after = advanced_height;
  database = d;
})
on_written p (err error, d) continue =
    if keeps_committed_prefix p.projected_blocks error
    then returned
        (window_outcome p.projected_blocks p.cursor_height_after (some p.next_to_write), d)
    else returned (err error, d)

module _ {X Block : Type 0} (chain : Text) (connect : ℕ → Outcome X (Unit {0}))
    (fetch_decoded_block : ℕ → Outcome X Block)
    (write_block : ℕ → Block → Outcome X (Unit {0})) where
  unfoldable pub joined : Pick X → FetchTask → Joined X Block
  joined pick task = if task.aborted && pick.cancelled then cancelled else elim pick.panic [
    | some x ↦ panicked x
    | none ↦ fetched task.height (fetch_decoded_block task.height)
  ]

  unfoldable pub join_next : Pick X → List FetchTask → Pipe X Block → Progress X Block
  join_next pick [] p = running p
  join_next pick (t ∷ ts) p =
      let (task, rest) = pick_task pick.index t ts in
      record_fetched (joined pick task) (record p { tasks = rest })

  unfoldable pub harvest_all : List (Pick X) → Pipe X Block → Progress X Block
  harvest_all [] p = running p
  harvest_all (pick ∷ picks) p = and_then (join_next pick p.tasks p) (harvest_all picks)

  unfoldable pub write_decoded_block : ℕ → Block → Database → Outcome X ℕ × Database
  unfolding commit_block
  write_decoded_block height block d =
      commit_block chain connect fetch_decoded_block write_block height d
        (connect height >> write_block height block)

  -- The blocks that are contiguous from the cursor; the fuel is their buffer's length.
  unfoldable pub drain : ℕ → Pipe X Block → Progress X Block
  drain zero p = running p
  drain (suc fuel) p = elim (lookup p.next_to_write p.ready) [
    | none ↦ running p
    | some block ↦ on_written p (write_decoded_block p.next_to_write block p.database) (drain fuel)
  ]

  unfoldable pub wait_or_finish : Limits → Pick X → Pipe X Block → Progress X Block
  wait_or_finish l pick p =
      if is_empty p.tasks && (is_some p.fetch_error || ltb l.to p.next_to_spawn)
      then returned (finish p.fetch_error p)
      else join_next pick p.tasks p

  unfoldable pub round : Limits → Turn X → Pipe X Block → Progress X Block
  round l turn p =
      and_then (harvest_all turn.harvest (top_up l (l.to + 1 - p.next_to_spawn) p)) λ harvested.
        and_then (drain (length harvested.ready) harvested) (wait_or_finish l turn.wait)

  unfoldable pub rounds : Limits → List (Turn X) → Pipe X Block → Progress X Block
  rounds l [] p = running p
  rounds l (turn ∷ turns) p = and_then (round l turn p) (rounds l turns)

  unfoldable pub project_window_pipelined :
      ℕ → List (Turn X) → FetchWindow → ℕ → Database → Progress X Block
  project_window_pipelined queue_capacity turns window cursor_height d =
      rounds (limits_of queue_capacity window) turns (start window cursor_height d)
