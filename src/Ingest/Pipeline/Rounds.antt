-- ===== src/Ingest/Pipeline/Rounds.antt =====
-- The rounds of `project_window_pipelined` (crates/ingestion/src/driver.rs): each one ends the loop
-- or leaves less to do.
use explorer_backend.Base.{
  All, Bool, Bool-cases, List, Option, Option-cases, Text, [], ap, arith, false, inl, inr, is_empty,
  length, ltb, none, refl, some, true, ℕ, ◌&&◌, ◌*◌, ◌+◌, ◌-◌, ◌<◌, ◌||◌, ◌∷◌, ◌≡◌, ◌≤◌, ◌⊎◌,
  nat_eq,
}
use explorer_backend.Base.Map.{lookup}
use explorer_backend.Ingest.{
  Database, IngestionError, Outcome, WindowOutcome, err, is_database_failure, ok,
}
use explorer_backend.Ingest.Pipeline.{
  Limits, Pick, Pipe, Progress, Turn, finish, is_some, may_spawn, returned, round, rounds, running,
  top_up, wait_or_finish,
}
use explorer_backend.Ingest.Pipeline.Invariant.{below_error, top_up-Fetching}
use explorer_backend.Ingest.Pipeline.Joining.{Joins, Kept}
use explorer_backend.Ingest.Pipeline.Harvesting.{Calm, harvest_all-After, join_next-After}
use explorer_backend.Ingest.Pipeline.Writing.{Writes, drain-Stops}
use explorer_backend.Ingest.Pipeline.Finishing.{
  Filled, finish_stalled, finish_whole, nothing_missing, top_up-Filled,
}

abbrev pub CalmTurn : {X : Type 0} → Turn X → Type 0
CalmTurn turn = All Calm turn.harvest × Calm turn.wait

not_empty : {A : Type 0} (xs : List A) → is_empty xs ≡ false → 0 < length xs
not_empty [] e = absurd (cc e)
not_empty (x ∷ xs) e = omega arith

empty_length : {A : Type 0} (xs : List A) → is_empty xs ≡ true → length xs ≡ 0
empty_length [] e = refl
empty_length (x ∷ xs) e = absurd (cc e)

length-eq : {A : Type 0} (xs ys : List A) → xs ≡ ys → length xs ≡ length ys
length-eq xs ys e = ap length e

below_no_error :
    {X : Type 0} (h : ℕ) (failure : Option (ℕ × IngestionError X))
    → is_some failure ≡ false
    → below_error h failure ≡ true
unfolding is_some below_error
below_no_error h none e = refl
below_no_error h (some failed) e = absurd (cc e)

still_fine :
    {X Block : Type 0} (filled harvested drained : Pipe X Block)
    → Joins filled harvested
    → drained.fetch_error ≡ harvested.fetch_error
    → is_some drained.fetch_error ≡ false
    → is_some filled.fetch_error ≡ false
still_fine filled harvested drained j error fine = elim (Bool-cases (is_some filled.fetch_error)) [
  | inl failed ↦ absurd (cc (j.failed failed, error, fine))
  | inr e ↦ e
]

module _ {X Block : Type 0} (chain : Text) (connect : ℕ → Outcome X (Unit {0}))
    (fetch_decoded_block : ℕ → Outcome X Block) (write_block : ℕ → Block → Outcome X (Unit {0}))
    (from : ℕ) (l : Limits) (whole : Outcome X WindowOutcome × Database)
    (connected : (h : ℕ) → connect h ≡ ok tt)
    (harmless : (h : ℕ) (e : IngestionError X)
      → fetch_decoded_block h ≡ err e
      → is_database_failure e ≡ false)
    (some_fetch : 0 < l.concurrency) (some_room : 0 < l.max_read_ahead) where
  abbrev Held : Pipe X Block → Type 0
  Held p = Kept fetch_decoded_block from l.to p

  abbrev Progresses : Pipe X Block → Type 0
  Progresses p = Writes chain connect fetch_decoded_block write_block from l.to whole connected p

  -- Two for each fetch that is not started, one for each that runs, and one for each block that is
  -- not written.
  abbrev pub measure : Pipe X Block → ℕ
  measure p = 2 * (l.to + 1 - p.next_to_spawn) + length p.tasks + (l.to + 1 - p.next_to_write)

  record Falls (p : Pipe X Block) (r : Progress X Block) : Type 0 where
    pub next : Pipe X Block
    pub goes_on : r ≡ running next
    pub held : Held next
    pub progresses : Progresses next
    pub fewer : measure next < measure p

  Filled-Progresses : (p q : Pipe X Block) → Filled l p q → Progresses p → Progresses q
  Filled-Progresses p q f w = record {
    same = rw (f.writer, f.counted, f.cursor, f.stored) w.same;
    above = rw (f.writer, f.stored) w.above;
    beyond_zero_state = rw (f.stored) w.beyond_zero_state;
  }

  Joins-Progresses : (p q : Pipe X Block) → Joins p q → Progresses p → Progresses q
  Joins-Progresses p q f w = record {
    same = rw (f.writer, f.counted, f.cursor, f.stored) w.same;
    above = rw (f.writer, f.stored) w.above;
    beyond_zero_state = rw (f.stored) w.beyond_zero_state;
  }

  no_room :
      (q : Pipe X Block)
      → may_spawn l q ≡ false
      → is_some q.fetch_error ≡ false
      → q.next_to_spawn ≤ l.to
      → length q.tasks ≡ 0
      → q.next_to_write < q.next_to_spawn
  unfolding may_spawn
  no_room q stopped fine inside idle = ground arith

  -- Without a finished round, something was joined or written.
  round_falls :
      (p filled harvested drained next : Pipe X Block)
      → Filled l p filled
      → Joins filled harvested
      → harvested.next_to_write ≤ drained.next_to_write
      → drained.tasks ≡ harvested.tasks
      → drained.next_to_spawn ≡ harvested.next_to_spawn
      → drained.fetch_error ≡ harvested.fetch_error
      → Held drained
      → lookup drained.next_to_write drained.ready ≡ none
      → (is_empty drained.tasks && (is_some drained.fetch_error || ltb l.to drained.next_to_spawn))
        ≡ false
      → Joins drained next
      → length next.tasks ≤ length drained.tasks - 1
      → measure next < measure p
  round_falls p filled harvested drained next f j forward tasks spawner error held nothing stays j'
        left =
      elim (Bool-cases (is_empty drained.tasks)) [
        | inr busy ↦ omega (
          arith,
          not_empty drained.tasks busy,
          length-eq drained.tasks harvested.tasks tasks,
          f.spent,
          f.writer,
          j.fewer,
          j.writer,
          j.spawner,
          j'.writer,
          j'.spawner,
        )
        | inl idle ↦
            let failed : is_some drained.fetch_error ≡ false = ground (arith, stays, idle) in
            let unspawned : drained.next_to_spawn ≤ l.to = ground (arith, stays, idle) in
            let caught_up =
              nothing_missing chain connect fetch_decoded_block write_block from l.to whole
                connected harmless drained held idle nothing
                (below_no_error drained.next_to_write drained.fetch_error failed) in
            elim (Bool-cases (is_empty filled.tasks)) [
              | inr busy ↦ omega (
                arith,
                not_empty filled.tasks busy,
                empty_length drained.tasks idle,
                f.spent,
                f.writer,
                j.writer,
                j.spawner,
                j'.writer,
                j'.spawner,
                length-eq drained.tasks harvested.tasks tasks,
              )
              | inl none_left ↦
                  let room =
                    no_room filled f.stopped (still_fine filled harvested drained j error failed)
                      (omega (arith, j.spawner, unspawned)) (empty_length filled.tasks none_left) in
                  omega (
                    arith,
                    caught_up,
                    room,
                    held.0.in_window,
                    held.0.ordered,
                    f.spent,
                    f.writer,
                    j.fewer,
                    j.writer,
                    j.spawner,
                    j'.writer,
                    j'.spawner,
                    length-eq drained.tasks harvested.tasks tasks,
                  )
            ]
      ]

  abbrev Ends : Pipe X Block → Progress X Block → Type 0
  Ends p r = Falls p r ⊎ (r ≡ returned whole)

  and_left : (a b : Bool) → (a && b) ≡ true → a ≡ true
  and_left a b e = ground (arith, e)

  spawned_all :
      (p : Pipe X Block)
      → p.fetch_error ≡ none
      → (is_empty p.tasks && (is_some p.fetch_error || ltb l.to p.next_to_spawn)) ≡ true
      → l.to < p.next_to_spawn
  unfolding is_some
  spawned_all p fine over = ground (arith, fine, over)

  finish_both :
      (p : Pipe X Block)
      → Held p
      → Progresses p
      → lookup p.next_to_write p.ready ≡ none
      → (is_empty p.tasks && (is_some p.fetch_error || ltb l.to p.next_to_spawn)) ≡ true
      → finish p.fetch_error p ≡ whole
  finish_both p held w nothing over = elim (Option-cases p.fetch_error) [
    | inl fine ↦
        finish_whole chain connect fetch_decoded_block write_block from l.to whole connected
          harmless p held w (and_left _ _ over) nothing fine (spawned_all p fine over)
    | inr ((f, error), failed) ↦
        finish_stalled chain connect fetch_decoded_block write_block from l.to whole connected
          harmless p f error held w (and_left _ _ over) nothing failed
  ]

  join_or_finish :
      (wait : Pick X) (p filled harvested drained : Pipe X Block)
      → Calm wait
      → Filled l p filled
      → Joins filled harvested
      → harvested.next_to_write ≤ drained.next_to_write
      → drained.tasks ≡ harvested.tasks
      → drained.next_to_spawn ≡ harvested.next_to_spawn
      → drained.fetch_error ≡ harvested.fetch_error
      → Held drained
      → Progresses drained
      → lookup drained.next_to_write drained.ready ≡ none
      → Ends p (wait_or_finish chain connect fetch_decoded_block write_block l wait drained)
  unfolding wait_or_finish
  join_or_finish wait p filled harvested drained calm f j forward tasks spawner error held w
        nothing =
      elim (Bool-cases (
        is_empty drained.tasks
        && (is_some drained.fetch_error || ltb l.to drained.next_to_spawn))) [
          | inl over ↦ rw over (inr (ap returned (finish_both drained held w nothing over)))
          | inr stays ↦ rw stays (
              let a =
                join_next-After chain connect fetch_decoded_block write_block from l.to wait drained
                  calm held in
              inl (record {
                next = a.next;
                goes_on = a.goes_on;
                held = a.kept;
                progresses = Joins-Progresses drained a.next a.joins w;
                fewer =
                    round_falls p filled harvested drained a.next f j forward tasks spawner error
                      held nothing stays a.joins a.left_over;
              }))
        ]

  round-Ends :
      (turn : Turn X) (p : Pipe X Block)
      → CalmTurn turn
      → Held p
      → Progresses p
      → Ends p (round chain connect fetch_decoded_block write_block l turn p)
  unfolding round
  round-Ends turn p calm held w =
      let fuel = l.to + 1 - p.next_to_spawn in
      let filled = top_up l fuel p in
      let f = top_up-Filled l fuel p (omega arith) in
      let kept = top_up-Fetching fetch_decoded_block from l.to l fuel p refl held.0 held.1 in
      let a =
        harvest_all-After chain connect fetch_decoded_block write_block from l.to turn.harvest
          filled calm.0 kept in
      let wh = Joins-Progresses filled a.next a.joins (Filled-Progresses p filled f w) in
      rw a.goes_on
        (elim (drain-Stops chain connect fetch_decoded_block write_block from l.to whole connected
          (length a.next.ready) a.next (omega arith) a.kept wh) [
            | inl d ↦ rw d.goes_on (
                join_or_finish turn.wait p filled a.next d.next calm.1 f a.joins d.forward
                  d.same_tasks d.same_spawner d.same_error d.kept d.writes d.nothing_ready)
            | inr done ↦ rw done (inr refl)
          ])

  pub rounds-whole :
      (turns : List (Turn X)) (p : Pipe X Block)
      → All CalmTurn turns
      → Held p
      → Progresses p
      → measure p < length turns
      → rounds chain connect fetch_decoded_block write_block l turns p ≡ returned whole
  unfolding rounds
  rounds-whole [] p calm held w enough = absurd (omega arith)
  rounds-whole (turn ∷ turns) p calm held w enough = elim (round-Ends turn p calm.0 held w) [
    | inl falls ↦ rw falls.goes_on (
        rounds-whole turns falls.next calm.1 falls.held falls.progresses
          (omega (arith, falls.fewer)))
    | inr done ↦ rw done refl
  ]
