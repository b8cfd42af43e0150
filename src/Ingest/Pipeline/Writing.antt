-- ===== src/Ingest/Pipeline/Writing.antt =====
-- The writer of `project_window_pipelined` (crates/ingestion/src/driver.rs): each block that it
-- writes is the one that the sequential loop would project next.
use explorer_backend.Base.{
  ==_iff, Bool, Bool-cases, List, Option-cases, Text, [], ap, arith, codes, false, if◌then◌else◌,
  inl, inr, length, none, refl, some, suc, sym, text_beq, true, zero, ℕ, ◌+◌, ◌-◌, ◌<◌, ◌==◌, ◌∙◌,
  ◌∷◌, ◌≡◌, ◌≤◌, ◌⊎◌, nat_eq,
}
use explorer_backend.Base.Map.{length-remove_lt, lookup, lookup-remove, remove}
use explorer_backend.Ingest.{
  Database, IngestionError, Outcome, WindowOutcome, advance_cursor, commit_block, err,
  keeps_committed_prefix, main_zero_state_boundary_height, ok, on_block, project_from,
  project_raw_block_and_advance_cursor, validate_projected_height, validate_zero_state_scope,
}
use explorer_backend.Ingest.Pipeline.{
  Pipe, Progress, drain, on_written, returned, running, write_decoded_block,
}
use explorer_backend.Ingest.Pipeline.Invariant.{Covered, Fetching}
use explorer_backend.Ingest.Pipeline.Joining.{Kept}

if_ap :
    {A B : Type 0} (f : A → B) (b : Bool) (r s : A)
    → (if b then f r else f s) ≡ f (if b then r else s)
if_ap f true r s = refl
if_ap f false r s = refl

lookup-empty : {V : Type 0} (h : ℕ) (m : List (ℕ × V)) → length m ≤ 0 → lookup h m ≡ none
unfolding lookup
lookup-empty h [] e = refl
lookup-empty h (kv ∷ m) e = absurd (omega arith)

module _ {X Block : Type 0} (chain : Text) (connect : ℕ → Outcome X (Unit {0}))
    (fetch_decoded_block : ℕ → Outcome X Block) (write_block : ℕ → Block → Outcome X (Unit {0}))
    (from to : ℕ) (whole : Outcome X WindowOutcome × Database)
    (connected : (h : ℕ) → connect h ≡ ok tt) where
  abbrev Held : Pipe X Block → Type 0
  Held p = Kept fetch_decoded_block from to p

  abbrev rest_of : Pipe X Block → ℕ → Outcome X WindowOutcome × Database
  rest_of p left =
      project_from chain connect fetch_decoded_block write_block p.next_to_write p.projected_blocks
        p.cursor_height_after p.database left

  -- The sequential loop, from where the writer stands, comes to the whole window's result.
  pub record Writes (p : Pipe X Block) : Type 0 where
    pub same : rest_of p (to + 1 - p.next_to_write) ≡ whole
    pub above : p.database.current_height < p.next_to_write
    pub beyond_zero_state :
        text_beq chain (codes "main") ≡ true
        → main_zero_state_boundary_height ≤ p.database.current_height

  abbrev committed : ℕ → Database → Outcome X (Unit {0}) → Outcome X ℕ × Database
  committed height d o = commit_block chain connect fetch_decoded_block write_block height d o

  pub scope_valid :
      (p : Pipe X Block)
      → Writes p
      → validate_zero_state_scope {X = X} chain p.database.current_height ≡ ok tt
  unfolding validate_zero_state_scope
  scope_valid p w = ground (arith, w.beyond_zero_state)

  pub height_valid :
      (p : Pipe X Block)
      → Writes p
      → validate_projected_height {X = X} chain p.next_to_write ≡ ok tt
  unfolding validate_projected_height
  height_valid p w = ground (arith, w.beyond_zero_state)

  projects :
      (p : Pipe X Block) (block : Block)
      → Writes p
      → fetch_decoded_block p.next_to_write ≡ ok block
      → project_raw_block_and_advance_cursor chain connect fetch_decoded_block write_block
          p.next_to_write p.database
        ≡ committed p.next_to_write p.database (write_block p.next_to_write block)
  unfolding project_raw_block_and_advance_cursor
  projects p block w got =
      rw (connected p.next_to_write, scope_valid p w, height_valid p w, got) refl

  abbrev wrote : Pipe X Block → Database → Pipe X Block
  wrote p d = record p {
    ready = remove p.next_to_write p.ready;
    next_to_write = p.next_to_write + 1;
    projected_blocks = p.projected_blocks + 1;
    cursor_height_after = d.current_height;
    database = d;
  }

  wrote-Fetching :
      (p : Pipe X Block) (block : Block) (d : Database)
      → lookup p.next_to_write p.ready ≡ some block
      → Fetching fetch_decoded_block from to p
      → Fetching fetch_decoded_block from to (wrote p d)
  wrote-Fetching p block d waits f = record {
    started = omega (arith, f.started);
    ordered = omega (arith, (f.sound p.next_to_write block waits).0);
    in_window = f.in_window;
    written = λ h above below. elim (Bool-cases (p.next_to_write == h)) [
      | inl this ↦ (
        block,
        ground (arith, (==_iff p.next_to_write h).0 this, f.sound p.next_to_write block waits),
      )
      | inr before ↦ f.written h above (ground arith)
    ];
    sound = λ h b found. f.sound h b (ground (arith, lookup-remove p.next_to_write h p.ready));
    owned = f.owned;
    failing = f.failing;
  }

  wrote-Covered :
      (p : Pipe X Block) (d : Database)
      → Covered fetch_decoded_block from to p
      → Covered fetch_decoded_block from to (wrote p d)
  wrote-Covered p d c h above spawned below =
      ground (arith, c h (omega arith) spawned below, lookup-remove p.next_to_write h p.ready)

  abbrev advanced : Pipe X Block → Database
  advanced p =
      advance_cursor p.next_to_write
        (record p.database { blocks = p.next_to_write ∷ p.database.blocks })

  pub left_to_write :
      (p : Pipe X Block)
      → p.next_to_write ≤ to
      → to + 1 - p.next_to_write ≡ suc (to - p.next_to_write)
  left_to_write p le = omega arith

  abbrev project_rest : ℕ → ℕ → ℕ → Database → ℕ → Outcome X WindowOutcome × Database
  project_rest = project_from chain connect fetch_decoded_block write_block

  plus_one : (n : ℕ) → n + 1 ≡ suc n
  plus_one n = omega arith

  one_less : (n : ℕ) → to + 1 - (n + 1) ≡ to - n
  one_less n = omega arith

  -- The sequential loop's step at a block that comes to `r`.
  pub after_block :
      (p : Pipe X Block) (r : Outcome X ℕ × Database)
      → project_raw_block_and_advance_cursor chain connect fetch_decoded_block write_block
          p.next_to_write p.database
        ≡ r
      → rest_of p (suc (to - p.next_to_write))
        ≡ on_block chain connect fetch_decoded_block write_block p.next_to_write p.projected_blocks
            p.cursor_height_after r
            λ height d.
              project_rest
                (suc p.next_to_write)
                (p.projected_blocks + 1)
                height
                d
                (to - p.next_to_write)
  unfolding project_from
  after_block p r e =
      ap
        (λ s.
          on_block chain connect fetch_decoded_block write_block p.next_to_write p.projected_blocks
            p.cursor_height_after s
            λ height d.
              project_rest (suc p.next_to_write) (p.projected_blocks + 1) height d
                (to - p.next_to_write))
        e

  rest_of-wrote :
      (p : Pipe X Block)
      → p.next_to_write ≤ to
      → Writes p
      → (project_raw_block_and_advance_cursor chain connect fetch_decoded_block write_block
            p.next_to_write p.database
          ≡ committed p.next_to_write p.database (ok tt))
      → rest_of (wrote p (advanced p)) (to + 1 - (p.next_to_write + 1)) ≡ whole
  unfolding commit_block
  rest_of-wrote p le w e =
      ap
        (λ n.
          project_rest n (p.projected_blocks + 1) (advanced p).current_height (advanced p)
            (to + 1 - (p.next_to_write + 1)))
        (plus_one p.next_to_write)
      ∙ ap
          (project_rest (suc p.next_to_write) (p.projected_blocks + 1) (advanced p).current_height
            (advanced p))
          (one_less p.next_to_write)
      ∙ sym (after_block p (committed p.next_to_write p.database (ok tt)) e)
      ∙ sym (ap (rest_of p) (left_to_write p le))
      ∙ w.same

  failed_write :
      (p : Pipe X Block) (error : IngestionError X) (continue : Pipe X Block → Progress X Block)
      → p.next_to_write ≤ to
      → Writes p
      → (project_raw_block_and_advance_cursor chain connect fetch_decoded_block write_block
            p.next_to_write p.database
          ≡ committed p.next_to_write p.database (err error))
      → on_written p (err error, p.database) continue ≡ returned whole
  unfolding commit_block on_written
  failed_write p error continue le w e =
      if_ap {B = Progress X Block} returned (keeps_committed_prefix p.projected_blocks error) _ _
      ∙ ap returned (
          sym (after_block p (err error, p.database) e)
          ∙ sym (ap (rest_of p) (left_to_write p le))
          ∙ w.same)

  writes_through :
      (p : Pipe X Block) (block : Block)
      → write_decoded_block chain connect fetch_decoded_block write_block p.next_to_write block
          p.database
        ≡ committed p.next_to_write p.database (write_block p.next_to_write block)
  unfolding write_decoded_block
  writes_through p block = rw (connected p.next_to_write) refl

  -- Where the loop stands when no block is left that it could write.
  pub record Drained (p : Pipe X Block) (r : Progress X Block) : Type 0 where
    pub next : Pipe X Block
    pub goes_on : r ≡ running next
    pub kept : Held next
    pub writes : Writes next
    pub nothing_ready : lookup next.next_to_write next.ready ≡ none
    pub forward : p.next_to_write ≤ next.next_to_write
    pub same_tasks : next.tasks ≡ p.tasks
    pub same_spawner : next.next_to_spawn ≡ p.next_to_spawn
    pub same_error : next.fetch_error ≡ p.fetch_error

  wrote-Drained :
      (p : Pipe X Block) (d : Database) (r : Progress X Block) → Drained (wrote p d) r → Drained p r
  wrote-Drained p d r a = record {
    next = a.next;
    goes_on = a.goes_on;
    kept = a.kept;
    writes = a.writes;
    nothing_ready = a.nothing_ready;
    forward = omega (arith, a.forward);
    same_tasks = a.same_tasks;
    same_spawner = a.same_spawner;
    same_error = a.same_error;
  }

  wrote-Writes :
      (p : Pipe X Block)
      → p.next_to_write ≤ to
      → Writes p
      → (project_raw_block_and_advance_cursor chain connect fetch_decoded_block write_block
            p.next_to_write p.database
          ≡ committed p.next_to_write p.database (ok tt))
      → Writes (wrote p (advanced p))
  unfolding advance_cursor
  wrote-Writes p le w e = record {
    same = rest_of-wrote p le w e;
    above = omega (arith, w.above);
    beyond_zero_state = λ main. omega (arith, w.beyond_zero_state main);
  }

  abbrev Stops : Pipe X Block → Progress X Block → Type 0
  Stops p r = Drained p r ⊎ (r ≡ returned whole)

  -- One write, with what `drain` then does.
  write_one :
      (p : Pipe X Block) (block : Block) (o : Outcome X (Unit {0}))
      (continue : Pipe X Block → Progress X Block)
      → lookup p.next_to_write p.ready ≡ some block
      → Held p
      → Writes p
      → (project_raw_block_and_advance_cursor chain connect fetch_decoded_block write_block
            p.next_to_write p.database
          ≡ committed p.next_to_write p.database o)
      → (Held (wrote p (advanced p))
          → Writes (wrote p (advanced p))
          → Stops (wrote p (advanced p)) (continue (wrote p (advanced p))))
      → Stops p (on_written p (committed p.next_to_write p.database o) continue)
  unfolding on_written commit_block
  write_one p block (err error) continue waits (f, c) w e k = inr (
      failed_write p error continue
        (omega (arith, f.in_window, (f.sound p.next_to_write block waits).0)) w e)
  write_one p block (ok u) continue waits (f, c) w e k =
      let le : p.next_to_write ≤ to =
        omega (arith, f.in_window, (f.sound p.next_to_write block waits).0) in
      elim (k (wrote-Fetching p block (advanced p) waits f, wrote-Covered p (advanced p) c)
        (wrote-Writes p le w e)) [
          | inl drained ↦ inl (wrote-Drained p (advanced p) _ drained)
          | inr done ↦ inr done
        ]

  pub drain-Stops :
      (fuel : ℕ) (p : Pipe X Block)
      → length p.ready ≤ fuel
      → Held p
      → Writes p
      → Stops p (drain chain connect fetch_decoded_block write_block fuel p)
  unfolding drain
  drain-Stops zero p enough held w = inl (record {
    next = p;
    goes_on = refl;
    kept = held;
    writes = w;
    nothing_ready = lookup-empty p.next_to_write p.ready enough;
    forward = omega arith;
    same_tasks = refl;
    same_spawner = refl;
    same_error = refl;
  })
  drain-Stops (suc fuel) p enough held w = elim (Option-cases (lookup p.next_to_write p.ready)) [
    | inl nothing ↦
        rw (nothing, drain)
          (inl (record {
            next = p;
            goes_on = refl;
            kept = held;
            writes = w;
            nothing_ready = nothing;
            forward = omega arith;
            same_tasks = refl;
            same_spawner = refl;
            same_error = refl;
          }))
    | inr (block, waits) ↦
        rw (waits, drain, writes_through p block)
          (write_one p block (write_block p.next_to_write block)
            (drain chain connect fetch_decoded_block write_block fuel) waits held w
            (projects p block w (held.0.sound p.next_to_write block waits).1)
            λ held' w'.
              drain-Stops fuel (wrote p (advanced p))
                (omega (arith, length-remove_lt p.next_to_write block p.ready waits)) held' w')
  ]
