-- ===== src/Ingest/Pipeline/Harvesting.antt =====
-- Joining the finished fetches (`try_join_next` and `join_next` in
-- crates/ingestion/src/driver.rs): without a panic the loop goes on, with what holds of the fetches.
use explorer_backend.Base.{
  ==_iff, All, Bool-cases, List, Text, [], arith, inl, inr, keep_if, length, none, not, refl, true,
  ℕ, ◌&&◌, ◌-◌, ◌==◌, ◌∷◌, ◌≡◌, ◌≤◌, nat_eq,
}
use explorer_backend.Ingest.{Outcome}
use explorer_backend.Ingest.Pipeline.{
  Pick, Pipe, Progress, FetchTask, harvest_all, join_next, joined, pick_task, record_fetched,
  record_result, running,
}
use explorer_backend.Ingest.Pipeline.Invariant.{
  Covered, CoveredBut, Fetching, Owned, length-pick_task, pick_task-All, pick_task-fetching,
}
use explorer_backend.Ingest.Pipeline.Joining.{
  Joins, Joins-refl, Joins-trans, Kept, record_result-Joins, record_result-Kept,
}

abbrev pub Calm : {X : Type 0} → Pick X → Type 0
Calm pick = pick.panic ≡ none

module _ {X Block : Type 0} (chain : Text) (connect : ℕ → Outcome X (Unit {0}))
    (fetch_decoded_block : ℕ → Outcome X Block) (write_block : ℕ → Block → Outcome X (Unit {0}))
    (from to : ℕ) where
  abbrev Held : Pipe X Block → Type 0
  Held p = Kept fetch_decoded_block from to p

  abbrev picked : Pick X → FetchTask → List FetchTask → Pipe X Block → Pipe X Block
  picked pick t ts p = record p { tasks = (pick_task pick.index t ts).1 }

  picked-Fetching :
      (pick : Pick X) (t : FetchTask) (ts : List FetchTask) (p : Pipe X Block)
      → Fetching fetch_decoded_block from to (record p { tasks = t ∷ ts })
      → Fetching fetch_decoded_block from to (picked pick t ts p)
  picked-Fetching pick t ts p f = record {
    started = f.started;
    ordered = f.ordered;
    in_window = f.in_window;
    written = f.written;
    sound = f.sound;
    owned =
        (pick_task-All (λ u. Owned from p.next_to_spawn p.fetch_error u) pick.index t ts f.owned).1;
    failing = f.failing;
  }

  picked-CoveredBut :
      (pick : Pick X) (t : FetchTask) (ts : List FetchTask) (p : Pipe X Block)
      → Covered fetch_decoded_block from to (record p { tasks = t ∷ ts })
      → CoveredBut fetch_decoded_block from to
          (pick_task pick.index t ts).0.height
          (picked pick t ts p)
  picked-CoveredBut pick t ts p c h above spawned below =
      ground (arith, c h above spawned below, pick_task-fetching h pick.index t ts)

  cancelled-Covered :
      (task : FetchTask) (p : Pipe X Block)
      → Owned from p.next_to_spawn p.fetch_error task
      → task.aborted ≡ true
      → CoveredBut fetch_decoded_block from to task.height p
      → Covered fetch_decoded_block from to p
  cancelled-Covered task p owned cut c h above spawned below =
      elim (Bool-cases (task.height == h)) [
        | inl same ↦ ground (arith, owned.2 cut, (==_iff task.height h).0 same)
        | inr other_height ↦ ground (arith, other_height, c h above spawned below)
      ]

  -- Where the loop stands after a join.
  pub record After (p : Pipe X Block) (left : ℕ) (r : Progress X Block) : Type 0 where
    pub next : Pipe X Block
    pub goes_on : r ≡ running next
    pub joins : Joins p next
    pub kept : Held next
    pub left_over : length next.tasks ≤ left

  abbrev landed : FetchTask → Pipe X Block → Pipe X Block
  landed task p = record p { in_flight = keep_if (λ h. not (h == task.height)) p.in_flight }

  landed-Joins : (task : FetchTask) (p : Pipe X Block) → Joins p (landed task p)
  landed-Joins task p = record {
    writer = refl;
    spawner = refl;
    counted = refl;
    cursor = refl;
    stored = refl;
    fewer = omega arith;
    failed = λ e. e;
  }

  landed-Fetching :
      (task : FetchTask) (p : Pipe X Block)
      → Fetching fetch_decoded_block from to p
      → Fetching fetch_decoded_block from to (landed task p)
  landed-Fetching task p f = record {
    started = f.started;
    ordered = f.ordered;
    in_window = f.in_window;
    written = f.written;
    sound = f.sound;
    owned = f.owned;
    failing = f.failing;
  }

  joined-After :
      (pick : Pick X) (task : FetchTask) (p : Pipe X Block)
      → Calm pick
      → Owned from p.next_to_spawn p.fetch_error task
      → Fetching fetch_decoded_block from to p
      → CoveredBut fetch_decoded_block from to task.height p
      → After p
          (length p.tasks)
          (record_fetched (joined chain connect fetch_decoded_block write_block pick task) p)
  unfolding record_fetched joined
  joined-After pick task p calm owned f c = elim (Bool-cases (task.aborted && pick.cancelled)) [
    | inl cut ↦ rw cut (record {
      next = p;
      goes_on = refl;
      joins = Joins-refl p;
      kept = (f, cancelled-Covered task p owned (ground arith) c);
      left_over = omega arith;
    })
    | inr back ↦
        rw (back, calm)
          (record {
            next = record_result task.height (fetch_decoded_block task.height) (landed task p);
            goes_on = refl;
            joins =
                Joins-trans (landed-Joins task p)
                  (record_result-Joins task.height _ (landed task p));
            kept =
                record_result-Kept fetch_decoded_block from to task.height _ (landed task p) owned.0
                  owned.1 refl (landed-Fetching task p f) c;
            left_over = (record_result-Joins task.height _ (landed task p)).fewer;
          })
  ]

  picked-Joins :
      (pick : Pick X) (t : FetchTask) (ts : List FetchTask) (p : Pipe X Block)
      → Joins (record p { tasks = t ∷ ts }) (picked pick t ts p)
  picked-Joins pick t ts p = record {
    writer = refl;
    spawner = refl;
    counted = refl;
    cursor = refl;
    stored = refl;
    fewer = omega (arith, length-pick_task pick.index t ts);
    failed = λ e. e;
  }

  After-earlier :
      (p q : Pipe X Block) (left more : ℕ) (r : Progress X Block)
      → Joins p q
      → left ≤ more
      → After q left r
      → After p more r
  After-earlier p q left more r joins le a = record {
    next = a.next;
    goes_on = a.goes_on;
    joins = Joins-trans joins a.joins;
    kept = a.kept;
    left_over = omega (arith, a.left_over);
  }

  join_tasks-After :
      (pick : Pick X) (ts : List FetchTask) (p : Pipe X Block)
      → Calm pick
      → Held (record p { tasks = ts })
      → After
          (record p { tasks = ts })
          (length ts - 1)
          (join_next chain connect fetch_decoded_block write_block pick ts
            (record p { tasks = ts }))
  unfolding join_next
  join_tasks-After pick [] p calm (f, c) = record {
    next = record p { tasks = [] };
    goes_on = refl;
    joins = Joins-refl _;
    kept = (f, c);
    left_over = omega arith;
  }
  join_tasks-After pick (t ∷ ts) p calm (f, c) =
      After-earlier _ _ _ _ _ (picked-Joins pick t ts p)
        (omega (arith, length-pick_task pick.index t ts))
        (joined-After pick (pick_task pick.index t ts).0 (picked pick t ts p) calm
          (pick_task-All (λ u. Owned from p.next_to_spawn p.fetch_error u) pick.index t ts
            f.owned).0
          (picked-Fetching pick t ts p f) (picked-CoveredBut pick t ts p c))

  pub join_next-After :
      (pick : Pick X) (p : Pipe X Block)
      → Calm pick
      → Held p
      → After p
          (length p.tasks - 1)
          (join_next chain connect fetch_decoded_block write_block pick p.tasks p)
  join_next-After pick p calm h = join_tasks-After pick p.tasks p calm h

  pub harvest_all-After :
      (picks : List (Pick X)) (p : Pipe X Block)
      → All Calm picks
      → Held p
      → After p (length p.tasks) (harvest_all chain connect fetch_decoded_block write_block picks p)
  unfolding harvest_all
  harvest_all-After [] p calm h = record {
    next = p;
    goes_on = refl;
    joins = Joins-refl p;
    kept = h;
    left_over = omega arith;
  }
  harvest_all-After (pick ∷ picks) p (calm, calms) h =
      let a = join_next-After pick p calm h in
      rw a.goes_on (
        After-earlier _ _ _ _ _ a.joins (omega (arith, a.left_over))
          (harvest_all-After picks a.next calms a.kept))
