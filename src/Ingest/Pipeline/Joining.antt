-- ===== src/Ingest/Pipeline/Joining.antt =====
-- Recording the fetches that finish (`record_fetched` of crates/ingestion/src/driver.rs) keeps what
-- holds of the fetches, and loses no height.
use explorer_backend.Base.{
  Bool-cases, Option, arith, false, inl, inr, keep_if, length, ltb, none, refl, some, true, ℕ, ◌<◌,
  ◌==◌, ◌||◌, ◌∙◌, ◌≡◌, ◌≤◌, nat_eq,
}
use explorer_backend.Base.Map.{insert, lookup, lookup-insert}
use explorer_backend.Ingest.{IngestionError, Outcome, err, ok}
use explorer_backend.Ingest.Pipeline.{Pipe, abort_from, is_some, record_result, supersedes}
use explorer_backend.Ingest.Pipeline.Invariant.{
  Covered, CoveredBut, Fetching, abort_from-Owned, below_error, fetching, fetching-abort_from,
  length-abort_from,
}

-- What joining leaves alone.
pub record Joins {X Block : Type 0} (p p' : Pipe X Block) : Type 0 where
  pub writer : p'.next_to_write ≡ p.next_to_write
  pub spawner : p'.next_to_spawn ≡ p.next_to_spawn
  pub counted : p'.projected_blocks ≡ p.projected_blocks
  pub cursor : p'.cursor_height_after ≡ p.cursor_height_after
  pub stored : p'.database ≡ p.database
  pub fewer : length p'.tasks ≤ length p.tasks
  pub failed : is_some p.fetch_error ≡ true → is_some p'.fetch_error ≡ true

pub Joins-refl : {X Block : Type 0} (p : Pipe X Block) → Joins p p
Joins-refl p = record {
  writer = refl;
  spawner = refl;
  counted = refl;
  cursor = refl;
  stored = refl;
  fewer = omega arith;
  failed = λ e. e;
}

pub Joins-trans : {X Block : Type 0} {p q r : Pipe X Block} → Joins p q → Joins q r → Joins p r
Joins-trans a b = record {
  writer = b.writer ∙ a.writer;
  spawner = b.spawner ∙ a.spawner;
  counted = b.counted ∙ a.counted;
  cursor = b.cursor ∙ a.cursor;
  stored = b.stored ∙ a.stored;
  fewer = omega (arith, a.fewer, b.fewer);
  failed = λ e. b.failed (a.failed e);
}

pub record_result-Joins :
    {X Block : Type 0} (height : ℕ) (result : Outcome X Block) (p : Pipe X Block)
    → Joins p (record_result height result p)
unfolding record_result is_some
record_result-Joins height (ok block) p = record {
  writer = refl;
  spawner = refl;
  counted = refl;
  cursor = refl;
  stored = refl;
  fewer = omega arith;
  failed = λ e. e;
}
record_result-Joins height (err error) p = elim (Bool-cases (supersedes height p.fetch_error)) [
  | inl lower ↦ rw lower (record {
    writer = refl;
    spawner = refl;
    counted = refl;
    cursor = refl;
    stored = refl;
    fewer = omega (arith, length-abort_from height p.in_flight p.tasks);
    failed = λ e. refl;
  })
  | inr higher ↦ rw higher (Joins-refl p)
]

module _ {X Block : Type 0} (fetch_decoded_block : ℕ → Outcome X Block) (from to : ℕ) where
  abbrev pub Kept : Pipe X Block → Type 0
  Kept p = Fetching fetch_decoded_block from to p × Covered fetch_decoded_block from to p

  inserted :
      (height h : ℕ) (block : Block) (p : Pipe X Block)
      → ((height == h) || (fetching h p.tasks || is_some (lookup h p.ready))) ≡ true
      → (fetching h p.tasks || is_some (lookup h (insert height block p.ready))) ≡ true
  unfolding is_some
  inserted height h block p e = ground (arith, lookup-insert height h block p.ready)

  insert-Kept :
      (height : ℕ) (block : Block) (p : Pipe X Block)
      → height < p.next_to_spawn
      → fetch_decoded_block height ≡ ok block
      → Fetching fetch_decoded_block from to p
      → CoveredBut fetch_decoded_block from to height p
      → Kept (record p { ready = insert height block p.ready })
  insert-Kept height block p spawned e f c = (
    record {
      started = f.started;
      ordered = f.ordered;
      in_window = f.in_window;
      written = f.written;
      sound = λ h b found. ground (arith, f.sound h b, lookup-insert height h block p.ready);
      owned = f.owned;
      failing = f.failing;
    },
    λ h above below_spawner below. inserted height h block p (c h above below_spawner below),
  )

  below_lower :
      (h height : ℕ) (failure : Option (ℕ × IngestionError X)) (error : IngestionError X)
      → supersedes height failure ≡ true
      → below_error h (some (height, error)) ≡ true
      → (below_error h failure ≡ true) × ((height == h) ≡ false)
  unfolding supersedes below_error
  below_lower h height none error s b = ground arith
  below_lower h height (some (failed_height, e)) error s b = ground arith

  not_below_higher :
      (h height : ℕ) (failure : Option (ℕ × IngestionError X))
      → supersedes height failure ≡ false
      → below_error h failure ≡ true
      → (height == h) ≡ false
  unfolding supersedes below_error
  not_below_higher h height none s b = cc
  not_below_higher h height (some (failed_height, e)) s b = ground arith

  fail-Kept :
      (height : ℕ) (error : IngestionError X) (p : Pipe X Block)
      → supersedes height p.fetch_error ≡ true
      → from ≤ height
      → height < p.next_to_spawn
      → fetch_decoded_block height ≡ err error
      → Fetching fetch_decoded_block from to p
      → CoveredBut fetch_decoded_block from to height p
      → Kept (record p {
        tasks = abort_from height p.in_flight p.tasks;
        in_flight = keep_if (λ h. ltb h height) p.in_flight;
        fetch_error = some (height, error);
      })
  fail-Kept height error p lower above spawned e f c = (
    record {
      started = f.started;
      ordered = f.ordered;
      in_window = f.in_window;
      written = f.written;
      sound = f.sound;
      owned =
          abort_from-Owned from p.next_to_spawn height p.fetch_error error p.in_flight lower p.tasks
            f.owned;
      failing = λ h e' found. ground arith;
    },
    λ h above_writer below_spawner below.
        let (before, other_height) = below_lower h height p.fetch_error error lower below in
        rw (fetching-abort_from h height p.in_flight p.tasks)
          (ground (arith, other_height, c h above_writer below_spawner before)),
  )

  pub record_result-Kept :
      (height : ℕ) (result : Outcome X Block) (p : Pipe X Block)
      → from ≤ height
      → height < p.next_to_spawn
      → fetch_decoded_block height ≡ result
      → Fetching fetch_decoded_block from to p
      → CoveredBut fetch_decoded_block from to height p
      → Kept (record_result height result p)
  unfolding record_result
  record_result-Kept height (ok block) p above spawned e f c =
      insert-Kept height block p spawned e f c
  record_result-Kept height (err error) p above spawned e f c =
      elim (Bool-cases (supersedes height p.fetch_error)) [
        | inl lower ↦ rw lower (fail-Kept height error p lower above spawned e f c)
        | inr higher ↦ rw higher (
          f,
          λ h above_writer below_spawner below. ground (
            arith,
            not_below_higher h height p.fetch_error higher below,
            c h above_writer below_spawner below,
          ),
        )
      ]
