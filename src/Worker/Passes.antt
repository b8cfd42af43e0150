-- ===== src/Worker/Passes.antt =====
-- What `sync_once` (crates/ingestion/src/driver.rs) does to the database, pass after pass, whatever
-- surrounds it.
use mathlib.Core.Option.{some-injective}
use explorer_backend.Base.{
  All, List, Option, Option-cases, Text, [], ap, arith, inl, inr, none, refl, some, subst, sym,
  true, ℕ, ◌+◌, ◌<◌, ◌∷◌, ◌≡◌, ◌≤◌, ◌⊎◌, nat_eq,
}
use explorer_backend.FetchPlan.{FetchWindow, WorkerConfig, plan_fetch_window, u64_max}
use explorer_backend.FetchPlan.Laws.{plan_fetch_window-Fits, target_tip-le}
use explorer_backend.Ingest.{Database, Outcome, WindowOutcome, err, ok}
use explorer_backend.Ingest.Pipeline.{Progress, returned, running}
use explorer_backend.Worker.{
  BlockIngestionDriver, Pass, Surroundings, SyncBatchReport, after_guard, after_scope, after_tip,
  after_window, compare_hashes, compare_stored, compare_with_node, finish_window, follow_plan,
  guard_node_matches_db, sync_once,
}
use explorer_backend.Worker.Growth.{
  Grows, Grows-refl, Grows-trans, Windows, comes_back, project_window_in-Windows, waits,
}

-- A finished pass, or one whose fetches have not all come back.
pub data Moves {X : Type 0} (v : BlockIngestionDriver) : Pass X → Type 0 where
  unfinished : Moves v none
  moved :
      {r : Outcome X SyncBatchReport} {v' : BlockIngestionDriver}
      → Grows v.database v'.database
      → v'.database.current_height < u64_max
      → Moves v (some (r, v'))

module _ {X Block : Type 0} (chain configured_nexus : Text) (settings : WorkerConfig)
    (w : Surroundings X Block) where
  -- The guard changes at most its latch.
  pub Latched : BlockIngestionDriver → BlockIngestionDriver → Type 0
  Latched v v' = (v' ≡ v) ⊎ (v' ≡ record v { node_guard_checked = true })

  pub guard-Latched :
      (height : ℕ) (v : BlockIngestionDriver)
      → Latched v (guard_node_matches_db chain configured_nexus settings w height v).1
  unfolding guard_node_matches_db compare_stored compare_with_node compare_hashes Latched
  guard-Latched height v = ground (arith)

  after_window-Moves :
      (tip : ℕ) (window : FetchWindow) (r : Outcome X WindowOutcome × Database)
      (v : BlockIngestionDriver)
      → Grows v.database r.1
      → r.1.current_height < u64_max
      → Moves v (some (after_window settings tip window r v))
  unfolding after_window
  after_window-Moves tip window (ok outcome, d) v g below = moved g below
  after_window-Moves tip window (err error, d) v g below = moved g below

  finish_window-Moves :
      (tip : ℕ) (window : FetchWindow) (r : Progress X Block) (v : BlockIngestionDriver)
      → Windows chain configured_nexus settings w v.database window r
      → window.from_height ≡ v.database.current_height + 1
      → window.from_height ≤ window.to_height
      → window.to_height < u64_max
      → Moves v (finish_window chain configured_nexus settings tip window r v)
  unfolding finish_window
  finish_window-Moves tip window (running p) v waits e ordered below = unfinished
  finish_window-Moves tip window (returned r) v (comes_back g bound) e ordered below =
      after_window-Moves tip window r v g (omega (arith, g.cursor_at))

  follow_plan-Moves :
      (tip : ℕ) (v : BlockIngestionDriver)
      → tip < u64_max
      → v.database.current_height < u64_max
      → Moves v (
          follow_plan chain configured_nexus settings w tip
            (plan_fetch_window v.database.current_height tip settings v.relief.active)
            v)
  unfolding follow_plan
  follow_plan-Moves tip v low below =
      elim (plan_fetch_window-Fits v.database.current_height tip settings v.relief.active below
        (omega arith)) [
          | inl (empty, e) ↦ rw e (moved (Grows-refl v.database) below)
          | inr rest ↦ elim rest [
            | inl (batch, reached, e) ↦ rw e (moved (Grows-refl v.database) below)
            | inr (window, batch, behind, e, fits, single) ↦ rw e (
                finish_window-Moves tip window _ v
                  (project_window_in-Windows chain configured_nexus settings w settings.sync_mode
                    window v.database fits.starts)
                  fits.starts fits.ordered
                  (omega (arith, fits.bounded, target_tip-le settings.height_limit tip)))
          ]
        ]

  same_database :
      (v v' : BlockIngestionDriver) (p : Pass X) → Moves v' p → v'.database ≡ v.database → Moves v p
  same_database v v' _ unfinished same = unfinished
  same_database v v' (some (r, v'')) (moved g b) same =
      moved (subst (λ d. Grows d v''.database) same g) b

  after_guard-Moves :
      (tip : ℕ) (r : Outcome X (Unit {0}) × BlockIngestionDriver) (v : BlockIngestionDriver)
      → tip < u64_max
      → v.database.current_height < u64_max
      → r.1.database ≡ v.database
      → Moves v (after_guard chain configured_nexus settings w tip r)
  unfolding after_guard
  after_guard-Moves tip (err error, v') v low below same =
      moved (subst (λ d. Grows v.database d) (sym same) (Grows-refl v.database)) (rw same below)
  after_guard-Moves tip (ok u, v') v low below same =
      same_database v v' _ (follow_plan-Moves tip v' low (rw same below)) same

  pub Latched-database : (v v' : BlockIngestionDriver) → Latched v v' → v'.database ≡ v.database
  unfolding Latched
  Latched-database v v' (inl e) = ap (λ x. x.database) e
  Latched-database v v' (inr e) = ap (λ x. x.database) e

  after_scope-Moves :
      (tip : ℕ) (o : Outcome X (Unit {0})) (v : BlockIngestionDriver)
      → tip < u64_max
      → v.database.current_height < u64_max
      → Moves v (after_scope chain configured_nexus settings w tip o v)
  unfolding after_scope
  after_scope-Moves tip (err error) v low below = moved (Grows-refl v.database) below
  after_scope-Moves tip (ok u) v low below =
      after_guard-Moves tip _ v low below
        (Latched-database v _ (guard-Latched v.database.current_height v))

  after_tip-Moves :
      (o : Outcome X ℕ) (v : BlockIngestionDriver)
      → ((tip : ℕ) → o ≡ ok tip → tip < u64_max)
      → v.database.current_height < u64_max
      → Moves v (after_tip chain configured_nexus settings w o v)
  unfolding after_tip
  after_tip-Moves (err error) v low below = moved (Grows-refl v.database) below
  after_tip-Moves (ok tip) v low below = after_scope-Moves tip _ v (low tip refl) below

  pub sync_once-Moves :
      (v : BlockIngestionDriver)
      → ((tip : ℕ) → w.get_block_height ≡ ok tip → tip < u64_max)
      → v.database.current_height < u64_max
      → Moves v (sync_once chain configured_nexus settings w v)
  unfolding sync_once
  sync_once-Moves v low below = after_tip-Moves w.get_block_height v low below

Moves-some :
    {X : Type 0} (v : BlockIngestionDriver) (r : Outcome X SyncBatchReport)
    (v' : BlockIngestionDriver)
    → Moves v (some (r, v'))
    → Grows v.database v'.database × (v'.database.current_height < u64_max)
Moves-some v r v' (moved g b) = (g, b)

abbrev pub then_run :
    {X : Type 0}
    → (BlockIngestionDriver → Option BlockIngestionDriver)
    → Pass X
    → Option BlockIngestionDriver
then_run k none = none
then_run k (some (r, v)) = k v

-- Passes one after the other; nothing if one does not come to its end.
unfoldable pub run_passes :
    {X Block : Type 0}
    → Text
    → Text
    → WorkerConfig
    → List (Surroundings X Block)
    → BlockIngestionDriver
    → Option BlockIngestionDriver
run_passes chain configured_nexus settings [] v = some v
run_passes chain configured_nexus settings (w ∷ ws) v =
    then_run (run_passes chain configured_nexus settings ws)
      (sync_once chain configured_nexus settings w v)

-- The heights that the nodes give as their tips are below the last 64-bit one.
abbrev pub SmallTips : {X Block : Type 0} → List (Surroundings X Block) → Type 0
SmallTips ws = All (λ w. (tip : ℕ) → w.get_block_height ≡ ok tip → tip < u64_max) ws

-- After any passes, whatever the nodes, the pool and the fetch tasks did in each, the database has
-- the blocks that it had before and, above them, those of the heights right above the first cursor,
-- in order and each once, with the cursor at the last of them, for a cursor and tips below the last
-- 64-bit height.
pub run_passes-Grows :
    {X Block : Type 0} (chain configured_nexus : Text) (settings : WorkerConfig)
    (ws : List (Surroundings X Block)) (v v' : BlockIngestionDriver)
    → SmallTips ws
    → v.database.current_height < u64_max
    → run_passes chain configured_nexus settings ws v ≡ some v'
    → Grows v.database v'.database
unfolding run_passes
run_passes-Grows chain configured_nexus settings [] v v' low below e =
    subst (λ x. Grows v.database x.database) (some-injective v v' e) (Grows-refl v.database)
run_passes-Grows chain configured_nexus settings (w ∷ ws) v v' low below e =
    let moves = sync_once-Moves chain configured_nexus settings w v low.0 below in
    let rest = run_passes chain configured_nexus settings ws in
    elim (Option-cases (sync_once chain configured_nexus settings w v)) [
      | inl nothing ↦ absurd (cc (subst (λ p. then_run rest p ≡ some v') nothing e))
      | inr ((r, next), done) ↦
          let (g, b) = Moves-some v r next (subst (λ p. Moves v p) done moves) in
          Grows-trans g (
            run_passes-Grows chain configured_nexus settings ws next v' low.1 b
              (subst (λ p. then_run rest p ≡ some v') done e))
    ]
