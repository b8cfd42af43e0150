-- ===== src/Worker/Reaches.antt =====
-- Passes with a node that serves every block (`sync_once` in crates/ingestion/src/driver.rs) reach
-- the target tip and end the load-shed mode.
use explorer_backend.Base.{
  All, Bool-cases, List, Text, [], ap, arith, false, inl, inr, length, ltb, ltb→lt, refl, some, ℕ,
  ◌-◌, ◌<◌, ◌∙◌, ◌∷◌, ◌≡◌, ◌≢◌, ◌≤◌, nat_eq,
}
use explorer_backend.FetchPlan.{
  FetchWindow, WorkerConfig, fetch, plan_fetch_window, target_tip, u64_max,
}
use explorer_backend.FetchPlan.Laws.{Fits, plan_fetch_window-Fits, target_tip-le}
use explorer_backend.Ingest.{Database, Outcome, err, ok, validate_zero_state_scope, ◌>>◌}
use explorer_backend.Ingest.Pipeline.{returned}
use explorer_backend.Relief.{clear}
use explorer_backend.Worker.{
  BlockIngestionDriver, Surroundings, SyncBatchReport, after_guard, after_scope, after_tip,
  after_window, finish_window, follow_plan, guard_node_matches_db, sync_once,
}
use explorer_backend.Worker.Passes.{Latched-database, guard-Latched, run_passes, then_run}
use explorer_backend.Worker.CatchUp.{
  Restored, Serves, guard-passes, project_window_in-Done, scope_valid,
}

abbrev pub target : WorkerConfig → ℕ → ℕ
target settings tip = target_tip settings.height_limit tip

target_small : (settings : WorkerConfig) (tip : ℕ) → tip < u64_max → target settings tip < u64_max
target_small settings tip small = omega (arith, target_tip-le settings.height_limit tip)

height_of : (d d' : Database) → d ≡ d' → d.current_height ≡ d'.current_height
height_of d d' e = ap (λ x. x.current_height) e

Restored-later :
    (chain : Text) (d d' : Database)
    → Restored chain d
    → d.current_height ≤ d'.current_height
    → Restored chain d'
Restored-later chain d d' restored le main = omega (arith, restored main)

module _ {X Block : Type 0} (chain configured_nexus : Text) (settings : WorkerConfig) (tip : ℕ)
    (tip_small : tip < u64_max) (some_batch : settings.fetch_batch_size ≢ 0) where
  after_guard-ok :
      (w : Surroundings X Block) (r : Outcome X (Unit {0}) × BlockIngestionDriver)
      → r.0 ≡ ok tt
      → after_guard chain configured_nexus settings w tip r
        ≡ follow_plan chain configured_nexus settings w tip
            (plan_fetch_window r.1.database.current_height tip settings r.1.relief.active)
            r.1
  unfolding after_guard
  after_guard-ok w (ok u, v) e = refl
  after_guard-ok w (err error, v) e = absurd (cc e)

  guarded : Surroundings X Block → BlockIngestionDriver → BlockIngestionDriver
  guarded w v =
      (guard_node_matches_db chain configured_nexus settings w v.database.current_height v).1

  sync_once-follows :
      (w : Surroundings X Block) (v : BlockIngestionDriver)
      → Serves settings tip w
      → Restored chain v.database
      → sync_once chain configured_nexus settings w v
        ≡ follow_plan chain configured_nexus settings w tip
            (plan_fetch_window
              (guarded w v).database.current_height
              tip
              settings
              (guarded w v).relief.active)
            (guarded w v)
  unfolding sync_once after_scope guarded
  sync_once-follows w v serves restored =
      ap (λ o. after_tip chain configured_nexus settings w o v) serves.tip_known
      ∙ ap
          (λ o.
            after_scope chain configured_nexus settings w tip
              (o >> validate_zero_state_scope chain v.database.current_height) v)
          serves.cursor_read
      ∙ ap (λ o. after_scope chain configured_nexus settings w tip o v)
          (scope_valid chain configured_nexus settings w tip serves v.database restored)
      ∙ after_guard-ok w
          (guard_node_matches_db chain configured_nexus settings w v.database.current_height v)
          (guard-passes chain configured_nexus settings w tip serves v.database.current_height v)

  guarded-database :
      (w : Surroundings X Block) (v : BlockIngestionDriver) → (guarded w v).database ≡ v.database
  unfolding guarded
  guarded-database w v =
      Latched-database chain configured_nexus settings w v _
        (guard-Latched chain configured_nexus settings w v.database.current_height v)

  -- The state after a finished pass.
  pub record Next (w : Surroundings X Block) (v : BlockIngestionDriver) : Type 0 where
    pub report : Outcome X SyncBatchReport
    pub after : BlockIngestionDriver
    pub finished : sync_once chain configured_nexus settings w v ≡ some (report, after)

  window_step :
      (w : Surroundings X Block) (g : BlockIngestionDriver) (window : FetchWindow)
      → Serves settings tip w
      → Restored chain g.database
      → Fits g.database.current_height (target settings tip) settings.fetch_batch_size window
      → (report : Outcome X SyncBatchReport) × (after : BlockIngestionDriver) × (follow_plan chain
            configured_nexus settings w tip
            (fetch window)
            g
          ≡ some (report, after))
        × (after.database.current_height ≡ window.to_height)
  unfolding follow_plan finish_window after_window
  window_step w g window serves restored fits =
      let (r, projected, (n, d, done, at)) =
        project_window_in-Done chain configured_nexus settings w tip serves settings.sync_mode
          window g.database restored fits in
      (
        _,
        _,
        ap (λ p. finish_window chain configured_nexus settings tip window p g)
            (projected ∙ ap returned done),
        at,
      )

  -- Below the target the pass commits a block at least, and no block above the target.
  advances :
      (w : Surroundings X Block) (v : BlockIngestionDriver)
      → Serves settings tip w
      → Restored chain v.database
      → v.database.current_height < target settings tip
      → (n : Next w v) × (v.database.current_height < n.after.database.current_height)
        × (n.after.database.current_height ≤ target settings tip)
  advances w v serves restored behind =
      let same = guarded-database w v in
      elim (plan_fetch_window-Fits (guarded w v).database.current_height tip settings
        (guarded w v).relief.active
        (omega (arith, height_of _ _ same, target_small settings tip tip_small)) (omega arith)) [
          | inl (empty, e) ↦ absurd (some_batch empty)
          | inr rest ↦ elim rest [
            | inl (batch, reached, e) ↦ absurd (omega (arith, height_of _ _ same, reached))
            | inr (window, batch, lt, e, fits, single) ↦
                let (report, after, followed, at) =
                  window_step w (guarded w v) window serves (rw same restored) fits in
                (
                  record {
                    report = report;
                    after = after;
                    finished =
                        sync_once-follows w v serves restored
                        ∙ ap
                            (λ p. follow_plan chain configured_nexus settings w tip p (guarded w v))
                            e
                        ∙ followed;
                  },
                  omega (arith, height_of _ _ same, at, fits.starts, fits.ordered),
                  omega (arith, at, fits.bounded),
                )
          ]
        ]

  -- At the target the pass ends the load-shed mode.
  rests :
      (w : Surroundings X Block) (v : BlockIngestionDriver)
      → Serves settings tip w
      → Restored chain v.database
      → v.database.current_height ≡ target settings tip
      → (n : Next w v) × (n.after.database.current_height ≡ target settings tip)
        × (n.after.relief.active ≡ false)
  unfolding follow_plan clear
  rests w v serves restored at =
      let same = guarded-database w v in
      elim (plan_fetch_window-Fits (guarded w v).database.current_height tip settings
        (guarded w v).relief.active
        (omega (arith, height_of _ _ same, target_small settings tip tip_small)) (omega arith)) [
          | inl (empty, e) ↦ absurd (some_batch empty)
          | inr rest ↦ elim rest [
            | inl (batch, reached, e) ↦ (
              record {
                report = _;
                after = record (guarded w v) { relief = (clear (guarded w v).relief).0 };
                finished =
                    sync_once-follows w v serves restored
                    ∙ ap (λ p. follow_plan chain configured_nexus settings w tip p (guarded w v)) e;
              },
              height_of _ _ same ∙ at,
              refl,
            )
            | inr (window, batch, lt, e, fits, single) ↦
                absurd (omega (arith, height_of _ _ same, lt))
          ]
        ]

  -- The passes after one that is known.
  run_passes-Next :
      (w : Surroundings X Block) (ws : List (Surroundings X Block)) (v : BlockIngestionDriver)
      (n : Next w v)
      → run_passes chain configured_nexus settings (w ∷ ws) v
        ≡ run_passes chain configured_nexus settings ws n.after
  unfolding run_passes
  run_passes-Next w ws v n =
      ap (then_run (run_passes chain configured_nexus settings ws)) n.finished

  -- The target is reached, and the mode is off.
  pub record Reaches (ws : List (Surroundings X Block)) (v : BlockIngestionDriver) : Type 0 where
    pub after : BlockIngestionDriver
    pub ran : run_passes chain configured_nexus settings ws v ≡ some after
    pub at_target : after.database.current_height ≡ target settings tip
    pub mode_off : after.relief.active ≡ false

  Reaches-next :
      (w : Surroundings X Block) (ws : List (Surroundings X Block)) (v : BlockIngestionDriver)
      (n : Next w v)
      → Reaches ws n.after
      → Reaches (w ∷ ws) v
  Reaches-next w ws v n r = record {
    after = r.after;
    ran = run_passes-Next w ws v n ∙ r.ran;
    at_target = r.at_target;
    mode_off = r.mode_off;
  }

  stays :
      (ws : List (Surroundings X Block)) (v : BlockIngestionDriver)
      → All (λ w. Serves settings tip w) ws
      → Restored chain v.database
      → v.database.current_height ≡ target settings tip
      → v.relief.active ≡ false
      → Reaches ws v
  unfolding run_passes
  stays [] v serve restored at off = record {
    after = v;
    ran = refl;
    at_target = at;
    mode_off = off;
  }
  stays (w ∷ ws) v serve restored at off =
      let (n, at', off') = rests w v serve.0 restored at in
      Reaches-next w ws v n (
        stays ws n.after serve.1
          (Restored-later chain v.database n.after.database restored (omega (arith, at, at'))) at'
          off')

  -- With a node that keeps its tip and gives every block, with a database that answers every read,
  -- gives every connection, takes every block's writes and has at every height the hash that the
  -- node's block has there, with a target that is below the last 64-bit height and not below the
  -- cursor, a batch that is not zero, on the chain main a cursor that is not below the zero state, and
  -- with no panic and enough rounds in each pass: more passes than heights are missing bring the
  -- cursor to the target and leave the load-shed mode off.
  pub run_passes-Reaches :
      (ws : List (Surroundings X Block)) (v : BlockIngestionDriver)
      → All (λ w. Serves settings tip w) ws
      → Restored chain v.database
      → v.database.current_height ≤ target settings tip
      → target settings tip - v.database.current_height < length ws
      → Reaches ws v
  run_passes-Reaches [] v serve restored below enough = absurd (omega arith)
  run_passes-Reaches (w ∷ ws) v serve restored below enough =
      elim (Bool-cases (ltb v.database.current_height (target settings tip))) [
        | inl behind ↦
            let (n, forward, within) = advances w v serve.0 restored (ltb→lt _ _ behind) in
            Reaches-next w ws v n (
              run_passes-Reaches ws n.after serve.1
                (Restored-later chain v.database n.after.database restored (omega (arith, forward)))
                within (omega (arith, forward, within)))
        | inr reached ↦
            let (n, at, off) = rests w v serve.0 restored (ground (arith, reached)) in
            Reaches-next w ws v n (
              stays ws n.after serve.1
                (Restored-later chain v.database n.after.database restored
                  (omega (arith, at, below)))
                at off)
      ]
