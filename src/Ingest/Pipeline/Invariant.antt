-- ===== src/Ingest/Pipeline/Invariant.antt =====
-- What holds of the fetches of `project_window_pipelined` (crates/ingestion/src/driver.rs) between
-- two steps of its loop, and that spawning and recording a fetch keep it.
use explorer_backend.Base.{
  All, Bool, Bool-cases, List, Option, [], ap, arith, false, inl, inr, leb, length, ltb, none, refl,
  some, suc, true, zero, ℕ, ◌+◌, ◌<◌, ◌==◌, ◌||◌, ◌∷◌, ◌≡◌, ◌≤◌, nat_eq,
}
use explorer_backend.Base.Map.{lookup}
use explorer_backend.Ingest.{IngestionError, Outcome, err, ok}
use explorer_backend.Ingest.Pipeline.{
  Limits, Pipe, FetchTask, abort_from, is_some, may_spawn, pick_task, spawn, supersedes, top_up,
}

abbrev pub fetching : ℕ → List FetchTask → Bool
fetching h [] = false
fetching h (t ∷ ts) = (t.height == h) || fetching h ts

unfoldable pub below_error : {X : Type 0} → ℕ → Option (ℕ × IngestionError X) → Bool
below_error h none = true
below_error h (some (failed_height, error)) = ltb h failed_height

abbrev pub Owned : {X : Type 0} → ℕ → ℕ → Option (ℕ × IngestionError X) → FetchTask → Type 0
Owned from spawned failure t =
    (from ≤ t.height)
    × (t.height < spawned)
    × (t.aborted ≡ true → below_error t.height failure ≡ false)

pub All-map :
    {A : Type 0} {P Q : A → Type 0} → ((a : A) → P a → Q a) → (as' : List A) → All P as' → All Q as'
All-map f [] h = tt
All-map f (a ∷ as') (h, hs) = (f a h, All-map f as' hs)

pub pick_task-fetching :
    (h i : ℕ) (t : FetchTask) (ts : List FetchTask)
    → fetching h (t ∷ ts) ≡ true
    → (((pick_task i t ts).0.height == h) || fetching h (pick_task i t ts).1) ≡ true
unfolding pick_task
pick_task-fetching h i t [] e = e
pick_task-fetching h zero t (u ∷ us) e = e
pick_task-fetching h (suc i) t (u ∷ us) e = ground (arith, pick_task-fetching h i u us)

pub pick_task-All :
    (P : FetchTask → Type 0) (i : ℕ) (t : FetchTask) (ts : List FetchTask)
    → All P (t ∷ ts)
    → P (pick_task i t ts).0 × All P (pick_task i t ts).1
unfolding pick_task
pick_task-All P i t [] (h, hs) = (h, hs)
pick_task-All P zero t (u ∷ us) (h, hs) = (h, hs)
pick_task-All P (suc i) t (u ∷ us) (h, hs) =
    let (first, rest) = pick_task-All P i u us hs in (first, (h, rest))

pub length-pick_task :
    (i : ℕ) (t : FetchTask) (ts : List FetchTask) → length (pick_task i t ts).1 ≡ length ts
unfolding pick_task
length-pick_task i t [] = refl
length-pick_task zero t (u ∷ us) = refl
length-pick_task (suc i) t (u ∷ us) = ap suc (length-pick_task i u us)

pub fetching-abort_from :
    (h height : ℕ) (in_flight : List ℕ) (ts : List FetchTask)
    → fetching h (abort_from height in_flight ts) ≡ fetching h ts
unfolding abort_from
fetching-abort_from h height in_flight [] = refl
fetching-abort_from h height in_flight (t ∷ ts) =
    ap (λ b. (t.height == h) || b) (fetching-abort_from h height in_flight ts)

pub length-abort_from :
    (height : ℕ) (in_flight : List ℕ) (ts : List FetchTask)
    → length (abort_from height in_flight ts) ≡ length ts
unfolding abort_from
length-abort_from height in_flight [] = refl
length-abort_from height in_flight (t ∷ ts) = ap suc (length-abort_from height in_flight ts)

below_error-supersedes :
    {X : Type 0} (h height : ℕ) (failure : Option (ℕ × IngestionError X)) (error : IngestionError X)
    → supersedes height failure ≡ true
    → below_error h failure ≡ false
    → below_error h (some (height, error)) ≡ false
unfolding below_error supersedes
below_error-supersedes h height none error s b = cc
below_error-supersedes h height (some (failed_height, e)) error s b = ground arith

not_below :
    {X : Type 0} (h height : ℕ) (error : IngestionError X)
    → leb height h ≡ true
    → below_error h (some (height, error)) ≡ false
unfolding below_error
not_below h height error e = ground arith

pub abort_from-Owned :
    {X : Type 0} (from spawned height : ℕ) (failure : Option (ℕ × IngestionError X))
    (error : IngestionError X) (in_flight : List ℕ)
    → supersedes height failure ≡ true
    → (ts : List FetchTask) → All (Owned from spawned failure) ts
    → All (Owned from spawned (some (height, error))) (abort_from height in_flight ts)
unfolding abort_from
abort_from-Owned from spawned height failure error in_flight s [] owned = tt
abort_from-Owned from spawned height failure error in_flight s (t ∷ ts) ((low, high, cut), owned) =
    (
      (
        low,
        high,
        λ e. elim (Bool-cases t.aborted) [
          | inl before ↦ below_error-supersedes t.height height failure error s (cut before)
          | inr before ↦ not_below t.height height error (ground (arith, before, e))
        ],
      ),
      abort_from-Owned from spawned height failure error in_flight s ts owned,
    )

module _ {X Block : Type 0} (fetch_decoded_block : ℕ → Outcome X Block) (from to : ℕ) where
  pub record Fetching (p : Pipe X Block) : Type 0 where
    pub started : from ≤ p.next_to_write
    pub ordered : p.next_to_write ≤ p.next_to_spawn
    pub in_window : p.next_to_spawn ≤ to + 1
    pub written :
        (h : ℕ) → from ≤ h → h < p.next_to_write → (b : Block) × (fetch_decoded_block h ≡ ok b)
    pub sound :
        (h : ℕ) (b : Block)
        → lookup h p.ready ≡ some b
        → (h < p.next_to_spawn) × (fetch_decoded_block h ≡ ok b)
    pub owned : All (Owned from p.next_to_spawn p.fetch_error) p.tasks
    pub failing :
        (f : ℕ) (e : IngestionError X)
        → p.fetch_error ≡ some (f, e)
        → (from ≤ f) × (f < p.next_to_spawn) × (fetch_decoded_block f ≡ err e)

  -- Every height between the writer and the spawner, below the failed one, runs or waits to be written.
  abbrev pub Covered : Pipe X Block → Type 0
  Covered p =
      (h : ℕ)
      → p.next_to_write ≤ h
      → h < p.next_to_spawn
      → below_error h p.fetch_error ≡ true
      → (fetching h p.tasks || is_some (lookup h p.ready)) ≡ true

  -- The same but for one height.
  abbrev pub CoveredBut : ℕ → Pipe X Block → Type 0
  CoveredBut height p =
      (h : ℕ)
      → p.next_to_write ≤ h
      → h < p.next_to_spawn
      → below_error h p.fetch_error ≡ true
      → ((height == h) || (fetching h p.tasks || is_some (lookup h p.ready))) ≡ true

  spawn-Fetching :
      (l : Limits) (p : Pipe X Block)
      → l.to ≡ to
      → may_spawn l p ≡ true
      → Fetching p
      → Fetching (spawn p)
  unfolding spawn may_spawn
  spawn-Fetching l p same may f = record {
    started = f.started;
    ordered = ground (arith, f.ordered);
    in_window = ground arith;
    written = f.written;
    sound = λ h b e. ground (arith, f.sound h b);
    owned = (
      (ground (arith, f.started, f.ordered), omega arith, λ e. cc),
      All-map (λ t o. (o.0, omega (arith, o.1), o.2)) p.tasks f.owned,
    );
    failing = λ failed e found. ground (arith, f.failing failed e);
  }

  spawn-Covered : (p : Pipe X Block) → Covered p → Covered (spawn p)
  unfolding spawn
  spawn-Covered p c h above spawned below = ground (arith, c h)

  pub top_up-Fetching :
      (l : Limits) (fuel : ℕ) (p : Pipe X Block)
      → l.to ≡ to
      → Fetching p
      → Covered p
      → Fetching (top_up l fuel p) × Covered (top_up l fuel p)
  unfolding top_up
  top_up-Fetching l zero p same f c = (f, c)
  top_up-Fetching l (suc fuel) p same f c = elim (Bool-cases (may_spawn l p)) [
    | inl may ↦
        rw may (
          top_up-Fetching l fuel (spawn p) same (spawn-Fetching l p same may f) (spawn-Covered p c))
    | inr stop ↦ rw stop (f, c)
  ]
