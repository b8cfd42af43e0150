-- ===== src/Worker/Growth.antt =====
-- How a pass over a window (crates/ingestion/src/driver.rs) makes the database grow.
use mathlib.Core.List.{append-nil, append_assoc}
use explorer_backend.Base.{
  Text, [], ap, arith, inl, inr, refl, subst, suc, sym, zero, ℕ, ◌++◌, ◌+◌, ◌-◌, ◌∙◌, ◌∷◌, ◌≡◌, ◌≤◌,
  nat_eq,
}
use explorer_backend.FetchPlan.{FetchWindow, WorkerConfig, WorkerSyncMode, normal, sequential}
use explorer_backend.Ingest.{Database, Outcome, WindowOutcome, project_window_sequentially}
use explorer_backend.Ingest.Sequential.{
  Reports, cursor_after, heights, project_window_sequentially-Passes,
}
use explorer_backend.Ingest.Pipeline.{
  Limits, Pipe, Progress, limits_of, project_window_pipelined, returned, running,
}
use explorer_backend.Ingest.Pipeline.Sane.{Prefix}
use explorer_backend.Ingest.Pipeline.Prefix.{project_window_pipelined-Prefix}
use explorer_backend.Worker.{Surroundings, project_window_in}

-- `k` blocks right above the cursor were committed, in order, and the cursor is at the last one.
pub record Grows (before after : Database) : Type 0 where
  pub grown : ℕ
  pub gap_free : after.blocks ≡ heights (before.current_height + 1) grown ++ before.blocks
  pub cursor_at : after.current_height ≡ before.current_height + grown

pub Grows-refl : (d : Database) → Grows d d
Grows-refl d = record { grown = 0; gap_free = refl; cursor_at = omega arith }

heights-append : (k from m : ℕ) → heights from (m + k) ≡ heights (from + k) m ++ heights from k
heights-append zero from m =
    ap (heights from) (plus_zero m)
    ∙ ap (λ n. heights n m) (sym (plus_zero from))
    ∙ sym (append-nil (heights (from + 0) m))
  where
    plus_zero : (n : ℕ) → n + 0 ≡ n
    plus_zero n = omega arith
heights-append (suc k) from m =
    ap (heights from) (shift m k)
    ∙ ap (λ xs. xs ++ (from ∷ [])) (heights-append k (suc from) m)
    ∙ append_assoc (heights (suc from + k) m) (heights (suc from) k) (from ∷ [])
    ∙ ap (λ n. heights n m ++ heights from (suc k)) (skew from k)
  where
    skew : (n i : ℕ) → suc n + i ≡ n + suc i
    skew n i = omega arith

    shift : (n i : ℕ) → n + suc i ≡ suc (n + i)
    shift n i = omega arith

pub Grows-trans : {a b c : Database} → Grows a b → Grows b c → Grows a c
Grows-trans {a} {b} {c} g h = record {
  grown = h.grown + g.grown;
  gap_free =
      h.gap_free
      ∙ ap (λ xs. heights (b.current_height + 1) h.grown ++ xs) g.gap_free
      ∙ sym (
          append_assoc (heights (b.current_height + 1) h.grown)
            (heights (a.current_height + 1) g.grown) a.blocks)
      ∙ ap (λ n. (heights n h.grown ++ heights (a.current_height + 1) g.grown) ++ a.blocks)
          (next_height b.current_height a.current_height g.grown g.cursor_at)
      ∙ ap (λ xs. xs ++ a.blocks) (sym (heights-append g.grown (a.current_height + 1) h.grown));
  cursor_at = omega (arith, g.cursor_at, h.cursor_at);
}
  where
    next_height : (x y k : ℕ) → x ≡ y + k → x + 1 ≡ y + 1 + k
    next_height x y k e = omega arith

pub cursor_grown : (c k : ℕ) → cursor_after c (c + 1) k ≡ c + k
cursor_grown c zero = omega arith
cursor_grown c (suc k) = omega arith

module _ {X Block : Type 0} (chain configured_nexus : Text) (settings : WorkerConfig)
    (w : Surroundings X Block) where
  reported_bound :
      {left cursor k : ℕ} {r : Outcome X WindowOutcome} (from : ℕ)
      → Reports chain w.connect w.fetch_decoded_block w.write_block from 0 left cursor k r
      → k ≤ left
  reported_bound from (inl (whole, e)) = omega (arith, whole)
  reported_bound from (inr (less, e)) = omega (arith, less)

  sequential_grown :
      (window : FetchWindow) (d : Database)
      → window.from_height ≡ d.current_height + 1
      → (g : Grows d
          (project_window_sequentially chain w.connect w.fetch_decoded_block w.write_block window
            d.current_height d).1)
        × (g.grown ≤ window.to_height + 1 - window.from_height)
  sequential_grown window d e =
      let p =
        project_window_sequentially-Passes chain w.connect w.fetch_decoded_block w.write_block
          window d (omega (arith, e)) in
      (
        record {
          grown = p.committed;
          gap_free = p.gap_free ∙ ap (λ n. heights n p.committed ++ d.blocks) e;
          cursor_at =
              p.cursor_at
              ∙ ap (λ n. cursor_after d.current_height n p.committed) e
              ∙ cursor_grown d.current_height p.committed;
        },
        reported_bound _ p.reports,
      )

  Prefix-grown :
      (l : Limits) (d : Database) (r : Outcome X WindowOutcome × Database)
      → Prefix l d (d.current_height + 1) r
      → (g : Grows d r.1) × (g.grown ≤ l.to + 1 - (d.current_height + 1))
  Prefix-grown l d r p = (
    record {
      grown = p.committed;
      gap_free = p.extends.gap_free;
      cursor_at = p.extends.cursor_at ∙ cursor_grown d.current_height p.committed;
    },
    p.within,
  )

  -- A finished pass over a window right above the cursor.
  pub data Windows (d : Database) (window : FetchWindow) : Progress X Block → Type 0 where
    waits : {p : Pipe X Block} → Windows d window (running p)
    comes_back :
        {r : Outcome X WindowOutcome × Database} (g : Grows d r.1)
        → g.grown ≤ window.to_height + 1 - window.from_height
        → Windows d window (returned r)

  pipelined-Windows :
      (window : FetchWindow) (d : Database) (r : Progress X Block)
      → window.from_height ≡ d.current_height + 1
      → project_window_pipelined chain w.connect w.fetch_decoded_block w.write_block
          settings.queue_capacity w.turns window d.current_height d
        ≡ r
      → Windows d window r
  unfolding limits_of
  pipelined-Windows window d (running p) e same = waits
  pipelined-Windows window d (returned r) e same =
      let p =
        project_window_pipelined-Prefix chain w.connect w.fetch_decoded_block w.write_block
          settings.queue_capacity window d (omega (arith, e)) w.turns d.current_height r same in
      let (g, bound) =
        Prefix-grown (limits_of settings.queue_capacity window) d r
          (subst (λ n. Prefix (limits_of settings.queue_capacity window) d n r) e p) in
      comes_back g (omega (arith, bound, e))

  pub project_window_in-Windows :
      (mode : WorkerSyncMode) (window : FetchWindow) (d : Database)
      → window.from_height ≡ d.current_height + 1
      → Windows d window
          (project_window_in chain configured_nexus settings mode w window d.current_height d)
  unfolding project_window_in
  project_window_in-Windows normal window d e = pipelined-Windows window d _ e refl
  project_window_in-Windows sequential window d e =
      let (g, bound) = sequential_grown window d e in comes_back g bound
  project_window_in-Windows WorkerSyncMode.relief window d e =
      let (g, bound) = sequential_grown window d e in comes_back g bound
