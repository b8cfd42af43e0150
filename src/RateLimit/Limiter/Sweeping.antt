-- ===== src/RateLimit/Limiter/Sweeping.antt =====
-- The partition map of crates/http-api/src/rate_limit.rs against one log of admitted requests for
-- each partition. The periodic sweep is invisible in that view.
use explorer_backend.Base.{
  Bool-cases, List, Option, Text, arith, if◌then◌else◌, inl, inr, leb, none, some, text_beq, ℕ, ◌≡◌,
  ◌≤◌, text_key,
}
use explorer_backend.Base.Map.{
  Distinct, Distinct-insert, Distinct-retain, kept, lookup, lookup-insert, lookup-retain,
}
use explorer_backend.RateLimit.Window.{SlidingWindow, is_live, new_window, u32_max}
use explorer_backend.RateLimit.Window.Refinement.{
  Refines, Refines-later, Refines-new_window, admit_by_log, try_admit-Refines,
}
use explorer_backend.RateLimit.Limiter.{
  Partitions, admit_in, admit_partition, sweep_every_ops, sweep_when_due, window_or_new,
}

abbrev pub Logs : Type 0
Logs = Text → List ℕ

abbrev pub set_log : Logs → Text → List ℕ → Logs
set_log logs k log j = if text_beq k j then log else logs j

pub record InStep (t : ℕ) (p : Partitions) (logs : Logs) : Type 0 where
  pub distinct : Distinct p.windows
  pub refined : (k : Text) → Refines t (window_or_new (lookup k p.windows)) (logs k)

kept-Refines :
    (t now : ℕ) (o : Option SlidingWindow) (log : List ℕ)
    → t ≤ now
    → Refines t (window_or_new o) log
    → Refines now (window_or_new (kept (is_live now) o)) log
kept-Refines t now none log h r = Refines-later t now new_window log h r
kept-Refines t now (some w) log h r = elim (Bool-cases (is_live now w)) [
  | inl live ↦ rw live (Refines-later t now w log h r)
  | inr dead ↦ rw dead (Refines-new_window t now w log h dead r)
]

-- The sweep changes no partition's window as the log sees it.
pub sweep_when_due-InStep :
    (t now : ℕ) (p : Partitions) (logs : Logs)
    → t ≤ now
    → InStep t p logs
    → InStep now (sweep_when_due now p) logs
unfolding sweep_when_due
sweep_when_due-InStep t now p logs h s = elim (Bool-cases (leb sweep_every_ops p.ops_since_sweep)) [
  | inl due ↦ rw due (record {
    distinct = Distinct-retain (is_live now) p.windows s.distinct;
    refined = λ k.
        rw (lookup-retain (is_live now) k p.windows s.distinct)
          (kept-Refines t now (lookup k p.windows) (logs k) h (s.refined k));
  })
  | inr early ↦ rw early (record {
    distinct = s.distinct;
    refined = λ k. Refines-later t now _ (logs k) h (s.refined k);
  })
]

pub admit_in-InStep :
    (now limit : ℕ) (k : Text) (p : Partitions) (logs : Logs)
    → limit ≤ u32_max
    → InStep now p logs
    → ((admit_in now k limit p).0 ≡ (admit_by_log now limit (logs k)).0)
      × InStep now (admit_in now k limit p).1 (set_log logs k (admit_by_log now limit (logs k)).1)
unfolding admit_in
admit_in-InStep now limit k p logs small s =
    let (same, refined) =
      try_admit-Refines now now limit (window_or_new (lookup k p.windows)) (logs k) (omega arith)
        small (s.refined k) in
    (
      same,
      record {
        distinct = Distinct-insert k _ p.windows s.distinct;
        refined = λ j. rw (lookup-insert k j _ p.windows) (elim (Bool-cases (text_beq k j)) [
          | inl hit ↦ rw hit refined
          | inr miss ↦ rw miss (s.refined j)
        ]);
      },
    )

-- One check of a partition, the sweep included: the decision is the log's, and the state stays in
-- step with the logs.
pub admit_partition-InStep :
    (t now limit : ℕ) (k : Text) (p : Partitions) (logs : Logs)
    → t ≤ now
    → limit ≤ u32_max
    → InStep t p logs
    → ((admit_partition now k limit p).0 ≡ (admit_by_log now limit (logs k)).0)
      × InStep now
          (admit_partition now k limit p).1
          (set_log logs k (admit_by_log now limit (logs k)).1)
unfolding admit_partition
admit_partition-InStep t now limit k p logs h small s =
    admit_in-InStep now limit k (sweep_when_due now p) logs small
      (sweep_when_due-InStep t now p logs h s)
