-- ===== src/RateLimit/Limiter/Runs.antt =====
-- Whole histories of partition checks of crates/http-api/src/rate_limit.rs.
use explorer_backend.Base.{
  Bool, Bool-cases, List, Text, [], ap, arith, false, if◌then◌else◌, inl, inr, leb, refl, text_beq,
  text_beq_iff, true, ℕ, ◌&&◌, ◌+◌, ◌<◌, ◌∙◌, ◌∷◌, ◌≡◌, ◌≤◌, text_key,
}
use explorer_backend.Base.Map.{lookup}
use explorer_backend.RateLimit.Window.{u32_max}
use explorer_backend.RateLimit.Window.Slots.{in_window}
use explorer_backend.RateLimit.Window.Refinement.{Refines-empty, admit_by_log, in_window_antitone}
use explorer_backend.RateLimit.Limiter.{Partitions, admit_partition}
use explorer_backend.RateLimit.Limiter.Sweeping.{InStep, Logs, admit_partition-InStep, set_log}

-- One check: the current segment, the partition and its limit.
pub record Check : Type 0 where
  pub at : ℕ
  pub partition : Text
  pub limit : ℕ

-- The decisions of the limiter over a history of checks.
pub run_partitions : Partitions → List Check → List Bool
run_partitions p [] = []
run_partitions p (c ∷ cs) =
    let (admitted, q) = admit_partition c.at c.partition c.limit p in admitted ∷ run_partitions q cs

-- The decisions that the logs alone prescribe.
pub run_by_logs : Logs → List Check → List Bool
run_by_logs logs [] = []
run_by_logs logs (c ∷ cs) =
    let (admitted, log) = admit_by_log c.at c.limit (logs c.partition) in
    admitted ∷ run_by_logs (set_log logs c.partition log) cs

-- Segments do not run backwards, and limits fit in a `u32`.
abbrev pub Ordered : ℕ → List Check → Type 0
Ordered t [] = Unit {0}
Ordered t (c ∷ cs) = (t ≤ c.at) × (c.limit ≤ u32_max) × Ordered c.at cs

abbrev pub fresh : Partitions
fresh = record { windows = []; ops_since_sweep = 0 }

abbrev pub no_logs : Logs
no_logs k = []

run_partitions-InStep :
    (t : ℕ) (p : Partitions) (logs : Logs) (cs : List Check)
    → Ordered t cs
    → InStep t p logs
    → run_partitions p cs ≡ run_by_logs logs cs
unfolding run_partitions run_by_logs
run_partitions-InStep t p logs [] h s = refl
run_partitions-InStep t p logs (c ∷ cs) (h, small, ordered) s =
    let (same, next) = admit_partition-InStep t c.at c.limit c.partition p logs h small s in
    rw same (
      ap (◌∷◌ (admit_by_log c.at c.limit (logs c.partition)).0)
        (run_partitions-InStep c.at _ _ cs ordered next))

-- Over every history of checks whose segments do not run backwards and whose limits fit in a u32,
-- the limiter with its six-slot windows, its saturating counters and its periodic sweep takes
-- exactly the decisions of a limiter that keeps every admitted request: a check passes just when
-- fewer than `limit` admitted requests of its partition lie in the trailing six segments.
pub run_partitions-run_by_logs :
    (cs : List Check) → Ordered 0 cs → run_partitions fresh cs ≡ run_by_logs no_logs cs
unfolding lookup
run_partitions-run_by_logs cs h =
    run_partitions-InStep 0 fresh no_logs cs h
      (record { distinct = tt; refined = λ k. Refines-empty })

-- The admitted checks of one partition.
pub admitted_at : Text → List Check → List Bool → List ℕ
admitted_at k [] ds = []
admitted_at k (c ∷ cs) [] = []
admitted_at k (c ∷ cs) (d ∷ ds) =
    let rest = admitted_at k cs ds in if d && text_beq c.partition k then c.at ∷ rest else rest

-- How many of them lie in the six segments that end at `s`.
pub within : ℕ → List ℕ → ℕ
within s [] = 0
within s (e ∷ es) = (if leb s (e + 5) && leb e s then 1 else 0) + within s es

abbrev pub LimitedBy : ℕ → Text → List Check → Type 0
LimitedBy limit k [] = Unit {0}
LimitedBy limit k (c ∷ cs) =
    (text_beq c.partition k ≡ true → c.limit ≤ limit) × LimitedBy limit k cs

within-le : (s : ℕ) (log : List ℕ) → within s log ≤ in_window s log
unfolding within in_window
within-le s [] = omega arith
within-le s (e ∷ log) = ground (arith, within-le s log)

-- Every window of the log is within the limit.
abbrev Within : ℕ → List ℕ → Type 0
Within limit log = (s : ℕ) → within s log ≤ limit

Within-cons :
    (now limit : ℕ) (log : List ℕ)
    → in_window now log < limit
    → Within limit log
    → Within limit (now ∷ log)
unfolding within in_window
Within-cons now limit log free w s =
    ground (arith, w s, within-le s log, in_window_antitone now s log)

set_log-hit :
    (logs : Logs) (p k : Text) (log : List ℕ)
    → text_beq p k ≡ true
    → (set_log logs p log k ≡ log) × (logs p ≡ logs k)
set_log-hit logs p k log h = (rw h, ap logs ((text_beq_iff p k).0 h))

set_log-miss :
    (logs : Logs) (p k : Text) (log : List ℕ) → text_beq p k ≡ false → set_log logs p log k ≡ logs k
set_log-miss logs p k log h = rw h

set_log-same : (logs : Logs) (p k : Text) → set_log logs p (logs p) k ≡ logs k
set_log-same logs p k = elim (Bool-cases (text_beq p k)) [
  | inl hit ↦ let (e, same) = set_log-hit logs p k (logs p) hit in e ∙ same
  | inr miss ↦ set_log-miss logs p k (logs p) miss
]

within-run_by_logs :
    (t limit : ℕ) (k : Text) (logs : Logs) (cs : List Check)
    → Ordered t cs
    → LimitedBy limit k cs
    → Within limit (logs k)
    → (s : ℕ) → within s (admitted_at k cs (run_by_logs logs cs)) + within s (logs k) ≤ limit
unfolding run_by_logs admitted_at within
within-run_by_logs t limit k logs [] o l w s = omega (arith, w s)
within-run_by_logs t limit k logs (c ∷ cs) (h, small, o) (lim, l) w s =
    elim (Bool-cases (leb c.limit (in_window c.at (logs c.partition)))) [
      | inl full ↦
          let same = set_log-same logs c.partition k in
          let ih =
            within-run_by_logs c.at limit k (set_log logs c.partition (logs c.partition)) cs o l
              (λ r. rw same (w r)) s in
          rw full (omega (arith, ih, ap (within s) same))
      | inr free ↦ elim (Bool-cases (text_beq c.partition k)) [
        | inl hit ↦
            let log = c.at ∷ logs c.partition in
            let (e, same) = set_log-hit logs c.partition k log hit in
            let room : in_window c.at (logs c.partition) < limit = ground (arith, lim hit) in
            let fits : Within limit log =
              Within-cons c.at limit (logs c.partition) room (λ r. rw same (w r)) in
            let ih =
              within-run_by_logs c.at limit k (set_log logs c.partition log) cs o l
                (λ r. rw e (fits r)) s in
            rw (free, hit) (omega (arith, ih, ap (within s) e, ap (within s) same))
        | inr miss ↦
            let log = c.at ∷ logs c.partition in
            let e = set_log-miss logs c.partition k log miss in
            let ih =
              within-run_by_logs c.at limit k (set_log logs c.partition log) cs o l
                (λ r. rw e (w r)) s in
            rw (free, miss) (omega (arith, ih, ap (within s) e))
      ]
    ]

-- No partition is ever admitted more often than its limit in any six consecutive segments: over
-- every history whose segments do not run backwards, if each check of the partition carries a limit
-- of at most `limit`, the checks of it that the limiter admits in any such window number at most
-- `limit`.
pub run_partitions_bounded :
    (limit : ℕ) (k : Text) (cs : List Check)
    → Ordered 0 cs
    → LimitedBy limit k cs
    → (s : ℕ) → within s (admitted_at k cs (run_partitions fresh cs)) ≤ limit
unfolding within
run_partitions_bounded limit k cs o l s =
    rw (run_partitions-run_by_logs cs o)
      (omega (arith, within-run_by_logs 0 limit k no_logs cs o l (λ r. omega arith) s))
