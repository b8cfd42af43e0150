-- ===== src/FetchPlan/Laws.antt =====
-- The windows that `plan_fetch_window` (crates/ingestion/src/lib.rs) plans.
use explorer_backend.Base.{
  Bool, Bool-cases, Option, arith, false, if◌then◌else◌, inl, inr, ltb, none, refl, some, true, ℕ,
  ◌+◌, ◌-◌, ◌<◌, ◌==◌, ◌≡◌, ◌≢◌, ◌≤◌, ◌⊎◌,
}
use explorer_backend.FetchPlan.{
  FetchWindow, WorkerConfig, caught_up, effective_fetch_batch_size, effective_fetch_concurrency,
  empty_fetch_batch, fetch, plan_fetch_window, relief, saturating_add_u64, target_tip, u64_max,
  window_from,
}

-- What a window must be: it starts right above the cursor, ends at the target tip at the latest,
-- holds at most a batch, and keeps between one request and one request for each block in flight.
pub record Fits (cursor target batch : ℕ) (w : FetchWindow) : Type 0 where
  pub starts : w.from_height ≡ cursor + 1
  pub ordered : w.from_height ≤ w.to_height
  pub bounded : w.to_height ≤ target
  pub small : w.to_height ≤ cursor + batch
  pub busy : 1 ≤ w.concurrency
  pub lean : w.concurrency ≤ w.to_height + 1 - w.from_height

window_from-Fits :
    (cursor target batch cap requested : ℕ)
    → cursor < target
    → target ≤ u64_max
    → 1 ≤ batch
    → batch ≤ cap
    → 1 ≤ requested
    → Fits cursor target cap (window_from (cursor + 1) target batch requested)
unfolding window_from
window_from-Fits cursor target batch cap requested h k b c r = record {
  starts = refl;
  ordered = ground arith;
  bounded = ground arith;
  small = ground arith;
  busy = ground arith;
  lean = ground arith;
}

window_from_single :
    (cursor target : ℕ)
    → cursor < target
    → target ≤ u64_max
    → let w = window_from (cursor + 1) target 1 1 in
      (w.to_height ≡ w.from_height) × (w.concurrency ≡ 1)
unfolding window_from
window_from_single cursor target h k = ground arith

pub target_tip-le : (limit : Option ℕ) (tip : ℕ) → target_tip limit tip ≤ tip
unfolding target_tip
target_tip-le none tip = omega arith
target_tip-le (some limit) tip = omega arith

effective_sizes :
    (settings : WorkerConfig)
    → settings.fetch_batch_size ≢ 0
    → (1 ≤ effective_fetch_batch_size settings)
      × (effective_fetch_batch_size settings ≤ settings.fetch_batch_size)
      × (1 ≤ effective_fetch_concurrency settings)
      × (settings.sync_mode ≡ relief
          → (effective_fetch_batch_size settings ≡ 1) × (effective_fetch_concurrency settings ≡ 1))
unfolding effective_fetch_batch_size effective_fetch_concurrency
effective_sizes settings h = ground arith

abbrev planned_window : ℕ → ℕ → WorkerConfig → Bool → FetchWindow
planned_window cursor target settings load_shed =
    window_from (cursor + 1) target (if load_shed then 1 else effective_fetch_batch_size settings)
      (if load_shed then 1 else effective_fetch_concurrency settings)

planned :
    (cursor target : ℕ) (settings : WorkerConfig) (load_shed : Bool)
    → settings.fetch_batch_size ≢ 0
    → cursor < target
    → target ≤ u64_max
    → Fits cursor target settings.fetch_batch_size (planned_window cursor target settings load_shed)
      × ((load_shed ≡ true) ⊎ (settings.sync_mode ≡ relief)
          → ((planned_window cursor target settings load_shed).to_height
              ≡ (planned_window cursor target settings load_shed).from_height)
            × ((planned_window cursor target settings load_shed).concurrency ≡ 1))
planned cursor target settings true b h k = (
  window_from-Fits cursor target 1 settings.fetch_batch_size 1 h k (omega arith) (omega arith)
      (omega arith),
  λ shed. window_from_single cursor target h k,
)
planned cursor target settings false b h k =
    let (low, high, busy, single) = effective_sizes settings b in
    (
      window_from-Fits cursor target _ settings.fetch_batch_size _ h k low high busy,
      λ shed. elim shed [
        | inl shedding ↦ absurd (cc)
        | inr mode ↦
            let (one, alone) = single mode in rw (one, alone) (window_from_single cursor target h k)
      ],
    )

-- On every branch, for a cursor and a tip that are 64-bit heights, the cursor below the last one: a
-- zero batch is refused; a cursor at the target tip plans nothing; any other plan is a window that
-- fits the configured batch, and a single block with a single request while shedding load or in
-- relief mode.
pub plan_fetch_window-Fits :
    (cursor tip : ℕ) (settings : WorkerConfig) (load_shed : Bool)
    → cursor < u64_max
    → tip ≤ u64_max
    → let target = target_tip settings.height_limit tip in
      ((settings.fetch_batch_size ≡ 0)
        × (plan_fetch_window cursor tip settings load_shed ≡ empty_fetch_batch))
      ⊎ ((settings.fetch_batch_size ≢ 0)
          × (target ≤ cursor)
          × (plan_fetch_window cursor tip settings load_shed ≡ caught_up))
      ⊎ ((w : FetchWindow) × (settings.fetch_batch_size ≢ 0)
          × (cursor < target)
          × (plan_fetch_window cursor tip settings load_shed ≡ fetch w)
          × Fits cursor target settings.fetch_batch_size w
          × ((load_shed ≡ true) ⊎ (settings.sync_mode ≡ relief)
              → (w.to_height ≡ w.from_height) × (w.concurrency ≡ 1)))
unfolding plan_fetch_window
plan_fetch_window-Fits cursor tip settings load_shed h k =
    let target = target_tip settings.height_limit tip in
    let next : saturating_add_u64 cursor 1 ≡ cursor + 1 = ground arith in
    let top : target ≤ u64_max = omega (arith, target_tip-le settings.height_limit tip) in
    elim (Bool-cases (settings.fetch_batch_size == 0)) [
      | inl empty ↦ inl (ground arith, rw empty)
      | inr batch ↦ inr (elim (Bool-cases (ltb target (cursor + 1))) [
        | inl reached ↦ inl (ground arith, ground arith, rw (batch, next, reached))
        | inr behind ↦
            let w = planned_window cursor target settings load_shed in
            let (fits, single) =
              planned cursor target settings load_shed (ground arith) (ground arith) top in
            inr (w, ground arith, ground arith, rw (batch, next, behind), fits, single)
      ])
    ]
