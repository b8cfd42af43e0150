-- ===== src/RateLimit/Window/Refinement.antt =====
-- `SlidingWindow::try_admit` (crates/http-api/src/rate_limit.rs) against a log of admitted requests.
use explorer_backend.Base.{
  Bool, Bool-cases, List, [], arith, false, if◌then◌else◌, inl, inr, leb, length, refl, replicate,
  subst, true, ℕ, ◌%◌, ◌+◌, ◌<◌, ◌∙◌, ◌∷◌, ◌≡◌, ◌≤◌,
}
use explorer_backend.RateLimit.Window.{
  SlidingWindow, admit_rolled, empty_bucket, is_live, new_window, record_in, roll, try_admit,
  u32_max, window_start,
}
use explorer_backend.RateLimit.Window.Slots.{Slots, in_window, roll-Slots, shares, shares-six}
use explorer_backend.RateLimit.Window.Updates.{
  Slots-dead, Slots-empty, Slots-later, length-update_at, update_at-Slots,
}

-- The contract: admit while fewer than `limit` admitted requests lie in the trailing window.
abbrev pub admit_by_log : ℕ → ℕ → List ℕ → Bool × List ℕ
admit_by_log now limit log =
    if leb limit (in_window now log) then (false, log) else (true, now ∷ log)

-- The window stands for the log, as of time `t`.
pub record Refines (t : ℕ) (w : SlidingWindow) (log : List ℕ) : Type 0 where
  pub sized : length w ≡ 6
  pub slots : Slots t log 0 w
  pub small : in_window t log ≤ u32_max

pub in_window_antitone : (t u : ℕ) (log : List ℕ) → t ≤ u → in_window u log ≤ in_window t log
unfolding in_window
in_window_antitone t u [] h = omega arith
in_window_antitone t u (e ∷ log) h = ground (arith, in_window_antitone t u log h)

pub in_window-cons : (now : ℕ) (log : List ℕ) → in_window now (now ∷ log) ≡ in_window now log + 1
unfolding in_window
in_window-cons now log = ground arith

admit_rolled-Refines :
    (now limit total : ℕ) (w : SlidingWindow) (log : List ℕ)
    → limit ≤ u32_max
    → total ≡ in_window now log
    → Refines now w log
    → ((admit_rolled now limit (total, w)).0 ≡ (admit_by_log now limit log).0)
      × Refines now (admit_rolled now limit (total, w)).1 (admit_by_log now limit log).1
admit_rolled-Refines now limit total w log h e r =
    rw e (elim (Bool-cases (leb limit (in_window now log))) [
      | inl full ↦ rw full (refl, r)
      | inr free ↦
          let room : in_window now log < limit = ground arith in
          rw free (
            refl,
            record {
              sized = length-update_at (now % 6) (record_in now) w ∙ r.sized;
              slots = update_at-Slots now 0 (now % 6) log w (omega arith) (omega arith) r.slots;
              small = omega (arith, in_window-cons now log);
            },
          )
    ])

rolled-Refines :
    (t now : ℕ) (w : SlidingWindow) (log : List ℕ)
    → t ≤ now
    → Refines t w log
    → Refines now (roll (window_start now) 0 w).1 log
      × ((roll (window_start now) 0 w).0 ≡ in_window now log)
rolled-Refines t now w log h r =
    let later = in_window_antitone t now log h in
    let sum : shares now log 0 (length w) ≡ in_window now log = rw r.sized (shares-six now log) in
    let (slots, total, sized) =
      roll-Slots t now 0 0 log w h (omega (arith, sum, later, r.small)) r.slots in
    (
      record { sized = sized ∙ r.sized; slots = slots; small = omega (arith, later, r.small) },
      omega (arith, total, sum),
    )

-- One request, at a time that does not run backwards: the window takes the decision that the log
-- takes, and stands for the new log afterwards.
pub try_admit-Refines :
    (t now limit : ℕ) (w : SlidingWindow) (log : List ℕ)
    → t ≤ now
    → limit ≤ u32_max
    → Refines t w log
    → ((try_admit now limit w).0 ≡ (admit_by_log now limit log).0)
      × Refines now (try_admit now limit w).1 (admit_by_log now limit log).1
unfolding try_admit
try_admit-Refines t now limit w log h k r =
    let (rolled, total) = rolled-Refines t now w log h r in
    admit_rolled-Refines now limit _ _ log k total rolled

pub Refines-later :
    (t now : ℕ) (w : SlidingWindow) (log : List ℕ) → t ≤ now → Refines t w log → Refines now w log
Refines-later t now w log h r = record {
  sized = r.sized;
  slots = Slots-later t now 0 log w h r.slots;
  small = omega (arith, in_window_antitone t now log h, r.small);
}

-- A window with no live slot may be replaced by a new one.
pub Refines-new_window :
    (t now : ℕ) (w : SlidingWindow) (log : List ℕ)
    → t ≤ now
    → is_live now w ≡ false
    → Refines t w log
    → Refines now new_window log
unfolding is_live new_window
Refines-new_window t now w log h dead r = record {
  sized = refl;
  slots =
      subst (λ n. Slots now log 0 (replicate n empty_bucket)) r.sized
        (Slots-dead t now 0 log w h dead r.slots);
  small = omega (arith, in_window_antitone t now log h, r.small);
}

pub Refines-empty : Refines 0 new_window []
unfolding new_window in_window
Refines-empty = record { sized = refl; slots = Slots-empty 6 0; small = omega arith }
