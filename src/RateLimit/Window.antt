-- ===== src/RateLimit/Window.antt =====
-- `SlidingWindow` of crates/http-api/src/rate_limit.rs: the per-partition counter over the trailing
-- six segments of ten seconds.
pub mod Slots
pub mod Updates
pub mod Refinement
use explorer_backend.Base.{
  Bool, List, [], any, false, if◌then◌else◌, leb, ltb, replicate, suc, true, zero, ℕ, ◌%◌, ◌+◌, ◌-◌,
  ◌/◌, ◌==◌, ◌∷◌,
}

abbrev pub segments : ℕ
segments = 6

abbrev pub window_seconds : ℕ
window_seconds = 60

abbrev pub segment_seconds : ℕ
segment_seconds = window_seconds / segments

abbrev pub retry_after_seconds : ℕ
retry_after_seconds = window_seconds

abbrev pub u32_max : ℕ
u32_max = 4294967295

-- `u32::saturating_add`
abbrev pub saturating_add_u32 : ℕ → ℕ → ℕ
saturating_add_u32 a b = if leb (a + b) u32_max then a + b else u32_max

-- One slot of the array: the segment that it counts and the requests admitted in it.
pub record Bucket : Type 0 where
  pub segment : ℕ
  pub count : ℕ

abbrev pub empty_bucket : Bucket
empty_bucket = record { segment = 0; count = 0 }

abbrev pub SlidingWindow : Type 0
SlidingWindow = List Bucket

unfoldable pub new_window : SlidingWindow
new_window = replicate segments empty_bucket

-- `now_segment.saturating_sub(SEGMENTS - 1)`: subtraction on ℕ stops at 0 too.
abbrev pub window_start : ℕ → ℕ
window_start now = now - (segments - 1)

-- The loop of `try_admit`: it resets the slots that have rolled out and adds up the others.
unfoldable pub roll : ℕ → ℕ → List Bucket → ℕ × List Bucket
roll start total [] = (total, [])
roll start total (b ∷ bs) =
    let (sum, rest) =
      roll start (if ltb b.segment start then total else saturating_add_u32 total b.count) bs in
    (sum, (if ltb b.segment start then empty_bucket else b) ∷ rest)

unfoldable pub record_in : ℕ → Bucket → Bucket
record_in now b =
    if b.segment == now
    then record b { count = saturating_add_u32 b.count 1 }
    else record { segment = now; count = 1 }

-- Replaces the element of an array at an index.
unfoldable pub update_at : ℕ → (Bucket → Bucket) → List Bucket → List Bucket
update_at i f [] = []
update_at zero f (b ∷ bs) = f b ∷ bs
update_at (suc i) f (b ∷ bs) = b ∷ update_at i f bs

abbrev pub admit_rolled : ℕ → ℕ → ℕ × List Bucket → Bool × SlidingWindow
admit_rolled now limit (total, buckets) =
    if leb limit total
    then (false, buckets)
    else (true, update_at (now % segments) (record_in now) buckets)

unfoldable pub try_admit : ℕ → ℕ → SlidingWindow → Bool × SlidingWindow
unfolding roll record_in update_at
try_admit now limit window = admit_rolled now limit (roll (window_start now) 0 window)

-- The test of `sweep_dead_windows`: some slot is still inside the window.
unfoldable pub is_live : ℕ → SlidingWindow → Bool
is_live now window = any (λ b. leb (window_start now) b.segment) window
