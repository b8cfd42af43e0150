-- ===== src/Relief/History.antt =====
-- `RpcReliefState` of crates/ingestion/src/driver.rs against the history of its calls.
use explorer_backend.Base.{
  Bool, List, Option, [], false, if◌then◌else◌, length, ltb, none, some, suc, ℕ, ◌+◌, ◌<◌, ◌==◌,
  ◌∷◌, ◌≡◌, ◌≤◌,
}
use explorer_backend.Relief.{
  RpcReliefState, clear, register_progress, register_stall, relief_default,
}

pub data ReliefCall : Type 0 where
  stalled : (height : ℕ) → ReliefCall
  progressed : (blocks : ℕ) → ReliefCall
  cleared : ReliefCall

pub after_call : ReliefCall → RpcReliefState → RpcReliefState
after_call (stalled height) r = (register_stall height r).0
after_call (progressed blocks) r = (register_progress blocks r).0
after_call cleared r = (clear r).0

-- The state after a history, the latest call at the head of the list.
pub after_calls : List ReliefCall → RpcReliefState
after_calls [] = relief_default
after_calls (c ∷ cs) = after_call c (after_calls cs)

-- Blocks committed since the latest stall, unless there was none or the mode was cleared since.
pub earned : List ReliefCall → Option ℕ
earned [] = none
earned (stalled height ∷ cs) = some 0
earned (progressed blocks ∷ cs) = elim (earned cs) [ none ↦ none | some n ↦ some (n + blocks) ]
earned (cleared ∷ cs) = none

-- The mode is on from a stall until four blocks are committed after it, or it is cleared.
pub sheds : List ReliefCall → Bool
sheds cs = elim (earned cs) [ none ↦ false | some n ↦ ltb n 4 ]

-- How often the latest calls stalled at one height without a break.
pub stalls_at : ℕ → List ReliefCall → ℕ
stalls_at h [] = 0
stalls_at h (stalled height ∷ cs) = if height == h then suc (stalls_at h cs) else 0
stalls_at h (progressed blocks ∷ cs) = 0
stalls_at h (cleared ∷ cs) = 0

record InStep (cs : List ReliefCall) (r : RpcReliefState) : Type 0 where
  mode : r.active ≡ sheds cs
  streak : (n : ℕ) → earned cs ≡ some n → n < 4 → r.committed_streak ≡ n
  count : (h : ℕ) → stalls_at h cs ≡ (if r.stalled_height == h then r.stall_count else 0)
  short : r.stall_count ≤ length cs
