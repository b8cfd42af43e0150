-- ===== src/Staking/Forward.antt =====
-- A day of the forward build (crates/db/src/staking.rs) by transactions.
use explorer_backend.Base.{
  All, Bool, Bool-cases, List, [], arith, false, if◌then◌else◌, inl, inr, length, length-append,
  refl, suc, true, zero, ℕ, ◌++◌, ◌∙◌, ◌∷◌, ◌≡◌, ◌≤◌,
}
use explorer_backend.Base.Int.{ltb_ℤ, ℤ, ◌≤ℤ◌}
use explorer_backend.Staking.{Replay}
use explorer_backend.Staking.Transactions.{
  apply_stake_snapshot_transaction, deduplicate_stake_snapshot_tx_rows,
}
use explorer_backend.Staking.Daily.{apply_day}
use explorer_backend.Staking.Grouping.{
  Differs, Ends, Ends-append, Rows, Separate, Transaction, other_tx-append, same_tx-append,
}

pub rows_of : List Transaction → Rows
rows_of [] = []
rows_of (t ∷ ts) = t.1 ++ rows_of ts

-- A transaction is later than a time by its first row.
pub is_later : ℤ → Rows → Bool
is_later time [] = false
is_later time (row ∷ rows) = ltb_ℤ time row.timestamp_unix_seconds

-- The replay of the transactions up to the first one that is later than the time, from the start.
pub replay_until : ℤ → List Transaction → Replay → Replay
replay_until time [] r = r
replay_until time (t ∷ ts) r =
    let rest =
      replay_until time ts
        (apply_stake_snapshot_transaction (deduplicate_stake_snapshot_tx_rows (t.1)) false r) in
    if is_later time (t.1) then r else rest

pub left_after : ℤ → List Transaction → List Transaction
left_after time [] = []
left_after time (t ∷ ts) =
    let rest = left_after time ts in if is_later time (t.1) then t ∷ ts else rest

rows_of-Ends : (id : ℤ) (ts : List Transaction) → Differs id ts → Separate ts → Ends id (rows_of ts)
unfolding rows_of
rows_of-Ends id [] h separate = tt
rows_of-Ends id (t ∷ ts) h separate =
    Ends-append id (t.0) (t.1) (rows_of ts) h separate.0.some_row separate.0.same_id

one_transaction :
    (fuel : ℕ) (time id : ℤ) (rows rest : Rows) (r : Replay)
    → 1 ≤ length rows
    → All (λ row. row.tx_id ≡ id) rows
    → Ends id rest
    → apply_day (suc fuel) time (rows ++ rest) r ≡ (
        if is_later time rows
        then (r, rows ++ rest)
        else apply_day fuel time rest
            (apply_stake_snapshot_transaction (deduplicate_stake_snapshot_tx_rows rows) false r))
unfolding apply_day is_later
one_transaction fuel time id [] rest r some_row same ends = absurd (omega (arith, some_row))
one_transaction fuel time id (row ∷ rows) rest r some_row same ends =
    rw (same.0, same_tx-append id rows rest same.1 ends, other_tx-append id rows rest same.1 ends)
      refl

-- A day takes exactly the transactions that are not later than its end, up to the first later one.
pub apply_day-replay_until :
    (fuel : ℕ) (time : ℤ) (ts : List Transaction) (r : Replay)
    → Separate ts
    → length (rows_of ts) ≤ fuel
    → apply_day fuel time (rows_of ts) r ≡ (replay_until time ts r, rows_of (left_after time ts))
unfolding apply_day rows_of replay_until left_after
apply_day-replay_until zero time [] r separate h = refl
apply_day-replay_until (suc fuel) time [] r separate h = refl
apply_day-replay_until zero time (t ∷ ts) r separate h =
    absurd (omega (arith, length-append (t.1) (rows_of ts), separate.0.some_row))
apply_day-replay_until (suc fuel) time (t ∷ ts) r separate h =
    one_transaction fuel time (t.0) (t.1) (rows_of ts) r separate.0.some_row separate.0.same_id
      (rows_of-Ends (t.0) ts separate.1 separate.2)
    ∙ elim (Bool-cases (is_later time (t.1))) [
      | inl later ↦ rw later refl
      | inr now ↦ rw now (
          apply_day-replay_until fuel time ts _ separate.2
            (omega (arith, length-append (t.1) (rows_of ts), separate.0.some_row)))
    ]

pub left_after-Separate :
    (time : ℤ) (ts : List Transaction) → Separate ts → Separate (left_after time ts)
unfolding left_after
left_after-Separate time [] separate = tt
left_after-Separate time (t ∷ ts) separate = elim (Bool-cases (is_later time (t.1))) [
  | inl later ↦ rw later separate
  | inr now ↦ rw now (left_after-Separate time ts separate.2)
]

is_later_before :
    (a b : ℤ) (rows : Rows) → a ≤ℤ b → is_later a rows ≡ false → is_later b rows ≡ false
unfolding is_later
is_later_before a b [] h e = refl
is_later_before a b (row ∷ rows) h e = ground (arith, h, e)

is_later_after : (a b : ℤ) (rows : Rows) → a ≤ℤ b → is_later b rows ≡ true → is_later a rows ≡ true
unfolding is_later
is_later_after a b [] h e = absurd (cc e)
is_later_after a b (row ∷ rows) h e = ground (arith, h, e)

-- A replay up to a time goes on from a replay up to an earlier one.
pub replay_until-replay_until :
    (a b : ℤ) (ts : List Transaction) (r : Replay)
    → a ≤ℤ b
    → replay_until b (left_after a ts) (replay_until a ts r) ≡ replay_until b ts r
unfolding replay_until left_after
replay_until-replay_until a b [] r h = refl
replay_until-replay_until a b (t ∷ ts) r h = elim (Bool-cases (is_later a (t.1))) [
  | inl later ↦ rw later refl
  | inr now ↦ rw (now, is_later_before a b (t.1) h now) (replay_until-replay_until a b ts _ h)
]
