-- ===== src/Staking/Grouping.antt =====
-- The rows of the stake replay (crates/db/src/staking.rs) as transactions, and the reverse replay by
-- transactions.
use mathlib.Core.List.{reverse-append, reverse-cons, reverse-reverse}
use explorer_backend.Base.{
  All, All-append, List, [], ap, arith, false, length, length-append, refl, reverse, subst, suc,
  sym, true, zero, ℕ, ◌++◌, ◌∙◌, ◌∷◌, ◌≡◌, ◌≢◌, ◌≤◌,
}
use explorer_backend.Base.Int.{eq_of_parts, ℤ}
use explorer_backend.Staking.{Replay, StakeSnapshotEventRow}
use explorer_backend.Staking.Transactions.{
  apply_stake_snapshot_transaction, beq_ℤ, deduplicate_stake_snapshot_tx_rows, other_tx,
  reverse_replay_from, reverse_replay_stake_snapshot_events, same_tx,
}

abbrev pub Rows : Type 0
Rows = List StakeSnapshotEventRow

-- The rows of one transaction, with its ID.
abbrev pub Transaction : Type 0
Transaction = ℤ × Rows

pub record IsTransaction (t : Transaction) : Type 0 where
  pub some_row : 1 ≤ length (t.1)
  pub same_id : All (λ row. row.tx_id ≡ t.0) (t.1)

abbrev pub Differs : ℤ → List Transaction → Type 0
Differs id [] = Unit
Differs id (t ∷ ts) = t.0 ≢ id

-- Transactions of which neighbours have different IDs.
abbrev pub Separate : List Transaction → Type 0
Separate [] = Unit
Separate (t ∷ ts) = IsTransaction t × Differs t.0 ts × Separate ts

-- The rows do not go on with the transaction.
abbrev pub Ends : ℤ → Rows → Type 0
Ends id [] = Unit
Ends id (row ∷ rows) = beq_ℤ row.tx_id id ≡ false

beq_ℤ_refl : (a : ℤ) → beq_ℤ a a ≡ true
beq_ℤ_refl a = ground arith

beq_ℤ-false : (a b : ℤ) → a ≢ b → beq_ℤ a b ≡ false
beq_ℤ-false a b h = ground (arith, h, eq_of_parts a b)

pub same_tx-append :
    (id : ℤ) (t rest : Rows)
    → All (λ row. row.tx_id ≡ id) t
    → Ends id rest
    → same_tx id (t ++ rest) ≡ t
same_tx-append id [] [] same ends = refl
same_tx-append id [] (row ∷ rows) same ends = rw ends refl
same_tx-append id (row ∷ t) rest same ends =
    rw (same.0, beq_ℤ_refl id, same_tx-append id t rest same.1 ends) refl

pub other_tx-append :
    (id : ℤ) (t rest : Rows)
    → All (λ row. row.tx_id ≡ id) t
    → Ends id rest
    → other_tx id (t ++ rest) ≡ rest
other_tx-append id [] [] same ends = refl
other_tx-append id [] (row ∷ rows) same ends = rw ends refl
other_tx-append id (row ∷ t) rest same ends =
    rw (same.0, beq_ℤ_refl id, other_tx-append id t rest same.1 ends) refl

pub Ends-append :
    (id other : ℤ) (t rest : Rows)
    → other ≢ id
    → 1 ≤ length t
    → All (λ row. row.tx_id ≡ other) t
    → Ends id (t ++ rest)
Ends-append id other [] rest h some_row same = absurd (omega (arith, some_row))
Ends-append id other (row ∷ t) rest h some_row same =
    subst (λ x. beq_ℤ x id ≡ false) (sym same.0) (beq_ℤ-false other id h)

All-reverse : (P : StakeSnapshotEventRow → Type 0) (rows : Rows) → All P rows → All P (reverse rows)
All-reverse P [] h = tt
All-reverse P (row ∷ rows) h =
    subst (λ l. All P l) (sym (reverse-cons row rows))
      (All-append P (reverse rows) (row ∷ []) (All-reverse P rows h.1) (h.0, tt))

length-reverse : (rows : Rows) → length (reverse rows) ≡ length rows
length-reverse [] = refl
length-reverse (row ∷ rows) =
    ap (λ l. length l) (reverse-cons row rows)
    ∙ length-append (reverse rows) (row ∷ [])
    ∙ omega (arith, length-reverse rows)

-- The rows of transactions that are given from the last one to the first.
pub in_order : List Transaction → Rows
in_order [] = []
in_order (t ∷ ts) = in_order ts ++ t.1

backwards : List Transaction → Rows
backwards [] = []
backwards (t ∷ ts) = reverse (t.1) ++ backwards ts

reverse-in_order : (ts : List Transaction) → reverse (in_order ts) ≡ backwards ts
unfolding in_order backwards
reverse-in_order [] = refl
reverse-in_order (t ∷ ts) =
    reverse-append (in_order ts) (t.1) ∙ ap (λ l. reverse (t.1) ++ l) (reverse-in_order ts)

-- Each transaction is taken back, without its duplicates, in the order of the list.
pub take_back : List Transaction → Replay → Replay
take_back [] r = r
take_back (t ∷ ts) r =
    take_back ts
      (apply_stake_snapshot_transaction (deduplicate_stake_snapshot_tx_rows (t.1)) true r)

backwards-Ends :
    (id : ℤ) (ts : List Transaction) → Differs id ts → Separate ts → Ends id (backwards ts)
unfolding backwards
backwards-Ends id [] h separate = tt
backwards-Ends id (t ∷ ts) h separate =
    Ends-append id (t.0) (reverse (t.1)) (backwards ts) h
      (omega (arith, length-reverse (t.1), separate.0.some_row))
      (All-reverse _ (t.1) separate.0.same_id)

one_round :
    (fuel : ℕ) (id : ℤ) (rows rest : Rows) (r : Replay)
    → 1 ≤ length rows
    → All (λ row. row.tx_id ≡ id) rows
    → Ends id rest
    → reverse_replay_from (suc fuel) (rows ++ rest) r
      ≡ reverse_replay_from fuel rest (
          apply_stake_snapshot_transaction
            (deduplicate_stake_snapshot_tx_rows (reverse rows))
            true
            r)
unfolding reverse_replay_from
one_round fuel id [] rest r some_row same ends = absurd (omega (arith, some_row))
one_round fuel id (row ∷ rows) rest r some_row same ends =
    rw (same.0, same_tx-append id rows rest same.1 ends, other_tx-append id rows rest same.1 ends)
      refl

reverse_replay_from-take_back :
    (fuel : ℕ) (ts : List Transaction) (r : Replay)
    → Separate ts
    → length (backwards ts) ≤ fuel
    → reverse_replay_from fuel (backwards ts) r ≡ take_back ts r
unfolding reverse_replay_from backwards take_back
reverse_replay_from-take_back zero [] r separate h = refl
reverse_replay_from-take_back (suc fuel) [] r separate h = refl
reverse_replay_from-take_back zero (t ∷ ts) r separate h = absurd (
    omega (
      arith,
      length-append (reverse (t.1)) (backwards ts),
      length-reverse (t.1),
      separate.0.some_row,
    ))
reverse_replay_from-take_back (suc fuel) (t ∷ ts) r separate h =
    let some_row : 1 ≤ length (reverse (t.1)) =
      omega (arith, length-reverse (t.1), separate.0.some_row) in
    one_round fuel (t.0) (reverse (t.1)) (backwards ts) r some_row
      (All-reverse _ (t.1) separate.0.same_id) (backwards-Ends (t.0) ts separate.1 separate.2)
    ∙ ap
        (λ rows.
          reverse_replay_from fuel (backwards ts)
            (apply_stake_snapshot_transaction (deduplicate_stake_snapshot_tx_rows rows) true r))
        (reverse-reverse (t.1))
    ∙ reverse_replay_from-take_back fuel ts _ separate.2 (
        omega (
          arith,
          length-append (reverse (t.1)) (backwards ts),
          length-reverse (t.1),
          separate.0.some_row,
        ))

-- For rows that are those of some transactions, one after the other, each with a row at least and with
-- another ID than its neighbours: the reverse replay takes back every one of the transactions, with
-- all of its rows but the duplicates, from the last transaction to the first.
pub reverse_replay-take_back :
    (ts : List Transaction) (r : Replay)
    → Separate ts
    → reverse_replay_stake_snapshot_events (in_order ts) r ≡ take_back ts r
unfolding reverse_replay_stake_snapshot_events
reverse_replay-take_back ts r separate =
    ap (λ rows. reverse_replay_from (length (in_order ts)) rows r) (reverse-in_order ts)
    ∙ reverse_replay_from-take_back (length (in_order ts)) ts r separate
        (omega (arith, ap (λ l. length l) (reverse-in_order ts), length-reverse (in_order ts)))
