-- ===== src/Staking/Invariant.antt =====
-- Every part of the stake replay (crates/db/src/staking.rs) keeps the totals right.
use explorer_backend.Base.{
  Bool, List, Option, Text, [], false, if◌then◌else◌, is_empty, length, none, reverse, some, suc,
  trim, true, zero, ℕ, ◌∷◌, text_key,
}
use explorer_backend.Base.Int.{ltb_ℤ, ℤ, ◌+ℤ◌, ◌-ℤ◌}
use explorer_backend.Base.Map.{Distinct, lookup}
use explorer_backend.Staking.{
  Replay, StakeSnapshotAnomalies, StakeSnapshotEventRow, apply_stake_snapshot_stake_delta,
  change_stake, change_stake_of, clamp_zero, load_stakes, negative_stake, negative_supply, noted,
  or_zero, set_stake, zero_ℤ,
}
use explorer_backend.Staking.Weights.{clamp_zero-not_negative}
use explorer_backend.Staking.Tally.{IsTally, set_stake-IsTally}
use explorer_backend.Staking.Loading.{load_stakes-IsTally}
use explorer_backend.Staking.Transactions.{
  Folded, StakeSnapshotTxKind, apply_row, apply_rows, apply_soul, apply_stake_snapshot_transaction,
  apply_value, clamp_supply, classify_stake_snapshot_transaction,
  deduplicate_stake_snapshot_tx_rows, find_delta, minus_ℤ, other_tx, reverse_replay_from,
  reverse_replay_stake_snapshot_events, same_tx, set_supply, supply_changed,
}

abbrev Keeps : (Replay → Replay) → Type 0
Keeps f = (r : Replay) → IsTally r.state → IsTally (f r).state

change_stake-Keeps :
    (event_id delta : ℤ) (address : Text) → Keeps (change_stake event_id address delta)
unfolding change_stake
change_stake-Keeps event_id delta address r t =
    go (ltb_ℤ (or_zero (lookup address r.state.stakes_by_address) +ℤ delta) zero_ℤ)
  where
    old : ℤ
    old = or_zero (lookup address r.state.stakes_by_address)

    go :
        (b : Bool)
        → IsTally
            (set_stake event_id address old
              (clamp_zero (old +ℤ delta))
              (if b then noted (negative_stake address event_id old delta) r else r)).state
    go true =
        set_stake-IsTally event_id address _ (noted (negative_stake address event_id old delta) r)
          (clamp_zero-not_negative (old +ℤ delta)) t
    go false = set_stake-IsTally event_id address _ r (clamp_zero-not_negative (old +ℤ delta)) t

if-IsTally :
    (b : Bool) (r s : Replay)
    → IsTally r.state
    → IsTally s.state
    → IsTally (if b then r else s).state
if-IsTally true r s h k = h
if-IsTally false r s h k = k

change_stake_of-Keeps :
    (event_id delta : ℤ) (address : Option Text) → Keeps (change_stake_of event_id address delta)
unfolding change_stake_of
change_stake_of-Keeps event_id delta none r t = t
change_stake_of-Keeps event_id delta (some address) r t =
    if-IsTally (is_empty (trim address)) _ _ t (change_stake-Keeps event_id delta address r t)

apply_stake_snapshot_stake_delta-Keeps :
    (row : StakeSnapshotEventRow) (delta : ℤ) → Keeps (apply_stake_snapshot_stake_delta row delta)
unfolding apply_stake_snapshot_stake_delta
apply_stake_snapshot_stake_delta-Keeps row delta =
    change_stake_of-Keeps row.event_id delta row.address

set_supply-Keeps : (supply : ℤ) → Keeps (set_supply supply)
set_supply-Keeps supply r t = record {
  distinct = t.distinct;
  positive = t.positive;
  total = t.total;
  stakers = t.stakers;
  masters = t.masters;
}

clamp_supply-Keeps : (back : Bool) (event_id : ℤ) → Keeps (clamp_supply back event_id)
clamp_supply-Keeps back event_id r t =
    if-IsTally (ltb_ℤ r.state.soul_supply_raw zero_ℤ) _ _
      (set_supply-Keeps zero_ℤ (noted (negative_supply back event_id) r) t) t

unfoldable Holds : Folded → Type 0
Holds f = IsTally f.replay.state

if-Holds : (b : Bool) (f g : Folded) → Holds f → Holds g → Holds (if b then f else g)
if-Holds true f g h k = h
if-Holds false f g h k = k

supply_changed-Holds :
    (change : ℤ → ℤ → ℤ) (delta : Option ℤ) (value : ℤ) (f : Folded)
    → Holds f
    → Holds (supply_changed change delta value f)
unfolding Holds
supply_changed-Holds change none value f t = set_supply-Keeps _ f.replay t
supply_changed-Holds change (some delta) value f t =
    if-Holds f.applied _ _ t (set_supply-Keeps _ f.replay t)

stake_delta-Holds :
    (row : StakeSnapshotEventRow) (value : ℤ) (f : Folded)
    → Holds f
    → Holds (record f { replay = apply_stake_snapshot_stake_delta row value f.replay })
unfolding Holds
stake_delta-Holds row value f t = apply_stake_snapshot_stake_delta-Keeps row value f.replay t

clamp_supply-Holds :
    (back : Bool) (event_id : ℤ) (f : Folded)
    → Holds f
    → Holds (record f { replay = clamp_supply back event_id f.replay })
unfolding Holds
clamp_supply-Holds back event_id f t = clamp_supply-Keeps back event_id f.replay t

module _ (back : Bool) (tx_kind : StakeSnapshotTxKind) (delta : Option ℤ) where
  apply_value-Holds :
      (row : StakeSnapshotEventRow) (value : ℤ) (f : Folded)
      → Holds f
      → Holds (apply_value back tx_kind delta row value f)
  unfolding apply_value
  apply_value-Holds row value f t = if-Holds _ _ _ t (
      if-Holds _ _ _ (stake_delta-Holds row value f t) (
        if-Holds _ _ _ (stake_delta-Holds row (minus_ℤ value) f t) (
          if-Holds _ _ _ (supply_changed-Holds (λ a b. a +ℤ b) delta value f t) (
            clamp_supply-Holds back row.event_id _
              (supply_changed-Holds (λ a b. a -ℤ b) delta value f t)))))

  apply_soul-Holds :
      (row : StakeSnapshotEventRow) (value : Option ℤ) (f : Folded)
      → Holds f
      → Holds (apply_soul back tx_kind delta row value f)
  unfolding apply_soul
  apply_soul-Holds row none f t = t
  apply_soul-Holds row (some value) f t =
      if-Holds _ _ _ t (if-Holds _ _ _ t (apply_value-Holds row value f t))

  apply_rows-Holds :
      (rows : List StakeSnapshotEventRow) (f : Folded)
      → Holds f
      → Holds (apply_rows back tx_kind delta rows f)
  unfolding apply_rows apply_row
  apply_rows-Holds [] f t = t
  apply_rows-Holds (row ∷ rows) f t =
      apply_rows-Holds rows _ (if-Holds _ _ _ (apply_soul-Holds row row.value_raw f t) t)

-- Whatever the rows of a transaction say, in either direction, the replay of the transaction keeps
-- the state consistent: every stored stake is positive and belongs to one address, the total is the
-- sum of the stakes, and the counts are the numbers of stakers and of masters among them.
pub apply_stake_snapshot_transaction-IsTally :
    (rows : List StakeSnapshotEventRow) (back : Bool) (r : Replay)
    → IsTally r.state
    → IsTally (apply_stake_snapshot_transaction rows back r).state
unfolding apply_stake_snapshot_transaction Holds
apply_stake_snapshot_transaction-IsTally rows back r t =
    apply_rows-Holds back (classify_stake_snapshot_transaction rows) (find_delta rows) rows _ t

reverse_replay_from-IsTally :
    (fuel : ℕ) (rows : List StakeSnapshotEventRow) (r : Replay)
    → IsTally r.state
    → IsTally (reverse_replay_from fuel rows r).state
unfolding reverse_replay_from
reverse_replay_from-IsTally zero rows r t = t
reverse_replay_from-IsTally (suc fuel) [] r t = t
reverse_replay_from-IsTally (suc fuel) (row ∷ rows) r t =
    let group = deduplicate_stake_snapshot_tx_rows (reverse (row ∷ same_tx row.tx_id rows)) in
    reverse_replay_from-IsTally fuel (other_tx row.tx_id rows)
      (apply_stake_snapshot_transaction group true r)
      (apply_stake_snapshot_transaction-IsTally group true r t)

-- From stored stakes of distinct addresses, the reverse replay of any events ends in a consistent
-- state: every stake positive, the total their sum, and the counts those of stakers and masters.
pub reverse_replay-IsTally :
    (stored : List (Text × ℤ)) (supply : ℤ) (rows : List StakeSnapshotEventRow)
    (noted_before : StakeSnapshotAnomalies)
    → Distinct stored
    → IsTally
        (reverse_replay_stake_snapshot_events rows
          (record { state = load_stakes stored supply; anomalies = noted_before })).state
unfolding reverse_replay_stake_snapshot_events
reverse_replay-IsTally stored supply rows noted_before d =
    reverse_replay_from-IsTally (length rows) (reverse rows) _ (load_stakes-IsTally stored supply d)
