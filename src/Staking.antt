-- ===== src/Staking.antt =====
-- The stake replay of crates/db/src/staking.rs: the stakes of all addresses with their totals, which
-- the events of a transaction change, forward or in reverse. `BigInt` is ℤ; the counts of stakers
-- and masters are `i32` in the source and never come near its bounds.
pub mod Transactions
pub mod Weights
pub mod Tally
pub mod Loading
pub mod Intx
pub mod Invariant
pub mod Daily
pub mod Grouping
pub mod Curve
pub mod Forward
mod Tests
use explorer_backend.Base.{
  Bool, List, Option, Text, [], false, if◌then◌else◌, is_empty, length, ltb, min, none, not,
  reverse, some, suc, trim, true, zero, ℕ, ◌++◌, ◌+◌, ◌-◌, ◌^◌, ◌∷◌, text_key,
}
use explorer_backend.Base.Int.{ltb_ℤ, negsuc, pos, ℤ, ◌+ℤ◌, ◌-ℤ◌}
use explorer_backend.Base.Map.{insert, lookup, remove}

abbrev pub stake_snapshot_master_threshold : ℤ
stake_snapshot_master_threshold = pos 5000000000000

abbrev pub zero_ℤ : ℤ
zero_ℤ = pos 0

-- The reasons, as data in place of their text.
pub data Anomaly : Type 0 where
  empty_address : (event_id : ℤ) → Anomaly
  negative_stake : (address : Text) (event_id old_value delta : ℤ) → Anomaly
  negative_total : (event_id : ℤ) → Anomaly
  negative_supply : (reverse : Bool) (event_id : ℤ) → Anomaly

pub record StakeSnapshotAnomalies : Type 0 where
  pub count : ℕ
  pub samples : List Anomaly

abbrev max_samples : ℕ
max_samples = 5

unfoldable pub record_anomaly : Anomaly → StakeSnapshotAnomalies → StakeSnapshotAnomalies
record_anomaly reason a = record {
  count = min (a.count + 1) (2 ^ 32 - 1);
  samples = if ltb (length a.samples) max_samples then a.samples ++ (reason ∷ []) else a.samples;
}

pub record StakeSnapshotState : Type 0 where
  pub stakes_by_address : List (Text × ℤ)
  pub total_staked_raw : ℤ
  pub soul_supply_raw : ℤ
  pub stakers_count : ℤ
  pub masters_count : ℤ

pub record StakeSnapshotEventRow : Type 0 where
  pub event_id : ℤ
  pub tx_id : ℤ
  pub kind : Text
  pub timestamp_unix_seconds : ℤ
  pub payload_identity : Text
  pub payload_format : ℤ
  pub token_symbol : Option Text
  pub value_raw : Option ℤ
  pub address : Option Text
  pub market_quote_symbol : Option Text
  pub tx_has_stake_call : Bool
  pub tx_has_unstake_call : Bool
  pub tx_has_claim_call : Bool
  pub tx_apply_inflation_result_soul_delta_raw : Option ℤ

-- State and anomalies, which the source passes as two `&mut` arguments.
pub record Replay : Type 0 where
  pub state : StakeSnapshotState
  pub anomalies : StakeSnapshotAnomalies

abbrev pub noted : Anomaly → Replay → Replay
noted reason r = record r { anomalies = record_anomaly reason r.anomalies }

abbrev pub or_zero : Option ℤ → ℤ
or_zero none = zero_ℤ
or_zero (some v) = v

abbrev pub is_positive : ℤ → Bool
is_positive v = ltb_ℤ zero_ℤ v

abbrev pub is_master_stake : ℤ → Bool
is_master_stake v = not (ltb_ℤ v stake_snapshot_master_threshold)

-- How a count changes when a test on the old value and on the new one differ.
abbrev pub step_count : Bool → Bool → ℤ → ℤ
step_count true true n = n
step_count false false n = n
step_count false true n = n +ℤ pos 1
step_count true false n = n +ℤ negsuc 0

abbrev pub is_zero : ℤ → Bool
is_zero (pos zero) = true
is_zero (pos (suc n)) = false
is_zero (negsuc n) = false

abbrev pub store_stake : Text → ℤ → List (Text × ℤ) → List (Text × ℤ)
store_stake address value stakes =
    if is_zero value then remove address stakes else insert address value stakes

-- The stake of an address after a delta, not below zero.
abbrev pub clamp_zero : ℤ → ℤ
clamp_zero v = if ltb_ℤ v zero_ℤ then zero_ℤ else v

module _ (event_id : ℤ) where
  -- The address, its old stake, and the replay in which a stake below zero is noted.
  unfoldable pub set_stake : Text → ℤ → ℤ → Replay → Replay
  set_stake address old_value new_value r =
      let s = r.state in
      let total = s.total_staked_raw +ℤ (new_value -ℤ old_value) in
      let r' = if ltb_ℤ total zero_ℤ then noted (negative_total event_id) r else r in
      record r' {
        state = record s {
          stakes_by_address = store_stake address new_value s.stakes_by_address;
          total_staked_raw = clamp_zero total;
          stakers_count =
              step_count (is_positive old_value) (is_positive new_value) s.stakers_count;
          masters_count =
              step_count (is_master_stake old_value) (is_master_stake new_value) s.masters_count;
        };
      }

  unfoldable pub change_stake : Text → ℤ → Replay → Replay
  unfolding set_stake
  change_stake address delta r =
      let old_value = or_zero (lookup address r.state.stakes_by_address) in
      let new_value = old_value +ℤ delta in
      let r' =
        if ltb_ℤ new_value zero_ℤ
        then noted (negative_stake address event_id old_value delta) r
        else r in
      set_stake address old_value (clamp_zero new_value) r'

  unfoldable pub change_stake_of : Option Text → ℤ → Replay → Replay
  unfolding change_stake
  change_stake_of none delta r = noted (empty_address event_id) r
  change_stake_of (some address) delta r =
      if is_empty (trim address)
      then noted (empty_address event_id) r
      else change_stake address delta r

unfoldable pub apply_stake_snapshot_stake_delta : StakeSnapshotEventRow → ℤ → Replay → Replay
unfolding change_stake_of
apply_stake_snapshot_stake_delta row delta r = change_stake_of row.event_id row.address delta r

-- The loop over the stored stakes, which are all of one chain.
unfoldable pub load_stake : Text → ℤ → StakeSnapshotState → StakeSnapshotState
load_stake address staked s = if not (is_positive staked) then s else record s {
  stakes_by_address = insert address staked s.stakes_by_address;
  total_staked_raw = s.total_staked_raw +ℤ staked;
  stakers_count = s.stakers_count +ℤ pos 1;
  masters_count = if is_master_stake staked then s.masters_count +ℤ pos 1 else s.masters_count;
}

unfoldable pub load_from : List (Text × ℤ) → StakeSnapshotState → StakeSnapshotState
unfolding load_stake
load_from [] s = s
load_from ((address, staked) ∷ rows) s = load_from rows (load_stake address staked s)

unfoldable pub load_stakes : List (Text × ℤ) → ℤ → StakeSnapshotState
unfolding load_from
load_stakes rows supply = load_from rows (record {
  stakes_by_address = [];
  total_staked_raw = zero_ℤ;
  soul_supply_raw = supply;
  stakers_count = zero_ℤ;
  masters_count = zero_ℤ;
})
