-- ===== src/Staking/Tests.antt =====
-- A replay of one unstaking (crates/db/src/staking.rs) from two stored stakes.
use explorer_backend.Base.{
  List, Text, [], arith, codes, false, none, refl, some, true, ◌∷◌, ◌≡◌, text_key,
}
use explorer_backend.Base.Int.{pos, ℤ}
use explorer_backend.Base.Map.{Distinct, lookup}
use explorer_backend.Staking.{Replay, StakeSnapshotAnomalies, StakeSnapshotEventRow, load_stakes}
use explorer_backend.Staking.Tally.{IsTally}
use explorer_backend.Staking.Transactions.{
  apply_stake_snapshot_transaction, reverse_replay_stake_snapshot_events,
}
use explorer_backend.Staking.Loading.{load_stakes-IsTally}
use explorer_backend.Staking.Curve.{IsCurve, build_stake_snapshot_daily_points-IsCurve}
use explorer_backend.Staking.Forward.{rows_of}
use explorer_backend.Staking.Daily.{build_stake_snapshot_daily_points}
use explorer_backend.Staking.Grouping.{
  IsTransaction, Transaction, in_order, reverse_replay-take_back, take_back,
}
use explorer_backend.Staking.Invariant.{
  apply_stake_snapshot_transaction-IsTally, reverse_replay-IsTally,
}

abbrev claim_of : Text → ℤ → StakeSnapshotEventRow
claim_of address value = record {
  event_id = pos 7;
  tx_id = pos 3;
  kind = codes "TokenClaim";
  timestamp_unix_seconds = pos 90000;
  payload_identity = [];
  payload_format = pos 3;
  token_symbol = some (codes "soul");
  value_raw = some value;
  address = some address;
  market_quote_symbol = none;
  tx_has_stake_call = false;
  tx_has_unstake_call = true;
  tx_has_claim_call = false;
  tx_apply_inflation_result_soul_delta_raw = none;
}

abbrev stored : List (Text × ℤ)
stored = (codes "P1", pos 5000000000000) ∷ (codes "P2", pos 40) ∷ []

abbrev no_anomalies : StakeSnapshotAnomalies
no_anomalies = record { count = 0; samples = [] }

abbrev before : Replay
before = record { state = load_stakes stored (pos 100); anomalies = no_anomalies }

stored-Distinct : Distinct stored
unfolding lookup
stored-Distinct = (refl, (refl, tt))

apply_stake_snapshot_transaction-IsTally_example :
    IsTally
      (apply_stake_snapshot_transaction (claim_of (codes "P2") (pos 41) ∷ []) false before).state
apply_stake_snapshot_transaction-IsTally_example =
    apply_stake_snapshot_transaction-IsTally (claim_of (codes "P2") (pos 41) ∷ []) false before
      (load_stakes-IsTally stored (pos 100) stored-Distinct)

reverse_replay-IsTally_example :
    IsTally
      (reverse_replay_stake_snapshot_events (claim_of (codes "P2") (pos 41) ∷ []) before).state
reverse_replay-IsTally_example =
    reverse_replay-IsTally stored (pos 100) (claim_of (codes "P2") (pos 41) ∷ []) no_anomalies
      stored-Distinct

abbrev in_transaction : ℤ → ℤ → StakeSnapshotEventRow
in_transaction id time = record (claim_of (codes "P2") (pos 1)) {
  tx_id = id;
  timestamp_unix_seconds = time;
}

abbrev first_transaction : Transaction
first_transaction = (pos 3, in_transaction (pos 3) (pos 100) ∷ [])

abbrev second_transaction : Transaction
second_transaction = (pos 4, in_transaction (pos 4) (pos 90000) ∷ [])

first-IsTransaction : IsTransaction first_transaction
first-IsTransaction = record { some_row = omega arith; same_id = (refl, tt) }

second-IsTransaction : IsTransaction second_transaction
second-IsTransaction = record { some_row = omega arith; same_id = (refl, tt) }

build_stake_snapshot_daily_points-IsCurve_example :
    IsCurve (first_transaction ∷ second_transaction ∷ []) before (pos 172800) (pos 0) (
      build_stake_snapshot_daily_points
        (rows_of (first_transaction ∷ second_transaction ∷ []))
        (pos 0)
        (pos 172800)
        before)
build_stake_snapshot_daily_points-IsCurve_example =
    build_stake_snapshot_daily_points-IsCurve (first_transaction ∷ second_transaction ∷ []) (pos 0)
      (pos 172800) before (first-IsTransaction, (λ e. cc), (second-IsTransaction, tt, tt))

reverse_replay-take_back_example :
    reverse_replay_stake_snapshot_events
      (in_order (second_transaction ∷ first_transaction ∷ []))
      before
    ≡ take_back (second_transaction ∷ first_transaction ∷ []) before
reverse_replay-take_back_example =
    reverse_replay-take_back (second_transaction ∷ first_transaction ∷ []) before
      (second-IsTransaction, (λ e. cc), (first-IsTransaction, tt, tt))
