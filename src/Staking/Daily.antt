-- ===== src/Staking/Daily.antt =====
-- The daily points of the stake curve: `build_stake_snapshot_daily_points` of
-- crates/db/src/staking.rs. The raw amounts of a point are numbers here, text in the source.
use explorer_backend.Base.{
  List, Option, [], false, if◌then◌else◌, length, none, some, suc, zero, ℕ, ◌*◌, ◌+◌, ◌-◌, ◌/◌, ◌∷◌,
}
use explorer_backend.Base.Int.{ltb_ℤ, pos, pos_part, ℤ, ◌+ℤ◌, ◌-ℤ◌}
use explorer_backend.Staking.{Replay, StakeSnapshotEventRow, StakeSnapshotState}
use explorer_backend.Staking.Transactions.{
  apply_stake_snapshot_transaction, beq_ℤ, deduplicate_stake_snapshot_tx_rows, other_tx, same_tx,
}

abbrev pub seconds_per_day : ℕ
seconds_per_day = 86400

pub record StakeSnapshotDailyPoint : Type 0 where
  pub date_unix_seconds : ℤ
  pub staked_soul_raw : ℤ
  pub soul_supply_raw : ℤ
  pub stakers_count : ℤ
  pub masters_count : ℤ
  pub captured_at_unix_seconds : ℤ

pub record StakeSnapshotBuildOutput : Type 0 where
  pub points : List StakeSnapshotDailyPoint
  pub closed_day_state : Option (ℤ × StakeSnapshotState)
  pub replay : Replay

abbrev pub stake_snapshot_day_end : ℤ → ℤ
stake_snapshot_day_end day = day +ℤ pos (seconds_per_day - 1)

-- The inner loop: the transactions up to the end of the day, and the rows that are left. Each round
-- takes a row at least, so as many rounds as rows are enough.
unfoldable pub apply_day :
    ℕ → ℤ → List StakeSnapshotEventRow → Replay → Replay × List StakeSnapshotEventRow
apply_day zero day_end rows r = (r, rows)
apply_day (suc fuel) day_end [] r = (r, [])
apply_day (suc fuel) day_end (row ∷ rows) r =
    let group = deduplicate_stake_snapshot_tx_rows (row ∷ same_tx row.tx_id rows) in
    let rest =
      apply_day fuel day_end (other_tx row.tx_id rows)
        (apply_stake_snapshot_transaction group false r) in
    if ltb_ℤ day_end row.timestamp_unix_seconds then (r, row ∷ rows) else rest

abbrev pub daily_point : ℤ → StakeSnapshotState → StakeSnapshotDailyPoint
daily_point day s = record {
  date_unix_seconds = day;
  staked_soul_raw = s.total_staked_raw;
  soul_supply_raw = s.soul_supply_raw;
  stakers_count = s.stakers_count;
  masters_count = s.masters_count;
  captured_at_unix_seconds = stake_snapshot_day_end day;
}

-- The penultimate day's state is the one that a later run resumes from.
abbrev pub close_day :
    ℤ → ℤ → StakeSnapshotState → Option (ℤ × StakeSnapshotState) → Option (ℤ × StakeSnapshotState)
close_day day to_exclusive s closed =
    if beq_ℤ (day +ℤ pos (2 * seconds_per_day)) to_exclusive then some (day, s) else closed

-- The loop over the days; the first argument is the number of rounds left. The days are those of
-- timestamps, so their sums stay far below the last `i64`.
unfoldable pub build_from :
    ℕ
    → ℤ
    → ℤ
    → List StakeSnapshotEventRow
    → Option (ℤ × StakeSnapshotState)
    → Replay
    → StakeSnapshotBuildOutput
build_from zero day to_exclusive rows closed r = record {
  points = [];
  closed_day_state = closed;
  replay = r;
}
build_from (suc left) day to_exclusive rows closed r =
    let (applied, rest) = apply_day (length rows) (stake_snapshot_day_end day) rows r in
    let output =
      build_from left (day +ℤ pos seconds_per_day) to_exclusive rest
        (close_day day to_exclusive applied.state closed) applied in
    if ltb_ℤ day to_exclusive
    then record output { points = daily_point day applied.state ∷ output.points }
    else record { points = []; closed_day_state = closed; replay = r }

-- As many rounds as there are days in `[from_day, to_exclusive)`, the last one counted though it may be
-- cut.
abbrev pub days_between : ℤ → ℤ → ℕ
days_between from_day to_exclusive =
    (pos_part (to_exclusive -ℤ from_day) + (seconds_per_day - 1)) / seconds_per_day

unfoldable pub build_stake_snapshot_daily_points :
    List StakeSnapshotEventRow → ℤ → ℤ → Replay → StakeSnapshotBuildOutput
unfolding build_from apply_day
build_stake_snapshot_daily_points rows from_day to_exclusive r =
    build_from (days_between from_day to_exclusive) from_day to_exclusive rows none r
