-- ===== src/Staking/Transactions.antt =====
-- The rows of a transaction in the stake replay of crates/db/src/staking.rs: which are dropped as
-- duplicates, what kind of transaction they make, and how each changes the state.
use explorer_backend.Base.{
  Bool, List, Option, Text, [], any, codes, false, if◌then◌else◌, length, lowercase, none, not,
  reverse, some, suc, text_beq, true, zero, ℕ, ◌&&◌, ◌++◌, ◌||◌, ◌∷◌,
}
use explorer_backend.Base.Int.{ltb_ℤ, pos, ℤ, ◌+ℤ◌, ◌-ℤ◌}
use explorer_backend.Staking.{
  Replay, StakeSnapshotEventRow, apply_stake_snapshot_stake_delta, is_positive, negative_supply,
  noted, zero_ℤ,
}

abbrev legacy_backfill_payload_format : ℤ
legacy_backfill_payload_format = pos 1

abbrev or_empty : Option Text → Text
or_empty none = []
or_empty (some s) = s

abbrev pub beq_ℤ : ℤ → ℤ → Bool
beq_ℤ a b = not (ltb_ℤ a b) && not (ltb_ℤ b a)

row_key : StakeSnapshotEventRow → Text
row_key row = row.kind ++ codes "|" ++ row.payload_identity ++ codes "|" ++ or_empty row.address

-- The rows are kept in order; `seen` is the set of the keys met so far.
unfoldable pub dedup_from : List Text → List StakeSnapshotEventRow → List StakeSnapshotEventRow
unfolding row_key
dedup_from seen [] = []
dedup_from seen (row ∷ rows) =
    let rest = dedup_from seen rows in
    let rest' = dedup_from (row_key row ∷ seen) rows in
    if not (beq_ℤ row.payload_format legacy_backfill_payload_format)
    then row ∷ rest
    else if any (text_beq (row_key row)) seen
    then rest
    else row ∷ rest'

unfoldable pub deduplicate_stake_snapshot_tx_rows :
    List StakeSnapshotEventRow → List StakeSnapshotEventRow
unfolding dedup_from
deduplicate_stake_snapshot_tx_rows rows = dedup_from [] rows

pub data StakeSnapshotTxKind : Type 0 where
  normal sm_reward stake_reward market_event : StakeSnapshotTxKind

-- `is_some_and(|symbol| symbol.eq_ignore_ascii_case("SOUL"))`
unfoldable pub is_soul : Option Text → Bool
is_soul none = false
is_soul (some symbol) = text_beq (lowercase symbol) (codes "soul")

abbrev pub is_kind : StakeSnapshotEventRow → Text → Bool
is_kind row kind = text_beq row.kind kind

abbrev token_stake : Text
token_stake = codes "TokenStake"

abbrev token_claim : Text
token_claim = codes "TokenClaim"

abbrev token_mint : Text
token_mint = codes "TokenMint"

abbrev token_burn : Text
token_burn = codes "TokenBurn"

unfoldable pub classify_stake_snapshot_transaction :
    List StakeSnapshotEventRow → StakeSnapshotTxKind
classify_stake_snapshot_transaction rows =
    let has_stake_call = any (λ row. row.tx_has_stake_call) rows in
    let has_unstake_call = any (λ row. row.tx_has_unstake_call) rows in
    let has_claim_call = any (λ row. row.tx_has_claim_call) rows in
    if any (λ row. is_kind row token_mint && is_soul row.token_symbol) rows
    then sm_reward
    else if has_claim_call && not has_stake_call && not has_unstake_call
    then stake_reward
    else if any (λ row. is_soul row.market_quote_symbol) rows
    then market_event
    else normal

abbrev pub is_normal : StakeSnapshotTxKind → Bool
is_normal normal = true
is_normal sm_reward = false
is_normal stake_reward = false
is_normal market_event = false

-- `rows.iter().find_map(…)`
abbrev pub find_delta : List StakeSnapshotEventRow → Option ℤ
find_delta [] = none
find_delta (row ∷ rows) = first row.tx_apply_inflation_result_soul_delta_raw (find_delta rows)
  where
    first : Option ℤ → Option ℤ → Option ℤ
    first none rest = rest
    first (some delta) rest = some delta

abbrev pub set_supply : ℤ → Replay → Replay
set_supply supply r = record r { state = record r.state { soul_supply_raw = supply } }

-- What has been replayed, and whether the transaction's inflation delta is already in it.
pub record Folded : Type 0 where
  pub replay : Replay
  pub applied : Bool

-- One change of the supply, up or down: by the transaction's inflation delta, once, if there is one.
abbrev pub supply_changed : (ℤ → ℤ → ℤ) → Option ℤ → ℤ → Folded → Folded
supply_changed change none value f = record f {
  replay = set_supply (change f.replay.state.soul_supply_raw value) f.replay;
}
supply_changed change (some delta) value f = if f.applied then f else record {
  replay = set_supply (change f.replay.state.soul_supply_raw delta) f.replay;
  applied = true;
}

abbrev pub clamp_supply : Bool → ℤ → Replay → Replay
clamp_supply reverse event_id r =
    if ltb_ℤ r.state.soul_supply_raw zero_ℤ
    then set_supply zero_ℤ (noted (negative_supply reverse event_id) r)
    else r

abbrev pub minus_ℤ : ℤ → ℤ
minus_ℤ v = zero_ℤ -ℤ v

module _ (reverse : Bool) (tx_kind : StakeSnapshotTxKind) (delta : Option ℤ) where
  -- A row about SOUL with a positive value, by its kind and the direction of the replay.
  unfoldable pub apply_value : StakeSnapshotEventRow → ℤ → Folded → Folded
  apply_value row value f =
      let is_stake = is_kind row token_stake in
      let is_claim = is_kind row token_claim in
      if not (is_normal tx_kind) && (is_stake || is_claim)
      then f
      else if (is_stake && not reverse) || (is_claim && reverse)
      then record f { replay = apply_stake_snapshot_stake_delta row value f.replay }
      else if is_stake || is_claim
      then record f { replay = apply_stake_snapshot_stake_delta row (minus_ℤ value) f.replay }
      else if (is_kind row token_mint && not reverse) || (is_kind row token_burn && reverse)
      then supply_changed (λ a b. a +ℤ b) delta value f
      else let g = supply_changed (λ a b. a -ℤ b) delta value f in
        record g { replay = clamp_supply reverse row.event_id g.replay }

  unfoldable pub apply_soul : StakeSnapshotEventRow → Option ℤ → Folded → Folded
  unfolding apply_value
  apply_soul row none f = f
  apply_soul row (some value) f =
      if not (is_soul row.token_symbol)
      then f
      else if not (is_positive value)
      then f
      else apply_value row value f

  unfoldable pub apply_row : StakeSnapshotEventRow → Folded → Folded
  unfolding apply_soul
  apply_row row f =
      if is_kind row token_stake
        || is_kind row token_claim
        || is_kind row token_mint
        || is_kind row token_burn
      then apply_soul row row.value_raw f
      else f

  unfoldable pub apply_rows : List StakeSnapshotEventRow → Folded → Folded
  unfolding apply_row
  apply_rows [] f = f
  apply_rows (row ∷ rows) f = apply_rows rows (apply_row row f)

unfoldable pub apply_stake_snapshot_transaction :
    List StakeSnapshotEventRow → Bool → Replay → Replay
unfolding apply_rows classify_stake_snapshot_transaction
apply_stake_snapshot_transaction rows reverse r =
    (apply_rows reverse (classify_stake_snapshot_transaction rows) (find_delta rows) rows
      (record { replay = r; applied = false })).replay

-- The rows at the front that belong to the transaction, and the others.
abbrev pub same_tx : ℤ → List StakeSnapshotEventRow → List StakeSnapshotEventRow
same_tx tx_id [] = []
same_tx tx_id (row ∷ rows) =
    let rest = same_tx tx_id rows in if beq_ℤ row.tx_id tx_id then row ∷ rest else []

abbrev pub other_tx : ℤ → List StakeSnapshotEventRow → List StakeSnapshotEventRow
other_tx tx_id [] = []
other_tx tx_id (row ∷ rows) =
    let rest = other_tx tx_id rows in if beq_ℤ row.tx_id tx_id then rest else row ∷ rows

-- From the last transaction to the first: the rows are given in reverse, and each round takes one
-- transaction, so as many rounds as rows are enough.
unfoldable pub reverse_replay_from : ℕ → List StakeSnapshotEventRow → Replay → Replay
unfolding apply_stake_snapshot_transaction deduplicate_stake_snapshot_tx_rows
reverse_replay_from zero rows r = r
reverse_replay_from (suc fuel) [] r = r
reverse_replay_from (suc fuel) (row ∷ rows) r = reverse_replay_from fuel (other_tx row.tx_id rows) (
    apply_stake_snapshot_transaction
      (deduplicate_stake_snapshot_tx_rows (reverse (row ∷ same_tx row.tx_id rows))) true r)

unfoldable pub reverse_replay_stake_snapshot_events : List StakeSnapshotEventRow → Replay → Replay
unfolding reverse_replay_from
reverse_replay_stake_snapshot_events rows r = reverse_replay_from (length rows) (reverse rows) r
