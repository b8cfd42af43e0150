-- ===== src/Staking/Tally.antt =====
-- The totals of the stake replay (crates/db/src/staking.rs) stay the totals of its map.
use explorer_backend.Base.{Text, ap, false, refl, ◌∙◌, ◌≡◌, text_key}
use explorer_backend.Base.Int.{ltb_ℤ, ℤ, ◌+ℤ◌, ◌-ℤ◌}
use explorer_backend.Base.Map.{Distinct, lookup}
use explorer_backend.Staking.{
  Replay, StakeSnapshotState, clamp_zero, is_master_stake, is_positive, or_zero, set_stake,
  store_stake, zero_ℤ,
}
use explorer_backend.Staking.Weights.{
  AllPositive, AllPositive-store_stake, Distinct-store_stake, clamp_zero-plain, master_weight, same,
  staker_weight, step_count-weights, total-step, weigh, weigh-not_negative, weigh-store_stake,
}

-- Every stored stake is positive, no address is stored twice, and the totals are those of the map.
pub record IsTally (s : StakeSnapshotState) : Type 0 where
  pub distinct : Distinct s.stakes_by_address
  pub positive : AllPositive s.stakes_by_address
  pub total : s.total_staked_raw ≡ weigh same s.stakes_by_address
  pub stakers : s.stakers_count ≡ weigh staker_weight s.stakes_by_address
  pub masters : s.masters_count ≡ weigh master_weight s.stakes_by_address

-- What a stored stake makes of a state whose totals are right.
set_stake-total :
    (event_id : ℤ) (k : Text) (v : ℤ) (s : StakeSnapshotState)
    → IsTally s
    → s.total_staked_raw +ℤ (v -ℤ or_zero (lookup k s.stakes_by_address))
      ≡ weigh same (store_stake k v s.stakes_by_address)
set_stake-total event_id k v s t =
    total-step _ _ _ _ _ t.total (weigh-store_stake same k v s.stakes_by_address refl t.distinct)

pub set_stake-IsTally :
    (event_id : ℤ) (k : Text) (v : ℤ) (r : Replay)
    → ltb_ℤ v zero_ℤ ≡ false
    → IsTally r.state
    → IsTally (set_stake event_id k (or_zero (lookup k r.state.stakes_by_address)) v r).state
unfolding set_stake
set_stake-IsTally event_id k v r h t =
    let m = r.state.stakes_by_address in
    let p = AllPositive-store_stake k v m h t.positive in
    let e = set_stake-total event_id k v r.state t in
    record {
      distinct = Distinct-store_stake k v m t.distinct;
      positive = p;
      total = ap clamp_zero e ∙ clamp_zero-plain _ (weigh-not_negative (store_stake k v m) p);
      stakers =
          step_count-weights (is_positive (or_zero (lookup k m))) (is_positive v) _ _ _ t.stakers
            (weigh-store_stake staker_weight k v m refl t.distinct);
      masters =
          step_count-weights (is_master_stake (or_zero (lookup k m))) (is_master_stake v) _ _ _
            t.masters (weigh-store_stake master_weight k v m refl t.distinct);
    }
