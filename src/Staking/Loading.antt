-- ===== src/Staking/Loading.antt =====
-- Loading the stored stakes of a chain (crates/db/src/staking.rs) starts with the right totals.
use explorer_backend.Base.{
  Bool, Bool-cases, List, Text, [], ap, arith, false, if◌then◌else◌, inl, inr, none, not, refl,
  some, sym, text_beq, text_beq_iff, true, ◌∙◌, ◌∷◌, ◌≡◌, text_key,
}
use explorer_backend.Base.Int.{pos, ℤ, ◌+ℤ◌}
use explorer_backend.Base.Map.{Distinct, Distinct-insert, insert, lookup, lookup-insert}
use explorer_backend.Staking.{
  StakeSnapshotState, is_master_stake, is_positive, load_from, load_stake, load_stakes, or_zero,
  zero_ℤ,
}
use explorer_backend.Staking.Weights.{
  AllPositive-insert, master_weight, plus_zero, same, staker_weight, weigh, weigh-insert,
}
use explorer_backend.Staking.Tally.{IsTally}

weigh-insert_fresh :
    (w : ℤ → ℤ) (k : Text) (v : ℤ) (m : List (Text × ℤ))
    → w zero_ℤ ≡ zero_ℤ
    → lookup k m ≡ none
    → weigh w (insert k v m) ≡ weigh w m +ℤ w v
weigh-insert_fresh w k v m z fresh =
    sym (plus_zero (weigh w (insert k v m)))
    ∙ ap (λ x. weigh w (insert k v m) +ℤ x) (sym (ap (λ o. w (or_zero o)) fresh ∙ z))
    ∙ weigh-insert w k v m z

load_stake-IsTally :
    (address : Text) (staked : ℤ) (s : StakeSnapshotState)
    → lookup address s.stakes_by_address ≡ none
    → IsTally s
    → IsTally (load_stake address staked s)
unfolding load_stake
load_stake-IsTally address staked s fresh t = go (is_positive staked) refl
  where
    m : List (Text × ℤ)
    m = s.stakes_by_address

    master :
        (b : Bool)
        → is_master_stake staked ≡ b
        → (if b then s.masters_count +ℤ pos 1 else s.masters_count)
          ≡ weigh master_weight (insert address staked m)
    master true e =
        ap (λ n. n +ℤ pos 1) t.masters
        ∙ sym (
            weigh-insert_fresh master_weight address staked m refl fresh
            ∙ ap (λ b. weigh master_weight m +ℤ (if b then pos 1 else zero_ℤ)) e)
    master false e =
        t.masters
        ∙ sym (
            weigh-insert_fresh master_weight address staked m refl fresh
            ∙ ap (λ b. weigh master_weight m +ℤ (if b then pos 1 else zero_ℤ)) e
            ∙ plus_zero (weigh master_weight m))

    go :
        (b : Bool)
        → is_positive staked ≡ b
        → IsTally (
            if not b then s else record s {
              stakes_by_address = insert address staked m;
              total_staked_raw = s.total_staked_raw +ℤ staked;
              stakers_count = s.stakers_count +ℤ pos 1;
              masters_count =
                  if is_master_stake staked then s.masters_count +ℤ pos 1 else s.masters_count;
            })
    go false e = t
    go true e = record {
      distinct = Distinct-insert address staked m t.distinct;
      positive = AllPositive-insert address staked m e t.positive;
      total =
          ap (λ n. n +ℤ staked) t.total ∙ sym (weigh-insert_fresh same address staked m refl fresh);
      stakers =
          ap (λ n. n +ℤ pos 1) t.stakers
          ∙ sym (
              weigh-insert_fresh staker_weight address staked m refl fresh
              ∙ ap (λ b. weigh staker_weight m +ℤ (if b then pos 1 else zero_ℤ)) e);
      masters = master (is_master_stake staked) refl;
    }

-- None of the rows' addresses is in the map.
abbrev AllFresh : List (Text × ℤ) → List (Text × ℤ) → Type 0
AllFresh [] m = Unit
AllFresh ((address, v) ∷ rows) m = (lookup address m ≡ none) × AllFresh rows m

AllFresh-nil : (rows : List (Text × ℤ)) → AllFresh rows []
unfolding lookup
AllFresh-nil [] = tt
AllFresh-nil ((a, v) ∷ rows) = (refl, AllFresh-nil rows)

AllFresh-insert :
    (k : Text) (v : ℤ) (rows m : List (Text × ℤ))
    → lookup k rows ≡ none
    → AllFresh rows m
    → AllFresh rows (insert k v m)
unfolding lookup
AllFresh-insert k v [] m h f = tt
AllFresh-insert k v ((a, u) ∷ rows) m h (f, fs) = elim (Bool-cases (text_beq a k)) [
  | inl e ↦ cc (ap (λ b. if b then some u else lookup k rows) e)
  | inr e ↦ (
    ground (arith, lookup-insert k a v m, text_beq_iff k a, text_beq_iff a k, f),
    AllFresh-insert k v rows m (ap (λ b. if b then some u else lookup k rows) (sym e) ∙ h) fs,
  )
]

AllFresh-load_stake :
    (k : Text) (v : ℤ) (rows : List (Text × ℤ)) (s : StakeSnapshotState)
    → lookup k rows ≡ none
    → AllFresh rows s.stakes_by_address
    → AllFresh rows (load_stake k v s).stakes_by_address
unfolding load_stake
AllFresh-load_stake k v rows s h f = elim (Bool-cases (is_positive v)) [
  | inl e ↦ rw e (AllFresh-insert k v rows s.stakes_by_address h f)
  | inr e ↦ rw e f
]

load_from-IsTally :
    (rows : List (Text × ℤ)) (s : StakeSnapshotState)
    → Distinct rows
    → AllFresh rows s.stakes_by_address
    → IsTally s
    → IsTally (load_from rows s)
unfolding load_from
load_from-IsTally [] s d f t = t
load_from-IsTally ((a, v) ∷ rows) s (fresh, d) (g, f) t =
    load_from-IsTally rows (load_stake a v s) d (AllFresh-load_stake a v rows s fresh f)
      (load_stake-IsTally a v s g t)

pub load_stakes-IsTally :
    (rows : List (Text × ℤ)) (supply : ℤ) → Distinct rows → IsTally (load_stakes rows supply)
unfolding load_stakes
load_stakes-IsTally rows supply d =
    load_from-IsTally rows _ d (AllFresh-nil rows)
      (record { distinct = tt; positive = tt; total = refl; stakers = refl; masters = refl })
