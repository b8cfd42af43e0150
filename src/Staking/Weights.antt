-- ===== src/Staking/Weights.antt =====
-- Sums over the stakes of the replay (crates/db/src/staking.rs), and how a stored stake changes them.
use explorer_backend.Base.{
  Bool, Bool-cases, List, Text, [], ap, arith, false, if◌then◌else◌, inl, inr, none, refl, subst,
  sym, text_beq, text_beq_iff, true, ◌+◌, ◌∙◌, ◌∷◌, ◌≡◌, text_key,
}
use explorer_backend.Base.Int.{
  +ℤ_assoc, +ℤ_comm, int_laws, ltb_ℤ, neg_part, pos, pos_part, ℤ, ◌+ℤ◌, ◌-ℤ◌,
}
use explorer_backend.Base.Map.{Distinct, Distinct-insert, insert, lookup, lookup-remove, remove}
use explorer_backend.Staking.{
  clamp_zero, is_master_stake, is_positive, is_zero, or_zero, step_count, store_stake, zero_ℤ,
}

-- The sum of a weight over all stakes.
abbrev pub weigh : (ℤ → ℤ) → List (Text × ℤ) → ℤ
weigh w [] = zero_ℤ
weigh w ((address, v) ∷ m) = w v +ℤ weigh w m

abbrev pub staker_weight : ℤ → ℤ
staker_weight v = if is_positive v then pos 1 else zero_ℤ

abbrev pub master_weight : ℤ → ℤ
master_weight v = if is_master_stake v then pos 1 else zero_ℤ

abbrev pub same : ℤ → ℤ
same v = v

abbrev pub AllPositive : List (Text × ℤ) → Type 0
AllPositive [] = Unit
AllPositive ((address, v) ∷ m) = (is_positive v ≡ true) × AllPositive m

pub plus_zero : (a : ℤ) → a +ℤ zero_ℤ ≡ a
plus_zero a = omega int_laws

swap_outer : (a b c : ℤ) → a +ℤ b +ℤ c ≡ c +ℤ b +ℤ a
swap_outer a b c = omega int_laws

shift_left : (e a b c d : ℤ) → a +ℤ b ≡ c +ℤ d → e +ℤ a +ℤ b ≡ e +ℤ c +ℤ d
shift_left e a b c d h = +ℤ_assoc e a b ∙ ap (λ x. e +ℤ x) h ∙ sym (+ℤ_assoc e c d)

pub weigh-insert :
    (w : ℤ → ℤ) (k : Text) (v : ℤ) (m : List (Text × ℤ))
    → w zero_ℤ ≡ zero_ℤ
    → weigh w (insert k v m) +ℤ w (or_zero (lookup k m)) ≡ weigh w m +ℤ w v
unfolding insert lookup
weigh-insert w k v [] z = rw z (omega int_laws)
weigh-insert w k v ((j, u) ∷ m) z = elim (Bool-cases (text_beq j k)) [
  | inl e ↦ rw e (swap_outer (w v) (weigh w m) (w u))
  | inr e ↦ rw e (shift_left (w u) _ _ _ _ (weigh-insert w k v m z))
]

weigh-remove :
    (w : ℤ → ℤ) (k : Text) (m : List (Text × ℤ))
    → w zero_ℤ ≡ zero_ℤ
    → Distinct m
    → weigh w (remove k m) +ℤ w (or_zero (lookup k m)) ≡ weigh w m
unfolding remove lookup
weigh-remove w k [] z d = rw z (omega int_laws)
weigh-remove w k ((j, u) ∷ m) z (fresh, d) = elim (Bool-cases (text_beq j k)) [
  | inl e ↦ rw e (
      ap (λ x. x +ℤ w u)
        (sym (plus_zero (weigh w (remove k m)))
          ∙ ap (λ x. weigh w (remove k m) +ℤ x)
              (sym z
                ∙ ap (λ o. w (or_zero o))
                    (sym (subst (λ x. lookup x m ≡ none) ((text_beq_iff j k).0 e) fresh)))
          ∙ weigh-remove w k m z d)
      ∙ +ℤ_comm (weigh w m) (w u))
  | inr e ↦
      rw e (+ℤ_assoc (w u) (weigh w (remove k m)) _ ∙ ap (λ x. w u +ℤ x) (weigh-remove w k m z d))
]

is_zero-eq : (v : ℤ) → is_zero v ≡ true → v ≡ zero_ℤ
is_zero-eq v h = ground arith

pub weigh-store_stake :
    (w : ℤ → ℤ) (k : Text) (v : ℤ) (m : List (Text × ℤ))
    → w zero_ℤ ≡ zero_ℤ
    → Distinct m
    → weigh w (store_stake k v m) +ℤ w (or_zero (lookup k m)) ≡ weigh w m +ℤ w v
weigh-store_stake w k v m z d = elim (Bool-cases (is_zero v)) [
  | inl e ↦ rw e (
      weigh-remove w k m z d
      ∙ sym (plus_zero (weigh w m))
      ∙ ap (λ x. weigh w m +ℤ x) (sym (ap w (is_zero-eq v e) ∙ z)))
  | inr e ↦ rw e (weigh-insert w k v m z)
]

pub AllPositive-insert :
    (k : Text) (v : ℤ) (m : List (Text × ℤ))
    → is_positive v ≡ true
    → AllPositive m
    → AllPositive (insert k v m)
unfolding insert
AllPositive-insert k v [] h p = (h, tt)
AllPositive-insert k v ((j, u) ∷ m) h (q, p) = elim (Bool-cases (text_beq j k)) [
  | inl e ↦ rw e (h, p)
  | inr e ↦ rw e (q, AllPositive-insert k v m h p)
]

AllPositive-remove : (k : Text) (m : List (Text × ℤ)) → AllPositive m → AllPositive (remove k m)
unfolding remove
AllPositive-remove k [] p = tt
AllPositive-remove k ((j, u) ∷ m) (q, p) = elim (Bool-cases (text_beq j k)) [
  | inl e ↦ rw e (AllPositive-remove k m p)
  | inr e ↦ rw e (q, AllPositive-remove k m p)
]

Distinct-remove : (k : Text) (m : List (Text × ℤ)) → Distinct m → Distinct (remove k m)
unfolding remove
Distinct-remove k [] d = tt
Distinct-remove k ((j, u) ∷ m) (fresh, d) = elim (Bool-cases (text_beq j k)) [
  | inl e ↦ rw e (Distinct-remove k m d)
  | inr e ↦ rw e (ground (arith, lookup-remove k j m, fresh), Distinct-remove k m d)
]

-- The map after a stake is stored.
pub AllPositive-store_stake :
    (k : Text) (v : ℤ) (m : List (Text × ℤ))
    → ltb_ℤ v zero_ℤ ≡ false
    → AllPositive m
    → AllPositive (store_stake k v m)
AllPositive-store_stake k v m h p = elim (Bool-cases (is_zero v)) [
  | inl e ↦ rw e (AllPositive-remove k m p)
  | inr e ↦ rw e (AllPositive-insert k v m (ground arith) p)
]

pub Distinct-store_stake :
    (k : Text) (v : ℤ) (m : List (Text × ℤ)) → Distinct m → Distinct (store_stake k v m)
Distinct-store_stake k v m d = elim (Bool-cases (is_zero v)) [
  | inl e ↦ rw e (Distinct-remove k m d)
  | inr e ↦ rw e (Distinct-insert k v m d)
]

sum-not_negative :
    (a b : ℤ) → is_positive a ≡ true → ltb_ℤ b zero_ℤ ≡ false → ltb_ℤ (a +ℤ b) zero_ℤ ≡ false
unfolding ◌+ℤ◌
sum-not_negative a b h k = ground arith

pub weigh-not_negative : (m : List (Text × ℤ)) → AllPositive m → ltb_ℤ (weigh same m) zero_ℤ ≡ false
weigh-not_negative [] p = refl
weigh-not_negative ((a, v) ∷ m) (q, p) =
    sum-not_negative v (weigh same m) q (weigh-not_negative m p)

parts_of : (a b : ℤ) → a ≡ b → pos_part a + neg_part b ≡ pos_part b + neg_part a
parts_of a b e = rw e

pub step_count-weights :
    (b c : Bool) (n before after : ℤ)
    → n ≡ before
    → after +ℤ (if b then pos 1 else zero_ℤ) ≡ before +ℤ (if c then pos 1 else zero_ℤ)
    → step_count b c n ≡ after
step_count-weights true true n before after e h = omega (int_laws, parts_of _ _ e, parts_of _ _ h)
step_count-weights true false n before after e h = omega (int_laws, parts_of _ _ e, parts_of _ _ h)
step_count-weights false true n before after e h = omega (int_laws, parts_of _ _ e, parts_of _ _ h)
step_count-weights false false n before after e h = omega (int_laws, parts_of _ _ e, parts_of _ _ h)

pub total-step :
    (total old new before after : ℤ)
    → total ≡ before
    → after +ℤ old ≡ before +ℤ new
    → total +ℤ (new -ℤ old) ≡ after
total-step total old new before after e h = omega (int_laws, parts_of _ _ e, parts_of _ _ h)

pub clamp_zero-not_negative : (v : ℤ) → ltb_ℤ (clamp_zero v) zero_ℤ ≡ false
clamp_zero-not_negative v = ground arith

pub clamp_zero-plain : (v : ℤ) → ltb_ℤ v zero_ℤ ≡ false → clamp_zero v ≡ v
clamp_zero-plain v h = rw h
