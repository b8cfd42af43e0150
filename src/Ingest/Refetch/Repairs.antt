-- ===== src/Ingest/Refetch/Repairs.antt =====
-- The repair of a block in `fetch_decoded_block_for_projection` (crates/ingestion/src/driver.rs): each
-- replaced transaction leaves one incomplete one less.
use mathlib.Core.Option.{some-injective}
use explorer_backend.Base.{
  Bool, Bool-cases, List, Option, Text, [], any, ap, arith, codes, false, if◌then◌else◌, inl, inr,
  length, none, refl, some, subst, suc, true, zero, ℕ, ◌+◌, ◌<◌, ◌==◌, ◌∙◌, ◌∷◌, ◌≡◌, ◌≢◌, ◌≤◌,
  nat_eq,
}
use explorer_backend.Ingest.{Outcome, err, ok}
use explorer_backend.Ingest.Refetch.{
  IncompleteExtendedPayload, Payload, Repair, Requests, SdkBlock, SdkTransaction, after_attempt,
  complete_by_hash, incomplete_extended_payload, incomplete_from, on_incomplete, out_of_rounds,
  repair, set_tx, transaction_has_incomplete_extended_payload,
  transaction_has_incomplete_special_resolution, transaction_has_incomplete_token_create,
  transaction_has_incomplete_token_series_create, try_complete_transaction, use_transaction, whole,
}

incomplete : SdkTransaction → Bool
incomplete t = transaction_has_incomplete_extended_payload t

pub count_incomplete : SdkBlock → ℕ
count_incomplete [] = 0
count_incomplete (t ∷ ts) = if incomplete t then suc (count_incomplete ts) else count_incomplete ts

pub count-le-length : (ts : SdkBlock) → count_incomplete ts ≤ length ts
unfolding count_incomplete
count-le-length [] = omega arith
count-le-length (t ∷ ts) = ground (arith, count-le-length ts)

-- The transaction at the index that the scan reports is incomplete.
record Found (i : ℕ) (ts : SdkBlock) (p : IncompleteExtendedPayload) : Type 0 where
  offset : ℕ
  at : p.tx_index ≡ i + offset
  some_left : 0 < count_incomplete ts
  fewer :
      (t : SdkTransaction)
      → incomplete t ≡ false
      → suc (count_incomplete (set_tx offset t ts)) ≡ count_incomplete ts

incomplete_here :
    (i : ℕ) (t : SdkTransaction) (ts : SdkBlock) (kind : Text)
    → incomplete t ≡ true
    → Found i (t ∷ ts) (record { tx_index = i; event_kind = kind })
unfolding count_incomplete set_tx
incomplete_here i t ts kind e = record {
  offset = 0;
  at = omega arith;
  some_left = rw e (omega arith);
  fewer = λ u whole. rw (e, whole) refl;
}

incomplete_later :
    (i : ℕ) (t : SdkTransaction) (ts : SdkBlock) (p : IncompleteExtendedPayload)
    → incomplete t ≡ false
    → Found (suc i) ts p
    → Found i (t ∷ ts) p
unfolding count_incomplete set_tx
incomplete_later i t ts p e f = record {
  offset = suc f.offset;
  at = omega (arith, f.at);
  some_left = rw e f.some_left;
  fewer = λ u whole. rw e (f.fewer u whole);
}

incomplete_from-Found :
    (i : ℕ) (ts : SdkBlock) (p : IncompleteExtendedPayload)
    → incomplete_from i ts ≡ some p
    → Found i ts p
unfolding incomplete_from incomplete transaction_has_incomplete_extended_payload
incomplete_from-Found i [] p e = absurd (cc e)
incomplete_from-Found i (t ∷ ts) p e =
    elim (Bool-cases (transaction_has_incomplete_special_resolution t)) [
      | inl a ↦ found_as (codes "SpecialResolution") (ground (arith, a)) (rw a at e)
      | inr not_a ↦ elim (Bool-cases (transaction_has_incomplete_token_create t)) [
        | inl b ↦ found_as (codes "TokenCreate") (ground (arith, b)) (rw (not_a, b) at e)
        | inr not_b ↦ elim (Bool-cases (transaction_has_incomplete_token_series_create t)) [
          | inl c ↦
              found_as (codes "TokenSeriesCreate") (ground (arith, c)) (rw (not_a, not_b, c) at e)
          | inr not_c ↦
              incomplete_later i t ts p (ground (arith, not_a, not_b, not_c))
                (incomplete_from-Found (suc i) ts p (rw (not_a, not_b, not_c) at e))
        ]
      ]
    ]
  where
    found_as :
        (kind : Text)
        → incomplete t ≡ true
        → some (record { tx_index = i; event_kind = kind }) ≡ some p
        → Found i (t ∷ ts) p
    found_as kind h same =
        subst (λ q. Found i (t ∷ ts) q) (some-injective _ p same) (incomplete_here i t ts kind h)

module _ {X : Type 0} (get_block : ℕ → Outcome X Payload)
    (get_transaction : ℕ → Text → Outcome X SdkTransaction) (height : ℕ) where
  pub record RepairEnds (block : SdkBlock) (r : Requests) (p : Repair X × Requests) : Type 0 where
    pub ended : p.0 ≢ out_of_rounds
    pub sound : (b : SdkBlock) → p.0 ≡ whole b → incomplete_extended_payload b ≡ none
    pub no_block : p.1.blocks ≡ r.blocks
    pub few : p.1.transactions ≤ r.transactions + count_incomplete block

  RepairEnds-at :
      (block : SdkBlock) (r r' : Requests) (p : Repair X)
      → p ≢ out_of_rounds
      → ((b : SdkBlock) → p ≡ whole b → incomplete_extended_payload b ≡ none)
      → r'.blocks ≡ r.blocks
      → r'.transactions ≤ r.transactions + count_incomplete block
      → RepairEnds block r (p, r')
  RepairEnds-at block r r' p ended sound no_block few = record {
    ended = ended;
    sound = sound;
    no_block = no_block;
    few = few;
  }

  -- A replaced transaction leaves one incomplete transaction less.
  Replaces : ℕ → SdkBlock → Requests → Outcome X (Option SdkBlock) × Requests → Type 0
  Replaces tx_index block r p =
      (p.1.blocks ≡ r.blocks)
      × (p.1.transactions ≤ r.transactions + 1)
      × ((b : SdkBlock)
          → p.0 ≡ ok (some b)
          → (t : SdkTransaction) × (incomplete t ≡ false) × (b ≡ set_tx tx_index t block))

  use_transaction-set_tx :
      (tx_index : ℕ) (block b : SdkBlock) (o : Outcome X SdkTransaction)
      → use_transaction get_block get_transaction height tx_index block o ≡ ok (some b)
      → (t : SdkTransaction) × (incomplete t ≡ false) × (b ≡ set_tx tx_index t block)
  unfolding use_transaction incomplete
  use_transaction-set_tx tx_index block b (err e) h = absurd (cc h)
  use_transaction-set_tx tx_index block b (ok t) h =
      elim (Bool-cases (transaction_has_incomplete_extended_payload t)) [
        | inl still ↦ absurd (cc (rw still at h))
        | inr fixed ↦ (t, fixed, cc (rw fixed at h))
      ]

  complete_by_hash-Replaces :
      (tx_index : ℕ) (block : SdkBlock) (r : Requests) (hash : Option Text)
      → Replaces tx_index block r
          (complete_by_hash get_block get_transaction height tx_index block r hash)
  unfolding complete_by_hash Replaces
  complete_by_hash-Replaces tx_index block r none = (refl, omega arith, λ b h. absurd (cc h))
  complete_by_hash-Replaces tx_index block r (some tx_hash) =
      (refl, omega arith, λ b h. use_transaction-set_tx tx_index block b _ h)

  index_of : (i j : ℕ) → i ≡ 0 + j → i ≡ j
  index_of i j e = omega (arith, e)

  after_attempt-Ends :
      (found : IncompleteExtendedPayload) (block : SdkBlock) (r : Requests)
      (p : Outcome X (Option SdkBlock) × Requests)
      (continue : SdkBlock → Requests → Repair X × Requests)
      → Found 0 block found
      → Replaces found.tx_index block r p
      → ((b : SdkBlock) (r' : Requests)
          → count_incomplete b < count_incomplete block
          → RepairEnds b r' (continue b r'))
      → RepairEnds block r (after_attempt get_block get_transaction height found p continue)
  unfolding after_attempt Replaces
  after_attempt-Ends found block r (err e, r') continue f (same, few, replaced) k =
      RepairEnds-at block r r' _ (λ h. cc h) (λ b h. absurd (cc h)) same
        (omega (arith, few, f.some_left))
  after_attempt-Ends found block r (ok none, r') continue f (same, few, replaced) k =
      RepairEnds-at block r r' _ (λ h. cc h) (λ b h. absurd (cc h)) same
        (omega (arith, few, f.some_left))
  after_attempt-Ends found block r (ok (some b), r') continue f (same, few, replaced) k =
      let (t, fixed, set) = replaced b refl in
      let less : suc (count_incomplete b) ≡ count_incomplete block =
        ap (λ c. suc (count_incomplete c))
          (set ∙ ap (λ i. set_tx i t block) (index_of found.tx_index f.offset f.at))
        ∙ f.fewer t fixed in
      let e = k b r' (omega (arith, less)) in
      record {
        ended = e.ended;
        sound = e.sound;
        no_block = omega (arith, e.no_block, same);
        few = omega (arith, e.few, few, less);
      }

  on_incomplete-Ends :
      (completed : List ℕ) (block : SdkBlock) (r : Requests)
      (found : Option IncompleteExtendedPayload)
      (continue : List ℕ → SdkBlock → Requests → Repair X × Requests)
      → incomplete_extended_payload block ≡ found
      → ((done : List ℕ) (b : SdkBlock) (r' : Requests)
          → count_incomplete b < count_incomplete block
          → RepairEnds b r' (continue done b r'))
      → RepairEnds block r
          (on_incomplete get_block get_transaction height completed block r found continue)
  unfolding on_incomplete try_complete_transaction incomplete_extended_payload
  on_incomplete-Ends completed block r none continue e k =
      RepairEnds-at block r r _ (λ h. cc h)
        (λ b h. subst (λ c. incomplete_extended_payload c ≡ none) (cc h) e) refl (omega arith)
  on_incomplete-Ends completed block r (some found) continue e k =
      elim (Bool-cases (any (λ i. i == found.tx_index) completed)) [
        | inl again ↦
            rw again
              (RepairEnds-at block r r _ (λ h. cc h) (λ b h. absurd (cc h)) refl (omega arith))
        | inr first ↦ rw first (
            after_attempt-Ends found block r _ _ (incomplete_from-Found 0 block found e)
              (complete_by_hash-Replaces found.tx_index block r _) (k (found.tx_index ∷ completed)))
      ]

  pub repair-Ends :
      (fuel : ℕ) (completed : List ℕ) (block : SdkBlock) (r : Requests)
      → count_incomplete block < fuel
      → RepairEnds block r (repair get_block get_transaction height fuel completed block r)
  unfolding repair
  repair-Ends zero completed block r enough = absurd (omega arith)
  repair-Ends (suc fuel) completed block r enough =
      on_incomplete-Ends completed block r (incomplete_extended_payload block)
        (repair get_block get_transaction height fuel) refl
        λ done b r' less. repair-Ends fuel done b r' (omega (arith, less))
