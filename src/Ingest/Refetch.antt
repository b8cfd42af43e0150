-- ===== src/Ingest/Refetch.antt =====
-- Fetching a block whose extended event payloads are whole: `fetch_decoded_block_for_projection` and
-- `try_complete_transaction` of crates/ingestion/src/driver.rs with the tests of
-- crates/ingestion/src/lib.rs. What the RPC client's `get_block_by_height_payload` and
-- `get_transaction` return, by the number of calls made of each, are parameters: a call is one of the
-- client, which has its own failover over the nodes (Rpc); of the SDK's results there are the fields that are read here.
pub mod Complete
pub mod Repairs
mod Tests
use explorer_backend.Base.{
  Bool, List, Option, Text, [], any, codes, eq_ignore_ascii_case, false, get_elem?, if◌then◌else◌,
  is_empty, length, ltb, none, some, suc, trim, zero, ℕ, ◌&&◌, ◌*◌, ◌+◌, ◌==◌, ◌||◌, ◌∷◌, nat_eq,
}
use explorer_backend.Ingest.{IngestionError, Outcome, err, event_payload_decode, ok}

abbrev pub special_resolution_refetch_attempts : ℕ
special_resolution_refetch_attempts = 25

abbrev pub extended_payload_refetch_max_block_bytes : ℕ
extended_payload_refetch_max_block_bytes = 16 * 1024 * 1024

pub record SdkEvent : Type 0 where
  pub kind : Text
  pub contract : Text

pub data SdkEventData : Type 0 where
  special_resolution : (resolution_id : ℕ) → SdkEventData
  token_create : (symbol : Text) → SdkEventData
  token_series_create : (symbol owner : Text) → SdkEventData
  any_other : SdkEventData

pub record SdkExtendedEvent : Type 0 where
  pub kind : Text
  pub contract : Text
  pub data_of : SdkEventData

pub record SdkTransaction : Type 0 where
  pub hash : Text
  pub events : List SdkEvent
  pub extended_events : List SdkExtendedEvent

-- A block's `txs`.
abbrev pub SdkBlock : Type 0
SdkBlock = List SdkTransaction

pub record IncompleteExtendedPayload : Type 0 where
  pub tx_index : ℕ
  pub event_kind : Text

find_first : {A : Type 0} → (A → Bool) → List A → Option A
find_first p [] = none
find_first p (a ∷ as') = if p a then some a else find_first p as'

-- `matches!` of the kind, with no usable payload.
empty_special_resolution : SdkEventData → Bool
empty_special_resolution (special_resolution resolution_id) = resolution_id == 0
empty_special_resolution (token_create symbol) = false
empty_special_resolution (token_series_create symbol owner) = false
empty_special_resolution any_other = false

empty_token_create : SdkEventData → Bool
empty_token_create (special_resolution resolution_id) = false
empty_token_create (token_create symbol) = is_empty symbol
empty_token_create (token_series_create symbol owner) = false
empty_token_create any_other = false

empty_token_series_create : SdkEventData → Bool
empty_token_series_create (special_resolution resolution_id) = false
empty_token_series_create (token_create symbol) = false
empty_token_series_create (token_series_create symbol owner) = is_empty symbol || is_empty owner
empty_token_series_create any_other = false

found_empty : (SdkEventData → Bool) → Option SdkExtendedEvent → Bool
found_empty test none = false
found_empty test (some event) = test event.data_of

unfoldable pub transaction_has_incomplete_special_resolution : SdkTransaction → Bool
unfolding find_first empty_special_resolution found_empty
transaction_has_incomplete_special_resolution t =
    any
      (λ e.
        eq_ignore_ascii_case e.kind (codes "SpecialResolution")
        && eq_ignore_ascii_case e.contract (codes "governance"))
      t.events
    && found_empty empty_special_resolution (
        find_first
          (λ e.
            eq_ignore_ascii_case e.kind (codes "SpecialResolution")
            && eq_ignore_ascii_case e.contract (codes "governance"))
          t.extended_events)

unfoldable pub transaction_has_incomplete_token_create : SdkTransaction → Bool
unfolding find_first empty_token_create found_empty
transaction_has_incomplete_token_create t =
    any (λ e. eq_ignore_ascii_case e.kind (codes "TokenCreate")) t.events
    && found_empty empty_token_create
        (find_first (λ e. eq_ignore_ascii_case e.kind (codes "TokenCreate")) t.extended_events)

unfoldable pub transaction_has_incomplete_token_series_create : SdkTransaction → Bool
unfolding find_first empty_token_series_create found_empty
transaction_has_incomplete_token_series_create t =
    found_empty empty_token_series_create
      (find_first (λ e. eq_ignore_ascii_case e.kind (codes "TokenSeriesCreate")) t.extended_events)

unfoldable pub transaction_has_incomplete_extended_payload : SdkTransaction → Bool
transaction_has_incomplete_extended_payload t =
    transaction_has_incomplete_special_resolution t
    || transaction_has_incomplete_token_create t
    || transaction_has_incomplete_token_series_create t

-- From the transaction at an index on.
unfoldable pub incomplete_from : ℕ → SdkBlock → Option IncompleteExtendedPayload
incomplete_from tx_index [] = none
incomplete_from tx_index (t ∷ ts) =
    let rest = incomplete_from (suc tx_index) ts in
    if transaction_has_incomplete_special_resolution t
    then some (record { tx_index = tx_index; event_kind = codes "SpecialResolution" })
    else if transaction_has_incomplete_token_create t
    then some (record { tx_index = tx_index; event_kind = codes "TokenCreate" })
    else if transaction_has_incomplete_token_series_create t
    then some (record { tx_index = tx_index; event_kind = codes "TokenSeriesCreate" })
    else rest

unfoldable pub incomplete_extended_payload : SdkBlock → Option IncompleteExtendedPayload
incomplete_extended_payload block = incomplete_from 0 block

unfoldable pub set_tx : ℕ → SdkTransaction → SdkBlock → SdkBlock
set_tx i t [] = []
set_tx zero t (u ∷ us) = t ∷ us
set_tx (suc i) t (u ∷ us) = u ∷ set_tx i t us

-- `non_empty_string` of the transaction's hash.
hash_at : Option SdkTransaction → Option Text
hash_at none = none
hash_at (some t) = if is_empty (trim t.hash) then none else some (trim t.hash)

-- A decoded block, with the length of its payload.
pub record Payload : Type 0 where
  pub byte_len : ℕ
  pub block : SdkBlock

-- The calls of the RPC client made so far.
pub record Requests : Type 0 where
  pub blocks : ℕ
  pub transactions : ℕ

-- How the repair of a block ends.
pub data Repair (X : Type 0) : Type 0 where
  whole : SdkBlock → Repair X
  unresolved : IncompleteExtendedPayload → Repair X
  failed : IngestionError X → Repair X
  out_of_rounds : Repair X

module _ {X : Type 0} (get_block : ℕ → Outcome X Payload)
    (get_transaction : ℕ → Text → Outcome X SdkTransaction) (height : ℕ) where
  -- `Ok(Some(block))` with the transaction replaced is `Ok(true)` of the source.
  use_transaction : ℕ → SdkBlock → Outcome X SdkTransaction → Outcome X (Option SdkBlock)
  use_transaction tx_index block (err e) = err e
  use_transaction tx_index block (ok t) =
      if transaction_has_incomplete_extended_payload t
      then ok none
      else ok (some (set_tx tx_index t block))

  complete_by_hash : ℕ → SdkBlock → Requests → Option Text → Outcome X (Option SdkBlock) × Requests
  complete_by_hash tx_index block r none = (ok none, r)
  complete_by_hash tx_index block r (some tx_hash) = (
    use_transaction tx_index block (get_transaction r.transactions tx_hash),
    record r { transactions = r.transactions + 1 },
  )

  unfoldable pub try_complete_transaction :
      ℕ → SdkBlock → Requests → Outcome X (Option SdkBlock) × Requests
  unfolding use_transaction complete_by_hash hash_at
  try_complete_transaction tx_index block r =
      complete_by_hash tx_index block r (hash_at (get_elem? block tx_index))

  -- What the loop makes of an attempt to complete a transaction.
  after_attempt :
      IncompleteExtendedPayload
      → Outcome X (Option SdkBlock) × Requests
      → (SdkBlock → Requests → Repair X × Requests)
      → Repair X × Requests
  after_attempt incomplete (err e, r) continue = (failed e, r)
  after_attempt incomplete (ok none, r) continue = (unresolved incomplete, r)
  after_attempt incomplete (ok (some block), r) continue = continue block r

  on_incomplete :
      List ℕ
      → SdkBlock
      → Requests
      → Option IncompleteExtendedPayload
      → (List ℕ → SdkBlock → Requests → Repair X × Requests)
      → Repair X × Requests
  on_incomplete completed block r none continue = (whole block, r)
  on_incomplete completed block r (some incomplete) continue =
      if any (λ i. i == incomplete.tx_index) completed
      then (unresolved incomplete, r)
      else after_attempt incomplete (try_complete_transaction incomplete.tx_index block r)
          (continue (incomplete.tx_index ∷ completed))

  unfoldable pub repair : ℕ → List ℕ → SdkBlock → Requests → Repair X × Requests
  unfolding on_incomplete after_attempt
  repair zero completed block r = (out_of_rounds, r)
  repair (suc fuel) completed block r =
      on_incomplete completed block r (incomplete_extended_payload block) (repair fuel)

  -- The error after the last attempt.
  give_up : IncompleteExtendedPayload → Outcome X SdkBlock
  give_up incomplete = err (event_payload_decode height incomplete.tx_index 0 incomplete.event_kind)

  attempts_allowed : ℕ → ℕ → ℕ → ℕ
  attempts_allowed attempt max_attempts byte_len =
      if (attempt == 1) && ltb extended_payload_refetch_max_block_bytes byte_len
      then 1
      else max_attempts

  after_repair :
      ℕ
      → ℕ
      → Repair X × Requests
      → (Requests → Outcome X SdkBlock × Requests)
      → Outcome X SdkBlock × Requests
  after_repair attempt max_attempts (whole block, r) continue = (ok block, r)
  after_repair attempt max_attempts (failed e, r) continue = (err e, r)
  after_repair attempt max_attempts (unresolved incomplete, r) continue =
      if ltb attempt max_attempts then continue r else (give_up incomplete, r)
  after_repair attempt max_attempts (out_of_rounds, r) continue =
      (give_up (record { tx_index = 0; event_kind = codes "extended" }), r)

  -- The block has one round more than transactions.
  on_payload :
      ℕ
      → ℕ
      → Outcome X Payload
      → Requests
      → (ℕ → Requests → Outcome X SdkBlock × Requests)
      → Outcome X SdkBlock × Requests
  on_payload attempt max_attempts (err e) r continue = (err e, r)
  on_payload attempt max_attempts (ok payload) r continue =
      let allowed = attempts_allowed attempt max_attempts payload.byte_len in
      after_repair attempt allowed (repair (suc (length payload.block)) [] payload.block r)
        (continue allowed)

  unfoldable pub attempts_from_block : ℕ → ℕ → ℕ → Requests → Outcome X SdkBlock × Requests
  unfolding attempts_allowed after_repair on_payload give_up
  attempts_from_block zero attempt max_attempts r =
      (give_up (record { tx_index = 0; event_kind = codes "extended" }), r)
  attempts_from_block (suc left) attempt max_attempts r =
      on_payload attempt max_attempts (get_block r.blocks) (record r { blocks = r.blocks + 1 })
        (attempts_from_block left (attempt + 1))

  unfoldable pub fetch_decoded_block_for_projection : Requests → Outcome X SdkBlock × Requests
  fetch_decoded_block_for_projection r =
      attempts_from_block special_resolution_refetch_attempts 1 special_resolution_refetch_attempts
        r
