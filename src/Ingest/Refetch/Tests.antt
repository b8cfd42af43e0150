-- ===== src/Ingest/Refetch/Tests.antt =====
-- A block (crates/ingestion/src/driver.rs) whose second transaction lacks the payload of its
-- `TokenCreate`, which the transaction's own answer has.
use explorer_backend.Base.{
  Text, [], codes, eq_ignore_ascii_case, length, refl, suc, trim, ℕ, ◌∷◌, ◌≡◌, ◌≢◌, nat_eq,
}
use explorer_backend.Ingest.{Outcome, ok}
use explorer_backend.Ingest.Refetch.{
  Payload, Requests, SdkBlock, SdkTransaction, attempts_from_block,
  fetch_decoded_block_for_projection, incomplete_extended_payload, incomplete_from, out_of_rounds,
  repair, set_tx, token_create, transaction_has_incomplete_extended_payload,
  transaction_has_incomplete_special_resolution, transaction_has_incomplete_token_create,
  transaction_has_incomplete_token_series_create, try_complete_transaction,
}
use explorer_backend.Ingest.Refetch.Complete.{
  Fetched, fetch_decoded_block_for_projection-Fetched, requests_allowed,
}

abbrev created : Text → SdkTransaction
created symbol = record {
  hash = codes "AB";
  events = record { kind = codes "TokenCreate"; contract = codes "token" } ∷ [];
  extended_events =
      record { kind = codes "tokencreate"; contract = codes "token"; data_of = token_create symbol }
      ∷ [];
}

abbrev quiet : SdkTransaction
quiet = record { hash = codes "CD"; events = []; extended_events = [] }

abbrev get_block : ℕ → Outcome Unit Payload
get_block asked = ok (record { byte_len = 512; block = quiet ∷ created [] ∷ [] })

abbrev get_transaction : ℕ → Text → Outcome Unit SdkTransaction
get_transaction asked hash = ok (created (codes "SOUL"))

abbrev nothing_asked : Requests
nothing_asked = record { blocks = 0; transactions = 0 }

repaired :
    fetch_decoded_block_for_projection get_block get_transaction 7 nothing_asked
    ≡ (ok (quiet ∷ created (codes "SOUL") ∷ []), record { blocks = 1; transactions = 1 })
unfolding fetch_decoded_block_for_projection attempts_from_block repair try_complete_transaction
    incomplete_extended_payload incomplete_from transaction_has_incomplete_extended_payload
    transaction_has_incomplete_special_resolution transaction_has_incomplete_token_create
    transaction_has_incomplete_token_series_create set_tx eq_ignore_ascii_case trim
repaired = refl

fetch_decoded_block_for_projection-Fetched_example :
    ((block : SdkBlock) (r' : Requests)
      → (repair get_block get_transaction 7 (suc (length block)) [] block r').0 ≢ out_of_rounds)
    × Fetched get_block get_transaction 7 nothing_asked
        (requests_allowed get_block get_transaction 7 (get_block 0))
        (fetch_decoded_block_for_projection get_block get_transaction 7 nothing_asked)
fetch_decoded_block_for_projection-Fetched_example =
    fetch_decoded_block_for_projection-Fetched get_block get_transaction 7 nothing_asked
