-- ===== src/Ingest/Refetch/Complete.antt =====
-- `fetch_decoded_block_for_projection` (crates/ingestion/src/driver.rs) gives a block whose extended
-- payloads are whole or an error, after a bounded number of requests.
use explorer_backend.Base.{
  Bool-cases, Text, [], ap, arith, if◌then◌else◌, inl, inr, length, ltb, ltb→lt, none, refl, subst,
  suc, zero, ℕ, ◌+◌, ◌<◌, ◌≡◌, ◌≢◌, ◌≤◌, nat_eq,
}
use explorer_backend.Ingest.{Outcome, err, ok}
use explorer_backend.Ingest.Refetch.{
  Payload, Repair, Requests, SdkBlock, SdkTransaction, after_repair, attempts_allowed,
  attempts_from_block, extended_payload_refetch_max_block_bytes, failed,
  fetch_decoded_block_for_projection, give_up, incomplete_extended_payload, on_payload,
  out_of_rounds, repair, unresolved, whole,
}
use explorer_backend.Ingest.Refetch.Repairs.{RepairEnds, count-le-length, repair-Ends}

module _ {X : Type 0} (get_block : ℕ → Outcome X Payload)
    (get_transaction : ℕ → Text → Outcome X SdkTransaction) (height : ℕ) where
  -- A block comes back only if none of its extended payloads is incomplete, and at most so many
  -- blocks were asked for.
  pub record Fetched (r : Requests) (limit : ℕ) (p : Outcome X SdkBlock × Requests) : Type 0 where
    pub sound : (block : SdkBlock) → p.0 ≡ ok block → incomplete_extended_payload block ≡ none
    pub few : p.1.blocks ≤ r.blocks + limit

  after_repair-Fetched :
      (attempt allowed n : ℕ) (block : SdkBlock) (r r0 : Requests) (p : Repair X × Requests)
      (continue : Requests → Outcome X SdkBlock × Requests)
      → RepairEnds get_block get_transaction height block r p
      → r.blocks ≤ r0.blocks + n
      → ((r' : Requests) → r'.blocks ≡ r.blocks → attempt < allowed → Fetched r0 n (continue r'))
      → Fetched r0 n (after_repair get_block get_transaction height attempt allowed p continue)
  unfolding after_repair give_up
  after_repair-Fetched attempt allowed n block r r0 (whole b, r') continue e few k = record {
    sound = λ c h. subst (λ x. incomplete_extended_payload x ≡ none) (cc h) (e.sound b refl);
    few = omega (arith, e.no_block);
  }
  after_repair-Fetched attempt allowed n block r r0 (failed why, r') continue e few k = record {
    sound = λ c h. absurd (cc h);
    few = omega (arith, e.no_block);
  }
  after_repair-Fetched attempt allowed n block r r0 (out_of_rounds, r') continue e few k = record {
    sound = λ c h. absurd (cc h);
    few = omega (arith, e.no_block);
  }
  after_repair-Fetched attempt allowed n block r r0 (unresolved found, r') continue e few k =
      elim (Bool-cases (ltb attempt allowed)) [
        | inl more ↦ rw more (k r' e.no_block (ltb→lt attempt allowed more))
        | inr last ↦
            rw last (record { sound = λ c h. absurd (cc h); few = omega (arith, e.no_block) })
      ]

  Fetched-mono :
      (r r' : Requests) (m n : ℕ) (p : Outcome X SdkBlock × Requests)
      → r'.blocks + m ≤ r.blocks + n
      → Fetched r' m p
      → Fetched r n p
  Fetched-mono r r' m n p le f = record { sound = f.sound; few = omega (arith, f.few) }

  on_payload-Fetched :
      (attempt max_attempts n : ℕ) (o : Outcome X Payload) (r : Requests)
      (continue : ℕ → Requests → Outcome X SdkBlock × Requests)
      → 1 ≤ n
      → ((payload : Payload) (r' : Requests)
          → o ≡ ok payload
          → r'.blocks ≡ r.blocks + 1
          → attempt
            < attempts_allowed get_block get_transaction height attempt max_attempts
                payload.byte_len
          → Fetched r n (
              continue
                (attempts_allowed get_block get_transaction height attempt max_attempts
                  payload.byte_len)
                r'))
      → Fetched r n (
          on_payload get_block get_transaction height attempt max_attempts o
            (record r { blocks = r.blocks + 1 })
            continue)
  unfolding on_payload
  on_payload-Fetched attempt max_attempts n (err e) r continue one k = record {
    sound = λ c h. absurd (cc h);
    few = omega (arith, one);
  }
  on_payload-Fetched attempt max_attempts n (ok payload) r continue one k =
      after_repair-Fetched attempt _ n payload.block (record r { blocks = r.blocks + 1 }) r _ _
        (repair-Ends get_block get_transaction height (suc (length payload.block)) [] payload.block
          (record r { blocks = r.blocks + 1 }) (omega (arith, count-le-length payload.block)))
        (omega (arith, one)) λ r' same more. k payload r' refl same more

  attempts_from_block-Fetched :
      (left attempt max_attempts : ℕ) (r : Requests)
      → Fetched r left
          (attempts_from_block get_block get_transaction height left attempt max_attempts r)
  unfolding attempts_from_block give_up
  attempts_from_block-Fetched zero attempt max_attempts r = record {
    sound = λ c h. absurd (cc h);
    few = omega arith;
  }
  attempts_from_block-Fetched (suc left) attempt max_attempts r =
      on_payload-Fetched attempt max_attempts (suc left) (get_block r.blocks) r _ (omega arith)
        λ payload r' got same more.
          Fetched-mono r r' left (suc left) _ (omega (arith, same))
            (attempts_from_block-Fetched left (attempt + 1) _ r')

  -- One request where the first answer is an error or a payload above the ceiling, 25 otherwise.
  pub requests_allowed : Outcome X Payload → ℕ
  requests_allowed (err e) = 1
  requests_allowed (ok payload) =
      if ltb extended_payload_refetch_max_block_bytes payload.byte_len then 1 else 25

  some_allowed : (o : Outcome X Payload) → (1 ≤ requests_allowed o) × (requests_allowed o ≤ 25)
  unfolding requests_allowed
  some_allowed (err e) = (omega arith, omega arith)
  some_allowed (ok payload) = ground arith

  more_allowed :
      (payload : Payload)
      → 1 < attempts_allowed get_block get_transaction height 1 25 payload.byte_len
      → requests_allowed (ok payload) ≡ 25
  unfolding attempts_allowed requests_allowed
  more_allowed payload h = ground (arith, h)

  -- Whatever the RPC client returns, the repair of a block does not run out of rounds, a block that
  -- comes back has no incomplete extended payload, and the client's `get_block_by_height_payload` is
  -- called at most once if its first result is an error or a payload above the ceiling, and at most 25
  -- times otherwise. Each such call may itself ask the nodes several times, by its own failover.
  pub fetch_decoded_block_for_projection-Fetched :
      (r : Requests)
      → ((block : SdkBlock) (r' : Requests)
          → (repair get_block get_transaction height (suc (length block)) [] block r').0
            ≢ out_of_rounds)
        × Fetched r
            (requests_allowed (get_block r.blocks))
            (fetch_decoded_block_for_projection get_block get_transaction height r)
  unfolding fetch_decoded_block_for_projection attempts_from_block
  fetch_decoded_block_for_projection-Fetched r = (
    λ block r'.
        (repair-Ends get_block get_transaction height (suc (length block)) [] block r'
          (omega (arith, count-le-length block))).ended,
    on_payload-Fetched 1 25 (requests_allowed (get_block r.blocks)) (get_block r.blocks) r _
        (some_allowed (get_block r.blocks)).0
        λ payload r' got same more.
          Fetched-mono r r' 24 (requests_allowed (get_block r.blocks)) _
            (omega (arith, same, ap requests_allowed got, more_allowed payload more))
            (attempts_from_block-Fetched 24 (1 + 1) _ r'),
  )
