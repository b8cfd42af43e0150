-- ===== src/Rpc/Rounds.antt =====
-- How much work `run_failover` (crates/rpc/src/lib.rs) may do.
use explorer_backend.Base.{
  Bool, Bool-cases, List, Option, [], ap, arith, get_elem?, inl, inr, length, none, refl, some, suc,
  true, zero, ℕ, ◌%◌, ◌*◌, ◌+◌, ◌-◌, ◌<◌, ◌∷◌, ◌≡◌, ◌≢◌, ◌≤◌,
}
use explorer_backend.Rpc.{
  Client, Reply, RpcError, ask, attempt_timeout, attempts_from, err, index, is_transient_rpc_error,
  ok, on_error, panicked, run_failover, try_endpoints_once, try_offsets, usize_modulus, wait_before,
}

pub get_elem?-below {ℓ} :
    {A : Type ℓ} (xs : List A) (i : ℕ) → i < length xs → (x : A) × (get_elem? xs i ≡ some x)
get_elem?-below [] i h = elim h [ ]
get_elem?-below (x ∷ xs) zero h = (x, refl)
get_elem?-below (x ∷ xs) (suc i) h = get_elem?-below xs i (omega arith)

module _ {S T E : Type 0} (P : Reply S T × Client E → Type 0) where
  -- What holds of each way out of a step holds of the step.
  pub index_post :
      (o : Option E) (c : Client E) (k : E → Reply S T × Client E)
      → (o ≡ none → P (panicked, c))
      → ((e : E) → o ≡ some e → P (k e))
      → P (index o c k)
  unfolding index
  index_post none c k out found = out refl
  index_post (some e) c k out found = found e refl

  pub on_error_post :
      (r : Reply S T × Client E) (k : RpcError S → Client E → Reply S T × Client E)
      → ((error : RpcError S) → r.0 ≡ err error → P (k error r.1))
      → (((error : RpcError S) → r.0 ≢ err error) → P r)
      → P (on_error r k)
  unfolding on_error
  on_error_post (ok v, c) k failed ended = ended (λ error e. cc)
  on_error_post (err error, c) k failed ended = failed error refl
  on_error_post (panicked, c) k failed ended = ended (λ error e. cc)

module _ {S T E : Type 0} (is_http : S → Bool) (answer : ℕ → E → Option ℕ → Reply S T)
    (endpoints : List E) where
  -- The client after a stretch of a call: how many calls and waits it made at most.
  abbrev pub Spent : ℕ → ℕ → Client E → Reply S T × Client E → Type 0
  Spent asked waited c r =
      (length r.1.calls ≤ length c.calls + asked) × (length r.1.waits ≤ length c.waits + waited)

  -- The same, for waits that are made exactly as often.
  abbrev Tired : ℕ → Client E → Reply S T × Client E → Type 0
  Tired waited c r =
      (error : RpcError S)
      → r.0 ≡ err error
      → is_transient_rpc_error is_http error ≡ true
      → length r.1.waits ≡ length c.waits + waited

  pub try_offsets-Spent :
      (start offset left : ℕ) (timeout : Option ℕ) (last : Option (RpcError S)) (c : Client E)
      → Spent left 0 c (try_offsets is_http answer endpoints start offset timeout last c left)
  unfolding try_offsets ask
  try_offsets-Spent start offset zero timeout last c = (omega arith, omega arith)
  try_offsets-Spent start offset (suc left) timeout last c =
      index_post (Spent (suc left) 0 c) _ c _ (λ out. (omega arith, omega arith))
        λ e at.
          on_error_post (Spent (suc left) 0 c) (ask is_http answer endpoints timeout c e) _
            (λ error failed. omega (
              arith,
              try_offsets-Spent start (suc offset) left timeout (some error)
                  (ask is_http answer endpoints timeout c e).1,
            ))
            (λ ended. (omega arith, omega arith))

  try_endpoints_once-Spent :
      (timeout : Option ℕ) (c : Client E)
      → Spent (length endpoints) 0 c (try_endpoints_once is_http answer endpoints timeout c)
  unfolding try_endpoints_once
  try_endpoints_once-Spent timeout c =
      try_offsets-Spent c.next_endpoint 0 (length endpoints) timeout none
        (record c { next_endpoint = (c.next_endpoint + 1) % usize_modulus })

  waits_before :
      (attempt : ℕ) (c : Client E)
      → (length (wait_before is_http answer endpoints attempt c).waits
          ≡ length c.waits + (1 - (1 - attempt)))
        × ((wait_before is_http answer endpoints attempt c).calls ≡ c.calls)
  waits_before zero c = (omega arith, refl)
  waits_before (suc attempt) c = (omega arith, refl)

  pub try_offsets-waits :
      (start offset left : ℕ) (timeout : Option ℕ) (last : Option (RpcError S)) (c : Client E)
      → (try_offsets is_http answer endpoints start offset timeout last c left).1.waits ≡ c.waits
  unfolding try_offsets ask
  try_offsets-waits start offset zero timeout last c = refl
  try_offsets-waits start offset (suc left) timeout last c =
      index_post (λ r. r.1.waits ≡ c.waits) _ c _ (λ out. refl)
        λ e at.
          on_error_post (λ r. r.1.waits ≡ c.waits) (ask is_http answer endpoints timeout c e) _
            (λ error failed.
              try_offsets-waits start (suc offset) left timeout (some error)
                (ask is_http answer endpoints timeout c e).1)
            (λ ended. refl)

  attempts_from-Spent :
      (base attempt left : ℕ) (escalate : Bool) (last : Option (RpcError S)) (c : Client E)
      → let r = attempts_from is_http answer endpoints base escalate attempt last c left in
        Spent (left * length endpoints) (left - (1 - attempt)) c r
        × Tired (left - (1 - attempt)) c r
  unfolding attempts_from
  attempts_from-Spent base attempt zero escalate last c =
      ((omega arith, omega arith), λ error e t. omega arith)
  attempts_from-Spent base attempt (suc left) escalate last c =
      let timeout = attempt_timeout base attempt escalate in
      let waiting = wait_before is_http answer endpoints attempt c in
      let round = try_endpoints_once is_http answer endpoints timeout waiting in
      let once = try_endpoints_once-Spent timeout waiting in
      let waited = waits_before attempt c in
      let same : round.1.waits ≡ waiting.waits =
        unfold try_endpoints_once in try_offsets-waits _ 0 (length endpoints) timeout none _ in
      let kept = ap (λ w. length w) same in
      let asked = ap (λ w. length w) waited.1 in
      let slots : length endpoints + left * length endpoints ≡ suc left * length endpoints =
        grind arith in
      on_error_post
        (λ r.
          Spent (suc left * length endpoints) (suc left - (1 - attempt)) c r
          × Tired (suc left - (1 - attempt)) c r)
        round _
        (λ error failed.
          let ih = attempts_from-Spent base (suc attempt) left escalate (some error) round.1 in
          elim (Bool-cases (is_transient_rpc_error is_http error)) [
            | inl transient ↦ rw transient (
              (omega (arith, ih.0.0, once.0, asked, slots), omega (arith, ih.0.1, waited.0, kept)),
              λ e f t. omega (arith, ih.1 e f t, waited.0, kept),
            )
            | inr permanent ↦ rw permanent (
              (omega (arith, once.0, asked, slots), omega (arith, waited.0, kept)),
              λ e f t. absurd (cc),
            )
          ])
        (λ ended. (
          (omega (arith, once.0, asked, slots), omega (arith, waited.0, kept)),
          λ e f t. absurd (ended e f),
        ))

  -- However the nodes answer, `run_failover` makes at most as many calls as there are attempts times
  -- endpoints, and waits at most once between two attempts; and if it gives up with a transient error,
  -- it has waited between all of its attempts.
  pub run_failover_bounds :
      (base attempts : ℕ) (escalate : Bool) (c : Client E)
      → let r = run_failover is_http answer endpoints base attempts escalate c in
        (length r.1.calls ≤ length c.calls + attempts * length endpoints)
        × (length r.1.waits ≤ length c.waits + (attempts - 1))
        × ((error : RpcError S)
            → r.0 ≡ err error
            → is_transient_rpc_error is_http error ≡ true
            → length r.1.waits ≡ length c.waits + (attempts - 1))
  unfolding run_failover
  run_failover_bounds base attempts escalate c =
      let (spent, tired) = attempts_from-Spent base 0 attempts escalate none c in
      (spent.0, omega (arith, spent.1), λ e f t. omega (arith, tired e f t))
