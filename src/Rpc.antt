-- ===== src/Rpc.antt =====
-- The failover client of crates/rpc/src/lib.rs. The SDK's errors are a parameter, of which the client
-- only asks whether they are transport failures, and so are the answers of the nodes: an answer
-- depends on the number of calls made before it, the endpoint and the request's timeout. Times are
-- in milliseconds.
pub mod Rounds
pub mod Healthy
pub mod Rotation
pub mod Turns
mod Tests
use explorer_backend.Base.{
  Bool, List, Option, Text, false, get_elem?, if◌then◌else◌, length, min, none, not, some, suc,
  true, zero, ℕ, ◌%◌, ◌*◌, ◌+◌, ◌-◌, ◌^◌, ◌∷◌,
}

pub data RpcError (S : Type 0) : Type 0 where
  missing_rpc_endpoints : RpcError S
  sdk : S → RpcError S
  json : (target : Text) → RpcError S
  unterminated_pagination : (endpoint address : Text) (pages : ℕ) → RpcError S

-- `Ok`, `Err`, or an index out of range.
pub data Reply (S T : Type 0) : Type 0 where
  ok : T → Reply S T
  err : RpcError S → Reply S T
  panicked : Reply S T

abbrev pub max_rpc_attempts : ℕ
max_rpc_attempts = 4

abbrev pub rpc_retry_base_delay_ms : ℕ
rpc_retry_base_delay_ms = 250

abbrev pub rpc_retry_max_delay_ms : ℕ
rpc_retry_max_delay_ms = 2000

abbrev pub block_fetch_max_attempts : ℕ
block_fetch_max_attempts = 5

abbrev pub block_fetch_max_timeout : ℕ
block_fetch_max_timeout = 600000

abbrev pub usize_modulus : ℕ
usize_modulus = 2 ^ 64

-- What the client has done: the round-robin counter, and the calls and waits, the latest first.
pub record Client (E : Type 0) : Type 0 where
  pub next_endpoint : ℕ
  pub calls : List (E × Option ℕ)
  pub waits : List ℕ

unfoldable pub attempt_timeout : ℕ → ℕ → Bool → Option ℕ
attempt_timeout base attempt escalate =
    if not escalate then none else some (min (base * 2 ^ min attempt 16) block_fetch_max_timeout)

unfoldable pub retry_delay : ℕ → ℕ
retry_delay attempt = min (rpc_retry_base_delay_ms * 2 ^ (attempt - 1)) rpc_retry_max_delay_ms

module _ {S : Type 0} (is_http : S → Bool) where
  unfoldable pub is_transient_rpc_error : RpcError S → Bool
  is_transient_rpc_error (sdk error) = is_http error
  is_transient_rpc_error missing_rpc_endpoints = false
  is_transient_rpc_error (json target) = false
  is_transient_rpc_error (unterminated_pagination endpoint address pages) = false

abbrev pub or_missing : {S : Type 0} → Option (RpcError S) → RpcError S
or_missing none = missing_rpc_endpoints
or_missing (some error) = error

module _ {S T E : Type 0} where
  -- The two ways in which one call of an endpoint ends the round or lets it go on.
  unfoldable pub index : Option E → Client E → (E → Reply S T × Client E) → Reply S T × Client E
  index none c use_endpoint = (panicked, c)
  index (some endpoint) c use_endpoint = use_endpoint endpoint

  unfoldable pub on_error :
      Reply S T × Client E → (RpcError S → Client E → Reply S T × Client E) → Reply S T × Client E
  on_error (ok value, c) next = (ok value, c)
  on_error (err error, c) next = next error c
  on_error (panicked, c) next = (panicked, c)

module _ {S T E : Type 0} (is_http : S → Bool) (answer : ℕ → E → Option ℕ → Reply S T)
    (endpoints : List E) where
  -- One call of an endpoint, with its timeout.
  unfoldable pub ask : Option ℕ → Client E → E → Reply S T × Client E
  ask timeout c endpoint =
      (answer (length c.calls) endpoint timeout, record c { calls = (endpoint, timeout) ∷ c.calls })

  -- The loop of `try_endpoints_once`: the last argument is the number of offsets left.
  unfoldable pub try_offsets :
      ℕ → ℕ → Option ℕ → Option (RpcError S) → Client E → ℕ → Reply S T × Client E
  try_offsets start offset timeout last_error c zero = (err (or_missing last_error), c)
  try_offsets start offset timeout last_error c (suc left) =
      index (get_elem? endpoints ((start + offset) % usize_modulus % length endpoints)) c
        λ endpoint.
          on_error (ask timeout c endpoint)
            λ error d. try_offsets start (suc offset) timeout (some error) d left

  unfoldable pub try_endpoints_once : Option ℕ → Client E → Reply S T × Client E
  unfolding try_offsets index on_error ask
  try_endpoints_once timeout c =
      try_offsets c.next_endpoint 0 timeout none
        (record c { next_endpoint = (c.next_endpoint + 1) % usize_modulus }) (length endpoints)

  abbrev wait_before : ℕ → Client E → Client E
  wait_before zero c = c
  wait_before (suc attempt) c = record c { waits = retry_delay (suc attempt) ∷ c.waits }

  -- The loop of `run_failover`: the last argument is the number of attempts left.
  unfoldable pub attempts_from :
      ℕ → Bool → ℕ → Option (RpcError S) → Client E → ℕ → Reply S T × Client E
  attempts_from base escalate attempt last_error c zero = (err (or_missing last_error), c)
  attempts_from base escalate attempt last_error c (suc left) =
      on_error (try_endpoints_once (attempt_timeout base attempt escalate) (wait_before attempt c))
        λ error after.
          let rest = attempts_from base escalate (suc attempt) (some error) after left in
          if is_transient_rpc_error is_http error then rest else (err error, after)

  unfoldable pub run_failover : ℕ → ℕ → Bool → Client E → Reply S T × Client E
  unfolding attempts_from on_error
  run_failover base attempts escalate c = attempts_from base escalate 0 none c attempts

  unfoldable pub with_failover : ℕ → Client E → Reply S T × Client E
  unfolding run_failover
  with_failover base c = run_failover base max_rpc_attempts false c

  unfoldable pub block_fetch_failover : ℕ → Client E → Reply S T × Client E
  unfolding run_failover
  block_fetch_failover base c = run_failover base block_fetch_max_attempts true c
