-- ===== src/Rpc/Tests.antt =====
-- The failover client (crates/rpc/src/lib.rs) over three endpoints, of which only the second serves.
use explorer_backend.Base.{
  Bool, List, Option, [], arith, false, if◌then◌else◌, length, refl, true, ℕ, ◌+◌, ◌==◌, ◌∷◌, ◌≡◌,
  ◌≢◌, ◌≤◌,
}
use explorer_backend.Rpc.{Client, Reply, err, ok, panicked, run_failover, sdk}
use explorer_backend.Rpc.Healthy.{Healthy, run_failover-Succeeds}

-- The only SDK error here is a transport failure.
abbrev is_http : Bool → Bool
is_http e = e

abbrev answer : ℕ → ℕ → Option ℕ → Reply Bool ℕ
answer calls endpoint timeout = if endpoint == 8 then ok 42 else err (sdk true)

abbrev endpoints : List ℕ
endpoints = 7 ∷ 8 ∷ 9 ∷ []

abbrev client : Client ℕ
client = record { next_endpoint = 2; calls = []; waits = [] }

answer-answered : (k e : ℕ) (t : Option ℕ) → answer k e t ≢ panicked
answer-answered k e t = ground arith

second-Healthy : Healthy is_http answer endpoints 1
second-Healthy = record {
  answered = answer-answered;
  endpoint = 8;
  listed = refl;
  serves = λ k t. (42, refl);
}

run_failover-Succeeds_example :
    let r = run_failover is_http answer endpoints 100 4 false client in
    ((v : ℕ) × (r.0 ≡ ok v)) × (r.1.waits ≡ []) × (length r.1.calls ≤ 0 + 3)
run_failover-Succeeds_example =
    run_failover-Succeeds is_http answer endpoints 100 4 1 false client second-Healthy (omega arith)
      (omega arith) (omega arith)
