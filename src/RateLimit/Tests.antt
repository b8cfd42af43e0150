-- ===== src/RateLimit/Tests.antt =====
-- Runs of the rate limiter (crates/http-api/src/rate_limit.rs) on small inputs. An address is a
-- number, written as one code point.
use explorer_backend.Base.{
  Bool, List, Option, Text, [], arith, codes, cons_to_first, false, if◌then◌else◌, is_whitespace,
  none, refl, some, split_at, starts_with, text_beq, trim, trim_end_if, trim_start_if, true, ℕ, ◌∷◌,
  ◌≡◌, ◌≢◌, ◌≤◌, ◌⊎◌, text_key, nat_eq,
}
use explorer_backend.Base.Int.{pos, ℤ}
use explorer_backend.Base.Map.{contains_key, insert, lookup}
use explorer_backend.RateLimit.Window.{new_window, record_in, roll, try_admit, update_at}
use explorer_backend.RateLimit.Window.Refinement.{
  Refines, Refines-empty, admit_by_log, try_admit-Refines,
}
use explorer_backend.RateLimit.Keys.{
  RateLimitTier, build_key_limits, last_tier_limit, lookup-build_key_limits,
}
use explorer_backend.RateLimit.ClientIp.{is_trusted, resolve_client_ip, untrusted}
use explorer_backend.RateLimit.ClientIp.Laws.{
  forged_hops_ignored, names_client, resolve_client_ip_result,
}
use explorer_backend.RateLimit.Limiter.{
  RateLimiter, Request, admit, admit_in, admit_partition, is_exempt_path, leave,
  rate_limit_middleware, run_guarded, sweep_when_due, try_enter,
}
use explorer_backend.RateLimit.Limiter.Sweeping.{InStep, admit_partition-InStep, set_log}
use explorer_backend.RateLimit.Limiter.Runs.{
  Check, LimitedBy, Ordered, admitted_at, fresh, no_logs, run_by_logs, run_partitions,
  run_partitions-run_by_logs, run_partitions_bounded, within,
}
use explorer_backend.RateLimit.Limiter.Middleware.{guarded_slot, keys_only, truncated_tier}
use explorer_backend.RateLimit.Gate.{Gate, GateInv, idle, run_gate, run_gate-GateInv}

abbrev check_at : ℕ → Check
check_at segment = record { at = segment; partition = codes "ip:a"; limit = 2 }

abbrev burst : List Check
burst = check_at 10 ∷ check_at 10 ∷ check_at 12 ∷ check_at 16 ∷ []

burst-Ordered : Ordered 0 burst
burst-Ordered = (
  omega arith,
  omega arith,
  (omega arith, omega arith, (omega arith, omega arith, (omega arith, omega arith, tt))),
)

run_partitions-run_by_logs_example : run_partitions fresh burst ≡ run_by_logs no_logs burst
run_partitions-run_by_logs_example = run_partitions-run_by_logs burst burst-Ordered

burst-LimitedBy : LimitedBy 2 (codes "ip:a") burst
burst-LimitedBy =
    ((λ e. omega arith), ((λ e. omega arith), ((λ e. omega arith), ((λ e. omega arith), tt))))

run_partitions_bounded_example :
    within 16 (admitted_at (codes "ip:a") burst (run_partitions fresh burst)) ≤ 2
run_partitions_bounded_example =
    run_partitions_bounded 2 (codes "ip:a") burst burst-Ordered burst-LimitedBy 16

abbrev two_tasks : Gate
two_tasks = record { in_flight = 0; tasks = idle ∷ idle ∷ [] }

abbrev interleaved : List (ℕ × Bool)
interleaved = (0, false) ∷ (1, false) ∷ (0, false) ∷ (1, false) ∷ (1, false) ∷ (0, false) ∷ []

run_gate-GateInv_example : GateInv 1 (run_gate 1 interleaved two_tasks)
run_gate-GateInv_example =
    run_gate-GateInv 1 interleaved two_tasks (record { counted = refl; capped = omega arith })

abbrev parse_ip : Text → Option ℕ
parse_ip [] = none
parse_ip (c ∷ s) = some c

abbrev show_ip : ℕ → Text
show_ip ip = ip ∷ []

abbrev forged_header : Text → Option Text
forged_header name = if text_beq name (codes "x-forwarded-for") then some (codes "e,c,p") else none

abbrev clean_header : Text → Option Text
clean_header name = if text_beq name (codes "x-forwarded-for") then some (codes "c,p") else none

forged_hops_ignored_example :
    resolve_client_ip parse_ip (b'p' ∷ []) b'p' forged_header
    ≡ resolve_client_ip parse_ip (b'p' ∷ []) b'p' clean_header
unfolding names_client is_trusted untrusted split_at cons_to_first trim trim_start_if trim_end_if
    is_whitespace
forged_hops_ignored_example =
    forged_hops_ignored parse_ip (b'p' ∷ []) b'p' (codes "e") (codes "c,p") forged_header
      clean_header refl refl refl

resolve_client_ip_result_example :
    (resolve_client_ip parse_ip (b'p' ∷ []) b'p' forged_header ≡ b'p')
    ⊎ ((is_trusted parse_ip (b'p' ∷ []) b'p' ≡ true)
        × (is_trusted parse_ip
              (b'p' ∷ [])
              (resolve_client_ip parse_ip (b'p' ∷ []) b'p' forged_header)
            ≡ false))
resolve_client_ip_result_example = resolve_client_ip_result parse_ip (b'p' ∷ []) b'p' forged_header

abbrev tiers : List RateLimitTier
tiers =
    record { name = codes "free"; per_minute = pos 5; keys = codes "k" ∷ [] ∷ [] }
    ∷ record { name = codes "cut"; per_minute = pos 4294967296; keys = codes "cut" ∷ [] }
    ∷ record { name = codes "paid"; per_minute = pos 50; keys = codes "k" ∷ [] }
    ∷ []

lookup-build_key_limits_example :
    lookup (codes "k") (build_key_limits tiers) ≡ last_tier_limit (codes "k") tiers none
lookup-build_key_limits_example = lookup-build_key_limits (codes "k") tiers

abbrev limiter : RateLimiter ℕ
limiter = record {
  enabled = true;
  require_api_key = true;
  per_ip_per_minute = 3;
  key_limits = (codes "k", pos 50) ∷ (codes "cut", pos 4294967296) ∷ [];
  trusted_proxies = b'p' ∷ [];
  capacity = 2;
  partitions = fresh;
  in_flight = 1;
}

abbrev keyed_header : Text → Option Text
keyed_header name = if text_beq name (codes "X-Api-Key") then some (codes "k") else none

abbrev keyed_request : Request ℕ
keyed_request = record {
  is_options = false;
  path = codes "/blocks";
  header = keyed_header;
  peer = some b'p';
}

keys_only_example :
    (key : Text) × (per_minute : ℤ) × (keyed_request.header (codes "X-Api-Key") ≡ some key)
    × (lookup key limiter.key_limits ≡ some per_minute)
unfolding rate_limit_middleware is_exempt_path admit try_enter admit_partition sweep_when_due
    admit_in lookup insert contains_key try_admit roll record_in update_at starts_with new_window
keys_only_example = keys_only parse_ip show_ip 100 keyed_request limiter refl refl

guarded_slot_example :
    let (verdict, after) = rate_limit_middleware parse_ip show_ip 100 keyed_request limiter in
    (after.in_flight ≤ after.capacity)
    × (verdict ≡ run_guarded → (leave parse_ip show_ip after).in_flight ≡ 1)
    × (verdict ≢ run_guarded → after.in_flight ≡ 1)
guarded_slot_example = guarded_slot parse_ip show_ip 100 keyed_request limiter (omega arith)

truncated_tier_example :
    (admit parse_ip show_ip 100 (some (codes "cut")) (some b'p') keyed_header limiter).0 ≡ false
unfolding lookup
truncated_tier_example =
    truncated_tier parse_ip show_ip 100 4294967295 (codes "cut") (some b'p') keyed_header limiter
      refl (omega arith)

admit_partition-InStep_example :
    ((admit_partition 12 (codes "ip:a") 2 fresh).0 ≡ (admit_by_log 12 2 []).0)
    × InStep 12
        (admit_partition 12 (codes "ip:a") 2 fresh).1
        (set_log no_logs (codes "ip:a") (admit_by_log 12 2 []).1)
unfolding lookup
admit_partition-InStep_example =
    admit_partition-InStep 0 12 2 (codes "ip:a") fresh no_logs (omega arith) (omega arith)
      (record { distinct = tt; refined = λ k. Refines-empty })

try_admit-Refines_example :
    ((try_admit 12 2 new_window).0 ≡ (admit_by_log 12 2 []).0)
    × Refines 12 (try_admit 12 2 new_window).1 (admit_by_log 12 2 []).1
try_admit-Refines_example =
    try_admit-Refines 0 12 2 new_window [] (omega arith) (omega arith) Refines-empty
