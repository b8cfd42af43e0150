-- ===== src/RateLimit/Limiter.antt =====
-- `RateLimiterInner` and `rate_limit_middleware` of crates/http-api/src/rate_limit.rs. A handler
-- takes the current segment as an argument and returns the new limiter; `usize` has 64 bits.
pub mod Sweeping
pub mod Runs
pub mod Middleware
use explorer_backend.Base.{
  Bool, Eq, List, Option, Text, [], codes, false, if◌then◌else◌, is_empty, leb, max, none, not,
  some, starts_with, suc, text_beq, trim, true, zero, ℕ, ◌%◌, ◌&&◌, ◌++◌, ◌+◌, ◌-◌, ◌^◌, ◌||◌, ◌∷◌,
  text_key,
}
use explorer_backend.Base.Int.{negsuc, pos, ℤ}
use explorer_backend.Base.Map.{contains_key, insert, lookup, retain}
use explorer_backend.RateLimit.Window.{
  SlidingWindow, is_live, new_window, retry_after_seconds, try_admit,
}
use explorer_backend.RateLimit.Keys.{RateLimitTier, build_key_limits}
use explorer_backend.RateLimit.ClientIp.{resolve_client_ip}

abbrev pub sweep_every_ops : ℕ
sweep_every_ops = 4096

abbrev pub usize_max : ℕ
usize_max = 18446744073709551615

abbrev pub saturating_add_usize : ℕ → ℕ → ℕ
saturating_add_usize a b = if leb (a + b) usize_max then a + b else usize_max

pub record RateLimitConfig : Type 0 where
  pub enabled : Bool
  pub require_api_key : Bool
  pub trusted_proxies : List Text
  pub per_ip_per_minute : ℕ
  pub global_concurrent_limit : ℕ
  pub global_queue_limit : ℕ
  pub key_tiers : List RateLimitTier

-- The state behind the mutex: the windows and the counter of checks since the last sweep.
pub record Partitions : Type 0 where
  pub windows : List (Text × SlidingWindow)
  pub ops_since_sweep : ℕ

pub record RateLimiter (Ip : Type 0) : Type 0 where
  pub enabled : Bool
  pub require_api_key : Bool
  pub per_ip_per_minute : ℕ
  pub key_limits : List (Text × ℤ)
  pub trusted_proxies : List Ip
  pub capacity : ℕ
  pub partitions : Partitions
  pub in_flight : ℕ

pub record Request (Ip : Type 0) : Type 0 where
  pub is_options : Bool
  pub path : Text
  pub header : Text → Option Text
  pub peer : Option Ip

-- What the middleware does with a request: it runs the handler without a slot or inside one, or
-- answers by itself.
pub data Verdict : Type 0 where
  run_exempt : Verdict
  run_guarded : Verdict
  unauthorized : Verdict
  rate_limited : (retry_after_secs : ℕ) → Verdict

unfoldable pub sweep_dead_windows : ℕ → List (Text × SlidingWindow) → List (Text × SlidingWindow)
unfolding retain is_live
sweep_dead_windows now windows = retain (is_live now) windows

-- The counter is read and reset under the lock.
unfoldable pub sweep_when_due : ℕ → Partitions → Partitions
unfolding sweep_dead_windows
sweep_when_due now p =
    if leb sweep_every_ops p.ops_since_sweep
    then record { windows = sweep_dead_windows now p.windows; ops_since_sweep = 0 }
    else record p { ops_since_sweep = p.ops_since_sweep + 1 }

-- `entry(partition).or_insert_with(SlidingWindow::new)`
abbrev pub window_or_new : Option SlidingWindow → SlidingWindow
window_or_new none = new_window
window_or_new (some w) = w

unfoldable pub admit_in : ℕ → Text → ℕ → Partitions → Bool × Partitions
unfolding lookup insert
admit_in now partition limit p =
    let (admitted, window) = try_admit now limit (window_or_new (lookup partition p.windows)) in
    (admitted, record p { windows = insert partition window p.windows })

unfoldable pub admit_partition : ℕ → Text → ℕ → Partitions → Bool × Partitions
unfolding sweep_when_due admit_in
admit_partition now partition limit p = admit_in now partition limit (sweep_when_due now p)

abbrev pub key_partition : Text → Text
key_partition key = codes "apikey:" ++ key

abbrev pub ip_partition : Text → Text
ip_partition ip = codes "ip:" ++ ip

unfoldable pub is_exempt_path : Text → Bool
is_exempt_path path =
    text_beq path (codes "/health")
    || text_beq path (codes "/version")
    || starts_with path (codes "/swagger-ui")
    || starts_with path (codes "/api-docs")

abbrev filter_parsed {ℓ κ} : {A : Type ℓ} {B : Type κ} → (A → Option B) → List A → List B
filter_parsed f [] = []
filter_parsed f (x ∷ xs) = elim (f x) [
  | none ↦ filter_parsed f xs
  | some y ↦ y ∷ filter_parsed f xs
]

-- `key.and_then(|key| self.key_limits.get(key))`
abbrev pub limit_of : Option Text → List (Text × ℤ) → Option (Text × ℤ)
limit_of none limits = none
limit_of (some key) limits = elim (lookup key limits) [
  | none ↦ none
  | some per_minute ↦ some (key, per_minute)
]

abbrev pub is_known : Option Text → List (Text × ℤ) → Bool
is_known none limits = false
is_known (some key) limits = contains_key key limits

module _ {Ip : Type 0} ⦃ip_key : Eq Ip⦄ (parse_ip : Text → Option Ip) (show_ip : Ip → Text) where
  pub new_limiter : RateLimitConfig → RateLimiter Ip
  new_limiter config = record {
    enabled = config.enabled;
    require_api_key = config.require_api_key;
    per_ip_per_minute = config.per_ip_per_minute;
    key_limits = build_key_limits config.key_tiers;
    trusted_proxies = filter_parsed (λ raw. parse_ip (trim raw)) config.trusted_proxies;
    capacity =
        max (saturating_add_usize config.global_concurrent_limit config.global_queue_limit) 1;
    partitions = record { windows = []; ops_since_sweep = 0 };
    in_flight = 0;
  }

  abbrev with_partitions : RateLimiter Ip → Bool × Partitions → Bool × RateLimiter Ip
  with_partitions l (admitted, p) = (admitted, record l { partitions = p })

  -- A known key; `per_minute as u32` keeps the low 32 bits.
  admit_key : ℕ → Text → ℤ → RateLimiter Ip → Bool × RateLimiter Ip
  admit_key now key (pos zero) l = (true, l)
  admit_key now key (negsuc n) l = (true, l)
  admit_key now key (pos (suc n)) l =
      with_partitions l (admit_partition now (key_partition key) (suc n % 2 ^ 32) l.partitions)

  admit_peer : ℕ → Option Ip → (Text → Option Text) → RateLimiter Ip → Bool × RateLimiter Ip
  admit_peer now none header l = (true, l)
  admit_peer now (some peer) header l = with_partitions l (
      admit_partition now
        (ip_partition (show_ip (resolve_client_ip parse_ip l.trusted_proxies peer header)))
        l.per_ip_per_minute l.partitions)

  unfoldable pub admit :
      ℕ → Option Text → Option Ip → (Text → Option Text) → RateLimiter Ip → Bool × RateLimiter Ip
  unfolding admit_key admit_peer
  admit now key peer header l = elim (limit_of key l.key_limits) [
    | some (known, per_minute) ↦ admit_key now known per_minute l
    | none ↦ if is_empty l.trusted_proxies then (true, l) else admit_peer now peer header l
  ]

  -- `try_enter` where no other thread moves the counter meanwhile.
  unfoldable pub try_enter : RateLimiter Ip → Bool × RateLimiter Ip
  try_enter l =
      if leb l.capacity l.in_flight
      then (false, l)
      else (true, record l { in_flight = l.in_flight + 1 })

  -- `InFlightGuard::drop`
  unfoldable pub leave : RateLimiter Ip → RateLimiter Ip
  leave l = record l { in_flight = l.in_flight - 1 }

  enter_or_shed : Bool × RateLimiter Ip → Verdict × RateLimiter Ip
  enter_or_shed (false, l) = (rate_limited retry_after_seconds, l)
  enter_or_shed (true, l) = (run_guarded, l)

  limit_then_enter : Bool × RateLimiter Ip → Verdict × RateLimiter Ip
  limit_then_enter (false, l) = (rate_limited retry_after_seconds, l)
  limit_then_enter (true, l) = enter_or_shed (try_enter l)

  -- The middleware up to `next.run`.
  unfoldable pub rate_limit_middleware : ℕ → Request Ip → RateLimiter Ip → Verdict × RateLimiter Ip
  unfolding is_exempt_path admit try_enter limit_then_enter enter_or_shed
  rate_limit_middleware now request l =
      if not l.enabled
      then (run_exempt, l)
      else if request.is_options
      then (run_exempt, l)
      else if is_exempt_path request.path
      then (run_exempt, l)
      else if l.require_api_key && not (is_known presented_key l.key_limits)
      then (unauthorized, l)
      else limit_then_enter (admit now presented_key request.peer request.header l)
    where
      presented_key : Option Text
      presented_key = request.header (codes "X-Api-Key")
