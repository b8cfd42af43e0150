-- ===== src/RateLimit/Limiter/Middleware.antt =====
-- What `rate_limit_middleware` of crates/http-api/src/rate_limit.rs lets through.
use explorer_backend.Base.{
  Bool, Bool-cases, Eq, List, Option, Option-cases, Text, [], arith, codes, false, inl, inr, not,
  some, suc, text_beq, true, ℕ, ◌%◌, ◌^◌, ◌||◌, ◌∷◌, ◌≡◌, ◌≢◌, ◌≤◌, text_key,
}
use explorer_backend.Base.Int.{pos, ℤ}
use explorer_backend.Base.Map.{contains_key, lookup}
use explorer_backend.RateLimit.Window.{try_admit}
use explorer_backend.RateLimit.Limiter.{
  Partitions, RateLimiter, Request, admit, admit_in, admit_key, admit_partition, admit_peer,
  is_exempt_path, is_known, key_partition, leave, rate_limit_middleware, run_guarded,
}

contains_key-lookup :
    (key : Text) (limits : List (Text × ℤ))
    → contains_key key limits ≡ true
    → (per_minute : ℤ) × (lookup key limits ≡ some per_minute)
unfolding contains_key lookup
contains_key-lookup key [] h = cc
contains_key-lookup key ((k, v) ∷ limits) h = elim (Bool-cases (text_beq k key)) [
  | inl hit ↦ (v, rw hit)
  | inr miss ↦ let (w, e) = contains_key-lookup key limits (rw miss at h) in (w, rw miss e)
]

refuses_all :
    (now limit : ℕ) (k : Text) (p : Partitions)
    → limit ≡ 0
    → (admit_partition now k limit p).0 ≡ false
unfolding admit_partition admit_in try_admit
refuses_all now limit k p h = rw h (ground arith)

module _ {Ip : Type 0} ⦃ip_key : Eq Ip⦄ (parse_ip : Text → Option Ip) (show_ip : Ip → Text) where
  -- What passes the middleware without a check: everything while the limiter is off, CORS
  -- preflights, and the liveness and documentation paths.
  abbrev pub is_exempt : RateLimiter Ip → Request Ip → Bool
  is_exempt l request = not l.enabled || request.is_options || is_exempt_path request.path

  abbrev pub presents_known_key : RateLimiter Ip → Request Ip → Bool
  presents_known_key l request = is_known (request.header (codes "X-Api-Key")) l.key_limits

  admit-in_flight :
      (now : ℕ) (key : Option Text) (peer : Option Ip) (header : Text → Option Text)
      (l : RateLimiter Ip)
      → ((admit parse_ip show_ip now key peer header l).1.in_flight ≡ l.in_flight)
        × ((admit parse_ip show_ip now key peer header l).1.capacity ≡ l.capacity)
  unfolding admit admit_key admit_peer
  admit-in_flight now key peer header l = ground arith

  -- While the limiter is on and in keys-only mode, a request that runs in a slot presented a
  -- configured key.
  pub keys_only :
      (now : ℕ) (request : Request Ip) (l : RateLimiter Ip)
      → l.require_api_key ≡ true
      → (rate_limit_middleware parse_ip show_ip now request l).0 ≡ run_guarded
      → (key : Text) × (per_minute : ℤ) × (request.header (codes "X-Api-Key") ≡ some key)
        × (lookup key l.key_limits ≡ some per_minute)
  unfolding rate_limit_middleware
  keys_only now request l keyed ran = elim (Option-cases (request.header (codes "X-Api-Key"))) [
    | inl absent ↦ absurd (ground arith)
    | inr (key, present) ↦
        let (per_minute, e) = contains_key-lookup key l.key_limits (ground arith) in
        (key, per_minute, present, e)
  ]

  -- From a state within the capacity, a request that ends gives back the slot that it took, and only
  -- a guarded one takes a slot: the counter never passes the capacity.
  pub guarded_slot :
      (now : ℕ) (request : Request Ip) (l : RateLimiter Ip)
      → l.in_flight ≤ l.capacity
      → let (verdict, after) = rate_limit_middleware parse_ip show_ip now request l in
        (after.in_flight ≤ after.capacity)
        × (verdict ≡ run_guarded → (leave parse_ip show_ip after).in_flight ≡ l.in_flight)
        × (verdict ≢ run_guarded → after.in_flight ≡ l.in_flight)
  unfolding rate_limit_middleware leave
  guarded_slot now request l h = ground (
    arith,
    admit-in_flight now (request.header (codes "X-Api-Key")) request.peer request.header l,
  )

  -- The cast `per_minute as u32`: a known key whose tier allows a positive multiple of 2^32 requests
  -- per minute is refused every request, in every state.
  pub truncated_tier :
      (now n : ℕ) (key : Text) (peer : Option Ip) (header : Text → Option Text) (l : RateLimiter Ip)
      → lookup key l.key_limits ≡ some (pos (suc n))
      → suc n % 2 ^ 32 ≡ 0
      → (admit parse_ip show_ip now (some key) peer header l).0 ≡ false
  unfolding admit admit_key
  truncated_tier now n key peer header l known zero_limit =
      rw (known, admit) (refuses_all now _ (key_partition key) l.partitions zero_limit)
