-- ===== src/RateLimit/Keys.antt =====
-- `build_key_limits` of crates/http-api/src/rate_limit.rs, and the tiers of
-- crates/config/src/lib.rs.
use explorer_backend.Base.{
  Bool, List, Option, Text, [], ap, arith, false, if◌then◌else◌, is_empty, none, refl, some,
  text_beq, text_beq_iff, ◌||◌, ◌∙◌, ◌∷◌, ◌≡◌, text_key,
}
use explorer_backend.Base.Int.{ℤ}
use explorer_backend.Base.Map.{insert, lookup, lookup-insert}

pub record RateLimitTier : Type 0 where
  pub name : Text
  pub per_minute : ℤ
  pub keys : List Text

-- The inner loop, over a tier's keys.
add_keys : ℤ → List Text → List (Text × ℤ) → List (Text × ℤ)
add_keys per_minute [] limits = limits
add_keys per_minute (key ∷ keys) limits =
    add_keys per_minute keys (if is_empty key then limits else insert key per_minute limits)

add_tiers : List RateLimitTier → List (Text × ℤ) → List (Text × ℤ)
add_tiers [] limits = limits
add_tiers (tier ∷ tiers) limits = add_tiers tiers (add_keys tier.per_minute tier.keys limits)

unfoldable pub build_key_limits : List RateLimitTier → List (Text × ℤ)
unfolding add_keys add_tiers
build_key_limits tiers = add_tiers tiers []

-- Whether a tier lists a key.
pub lists : Text → List Text → Bool
lists key [] = false
lists key (k ∷ keys) = text_beq k key || lists key keys

-- The limit of the last tier that lists the key, if any.
pub last_tier_limit : Text → List RateLimitTier → Option ℤ → Option ℤ
last_tier_limit key [] found = found
last_tier_limit key (tier ∷ tiers) found =
    last_tier_limit key tiers (if lists key tier.keys then some tier.per_minute else found)

lookup-add_keys :
    (key : Text) (per_minute : ℤ) (keys : List Text) (limits : List (Text × ℤ))
    → is_empty key ≡ false
    → lookup key (add_keys per_minute keys limits)
      ≡ (if lists key keys then some per_minute else lookup key limits)
unfolding add_keys lists
lookup-add_keys key per_minute [] limits h = refl
lookup-add_keys key per_minute (k ∷ keys) limits h = ground (
  arith,
  lookup-add_keys key per_minute keys limits h,
  lookup-add_keys key per_minute keys (insert k per_minute limits) h,
  lookup-insert k key per_minute limits,
  text_beq_iff k key,
)

lookup-add_keys_empty :
    (per_minute : ℤ) (keys : List Text) (limits : List (Text × ℤ))
    → lookup [] (add_keys per_minute keys limits) ≡ lookup [] limits
unfolding add_keys
lookup-add_keys_empty per_minute [] limits = refl
lookup-add_keys_empty per_minute ([] ∷ keys) limits = lookup-add_keys_empty per_minute keys limits
lookup-add_keys_empty per_minute ((c ∷ k) ∷ keys) limits =
    lookup-add_keys_empty per_minute keys (insert (c ∷ k) per_minute limits)
    ∙ lookup-insert (c ∷ k) [] per_minute limits

lookup-add_tiers :
    (key : Text) (tiers : List RateLimitTier) (limits : List (Text × ℤ))
    → is_empty key ≡ false
    → lookup key (add_tiers tiers limits) ≡ last_tier_limit key tiers (lookup key limits)
unfolding add_tiers last_tier_limit
lookup-add_tiers key [] limits h = refl
lookup-add_tiers key (tier ∷ tiers) limits h =
    lookup-add_tiers key tiers (add_keys tier.per_minute tier.keys limits) h
    ∙ ap (last_tier_limit key tiers) (lookup-add_keys key tier.per_minute tier.keys limits h)

lookup-add_tiers_empty :
    (tiers : List RateLimitTier) (limits : List (Text × ℤ))
    → lookup [] (add_tiers tiers limits) ≡ lookup [] limits
unfolding add_tiers
lookup-add_tiers_empty [] limits = refl
lookup-add_tiers_empty (tier ∷ tiers) limits =
    lookup-add_tiers_empty tiers (add_keys tier.per_minute tier.keys limits)
    ∙ lookup-add_keys_empty tier.per_minute tier.keys limits

-- The flattened map gives every non-empty key the limit of the last tier that lists it, nothing to
-- a key that no tier lists, and nothing to the empty key even where a tier lists it.
pub lookup-build_key_limits :
    (key : Text) (tiers : List RateLimitTier)
    → lookup key (build_key_limits tiers)
      ≡ (if is_empty key then none else last_tier_limit key tiers none)
unfolding build_key_limits lookup
lookup-build_key_limits [] tiers = lookup-add_tiers_empty tiers []
lookup-build_key_limits (c ∷ key) tiers = lookup-add_tiers (c ∷ key) tiers [] refl
