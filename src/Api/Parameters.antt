-- ===== src/Api/Parameters.antt =====
-- Query and path parameters of the HTTP API (crates/http-api/src/support.rs). Upper case by Unicode
-- is a parameter.
use explorer_backend.Base.{
  Bool, Option, Text, false, if◌then◌else◌, is_empty, none, some, trim, ℕ, nat_eq,
}
use explorer_backend.Base.Int.{ltb_ℤ, negsuc, pos, ℤ}
use explorer_backend.Api.{
  Answer, bad, empty_path, invalid_integer, limit_below_minus_one, negative_offset, ok, or_bad,
  parse_int, parsed, refused, ◌>>=◌,
}

unfoldable pub history_price_limit : Option ℤ → Answer (Option ℤ)
history_price_limit limit =
    let wanted : ℤ = elim limit [ none ↦ pos 50 | some n ↦ n ] in
    if ltb_ℤ wanted (negsuc 0)
    then bad limit_below_minus_one
    else ok (if ltb_ℤ (pos 0) wanted then some wanted else none)

unfoldable pub nonnegative_offset : Option ℤ → Answer ℤ
nonnegative_offset none = ok (pos 0)
nonnegative_offset (some (pos n)) = ok (pos n)
nonnegative_offset (some (negsuc n)) = bad negative_offset

non_empty : Text → Option Text
non_empty trimmed = if is_empty trimmed then none else some trimmed

unfoldable pub empty_to_none : Option Text → Option Text
unfolding non_empty
empty_to_none none = none
empty_to_none (some value) = non_empty (trim value)

normalize_block_id : (to_uppercase : Text → Text) → Text → Text
normalize_block_id to_uppercase value = to_uppercase (trim value)

unfoldable pub query_chain : Option Text → Text → Text
query_chain value default_chain = elim (empty_to_none value) [
  | none ↦ default_chain
  | some chain ↦ chain
]

-- `parse_optional_i64` and `parse_optional_i32`, by the width.
unfoldable pub parse_optional_int : ℕ → Option Text → Text → Answer (Option ℤ)
parse_optional_int bits none field = ok none
parse_optional_int bits (some value) field =
    or_bad (invalid_integer field) (parse_int bits value) >>= λ z. ok (some z)

unfoldable pub is_positive_raw : Option Text → Bool
is_positive_raw none = false
is_positive_raw (some value) = elim (parse_int 128 value) [
  | parsed z ↦ ltb_ℤ (pos 0) z
  | refused e ↦ false
]

unfoldable pub normalized_required_path : Text → Text → Answer Text
normalized_required_path field value =
    if is_empty (trim value) then bad (empty_path field) else ok (trim value)
