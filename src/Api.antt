-- ===== src/Api.antt =====
-- Values that enter and leave the HTTP API: parameters, cursors, pages of rows and encoded bytes
-- (crates/http-api/src/support.rs and crates/http-api/src/lib.rs). The texts of errors are data.
pub mod Amounts
pub mod Hex
pub mod Integers
pub mod OffsetCursor
pub mod OffsetPages
pub mod PageCursor
pub mod Parameters
mod Tests
use explorer_backend.Base.{
  Bool, Option, Text, [], if◌then◌else◌, leb, ltb, none, not, some, suc, zero, ℕ, ◌&&◌, ◌*◌, ◌+◌,
  ◌-◌, ◌==◌, ◌^◌, ◌||◌, ◌∷◌, ◌≤◌, nat_eq,
}
use explorer_backend.Base.Int.{neg_part, negsuc, pos, pos_part, ℤ}

-- Why `str::parse` of an integer refuses a text.
pub data ParseIntError : Type 0 where
  empty invalid_digit pos_overflow neg_overflow : ParseIntError

-- The bad requests that the values here give rise to.
pub data BadRequest : Type 0 where
  invalid_integer : (field : Text) → ParseIntError → BadRequest
  expected_offset negative_offset_cursor : BadRequest
  invalid_offset : ParseIntError → BadRequest
  expected_page expected_payload : BadRequest
  wrong_cursor_kind : (expected : Text) → BadRequest
  invalid_sort_value invalid_id : ParseIntError → BadRequest
  limit_below_minus_one negative_offset limit_outside_usize : BadRequest
  odd_hex not_base16 not_base64 unsupported_plain empty_path : (field : Text) → BadRequest
  unsupported_format : (field format : Text) → BadRequest

pub data Answer (A : Type 0) : Type 0 where
  ok : A → Answer A
  bad : BadRequest → Answer A

infixl 5 ◌>>=◌ ◌>>◌
abbrev pub ◌>>=◌ : {A B : Type 0} → Answer A → (A → Answer B) → Answer B
ok a >>= f = f a
bad e >>= f = bad e

abbrev pub ◌>>◌ : {B : Type 0} → Answer (Unit {0}) → Answer B → Answer B
m >> k = m >>= λ u. k

pub data Parsed : Type 0 where
  parsed : ℤ → Parsed
  refused : ParseIntError → Parsed

abbrev pub is_digit : ℕ → Bool
is_digit c = leb b'0' c && leb c b'9'

-- The largest magnitude is the bound; `result` makes the integer of a magnitude.
unfoldable pub parse_digits : ParseIntError → (ℕ → ℤ) → ℕ → ℕ → Text → Parsed
parse_digits overflow result bound acc [] = parsed (result acc)
parse_digits overflow result bound acc (c ∷ cs) =
    let rest = parse_digits overflow result bound (acc * 10 + (c - b'0')) cs in
    if not (is_digit c)
    then refused invalid_digit
    else if ltb bound (acc * 10 + (c - b'0'))
    then refused overflow
    else rest

abbrev pub minus : ℕ → ℤ
minus zero = pos 0
minus (suc n) = negsuc n

unfoldable pub parse_signed : ℕ → ℕ → Text → Parsed
parse_signed bits c [] =
    if (c == b'-') || (c == b'+')
    then refused invalid_digit
    else parse_digits pos_overflow pos (2 ^ (bits - 1) - 1) 0 (c ∷ [])
parse_signed bits c (d ∷ ds) =
    if c == b'-'
    then parse_digits neg_overflow minus (2 ^ (bits - 1)) 0 (d ∷ ds)
    else if c == b'+'
    then parse_digits pos_overflow pos (2 ^ (bits - 1) - 1) 0 (d ∷ ds)
    else parse_digits pos_overflow pos (2 ^ (bits - 1) - 1) 0 (c ∷ d ∷ ds)

-- `str::parse::<i32>` and `str::parse::<i64>`, by the width.
unfoldable pub parse_int : ℕ → Text → Parsed
unfolding parse_signed
parse_int bits [] = refused empty
parse_int bits (c ∷ cs) = parse_signed bits c cs

-- What a width holds.
abbrev pub InWidth : ℕ → ℤ → Type 0
InWidth bits z = (pos_part z ≤ 2 ^ (bits - 1) - 1) × (neg_part z ≤ 2 ^ (bits - 1))

unfoldable pub strip_prefix : Text → Text → Option Text
strip_prefix [] s = some s
strip_prefix (c ∷ p) [] = none
strip_prefix (c ∷ p) (d ∷ s) = if d == c then strip_prefix p s else none

abbrev pub before_split : ℕ → Option (Text × Text) → Option (Text × Text)
before_split c none = none
before_split c (some (s, t)) = some (c ∷ s, t)

-- `str::split_once` at one code point.
unfoldable pub split_once : ℕ → Text → Option (Text × Text)
split_once sep [] = none
split_once sep (c ∷ s) =
    let rest = before_split c (split_once sep s) in if c == sep then some ([], s) else rest

abbrev pub or_bad : (ParseIntError → BadRequest) → Parsed → Answer ℤ
or_bad why (parsed z) = ok z
or_bad why (refused e) = bad (why e)
