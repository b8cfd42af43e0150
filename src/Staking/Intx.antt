-- ===== src/Staking/Intx.antt =====
-- Reading an 8-byte Carbon intx from its hexadecimal text: `parse_carbon_intx_i64_raw` of
-- crates/db/src/staking.rs. Text is in code points and sliced by the bytes of its UTF-8; the texts of
-- errors are data.
pub mod Roundtrip
mod Tests
use explorer_backend.Base.{
  Bool, List, Option, Text, [], false, if◌then◌else◌, leb, length, ltb, none, not, some, trim, true,
  ℕ, ◌&&◌, ◌*◌, ◌+◌, ◌-◌, ◌==◌, ◌^◌, ◌||◌, ◌∷◌, nat_eq,
}
use explorer_backend.Base.Int.{negsuc, pos, ℤ}
use explorer_backend.Api.Hex.{as_bytes}

-- A slice that starts or ends inside of a character panics.
pub data Intx (A : Type 0) : Type 0 where
  parsed : A → Intx A
  not_eight_bytes : Intx A
  invalid_header : Intx A
  invalid_byte : Intx A
  invalid_sign_extension : Intx A
  panicked : Intx A

-- A byte that continues a character.
pub continues : ℕ → Bool
continues b = leb 0x80 b && ltb b 0xc0

pub starts_inside : List ℕ → Bool
starts_inside [] = false
starts_inside (b ∷ bs) = continues b

-- `char::to_digit(16)`
unfoldable pub to_digit : ℕ → Option ℕ
to_digit b =
    if leb b'0' b && leb b b'9'
    then some (b - b'0')
    else if leb b'a' b && leb b b'f'
    then some (b - b'a' + 10)
    else if leb b'A' b && leb b b'F'
    then some (b - b'A' + 10)
    else none

two_digits : Option ℕ → Option ℕ → Option ℕ
two_digits none lo = none
two_digits (some hi) none = none
two_digits (some hi) (some lo) = some (hi * 16 + lo)

-- `u8::from_str_radix` of two bytes, which takes a plus before one digit.
unfoldable pub u8_from_str_radix : ℕ → ℕ → Option ℕ
unfolding two_digits
u8_from_str_radix a b = if a == b'+' then to_digit b else two_digits (to_digit a) (to_digit b)

pub add_byte : Option ℕ → Intx ℕ → Intx ℕ
add_byte none rest = invalid_byte
add_byte (some byte) (parsed raw) = parsed (byte + 256 * raw)
add_byte (some byte) not_eight_bytes = not_eight_bytes
add_byte (some byte) invalid_header = invalid_header
add_byte (some byte) invalid_byte = invalid_byte
add_byte (some byte) invalid_sign_extension = invalid_sign_extension
add_byte (some byte) panicked = panicked

-- The bytes of the loop from an index on, the lowest first: disjoint bits are added.
pub read_raw : List ℕ → Intx ℕ
read_raw [] = parsed 0
read_raw (a ∷ []) = parsed 0
read_raw (a ∷ b ∷ rest) =
    let raw = read_raw rest in
    if continues a || starts_inside rest then panicked else add_byte (u8_from_str_radix a b) raw

-- `raw as i64`
pub as_i64 : ℕ → ℤ
as_i64 raw = if ltb raw (2 ^ 63) then pos raw else negsuc (2 ^ 64 - 1 - raw)

pub is_negative : ℤ → Bool
is_negative (pos n) = false
is_negative (negsuc n) = true

pub check_sign : ℕ → Intx ℕ → Intx ℤ
check_sign header (parsed raw) =
    if (header == 0x08) && is_negative (as_i64 raw)
    then invalid_sign_extension
    else if (header == 0x88) && not (is_negative (as_i64 raw))
    then invalid_sign_extension
    else parsed (as_i64 raw)
check_sign header not_eight_bytes = not_eight_bytes
check_sign header invalid_header = invalid_header
check_sign header invalid_byte = invalid_byte
check_sign header invalid_sign_extension = invalid_sign_extension
check_sign header panicked = panicked

pub read_header : Option ℕ → Intx ℕ → Intx ℤ
read_header none raw = invalid_header
read_header (some header) raw =
    if (header == 0x08) || (header == 0x88) then check_sign header raw else not_eight_bytes

pub parse_bytes : List ℕ → Intx ℤ
parse_bytes [] = not_eight_bytes
parse_bytes (a ∷ []) = not_eight_bytes
parse_bytes (a ∷ b ∷ rest) =
    if starts_inside rest then panicked else read_header (u8_from_str_radix a b) (read_raw rest)

unfoldable pub parse_carbon_intx_i64_raw : Text → Intx ℤ
unfolding continues starts_inside add_byte read_raw as_i64 is_negative check_sign read_header
    parse_bytes
parse_carbon_intx_i64_raw value =
    let bytes = as_bytes (trim value) in
    if length bytes == 18 then parse_bytes bytes else not_eight_bytes
