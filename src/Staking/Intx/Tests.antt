-- ===== src/Staking/Intx/Tests.antt =====
-- The result of an inflation (crates/db/src/staking.rs), a negative one, and texts that are not read.
use explorer_backend.Base.{codes, refl, trim, ◌≡◌, arith, nat_eq}
use explorer_backend.Base.Int.{negsuc, pos}
use explorer_backend.Api.Hex.{as_bytes}
use explorer_backend.Staking.Intx.{
  invalid_sign_extension, panicked, parse_carbon_intx_i64_raw, parsed, to_digit, u8_from_str_radix,
}
use explorer_backend.Staking.Intx.Roundtrip.{
  bytes_text, intx_text, parse_carbon_intx_i64_raw-intx_text,
}

parse_carbon_intx_i64_raw-intx_text_example :
    parse_carbon_intx_i64_raw (codes " 080000C16FF2862300 ") ≡ parsed (pos 10000000000000000)
unfolding intx_text bytes_text trim
parse_carbon_intx_i64_raw-intx_text_example =
    parse_carbon_intx_i64_raw-intx_text (pos 10000000000000000) (codes " 080000C16FF2862300 ")
      (omega arith) refl

source_example :
    parse_carbon_intx_i64_raw (codes "088AF5DD19852C0000") ≡ parsed (pos 48950176249226)
unfolding parse_carbon_intx_i64_raw as_bytes to_digit u8_from_str_radix trim
source_example = refl

minus_one : parse_carbon_intx_i64_raw (codes "88FFFFFFFFFFFFFFFF") ≡ parsed (negsuc 0)
unfolding parse_carbon_intx_i64_raw as_bytes to_digit u8_from_str_radix trim
minus_one = refl

wrong_sign : parse_carbon_intx_i64_raw (codes "08FFFFFFFFFFFFFFFF") ≡ invalid_sign_extension
unfolding parse_carbon_intx_i64_raw as_bytes to_digit u8_from_str_radix trim
wrong_sign = refl

-- The second byte's slice starts inside of a character of two bytes.
split_character : parse_carbon_intx_i64_raw (codes "080é0000000000000") ≡ panicked
unfolding parse_carbon_intx_i64_raw as_bytes to_digit u8_from_str_radix trim
split_character = refl
