-- ===== src/Api/OffsetCursor.antt =====
-- `OffsetCursor` of crates/http-api/src/lib.rs: the cursor of lists that are paged by offset.
use explorer_backend.Base.{
  Option, Text, ap, arith, codes, none, some, to_string_signed, ℕ, ◌++◌, ◌<◌, ◌^◌, ◌≡◌, nat_eq,
}
use explorer_backend.Base.Int.{negsuc, pos, ℤ}
use explorer_backend.Api.{
  Answer, bad, expected_offset, invalid_offset, negative_offset_cursor, ok, or_bad, parse_int,
  strip_prefix, ◌>>=◌,
}
use explorer_backend.Api.Integers.{parse_int-to_string_signed}

abbrev not_negative : ℤ → Answer ℤ
not_negative (pos n) = ok (pos n)
not_negative (negsuc n) = bad negative_offset_cursor

parse_payload : Option Text → Answer ℤ
parse_payload none = bad expected_offset
parse_payload (some payload) = or_bad invalid_offset (parse_int 64 payload) >>= not_negative

unfoldable pub parse : Text → Answer ℤ
unfolding parse_payload
parse value = parse_payload (strip_prefix (codes "offset:") value)

unfoldable pub parse_optional : Option Text → Answer ℤ
parse_optional none = ok (pos 0)
parse_optional (some value) = parse value

unfoldable pub encode : ℤ → Text
encode offset = codes "offset:" ++ to_string_signed offset

-- An offset that an `i64` holds is read back from its cursor.
pub parse_optional-encode :
    (offset : ℕ) → offset < 2 ^ 63 → parse_optional (some (encode (pos offset))) ≡ ok (pos offset)
unfolding parse_optional parse encode strip_prefix
parse_optional-encode offset fits =
    ap (λ r. or_bad invalid_offset r >>= not_negative)
      (parse_int-to_string_signed 64 (pos offset) (omega arith, omega arith))
