-- ===== src/Api/Tests.antt =====
-- Values of the HTTP API (crates/http-api/src/support.rs and crates/http-api/src/lib.rs) at inputs of
-- its tests and the like.
use explorer_backend.Api.OffsetPages
use explorer_backend.Api.PageCursor
use explorer_backend.Base.{
  List, Text, [], arith, codes, drop, if◌then◌else◌, map, none, refl, some, take, text_beq,
  to_ascii_lowercase, to_string_signed, trim, ℕ, ◌<◌, ◌↔◌, ◌∷◌, ◌≡◌, nat_eq,
}
use explorer_backend.Base.Int.{negsuc, pos, ℤ}
use explorer_backend.Api.{bad, ok, wrong_cursor_kind}
use explorer_backend.Api.Hex.{
  Bytes, as_bytes, decode_chunks, decode_hex_field, decode_hex_field_iff, hex_nibble, hex_of,
  without_prefix,
}
use explorer_backend.Api.Amounts.{
  after_minus, format_digits, format_token_amount, trim_zeros, with_point,
}
use explorer_backend.Api.Amounts.Shows.{Shows, format_token_amount-Shows}

abbrev cursor : PageCursor.PageCursor
cursor = record { sort_value = negsuc 41; id = pos 7 }

tx-NoColon : PageCursor.NoColon (codes "tx")
tx-NoColon = ((λ e. omega (arith, e)), ((λ e. omega (arith, e)), tt))

parse-encode_example : PageCursor.parse (PageCursor.encode cursor (codes "tx")) (codes "tx") ≡ (
    if text_beq (codes "tx") (codes "tx") then ok cursor else bad (wrong_cursor_kind (codes "tx")))
parse-encode_example =
    PageCursor.parse-encode cursor (codes "tx") (codes "tx") tx-NoColon (omega arith, omega arith)
      (omega arith, omega arith)

encoded : PageCursor.encode cursor (codes "tx") ≡ codes "tx:-42:7"
unfolding PageCursor.encode to_string_signed
encoded = refl

abbrev five : List ℕ
five = 1 ∷ 2 ∷ 3 ∷ 4 ∷ 5 ∷ []

abbrev list_five : ℤ → ℤ → List ℕ
list_five (pos limit) (pos offset) = take limit (drop offset five)
list_five (pos limit) (negsuc offset) = []
list_five (negsuc limit) offset = []

-- Pages of two.
all_pages_complete_example : OffsetPages.all_pages list_five (some (pos 2)) 5 none ≡ some (ok five)
all_pages_complete_example =
    OffsetPages.all_pages_complete list_five five (some (pos 2)) (λ limit offset. refl)
      (omega arith)

decode_hex_field_iff_example :
    (decode_hex_field (codes " 0xC0fe ") (codes "script_raw") ≡ ok (0xc0 ∷ 0xfe ∷ [])) ↔ (
      Bytes (0xc0 ∷ 0xfe ∷ [])
      × (map to_ascii_lowercase (as_bytes (without_prefix (codes " 0xC0fe ")))
          ≡ hex_of (0xc0 ∷ 0xfe ∷ [])))
decode_hex_field_iff_example =
    decode_hex_field_iff (codes " 0xC0fe ") (codes "script_raw") (0xc0 ∷ 0xfe ∷ [])

decoded : decode_hex_field (codes " 0xC0fe ") (codes "script_raw") ≡ ok (0xc0 ∷ 0xfe ∷ [])
unfolding decode_hex_field decode_chunks hex_nibble as_bytes without_prefix trim
decoded = refl

format_token_amount-Shows_example :
    Shows (codes "1230000") 8 (format_token_amount (codes "1230000") 8)
    × (0 < 8
        → (amount : Text) × Shows (codes "1230000") 8 amount
          × (format_token_amount (codes "-1230000") 8
              ≡ (if text_beq amount (codes "0") then amount else b'-' ∷ amount)))
format_token_amount-Shows_example = format_token_amount-Shows (codes "1230000") 8 refl refl

formatted : format_token_amount (codes "-1230000") 8 ≡ codes "-0.0123"
unfolding format_token_amount trim format_digits trim_zeros with_point after_minus
formatted = refl
