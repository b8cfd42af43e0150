-- ===== src/Staking/Intx/Roundtrip.antt =====
-- A Carbon intx of crates/db/src/staking.rs is read back from its writing, which stands here only to
-- state it.
use explorer_backend.Base.{
  Text, [], ap, arith, false, if◌then◌else◌, ltb, refl, some, suc, trim, lt→ltb, zero, ℕ, ◌%◌, ◌*◌,
  ◌+◌, ◌-◌, ◌/◌, ◌<◌, ◌==◌, ◌^◌, ◌∷◌, ◌≡◌, ◌∙◌, nat_eq,
}
use explorer_backend.Base.Int.{negsuc, pos, ℤ}
use explorer_backend.Api.Hex.{as_bytes}
use explorer_backend.Staking.Intx.{
  add_byte, as_i64, check_sign, continues, is_negative, parse_bytes, parse_carbon_intx_i64_raw,
  parsed, read_header, read_raw, starts_inside, to_digit, u8_from_str_radix,
}

pub digit : ℕ → ℕ
digit d = if ltb d 10 then b'0' + d else b'A' + (d - 10)

-- So many bytes of a number, the lowest first.
unfoldable pub bytes_text : ℕ → ℕ → Text
unfolding digit
bytes_text zero n = []
bytes_text (suc k) n = digit (n / 16 % 16) ∷ digit (n % 16) ∷ bytes_text k (n / 256)

unfoldable pub intx_text : ℤ → Text
intx_text (pos n) = b'0' ∷ b'8' ∷ bytes_text 8 n
intx_text (negsuc n) = b'8' ∷ b'8' ∷ bytes_text 8 (2 ^ 64 - 1 - n)

abbrev pub IsInt64 : ℤ → Type 0
IsInt64 (pos n) = n < 2 ^ 63
IsInt64 (negsuc n) = n < 2 ^ 63

-- The numbers of so many bytes.
byte_bound : ℕ → ℕ
byte_bound zero = 1
byte_bound (suc k) = 256 * byte_bound k

to_digit-digit : (d : ℕ) → d < 16 → to_digit (digit d) ≡ some d
unfolding to_digit digit
to_digit-digit d h = ground (arith, h)

digit_low : (d : ℕ) → d < 16 → digit d < 0x80
unfolding digit
digit_low d h = ground (arith, h)

digit_not_plus : (d : ℕ) → d < 16 → (digit d == b'+') ≡ false
unfolding digit
digit_not_plus d h = ground (arith, h)

u8_from_str_radix-digit :
    (h l : ℕ) → h < 16 → l < 16 → u8_from_str_radix (digit h) (digit l) ≡ some (h * 16 + l)
unfolding u8_from_str_radix
u8_from_str_radix-digit h l hh hl =
    rw (digit_not_plus h hh, to_digit-digit h hh, to_digit-digit l hl) refl

continues-digit : (d : ℕ) → d < 16 → continues (digit d) ≡ false
unfolding continues
continues-digit d h = ground (arith, digit_low d h)

starts_inside-bytes_text : (k n : ℕ) → starts_inside (bytes_text k n) ≡ false
unfolding starts_inside bytes_text
starts_inside-bytes_text zero n = refl
starts_inside-bytes_text (suc k) n = continues-digit (n / 16 % 16) (omega arith)

read_raw-bytes_text : (k n : ℕ) → n < byte_bound k → read_raw (bytes_text k n) ≡ parsed n
unfolding read_raw bytes_text byte_bound add_byte
read_raw-bytes_text zero n h = ap parsed (omega (arith, h))
read_raw-bytes_text (suc k) n h =
    let whole : n / 16 % 16 * 16 + n % 16 + 256 * (n / 256) ≡ n = omega arith in
    rw
      (
        continues-digit (n / 16 % 16) (omega arith),
        starts_inside-bytes_text k (n / 256),
        u8_from_str_radix-digit (n / 16 % 16) (n % 16) (omega arith) (omega arith),
        read_raw-bytes_text k (n / 256) (omega (arith, h)),
      )
      (ap parsed whole)

as_bytes-bytes_text : (k n : ℕ) → as_bytes (bytes_text k n) ≡ bytes_text k n
unfolding as_bytes bytes_text
as_bytes-bytes_text zero n = refl
as_bytes-bytes_text (suc k) n =
    rw
      (
        lt→ltb _ _ (digit_low (n / 16 % 16) (omega arith)),
        lt→ltb _ _ (digit_low (n % 16) (omega arith)),
        as_bytes-bytes_text k (n / 256),
      )
      refl

-- A header of two digits and eight bytes.
parse_header :
    (a b n header : ℕ)
    → u8_from_str_radix a b ≡ some header
    → n < 2 ^ 64
    → parse_bytes (a ∷ b ∷ bytes_text 8 n) ≡ read_header (some header) (parsed n)
unfolding parse_bytes byte_bound
parse_header a b n header e h =
    rw (starts_inside-bytes_text 8 n, e, read_raw-bytes_text 8 n (omega (arith, h))) refl

parse_writing :
    (value : Text) (a b n header : ℕ)
    → as_bytes (a ∷ b ∷ bytes_text 8 n) ≡ a ∷ b ∷ as_bytes (bytes_text 8 n)
    → u8_from_str_radix a b ≡ some header
    → n < 2 ^ 64
    → trim value ≡ a ∷ b ∷ bytes_text 8 n
    → parse_carbon_intx_i64_raw value ≡ read_header (some header) (parsed n)
unfolding parse_carbon_intx_i64_raw bytes_text
parse_writing value a b n header plain e h same =
    rw (same, plain, as_bytes-bytes_text 8 n) (parse_header a b n header e h)

read_positive : (n : ℕ) → n < 2 ^ 63 → read_header (some 0x08) (parsed n) ≡ parsed (pos n)
unfolding read_header check_sign as_i64 is_negative
read_positive n h = rw (lt→ltb _ _ h) refl

read_negative :
    (n : ℕ) → n < 2 ^ 63 → read_header (some 0x88) (parsed (2 ^ 64 - 1 - n)) ≡ parsed (negsuc n)
unfolding read_header check_sign as_i64 is_negative
read_negative n h =
    let high : ltb (2 ^ 64 - 1 - n) (2 ^ 63) ≡ false = ground (arith, h) in
    let back : 2 ^ 64 - 1 - (2 ^ 64 - 1 - n) ≡ n = omega (arith, h) in rw (high, back) refl

-- Every text that is the writing of a 64-bit integer, but for spaces around it, is read as that
-- integer.
pub parse_carbon_intx_i64_raw-intx_text :
    (z : ℤ) (value : Text)
    → IsInt64 z
    → trim value ≡ intx_text z
    → parse_carbon_intx_i64_raw value ≡ parsed z
unfolding intx_text as_bytes u8_from_str_radix to_digit
parse_carbon_intx_i64_raw-intx_text (pos n) value h e =
    parse_writing value b'0' b'8' n 0x08 refl refl (omega (arith, h)) e ∙ read_positive n h
parse_carbon_intx_i64_raw-intx_text (negsuc n) value h e =
    parse_writing value b'8' b'8' (2 ^ 64 - 1 - n) 0x88 refl refl (omega arith) e
    ∙ read_negative n h
