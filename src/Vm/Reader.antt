-- ===== src/Vm/Reader.antt =====
-- `VmScriptReader` of crates/http-api/src/support.rs. A method that takes `&mut self` and returns a
-- `Result` is a function from the reader to the value with the next reader, or to the error.
use explorer_backend.Base.{
  Bool, List, Option, Text, codes, drop, get_elem?, if◌then◌else◌, leb, length, ltb, max, none,
  some, suc, take, zero, ℕ, ◌%◌, ◌*◌, ◌+◌, ◌-◌, ◌==◌, ◌^◌,
}
use explorer_backend.Base.Int.{negsuc, pos, ℤ}

-- `ApiError::BadRequest`; `exhausted` is not a result of the program but a loop without fuel.
pub data Result {ℓ} (A : Type ℓ) : Type ℓ where
  ok : A → Result A
  bad_request : Text → Result A
  exhausted : Result A

pub record VmScriptReader : Type 0 where
  pub bytes : List ℕ
  pub position : ℕ

abbrev pub Reads {ℓ} : Type ℓ → Type ℓ
Reads A = VmScriptReader → Result (A × VmScriptReader)

abbrev pub continue_with {ℓ κ} :
    {A : Type ℓ} {B : Type κ}
    → Result (A × VmScriptReader)
    → (A → Reads B)
    → Result (B × VmScriptReader)
continue_with (ok (value, r)) f = f value r
continue_with (bad_request message) f = bad_request message
continue_with exhausted f = exhausted

infixl 5 ◌>>=◌
abbrev pub ◌>>=◌ {ℓ κ} : {A : Type ℓ} {B : Type κ} → Reads A → (A → Reads B) → Reads B
(m >>= f) r = continue_with (m r) f

abbrev pub pure {ℓ} : {A : Type ℓ} → A → Reads A
pure value r = ok (value, r)

abbrev pub outside_of_range : Text
outside_of_range = codes "Constraint failed: Outside of range"

abbrev pub input_exceed_max : Text
input_exceed_max = codes "Constraint failed: Input exceed max"

unfoldable pub new_reader : List ℕ → VmScriptReader
new_reader bytes = record { bytes = bytes; position = 0 }

unfoldable pub has_more : VmScriptReader → Bool
has_more r = ltb r.position (length r.bytes)

abbrev pub advance : ℕ → VmScriptReader → VmScriptReader
advance n r = record r { position = r.position + n }

abbrev pub byte_at : Option ℕ → Reads ℕ
byte_at none r = bad_request outside_of_range
byte_at (some value) r = ok (value, advance 1 r)

unfoldable pub read_u8 : Reads ℕ
read_u8 r = byte_at (get_elem? r.bytes r.position) r

unfoldable pub read_u16 : Reads ℕ
read_u16 = do a ← read_u8; b ← read_u8; pure (a + b * 2 ^ 8)

-- `value as i16`
abbrev pub as_i16 : ℕ → ℤ
as_i16 value =
    if ltb (value % 2 ^ 16) (2 ^ 15)
    then pos (value % 2 ^ 16)
    else negsuc (2 ^ 16 - 1 - value % 2 ^ 16)

unfoldable pub read_i16 : Reads ℤ
read_i16 = do value ← read_u16; pure (as_i16 value)

unfoldable pub read_u32 : Reads ℕ
read_u32 = do
  a ← read_u8
  b ← read_u8
  c ← read_u8
  d ← read_u8
  pure (a + b * 2 ^ 8 + c * 2 ^ 16 + d * 2 ^ 24)

-- The loop of `read_u64` with the shifts that are left.
unfoldable pub read_shifted : ℕ → ℕ → ℕ → Reads ℕ
read_shifted value shift zero = pure value
read_shifted value shift (suc left) = do
  byte ← read_u8
  read_shifted (value + byte * 2 ^ shift) (shift + 8) left

unfoldable pub read_u64 : Reads ℕ
unfolding read_shifted
read_u64 = read_shifted 0 0 8

abbrev pub read_marked : ℕ → Reads ℕ
read_marked marker =
    if marker == 0xfd
    then read_u16
    else if marker == 0xfe
    then read_u32
    else if marker == 0xff
    then read_u64
    else pure marker

abbrev pub at_most : ℕ → ℕ → Reads ℕ
at_most max value r = if ltb max value then bad_request input_exceed_max else ok (value, r)

unfoldable pub read_var : ℕ → Reads ℕ
read_var max = do marker ← read_u8; value ← read_marked marker; at_most max value

-- A read that ends at the last byte is refused.
unfoldable pub read_bytes : ℕ → Reads (List ℕ)
read_bytes n r =
    if leb (length r.bytes) (r.position + n)
    then bad_request outside_of_range
    else ok (take n (drop r.position r.bytes), advance n r)
