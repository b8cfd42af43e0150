-- ===== src/Api/Hex.antt =====
-- Encoded bytes in parameters: `decode_hex_field`, `hex_nibble` and `decode_formatted_bytes` of
-- crates/http-api/src/support.rs. Base64 is a parameter.
use explorer_backend.Base.{
  ==_iff, All, Bool, Bool-cases, List, Option, Text, [], any, ap, arith, codes, if◌then◌else◌, inl,
  inr, leb, length, lowercase, ltb, map, none, refl, some, subst, text_beq, to_ascii_lowercase,
  trim, ℕ, ◌%◌, ◌&&◌, ◌*◌, ◌++◌, ◌+◌, ◌-◌, ◌/◌, ◌<◌, ◌==◌, ◌↔◌, ◌∙◌, ◌∷◌, ◌≡◌, nat_eq,
}
use explorer_backend.Api.{
  Answer, bad, not_base16, not_base64, odd_hex, ok, strip_prefix, unsupported_format,
  unsupported_plain, ◌>>=◌,
}

-- The bytes of a code point in UTF-8.
abbrev utf8_char : ℕ → List ℕ
utf8_char c =
    if ltb c 0x80
    then c ∷ []
    else if ltb c 0x800
    then (0xc0 + c / 0x40) ∷ (0x80 + c % 0x40) ∷ []
    else if ltb c 0x10000
    then (0xe0 + c / 0x1000) ∷ (0x80 + c / 0x40 % 0x40) ∷ (0x80 + c % 0x40) ∷ []
    else (0xf0 + c / 0x40000)
      ∷ (0x80 + c / 0x1000 % 0x40)
      ∷ (0x80 + c / 0x40 % 0x40)
      ∷ (0x80 + c % 0x40)
      ∷ []

unfoldable pub as_bytes : Text → List ℕ
as_bytes [] = []
as_bytes (c ∷ s) = utf8_char c ++ as_bytes s

unfoldable pub hex_nibble : ℕ → Text → Answer ℕ
hex_nibble value field =
    if leb b'0' value && leb value b'9'
    then ok (value - b'0')
    else if leb b'a' value && leb value b'f'
    then ok (value - b'a' + 10)
    else if leb b'A' value && leb value b'F'
    then ok (value - b'A' + 10)
    else bad (not_base16 field)

-- The chunks of two bytes; both nibbles are below 16.
unfoldable pub decode_chunks : List ℕ → Text → Answer (List ℕ)
decode_chunks [] field = ok []
decode_chunks (a ∷ []) field = ok []
decode_chunks (a ∷ b ∷ rest) field = do
  hi ← hex_nibble a field
  lo ← hex_nibble b field
  bytes ← decode_chunks rest field
  ok ((hi * 16 + lo) ∷ bytes)

abbrev or_else : Option Text → Option Text → Option Text
or_else none t = t
or_else (some s) t = some s

abbrev unwrap_or : Text → Option Text → Text
unwrap_or s none = s
unwrap_or s (some t) = t

unfoldable pub without_prefix : Text → Text
unfolding strip_prefix
without_prefix value =
    unwrap_or (trim value)
      (or_else (strip_prefix (codes "0x") (trim value)) (strip_prefix (codes "0X") (trim value)))

unfoldable pub decode_hex_field : Text → Text → Answer (List ℕ)
decode_hex_field value field =
    let bytes = as_bytes (without_prefix value) in
    if length bytes % 2 == 0 then decode_chunks bytes field else bad (odd_hex field)

-- Lower-case hexadecimal digits, two for each byte.
abbrev pub hex_char : ℕ → ℕ
hex_char n = if ltb n 10 then b'0' + n else b'a' + (n - 10)

abbrev pub hex_of : List ℕ → Text
hex_of [] = []
hex_of (b ∷ bs) = hex_char (b / 16) ∷ hex_char (b % 16) ∷ hex_of bs

hex_nibble-lower :
    (c n : ℕ) (field : Text)
    → hex_nibble c field ≡ ok n
    → (n < 16) × (to_ascii_lowercase c ≡ hex_char n)
unfolding hex_nibble to_ascii_lowercase
hex_nibble-lower c n field e = ground arith

lower-hex_nibble :
    (c n : ℕ) (field : Text)
    → n < 16
    → to_ascii_lowercase c ≡ hex_char n
    → hex_nibble c field ≡ ok n
unfolding hex_nibble to_ascii_lowercase
lower-hex_nibble c n field small e = ground arith

abbrev pub Bytes : List ℕ → Type 0
Bytes bs = All (λ b. b < 256) bs

-- The parts of a decoded chunk.
record Chunk (a b : ℕ) (rest : List ℕ) (field : Text) (bs : List ℕ) : Type 0 where
  hi : ℕ
  lo : ℕ
  tail : List ℕ
  hi_read : hex_nibble a field ≡ ok hi
  lo_read : hex_nibble b field ≡ ok lo
  tail_read : decode_chunks rest field ≡ ok tail
  whole : (hi * 16 + lo) ∷ tail ≡ bs

decode_chunks-Chunk :
    (a b : ℕ) (rest : List ℕ) (field : Text) (bs : List ℕ) (h l : Answer ℕ) (t : Answer (List ℕ))
    → hex_nibble a field ≡ h
    → hex_nibble b field ≡ l
    → decode_chunks rest field ≡ t
    → ((h >>= λ hi. l >>= λ lo. t >>= λ bytes. ok ((hi * 16 + lo) ∷ bytes)) ≡ ok bs)
    → Chunk a b rest field bs
decode_chunks-Chunk a b rest field bs (ok hi) (ok lo) (ok tail) eh el et e = record {
  hi = hi;
  lo = lo;
  tail = tail;
  hi_read = eh;
  lo_read = el;
  tail_read = et;
  whole = cc e;
}
decode_chunks-Chunk a b rest field bs (bad why) l t eh el et e = absurd (cc e)
decode_chunks-Chunk a b rest field bs (ok hi) (bad why) t eh el et e = absurd (cc e)
decode_chunks-Chunk a b rest field bs (ok hi) (ok lo) (bad why) eh el et e = absurd (cc e)

abbrev Encodes : List ℕ → List ℕ → Type 0
Encodes s bs = Bytes bs × (map to_ascii_lowercase s ≡ hex_of bs)

byte_parts : (hi lo : ℕ) → lo < 16 → ((hi * 16 + lo) / 16 ≡ hi) × ((hi * 16 + lo) % 16 ≡ lo)
byte_parts hi lo h = omega arith

cons_hex :
    (a b hi lo : ℕ) (s tail : List ℕ)
    → (hi < 16) × (to_ascii_lowercase a ≡ hex_char hi)
    → (lo < 16) × (to_ascii_lowercase b ≡ hex_char lo)
    → Encodes s tail
    → Encodes (a ∷ b ∷ s) ((hi * 16 + lo) ∷ tail)
cons_hex a b hi lo s tail (h, eh) (l, el) (bytes, e) = (
  (omega arith, bytes),
  rw ((byte_parts hi lo l).0, (byte_parts hi lo l).1)
      (ap (λ c. c ∷ to_ascii_lowercase b ∷ map to_ascii_lowercase s) eh
        ∙ ap (λ c. hex_char hi ∷ c ∷ map to_ascii_lowercase s) el
        ∙ ap (λ xs. hex_char hi ∷ hex_char lo ∷ xs) e),
)

decode_chunks_sound :
    (s : List ℕ) (field : Text) (bs : List ℕ)
    → length s % 2 ≡ 0
    → decode_chunks s field ≡ ok bs
    → Encodes s bs
unfolding decode_chunks
decode_chunks_sound [] field bs even e =
    let same : [] ≡ bs = cc e in subst (λ xs. Encodes [] xs) same (tt, refl)
decode_chunks_sound (a ∷ []) field bs even e = absurd (omega arith)
decode_chunks_sound (a ∷ b ∷ s) field bs even e =
    let c = decode_chunks-Chunk a b s field bs _ _ _ refl refl refl e in
    subst (λ xs. Encodes (a ∷ b ∷ s) xs) c.whole
      (cons_hex a b c.hi c.lo s c.tail (hex_nibble-lower a c.hi field c.hi_read)
        (hex_nibble-lower b c.lo field c.lo_read)
        (decode_chunks_sound s field c.tail (omega arith) c.tail_read))

decode_chunks_complete :
    (bs s : List ℕ) (field : Text)
    → Encodes s bs
    → (decode_chunks s field ≡ ok bs) × (length s % 2 ≡ 0)
unfolding decode_chunks
decode_chunks_complete [] [] field (bytes, e) = (refl, refl)
decode_chunks_complete [] (a ∷ s) field (bytes, e) = absurd (cc e)
decode_chunks_complete (x ∷ bs) [] field (bytes, e) = absurd (cc e)
decode_chunks_complete (x ∷ bs) (a ∷ []) field (bytes, e) = absurd (cc e)
decode_chunks_complete (x ∷ bs) (a ∷ b ∷ s) field ((byte, bytes), e) =
    let (done, even) = decode_chunks_complete bs s field (bytes, cc e) in
    (
      rw
          (
            lower-hex_nibble a (x / 16) field (omega arith) (cc e),
            lower-hex_nibble b (x % 16) field (omega arith) (cc e),
            done,
          )
          (ap (λ n. ok (n ∷ bs)) (whole x)),
      omega (arith, even),
    )
  where
    whole : (n : ℕ) → n / 16 * 16 + n % 16 ≡ n
    whole n = omega arith

-- A parameter is decoded to some bytes exactly if its text, trimmed and without a 0x before it, is
-- their hexadecimal digits in upper or lower case; so every byte string has its texts, and no text
-- has two.
pub decode_hex_field_iff :
    (value field : Text) (bs : List ℕ)
    → (decode_hex_field value field ≡ ok bs)
      ↔ (Bytes bs × (map to_ascii_lowercase (as_bytes (without_prefix value)) ≡ hex_of bs))
unfolding decode_hex_field
decode_hex_field_iff value field bs = (
  λ e. elim (Bool-cases (length (as_bytes (without_prefix value)) % 2 == 0)) [
    | inl even ↦
        decode_chunks_sound (as_bytes (without_prefix value)) field bs ((==_iff _ _).0 even)
          (rw even at e)
    | inr odd ↦ absurd (cc (rw odd at e))
  ],
  λ h.
      let (done, even) = decode_chunks_complete bs (as_bytes (without_prefix value)) field h in
      rw even done,
)

-- Base64 decoding of a trimmed text, or why it is refused.
module _ (decode_base64 : Text → Option (List ℕ)) where
  abbrev or_not_base64 : Text → Option (List ℕ) → Answer (List ℕ)
  or_not_base64 field none = bad (not_base64 field)
  or_not_base64 field (some bytes) = ok bytes

  abbrev one_of : List Text → Text → Bool
  one_of names s = any (λ name. text_beq s name) names

  unfoldable pub decode_formatted_bytes : Text → Option Text → Text → Bool → Answer (List ℕ)
  decode_formatted_bytes value format field allow_plain =
      let kind = lowercase (trim (unwrap_or (codes "Plain") format)) in
      if one_of (codes "0" ∷ codes "plain" ∷ []) kind
      then (if allow_plain then ok (as_bytes value) else bad (unsupported_plain field))
      else if one_of (codes "1" ∷ codes "base16" ∷ codes "hex" ∷ []) kind
      then decode_hex_field value field
      else if one_of (codes "2" ∷ codes "base64" ∷ []) kind
      then or_not_base64 field (decode_base64 (trim value))
      else bad (unsupported_format field kind)

unfoldable pub is_ed25519_signature_kind : Text → Bool
is_ed25519_signature_kind value =
    let kind = lowercase (trim value) in
    any (λ name. text_beq kind name) (codes "1" ∷ codes "ed25519" ∷ [])
