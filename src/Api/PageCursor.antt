-- ===== src/Api/PageCursor.antt =====
-- `PageCursor` of crates/http-api/src/lib.rs: the cursor of lists that seek on a sort value and an ID.
use explorer_backend.Base.{
  All, Option, Text, [], arith, if◌then◌else◌, none, refl, some, suc, text_beq, to_string,
  to_string_signed, ◌++◌, ◌∷◌, ◌≡◌, ◌≢◌, nat_eq,
}
use explorer_backend.Base.Int.{negsuc, pos, ℤ}
use explorer_backend.Api.{
  Answer, InWidth, bad, expected_page, expected_payload, invalid_id, invalid_sort_value, ok, or_bad,
  parse_int, split_once, wrong_cursor_kind, ◌>>=◌,
}
use explorer_backend.Api.Integers.{Digits, parse_int-to_string_signed, to_string-Digits}

pub record PageCursor : Type 0 where
  pub sort_value : ℤ
  pub id : ℤ

parse_id : ℤ → Text → Answer PageCursor
parse_id sort_value id = do
  i ← or_bad invalid_id (parse_int 32 id)
  ok (record { sort_value = sort_value; id = i })

parse_payload : Option (Text × Text) → Answer PageCursor
parse_payload none = bad expected_payload
parse_payload (some (sort_value, id)) = do
  v ← or_bad invalid_sort_value (parse_int 64 sort_value)
  parse_id v id

parse_kind : Option (Text × Text) → Text → Answer PageCursor
parse_kind none expected_kind = bad expected_page
parse_kind (some (kind, payload)) expected_kind =
    if text_beq kind expected_kind
    then parse_payload (split_once b':' payload)
    else bad (wrong_cursor_kind expected_kind)

unfoldable pub parse : Text → Text → Answer PageCursor
unfolding parse_kind parse_payload parse_id
parse value expected_kind = parse_kind (split_once b':' value) expected_kind

unfoldable pub parse_optional : Option Text → Text → Answer (Option PageCursor)
parse_optional none expected_kind = ok none
parse_optional (some value) expected_kind = parse value expected_kind >>= λ cursor. ok (some cursor)

unfoldable pub encode : PageCursor → Text → Text
encode cursor kind =
    kind ++ b':' ∷ (to_string_signed cursor.sort_value ++ b':' ∷ to_string_signed cursor.id)

-- No colon stands in the text.
abbrev pub NoColon : Text → Type 0
NoColon s = All (λ c. c ≢ b':') s

split_once-append : (s t : Text) → NoColon s → split_once b':' (s ++ b':' ∷ t) ≡ some (s, t)
unfolding split_once
split_once-append [] t free = refl
split_once-append (c ∷ s) t (here, free) = rw (split_once-append s t free) (ground (arith, here))

Digits-NoColon : (s : Text) → Digits s → NoColon s
Digits-NoColon [] digits = tt
Digits-NoColon (c ∷ s) (digit, digits) = (λ e. omega (arith, digit, e), Digits-NoColon s digits)

printed-NoColon : (z : ℤ) → NoColon (to_string_signed z)
unfolding to_string_signed
printed-NoColon (pos n) = Digits-NoColon (to_string n) (to_string-Digits n)
printed-NoColon (negsuc n) =
    (λ e. omega (arith, e), Digits-NoColon (to_string (suc n)) (to_string-Digits (suc n)))

-- A cursor of any sort value of 64 bits and ID of 32 bits is read back, from its text, under the
-- kind that it was written with, and refused under any other, where the kind has no colon.
pub parse-encode :
    (cursor : PageCursor) (kind expected_kind : Text)
    → NoColon kind
    → InWidth 64 cursor.sort_value
    → InWidth 32 cursor.id
    → parse (encode cursor kind) expected_kind
      ≡ (if text_beq kind expected_kind then ok cursor else bad (wrong_cursor_kind expected_kind))
unfolding parse encode
parse-encode cursor kind expected_kind free value_fits id_fits =
    rw
      (
        split_once-append kind
            (to_string_signed cursor.sort_value ++ b':' ∷ to_string_signed cursor.id) free,
        split_once-append (to_string_signed cursor.sort_value) (to_string_signed cursor.id)
            (printed-NoColon cursor.sort_value),
        parse_int-to_string_signed 64 cursor.sort_value value_fits,
        parse_int-to_string_signed 32 cursor.id id_fits,
      )
      refl
