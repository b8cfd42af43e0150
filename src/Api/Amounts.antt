-- ===== src/Api/Amounts.antt =====
-- `format_token_amount` of crates/http-api/src/support.rs: raw token amounts with a decimal point.
pub mod Shows
use explorer_backend.Base.{
  Bool, Option, Text, [], all, codes, drop, if◌then◌else◌, is_empty, leb, length, none, replicate,
  some, take, text_beq, trim, trim_end_if, ℕ, ◌++◌, ◌-◌, ◌==◌, ◌||◌, ◌∷◌, nat_eq,
}
use explorer_backend.Api.{is_digit}

abbrev is_zero : ℕ → Bool
is_zero c = c == b'0'

unfoldable pub trim_zeros : Text → Text
unfolding trim_end_if
trim_zeros s = trim_end_if is_zero s

unfoldable pub with_point : Text → Text → Text
with_point whole decimal_part =
    if is_empty decimal_part then whole else whole ++ b'.' ∷ decimal_part

-- The digits without a sign.
unfoldable pub format_digits : Text → ℕ → Text
format_digits digits token_decimals =
    if leb (length digits) token_decimals
    then with_point (codes "0")
        (trim_zeros (replicate (token_decimals - length digits) b'0' ++ digits))
    else let decimal_start = length digits - token_decimals in
      with_point (take decimal_start digits) (trim_zeros (drop decimal_start digits))

-- What follows a minus, if there is one.
unfoldable pub after_minus : Text → Option Text
after_minus [] = none
after_minus (c ∷ s) = if c == b'-' then some s else none

format_signed : Text → Option Text → ℕ → Text
format_signed amount none token_decimals =
    if all is_digit amount then format_digits amount token_decimals else amount
format_signed amount (some digits) token_decimals =
    let formatted = format_digits digits token_decimals in
    if all is_digit digits
    then (if text_beq formatted (codes "0") then formatted else b'-' ∷ formatted)
    else amount

unfoldable pub format_token_amount : Text → ℕ → Text
unfolding format_signed
format_token_amount value token_decimals =
    let amount = trim value in
    if text_beq amount (codes "0") || (token_decimals == 0)
    then amount
    else format_signed amount (after_minus amount) token_decimals
