-- ===== src/Api/Integers.antt =====
-- `str::parse` of an integer reads back what `to_string` prints (used throughout
-- crates/http-api/src/support.rs and crates/http-api/src/lib.rs).
use mathlib.Core.List.{append_assoc, append-nil}
use explorer_backend.Base.{
  All, All-append, Bool-cases, Text, [], ap, arith, digits_of, false, inl, inr, ltb, refl, subst,
  suc, sym, to_string, to_string_signed, true, zero, ℕ, ◌%◌, ◌*◌, ◌++◌, ◌+◌, ◌-◌, ◌/◌, ◌<◌, ◌==◌,
  ◌^◌, ◌∙◌, ◌∷◌, ◌≡◌, ◌≤◌, nat_eq,
}
use explorer_backend.Base.Int.{negsuc, pos, ℤ}
use explorer_backend.Api.{
  InWidth, ParseIntError, is_digit, minus, neg_overflow, parse_digits, parse_int, parsed,
  pos_overflow,
}

parse_step :
    (overflow : ParseIntError) (result : ℕ → ℤ) (bound acc d : ℕ) (s : Text)
    → d < 10
    → acc * 10 + d ≤ bound
    → parse_digits overflow result bound acc ((b'0' + d) ∷ s)
      ≡ parse_digits overflow result bound (acc * 10 + d) s
unfolding parse_digits
parse_step overflow result bound acc d s small fits =
    rw (digit_of d small, shown d, not_above (acc * 10 + d) bound fits) refl
  where
    shown : (d : ℕ) → b'0' + d - b'0' ≡ d
    shown d = omega arith

    digit_of : (d : ℕ) → d < 10 → is_digit (b'0' + d) ≡ true
    digit_of d small = ground arith

    not_above : (a b : ℕ) → a ≤ b → ltb b a ≡ false
    not_above a b le = ground arith

parse_digits-digits_of :
    (fuel n bound : ℕ) (overflow : ParseIntError) (result : ℕ → ℤ) (s : Text)
    → n < fuel
    → n ≤ bound
    → parse_digits overflow result bound 0 (digits_of fuel n ++ s)
      ≡ parse_digits overflow result bound n s
unfolding digits_of
parse_digits-digits_of zero n bound overflow result s enough fits = absurd (omega arith)
parse_digits-digits_of (suc fuel) n bound overflow result s enough fits =
    elim (Bool-cases (ltb n 10)) [
      | inl small ↦ rw small (
          parse_step overflow result bound 0 n s (ground (arith, small)) (omega arith)
          ∙ ap (λ m. parse_digits overflow result bound m s) (nothing_before n))
      | inr large ↦ rw large (
          ap (parse_digits overflow result bound 0)
            (append_assoc (digits_of fuel (n / 10)) ((b'0' + n % 10) ∷ []) s)
          ∙ parse_digits-digits_of fuel (n / 10) bound overflow result ((b'0' + n % 10) ∷ s)
              (ground (arith, large)) (omega arith)
          ∙ parse_step overflow result bound (n / 10) (n % 10) s (omega arith) (omega arith)
          ∙ ap (λ m. parse_digits overflow result bound m s) (whole n))
    ]
  where
    whole : (n : ℕ) → n / 10 * 10 + n % 10 ≡ n
    whole n = omega arith

    nothing_before : (n : ℕ) → 0 * 10 + n ≡ n
    nothing_before n = omega arith

-- A printed number is not empty and has digits only.
abbrev pub Digits : Text → Type 0
Digits s = All (λ c. (b'0' ≤ c) × (c ≤ b'9')) s

digits_of-Digits : (fuel n : ℕ) → Digits (digits_of fuel n)
unfolding digits_of
digits_of-Digits zero n = tt
digits_of-Digits (suc fuel) n = elim (Bool-cases (ltb n 10)) [
  | inl small ↦ rw small ((omega arith, ground (arith, small)), tt)
  | inr large ↦ rw large (
      All-append (λ c. (b'0' ≤ c) × (c ≤ b'9')) (digits_of fuel (n / 10)) ((b'0' + n % 10) ∷ [])
        (digits_of-Digits fuel (n / 10)) ((omega arith, omega arith), tt))
]

pub to_string-Digits : (n : ℕ) → Digits (to_string n)
unfolding to_string
to_string-Digits n = digits_of-Digits (suc n) n

append-cons : (xs : Text) (c : ℕ) → (d : ℕ) × (ds : Text) × (xs ++ (c ∷ []) ≡ d ∷ ds)
append-cons [] c = (c, [], refl)
append-cons (x ∷ xs) c = (x, xs ++ (c ∷ []), refl)

digits_of-cons : (fuel n : ℕ) → (d : ℕ) × (ds : Text) × (digits_of (suc fuel) n ≡ d ∷ ds)
unfolding digits_of
digits_of-cons fuel n = elim (Bool-cases (ltb n 10)) [
  | inl small ↦ rw small (b'0' + n, [], refl)
  | inr large ↦ rw large (append-cons (digits_of fuel (n / 10)) (b'0' + n % 10))
]

no_minus : (c : ℕ) → b'0' ≤ c → (c == b'-') ≡ false
no_minus c digit = ground arith

no_plus : (c : ℕ) → b'0' ≤ c → (c == b'+') ≡ false
no_plus c digit = ground arith

-- Without a sign the digits are read as they are.
parse_int-plain :
    (bits c : ℕ) (cs : Text)
    → b'0' ≤ c
    → parse_int bits (c ∷ cs) ≡ parse_digits pos_overflow pos (2 ^ (bits - 1) - 1) 0 (c ∷ cs)
unfolding parse_int
parse_int-plain bits c [] digit = rw (no_minus c digit, no_plus c digit) refl
parse_int-plain bits c (d ∷ ds) digit = rw (no_minus c digit, no_plus c digit) refl

parse_printed :
    (overflow : ParseIntError) (result : ℕ → ℤ) (bound n : ℕ)
    → n ≤ bound
    → parse_digits overflow result bound 0 (to_string n) ≡ parsed (result n)
unfolding to_string parse_digits
parse_printed overflow result bound n fits =
    ap (parse_digits overflow result bound 0) (sym (append-nil (digits_of (suc n) n)))
    ∙ parse_digits-digits_of (suc n) n bound overflow result [] (omega arith) fits

-- Printing an integer of a width and parsing it with that width gives it back.
pub parse_int-to_string_signed :
    (bits : ℕ) (z : ℤ) → InWidth bits z → parse_int bits (to_string_signed z) ≡ parsed z
unfolding to_string_signed to_string parse_int
parse_int-to_string_signed bits (pos n) (high, low) =
    let (d, ds, e) = digits_of-cons n n in
    let digit = (subst Digits e (to_string-Digits n)).0.0 in
    ap (parse_int bits) e
    ∙ parse_int-plain bits d ds digit
    ∙ ap (parse_digits pos_overflow pos (2 ^ (bits - 1) - 1) 0) (sym e)
    ∙ parse_printed pos_overflow pos (2 ^ (bits - 1) - 1) n high
parse_int-to_string_signed bits (negsuc n) (high, low) =
    let (d, ds, e) = digits_of-cons (suc n) (suc n) in
    ap (λ s. parse_int bits (b'-' ∷ s)) e
    ∙ ap (parse_digits neg_overflow minus (2 ^ (bits - 1)) 0) (sym e)
    ∙ parse_printed neg_overflow minus (2 ^ (bits - 1)) (suc n) low
