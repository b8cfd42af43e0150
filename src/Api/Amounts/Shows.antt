-- ===== src/Api/Amounts/Shows.antt =====
-- What `format_token_amount` (crates/http-api/src/support.rs) prints stands for the raw amount over
-- the power of ten of the token's decimals.
use explorer_backend.Base.{
  ==_iff, Bool, Bool-cases, Text, [], all, ap, arith, codes, drop, false, if◌then◌else◌, inl, inr,
  is_empty, is_whitespace, leb, leb→le, length, length-append, length-drop, length-replicate, none,
  refl, replicate, suc, sym, take, take-append-drop, text_beq, text_beq_iff, trim, trim_end_if,
  trim_start_if, true, zero, ℕ, ◌&&◌, ◌*◌, ◌++◌, ◌+◌, ◌-◌, ◌<◌, ◌==◌, ◌^◌, ◌||◌, ◌∙◌, ◌∷◌, ◌≡◌, ◌≤◌,
  nat_eq,
}
use explorer_backend.Api.{is_digit}
use explorer_backend.Api.Amounts.{
  after_minus, format_digits, format_signed, format_token_amount, is_zero, trim_zeros, with_point,
}

-- The number that digits stand for.
abbrev pub number_from : ℕ → Text → ℕ
number_from acc [] = acc
number_from acc (c ∷ s) = number_from (acc * 10 + (c - b'0')) s

abbrev pub number : Text → ℕ
number s = number_from 0 s

number_from_lem : (acc : ℕ) (s : Text) → number_from acc s ≡ acc * 10 ^ length s + number s
number_from_lem acc [] = omega arith
number_from_lem acc (c ∷ s) =
    number_from_lem (acc * 10 + (c - b'0')) s
    ∙ shift acc (c - b'0') (10 ^ length s) (number s)
    ∙ ap (λ n. acc * n + (0 * 10 + (c - b'0')) * 10 ^ length s + number s) (power (length s))
    ∙ regroup (acc * 10 ^ suc (length s)) _ _
    ∙ ap (λ n. acc * 10 ^ suc (length s) + n) (sym (number_from_lem (0 * 10 + (c - b'0')) s))
  where
    shift : (a v p n : ℕ) → (a * 10 + v) * p + n ≡ a * (10 * p) + (0 * 10 + v) * p + n
    shift a v p n = grind arith

    power : (k : ℕ) → 10 * 10 ^ k ≡ 10 ^ suc k
    power k = omega arith

    regroup : (a b c : ℕ) → a + b + c ≡ a + (b + c)
    regroup a b c = omega arith

number-append : (s t : Text) → number (s ++ t) ≡ number s * 10 ^ length t + number t
number-append s t = split s 0 t ∙ number_from_lem (number s) t
  where
    split :
        (s : Text) (acc : ℕ) (t : Text)
        → number_from acc (s ++ t) ≡ number_from (number_from acc s) t
    split [] acc t = refl
    split (c ∷ s) acc t = split s (acc * 10 + (c - b'0')) t

number-zeros : (k : ℕ) → number (replicate k b'0') ≡ 0
number-zeros zero = refl
number-zeros (suc k) = number-zeros k

abbrev pub ends_in_zero : Text → Bool
ends_in_zero [] = false
ends_in_zero (c ∷ []) = c == b'0'
ends_in_zero (c ∷ d ∷ s) = ends_in_zero (d ∷ s)

-- Trimming takes off zeros only, and all of them.
record Trims (s t : Text) : Type 0 where
  zeros : ℕ
  padded : s ≡ t ++ replicate zeros b'0'
  clean : ends_in_zero t ≡ false

trim_step :
    (c : ℕ) (s t : Text) → Trims s t → Trims (c ∷ s) (if is_empty t && is_zero c then [] else c ∷ t)
trim_step c s [] h = elim (Bool-cases (is_zero c)) [
  | inl zero_here ↦ rw zero_here (record {
    zeros = suc h.zeros;
    padded =
        ap (λ xs. c ∷ xs) h.padded
        ∙ ap (λ x. x ∷ replicate h.zeros b'0') ((==_iff c b'0').0 zero_here);
    clean = refl;
  })
  | inr other_digit ↦
      rw other_digit
        (record { zeros = h.zeros; padded = ap (λ xs. c ∷ xs) h.padded; clean = other_digit })
]
trim_step c s (d ∷ t) h = record {
  zeros = h.zeros;
  padded = ap (λ xs. c ∷ xs) h.padded;
  clean = h.clean;
}

trim_zeros-Trims : (s : Text) → Trims s (trim_zeros s)
unfolding trim_zeros trim_end_if
trim_zeros-Trims [] = record { zeros = 0; padded = refl; clean = refl }
trim_zeros-Trims (c ∷ s) = trim_step c s (trim_zeros s) (trim_zeros-Trims s)

-- A printed amount: its whole part, and after a point, if it is not empty, a decimal part without
-- zeros at its end, which together stand for the raw amount over the power of ten.
pub record Shows (digits : Text) (token_decimals : ℕ) (shown : Text) : Type 0 where
  pub whole : Text
  pub decimal_part : Text
  pub written : shown ≡ (if is_empty decimal_part then whole else whole ++ b'.' ∷ decimal_part)
  pub some_whole : is_empty whole ≡ false
  pub short : length decimal_part ≤ token_decimals
  pub clean : ends_in_zero decimal_part ≡ false
  pub same_number :
      number whole * 10 ^ token_decimals
        + number decimal_part * 10 ^ (token_decimals - length decimal_part)
      ≡ number digits

decimals :
    (rest cut : Text) (d zeros : ℕ)
    → rest ≡ cut ++ replicate zeros b'0'
    → length cut + zeros ≡ d
    → number cut * 10 ^ (d - length cut) ≡ number rest
decimals rest cut d zeros padded lengths =
    ap (λ k. number cut * 10 ^ k) (left d (length cut) zeros lengths)
    ∙ nothing_more _
    ∙ ap (λ n. number cut * 10 ^ zeros + n) (sym (number-zeros zeros))
    ∙ ap (λ k. number cut * 10 ^ k + number (replicate zeros b'0'))
        (sym (length-replicate {A = ℕ} zeros b'0'))
    ∙ sym (number-append cut (replicate zeros b'0'))
    ∙ ap number (sym padded)
  where
    left : (d c z : ℕ) → c + z ≡ d → d - c ≡ z
    left d c z e = omega arith

    nothing_more : (n : ℕ) → n ≡ n + 0
    nothing_more n = omega arith

-- Digits split where the decimals start, the second part as long as the decimals.
split-Shows :
    (digits whole rest : Text) (token_decimals : ℕ)
    → is_empty whole ≡ false
    → length rest ≡ token_decimals
    → number digits ≡ number whole * 10 ^ token_decimals + number rest
    → Shows digits token_decimals (with_point whole (trim_zeros rest))
unfolding with_point
split-Shows digits whole rest token_decimals not_empty long e =
    let t = trim_zeros-Trims rest in
    let cut = trim_zeros rest in
    let lengths : length cut + t.zeros ≡ token_decimals = omega (
      arith,
      length-append cut (replicate t.zeros b'0'),
      length-replicate {A = ℕ} t.zeros b'0',
      ap length t.padded,
      long,
    ) in
    record {
      whole = whole;
      decimal_part = cut;
      written = refl;
      some_whole = not_empty;
      short = omega (arith, lengths);
      clean = t.clean;
      same_number =
          ap (λ n. number whole * 10 ^ token_decimals + n)
            (decimals rest cut token_decimals t.zeros t.padded lengths)
          ∙ sym e;
    }

zeros_first : (k : ℕ) (s : Text) → number (replicate k b'0' ++ s) ≡ number s
zeros_first k s =
    number-append (replicate k b'0') s
    ∙ ap (λ n. n * 10 ^ length s + number s) (number-zeros k)
    ∙ nothing_before (10 ^ length s) (number s)
  where
    nothing_before : (p n : ℕ) → 0 * p + n ≡ n
    nothing_before p n = omega arith

take-not_empty : (n : ℕ) (s : Text) → 0 < n → is_empty s ≡ false → is_empty (take n s) ≡ false
take-not_empty zero s h e = absurd (omega arith)
take-not_empty (suc n) [] h e = e
take-not_empty (suc n) (c ∷ s) h e = refl

cut_length : (s : Text) (d : ℕ) → d < length s → length (drop (length s - d) s) ≡ d
cut_length s d h = omega (arith, length-drop (length s - d) s)

format_digits-Shows :
    (digits : Text) (token_decimals : ℕ)
    → is_empty digits ≡ false
    → Shows digits token_decimals (format_digits digits token_decimals)
unfolding format_digits
format_digits-Shows digits d some_digit = elim (Bool-cases (leb (length digits) d)) [
  | inl small ↦ rw small (
      split-Shows digits (codes "0") (replicate (d - length digits) b'0' ++ digits) d refl
        (omega (
          arith,
          leb→le (length digits) d small,
          length-append (replicate (d - length digits) b'0') digits,
          length-replicate {A = ℕ} (d - length digits) b'0',
        ))
        (omega (arith, zeros_first (d - length digits) digits)))
  | inr large ↦ rw large (
      split-Shows digits (take (length digits - d) digits) (drop (length digits - d) digits) d
        (take-not_empty (length digits - d) digits (omega (arith, le_of large)) some_digit)
        (omega (arith, length-drop (length digits - d) digits, le_of large))
        (ap number (sym (take-append-drop (length digits - d) digits))
          ∙ number-append (take (length digits - d) digits) (drop (length digits - d) digits)
          ∙ ap
              (λ k.
                number (take (length digits - d) digits) * 10 ^ k
                + number (drop (length digits - d) digits))
              (cut_length digits d (le_of large))))
]
  where
    le_of : leb (length digits) d ≡ false → d < length digits
    le_of e = ground arith

-- A digit is no white space, so trimming leaves digits, and digits after a minus, as they are.
digit-is_whitespace : (c : ℕ) → is_digit c ≡ true → is_whitespace c ≡ false
unfolding is_whitespace
digit-is_whitespace c e = ground arith

trim_end-digits : (s : Text) → all is_digit s ≡ true → trim_end_if is_whitespace s ≡ s
unfolding trim_end_if
trim_end-digits [] e = refl
trim_end-digits (c ∷ s) e =
    rw (trim_end-digits s (ground (arith, e)), digit-is_whitespace c (ground (arith, e)))
      (no_cut (is_empty s) (c ∷ s))
  where
    no_cut : (b : Bool) (t : Text) → (if b && false then [] else t) ≡ t
    no_cut true t = refl
    no_cut false t = refl

trim-digits : (s : Text) → all is_digit s ≡ true → trim s ≡ s
unfolding trim trim_start_if
trim-digits [] e = trim_end-digits [] e
trim-digits (c ∷ s) e = rw (digit-is_whitespace c (ground (arith, e))) (trim_end-digits (c ∷ s) e)

trim-minus : (s : Text) → all is_digit s ≡ true → trim (b'-' ∷ s) ≡ b'-' ∷ s
unfolding trim trim_start_if trim_end_if is_whitespace
trim-minus s e = rw (trim_end-digits s e) (no_cut (is_empty s) (b'-' ∷ s))
  where
    no_cut : (b : Bool) (t : Text) → (if b && false then [] else t) ≡ t
    no_cut true t = refl
    no_cut false t = refl

after_minus-digits : (s : Text) → all is_digit s ≡ true → after_minus s ≡ none
unfolding after_minus
after_minus-digits [] e = refl
after_minus-digits (c ∷ s) e = ground (arith, e)

-- The text as it is, where there is nothing to divide.
plain-Shows :
    (digits : Text) (d : ℕ)
    → is_empty digits ≡ false
    → (text_beq digits (codes "0") || (d == 0)) ≡ true
    → Shows digits d digits
plain-Shows digits d some_digit e = record {
  whole = digits;
  decimal_part = [];
  written = refl;
  some_whole = some_digit;
  short = omega arith;
  clean = refl;
  same_number = elim (Bool-cases (d == 0)) [
    | inl none_left ↦ rw ((==_iff d 0).0 none_left) (omega arith)
    | inr more ↦ rw ((text_beq_iff digits (codes "0")).0 (ground (arith, e, more))) (omega arith)
  ];
}

negative_amount :
    (digits : Text) (d : ℕ)
    → 0 < d
    → all is_digit digits ≡ true
    → format_token_amount (b'-' ∷ digits) d ≡ (
        if text_beq (format_digits digits d) (codes "0")
        then format_digits digits d
        else b'-' ∷ format_digits digits d)
unfolding format_token_amount format_signed after_minus
negative_amount digits d more e = rw (trim-minus digits e, not_zero d more, e) refl
  where
    not_zero : (n : ℕ) → 0 < n → (n == 0) ≡ false
    not_zero n h = ground arith

-- Any digits are printed, for any number of decimals, as an amount that stands for them. After a
-- minus, with some decimals, the same amount is printed with the minus, which a zero loses.
pub format_token_amount-Shows :
    (digits : Text) (token_decimals : ℕ)
    → is_empty digits ≡ false
    → all is_digit digits ≡ true
    → Shows digits token_decimals (format_token_amount digits token_decimals)
      × (0 < token_decimals
          → (amount : Text) × Shows digits token_decimals amount
            × (format_token_amount (b'-' ∷ digits) token_decimals
                ≡ (if text_beq amount (codes "0") then amount else b'-' ∷ amount)))
unfolding format_token_amount
format_token_amount-Shows digits d some_digit e = (
  rw (trim-digits digits e) (elim (Bool-cases (text_beq digits (codes "0") || (d == 0))) [
    | inl plain ↦ rw plain (plain-Shows digits d some_digit plain)
    | inr shifted ↦
        rw (shifted, after_minus-digits digits e, e) (format_digits-Shows digits d some_digit)
  ]),
  λ more. (
    format_digits digits d,
    format_digits-Shows digits d some_digit,
    negative_amount digits d more e,
  ),
)
