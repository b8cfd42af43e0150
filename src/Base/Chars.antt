-- ===== src/Base/Chars.antt =====
-- Text as a list of code points, and what the program uses of `str`.
use Prim.Native.Nat.{ℕ, ◌+◌}
use Prim.Native.Char.{code}
use Prim.Native.String.{String}
use mathlib.Core.Bool.{Bool, true, false, ◌&&◌, ◌||◌}
use mathlib.Core.List.{List, [], ◌∷◌, map}
use explorer_backend.Base.Keys.{text_beq}
use explorer_backend.Base.Tests.{if◌then◌else◌, leb, ◌==◌}

abbrev pub Text : Type 0
Text = List ℕ

-- The code points of a literal.
abbrev pub codes : String → Text
codes String.[] = []
codes (String.◌∷◌ c s) = code c ∷ codes s

abbrev pub is_empty {ℓ} : {A : Type ℓ} → List A → Bool
is_empty [] = true
is_empty (x ∷ xs) = false

-- `char::is_whitespace`: the White_Space property of Unicode.
unfoldable pub is_whitespace : ℕ → Bool
is_whitespace c =
    (leb 9 c && leb c 13)
    || (c == 32)
    || (c == 0x85)
    || (c == 0xa0)
    || (c == 0x1680)
    || (leb 0x2000 c && leb c 0x200a)
    || (c == 0x2028)
    || (c == 0x2029)
    || (c == 0x202f)
    || (c == 0x205f)
    || (c == 0x3000)

unfoldable pub trim_start_if : (ℕ → Bool) → Text → Text
trim_start_if p [] = []
trim_start_if p (c ∷ s) = if p c then trim_start_if p s else c ∷ s

unfoldable pub trim_end_if : (ℕ → Bool) → Text → Text
trim_end_if p [] = []
trim_end_if p (c ∷ s) = let rest = trim_end_if p s in if is_empty rest && p c then [] else c ∷ rest

-- `str::trim`
unfoldable pub trim : Text → Text
unfolding is_whitespace trim_start_if trim_end_if
trim s = trim_end_if is_whitespace (trim_start_if is_whitespace s)

unfoldable pub starts_with : Text → Text → Bool
starts_with s [] = true
starts_with [] (c ∷ p) = false
starts_with (d ∷ s) (c ∷ p) = (d == c) && starts_with s p

-- `char::to_ascii_lowercase`
unfoldable pub to_ascii_lowercase : ℕ → ℕ
to_ascii_lowercase c = if leb b'A' c && leb c b'Z' then c + 32 else c

unfoldable pub lowercase : Text → Text
unfolding to_ascii_lowercase
lowercase s = map to_ascii_lowercase s

unfoldable pub eq_ignore_ascii_case : Text → Text → Bool
unfolding lowercase
eq_ignore_ascii_case s t = text_beq (lowercase s) (lowercase t)

unfoldable pub cons_to_first : ℕ → List Text → List Text
cons_to_first c [] = (c ∷ []) ∷ []
cons_to_first c (p ∷ ps) = (c ∷ p) ∷ ps

-- `str::split` at one code point, left to right; never the empty list.
unfoldable pub split_at : ℕ → Text → List Text
unfolding cons_to_first
split_at sep [] = [] ∷ []
split_at sep (c ∷ s) =
    let rest = split_at sep s in if c == sep then [] ∷ rest else cons_to_first c rest
