-- ===== src/Base/Decimal.antt =====
-- `to_string` of an unsigned number, and `{:03}`.
use Prim.Native.Nat.{ℕ, zero, suc, ◌+◌, ◌-◌, ◌/◌, ◌%◌}
use mathlib.Core.List.{[], ◌∷◌, ◌++◌}
use explorer_backend.Base.Tests.{ltb, if◌then◌else◌}
use explorer_backend.Base.Lists.{length, replicate}
use explorer_backend.Base.Chars.{Text}
use explorer_backend.Base.Int.{ℤ, pos, negsuc}

-- The decimal digits of a number, in at most as many steps as the fuel.
unfoldable pub digits_of : ℕ → ℕ → Text
digits_of zero n = []
digits_of (suc fuel) n =
    let rest = digits_of fuel (n / 10) in
    if ltb n 10 then (b'0' + n) ∷ [] else rest ++ ((b'0' + n % 10) ∷ [])

-- A number has fewer digits than it has predecessors, so `suc n` steps are enough.
unfoldable pub to_string : ℕ → Text
unfolding digits_of
to_string n = digits_of (suc n) n

unfoldable pub to_string_signed : ℤ → Text
unfolding to_string
to_string_signed (pos n) = to_string n
to_string_signed (negsuc n) = b'-' ∷ to_string (suc n)

-- `format!("{n:03}")`
unfoldable pub to_string_03 : ℕ → Text
unfolding to_string
to_string_03 n = let s = to_string n in replicate (3 - length s) b'0' ++ s
