-- ===== src/Vm/Progress.antt =====
-- The reader only moves forward and inside the script, so the disassembler
-- (crates/http-api/src/support.rs) comes to an end.
use explorer_backend.Base.{
  Bool, Bool-cases, List, Option, Text, [], ap, arith, false, get_elem?, if◌then◌else◌, inl, inr,
  length, ltb, none, refl, some, suc, true, zero, ℕ, ◌*◌, ◌++◌, ◌+◌, ◌<◌, ◌==◌, ◌^◌, ◌∙◌, ◌∷◌, ◌≡◌,
  ◌≢◌, ◌≤◌,
}
use explorer_backend.Vm.Instructions.{VmInstructionArgs, cast, no_args, regs2, regs3}
use explorer_backend.Vm.Disassembly.{
  Shape, call_shape, cast_shape, disassemble_from, disassemble_script_bytes, is_ret, jump_if_shape,
  jump_shape, load_shape, no_args_shape, on_read, print, range_shape, read_args, reg1_shape,
  regs2_len_shape, regs2_shape, regs3_shape, ret_shape, shape_of,
}
use explorer_backend.Vm.Reader.{
  Reads, Result, VmScriptReader, advance, at_most, bad_request, byte_at, continue_with, exhausted,
  has_more, new_reader, ok, pure, read_bytes, read_i16, read_marked, read_shifted, read_u16,
  read_u32, read_u64, read_u8, read_var, ◌>>=◌,
}

-- What a read that starts at `r` may come back with.
abbrev Moves {ℓ} : {A : Type ℓ} → VmScriptReader → Result (A × VmScriptReader) → Type 0
Moves r (ok (value, s)) =
    (s.bytes ≡ r.bytes) × (r.position ≤ s.position) × (s.position ≤ length s.bytes)
Moves r (bad_request message) = Unit
Moves r exhausted = ⊥

abbrev Forward {ℓ} : {A : Type ℓ} → Reads A → Type 0
Forward m = (r : VmScriptReader) → r.position ≤ length r.bytes → Moves r (m r)

Moves-trans {ℓ} :
    {A : Type ℓ} (r s : VmScriptReader) (m : Result (A × VmScriptReader))
    → s.bytes ≡ r.bytes
    → r.position ≤ s.position
    → Moves s m
    → Moves r m
Moves-trans r s (ok (value, t)) e le (f, ge, inside) = (f ∙ e, omega arith, inside)
Moves-trans r s (bad_request message) e le h = tt
Moves-trans r s exhausted e le h = h

continue_with-Moves {ℓ κ} :
    {A : Type ℓ} {B : Type κ} (r : VmScriptReader) (m : Result (A × VmScriptReader))
    (f : A → Reads B)
    → Moves r m
    → ((a : A) → Forward (f a))
    → Moves r (continue_with m f)
continue_with-Moves r (ok (value, s)) f (e, le, inside) k =
    Moves-trans r s (f value s) e le (k value s inside)
continue_with-Moves r (bad_request message) f h k = tt
continue_with-Moves r exhausted f h k = h

>>=-Forward {ℓ κ} :
    {A : Type ℓ} {B : Type κ} (m : Reads A) (f : A → Reads B)
    → Forward m
    → ((a : A) → Forward (f a))
    → Forward (m >>= f)
>>=-Forward m f h k r inside = continue_with-Moves r (m r) f (h r inside) k

pure-Forward {ℓ} : {A : Type ℓ} (a : A) → Forward (pure a)
pure-Forward a r inside = (refl, omega arith, inside)

get_elem?-bound {ℓ} :
    {A : Type ℓ} (xs : List A) (i : ℕ) (a : A) → get_elem? xs i ≡ some a → i < length xs
get_elem?-bound [] i a h = cc
get_elem?-bound (x ∷ xs) zero a h = omega arith
get_elem?-bound (x ∷ xs) (suc i) a h = omega (arith, get_elem?-bound xs i a h)

get_elem?-inside {ℓ} :
    {A : Type ℓ} (xs : List A) (i : ℕ) → i < length xs → (a : A) × (get_elem? xs i ≡ some a)
get_elem?-inside [] i h = absurd (omega arith)
get_elem?-inside (x ∷ xs) zero h = (x, refl)
get_elem?-inside (x ∷ xs) (suc i) h = get_elem?-inside xs i (omega arith)

read_u8-Forward : Forward read_u8
unfolding read_u8
read_u8-Forward r inside = go (get_elem? r.bytes r.position) refl
  where
    go : (o : Option ℕ) → get_elem? r.bytes r.position ≡ o → Moves r (byte_at o r)
    go none e = tt
    go (some b) e = (refl, omega arith, omega (arith, get_elem?-bound r.bytes r.position b e))

read_u16-Forward : Forward read_u16
unfolding read_u16
read_u16-Forward =
    >>=-Forward _ _ read_u8-Forward
      λ a. >>=-Forward _ _ read_u8-Forward λ b r inside. (refl, omega arith, inside)

read_i16-Forward : Forward read_i16
unfolding read_i16
read_i16-Forward = >>=-Forward _ _ read_u16-Forward λ a r inside. (refl, omega arith, inside)

read_u32-Forward : Forward read_u32
unfolding read_u32
read_u32-Forward = >>=-Forward _ _ read_u8-Forward λ a. >>=-Forward _ _ read_u8-Forward λ b.
    >>=-Forward _ _ read_u8-Forward
      λ c. >>=-Forward _ _ read_u8-Forward λ d r inside. (refl, omega arith, inside)

read_shifted-Forward : (value shift left : ℕ) → Forward (read_shifted value shift left)
unfolding read_shifted
read_shifted-Forward value shift zero = pure-Forward value
read_shifted-Forward value shift (suc left) =
    >>=-Forward _ _ read_u8-Forward
      λ b. read_shifted-Forward (value + b * 2 ^ shift) (shift + 8) left

read_u64-Forward : Forward read_u64
unfolding read_u64
read_u64-Forward = read_shifted-Forward 0 0 8

if-Forward {ℓ} :
    {A : Type ℓ} (b : Bool) (m n : Reads A) → Forward m → Forward n → Forward (if b then m else n)
if-Forward true m n h k = h
if-Forward false m n h k = k

read_marked-Forward : (marker : ℕ) → Forward (read_marked marker)
read_marked-Forward marker = if-Forward (marker == 0xfd) _ _ read_u16-Forward (
    if-Forward (marker == 0xfe) _ _ read_u32-Forward
      (if-Forward (marker == 0xff) _ _ read_u64-Forward (pure-Forward marker)))

at_most-Forward : (limit value : ℕ) → Forward (at_most limit value)
at_most-Forward limit value r inside = ground arith

read_var-Forward : (limit : ℕ) → Forward (read_var limit)
unfolding read_var
read_var-Forward limit =
    >>=-Forward _ _ read_u8-Forward
      λ marker. >>=-Forward _ _ (read_marked-Forward marker) λ value. at_most-Forward limit value

read_bytes-Forward : (n : ℕ) → Forward (read_bytes n)
unfolding read_bytes
read_bytes-Forward n r inside = ground arith

two_registers :
    (f : ℕ → ℕ → VmInstructionArgs) → Forward (read_u8 >>= λ a. read_u8 >>= λ b. pure (f a b))
two_registers f =
    >>=-Forward _ _ read_u8-Forward
      λ a. >>=-Forward _ _ read_u8-Forward λ b r inside. (refl, omega arith, inside)

three_registers :
    (f : ℕ → ℕ → ℕ → VmInstructionArgs)
    → Forward (read_u8 >>= λ a. read_u8 >>= λ b. read_u8 >>= λ c. pure (f a b c))
three_registers f = >>=-Forward _ _ read_u8-Forward λ a.
    >>=-Forward _ _ read_u8-Forward
      λ b. >>=-Forward _ _ read_u8-Forward λ c r inside. (refl, omega arith, inside)

read_args-Forward : (shape : Shape) → Forward (read_args shape)
unfolding read_args
read_args-Forward ret_shape = pure-Forward no_args
read_args-Forward regs2_shape = two_registers regs2
read_args-Forward load_shape = >>=-Forward _ _ read_u8-Forward λ a.
    >>=-Forward _ _ read_u8-Forward λ b.
      >>=-Forward _ _ (read_var-Forward 0xffff)
        λ n. >>=-Forward _ _ (read_bytes-Forward n) λ d r inside. (refl, omega arith, inside)
read_args-Forward cast_shape = three_registers cast
read_args-Forward reg1_shape =
    >>=-Forward _ _ read_u8-Forward λ a r inside. (refl, omega arith, inside)
read_args-Forward call_shape =
    >>=-Forward _ _ read_u8-Forward
      λ a. >>=-Forward _ _ read_u16-Forward λ b r inside. (refl, omega arith, inside)
read_args-Forward jump_shape =
    >>=-Forward _ _ read_i16-Forward λ a r inside. (refl, omega arith, inside)
read_args-Forward jump_if_shape =
    >>=-Forward _ _ read_u8-Forward
      λ a. >>=-Forward _ _ read_i16-Forward λ b r inside. (refl, omega arith, inside)
read_args-Forward regs3_shape = three_registers regs3
read_args-Forward regs2_len_shape = >>=-Forward _ _ read_u8-Forward λ a.
    >>=-Forward _ _ read_u8-Forward
      λ b. >>=-Forward _ _ (read_var-Forward 0xffff) λ n r inside. (refl, omega arith, inside)
read_args-Forward range_shape = >>=-Forward _ _ read_u8-Forward λ a.
    >>=-Forward _ _ read_u8-Forward λ b.
      >>=-Forward _ _ (read_var-Forward 0xffff)
        λ n. >>=-Forward _ _ (read_var-Forward 0xffff) λ k r inside. (refl, omega arith, inside)
read_args-Forward no_args_shape = pure-Forward no_args

-- A reader with bytes left reads one.
read_u8-step :
    (r : VmScriptReader) → r.position < length r.bytes → (b : ℕ) × (read_u8 r ≡ ok (b, advance 1 r))
unfolding read_u8
read_u8-step r h =
    let (b, e) = get_elem?-inside r.bytes r.position h in (b, ap (λ o. byte_at o r) e)

on_read-total {ℓ κ} :
    {A : Type ℓ} {B : Type κ} (r : VmScriptReader) (m : Result (A × VmScriptReader))
    (f : A → VmScriptReader → Result B)
    → Moves r m
    → ((value : A) (s : VmScriptReader)
        → s.bytes ≡ r.bytes
        → r.position ≤ s.position
        → s.position ≤ length s.bytes
        → f value s ≢ exhausted)
    → on_read m f ≢ exhausted
on_read-total r (ok (value, s)) f (e, le, inside) k = k value s e le inside
on_read-total r (bad_request message) f h k = λ e. cc
on_read-total r exhausted f h k = absurd h

if-total {ℓ} :
    {A : Type ℓ} (b : Bool) (a : A) (m : Result A)
    → m ≢ exhausted
    → (if b then ok a else m) ≢ exhausted
if-total true a m h = λ e. cc
if-total false a m h = h

module _ (from_utf8_lossy signed_le_to_string encode_hex_upper : List ℕ → Text) where
  disassemble_from-total :
      (fuel : ℕ) (instructions : List Text) (r : VmScriptReader)
      → r.position ≤ length r.bytes
      → length r.bytes ≤ r.position + fuel
      → disassemble_from from_utf8_lossy signed_le_to_string encode_hex_upper instructions r fuel
        ≢ exhausted
  unfolding disassemble_from has_more
  disassemble_from-total zero instructions r inside enough = ground arith
  disassemble_from-total (suc fuel) instructions r inside enough =
      elim (Bool-cases (ltb r.position (length r.bytes))) [
        | inl e ↦
            let (b, f) = read_u8-step r (ground arith) in
            rw (e, f)
              (on_read-total (advance 1 r) (read_args (shape_of b) (advance 1 r)) _
                (read_args-Forward (shape_of b) (advance 1 r) (ground arith))
                λ args t same le within. if-total (is_ret (shape_of b)) _ _ (
                  disassemble_from-total fuel
                    (instructions
                      ++ (print from_utf8_lossy signed_le_to_string encode_hex_upper r.position b
                            args
                          ∷ []))
                    t within (rw same (omega arith))))
        | inr e ↦ ground arith
      ]

  -- A script of any bytes is disassembled or refused after at most as many rounds as it has bytes:
  -- the loop never runs on.
  pub disassemble_script_bytes-total :
      (bytes : List ℕ)
      → disassemble_script_bytes from_utf8_lossy signed_le_to_string encode_hex_upper bytes
        ≢ exhausted
  unfolding disassemble_script_bytes new_reader
  disassemble_script_bytes-total bytes =
      disassemble_from-total (length bytes) [] (new_reader bytes) (omega arith) (omega arith)
