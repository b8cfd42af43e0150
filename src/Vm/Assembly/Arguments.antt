-- ===== src/Vm/Assembly/Arguments.antt =====
-- The arguments of an instruction are read back from its bytes (crates/http-api/src/support.rs).
use explorer_backend.Base.{
  List, [], ap, arith, false, length, refl, true, ℕ, ◌%◌, ◌++◌, ◌^◌, ◌∷◌, ◌≡◌, ◌≤◌,
}
use explorer_backend.Vm.Reader.{
  Reads, VmScriptReader, advance, byte_at, has_more, ok, read_u8, ◌>>=◌,
}
use explorer_backend.Vm.Instructions.{
  VmInstructionArgs, call, cast, jump, jump_if, load, no_args, range, reg1, regs2, regs2_len, regs3,
}
use explorer_backend.Vm.Disassembly.{Shape, is_ret, read_args}
use explorer_backend.Vm.Assembly.{
  Fits, args_bytes, fits_call, fits_cast, fits_jump, fits_jump_if, fits_load, fits_no_args,
  fits_range, fits_reg1, fits_regs2, fits_regs2_len, fits_regs3, i16_bytes, u16_bytes, var_bytes,
}
use explorer_backend.Vm.Assembly.Reads.{
  >>=-Gives, At, Gives, Gives-same, drop-length, get_elem?-drop, pure-Gives, read_bytes-Gives,
  read_i16-Gives, read_u16-Gives, read_u8-Gives, read_var-Gives, then_pure,
}

small_mod : (n : ℕ) → n ≤ 0xffff → n % 2 ^ 32 ≡ n
small_mod n h = omega arith

-- A register, then the rest of the arguments.
then_u8 {ℓ} :
    {B : Type ℓ} (f : ℕ → Reads B) (b : ℕ) (ys : List ℕ) (v : B)
    → Gives (f b) ys v
    → Gives (read_u8 >>= f) (b ∷ ys) v
then_u8 f b ys v h = >>=-Gives read_u8 f (b ∷ []) ys b v (read_u8-Gives b) h

pub read_args-Gives :
    (shape : Shape) (args : VmInstructionArgs)
    → Fits shape args
    → Gives (read_args shape) (args_bytes args) args
unfolding read_args
read_args-Gives _ _ (fits_regs2 a b) =
    then_u8 _ a (b ∷ []) _ (then_u8 _ b [] _ (pure-Gives (regs2 a b)))
read_args-Gives _ _ (fits_load dst vm_type xs h) =
    then_u8 _ dst (vm_type ∷ var_bytes (length xs) ++ xs) _ (
      then_u8 _ vm_type (var_bytes (length xs) ++ xs) _ (
        >>=-Gives _ _ (var_bytes (length xs)) xs (length xs) _ (read_var-Gives (length xs) h)
          (then_pure _ (load dst vm_type) xs xs (read_bytes-Gives xs))))
read_args-Gives _ _ (fits_cast a b c) =
    then_u8 _ a (b ∷ c ∷ []) _ (then_u8 _ b (c ∷ []) _ (then_u8 _ c [] _ (pure-Gives (cast a b c))))
read_args-Gives _ _ (fits_reg1 a) = then_u8 _ a [] _ (pure-Gives (reg1 a))
read_args-Gives _ _ (fits_call count offset) =
    then_u8 _ count (u16_bytes offset) _
      (then_pure _ (call count) (u16_bytes offset) offset (read_u16-Gives offset))
read_args-Gives _ _ (fits_jump offset h) =
    then_pure _ jump (i16_bytes offset) offset (read_i16-Gives offset h)
read_args-Gives _ _ (fits_jump_if a offset h) =
    then_u8 _ a (i16_bytes offset) _
      (then_pure _ (jump_if a) (i16_bytes offset) offset (read_i16-Gives offset h))
read_args-Gives _ _ (fits_regs3 a b c) =
    then_u8 _ a (b ∷ c ∷ []) _
      (then_u8 _ b (c ∷ []) _ (then_u8 _ c [] _ (pure-Gives (regs3 a b c))))
read_args-Gives _ _ (fits_regs2_len a b len h) =
    Gives-same _ (a ∷ b ∷ var_bytes len) (regs2_len a b (len % 2 ^ 16)) _
      (ap (regs2_len a b) (omega arith))
      (then_u8 _ a (b ∷ var_bytes len) _ (
        then_u8 _ b (var_bytes len) _ (
          then_pure _ (λ n. regs2_len a b (n % 2 ^ 16)) (var_bytes len) len
            (read_var-Gives len h))))
read_args-Gives _ _ (fits_range a b index len h k) =
    Gives-same _ (a ∷ b ∷ var_bytes index ++ var_bytes len)
      (range a b (index % 2 ^ 32) (len % 2 ^ 32)) _ (small index len h k)
      (then_u8 _ a (b ∷ var_bytes index ++ var_bytes len) _ (
        then_u8 _ b (var_bytes index ++ var_bytes len) _ (
          >>=-Gives _ _ (var_bytes index) (var_bytes len) index _ (read_var-Gives index h) (
            then_pure _ (λ n. range a b (index % 2 ^ 32) (n % 2 ^ 32)) (var_bytes len) len
              (read_var-Gives len k)))))
  where
    small :
        (i n : ℕ) → i ≤ 0xffff → n ≤ 0xffff → range a b (i % 2 ^ 32) (n % 2 ^ 32) ≡ range a b i n
    small i n h k = rw (small_mod i h, small_mod n k)
read_args-Gives _ _ fits_no_args = pure-Gives no_args

pub Fits-not_ret :
    (shape : Shape) (args : VmInstructionArgs) → Fits shape args → is_ret shape ≡ false
Fits-not_ret _ _ (fits_regs2 a b) = refl
Fits-not_ret _ _ (fits_load dst vm_type xs h) = refl
Fits-not_ret _ _ (fits_cast a b c) = refl
Fits-not_ret _ _ (fits_reg1 a) = refl
Fits-not_ret _ _ (fits_call count offset) = refl
Fits-not_ret _ _ (fits_jump offset h) = refl
Fits-not_ret _ _ (fits_jump_if a offset h) = refl
Fits-not_ret _ _ (fits_regs3 a b c) = refl
Fits-not_ret _ _ (fits_regs2_len a b len h) = refl
Fits-not_ret _ _ (fits_range a b index len h k) = refl
Fits-not_ret _ _ fits_no_args = refl

pub read_u8-At :
    (r : VmScriptReader) (b : ℕ) (post : List ℕ) → At r (b ∷ post) → read_u8 r ≡ ok (b, advance 1 r)
unfolding read_u8
read_u8-At r b post e = ap (λ o. byte_at o r) (get_elem?-drop r.position r.bytes post b e)

pub has_more-At : (r : VmScriptReader) (b : ℕ) (post : List ℕ) → At r (b ∷ post) → has_more r ≡ true
unfolding has_more
has_more-At r b post e = ground (arith, drop-length r.position r.bytes [] (b ∷ post) refl e)
