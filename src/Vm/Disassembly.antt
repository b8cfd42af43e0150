-- ===== src/Vm/Disassembly.antt =====
-- `disassemble_script_bytes` of crates/http-api/src/support.rs. The arms of its match are `shape_of`,
-- which picks one, and `read_args`, which reads the arguments of an arm.
use explorer_backend.Base.{
  Bool, List, Text, [], any, false, if◌then◌else◌, length, suc, true, zero, ℕ, ◌%◌, ◌++◌, ◌==◌, ◌^◌,
  ◌∷◌,
}
use explorer_backend.Vm.Reader.{
  Reads, Result, VmScriptReader, bad_request, exhausted, has_more, new_reader, ok, pure, read_bytes,
  read_i16, read_u16, read_u8, read_var, ◌>>=◌,
}
use explorer_backend.Vm.Opcodes.{
  opcode_abs, opcode_add, opcode_and, opcode_call, opcode_cast, opcode_cat, opcode_clear,
  opcode_copy, opcode_count, opcode_ctx, opcode_dec, opcode_div, opcode_equal, opcode_extcall,
  opcode_get, opcode_gt, opcode_gte, opcode_inc, opcode_jmp, opcode_jmpif, opcode_jmpnot,
  opcode_left, opcode_load, opcode_lt, opcode_lte, opcode_max, opcode_min, opcode_mod, opcode_move,
  opcode_mul, opcode_negate, opcode_not, opcode_or, opcode_pop, opcode_pow, opcode_push, opcode_put,
  opcode_range, opcode_ret, opcode_right, opcode_shl, opcode_shr, opcode_sign, opcode_size,
  opcode_sub, opcode_swap, opcode_switch, opcode_throw, opcode_unpack, opcode_xor,
}
use explorer_backend.Vm.Instructions.{
  VmInstructionArgs, call, cast, format_vm_instruction, jump, jump_if, load, no_args, range, reg1,
  regs2, regs2_len, regs3,
}

pub data Shape : Type 0 where
  ret_shape regs2_shape load_shape cast_shape reg1_shape call_shape : Shape
  jump_shape jump_if_shape regs3_shape regs2_len_shape range_shape no_args_shape : Shape

abbrev is_one_of : ℕ → List ℕ → Bool
is_one_of opcode opcodes = any (λ o. opcode == o) opcodes

abbrev regs2_opcodes : List ℕ
regs2_opcodes =
    opcode_ctx ∷ opcode_move ∷ opcode_copy ∷ opcode_swap ∷ opcode_size ∷ opcode_count ∷ opcode_sign
    ∷ opcode_not ∷ opcode_negate ∷ opcode_abs ∷ opcode_unpack ∷ []

abbrev reg1_opcodes : List ℕ
reg1_opcodes = opcode_pop ∷ opcode_push ∷ opcode_extcall ∷ opcode_throw ∷ opcode_clear ∷ []

abbrev regs3_opcodes : List ℕ
regs3_opcodes =
    opcode_and ∷ opcode_or ∷ opcode_xor ∷ opcode_cat ∷ opcode_equal ∷ opcode_lt ∷ opcode_gt
    ∷ opcode_lte ∷ opcode_gte ∷ opcode_add ∷ opcode_sub ∷ opcode_mul ∷ opcode_div ∷ opcode_mod
    ∷ opcode_shr ∷ opcode_shl ∷ opcode_min ∷ opcode_max ∷ opcode_pow ∷ opcode_put ∷ opcode_get ∷ []

unfoldable pub shape_of : ℕ → Shape
shape_of opcode =
    if opcode == opcode_ret
    then ret_shape
    else if is_one_of opcode regs2_opcodes
    then regs2_shape
    else if opcode == opcode_load
    then load_shape
    else if opcode == opcode_cast
    then cast_shape
    else if is_one_of opcode reg1_opcodes
    then reg1_shape
    else if opcode == opcode_call
    then call_shape
    else if opcode == opcode_jmp
    then jump_shape
    else if is_one_of opcode (opcode_jmpif ∷ opcode_jmpnot ∷ [])
    then jump_if_shape
    else if is_one_of opcode regs3_opcodes
    then regs3_shape
    else if is_one_of opcode (opcode_left ∷ opcode_right ∷ [])
    then regs2_len_shape
    else if opcode == opcode_range
    then range_shape
    else if is_one_of opcode (opcode_inc ∷ opcode_dec ∷ opcode_switch ∷ [])
    then reg1_shape
    else no_args_shape

unfoldable pub read_args : Shape → Reads VmInstructionArgs
read_args ret_shape = pure no_args
read_args regs2_shape = do a ← read_u8; b ← read_u8; pure (regs2 a b)
read_args load_shape = do
  dst ← read_u8
  vm_type ← read_u8
  len ← read_var 0xffff
  data_bytes ← read_bytes len
  pure (load dst vm_type data_bytes)
read_args cast_shape = do a ← read_u8; b ← read_u8; c ← read_u8; pure (cast a b c)
read_args reg1_shape = do a ← read_u8; pure (reg1 a)
read_args call_shape = do count ← read_u8; offset ← read_u16; pure (call count offset)
read_args jump_shape = do offset ← read_i16; pure (jump offset)
read_args jump_if_shape = do a ← read_u8; offset ← read_i16; pure (jump_if a offset)
read_args regs3_shape = do a ← read_u8; b ← read_u8; c ← read_u8; pure (regs3 a b c)
read_args regs2_len_shape = do
  a ← read_u8
  b ← read_u8
  len ← read_var 0xffff
  pure (regs2_len a b (len % 2 ^ 16))
read_args range_shape = do
  a ← read_u8
  b ← read_u8
  index ← read_var 0xffff
  len ← read_var 0xffff
  pure (range a b (index % 2 ^ 32) (len % 2 ^ 32))
read_args no_args_shape = pure no_args

abbrev pub is_ret : Shape → Bool
is_ret ret_shape = true
is_ret _ = false

abbrev pub on_read {ℓ κ} :
    {A : Type ℓ} {B : Type κ}
    → Result (A × VmScriptReader)
    → (A → VmScriptReader → Result B)
    → Result B
on_read (ok (value, r)) f = f value r
on_read (bad_request message) f = bad_request message
on_read exhausted f = exhausted

module _ (from_utf8_lossy signed_le_to_string encode_hex_upper : List ℕ → Text) where
  abbrev pub print : ℕ → ℕ → VmInstructionArgs → Text
  print = format_vm_instruction from_utf8_lossy signed_le_to_string encode_hex_upper

  -- The loop, with the instructions so far and at most as many rounds as the fuel.
  unfoldable pub disassemble_from : List Text → VmScriptReader → ℕ → Result (List Text)
  disassemble_from instructions r zero = if has_more r then exhausted else ok instructions
  disassemble_from instructions r (suc fuel) =
      if has_more r
      then (on_read (read_u8 r) λ opcode s. on_read (read_args (shape_of opcode) s) λ args t.
          let after = instructions ++ (print r.position opcode args ∷ []) in
          let rest = disassemble_from after t fuel in
          if is_ret (shape_of opcode) then ok after else rest)
      else ok instructions

  -- Each round reads a byte, so the length of the script is fuel enough.
  unfoldable pub disassemble_script_bytes : List ℕ → Result (List Text)
  unfolding disassemble_from
  disassemble_script_bytes bytes = disassemble_from [] (new_reader bytes) (length bytes)
