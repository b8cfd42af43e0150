-- ===== src/Vm/Assembly.antt =====
-- An assembler for the scripts that `disassemble_script_bytes`
-- (crates/http-api/src/support.rs) reads, and the listing of a program.
pub mod Reads
pub mod Arguments
pub mod Roundtrip
use explorer_backend.Base.{
  List, Text, [], if◌then◌else◌, length, ltb, suc, ℕ, ◌%◌, ◌++◌, ◌+◌, ◌-◌, ◌/◌, ◌<◌, ◌∷◌, ◌≤◌,
}
use explorer_backend.Base.Int.{negsuc, pos, ℤ}
use explorer_backend.Vm.Opcodes.{opcode_ret}
use explorer_backend.Vm.Instructions.{
  VmInstructionArgs, call, cast, jump, jump_if, load, no_args, range, reg1, regs2, regs2_len, regs3,
}
use explorer_backend.Vm.Disassembly.{
  Shape, call_shape, cast_shape, jump_if_shape, jump_shape, load_shape, no_args_shape, print,
  range_shape, reg1_shape, regs2_len_shape, regs2_shape, regs3_shape, shape_of,
}

abbrev pub u16_bytes : ℕ → List ℕ
u16_bytes n = (n % 256) ∷ (n / 256) ∷ []

abbrev pub i16_bytes : ℤ → List ℕ
i16_bytes (pos n) = u16_bytes n
i16_bytes (negsuc n) = u16_bytes (65535 - n)

-- A length in the shortest of its forms.
abbrev pub var_bytes : ℕ → List ℕ
var_bytes n = if ltb n 0xfd then n ∷ [] else 0xfd ∷ u16_bytes n

abbrev pub args_bytes : VmInstructionArgs → List ℕ
args_bytes no_args = []
args_bytes (reg1 reg) = reg ∷ []
args_bytes (regs2 src dst) = src ∷ dst ∷ []
args_bytes (regs3 src_a src_b dst) = src_a ∷ src_b ∷ dst ∷ []
args_bytes (regs2_len src dst len) = src ∷ dst ∷ var_bytes len
args_bytes (range src dst index len) = src ∷ dst ∷ var_bytes index ++ var_bytes len
args_bytes (cast src dst vm_type) = src ∷ dst ∷ vm_type ∷ []
args_bytes (load dst vm_type data_bytes) =
    dst ∷ vm_type ∷ var_bytes (length data_bytes) ++ data_bytes
args_bytes (call count offset) = count ∷ u16_bytes offset
args_bytes (jump offset) = i16_bytes offset
args_bytes (jump_if src offset) = src ∷ i16_bytes offset

abbrev pub FitsI16 : ℤ → Type 0
FitsI16 (pos n) = n < 32768
FitsI16 (negsuc n) = n < 32768

-- The arguments an opcode takes, with lengths and offsets that fit their fields.
pub data Fits : Shape → VmInstructionArgs → Type 0 where
  fits_regs2 : (src dst : ℕ) → Fits regs2_shape (regs2 src dst)
  fits_load :
      (dst vm_type : ℕ) (data_bytes : List ℕ)
      → length data_bytes ≤ 0xffff
      → Fits load_shape (load dst vm_type data_bytes)
  fits_cast : (src dst vm_type : ℕ) → Fits cast_shape (cast src dst vm_type)
  fits_reg1 : (reg : ℕ) → Fits reg1_shape (reg1 reg)
  fits_call : (count offset : ℕ) → Fits call_shape (call count offset)
  fits_jump : (offset : ℤ) → FitsI16 offset → Fits jump_shape (jump offset)
  fits_jump_if : (src : ℕ) (offset : ℤ) → FitsI16 offset → Fits jump_if_shape (jump_if src offset)
  fits_regs3 : (src_a src_b dst : ℕ) → Fits regs3_shape (regs3 src_a src_b dst)
  fits_regs2_len : (src dst len : ℕ) → len ≤ 0xffff → Fits regs2_len_shape (regs2_len src dst len)
  fits_range :
      (src dst index len : ℕ)
      → index ≤ 0xffff
      → len ≤ 0xffff
      → Fits range_shape (range src dst index len)
  fits_no_args : Fits no_args_shape no_args

abbrev pub Program : Type 0
Program = List (ℕ × VmInstructionArgs)

abbrev pub IsWellFormed : Program → Type 0
IsWellFormed [] = Unit
IsWellFormed ((opcode, args) ∷ program) = Fits (shape_of opcode) args × IsWellFormed program

abbrev pub assemble : Program → List ℕ
assemble [] = []
assemble ((opcode, args) ∷ program) = opcode ∷ args_bytes args ++ assemble program

module _ (from_utf8_lossy signed_le_to_string encode_hex_upper : List ℕ → Text) where
  -- The lines of a program that ends with RET, from an offset.
  abbrev pub listing : ℕ → Program → List Text
  listing offset [] =
      print from_utf8_lossy signed_le_to_string encode_hex_upper offset opcode_ret no_args ∷ []
  listing offset ((opcode, args) ∷ program) =
      print from_utf8_lossy signed_le_to_string encode_hex_upper offset opcode args
      ∷ listing (offset + suc (length (args_bytes args))) program
