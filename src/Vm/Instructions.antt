-- ===== src/Vm/Instructions.antt =====
-- `VmInstructionArgs` and its printing (crates/http-api/src/support.rs). The text of a byte string,
-- of a big integer and of bytes in hexadecimal are parameters.
use explorer_backend.Base.{
  List, Text, [], codes, if◌then◌else◌, to_string, to_string_03, to_string_signed, ℕ, ◌++◌, ◌==◌,
}
use explorer_backend.Base.Int.{ℤ}
use explorer_backend.Vm.Opcodes.{opcode_name, vm_type_number, vm_type_string}

pub data VmInstructionArgs : Type 0 where
  no_args : VmInstructionArgs
  reg1 : (reg : ℕ) → VmInstructionArgs
  regs2 : (src dst : ℕ) → VmInstructionArgs
  regs3 : (src_a src_b dst : ℕ) → VmInstructionArgs
  regs2_len : (src dst len : ℕ) → VmInstructionArgs
  range : (src dst index len : ℕ) → VmInstructionArgs
  cast : (src dst vm_type : ℕ) → VmInstructionArgs
  load : (dst vm_type : ℕ) (data_bytes : List ℕ) → VmInstructionArgs
  call : (count offset : ℕ) → VmInstructionArgs
  jump : (offset : ℤ) → VmInstructionArgs
  jump_if : (src : ℕ) (offset : ℤ) → VmInstructionArgs

abbrev register : ℕ → Text
register reg = codes " r" ++ to_string reg

abbrev comma : Text
comma = codes ", "

module _ (from_utf8_lossy signed_le_to_string encode_hex_upper : List ℕ → Text) where
  abbrev pub format_vm_load_data : ℕ → List ℕ → Text
  format_vm_load_data vm_type data_bytes =
      if vm_type == vm_type_string
      then codes "\"" ++ from_utf8_lossy data_bytes ++ codes "\""
      else if vm_type == vm_type_number
      then signed_le_to_string data_bytes
      else encode_hex_upper data_bytes

  unfoldable pub format_args : VmInstructionArgs → Text
  format_args no_args = []
  format_args (reg1 reg) = register reg
  format_args (regs2 src dst) = register src ++ codes "," ++ register dst
  format_args (regs3 src_a src_b dst) =
      register src_a ++ codes "," ++ register src_b ++ codes "," ++ register dst
  format_args (regs2_len src dst len) =
      register src ++ codes "," ++ register dst ++ comma ++ to_string len
  format_args (range src dst index len) =
      register src
      ++ codes ","
      ++ register dst
      ++ comma
      ++ to_string index
      ++ comma
      ++ to_string len
  format_args (cast src dst vm_type) =
      register src ++ codes "," ++ register dst ++ comma ++ to_string vm_type
  format_args (load dst vm_type data_bytes) =
      register dst ++ comma ++ format_vm_load_data vm_type data_bytes
  format_args (call count offset) = register count ++ comma ++ to_string offset
  format_args (jump offset) = codes " " ++ to_string_signed offset
  format_args (jump_if src offset) = register src ++ comma ++ to_string_signed offset

  unfoldable pub format_vm_instruction : ℕ → ℕ → VmInstructionArgs → Text
  unfolding format_args
  format_vm_instruction offset opcode args =
      to_string_03 offset ++ codes ": " ++ opcode_name opcode ++ format_args args
