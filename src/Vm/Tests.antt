-- ===== src/Vm/Tests.antt =====
-- Short scripts for the disassembler (crates/http-api/src/support.rs).
use explorer_backend.Base.{List, Text, [], arith, codes, ℕ, ◌++◌, ◌∷◌, ◌≡◌, ◌≢◌}
use explorer_backend.Base.Int.{negsuc}
use explorer_backend.Vm.Reader.{exhausted, ok}
use explorer_backend.Vm.Opcodes.{opcode_add, opcode_jmp, opcode_load, opcode_ret, vm_type_string}
use explorer_backend.Vm.Instructions.{jump, load, regs3}
use explorer_backend.Vm.Disassembly.{disassemble_script_bytes, shape_of}
use explorer_backend.Vm.Progress.{disassemble_script_bytes-total}
use explorer_backend.Vm.Assembly.{
  IsWellFormed, Program, assemble, fits_jump, fits_load, fits_regs3, listing,
}
use explorer_backend.Vm.Assembly.Roundtrip.{disassemble_script_bytes-listing}

abbrev same_text : List ℕ → Text
same_text s = s

abbrev cut_script : List ℕ
cut_script = opcode_load ∷ 1 ∷ vm_type_string ∷ 2 ∷ 104 ∷ 105 ∷ []

disassemble_script_bytes-total_example :
    disassemble_script_bytes same_text same_text same_text cut_script ≢ exhausted
disassemble_script_bytes-total_example =
    disassemble_script_bytes-total same_text same_text same_text cut_script

abbrev program : Program
program =
    (opcode_load, load 1 vm_type_string (codes "hi"))
    ∷ (opcode_jmp, jump (negsuc 2))
    ∷ (opcode_add, regs3 1 2 3)
    ∷ []

program-IsWellFormed : IsWellFormed program
unfolding shape_of
program-IsWellFormed = (
  fits_load 1 vm_type_string (codes "hi") (omega arith),
  (fits_jump (negsuc 2) (omega arith), (fits_regs3 1 2 3, tt)),
)

disassemble_script_bytes-listing_example :
    disassemble_script_bytes same_text same_text same_text
      (assemble program ++ (opcode_ret ∷ 77 ∷ []))
    ≡ ok (listing same_text same_text same_text 0 program)
disassemble_script_bytes-listing_example =
    disassemble_script_bytes-listing same_text same_text same_text program (77 ∷ [])
      program-IsWellFormed
