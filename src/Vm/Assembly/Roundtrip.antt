-- ===== src/Vm/Assembly/Roundtrip.antt =====
-- The disassembler (crates/http-api/src/support.rs) reads back what the assembler writes.
use mathlib.Core.List.{append_assoc}
use explorer_backend.Base.{
  List, Text, [], ap, arith, false, is_empty, length, length-append, refl, suc, zero, ℕ, ◌++◌, ◌+◌,
  ◌<◌, ◌∙◌, ◌∷◌, ◌≡◌,
}
use explorer_backend.Vm.Reader.{Result, VmScriptReader, advance, new_reader, ok}
use explorer_backend.Vm.Opcodes.{opcode_ret}
use explorer_backend.Vm.Instructions.{no_args}
use explorer_backend.Vm.Disassembly.{
  disassemble_from, disassemble_script_bytes, print, read_args, ret_shape, shape_of,
}
use explorer_backend.Vm.Assembly.{IsWellFormed, Program, args_bytes, assemble, listing}
use explorer_backend.Vm.Assembly.Reads.{At, append-not_empty, drop-append}
use explorer_backend.Vm.Assembly.Arguments.{Fits-not_ret, has_more-At, read_args-Gives, read_u8-At}

-- The bytes after an instruction are never all of the script.
rest_not_empty :
    (program : Program) (tail : List ℕ) → is_empty (assemble program ++ (opcode_ret ∷ tail)) ≡ false
rest_not_empty program tail = append-not_empty (assemble program) (opcode_ret ∷ tail) refl

shape_of-ret : shape_of opcode_ret ≡ ret_shape
unfolding shape_of
shape_of-ret = refl

read_args-ret : (r : VmScriptReader) → read_args ret_shape r ≡ ok (no_args, r)
unfolding read_args
read_args-ret r = refl

module _ (from_utf8_lossy signed_le_to_string encode_hex_upper : List ℕ → Text) where
  abbrev run : List Text → VmScriptReader → ℕ → Result (List Text)
  run = disassemble_from from_utf8_lossy signed_le_to_string encode_hex_upper

  abbrev lines_of : ℕ → Program → List Text
  lines_of = listing from_utf8_lossy signed_le_to_string encode_hex_upper

  disassemble_from-listing :
      (fuel : ℕ) (program : Program) (tail : List ℕ) (instructions : List Text) (r : VmScriptReader)
      → IsWellFormed program
      → At r (assemble program ++ (opcode_ret ∷ tail))
      → length (assemble program) < fuel
      → run instructions r fuel ≡ ok (instructions ++ lines_of r.position program)
  unfolding disassemble_from
  disassemble_from-listing zero program tail instructions r wf e h = absurd (omega arith)
  disassemble_from-listing (suc fuel) [] tail instructions r wf e h = rw (
    has_more-At r opcode_ret tail e,
    read_u8-At r opcode_ret tail e,
    shape_of-ret,
    read_args-ret (advance 1 r),
  )
  disassemble_from-listing (suc fuel) ((opcode, args) ∷ program) tail instructions r (fits, wf) e
        h =
      let post = assemble program ++ (opcode_ret ∷ tail) in
      let e1 =
        e
        ∙ ap (λ l. opcode ∷ l)
            (append_assoc (args_bytes args) (assemble program) (opcode_ret ∷ tail)) in
      let e2 = drop-append r.position r.bytes (opcode ∷ []) (args_bytes args ++ post) e1 in
      let line =
        print from_utf8_lossy signed_le_to_string encode_hex_upper r.position opcode args in
      rw
        (
          has_more-At r opcode (args_bytes args ++ post) e1,
          read_u8-At r opcode (args_bytes args ++ post) e1,
          read_args-Gives (shape_of opcode) args fits (advance 1 r) post
              (rest_not_empty program tail) e2,
          Fits-not_ret (shape_of opcode) args fits,
        )
        (disassemble_from-listing fuel program tail (instructions ++ (line ∷ []))
            (advance (length (args_bytes args)) (advance 1 r)) wf
            (drop-append (r.position + 1) r.bytes (args_bytes args) post e2)
            (omega (arith, length-append (args_bytes args) (assemble program)))
          ∙ ap ok (
              append_assoc instructions (line ∷ [])
                (lines_of (r.position + 1 + length (args_bytes args)) program)
              ∙ ap (λ n. instructions ++ (line ∷ lines_of n program)) (omega arith)))

  -- A script that an assembler wrote for a program of well-formed instructions, with RET and any
  -- bytes after them, disassembles into the listing of the program: each instruction under the
  -- offset of its first byte, then the RET, and nothing of what follows it.
  pub disassemble_script_bytes-listing :
      (program : Program) (tail : List ℕ)
      → IsWellFormed program
      → disassemble_script_bytes from_utf8_lossy signed_le_to_string encode_hex_upper
          (assemble program ++ (opcode_ret ∷ tail))
        ≡ ok (lines_of 0 program)
  unfolding disassemble_script_bytes new_reader
  disassemble_script_bytes-listing program tail wf =
      disassemble_from-listing (length (assemble program ++ (opcode_ret ∷ tail))) program tail []
        (new_reader (assemble program ++ (opcode_ret ∷ tail))) wf refl
        (omega (arith, length-append (assemble program) (opcode_ret ∷ tail)))
