-- ===== src/Vm.antt =====
-- The VM disassembler of crates/http-api/src/support.rs, one module for its reader, its opcodes, its
-- instructions and its loop. A script is a list of bytes.
pub mod Reader
pub mod Opcodes
pub mod Instructions
pub mod Disassembly
pub mod Progress
pub mod Assembly
mod Tests
