-- ===== src/Codegen.antt =====
-- src/codegen.c: the C text of a hot block.
pub mod Source
pub mod Emit
pub mod Memory
pub mod Imm
pub mod Reg
pub mod Float
pub mod Control
pub mod Funcs
pub mod Meaning
pub mod Shape
pub mod Tracer
pub mod Block
