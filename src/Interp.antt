-- ===== src/Interp.antt =====
-- src/interpret.c: the interpreter's operations and its loop.
pub mod Imm
pub mod Reg
pub mod MulDiv
pub mod Memory
pub mod Control
pub mod FloatBits
pub mod Float
pub mod Funcs
pub mod Block
pub mod Frame
