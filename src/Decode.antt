-- ===== src/Decode.antt =====
-- src/decode.c: from an instruction word to an `Insn`.
pub mod Manual
pub mod Codes
pub mod InverseOps
pub mod Inverse
pub mod Encode
pub mod RoundTrip
pub mod Fields
pub mod Readers
pub mod RvcWellFormed
pub mod BaseWellFormed
pub mod FloatWellFormed
pub mod WellFormed
pub mod Over
pub mod Formats
pub mod Compressed
pub mod Select
pub mod Rvc
pub mod Base
pub mod Float
pub mod Dispatch
pub mod IsDecoded
