-- ===== src/Tests.antt =====
-- Runs of the model at concrete inputs, and the theorems at them.
pub mod Program
pub mod Heap
pub mod Numbers
pub mod Containers
pub mod Blocks
pub mod Machine
pub mod Syscalls
pub mod Strings
pub mod Meaning
pub mod Setup
