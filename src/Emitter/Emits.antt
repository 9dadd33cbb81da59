-- ===== src/Emitter/Emits.antt =====
-- What the emitter writes for an instruction is that instruction.
pub mod Addition
pub mod Subtraction
pub mod CopyForms
pub mod Copy
pub mod Bitwise
pub mod Arithmetic
pub mod Operations
pub mod Extend
