-- ===== src/Emitter.antt =====
-- compiler/ecpps/src/CodeGeneration/Emitters/x86_64/: the x86-64 code emitter.
pub mod Operands
pub mod Meaning
pub mod Emits
pub mod Copy
pub mod Addition
pub mod Subtraction
pub mod BitwiseOr
pub mod BitwiseAnd
pub mod BitwiseXor
pub mod Unary
pub mod Shifts
pub mod ZeroExtend
pub mod SignExtend
pub mod Exchange
pub mod Routine
pub mod Conditions
pub mod Jumps
mod Tests
