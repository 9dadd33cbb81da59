-- ===== src/Opcodes.antt =====
-- compiler/ecpps/src/CodeGeneration/Emitters/x86_64/Opcodes.cpp: the x86-64 instruction encoder.
pub mod Operands
pub mod Emit
pub mod Decoder
pub mod Immediates
pub mod ReadOperand
pub mod ReadMemory
pub mod ReadPrefixes
pub mod ReadInsn
pub mod Generators
pub mod Decodes
pub mod Fixed
mod Tests
