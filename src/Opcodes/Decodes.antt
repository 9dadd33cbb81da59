-- ===== src/Opcodes/Decodes.antt =====
-- The round trip of the encoder: each generator against the decoder of the instruction format.
pub mod Alu
pub mod AluForms
pub mod AluImmediate
pub mod Arithmetic
pub mod Moves
pub mod Shifts
pub mod BitOperations
pub mod Control
pub mod Extend
