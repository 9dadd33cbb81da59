-- ===== src/Opcodes/Generators.antt =====
-- The instruction generators of Opcodes.cpp that take a `Width`, from line 2641 on.
pub mod Arithmetic
pub mod Moves
pub mod Shifts
pub mod Control
