-- ===== src/Opcodes/Fixed.antt =====
-- The generators that are written for one operand width each, Opcodes.cpp lines 26-2448.
pub mod Emit
pub mod Control
pub mod Moves
pub mod Extends
pub mod Additions
pub mod Subtractions
pub mod Multiplications
pub mod Divisions
pub mod SignedShifts
pub mod Shifts
pub mod Shapes
pub mod Forms
pub mod AluForms
pub mod MoveForms
pub mod Immediates
pub mod AluImmediates
pub mod AddImmediates
pub mod OpcodeRegister
pub mod MoveImmediates
pub mod UnaryForms
pub mod ShiftForms
pub mod Equivalence
