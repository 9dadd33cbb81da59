-- ===== src/Lib.antt =====
-- Verification of the ECPPS C++ compiler: its x86-64 instruction encoder and the code emitter that
-- uses it, its class layout, its arithmetic types, its small-buffer vector and its bump allocator.
--
-- The compiler turns preprocessing tokens into tokens (Parsing/), these into a tree, the tree into an
-- intermediate representation (Execution/, TypeSystem/), that into abstract instructions
-- (CodeGeneration/) and those into machine code (CodeGeneration/Emitters/x86_64/Opcodes.cpp), which
-- the linker puts into a file. Paths below are from compiler/ecpps/src/ where nothing else is said.
--
-- Common: the library names that all files share, tests on numbers, lists, two's complement, and bit
-- masks as remainders.
--
-- Opcodes: CodeGeneration/Emitters/x86_64/Opcodes.cpp and Opcodes.h, the generators that take a
-- `Width` (from line 2450 on). Opcodes/Operands has the enumerations and `Memory`; Opcodes/Emit the
-- writers Put, PutSeq, PutImm, PutModRM, PutRex, PutMemOperand, EmitReg and EmitMem, each as the list
-- of the bytes that it appends to `out`; Opcodes/Generators the functions Generate..., under their
-- names in snake case. A register is a number, std::int64_t and std::int32_t values are integers, and
-- a cast to an unsigned type is the two's complement pattern. The specification is Opcodes/Decoder, a
-- decoder of machine code written from the instruction format: prefixes, REX, opcode maps, ModRM,
-- SIB, displacement and immediate. It reads only the opcodes that the generators have.
-- Opcodes/Immediates, ReadOperand, ReadMemory, ReadPrefixes and ReadInsn relate the writers to the
-- decoder, and Opcodes/Decodes each generator. Not modelled: GenerateNopN and the generators for
-- control and debug registers and system tables.
--
-- Opcodes/Fixed: the generators of one width in the same source, lines 26 to 2448, each named after
-- its function. Opcodes/Fixed/Emit has their writers (Emit, Rex, RexByte, ModRM, Imm32, EmitDisp and
-- the others), again as lists of bytes; Additions, Subtractions, Moves, Extends, Multiplications,
-- Divisions, SignedShifts, Shifts and Control have the functions. Shapes compares the writers to
-- EmitReg and EmitMem; Forms, AluForms, MoveForms, UnaryForms and ShiftForms compare functions of one
-- width to those that take a width, which Equivalence joins. Immediates, AluImmediates,
-- AddImmediates, OpcodeRegister and MoveImmediates read forms with immediates by the decoder. RexOpt
-- is not modelled: nothing calls it.
--
-- Emitter: CodeGeneration/Emitters/x86_64/. Emitter/Operands has the operands and instructions of
-- Machine/Encoders/Backends/x86_64/Core/encoder.h, and `Outcome`: a result, the exception that leaves
-- the call, or `unfinished`. A description is the instruction of its type, so the assertions on its
-- size hold by its type; a failed runtime_assert is `assertion_failed`, as in a debug build, and a
-- width is one of the four of `Width`. Emitter/Copy, Addition, Subtraction, BitwiseAnd, BitwiseOr,
-- BitwiseXor, Unary, Shifts, ZeroExtend, SignExtend and Exchange model operations/*.cpp by their
-- names: AsmCopy and its like with a visit as one function for each source, EmitMov and its like.
-- AsmMovzx and AsmMovsx call themselves for a register to be stored in memory, with the arguments
-- they were called with, so they take fuel: no amount of it ends that call, and any fuel above 0 is
-- enough for the other operands. Emitter/Routine has EmitLabel, EmitJmp, EmitJcc and the loop over
-- the jumps in PatchCalls, on a state with the members that these use; Emitter/Jumps is about them.
-- Emitter/Conditions is the description of the conditions of jumps, from the flags that CMP sets and
-- from the order of the words compared. Emitter/Meaning says what it is that an instruction is
-- emitted, and Emitter/Emits is about each operation. The emitter reaches the encoder by
-- Opcodes/Fixed, or by Opcodes/Generators where the source calls those. Not modelled: EmitCall,
-- EmitLea and EmitRet, EmitInstruction and EmitRoutine, the calls in PatchCalls, PatchStrings.
--
-- Abi: Machine/ABI.cpp, ABI::LayoutClass with AlignUp, std::size_t sums modulo 2 ^ 64. A failed
-- runtime_assert is `none`, as in a debug build. Name mangling is not modelled.
--
-- SboVector: compiler/utilitieslib/include/utilitieslib/SBOVector.h, the vector that the compiler
-- uses throughout. SboVector/Block has the loops of sboDetail on a block of slots, each of which
-- holds an element or is raw; what C++ leaves undefined is an outcome of its own, and so is
-- std::length_error. A result comes with the counts of the blocks that were given back, in order.
-- SboVector.antt has the operations of the class, at any template parameters that meet its static
-- assertions. `Represents` in SboVector/Init is the specification: the list of the elements that a
-- vector holds. Constructors of elements and the allocator do not throw in the model, and iterators
-- are left out.
--
-- TypeSystem: TypeSystem/ArithmeticTypes.h and .cpp with what they use of TypeBase.h: kinds, traits,
-- ranks, promotion, CompareTo and CommonWith of the integral types. TypeSystem/Kinds and
-- TypeSystem/Sizes are about the traits and the sizes, TypeSystem/Compare and TypeSystem/Common about
-- the conversions, beside those of the language. Names of types, and the conversions of pointers and
-- references, are not modelled.
--
-- BumpAllocator: Shared/BumpAllocator.cpp, with pointer sums modulo 2 ^ 64, and 16 for
-- sizeof(std::max_align_t). The commit of memory by the operating system is a parameter, and the
-- theorem on Allocate supposes that it commits what lies inside the reservation; Allocate gives its
-- calls of CommitMemory with its result. The commit loop has current_end + 2 rounds of fuel, which is
-- enough since each round commits more. BumpAllocator/Loop is about that loop, BumpAllocator/Commit
-- about Allocate and the constructor.
pub mod Common
pub mod Abi
pub mod BumpAllocator
pub mod Emitter
pub mod Opcodes
pub mod SboVector
pub mod TypeSystem
