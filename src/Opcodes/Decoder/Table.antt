-- ===== src/Opcodes/Decoder/Table.antt =====
-- The opcode maps of one byte and of two bytes (0F), for the instructions that the encoder has.
use ecpps.Common.{ℕ, ◌-◌, ◌/◌, ◌%◌, Bool, true, false, none, some, ltb, ◌==◌, if◌then◌else◌}
use ecpps.Common.Int.{pos}
use ecpps.Opcodes.Operands.{Width, w8, w16, w32, BitOp, ExtendKind, StringOp}
use ecpps.Opcodes.Decoder.Operand.{
  gpr, no_imm, signed_byte, unsigned_byte, two_bytes, four_bytes, operand_sized, full_sized,
}
use ecpps.Opcodes.Decoder.Instructions.{Insn}
use ecpps.Opcodes.Decoder.Forms.{
  Form, alu_of, condition_of, bit_of, no_imms, always, alu_form, shift_build, group3_imm, group3,
  group4, group5, digit_zero, invalid, mod_rm, plain, opcode_register,
}

abbrev string_form : Bool → StringOp → Form
string_form byte op = plain byte no_imm (λ rep w i. some (Insn.string op w rep))

unfoldable pub one_byte : ℕ → Form
one_byte o =
    let byte = o % 2 == 0 in
    let both = mod_rm byte byte byte no_imms in
    let group = mod_rm byte byte false no_imms in
    if ltb o 0x40
    then alu_form (alu_of (o / 8)) (o % 8)
    else if ltb o 0x50
    then invalid
    else if ltb o 0x58
    then opcode_register false no_imm (λ w r i. some (Insn.push r))
    else if ltb o 0x60
    then opcode_register false no_imm (λ w r i. some (Insn.pop r))
    else if o == 0x63
    then mod_rm false false false no_imms
        (λ w rm d r i. some (Insn.extend ExtendKind.sign w w32 r rm))
    else if o == 0x68
    then plain false four_bytes (λ rep w i. some (Insn.push_imm i))
    else if o == 0x69
    then mod_rm false false false (always operand_sized)
        (λ w rm d r i. some (Insn.multiply_imm w r rm i))
    else if o == 0x6A
    then plain false signed_byte (λ rep w i. some (Insn.push_imm i))
    else if o == 0x6B
    then mod_rm false false false (always signed_byte)
        (λ w rm d r i. some (Insn.multiply_imm w r rm i))
    else if ltb o 0x70
    then invalid
    else if ltb o 0x80
    then plain false signed_byte (λ rep w i. some (Insn.jump_if (condition_of (o % 16)) i))
    else if ltb o 0x82
    then mod_rm byte byte false (always operand_sized)
        (λ w rm d r i. some (Insn.alu_imm (alu_of d) w rm i))
    else if o == 0x83
    then mod_rm false false false (always signed_byte)
        (λ w rm d r i. some (Insn.alu_imm (alu_of d) w rm i))
    else if ltb o 0x84
    then invalid
    else if ltb o 0x86
    then both (λ w rm d r i. some (Insn.test w rm r))
    else if ltb o 0x88
    then both (λ w rm d r i. some (Insn.exchange w rm r))
    else if ltb o 0x8A
    then both (λ w rm d r i. some (Insn.move w rm r))
    else if ltb o 0x8C
    then both (λ w rm d r i. some (Insn.move w r rm))
    else if o == 0x8D
    then mod_rm false false false no_imms (λ w rm d r i. some (Insn.load_address w r rm))
    else if o == 0x8F
    then mod_rm false false false no_imms (λ w rm d r i. digit_zero d (Insn.pop rm))
    else if o == 0xA4
    then string_form true StringOp.movs
    else if o == 0xA5
    then string_form false StringOp.movs
    else if o == 0xA6
    then string_form true StringOp.cmps
    else if o == 0xA7
    then string_form false StringOp.cmps
    else if o == 0xA8
    then plain true operand_sized (λ rep w i. some (Insn.test_imm w (gpr 0) i))
    else if o == 0xA9
    then plain false operand_sized (λ rep w i. some (Insn.test_imm w (gpr 0) i))
    else if o == 0xAA
    then string_form true StringOp.stos
    else if o == 0xAB
    then string_form false StringOp.stos
    else if o == 0xAC
    then string_form true StringOp.lods
    else if o == 0xAD
    then string_form false StringOp.lods
    else if o == 0xAE
    then string_form true StringOp.scas
    else if o == 0xAF
    then string_form false StringOp.scas
    else if ltb o 0xB0
    then invalid
    else if ltb o 0xB8
    then opcode_register true full_sized (λ w r i. some (Insn.move_imm w r i))
    else if ltb o 0xC0
    then opcode_register false full_sized (λ w r i. some (Insn.move_imm w r i))
    else if ltb o 0xC2
    then mod_rm byte byte false (always unsigned_byte)
        (λ w rm d r i. shift_build (λ op. Insn.shift op w rm i) d)
    else if o == 0xC2
    then plain false two_bytes (λ rep w i. some (Insn.return_imm i))
    else if o == 0xC6
    then mod_rm true true false (always operand_sized)
        (λ w rm d r i. digit_zero d (Insn.move_imm w rm i))
    else if o == 0xC7
    then mod_rm false false false (always operand_sized)
        (λ w rm d r i. digit_zero d (Insn.move_imm w rm i))
    else if o == 0xCD
    then plain false unsigned_byte (λ rep w i. some (Insn.interrupt i))
    else if ltb o 0xD0
    then invalid
    else if ltb o 0xD2
    then group (λ w rm d r i. shift_build (λ op. Insn.shift op w rm (pos 1)) d)
    else if ltb o 0xD4
    then group (λ w rm d r i. shift_build (λ op. Insn.shift_cl op w rm) d)
    else if o == 0xE2
    then plain false signed_byte (λ rep w i. some (Insn.loop i))
    else if o == 0xE3
    then plain false signed_byte (λ rep w i. some (Insn.jump_if_rcx_zero i))
    else if ltb o 0xE4
    then invalid
    else if ltb o 0xE6
    then plain byte unsigned_byte (λ rep w i. some (Insn.input_imm w i))
    else if ltb o 0xE8
    then plain byte unsigned_byte (λ rep w i. some (Insn.output_imm w i))
    else if o == 0xE8
    then plain false four_bytes (λ rep w i. some (Insn.call i))
    else if o == 0xE9
    then plain false four_bytes (λ rep w i. some (Insn.jump i))
    else if o == 0xEB
    then plain false signed_byte (λ rep w i. some (Insn.jump i))
    else if ltb o 0xEC
    then invalid
    else if ltb o 0xEE
    then plain byte no_imm (λ rep w i. some (Insn.input_dx w))
    else if ltb o 0xF0
    then plain byte no_imm (λ rep w i. some (Insn.output_dx w))
    else if ltb o 0xF6
    then invalid
    else if ltb o 0xF8
    then mod_rm byte byte false group3_imm (λ w rm d r i. group3 w rm d i)
    else if o == 0xFE
    then mod_rm true true false no_imms (λ w rm d r i. group4 w rm d)
    else if o == 0xFF
    then mod_rm false false false no_imms (λ w rm d r i. group5 w rm d)
    else invalid

abbrev extend_form : Bool → ExtendKind → Width → Form
extend_form byte kind source =
    mod_rm false byte false no_imms (λ w rm d r i. some (Insn.extend kind w source r rm))

unfoldable pub two_byte : ℕ → Form
two_byte o =
    let byte = o % 2 == 0 in
    let wide = mod_rm false false false no_imms in
    if ltb o 0x40
    then invalid
    else if ltb o 0x50
    then wide (λ w rm d r i. some (Insn.conditional_move (condition_of (o % 16)) w r rm))
    else if ltb o 0x80
    then invalid
    else if ltb o 0x90
    then plain false four_bytes (λ rep w i. some (Insn.jump_if (condition_of (o % 16)) i))
    else if ltb o 0xA0
    then mod_rm true true false no_imms
        (λ w rm d r i. some (Insn.set_condition (condition_of (o % 16)) rm))
    else if o == 0xA3
    then wide (λ w rm d r i. some (Insn.bit_test BitOp.bt w rm r))
    else if o == 0xAB
    then wide (λ w rm d r i. some (Insn.bit_test BitOp.bts w rm r))
    else if o == 0xB3
    then wide (λ w rm d r i. some (Insn.bit_test BitOp.btr w rm r))
    else if o == 0xBB
    then wide (λ w rm d r i. some (Insn.bit_test BitOp.btc w rm r))
    else if o == 0xA4
    then mod_rm false false false (always unsigned_byte)
        (λ w rm d r i. some (Insn.double_shift false w rm r i))
    else if o == 0xA5
    then wide (λ w rm d r i. some (Insn.double_shift_cl false w rm r))
    else if o == 0xAC
    then mod_rm false false false (always unsigned_byte)
        (λ w rm d r i. some (Insn.double_shift true w rm r i))
    else if o == 0xAD
    then wide (λ w rm d r i. some (Insn.double_shift_cl true w rm r))
    else if o == 0xAF
    then wide (λ w rm d r i. some (Insn.multiply w r rm))
    else if ltb o 0xB0
    then invalid
    else if ltb o 0xB2
    then mod_rm byte byte byte no_imms (λ w rm d r i. some (Insn.compare_exchange w rm r))
    else if o == 0xB6
    then extend_form true ExtendKind.zero w8
    else if o == 0xB7
    then extend_form false ExtendKind.zero w16
    else if o == 0xBE
    then extend_form true ExtendKind.sign w8
    else if o == 0xBF
    then extend_form false ExtendKind.sign w16
    else if o == 0xBA
    then mod_rm false false false (always unsigned_byte)
        (λ w rm d r i. if ltb d 4 then none else some (Insn.bit_test_imm (bit_of (d - 4)) w rm i))
    else if o == 0xBC
    then wide (λ w rm d r i. some (Insn.bit_scan false w r rm))
    else if o == 0xBD
    then wide (λ w rm d r i. some (Insn.bit_scan true w r rm))
    else if ltb o 0xC0
    then invalid
    else if ltb o 0xC2
    then mod_rm byte byte byte no_imms (λ w rm d r i. some (Insn.exchange_add w rm r))
    else if ltb o 0xC8
    then invalid
    else if ltb o 0xD0
    then opcode_register false no_imm (λ w r i. some (Insn.byte_swap w r))
    else invalid
