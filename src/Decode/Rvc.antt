-- ===== src/Decode/Rvc.antt =====
-- Quadrants 0, 1 and 2 of `insn_decode`: the compressed instructions.
use mathlib.Core.Bool.{not}
use riscvemu_study.Prelude.{ℕ, [], ◌∷◌, ◌==◌, if◌then◌else◌, ◌&&◌, u16}
use riscvemu_study.Prelude.{Run, ok, fault, fatal, ◌>>◌, assert, true}
use riscvemu_study.Insn.{
  Insn, addi, fld, lw, ld, fsd, sw, sd, addiw, lui, srli, srai, andi, sub, xor, or, and, subw, addw,
  jal, beq, bne, slli, jalr, add,
}
use riscvemu_study.Decode.Fields.{copcode, cfunct1, cfunct2low, cfunct2high, rc1}
use riscvemu_study.Decode.Select.{pick, typed, with_imm, with_rd}
use riscvemu_study.Decode.Compressed.{
  insn_catype_read, insn_crtype_read, insn_citype_read, insn_citype_read2, insn_citype_read3,
  insn_citype_read4, insn_citype_read5, insn_cbtype_read, insn_cbtype_read2, insn_cstype_read,
  insn_cstype_read2, insn_cjtype_read, insn_cltype_read, insn_cltype_read2, insn_csstype_read,
  insn_csstype_read2, insn_ciwtype_read,
}

-- The registers `zero`, `ra` and `sp` of `enum gp_reg_type_t`.
abbrev pub reg_zero : ℕ
reg_zero = 0

abbrev pub reg_ra : ℕ
reg_ra = 1

abbrev pub reg_sp : ℕ
reg_sp = 2

unfoldable pub decode_quadrant0 : ℕ → Run Insn
decode_quadrant0 word =
    let half = u16 word in
    let op = copcode word in
    if op == 0x0
    then with_imm (record (insn_ciwtype_read half) { rs1 = reg_sp; type = addi })
    else if op == 0x1
    then ok (record (insn_cltype_read2 half) { type = fld })
    else if op == 0x2
    then ok (record (insn_cltype_read half) { type = lw })
    else if op == 0x3
    then ok (record (insn_cltype_read2 half) { type = ld })
    else if op == 0x5
    then ok (record (insn_cstype_read half) { type = fsd })
    else if op == 0x6
    then ok (record (insn_cstype_read2 half) { type = sw })
    else if op == 0x7
    then ok (record (insn_cstype_read half) { type = sd })
    else fault fatal

-- `case 0x3` of quadrant 1: C.ADDI16SP and C.LUI.
unfoldable pub decode_c_lui : ℕ → Run Insn
decode_c_lui word =
    let i = insn_citype_read3 (u16 word) in
    if rc1 word == 2
    then with_imm (record i { rs1 = i.rd; type = addi })
    else with_imm (record (insn_citype_read5 (u16 word)) { type = lui })

-- `case 0x4` of quadrant 1: shifts by an immediate and the register operations.
unfoldable pub decode_c_alu : ℕ → Run Insn
decode_c_alu word =
    let i = insn_cbtype_read2 (u16 word) in
    let r = insn_catype_read (u16 word) in
    let high = cfunct2high word in
    if high == 0x0
    then ok (record i { rs1 = i.rd; type = srli })
    else if high == 0x1
    then ok (record i { rs1 = i.rd; type = srai })
    else if high == 0x2
    then ok (record i { rs1 = i.rd; type = andi })
    else if cfunct1 word == 0x0
    then typed (record r { rs1 = r.rd })
        (pick ((0x0, sub) ∷ (0x1, xor) ∷ (0x2, or) ∷ (0x3, and) ∷ []) (cfunct2low word))
    else typed (record r { rs1 = r.rd }) (pick ((0x0, subw) ∷ (0x1, addw) ∷ []) (cfunct2low word))

unfoldable pub decode_quadrant1 : ℕ → Run Insn
decode_quadrant1 word =
    let half = u16 word in
    let i = insn_citype_read half in
    let op = copcode word in
    if op == 0x0
    then ok (record i { rs1 = i.rd; type = addi })
    else if op == 0x1
    then with_rd (record i { rs1 = i.rd; type = addiw })
    else if op == 0x2
    then ok (record i { rs1 = reg_zero; type = addi })
    else if op == 0x3
    then decode_c_lui word
    else if op == 0x4
    then decode_c_alu word
    else if op == 0x5
    then ok (record (insn_cjtype_read half) { rd = reg_zero; type = jal; cont = true })
    else if op == 0x6
    then ok (record (insn_cbtype_read half) { rs2 = reg_zero; type = beq })
    else if op == 0x7
    then ok (record (insn_cbtype_read half) { rs2 = reg_zero; type = bne })
    else fault fatal

-- `case 0x4` of quadrant 2: C.JR, C.MV, C.JALR and C.ADD; C.EBREAK is not implemented.
unfoldable pub decode_c_jump : ℕ → Run Insn
decode_c_jump word =
    let i = insn_crtype_read (u16 word) in
    if cfunct1 word == 0x0
    then (if i.rs2 == 0
        then assert (not (i.rs1 == 0)) >> ok (record i { rd = reg_zero; type = jalr; cont = true })
        else ok (record i { rd = i.rs1; rs1 = reg_zero; type = add }))
    else if (i.rs1 == 0) && (i.rs2 == 0)
    then fault fatal
    else if i.rs2 == 0
    then ok (record i { rd = reg_ra; type = jalr; cont = true })
    else ok (record i { rd = i.rs1; type = add })

unfoldable pub decode_quadrant2 : ℕ → Run Insn
decode_quadrant2 word =
    let half = u16 word in
    let i = insn_citype_read half in
    let op = copcode word in
    if op == 0x0
    then ok (record i { rs1 = i.rd; type = slli })
    else if op == 0x1
    then ok (record (insn_citype_read2 half) { rs1 = reg_sp; type = fld })
    else if op == 0x2
    then with_rd (record (insn_citype_read4 half) { rs1 = reg_sp; type = lw })
    else if op == 0x3
    then with_rd (record (insn_citype_read2 half) { rs1 = reg_sp; type = ld })
    else if op == 0x4
    then decode_c_jump word
    else if op == 0x5
    then ok (record (insn_csstype_read half) { rs1 = reg_sp; type = fsd })
    else if op == 0x6
    then ok (record (insn_csstype_read2 half) { rs1 = reg_sp; type = sw })
    else if op == 0x7
    then ok (record (insn_csstype_read half) { rs1 = reg_sp; type = sd })
    else fault fatal
