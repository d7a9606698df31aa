-- ===== src/Decode/Dispatch.antt =====
-- `insn_decode` of src/decode.c: the switch over quadrants, and over the opcodes of quadrant 3.
use riscvemu_study.Prelude.{ℕ, ◌==◌, if◌then◌else◌, Run, ok, fault, unreachable, true}
use riscvemu_study.Insn.{Insn, auipc, lui, jalr, jal}
use riscvemu_study.Decode.Fields.{quadrant, opcode}
use riscvemu_study.Decode.Formats.{insn_utype_read, insn_itype_read, insn_jtype_read}
use riscvemu_study.Decode.Rvc.{decode_quadrant0, decode_quadrant1, decode_quadrant2}
use riscvemu_study.Decode.Base.{
  decode_load, decode_load_fp, decode_misc_mem, decode_op_imm, decode_op_imm32, decode_store,
  decode_store_fp, decode_op, decode_op32, decode_branch, decode_system,
}
use riscvemu_study.Decode.Float.{
  decode_fmadd, decode_fmsub, decode_fnmsub, decode_fnmadd, decode_op_fp,
}

unfoldable pub decode_quadrant3 : Insn → ℕ → Run Insn
decode_quadrant3 prev word =
    let op = opcode word in
    if op == 0x0
    then decode_load word
    else if op == 0x1
    then decode_load_fp word
    else if op == 0x3
    then decode_misc_mem word
    else if op == 0x4
    then decode_op_imm word
    else if op == 0x5
    then ok (record (insn_utype_read word) { type = auipc })
    else if op == 0x6
    then decode_op_imm32 word
    else if op == 0x8
    then decode_store word
    else if op == 0x9
    then decode_store_fp word
    else if op == 0xc
    then decode_op word
    else if op == 0xd
    then ok (record (insn_utype_read word) { type = lui })
    else if op == 0xe
    then decode_op32 word
    else if op == 0x10
    then decode_fmadd word
    else if op == 0x11
    then decode_fmsub word
    else if op == 0x12
    then decode_fnmsub word
    else if op == 0x13
    then decode_fnmadd word
    else if op == 0x14
    then decode_op_fp word
    else if op == 0x18
    then decode_branch word
    else if op == 0x19
    then ok (record (insn_itype_read word) { type = jalr; cont = true })
    else if op == 0x1b
    then ok (record (insn_jtype_read word) { type = jal; cont = true })
    else if op == 0x1c
    then decode_system prev word
    else fault unreachable

unfoldable pub insn_decode : Insn → ℕ → Run Insn
insn_decode prev word =
    let q = quadrant word in
    if q == 0x0
    then decode_quadrant0 word
    else if q == 0x1
    then decode_quadrant1 word
    else if q == 0x2
    then decode_quadrant2 word
    else decode_quadrant3 prev word
