-- ===== src/Decode/Base.antt =====
-- The integer opcodes of quadrant 3 of `insn_decode`.
use riscvemu_study.Prelude.{ℕ, [], ◌∷◌, ◌==◌, if◌then◌else◌}
use riscvemu_study.Prelude.{Run, ok, fault, unreachable, fatal, ◌>>◌, assert, true}
use riscvemu_study.Insn.{
  InsnType, Insn, zeroed, lb, lh, lw, ld, lbu, lhu, lwu, flw, fld, fence, fence_i, addi, slli, slti,
  sltiu, xori, srli, srai, ori, andi, addiw, slliw, srliw, sraiw, sb, sh, sw, sd, fsw, fsd, add,
  sll, slt, sltu, xor, srl, or, and, mul, mulh, mulhsu, mulhu, div, divu, rem, remu, sub, sra, addw,
  sllw, srlw, mulw, divw, divuw, remw, remuw, subw, sraw, beq, bne, blt, bge, bltu, bgeu, ecall,
  csrrw, csrrs, csrrc, csrrwi, csrrsi, csrrci,
}
use riscvemu_study.Decode.Fields.{funct3, funct7, imm116}
use riscvemu_study.Decode.Select.{pick, typed}
use riscvemu_study.Decode.Formats.{
  insn_itype_read, insn_stype_read, insn_rtype_read, insn_btype_read, insn_csrtype_read,
}

-- opcode 0x0
unfoldable pub load_type : ℕ → Run InsnType
load_type = pick ((0, lb) ∷ (1, lh) ∷ (2, lw) ∷ (3, ld) ∷ (4, lbu) ∷ (5, lhu) ∷ (6, lwu) ∷ [])

-- opcode 0x4
unfoldable pub op_imm_type : ℕ → Run InsnType
op_imm_type word =
    let f3 = funct3 word in
    if f3 == 0x1
    then pick ((0x0, slli) ∷ []) (imm116 word)
    else if f3 == 0x5
    then pick ((0x0, srli) ∷ (0x10, srai) ∷ []) (imm116 word)
    else pick
        ((0x0, addi) ∷ (0x2, slti) ∷ (0x3, sltiu) ∷ (0x4, xori) ∷ (0x6, ori) ∷ (0x7, andi) ∷ []) f3

-- opcode 0x6
unfoldable pub op_imm32_type : ℕ → Run InsnType
op_imm32_type word =
    let f3 = funct3 word in
    if f3 == 0x0
    then ok addiw
    else if f3 == 0x1
    then assert (funct7 word == 0) >> ok slliw
    else if f3 == 0x5
    then pick ((0x0, srliw) ∷ (0x20, sraiw) ∷ []) (funct7 word)
    else fault fatal

-- opcode 0xc
unfoldable pub op_type : ℕ → ℕ → Run InsnType
op_type f7 f3 =
    if f7 == 0x0
    then pick
        ((0, add) ∷ (1, sll) ∷ (2, slt) ∷ (3, sltu) ∷ (4, xor) ∷ (5, srl) ∷ (6, or) ∷ (7, and) ∷ [])
        f3
    else if f7 == 0x1
    then pick
        ((0, mul)
          ∷ (1, mulh)
          ∷ (2, mulhsu)
          ∷ (3, mulhu)
          ∷ (4, div)
          ∷ (5, divu)
          ∷ (6, rem)
          ∷ (7, remu)
          ∷ [])
        f3
    else if f7 == 0x20
    then pick ((0, sub) ∷ (5, sra) ∷ []) f3
    else fault unreachable

-- opcode 0xe
unfoldable pub op32_type : ℕ → ℕ → Run InsnType
op32_type f7 f3 =
    if f7 == 0x0
    then pick ((0, addw) ∷ (1, sllw) ∷ (5, srlw) ∷ []) f3
    else if f7 == 0x1
    then pick ((0, mulw) ∷ (4, divw) ∷ (5, divuw) ∷ (6, remw) ∷ (7, remuw) ∷ []) f3
    else if f7 == 0x20
    then pick ((0, subw) ∷ (5, sraw) ∷ []) f3
    else fault unreachable

-- opcode 0x18
unfoldable pub branch_type : ℕ → Run InsnType
branch_type = pick ((0, beq) ∷ (1, bne) ∷ (4, blt) ∷ (5, bge) ∷ (6, bltu) ∷ (7, bgeu) ∷ [])

-- opcodes 0x0, 0x1, 0x3, 0x4 and 0x6
unfoldable pub decode_load : ℕ → Run Insn
decode_load word = typed (insn_itype_read word) (load_type (funct3 word))

unfoldable pub decode_load_fp : ℕ → Run Insn
decode_load_fp word = typed (insn_itype_read word) (pick ((2, flw) ∷ (3, fld) ∷ []) (funct3 word))

unfoldable pub decode_misc_mem : ℕ → Run Insn
decode_misc_mem word = typed zeroed (pick ((0, fence) ∷ (1, fence_i) ∷ []) (funct3 word))

unfoldable pub decode_op_imm : ℕ → Run Insn
decode_op_imm word = typed (insn_itype_read word) (op_imm_type word)

unfoldable pub decode_op_imm32 : ℕ → Run Insn
decode_op_imm32 word = typed (insn_itype_read word) (op_imm32_type word)

-- opcodes 0x8, 0x9, 0xc, 0xe and 0x18
unfoldable pub decode_store : ℕ → Run Insn
decode_store word =
    typed (insn_stype_read word) (pick ((0, sb) ∷ (1, sh) ∷ (2, sw) ∷ (3, sd) ∷ []) (funct3 word))

unfoldable pub decode_store_fp : ℕ → Run Insn
decode_store_fp word = typed (insn_stype_read word) (pick ((2, fsw) ∷ (3, fsd) ∷ []) (funct3 word))

unfoldable pub decode_op : ℕ → Run Insn
decode_op word = typed (insn_rtype_read word) (op_type (funct7 word) (funct3 word))

unfoldable pub decode_op32 : ℕ → Run Insn
decode_op32 word = typed (insn_rtype_read word) (op32_type (funct7 word) (funct3 word))

unfoldable pub decode_branch : ℕ → Run Insn
decode_branch word = typed (insn_btype_read word) (branch_type (funct3 word))

-- opcode 0x1c; ECALL changes only `type` and `cont` of what `*insn` held before.
unfoldable pub decode_system : Insn → ℕ → Run Insn
decode_system prev word =
    if word == 0x73
    then ok (record prev { type = ecall; cont = true })
    else typed (insn_csrtype_read word) (
        pick ((1, csrrw) ∷ (2, csrrs) ∷ (3, csrrc) ∷ (5, csrrwi) ∷ (6, csrrsi) ∷ (7, csrrci) ∷ [])
          (funct3 word))
