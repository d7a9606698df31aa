-- ===== src/Decode/Manual.antt =====
-- The 32-bit encodings of the integer instructions, loads and stores, by the tables of the RISC-V
-- manual: what `insn_decode` is to invert.
use riscvemu_study.Prelude.{
  ℕ, ◌+◌, ◌*◌, ◌%◌, ◌^◌, ◌==◌, ltb, ◌&&◌, Bool, true, Option, none, some, u32, sext,
}
use riscvemu_study.Insn.{
  InsnType, Insn, zeroed, add, sll, slt, sltu, xor, srl, or, and, mul, mulh, mulhsu, mulhu, div,
  divu, rem, remu, sub, sra, addw, sllw, srlw, mulw, divw, divuw, remw, remuw, subw, sraw, addi,
  slti, sltiu, xori, ori, andi, addiw, slli, srli, srai, slliw, srliw, sraiw, lb, lh, lw, ld, lbu,
  lhu, lwu, flw, fld, sb, sh, sw, sd, fsw, fsd, beq, bne, blt, bge, bltu, bgeu, lui, auipc, jal,
  jalr,
}
use riscvemu_study.Decode.Encode.{
  encode_rtype, encode_itype, encode_stype, encode_btype, encode_utype, encode_jtype,
}

-- A major opcode, with the function codes that it leaves open.
pub data Format : Type 0 where
  register register32 shift shift32 : ℕ → ℕ → Format
  immediate immediate32 load load_fp store store_fp branch : ℕ → Format
  upper upper_pc jump jump_register : Format

unfoldable pub format : InsnType → Option Format
format add = some (register 0x0 0)
format sll = some (register 0x0 1)
format slt = some (register 0x0 2)
format sltu = some (register 0x0 3)
format xor = some (register 0x0 4)
format srl = some (register 0x0 5)
format or = some (register 0x0 6)
format and = some (register 0x0 7)
format mul = some (register 0x1 0)
format mulh = some (register 0x1 1)
format mulhsu = some (register 0x1 2)
format mulhu = some (register 0x1 3)
format div = some (register 0x1 4)
format divu = some (register 0x1 5)
format rem = some (register 0x1 6)
format remu = some (register 0x1 7)
format sub = some (register 0x20 0)
format sra = some (register 0x20 5)
format addw = some (register32 0x0 0)
format sllw = some (register32 0x0 1)
format srlw = some (register32 0x0 5)
format mulw = some (register32 0x1 0)
format divw = some (register32 0x1 4)
format divuw = some (register32 0x1 5)
format remw = some (register32 0x1 6)
format remuw = some (register32 0x1 7)
format subw = some (register32 0x20 0)
format sraw = some (register32 0x20 5)
format addi = some (immediate 0)
format slti = some (immediate 2)
format sltiu = some (immediate 3)
format xori = some (immediate 4)
format ori = some (immediate 6)
format andi = some (immediate 7)
format addiw = some (immediate32 0)
format slli = some (shift 0x0 1)
format srli = some (shift 0x0 5)
format srai = some (shift 0x10 5)
format slliw = some (shift32 0x0 1)
format srliw = some (shift32 0x0 5)
format sraiw = some (shift32 0x20 5)
format lb = some (load 0)
format lh = some (load 1)
format lw = some (load 2)
format ld = some (load 3)
format lbu = some (load 4)
format lhu = some (load 5)
format lwu = some (load 6)
format flw = some (load_fp 2)
format fld = some (load_fp 3)
format sb = some (store 0)
format sh = some (store 1)
format sw = some (store 2)
format sd = some (store 3)
format fsw = some (store_fp 2)
format fsd = some (store_fp 3)
format beq = some (branch 0)
format bne = some (branch 1)
format blt = some (branch 4)
format bge = some (branch 5)
format bltu = some (branch 6)
format bgeu = some (branch 7)
format lui = some upper
format auipc = some upper_pc
format jal = some jump
format jalr = some jump_register
format t = none

-- The word with the operands `rd`, `rs1`, `rs2` and `imm`, of which a format may use some.
unfoldable pub encode : Format → ℕ → ℕ → ℕ → ℕ → ℕ
encode (register f7 f3) rd rs1 rs2 imm = encode_rtype f7 rs2 rs1 f3 rd 0x33
encode (register32 f7 f3) rd rs1 rs2 imm = encode_rtype f7 rs2 rs1 f3 rd 0x3b
encode (shift f6 f3) rd rs1 rs2 imm = encode_itype (f6 * 64 + imm) rs1 f3 rd 0x13
encode (shift32 f7 f3) rd rs1 rs2 imm = encode_itype (f7 * 32 + imm) rs1 f3 rd 0x1b
encode (immediate f3) rd rs1 rs2 imm = encode_itype imm rs1 f3 rd 0x13
encode (immediate32 f3) rd rs1 rs2 imm = encode_itype imm rs1 f3 rd 0x1b
encode (load f3) rd rs1 rs2 imm = encode_itype imm rs1 f3 rd 0x03
encode (load_fp f3) rd rs1 rs2 imm = encode_itype imm rs1 f3 rd 0x07
encode (store f3) rd rs1 rs2 imm = encode_stype imm rs2 rs1 f3 0x23
encode (store_fp f3) rd rs1 rs2 imm = encode_stype imm rs2 rs1 f3 0x27
encode (branch f3) rd rs1 rs2 imm = encode_btype imm rs2 rs1 f3 0x63
encode upper rd rs1 rs2 imm = encode_utype imm rd 0x37
encode upper_pc rd rs1 rs2 imm = encode_utype imm rd 0x17
encode jump rd rs1 rs2 imm = encode_jtype imm rd 0x6f
encode jump_register rd rs1 rs2 imm = encode_itype imm rs1 0 rd 0x67

-- The immediates that a format can hold, as bit patterns.
unfoldable pub holds_imm : Format → ℕ → Bool
holds_imm (register f7 f3) imm = true
holds_imm (register32 f7 f3) imm = true
holds_imm (shift f6 f3) imm = ltb imm 64
holds_imm (shift32 f7 f3) imm = ltb imm 32
holds_imm (branch f3) imm = ltb imm (2 ^ 13) && (imm % 2 == 0)
holds_imm upper imm = ltb imm (2 ^ 20)
holds_imm upper_pc imm = ltb imm (2 ^ 20)
holds_imm jump imm = ltb imm (2 ^ 21) && (imm % 2 == 0)
holds_imm f imm = ltb imm (2 ^ 12)

-- The operands as a decoder is to give them, immediates extended to 32 bits. A shift keeps its
-- function code above the amount, and an `rd` or `rs` that the format lacks is 0.
unfoldable pub operands : Format → ℕ → ℕ → ℕ → ℕ → Insn
operands (register f7 f3) rd rs1 rs2 imm = record zeroed { rd = rd; rs1 = rs1; rs2 = rs2 }
operands (register32 f7 f3) rd rs1 rs2 imm = record zeroed { rd = rd; rs1 = rs1; rs2 = rs2 }
operands (shift f6 f3) rd rs1 rs2 imm = record zeroed { rd = rd; rs1 = rs1; imm = f6 * 64 + imm }
operands (shift32 f7 f3) rd rs1 rs2 imm = record zeroed { rd = rd; rs1 = rs1; imm = f7 * 32 + imm }
operands (store f3) rd rs1 rs2 imm = record zeroed { rs1 = rs1; rs2 = rs2; imm = u32 (sext 12 imm) }
operands (store_fp f3) rd rs1 rs2 imm = record zeroed {
  rs1 = rs1;
  rs2 = rs2;
  imm = u32 (sext 12 imm);
}
operands (branch f3) rd rs1 rs2 imm = record zeroed {
  rs1 = rs1;
  rs2 = rs2;
  imm = u32 (sext 13 imm);
}
operands upper rd rs1 rs2 imm = record zeroed { rd = rd; imm = imm * 2 ^ 12 }
operands upper_pc rd rs1 rs2 imm = record zeroed { rd = rd; imm = imm * 2 ^ 12 }
operands jump rd rs1 rs2 imm = record zeroed { rd = rd; imm = u32 (sext 21 imm) }
operands f rd rs1 rs2 imm = record zeroed { rd = rd; rs1 = rs1; imm = u32 (sext 12 imm) }
