-- ===== src/Decode/Formats.antt =====
-- The readers of the 32-bit instruction formats of src/decode.c.
use riscvemu_study.Prelude.{ℕ, bit_and, bit_or, ◌<<<◌, ◌>>>◌, u32, sar32}
use riscvemu_study.Insn.{Insn, zeroed}
use riscvemu_study.Decode.Fields.{rd_field, rs1_field, rs2_field, rs3_field}

unfoldable pub insn_utype_read : ℕ → Insn
insn_utype_read word = record zeroed { rd = rd_field word; imm = bit_and word 0xfffff000 }

unfoldable pub insn_itype_read : ℕ → Insn
insn_itype_read word = record zeroed {
  rd = rd_field word;
  rs1 = rs1_field word;
  imm = sar32 word 20;
}

unfoldable pub insn_jtype_read : ℕ → Insn
insn_jtype_read word =
    let imm20 = bit_and (word >>> 31) 0x1 in
    let imm101 = bit_and (word >>> 21) 0x3ff in
    let imm11 = bit_and (word >>> 20) 0x1 in
    let imm1912 = bit_and (word >>> 12) 0xff in
    let imm =
      bit_or (bit_or (bit_or (imm20 <<< 20) (imm1912 <<< 12)) (imm11 <<< 11)) (imm101 <<< 1) in
    record zeroed { rd = rd_field word; imm = sar32 (u32 (imm <<< 11)) 11 }

unfoldable pub insn_btype_read : ℕ → Insn
insn_btype_read word =
    let imm12 = bit_and (word >>> 31) 0x1 in
    let imm105 = bit_and (word >>> 25) 0x3f in
    let imm41 = bit_and (word >>> 8) 0xf in
    let imm11 = bit_and (word >>> 7) 0x1 in
    let imm = bit_or (bit_or (bit_or (imm12 <<< 12) (imm11 <<< 11)) (imm105 <<< 5)) (imm41 <<< 1) in
    record zeroed { rs1 = rs1_field word; rs2 = rs2_field word; imm = sar32 (u32 (imm <<< 19)) 19 }

unfoldable pub insn_rtype_read : ℕ → Insn
insn_rtype_read word = record zeroed {
  rd = rd_field word;
  rs1 = rs1_field word;
  rs2 = rs2_field word;
}

unfoldable pub insn_stype_read : ℕ → Insn
insn_stype_read word =
    let imm115 = bit_and (word >>> 25) 0x7f in
    let imm40 = bit_and (word >>> 7) 0x1f in
    let imm = bit_or (imm115 <<< 5) imm40 in
    record zeroed { rs1 = rs1_field word; rs2 = rs2_field word; imm = sar32 (u32 (imm <<< 20)) 20 }

unfoldable pub insn_csrtype_read : ℕ → Insn
insn_csrtype_read word = record zeroed {
  rd = rd_field word;
  rs1 = rs1_field word;
  csr = word >>> 20;
}

unfoldable pub insn_fprtype_read : ℕ → Insn
insn_fprtype_read word = record zeroed {
  rd = rd_field word;
  rs1 = rs1_field word;
  rs2 = rs2_field word;
  rs3 = rs3_field word;
}
