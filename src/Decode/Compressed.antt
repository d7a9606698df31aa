-- ===== src/Decode/Compressed.antt =====
-- The readers of the compressed (RVC) instruction formats of src/decode.c, on a u16.
use riscvemu_study.Prelude.{ℕ, ◌+◌, bit_and, bit_or, ◌<<<◌, ◌>>>◌, u32, sar32, true}
use riscvemu_study.Insn.{Insn, zeroed}
use riscvemu_study.Decode.Fields.{rp1, rp2, rc1, rc2}

unfoldable pub insn_catype_read : ℕ → Insn
insn_catype_read half = record zeroed { rd = rp1 half + 8; rs2 = rp2 half + 8; rvc = true }

unfoldable pub insn_crtype_read : ℕ → Insn
insn_crtype_read half = record zeroed { rs1 = rc1 half; rs2 = rc2 half; rvc = true }

unfoldable pub insn_citype_read : ℕ → Insn
insn_citype_read half =
    let imm40 = bit_and (half >>> 2) 0x1f in
    let imm5 = bit_and (half >>> 12) 0x1 in
    let imm = bit_or (imm5 <<< 5) imm40 in
    record zeroed { rd = rc1 half; imm = sar32 (u32 (imm <<< 26)) 26; rvc = true }

unfoldable pub insn_citype_read2 : ℕ → Insn
insn_citype_read2 half =
    let imm86 = bit_and (half >>> 2) 0x7 in
    let imm43 = bit_and (half >>> 5) 0x3 in
    let imm5 = bit_and (half >>> 12) 0x1 in
    let imm = bit_or (bit_or (imm86 <<< 6) (imm43 <<< 3)) (imm5 <<< 5) in
    record zeroed { rd = rc1 half; imm = imm; rvc = true }

unfoldable pub insn_citype_read3 : ℕ → Insn
insn_citype_read3 half =
    let imm5 = bit_and (half >>> 2) 0x1 in
    let imm87 = bit_and (half >>> 3) 0x3 in
    let imm6 = bit_and (half >>> 5) 0x1 in
    let imm4 = bit_and (half >>> 6) 0x1 in
    let imm9 = bit_and (half >>> 12) 0x1 in
    let imm =
      bit_or (bit_or (bit_or (bit_or (imm5 <<< 5) (imm87 <<< 7)) (imm6 <<< 6)) (imm4 <<< 4))
        (imm9 <<< 9) in
    record zeroed { rd = rc1 half; imm = sar32 (u32 (imm <<< 22)) 22; rvc = true }

unfoldable pub insn_citype_read4 : ℕ → Insn
insn_citype_read4 half =
    let imm5 = bit_and (half >>> 12) 0x1 in
    let imm42 = bit_and (half >>> 4) 0x7 in
    let imm76 = bit_and (half >>> 2) 0x3 in
    let imm = bit_or (bit_or (imm5 <<< 5) (imm42 <<< 2)) (imm76 <<< 6) in
    record zeroed { rd = rc1 half; imm = imm; rvc = true }

unfoldable pub insn_citype_read5 : ℕ → Insn
insn_citype_read5 half =
    let imm1612 = bit_and (half >>> 2) 0x1f in
    let imm17 = bit_and (half >>> 12) 0x1 in
    let imm = bit_or (imm1612 <<< 12) (imm17 <<< 17) in
    record zeroed { rd = rc1 half; imm = sar32 (u32 (imm <<< 14)) 14; rvc = true }

unfoldable pub insn_cbtype_read : ℕ → Insn
insn_cbtype_read half =
    let imm5 = bit_and (half >>> 2) 0x1 in
    let imm21 = bit_and (half >>> 3) 0x3 in
    let imm76 = bit_and (half >>> 5) 0x3 in
    let imm43 = bit_and (half >>> 10) 0x3 in
    let imm8 = bit_and (half >>> 12) 0x1 in
    let imm =
      bit_or (bit_or (bit_or (bit_or (imm8 <<< 8) (imm76 <<< 6)) (imm5 <<< 5)) (imm43 <<< 3))
        (imm21 <<< 1) in
    record zeroed { rs1 = rp1 half + 8; imm = sar32 (u32 (imm <<< 23)) 23; rvc = true }

unfoldable pub insn_cbtype_read2 : ℕ → Insn
insn_cbtype_read2 half =
    let imm40 = bit_and (half >>> 2) 0x1f in
    let imm5 = bit_and (half >>> 12) 0x1 in
    let imm = bit_or (imm5 <<< 5) imm40 in
    record zeroed { rd = rp1 half + 8; imm = sar32 (u32 (imm <<< 26)) 26; rvc = true }

unfoldable pub insn_cstype_read : ℕ → Insn
insn_cstype_read half =
    let imm76 = bit_and (half >>> 5) 0x3 in
    let imm53 = bit_and (half >>> 10) 0x7 in
    let imm = bit_or (imm76 <<< 6) (imm53 <<< 3) in
    record zeroed { rs1 = rp1 half + 8; rs2 = rp2 half + 8; imm = imm; rvc = true }

unfoldable pub insn_cstype_read2 : ℕ → Insn
insn_cstype_read2 half =
    let imm6 = bit_and (half >>> 5) 0x1 in
    let imm2 = bit_and (half >>> 6) 0x1 in
    let imm53 = bit_and (half >>> 10) 0x7 in
    let imm = bit_or (bit_or (imm6 <<< 6) (imm2 <<< 2)) (imm53 <<< 3) in
    record zeroed { rs1 = rp1 half + 8; rs2 = rp2 half + 8; imm = imm; rvc = true }

unfoldable pub insn_cjtype_read : ℕ → Insn
insn_cjtype_read half =
    let imm5 = bit_and (half >>> 2) 0x1 in
    let imm31 = bit_and (half >>> 3) 0x7 in
    let imm7 = bit_and (half >>> 6) 0x1 in
    let imm6 = bit_and (half >>> 7) 0x1 in
    let imm10 = bit_and (half >>> 8) 0x1 in
    let imm98 = bit_and (half >>> 9) 0x3 in
    let imm4 = bit_and (half >>> 11) 0x1 in
    let imm11 = bit_and (half >>> 12) 0x1 in
    let low = bit_or (bit_or (bit_or (imm5 <<< 5) (imm31 <<< 1)) (imm7 <<< 7)) (imm6 <<< 6) in
    let imm =
      bit_or (bit_or (bit_or (bit_or low (imm10 <<< 10)) (imm98 <<< 8)) (imm4 <<< 4))
        (imm11 <<< 11) in
    record zeroed { imm = sar32 (u32 (imm <<< 20)) 20; rvc = true }

unfoldable pub insn_cltype_read : ℕ → Insn
insn_cltype_read half =
    let imm6 = bit_and (half >>> 5) 0x1 in
    let imm2 = bit_and (half >>> 6) 0x1 in
    let imm53 = bit_and (half >>> 10) 0x7 in
    let imm = bit_or (bit_or (imm6 <<< 6) (imm2 <<< 2)) (imm53 <<< 3) in
    record zeroed { rd = rp2 half + 8; rs1 = rp1 half + 8; imm = imm; rvc = true }

unfoldable pub insn_cltype_read2 : ℕ → Insn
insn_cltype_read2 half =
    let imm76 = bit_and (half >>> 5) 0x3 in
    let imm53 = bit_and (half >>> 10) 0x7 in
    let imm = bit_or (imm76 <<< 6) (imm53 <<< 3) in
    record zeroed { rd = rp2 half + 8; rs1 = rp1 half + 8; imm = imm; rvc = true }

unfoldable pub insn_csstype_read : ℕ → Insn
insn_csstype_read half =
    let imm86 = bit_and (half >>> 7) 0x7 in
    let imm53 = bit_and (half >>> 10) 0x7 in
    let imm = bit_or (imm86 <<< 6) (imm53 <<< 3) in
    record zeroed { rs2 = rc2 half; imm = imm; rvc = true }

unfoldable pub insn_csstype_read2 : ℕ → Insn
insn_csstype_read2 half =
    let imm76 = bit_and (half >>> 7) 0x3 in
    let imm52 = bit_and (half >>> 9) 0xf in
    let imm = bit_or (imm76 <<< 6) (imm52 <<< 2) in
    record zeroed { rs2 = rc2 half; imm = imm; rvc = true }

unfoldable pub insn_ciwtype_read : ℕ → Insn
insn_ciwtype_read half =
    let imm3 = bit_and (half >>> 5) 0x1 in
    let imm2 = bit_and (half >>> 6) 0x1 in
    let imm96 = bit_and (half >>> 7) 0xf in
    let imm54 = bit_and (half >>> 11) 0x3 in
    let imm = bit_or (bit_or (bit_or (imm3 <<< 3) (imm2 <<< 2)) (imm96 <<< 6)) (imm54 <<< 4) in
    record zeroed { rd = rp2 half + 8; imm = imm; rvc = true }
