-- ===== src/Decode/RoundTrip.antt =====
-- The readers of the 32-bit formats on encoded instructions.
use riscvemu_study.Prelude.{
  ℕ, ◌+◌, ◌*◌, ◌/◌, ◌%◌, ◌^◌, ◌<◌, ◌≡◌, refl, arith, bit_and, bit_or, u32, sext, ◌∙◌, ◌<<<◌, ◌>>>◌,
}
use riscvemu_study.Prelude.Bits.{bit_or_field, bit_or_above, bit_and_mask, bit_and_high}
use riscvemu_study.Insn.{zeroed}
use riscvemu_study.Decode.Fields.{rd_field, rs1_field, rs2_field}
use riscvemu_study.Decode.Formats.{
  insn_rtype_read, insn_itype_read, insn_stype_read, insn_btype_read, insn_utype_read,
  insn_jtype_read,
}
use riscvemu_study.Decode.Encode.{
  encode_rtype, encode_itype, encode_stype, encode_btype, encode_utype, encode_jtype,
}

join_btype :
    (a b c d : ℕ)
    → a < 2
    → b < 2
    → c < 64
    → d < 16
    → bit_or (bit_or (bit_or (a <<< 12) (b <<< 11)) (c <<< 5)) (d <<< 1)
      ≡ a * 4096 + b * 2048 + c * 32 + d * 2
join_btype a b c d ha hb hc hd =
    let first = bit_or_field 11 1 (a * 4096) b (omega arith) hb in
    let second = bit_or_field 5 6 (a * 4096 + b * 2048) c (omega arith) hc in
    let third = bit_or_field 1 4 (a * 4096 + b * 2048 + c * 32) d (omega arith) hd in
    rw (first, second, third) refl

-- The registers and the branch offset of an encoded branch are read back, the offset extended
-- from 13 bits to 32.
pub insn_btype_read-encode_btype :
    (imm rs2 rs1 funct low : ℕ)
    → imm < 2 ^ 13
    → imm % 2 ≡ 0
    → rs2 < 32
    → rs1 < 32
    → funct < 8
    → low < 128
    → insn_btype_read (encode_btype imm rs2 rs1 funct low)
      ≡ record zeroed { rs1 = rs1; rs2 = rs2; imm = u32 (sext 13 imm) }
unfolding insn_btype_read
insn_btype_read-encode_btype imm rs2 rs1 funct low hi he h2 h1 hf hl =
    let word = encode_btype imm rs2 rs1 funct low in
    let joined =
      join_btype (imm / 4096) (imm / 2048 % 2) (imm / 32 % 64) (imm / 2 % 16) (omega arith)
        (omega arith) (omega arith) (omega arith) in
    let a : bit_and (word >>> 31) 0x1 ≡ imm / 4096 = bit_and_mask 1 (word >>> 31) ∙ omega arith in
    let b : bit_and (word >>> 25) 0x3f ≡ imm / 32 % 64 =
      bit_and_mask 6 (word >>> 25) ∙ omega arith in
    let c : bit_and (word >>> 8) 0xf ≡ imm / 2 % 16 = bit_and_mask 4 (word >>> 8) ∙ omega arith in
    let d : bit_and (word >>> 7) 0x1 ≡ imm / 2048 % 2 = bit_and_mask 1 (word >>> 7) ∙ omega arith in
    let e : rs1_field word ≡ rs1 = bit_and_mask 5 (word >>> 15) ∙ omega arith in
    let f : rs2_field word ≡ rs2 = bit_and_mask 5 (word >>> 20) ∙ omega arith in
    rw (a, b, c, d, e, f, joined) (ground arith)

join_jtype :
    (a b c d : ℕ)
    → a < 2
    → b < 256
    → c < 2
    → d < 1024
    → bit_or (bit_or (bit_or (a <<< 20) (b <<< 12)) (c <<< 11)) (d <<< 1)
      ≡ a * 2 ^ 20 + b * 4096 + c * 2048 + d * 2
join_jtype a b c d ha hb hc hd =
    let first = bit_or_field 12 8 (a * 2 ^ 20) b (omega arith) hb in
    let second = bit_or_field 11 1 (a * 2 ^ 20 + b * 4096) c (omega arith) hc in
    let third = bit_or_field 1 10 (a * 2 ^ 20 + b * 4096 + c * 2048) d (omega arith) hd in
    rw (first, second, third) refl

-- The register and the offset of an encoded jump are read back, the offset extended from 21 bits
-- to 32.
pub insn_jtype_read-encode_jtype :
    (imm rd low : ℕ)
    → imm < 2 ^ 21
    → imm % 2 ≡ 0
    → rd < 32
    → low < 128
    → insn_jtype_read (encode_jtype imm rd low) ≡ record zeroed { rd = rd; imm = u32 (sext 21 imm) }
unfolding insn_jtype_read
insn_jtype_read-encode_jtype imm rd low hi he hd hl =
    let word = encode_jtype imm rd low in
    let joined =
      join_jtype (imm / 2 ^ 20) (imm / 4096 % 256) (imm / 2048 % 2) (imm / 2 % 1024) (omega arith)
        (omega arith) (omega arith) (omega arith) in
    let a : bit_and (word >>> 31) 0x1 ≡ imm / 2 ^ 20 = bit_and_mask 1 (word >>> 31) ∙ omega arith in
    let b : bit_and (word >>> 21) 0x3ff ≡ imm / 2 % 1024 =
      bit_and_mask 10 (word >>> 21) ∙ omega arith in
    let c : bit_and (word >>> 20) 0x1 ≡ imm / 2048 % 2 =
      bit_and_mask 1 (word >>> 20) ∙ omega arith in
    let d : bit_and (word >>> 12) 0xff ≡ imm / 4096 % 256 =
      bit_and_mask 8 (word >>> 12) ∙ omega arith in
    let e : rd_field word ≡ rd = bit_and_mask 5 (word >>> 7) ∙ omega arith in
    rw (a, b, c, d, e, joined) (ground arith)

-- The registers and the offset of an encoded store are read back, the offset extended from 12 bits
-- to 32.
pub insn_stype_read-encode_stype :
    (imm rs2 rs1 funct low : ℕ)
    → imm < 2 ^ 12
    → rs2 < 32
    → rs1 < 32
    → funct < 8
    → low < 128
    → insn_stype_read (encode_stype imm rs2 rs1 funct low)
      ≡ record zeroed { rs1 = rs1; rs2 = rs2; imm = u32 (sext 12 imm) }
unfolding insn_stype_read
insn_stype_read-encode_stype imm rs2 rs1 funct low hi h2 h1 hf hl =
    let word = encode_stype imm rs2 rs1 funct low in
    let joined : bit_or (imm / 32 <<< 5) (imm % 32) ≡ imm =
      bit_or_above 5 (imm / 32) (imm % 32) (omega arith) ∙ omega arith in
    let a : bit_and (word >>> 25) 0x7f ≡ imm / 32 = bit_and_mask 7 (word >>> 25) ∙ omega arith in
    let b : bit_and (word >>> 7) 0x1f ≡ imm % 32 = bit_and_mask 5 (word >>> 7) ∙ omega arith in
    let e : rs1_field word ≡ rs1 = bit_and_mask 5 (word >>> 15) ∙ omega arith in
    let f : rs2_field word ≡ rs2 = bit_and_mask 5 (word >>> 20) ∙ omega arith in
    rw (a, b, e, f, joined) (ground arith)

-- The registers and the immediate of an encoded immediate operation, load or `jalr` are read back,
-- the immediate extended from 12 bits to 32.
pub insn_itype_read-encode_itype :
    (imm rs1 funct rd low : ℕ)
    → imm < 2 ^ 12
    → rs1 < 32
    → funct < 8
    → rd < 32
    → low < 128
    → insn_itype_read (encode_itype imm rs1 funct rd low)
      ≡ record zeroed { rd = rd; rs1 = rs1; imm = u32 (sext 12 imm) }
unfolding insn_itype_read
insn_itype_read-encode_itype imm rs1 funct rd low hi h1 hf hd hl =
    let word = encode_itype imm rs1 funct rd low in
    let a : rs1_field word ≡ rs1 = bit_and_mask 5 (word >>> 15) ∙ omega arith in
    let b : rd_field word ≡ rd = bit_and_mask 5 (word >>> 7) ∙ omega arith in
    rw (a, b) (ground arith)

-- The register and the upper immediate of an encoded `lui` or `auipc` are read back.
pub insn_utype_read-encode_utype :
    (imm rd low : ℕ)
    → imm < 2 ^ 20
    → rd < 32
    → low < 128
    → insn_utype_read (encode_utype imm rd low) ≡ record zeroed { rd = rd; imm = imm * 2 ^ 12 }
unfolding insn_utype_read
insn_utype_read-encode_utype imm rd low hi hd hl =
    let word = encode_utype imm rd low in
    let a : bit_and word 0xfffff000 ≡ imm * 2 ^ 12 = bit_and_high 12 20 word ∙ omega arith in
    let b : rd_field word ≡ rd = bit_and_mask 5 (word >>> 7) ∙ omega arith in rw (a, b) refl

-- The three registers of an encoded register operation are read back.
pub insn_rtype_read-encode_rtype :
    (funct7 rs2 rs1 funct rd low : ℕ)
    → funct7 < 128
    → rs2 < 32
    → rs1 < 32
    → funct < 8
    → rd < 32
    → low < 128
    → insn_rtype_read (encode_rtype funct7 rs2 rs1 funct rd low)
      ≡ record zeroed { rd = rd; rs1 = rs1; rs2 = rs2 }
unfolding insn_rtype_read
insn_rtype_read-encode_rtype funct7 rs2 rs1 funct rd low h7 h2 h1 hf hd hl =
    let word = encode_rtype funct7 rs2 rs1 funct rd low in
    let a : rs1_field word ≡ rs1 = bit_and_mask 5 (word >>> 15) ∙ omega arith in
    let b : rs2_field word ≡ rs2 = bit_and_mask 5 (word >>> 20) ∙ omega arith in
    let c : rd_field word ≡ rd = bit_and_mask 5 (word >>> 7) ∙ omega arith in rw (a, b, c) refl
