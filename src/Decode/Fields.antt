-- ===== src/Decode/Fields.antt =====
-- The macros of src/decode.c that cut fields out of an instruction word.
use riscvemu_study.Prelude.{ℕ, bit_and, ◌>>>◌}

abbrev pub quadrant : ℕ → ℕ
quadrant word = bit_and word 0x3

abbrev pub opcode : ℕ → ℕ
opcode word = bit_and (word >>> 2) 0x1f

abbrev pub rd_field : ℕ → ℕ
rd_field word = bit_and (word >>> 7) 0x1f

abbrev pub rs1_field : ℕ → ℕ
rs1_field word = bit_and (word >>> 15) 0x1f

abbrev pub rs2_field : ℕ → ℕ
rs2_field word = bit_and (word >>> 20) 0x1f

abbrev pub rs3_field : ℕ → ℕ
rs3_field word = bit_and (word >>> 27) 0x1f

abbrev pub funct2 : ℕ → ℕ
funct2 word = bit_and (word >>> 25) 0x3

abbrev pub funct3 : ℕ → ℕ
funct3 word = bit_and (word >>> 12) 0x7

abbrev pub funct7 : ℕ → ℕ
funct7 word = bit_and (word >>> 25) 0x7f

abbrev pub imm116 : ℕ → ℕ
imm116 word = bit_and (word >>> 26) 0x3f

abbrev pub copcode : ℕ → ℕ
copcode word = bit_and (word >>> 13) 0x7

abbrev pub cfunct1 : ℕ → ℕ
cfunct1 word = bit_and (word >>> 12) 0x1

abbrev pub cfunct2low : ℕ → ℕ
cfunct2low word = bit_and (word >>> 5) 0x3

abbrev pub cfunct2high : ℕ → ℕ
cfunct2high word = bit_and (word >>> 10) 0x3

abbrev pub rp1 : ℕ → ℕ
rp1 word = bit_and (word >>> 7) 0x7

abbrev pub rp2 : ℕ → ℕ
rp2 word = bit_and (word >>> 2) 0x7

abbrev pub rc1 : ℕ → ℕ
rc1 word = bit_and (word >>> 7) 0x1f

abbrev pub rc2 : ℕ → ℕ
rc2 word = bit_and (word >>> 2) 0x1f
