-- ===== src/Decode/Encode.antt =====
-- The layouts of the 32-bit instruction formats, as the RISC-V manual draws them: what the readers
-- of `Formats` take apart. Immediates are bit patterns of their format's width.
use riscvemu_study.Prelude.{ℕ, ◌+◌, ◌*◌, ◌/◌, ◌%◌, ◌^◌}

-- `low` is the opcode with the two low bits, and `funct` the function code of the format.
abbrev pub encode_rtype : ℕ → ℕ → ℕ → ℕ → ℕ → ℕ → ℕ
encode_rtype funct7 rs2 rs1 funct rd low =
    funct7 * 2 ^ 25 + rs2 * 2 ^ 20 + rs1 * 2 ^ 15 + funct * 2 ^ 12 + rd * 2 ^ 7 + low

abbrev pub encode_itype : ℕ → ℕ → ℕ → ℕ → ℕ → ℕ
encode_itype imm rs1 funct rd low = imm * 2 ^ 20 + rs1 * 2 ^ 15 + funct * 2 ^ 12 + rd * 2 ^ 7 + low

abbrev pub encode_stype : ℕ → ℕ → ℕ → ℕ → ℕ → ℕ
encode_stype imm rs2 rs1 funct low =
    imm / 32 * 2 ^ 25 + rs2 * 2 ^ 20 + rs1 * 2 ^ 15 + funct * 2 ^ 12 + imm % 32 * 2 ^ 7 + low

abbrev pub encode_btype : ℕ → ℕ → ℕ → ℕ → ℕ → ℕ
encode_btype imm rs2 rs1 funct low =
    imm / 4096 * 2 ^ 31
    + imm / 32 % 64 * 2 ^ 25
    + rs2 * 2 ^ 20
    + rs1 * 2 ^ 15
    + funct * 2 ^ 12
    + imm / 2 % 16 * 2 ^ 8
    + imm / 2048 % 2 * 2 ^ 7
    + low

abbrev pub encode_utype : ℕ → ℕ → ℕ → ℕ
encode_utype imm rd low = imm * 2 ^ 12 + rd * 2 ^ 7 + low

abbrev pub encode_jtype : ℕ → ℕ → ℕ → ℕ
encode_jtype imm rd low =
    imm / 2 ^ 20 * 2 ^ 31
    + imm / 2 % 1024 * 2 ^ 21
    + imm / 2048 % 2 * 2 ^ 20
    + imm / 4096 % 256 * 2 ^ 12
    + rd * 2 ^ 7
    + low
