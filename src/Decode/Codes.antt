-- ===== src/Decode/Codes.antt =====
-- The function codes of the manual and the instruction types that `insn_decode` sets.
use riscvemu_study.Prelude.{
  ◌/◌, ◌^◌, true, ℕ, ◌+◌, ◌*◌, ◌%◌, ◌<◌, ◌≡◌, refl, arith, ◌∙◌, ◌>>>◌, ok, some, false, [], ◌∷◌,
}
use riscvemu_study.Prelude.Bits.{bit_and_mask}
use riscvemu_study.Insn.{
  InsnType, Insn, add, flw, fld, sb, sh, sw, sd, fsw, fsd, lui, auipc, jal, jalr,
}
use riscvemu_study.Decode.Fields.{quadrant, opcode, funct3, funct7, imm116}
use riscvemu_study.Decode.Select.{pick}
use riscvemu_study.Decode.Base.{
  load_type, op_imm_type, op_imm32_type, op_type, op32_type, branch_type,
}
use riscvemu_study.Decode.Dispatch.{decode_quadrant3, insn_decode}
use riscvemu_study.Decode.IsDecoded.{is_jump}
use riscvemu_study.Decode.Manual.{Format, encode, holds_imm, operands}
use riscvemu_study.Decode.Manual.{
  register, register32, shift, shift32, immediate, immediate32, load, load_fp, store, store_fp,
  branch, upper, upper_pc, jump, jump_register, format,
}

-- A word of quadrant 3 is decoded by its opcode.
pub quadrant3 :
    (prev : Insn) (word op : ℕ)
    → word % 128 ≡ op * 4 + 3
    → op < 32
    → (insn_decode prev word ≡ decode_quadrant3 prev word) × (opcode word ≡ op)
unfolding insn_decode
quadrant3 prev word op h b =
    let q : quadrant word ≡ 3 = bit_and_mask 2 word ∙ omega arith in
    let o : opcode word ≡ op = bit_and_mask 5 (word >>> 2) ∙ omega arith in (rw q refl, o)

pub register_code :
    (t : InsnType) (f7 f3 : ℕ)
    → format t ≡ some (register f7 f3)
    → (op_type f7 f3 ≡ ok t) × (is_jump t ≡ false) × (f7 < 128) × (f3 < 8)
unfolding format op_type pick is_jump
register_code add f7 f3 e = ground arith
register_code _ f7 f3 e = ground arith

pub register32_code :
    (t : InsnType) (f7 f3 : ℕ)
    → format t ≡ some (register32 f7 f3)
    → (op32_type f7 f3 ≡ ok t) × (is_jump t ≡ false) × (f7 < 128) × (f3 < 8)
unfolding format op32_type pick is_jump
register32_code add f7 f3 e = ground arith
register32_code _ f7 f3 e = ground arith

pub load_code :
    (t : InsnType) (f3 : ℕ)
    → format t ≡ some (load f3)
    → (load_type f3 ≡ ok t) × (is_jump t ≡ false) × (f3 < 8)
unfolding format load_type pick is_jump
load_code add f3 e = ground arith
load_code _ f3 e = ground arith

pub load_fp_code :
    (t : InsnType) (f3 : ℕ)
    → format t ≡ some (load_fp f3)
    → (pick ((2, flw) ∷ (3, fld) ∷ []) f3 ≡ ok t) × (is_jump t ≡ false) × (f3 < 8)
unfolding format pick is_jump
load_fp_code add f3 e = ground arith
load_fp_code _ f3 e = ground arith

pub store_code :
    (t : InsnType) (f3 : ℕ)
    → format t ≡ some (store f3)
    → (pick ((0, sb) ∷ (1, sh) ∷ (2, sw) ∷ (3, sd) ∷ []) f3 ≡ ok t) × (is_jump t ≡ false) × (f3 < 8)
unfolding format pick is_jump
store_code add f3 e = ground arith
store_code _ f3 e = ground arith

pub store_fp_code :
    (t : InsnType) (f3 : ℕ)
    → format t ≡ some (store_fp f3)
    → (pick ((2, fsw) ∷ (3, fsd) ∷ []) f3 ≡ ok t) × (is_jump t ≡ false) × (f3 < 8)
unfolding format pick is_jump
store_fp_code add f3 e = ground arith
store_fp_code _ f3 e = ground arith

pub branch_code :
    (t : InsnType) (f3 : ℕ)
    → format t ≡ some (branch f3)
    → (branch_type f3 ≡ ok t) × (is_jump t ≡ false) × (f3 < 8)
unfolding format branch_type pick is_jump
branch_code add f3 e = ground arith
branch_code _ f3 e = ground arith

pub immediate_code :
    (t : InsnType) (f3 word : ℕ)
    → format t ≡ some (immediate f3)
    → funct3 word ≡ f3
    → op_imm_type word ≡ ok t
unfolding format op_imm_type pick
immediate_code add f3 word e c = ground arith
immediate_code _ f3 word e c = ground arith

pub immediate32_code :
    (t : InsnType) (f3 word : ℕ)
    → format t ≡ some (immediate32 f3)
    → funct3 word ≡ f3
    → op_imm32_type word ≡ ok t
unfolding format op_imm32_type pick
immediate32_code add f3 word e c = ground arith
immediate32_code _ f3 word e c = ground arith

pub shift_code :
    (t : InsnType) (f6 f3 word : ℕ)
    → format t ≡ some (shift f6 f3)
    → funct3 word ≡ f3
    → imm116 word ≡ f6
    → op_imm_type word ≡ ok t
unfolding format op_imm_type pick
shift_code add f6 f3 word e c d = ground arith
shift_code _ f6 f3 word e c d = ground arith

pub shift32_code :
    (t : InsnType) (f7 f3 word : ℕ)
    → format t ≡ some (shift32 f7 f3)
    → funct3 word ≡ f3
    → funct7 word ≡ f7
    → op_imm32_type word ≡ ok t
unfolding format op_imm32_type pick
shift32_code add f7 f3 word e c d = ground arith
shift32_code _ f7 f3 word e c d = ground arith

pub immediate_bounds :
    (t : InsnType) (f3 : ℕ) → format t ≡ some (immediate f3) → (is_jump t ≡ false) × (f3 < 8)
unfolding format is_jump
immediate_bounds add f3 e = ground arith
immediate_bounds _ f3 e = ground arith

pub immediate32_bounds :
    (t : InsnType) (f3 : ℕ) → format t ≡ some (immediate32 f3) → (is_jump t ≡ false) × (f3 < 8)
unfolding format is_jump
immediate32_bounds add f3 e = ground arith
immediate32_bounds _ f3 e = ground arith

pub shift_bounds :
    (t : InsnType) (f7 f3 : ℕ)
    → format t ≡ some (shift f7 f3)
    → (is_jump t ≡ false) × (f7 < 17) × (f3 < 8)
unfolding format is_jump
shift_bounds add f7 f3 e = ground arith
shift_bounds _ f7 f3 e = ground arith

pub shift32_bounds :
    (t : InsnType) (f7 f3 : ℕ)
    → format t ≡ some (shift32 f7 f3)
    → (is_jump t ≡ false) × (f7 < 33) × (f3 < 8)
unfolding format is_jump
shift32_bounds add f7 f3 e = ground arith
shift32_bounds _ f7 f3 e = ground arith

pub upper_type : (t : InsnType) → format t ≡ some upper → t ≡ lui
unfolding format
upper_type add e = ground arith
upper_type _ e = ground arith

pub upper_pc_type : (t : InsnType) → format t ≡ some upper_pc → t ≡ auipc
unfolding format
upper_pc_type add e = ground arith
upper_pc_type _ e = ground arith

pub jump_type : (t : InsnType) → format t ≡ some jump → t ≡ jal
unfolding format
jump_type add e = ground arith
jump_type _ e = ground arith

pub jump_register_type : (t : InsnType) → format t ≡ some jump_register → t ≡ jalr
unfolding format
jump_register_type add e = ground arith
jump_register_type _ e = ground arith

pub funct3_at : (word f3 : ℕ) → word / 2 ^ 12 % 8 ≡ f3 → funct3 word ≡ f3
funct3_at word f3 h = bit_and_mask 3 (word >>> 12) ∙ h

pub funct7_at : (word f7 : ℕ) → word / 2 ^ 25 % 128 ≡ f7 → funct7 word ≡ f7
funct7_at word f7 h = bit_and_mask 7 (word >>> 25) ∙ h

pub imm116_at : (word f6 : ℕ) → word / 2 ^ 26 % 64 ≡ f6 → imm116 word ≡ f6
imm116_at word f6 h = bit_and_mask 6 (word >>> 26) ∙ h

-- What `insn_decode` is to do with the encodings of a type `t` in a format.
abbrev pub IsInverted : Insn → InsnType → ℕ → ℕ → ℕ → ℕ → Format → Type 0
IsInverted prev t rd rs1 rs2 imm f =
    format t ≡ some f
    → holds_imm f imm ≡ true
    → insn_decode prev (encode f rd rs1 rs2 imm)
      ≡ ok (record (operands f rd rs1 rs2 imm) { type = t; cont = is_jump t })
