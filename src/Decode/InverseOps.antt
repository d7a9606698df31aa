-- ===== src/Decode/InverseOps.antt =====
-- `insn_decode` on the encoded operations of registers and immediates.
use riscvemu_study.Prelude.{ℕ, ◌+◌, ◌*◌, ◌^◌, ◌<◌, ◌≡◌, refl, arith, u32, sext, ◌∙◌}
use riscvemu_study.Insn.{InsnType, Insn}
use riscvemu_study.Decode.Select.{typed}
use riscvemu_study.Decode.Base.{decode_op_imm, decode_op_imm32, decode_op, decode_op32}
use riscvemu_study.Decode.Dispatch.{decode_quadrant3}
use riscvemu_study.Decode.Encode.{encode_rtype, encode_itype}
use riscvemu_study.Decode.RoundTrip.{insn_rtype_read-encode_rtype, insn_itype_read-encode_itype}
use riscvemu_study.Decode.Manual.{
  register, register32, shift, shift32, immediate, immediate32, encode, holds_imm, operands,
}
use riscvemu_study.Decode.Codes.{
  IsInverted, funct3_at, funct7_at, imm116_at, quadrant3, register_code, register32_code,
  immediate_code, immediate32_code, immediate_bounds, immediate32_bounds, shift_code, shift32_code,
  shift_bounds, shift32_bounds,
}

module _ (prev : Insn) (t : InsnType) (rd rs1 rs2 imm : ℕ) (hd : rd < 32) (h1 : rs1 < 32)
    (h2 : rs2 < 32) where
  pub register-IsInverted : (f7 f3 : ℕ) → IsInverted prev t rd rs1 rs2 imm (register f7 f3)
  unfolding encode operands decode_quadrant3 decode_op typed
  register-IsInverted f7 f3 e h =
      let (c, j, b7, b3) = register_code t f7 f3 e in
      let word = encode_rtype f7 rs2 rs1 f3 rd 0x33 in
      let (q, o) = quadrant3 prev word 0xc (omega arith) (omega arith) in
      let a = funct7_at word f7 (omega arith) in
      let d = funct3_at word f3 (omega arith) in
      let r = insn_rtype_read-encode_rtype f7 rs2 rs1 f3 rd 0x33 b7 h2 h1 b3 hd (omega arith) in
      q ∙ rw (o, a, d, r, c, j) refl

  pub register32-IsInverted : (f7 f3 : ℕ) → IsInverted prev t rd rs1 rs2 imm (register32 f7 f3)
  unfolding encode operands decode_quadrant3 decode_op32 typed
  register32-IsInverted f7 f3 e h =
      let (c, j, b7, b3) = register32_code t f7 f3 e in
      let word = encode_rtype f7 rs2 rs1 f3 rd 0x3b in
      let (q, o) = quadrant3 prev word 0xe (omega arith) (omega arith) in
      let a = funct7_at word f7 (omega arith) in
      let d = funct3_at word f3 (omega arith) in
      let r = insn_rtype_read-encode_rtype f7 rs2 rs1 f3 rd 0x3b b7 h2 h1 b3 hd (omega arith) in
      q ∙ rw (o, a, d, r, c, j) refl

  pub immediate-IsInverted : (f3 : ℕ) → IsInverted prev t rd rs1 rs2 imm (immediate f3)
  unfolding encode operands holds_imm decode_quadrant3 decode_op_imm typed
  immediate-IsInverted f3 e h =
      let (j, b3) = immediate_bounds t f3 e in
      let fits : imm < 2 ^ 12 = ground arith in
      let word = encode_itype imm rs1 f3 rd 0x13 in
      let (q, o) = quadrant3 prev word 0x4 (omega arith) (omega arith) in
      let d = funct3_at word f3 (omega arith) in
      let c = immediate_code t f3 word e d in
      let r = insn_itype_read-encode_itype imm rs1 f3 rd 0x13 fits h1 b3 hd (omega arith) in
      q ∙ rw (o, r, c, j) refl

  pub immediate32-IsInverted : (f3 : ℕ) → IsInverted prev t rd rs1 rs2 imm (immediate32 f3)
  unfolding encode operands holds_imm decode_quadrant3 decode_op_imm32 typed
  immediate32-IsInverted f3 e h =
      let (j, b3) = immediate32_bounds t f3 e in
      let fits : imm < 2 ^ 12 = ground arith in
      let word = encode_itype imm rs1 f3 rd 0x1b in
      let (q, o) = quadrant3 prev word 0x6 (omega arith) (omega arith) in
      let d = funct3_at word f3 (omega arith) in
      let c = immediate32_code t f3 word e d in
      let r = insn_itype_read-encode_itype imm rs1 f3 rd 0x1b fits h1 b3 hd (omega arith) in
      q ∙ rw (o, r, c, j) refl

  pub shift-IsInverted : (f7 f3 : ℕ) → IsInverted prev t rd rs1 rs2 imm (shift f7 f3)
  unfolding encode operands holds_imm decode_quadrant3 decode_op_imm typed
  shift-IsInverted f7 f3 e h =
      let (j, b7, b3) = shift_bounds t f7 f3 e in
      let fits : imm < 64 = ground arith in
      let field = f7 * 64 + imm in
      let word = encode_itype field rs1 f3 rd 0x13 in
      let (q, o) = quadrant3 prev word 0x4 (omega arith) (omega arith) in
      let d = funct3_at word f3 (omega arith) in
      let a = imm116_at word f7 (omega arith) in
      let c = shift_code t f7 f3 word e d a in
      let r =
        insn_itype_read-encode_itype field rs1 f3 rd 0x13 (omega arith) h1 b3 hd (omega arith) in
      let positive : u32 (sext 12 field) ≡ field = ground arith in
      q ∙ rw (o, r, c, j, positive) refl

  pub shift32-IsInverted : (f7 f3 : ℕ) → IsInverted prev t rd rs1 rs2 imm (shift32 f7 f3)
  unfolding encode operands holds_imm decode_quadrant3 decode_op_imm32 typed
  shift32-IsInverted f7 f3 e h =
      let (j, b7, b3) = shift32_bounds t f7 f3 e in
      let fits : imm < 32 = ground arith in
      let field = f7 * 32 + imm in
      let word = encode_itype field rs1 f3 rd 0x1b in
      let (q, o) = quadrant3 prev word 0x6 (omega arith) (omega arith) in
      let d = funct3_at word f3 (omega arith) in
      let a = funct7_at word f7 (omega arith) in
      let c = shift32_code t f7 f3 word e d a in
      let r =
        insn_itype_read-encode_itype field rs1 f3 rd 0x1b (omega arith) h1 b3 hd (omega arith) in
      let positive : u32 (sext 12 field) ≡ field = ground arith in
      q ∙ rw (o, r, c, j, positive) refl
