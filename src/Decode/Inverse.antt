-- ===== src/Decode/Inverse.antt =====
-- `insn_decode` on the manual's encodings.
use riscvemu_study.Prelude.{ℕ, ◌%◌, ◌^◌, ◌<◌, ◌≡◌, refl, arith, ◌∙◌, ok, some, true}
use riscvemu_study.Insn.{InsnType, Insn}
use riscvemu_study.Decode.Select.{typed}
use riscvemu_study.Decode.Base.{
  decode_load, decode_load_fp, decode_store, decode_store_fp, decode_branch,
}
use riscvemu_study.Decode.Dispatch.{decode_quadrant3, insn_decode}
use riscvemu_study.Decode.IsDecoded.{is_jump}
use riscvemu_study.Decode.Encode.{
  encode_itype, encode_stype, encode_btype, encode_utype, encode_jtype,
}
use riscvemu_study.Decode.RoundTrip.{
  insn_itype_read-encode_itype, insn_stype_read-encode_stype, insn_btype_read-encode_btype,
  insn_utype_read-encode_utype, insn_jtype_read-encode_jtype,
}
use riscvemu_study.Decode.Manual.{
  Format, register, register32, shift, shift32, immediate, immediate32, load, load_fp, store,
  store_fp, branch, upper, upper_pc, jump, jump_register, format, encode, holds_imm, operands,
}
use riscvemu_study.Decode.Codes.{
  IsInverted, funct3_at, quadrant3, load_code, load_fp_code, store_code, store_fp_code, branch_code,
  upper_type, upper_pc_type, jump_type, jump_register_type,
}
use riscvemu_study.Decode.InverseOps.{
  register-IsInverted, register-IsInverted, register32-IsInverted, register32-IsInverted,
  immediate-IsInverted, immediate-IsInverted, immediate32-IsInverted, immediate32-IsInverted,
  shift-IsInverted, shift-IsInverted, shift32-IsInverted, shift32-IsInverted,
}

module _ (prev : Insn) (t : InsnType) (rd rs1 rs2 imm : ℕ) (hd : rd < 32) (h1 : rs1 < 32)
    (h2 : rs2 < 32) where
  load-IsInverted : (f3 : ℕ) → IsInverted prev t rd rs1 rs2 imm (load f3)
  unfolding encode operands holds_imm decode_quadrant3 decode_load typed
  load-IsInverted f3 e h =
      let (c, j, b3) = load_code t f3 e in
      let fits : imm < 2 ^ 12 = ground arith in
      let word = encode_itype imm rs1 f3 rd 0x03 in
      let (q, o) = quadrant3 prev word 0x0 (omega arith) (omega arith) in
      let d = funct3_at word f3 (omega arith) in
      let r = insn_itype_read-encode_itype imm rs1 f3 rd 0x03 fits h1 b3 hd (omega arith) in
      q ∙ rw (o, d, r, c, j) refl

  load_fp-IsInverted : (f3 : ℕ) → IsInverted prev t rd rs1 rs2 imm (load_fp f3)
  unfolding encode operands holds_imm decode_quadrant3 decode_load_fp typed
  load_fp-IsInverted f3 e h =
      let (c, j, b3) = load_fp_code t f3 e in
      let fits : imm < 2 ^ 12 = ground arith in
      let word = encode_itype imm rs1 f3 rd 0x07 in
      let (q, o) = quadrant3 prev word 0x1 (omega arith) (omega arith) in
      let d = funct3_at word f3 (omega arith) in
      let r = insn_itype_read-encode_itype imm rs1 f3 rd 0x07 fits h1 b3 hd (omega arith) in
      q ∙ rw (o, d, r, c, j) refl

  store-IsInverted : (f3 : ℕ) → IsInverted prev t rd rs1 rs2 imm (store f3)
  unfolding encode operands holds_imm decode_quadrant3 decode_store typed
  store-IsInverted f3 e h =
      let (c, j, b3) = store_code t f3 e in
      let fits : imm < 2 ^ 12 = ground arith in
      let word = encode_stype imm rs2 rs1 f3 0x23 in
      let (q, o) = quadrant3 prev word 0x8 (omega arith) (omega arith) in
      let d = funct3_at word f3 (omega arith) in
      let r = insn_stype_read-encode_stype imm rs2 rs1 f3 0x23 fits h2 h1 b3 (omega arith) in
      q ∙ rw (o, d, r, c, j) refl

  store_fp-IsInverted : (f3 : ℕ) → IsInverted prev t rd rs1 rs2 imm (store_fp f3)
  unfolding encode operands holds_imm decode_quadrant3 decode_store_fp typed
  store_fp-IsInverted f3 e h =
      let (c, j, b3) = store_fp_code t f3 e in
      let fits : imm < 2 ^ 12 = ground arith in
      let word = encode_stype imm rs2 rs1 f3 0x27 in
      let (q, o) = quadrant3 prev word 0x9 (omega arith) (omega arith) in
      let d = funct3_at word f3 (omega arith) in
      let r = insn_stype_read-encode_stype imm rs2 rs1 f3 0x27 fits h2 h1 b3 (omega arith) in
      q ∙ rw (o, d, r, c, j) refl

  branch-IsInverted : (f3 : ℕ) → IsInverted prev t rd rs1 rs2 imm (branch f3)
  unfolding encode operands holds_imm decode_quadrant3 decode_branch typed
  branch-IsInverted f3 e h =
      let (c, j, b3) = branch_code t f3 e in
      let fits : imm < 2 ^ 13 = ground arith in
      let even : imm % 2 ≡ 0 = ground arith in
      let word = encode_btype imm rs2 rs1 f3 0x63 in
      let (q, o) = quadrant3 prev word 0x18 (omega arith) (omega arith) in
      let d = funct3_at word f3 (omega arith) in
      let r = insn_btype_read-encode_btype imm rs2 rs1 f3 0x63 fits even h2 h1 b3 (omega arith) in
      q ∙ rw (o, d, r, c, j) refl

  upper-IsInverted : IsInverted prev t rd rs1 rs2 imm upper
  unfolding encode operands holds_imm decode_quadrant3 is_jump
  upper-IsInverted e h =
      let same = upper_type t e in
      let fits : imm < 2 ^ 20 = ground arith in
      let word = encode_utype imm rd 0x37 in
      let (q, o) = quadrant3 prev word 0xd (omega arith) (omega arith) in
      let r = insn_utype_read-encode_utype imm rd 0x37 fits hd (omega arith) in
      q ∙ rw (o, r, same) refl

  upper_pc-IsInverted : IsInverted prev t rd rs1 rs2 imm upper_pc
  unfolding encode operands holds_imm decode_quadrant3 is_jump
  upper_pc-IsInverted e h =
      let same = upper_pc_type t e in
      let fits : imm < 2 ^ 20 = ground arith in
      let word = encode_utype imm rd 0x17 in
      let (q, o) = quadrant3 prev word 0x5 (omega arith) (omega arith) in
      let r = insn_utype_read-encode_utype imm rd 0x17 fits hd (omega arith) in
      q ∙ rw (o, r, same) refl

  jump-IsInverted : IsInverted prev t rd rs1 rs2 imm jump
  unfolding encode operands holds_imm decode_quadrant3 is_jump
  jump-IsInverted e h =
      let same = jump_type t e in
      let fits : imm < 2 ^ 21 = ground arith in
      let even : imm % 2 ≡ 0 = ground arith in
      let word = encode_jtype imm rd 0x6f in
      let (q, o) = quadrant3 prev word 0x1b (omega arith) (omega arith) in
      let r = insn_jtype_read-encode_jtype imm rd 0x6f fits even hd (omega arith) in
      q ∙ rw (o, r, same) refl

  jump_register-IsInverted : IsInverted prev t rd rs1 rs2 imm jump_register
  unfolding encode operands holds_imm decode_quadrant3 is_jump
  jump_register-IsInverted e h =
      let same = jump_register_type t e in
      let fits : imm < 2 ^ 12 = ground arith in
      let word = encode_itype imm rs1 0 rd 0x67 in
      let (q, o) = quadrant3 prev word 0x19 (omega arith) (omega arith) in
      let r =
        insn_itype_read-encode_itype imm rs1 0 rd 0x67 fits h1 (omega arith) hd (omega arith) in
      q ∙ rw (o, r, same) refl

-- `insn_decode` inverts the manual's encoding of the integer instructions, loads, stores and jumps:
-- for registers below 32 and an immediate that the format holds, the decoded instruction has the
-- type, the operands and the extended immediate that were encoded, and `cont` only on a jump.
pub insn_decode-encode :
    (prev : Insn) (t : InsnType) (f : Format) (rd rs1 rs2 imm : ℕ)
    → rd < 32
    → rs1 < 32
    → rs2 < 32
    → format t ≡ some f
    → holds_imm f imm ≡ true
    → insn_decode prev (encode f rd rs1 rs2 imm)
      ≡ ok (record (operands f rd rs1 rs2 imm) { type = t; cont = is_jump t })
insn_decode-encode prev t (register f7 f3) rd rs1 rs2 imm hd h1 h2 e h =
    register-IsInverted prev t rd rs1 rs2 imm hd h1 h2 f7 f3 e h
insn_decode-encode prev t (register32 f7 f3) rd rs1 rs2 imm hd h1 h2 e h =
    register32-IsInverted prev t rd rs1 rs2 imm hd h1 h2 f7 f3 e h
insn_decode-encode prev t (shift f7 f3) rd rs1 rs2 imm hd h1 h2 e h =
    shift-IsInverted prev t rd rs1 rs2 imm hd h1 h2 f7 f3 e h
insn_decode-encode prev t (shift32 f7 f3) rd rs1 rs2 imm hd h1 h2 e h =
    shift32-IsInverted prev t rd rs1 rs2 imm hd h1 h2 f7 f3 e h
insn_decode-encode prev t (immediate f3) rd rs1 rs2 imm hd h1 h2 e h =
    immediate-IsInverted prev t rd rs1 rs2 imm hd h1 h2 f3 e h
insn_decode-encode prev t (immediate32 f3) rd rs1 rs2 imm hd h1 h2 e h =
    immediate32-IsInverted prev t rd rs1 rs2 imm hd h1 h2 f3 e h
insn_decode-encode prev t (load f3) rd rs1 rs2 imm hd h1 h2 e h =
    load-IsInverted prev t rd rs1 rs2 imm hd h1 h2 f3 e h
insn_decode-encode prev t (load_fp f3) rd rs1 rs2 imm hd h1 h2 e h =
    load_fp-IsInverted prev t rd rs1 rs2 imm hd h1 h2 f3 e h
insn_decode-encode prev t (store f3) rd rs1 rs2 imm hd h1 h2 e h =
    store-IsInverted prev t rd rs1 rs2 imm hd h1 h2 f3 e h
insn_decode-encode prev t (store_fp f3) rd rs1 rs2 imm hd h1 h2 e h =
    store_fp-IsInverted prev t rd rs1 rs2 imm hd h1 h2 f3 e h
insn_decode-encode prev t (branch f3) rd rs1 rs2 imm hd h1 h2 e h =
    branch-IsInverted prev t rd rs1 rs2 imm hd h1 h2 f3 e h
insn_decode-encode prev t upper rd rs1 rs2 imm hd h1 h2 e h =
    upper-IsInverted prev t rd rs1 rs2 imm hd h1 h2 e h
insn_decode-encode prev t upper_pc rd rs1 rs2 imm hd h1 h2 e h =
    upper_pc-IsInverted prev t rd rs1 rs2 imm hd h1 h2 e h
insn_decode-encode prev t jump rd rs1 rs2 imm hd h1 h2 e h =
    jump-IsInverted prev t rd rs1 rs2 imm hd h1 h2 e h
insn_decode-encode prev t jump_register rd rs1 rs2 imm hd h1 h2 e h =
    jump_register-IsInverted prev t rd rs1 rs2 imm hd h1 h2 e h
