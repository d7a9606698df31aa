-- ===== src/Codegen/Imm.antt =====
-- The operations of src/codegen.c on a register and an immediate.
use riscvemu_study.Prelude.{ℕ, bit_and, sext, u64, ◌+◌, [], ◌∷◌}
use riscvemu_study.Insn.{Insn}
use riscvemu_study.Codegen.Source.{
  int32_t, int64_t, uint32_t, rs1, plus, shl, shr, less, band, bxor, bor, var, lit_ll, lit_ull,
  lit_int, cast, bin, choose,
}
use riscvemu_study.Codegen.Emit.{Emission, emission, emit_imm, reg_set_val}

abbrev pub emit_addi : Insn → Emission
emit_addi i = emit_imm (bin plus (var rs1) (cast int64_t (lit_ll (sext 32 i.imm)))) i

abbrev pub emit_slli : Insn → Emission
emit_slli i = emit_imm (bin shl (var rs1) (lit_int (bit_and i.imm 0x3f))) i

abbrev pub emit_slti : Insn → Emission
emit_slti i =
    emit_imm
      (choose (bin less (cast int64_t (var rs1)) (cast int64_t (lit_ll (sext 32 i.imm))))
        (lit_int 1) (lit_int 0))
      i

abbrev pub emit_sltiu : Insn → Emission
emit_sltiu i =
    emit_imm (choose (bin less (var rs1) (lit_ull (sext 32 i.imm))) (lit_int 1) (lit_int 0)) i

abbrev pub emit_xori : Insn → Emission
emit_xori i = emit_imm (bin bxor (var rs1) (lit_ll (sext 32 i.imm))) i

abbrev pub emit_srli : Insn → Emission
emit_srli i = emit_imm (bin shr (var rs1) (lit_int (bit_and i.imm 0x3f))) i

abbrev pub emit_srai : Insn → Emission
emit_srai i = emit_imm (bin shr (cast int64_t (var rs1)) (lit_int (bit_and i.imm 0x3f))) i

abbrev pub emit_ori : Insn → Emission
emit_ori i = emit_imm (bin bor (var rs1) (lit_ull (sext 32 i.imm))) i

abbrev pub emit_andi : Insn → Emission
emit_andi i = emit_imm (bin band (var rs1) (lit_ull (sext 32 i.imm))) i

abbrev pub emit_addiw : Insn → Emission
emit_addiw i =
    emit_imm
      (cast int64_t (cast int32_t (bin plus (var rs1) (cast int64_t (lit_ll (sext 32 i.imm)))))) i

abbrev pub emit_slliw : Insn → Emission
emit_slliw i =
    emit_imm (cast int64_t (cast int32_t (bin shl (var rs1) (lit_int (bit_and i.imm 0x1f))))) i

abbrev pub emit_srliw : Insn → Emission
emit_srliw i =
    emit_imm
      (cast int64_t
        (cast int32_t (bin shr (cast uint32_t (var rs1)) (lit_int (bit_and i.imm 0x1f)))))
      i

abbrev pub emit_sraiw : Insn → Emission
emit_sraiw i =
    emit_imm (cast int64_t (bin shr (cast int32_t (var rs1)) (lit_int (bit_and i.imm 0x1f)))) i

unfoldable pub emit_auipc : Insn → ℕ → Emission
unfolding reg_set_val
emit_auipc i pc = emission (reg_set_val i.rd (u64 (pc + sext 32 i.imm))) (i.rd ∷ []) []

unfoldable pub emit_lui : Insn → Emission
unfolding reg_set_val
emit_lui i = emission (reg_set_val i.rd (sext 32 i.imm)) (i.rd ∷ []) []
