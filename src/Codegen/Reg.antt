-- ===== src/Codegen/Reg.antt =====
-- The operations of src/codegen.c on two registers.
use riscvemu_study.Prelude.{[], ◌∷◌}
use riscvemu_study.Insn.{Insn}
use riscvemu_study.Codegen.Source.{
  int32_t, int64_t, uint32_t, uint64_t, rs1, rs2, times, divide, modulo, plus, minus, shl, shr,
  less, equal, band, bxor, bor, logical_and, var, lit_int, lit_uint64_max, lit_int64_min, cast, bin,
  choose, declare_rd, assign_if,
}
use riscvemu_study.Codegen.Emit.{Emission, emit_reg, emit_div}

abbrev pub emit_add : Insn → Emission
emit_add = emit_reg (bin plus (var rs1) (var rs2))

abbrev pub emit_sll : Insn → Emission
emit_sll = emit_reg (bin shl (var rs1) (bin band (var rs2) (lit_int 0x3f)))

abbrev pub emit_slt : Insn → Emission
emit_slt =
    emit_reg
      (choose (bin less (cast int64_t (var rs1)) (cast int64_t (var rs2))) (lit_int 1) (lit_int 0))

abbrev pub emit_sltu : Insn → Emission
emit_sltu =
    emit_reg (
      choose (bin less (cast uint64_t (var rs1)) (cast uint64_t (var rs2))) (lit_int 1) (lit_int 0))

abbrev pub emit_xor : Insn → Emission
emit_xor = emit_reg (bin bxor (var rs1) (var rs2))

abbrev pub emit_srl : Insn → Emission
emit_srl = emit_reg (bin shr (var rs1) (bin band (var rs2) (lit_int 0x3f)))

abbrev pub emit_or : Insn → Emission
emit_or = emit_reg (bin bor (var rs1) (var rs2))

abbrev pub emit_and : Insn → Emission
emit_and = emit_reg (bin band (var rs1) (var rs2))

abbrev pub emit_mul : Insn → Emission
emit_mul = emit_reg (bin times (var rs1) (var rs2))

abbrev pub emit_sub : Insn → Emission
emit_sub = emit_reg (bin minus (var rs1) (var rs2))

abbrev pub emit_sra : Insn → Emission
emit_sra = emit_reg (bin shr (cast int64_t (var rs1)) (bin band (var rs2) (lit_int 0x3f)))

abbrev pub emit_remu : Insn → Emission
emit_remu =
    emit_reg (choose (bin equal (var rs2) (lit_int 0)) (var rs1) (bin modulo (var rs1) (var rs2)))

abbrev pub emit_addw : Insn → Emission
emit_addw = emit_reg (cast int64_t (cast int32_t (bin plus (var rs1) (var rs2))))

abbrev pub emit_sllw : Insn → Emission
emit_sllw =
    emit_reg (cast int64_t (cast int32_t (bin shl (var rs1) (bin band (var rs2) (lit_int 0x1f)))))

abbrev pub emit_srlw : Insn → Emission
emit_srlw = emit_reg (
    cast int64_t
      (cast int32_t (bin shr (cast uint32_t (var rs1)) (bin band (var rs2) (lit_int 0x1f)))))

abbrev pub emit_mulw : Insn → Emission
emit_mulw = emit_reg (cast int64_t (cast int32_t (bin times (var rs1) (var rs2))))

abbrev pub emit_divw : Insn → Emission
emit_divw = emit_reg (
    choose (bin equal (var rs2) (lit_int 0)) lit_uint64_max (
      cast int32_t (
        bin divide (cast int64_t (cast int32_t (var rs1)))
          (cast int64_t (cast int32_t (var rs2))))))

abbrev pub emit_divuw : Insn → Emission
emit_divuw = emit_reg (
    choose (bin equal (var rs2) (lit_int 0)) lit_uint64_max
      (cast int32_t (bin divide (cast uint32_t (var rs1)) (cast uint32_t (var rs2)))))

abbrev pub emit_remw : Insn → Emission
emit_remw = emit_reg (
    choose (bin equal (var rs2) (lit_int 0)) (cast int64_t (cast int32_t (var rs1))) (
      cast int64_t (
        cast int32_t (
          bin modulo (cast int64_t (cast int32_t (var rs1)))
            (cast int64_t (cast int32_t (var rs2)))))))

abbrev pub emit_remuw : Insn → Emission
emit_remuw = emit_reg (
    choose (bin equal (var rs2) (lit_int 0)) (cast int64_t (cast int32_t (cast uint32_t (var rs1))))
      (cast int64_t
        (cast int32_t (bin modulo (cast uint32_t (var rs1)) (cast uint32_t (var rs2))))))

abbrev pub emit_subw : Insn → Emission
emit_subw = emit_reg (cast int64_t (cast int32_t (bin minus (var rs1) (var rs2))))

abbrev pub emit_sraw : Insn → Emission
emit_sraw = emit_reg (
    cast int64_t
      (cast int32_t (bin shr (cast int32_t (var rs1)) (bin band (var rs2) (lit_int 0x1f)))))

abbrev pub emit_div_signed : Insn → Emission
emit_div_signed = emit_div (
    declare_rd
    ∷ assign_if
        (((bin equal (var rs2) (lit_int 0)), lit_uint64_max)
          ∷ (
            (bin logical_and (bin equal (var rs1) lit_int64_min)
                (bin equal (var rs2) lit_uint64_max)),
            lit_int64_min,
          )
          ∷ [])
        (bin divide (cast int64_t (var rs1)) (cast int64_t (var rs2)))
    ∷ [])

abbrev pub emit_divu : Insn → Emission
emit_divu = emit_div (
    declare_rd
    ∷ assign_if (((bin equal (var rs2) (lit_int 0)), lit_uint64_max) ∷ [])
        (bin divide (var rs1) (var rs2))
    ∷ [])

abbrev pub emit_rem : Insn → Emission
emit_rem = emit_div (
    declare_rd
    ∷ assign_if
        (((bin equal (var rs2) (lit_int 0)), (var rs1))
          ∷ (
            (bin logical_and (bin equal (var rs1) lit_int64_min)
                (bin equal (var rs2) lit_uint64_max)),
            (lit_int 0),
          )
          ∷ [])
        (bin modulo (cast int64_t (var rs1)) (cast int64_t (var rs2)))
    ∷ [])
