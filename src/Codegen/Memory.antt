-- ===== src/Codegen/Memory.antt =====
-- The loads and stores of src/codegen.c.
use riscvemu_study.Insn.{Insn}
use riscvemu_study.Codegen.Source.{
  int8_t, int16_t, int32_t, int64_t, uint8_t, uint16_t, uint32_t, uint64_t, rd, shl, bor, var,
  lit_int, cast, neg, bin,
}
use riscvemu_study.Codegen.Emit.{Emission, emit_load, emit_store, emit_fload, emit_fstore}

abbrev pub emit_lb : Insn → Emission
emit_lb = emit_load int8_t

abbrev pub emit_lh : Insn → Emission
emit_lh = emit_load int16_t

abbrev pub emit_lw : Insn → Emission
emit_lw = emit_load int32_t

abbrev pub emit_ld : Insn → Emission
emit_ld = emit_load int64_t

abbrev pub emit_lbu : Insn → Emission
emit_lbu = emit_load uint8_t

abbrev pub emit_lhu : Insn → Emission
emit_lhu = emit_load uint16_t

abbrev pub emit_lwu : Insn → Emission
emit_lwu = emit_load uint32_t

abbrev pub emit_sb : Insn → Emission
emit_sb = emit_store uint8_t

abbrev pub emit_sh : Insn → Emission
emit_sh = emit_store uint16_t

abbrev pub emit_sw : Insn → Emission
emit_sw = emit_store uint32_t

abbrev pub emit_sd : Insn → Emission
emit_sd = emit_store uint64_t

abbrev pub emit_flw : Insn → Emission
emit_flw =
    emit_fload uint32_t (bin bor (var rd) (bin shl (cast uint64_t (neg (lit_int 1))) (lit_int 32)))

abbrev pub emit_fld : Insn → Emission
emit_fld = emit_fload uint64_t (var rd)

abbrev pub emit_fsw : Insn → Emission
emit_fsw = emit_fstore uint32_t

abbrev pub emit_fsd : Insn → Emission
emit_fsd = emit_fstore uint64_t
