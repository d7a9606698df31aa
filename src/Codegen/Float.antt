-- ===== src/Codegen/Float.antt =====
-- The floating-point operations of src/codegen.c.
use riscvemu_study.Insn.{Insn}
use riscvemu_study.Codegen.Source.{
  int32_t, int64_t, uint32_t, uint64_t, float, double, rs1, rs2, rs3, view_v, view_w, view_d,
  view_f, times, divide, plus, minus, less, less_eq, greater, equal, var, cast, neg, bin, choose,
}
use riscvemu_study.Codegen.Emit.{
  Emission, emit_fused, emit_arith, emit_compare, emit_from_int, emit_from_float, emit_to_int,
}

abbrev pub emit_fmadd_s : Insn → Emission
emit_fmadd_s = emit_fused float view_f (bin plus (bin times (var rs1) (var rs2)) (var rs3))

abbrev pub emit_fmsub_s : Insn → Emission
emit_fmsub_s = emit_fused float view_f (bin minus (bin times (var rs1) (var rs2)) (var rs3))

abbrev pub emit_fnmsub_s : Insn → Emission
emit_fnmsub_s = emit_fused float view_f (bin plus (neg (bin times (var rs1) (var rs2))) (var rs3))

abbrev pub emit_fnmadd_s : Insn → Emission
emit_fnmadd_s = emit_fused float view_f (bin minus (neg (bin times (var rs1) (var rs2))) (var rs3))

abbrev pub emit_fmadd_d : Insn → Emission
emit_fmadd_d = emit_fused double view_d (bin plus (bin times (var rs1) (var rs2)) (var rs3))

abbrev pub emit_fmsub_d : Insn → Emission
emit_fmsub_d = emit_fused double view_d (bin minus (bin times (var rs1) (var rs2)) (var rs3))

abbrev pub emit_fnmsub_d : Insn → Emission
emit_fnmsub_d = emit_fused double view_d (bin plus (neg (bin times (var rs1) (var rs2))) (var rs3))

abbrev pub emit_fnmadd_d : Insn → Emission
emit_fnmadd_d = emit_fused double view_d (bin minus (neg (bin times (var rs1) (var rs2))) (var rs3))

abbrev pub emit_fadd_s : Insn → Emission
emit_fadd_s = emit_arith float view_f (bin plus (var rs1) (var rs2))

abbrev pub emit_fsub_s : Insn → Emission
emit_fsub_s = emit_arith float view_f (bin minus (var rs1) (var rs2))

abbrev pub emit_fmul_s : Insn → Emission
emit_fmul_s = emit_arith float view_f (bin times (var rs1) (var rs2))

abbrev pub emit_fdiv_s : Insn → Emission
emit_fdiv_s = emit_arith float view_f (bin divide (var rs1) (var rs2))

abbrev pub emit_fmin_s : Insn → Emission
emit_fmin_s = emit_arith float view_f (choose (bin less (var rs1) (var rs2)) (var rs1) (var rs2))

abbrev pub emit_fmax_s : Insn → Emission
emit_fmax_s = emit_arith float view_f (choose (bin greater (var rs1) (var rs2)) (var rs1) (var rs2))

abbrev pub emit_fcvt_s_w : Insn → Emission
emit_fcvt_s_w = emit_from_int view_f (cast float (cast int32_t (var rs1)))

abbrev pub emit_fcvt_s_wu : Insn → Emission
emit_fcvt_s_wu = emit_from_int view_f (cast float (cast uint32_t (var rs1)))

abbrev pub emit_fcvt_d_w : Insn → Emission
emit_fcvt_d_w = emit_from_int view_d (cast double (cast int32_t (var rs1)))

abbrev pub emit_fcvt_d_wu : Insn → Emission
emit_fcvt_d_wu = emit_from_int view_d (cast double (cast uint32_t (var rs1)))

abbrev pub emit_fmv_x_w : Insn → Emission
emit_fmv_x_w = emit_to_int uint32_t view_w (cast int64_t (cast int32_t (var rs1)))

abbrev pub emit_fmv_w_x : Insn → Emission
emit_fmv_w_x = emit_from_int view_w (cast uint32_t (var rs1))

abbrev pub emit_fmv_x_d : Insn → Emission
emit_fmv_x_d = emit_to_int uint64_t view_v (var rs1)

abbrev pub emit_fmv_d_x : Insn → Emission
emit_fmv_d_x = emit_from_int view_v (var rs1)

abbrev pub emit_feq_s : Insn → Emission
emit_feq_s = emit_compare float view_f (bin equal (var rs1) (var rs2))

abbrev pub emit_flt_s : Insn → Emission
emit_flt_s = emit_compare float view_f (bin less (var rs1) (var rs2))

abbrev pub emit_fle_s : Insn → Emission
emit_fle_s = emit_compare float view_f (bin less_eq (var rs1) (var rs2))

abbrev pub emit_feq_d : Insn → Emission
emit_feq_d = emit_compare double view_d (bin equal (var rs1) (var rs2))

abbrev pub emit_flt_d : Insn → Emission
emit_flt_d = emit_compare double view_d (bin less (var rs1) (var rs2))

abbrev pub emit_fle_d : Insn → Emission
emit_fle_d = emit_compare double view_d (bin less_eq (var rs1) (var rs2))

abbrev pub emit_fcvt_s_l : Insn → Emission
emit_fcvt_s_l = emit_from_int view_f (cast float (cast int64_t (var rs1)))

abbrev pub emit_fcvt_s_lu : Insn → Emission
emit_fcvt_s_lu = emit_from_int view_f (cast float (cast uint64_t (var rs1)))

abbrev pub emit_fadd_d : Insn → Emission
emit_fadd_d = emit_arith double view_d (bin plus (var rs1) (var rs2))

abbrev pub emit_fsub_d : Insn → Emission
emit_fsub_d = emit_arith double view_d (bin minus (var rs1) (var rs2))

abbrev pub emit_fmul_d : Insn → Emission
emit_fmul_d = emit_arith double view_d (bin times (var rs1) (var rs2))

abbrev pub emit_fdiv_d : Insn → Emission
emit_fdiv_d = emit_arith double view_d (bin divide (var rs1) (var rs2))

abbrev pub emit_fmin_d : Insn → Emission
emit_fmin_d = emit_arith double view_d (choose (bin less (var rs1) (var rs2)) (var rs1) (var rs2))

abbrev pub emit_fmax_d : Insn → Emission
emit_fmax_d =
    emit_arith double view_d (choose (bin greater (var rs1) (var rs2)) (var rs1) (var rs2))

abbrev pub emit_fcvt_s_d : Insn → Emission
emit_fcvt_s_d = emit_from_float double view_d view_f (cast float (var rs1))

abbrev pub emit_fcvt_d_s : Insn → Emission
emit_fcvt_d_s = emit_from_float float view_f view_d (cast double (var rs1))

abbrev pub emit_fcvt_d_l : Insn → Emission
emit_fcvt_d_l = emit_from_int view_d (cast double (cast int64_t (var rs1)))

abbrev pub emit_fcvt_d_lu : Insn → Emission
emit_fcvt_d_lu = emit_from_int view_d (cast double (cast uint64_t (var rs1)))
