-- ===== src/Codegen/Funcs.antt =====
-- The table `funcs` of src/codegen.c: one operation for each instruction type.
use riscvemu_study.Prelude.{ℕ, Run, ok}
use riscvemu_study.Insn.{InsnType, Insn}
use riscvemu_study.Codegen.Emit.{Emission}
use riscvemu_study.Codegen.Memory.{
  emit_lb, emit_lh, emit_lw, emit_ld, emit_lbu, emit_lhu, emit_lwu, emit_sb, emit_sh, emit_sw,
  emit_sd, emit_flw, emit_fsw, emit_fld, emit_fsd,
}
use riscvemu_study.Codegen.Imm.{
  emit_addi, emit_slli, emit_slti, emit_sltiu, emit_xori, emit_srli, emit_srai, emit_ori, emit_andi,
  emit_auipc, emit_addiw, emit_slliw, emit_srliw, emit_sraiw, emit_lui,
}
use riscvemu_study.Codegen.Reg.{
  emit_add, emit_sll, emit_slt, emit_sltu, emit_xor, emit_srl, emit_or, emit_and, emit_mul,
  emit_div_signed, emit_divu, emit_rem, emit_remu, emit_sub, emit_sra, emit_addw, emit_sllw,
  emit_srlw, emit_mulw, emit_divw, emit_divuw, emit_remw, emit_remuw, emit_subw, emit_sraw,
}
use riscvemu_study.Codegen.Float.{
  emit_fmadd_s, emit_fmsub_s, emit_fnmsub_s, emit_fnmadd_s, emit_fadd_s, emit_fsub_s, emit_fmul_s,
  emit_fdiv_s, emit_fmin_s, emit_fmax_s, emit_fmv_x_w, emit_feq_s, emit_flt_s, emit_fle_s,
  emit_fcvt_s_w, emit_fcvt_s_wu, emit_fmv_w_x, emit_fcvt_s_l, emit_fcvt_s_lu, emit_fmadd_d,
  emit_fmsub_d, emit_fnmsub_d, emit_fnmadd_d, emit_fadd_d, emit_fsub_d, emit_fmul_d, emit_fdiv_d,
  emit_fmin_d, emit_fmax_d, emit_fcvt_s_d, emit_fcvt_d_s, emit_feq_d, emit_flt_d, emit_fle_d,
  emit_fcvt_d_w, emit_fcvt_d_wu, emit_fmv_x_d, emit_fcvt_d_l, emit_fcvt_d_lu, emit_fmv_d_x,
}
use riscvemu_study.Codegen.Control.{
  emit_empty, emit_deferred, emit_beq, emit_bne, emit_blt, emit_bge, emit_bltu, emit_bgeu,
  emit_jalr, emit_jal, emit_ecall, emit_csr,
}

unfoldable pub emit : InsnType → Insn → ℕ → Run Emission
emit InsnType.lb i pc = ok (emit_lb i)
emit InsnType.lh i pc = ok (emit_lh i)
emit InsnType.lw i pc = ok (emit_lw i)
emit InsnType.ld i pc = ok (emit_ld i)
emit InsnType.lbu i pc = ok (emit_lbu i)
emit InsnType.lhu i pc = ok (emit_lhu i)
emit InsnType.lwu i pc = ok (emit_lwu i)
emit InsnType.fence i pc = ok (emit_empty i)
emit InsnType.fence_i i pc = ok (emit_empty i)
emit InsnType.addi i pc = ok (emit_addi i)
emit InsnType.slli i pc = ok (emit_slli i)
emit InsnType.slti i pc = ok (emit_slti i)
emit InsnType.sltiu i pc = ok (emit_sltiu i)
emit InsnType.xori i pc = ok (emit_xori i)
emit InsnType.srli i pc = ok (emit_srli i)
emit InsnType.srai i pc = ok (emit_srai i)
emit InsnType.ori i pc = ok (emit_ori i)
emit InsnType.andi i pc = ok (emit_andi i)
emit InsnType.auipc i pc = ok (emit_auipc i pc)
emit InsnType.addiw i pc = ok (emit_addiw i)
emit InsnType.slliw i pc = ok (emit_slliw i)
emit InsnType.srliw i pc = ok (emit_srliw i)
emit InsnType.sraiw i pc = ok (emit_sraiw i)
emit InsnType.sb i pc = ok (emit_sb i)
emit InsnType.sh i pc = ok (emit_sh i)
emit InsnType.sw i pc = ok (emit_sw i)
emit InsnType.sd i pc = ok (emit_sd i)
emit InsnType.add i pc = ok (emit_add i)
emit InsnType.sll i pc = ok (emit_sll i)
emit InsnType.slt i pc = ok (emit_slt i)
emit InsnType.sltu i pc = ok (emit_sltu i)
emit InsnType.xor i pc = ok (emit_xor i)
emit InsnType.srl i pc = ok (emit_srl i)
emit InsnType.or i pc = ok (emit_or i)
emit InsnType.and i pc = ok (emit_and i)
emit InsnType.mul i pc = ok (emit_mul i)
emit InsnType.mulh i pc = ok (emit_deferred i pc)
emit InsnType.mulhsu i pc = ok (emit_deferred i pc)
emit InsnType.mulhu i pc = ok (emit_deferred i pc)
emit InsnType.div i pc = ok (emit_div_signed i)
emit InsnType.divu i pc = ok (emit_divu i)
emit InsnType.rem i pc = ok (emit_rem i)
emit InsnType.remu i pc = ok (emit_remu i)
emit InsnType.sub i pc = ok (emit_sub i)
emit InsnType.sra i pc = ok (emit_sra i)
emit InsnType.lui i pc = ok (emit_lui i)
emit InsnType.addw i pc = ok (emit_addw i)
emit InsnType.sllw i pc = ok (emit_sllw i)
emit InsnType.srlw i pc = ok (emit_srlw i)
emit InsnType.mulw i pc = ok (emit_mulw i)
emit InsnType.divw i pc = ok (emit_divw i)
emit InsnType.divuw i pc = ok (emit_divuw i)
emit InsnType.remw i pc = ok (emit_remw i)
emit InsnType.remuw i pc = ok (emit_remuw i)
emit InsnType.subw i pc = ok (emit_subw i)
emit InsnType.sraw i pc = ok (emit_sraw i)
emit InsnType.beq i pc = ok (emit_beq i pc)
emit InsnType.bne i pc = ok (emit_bne i pc)
emit InsnType.blt i pc = ok (emit_blt i pc)
emit InsnType.bge i pc = ok (emit_bge i pc)
emit InsnType.bltu i pc = ok (emit_bltu i pc)
emit InsnType.bgeu i pc = ok (emit_bgeu i pc)
emit InsnType.jalr i pc = ok (emit_jalr i pc)
emit InsnType.jal i pc = ok (emit_jal i pc)
emit InsnType.ecall i pc = ok (emit_ecall i pc)
emit InsnType.csrrc i pc = emit_csr i
emit InsnType.csrrci i pc = emit_csr i
emit InsnType.csrrs i pc = emit_csr i
emit InsnType.csrrsi i pc = emit_csr i
emit InsnType.csrrw i pc = emit_csr i
emit InsnType.csrrwi i pc = emit_csr i
emit InsnType.flw i pc = ok (emit_flw i)
emit InsnType.fsw i pc = ok (emit_fsw i)
emit InsnType.fmadd_s i pc = ok (emit_fmadd_s i)
emit InsnType.fmsub_s i pc = ok (emit_fmsub_s i)
emit InsnType.fnmsub_s i pc = ok (emit_fnmsub_s i)
emit InsnType.fnmadd_s i pc = ok (emit_fnmadd_s i)
emit InsnType.fadd_s i pc = ok (emit_fadd_s i)
emit InsnType.fsub_s i pc = ok (emit_fsub_s i)
emit InsnType.fmul_s i pc = ok (emit_fmul_s i)
emit InsnType.fdiv_s i pc = ok (emit_fdiv_s i)
emit InsnType.fsqrt_s i pc = ok (emit_deferred i pc)
emit InsnType.fsgnj_s i pc = ok (emit_deferred i pc)
emit InsnType.fsgnjn_s i pc = ok (emit_deferred i pc)
emit InsnType.fsgnjx_s i pc = ok (emit_deferred i pc)
emit InsnType.fmin_s i pc = ok (emit_fmin_s i)
emit InsnType.fmax_s i pc = ok (emit_fmax_s i)
emit InsnType.fcvt_w_s i pc = ok (emit_deferred i pc)
emit InsnType.fcvt_wu_s i pc = ok (emit_deferred i pc)
emit InsnType.fmv_x_w i pc = ok (emit_fmv_x_w i)
emit InsnType.feq_s i pc = ok (emit_feq_s i)
emit InsnType.flt_s i pc = ok (emit_flt_s i)
emit InsnType.fle_s i pc = ok (emit_fle_s i)
emit InsnType.fclass_s i pc = ok (emit_deferred i pc)
emit InsnType.fcvt_s_w i pc = ok (emit_fcvt_s_w i)
emit InsnType.fcvt_s_wu i pc = ok (emit_fcvt_s_wu i)
emit InsnType.fmv_w_x i pc = ok (emit_fmv_w_x i)
emit InsnType.fcvt_l_s i pc = ok (emit_deferred i pc)
emit InsnType.fcvt_lu_s i pc = ok (emit_deferred i pc)
emit InsnType.fcvt_s_l i pc = ok (emit_fcvt_s_l i)
emit InsnType.fcvt_s_lu i pc = ok (emit_fcvt_s_lu i)
emit InsnType.fld i pc = ok (emit_fld i)
emit InsnType.fsd i pc = ok (emit_fsd i)
emit InsnType.fmadd_d i pc = ok (emit_fmadd_d i)
emit InsnType.fmsub_d i pc = ok (emit_fmsub_d i)
emit InsnType.fnmsub_d i pc = ok (emit_fnmsub_d i)
emit InsnType.fnmadd_d i pc = ok (emit_fnmadd_d i)
emit InsnType.fadd_d i pc = ok (emit_fadd_d i)
emit InsnType.fsub_d i pc = ok (emit_fsub_d i)
emit InsnType.fmul_d i pc = ok (emit_fmul_d i)
emit InsnType.fdiv_d i pc = ok (emit_fdiv_d i)
emit InsnType.fsqrt_d i pc = ok (emit_deferred i pc)
emit InsnType.fsgnj_d i pc = ok (emit_deferred i pc)
emit InsnType.fsgnjn_d i pc = ok (emit_deferred i pc)
emit InsnType.fsgnjx_d i pc = ok (emit_deferred i pc)
emit InsnType.fmin_d i pc = ok (emit_fmin_d i)
emit InsnType.fmax_d i pc = ok (emit_fmax_d i)
emit InsnType.fcvt_s_d i pc = ok (emit_fcvt_s_d i)
emit InsnType.fcvt_d_s i pc = ok (emit_fcvt_d_s i)
emit InsnType.feq_d i pc = ok (emit_feq_d i)
emit InsnType.flt_d i pc = ok (emit_flt_d i)
emit InsnType.fle_d i pc = ok (emit_fle_d i)
emit InsnType.fclass_d i pc = ok (emit_deferred i pc)
emit InsnType.fcvt_w_d i pc = ok (emit_deferred i pc)
emit InsnType.fcvt_wu_d i pc = ok (emit_deferred i pc)
emit InsnType.fcvt_d_w i pc = ok (emit_fcvt_d_w i)
emit InsnType.fcvt_d_wu i pc = ok (emit_fcvt_d_wu i)
emit InsnType.fcvt_l_d i pc = ok (emit_deferred i pc)
emit InsnType.fcvt_lu_d i pc = ok (emit_deferred i pc)
emit InsnType.fmv_x_d i pc = ok (emit_fmv_x_d i)
emit InsnType.fcvt_d_l i pc = ok (emit_fcvt_d_l i)
emit InsnType.fcvt_d_lu i pc = ok (emit_fcvt_d_lu i)
emit InsnType.fmv_d_x i pc = ok (emit_fmv_d_x i)
