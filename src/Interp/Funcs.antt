-- ===== src/Interp/Funcs.antt =====
-- The table `funcs` of src/interpret.c: one operation for each instruction type.
use riscvemu_study.Prelude.{true, false, u32, u64, Run, ok, ◌>>=◌}
use riscvemu_study.Insn.{InsnType, Insn}
use riscvemu_study.State.{State, World}
use riscvemu_study.Interp.Imm.{
  func_addi, func_slli, func_slti, func_sltiu, func_xori, func_srli, func_srai, func_ori, func_andi,
  func_auipc, func_addiw, func_slliw, func_srliw, func_sraiw, func_lui,
}
use riscvemu_study.Interp.Reg.{
  func_add, func_sll, func_slt, func_sltu, func_xor, func_srl, func_or, func_and, func_sub,
  func_sra, func_addw, func_sllw, func_srlw, func_subw, func_sraw,
}
use riscvemu_study.Interp.MulDiv.{
  func_mul, func_mulh, func_mulhsu, func_mulhu, func_div, func_divu, func_rem, func_remu, func_mulw,
  func_divw, func_divuw, func_remw, func_remuw,
}
use riscvemu_study.Interp.Memory.{
  func_lb, func_lh, func_lw, func_ld, func_lbu, func_lhu, func_lwu, func_sb, func_sh, func_sw,
  func_sd, func_flw, func_fld, func_fsw, func_fsd,
}
use riscvemu_study.Interp.Control.{
  func_beq, func_bne, func_blt, func_bge, func_bltu, func_bgeu, func_jalr, func_jal, func_ecall,
  func_empty, func_csr,
}
use riscvemu_study.Interp.Float.{
  Fpu, fused_s, fused_d, arith_s, arith_d, compare_s, compare_d, fmadd, fmsub, fnmsub, fnmadd, fmin,
  fmax, func_fsgnj_s, func_fsgnj_d, to_word_s, to_word_d, to_long_s, to_long_d, from_int_s,
  from_int_d, i32_of, func_fmv_x_w, func_fmv_w_x, func_fmv_x_d, func_fmv_d_x, func_fclass_s,
  func_fclass_d, func_fcvt_s_d, func_fcvt_d_s,
}

-- What an operation does to the whole: most change the `State` alone, a branch also sets
-- `insn->cont`, and loads and stores use the memory.
unfoldable pub on_state : (State → Insn → State) → World → Insn → World × Insn
on_state f w i = (record w { state = f w.state i }, i)

unfoldable pub try_state : (State → Insn → Run State) → World → Insn → Run (World × Insn)
try_state f w i = do s ← f w.state i; ok (record w { state = s }, i)

unfoldable pub on_branch : (State → Insn → State × Insn) → World → Insn → World × Insn
on_branch f w i = let (s, i') = f w.state i in (record w { state = s }, i')

unfoldable pub on_memory : (World → Insn → Run World) → World → Insn → Run (World × Insn)
on_memory f w i = do w' ← f w i; ok (w', i)

module _ (fpu : Fpu) where
  unfoldable pub funcs : InsnType → World → Insn → Run (World × Insn)
  funcs InsnType.lb w i = on_memory func_lb w i
  funcs InsnType.lh w i = on_memory func_lh w i
  funcs InsnType.lw w i = on_memory func_lw w i
  funcs InsnType.ld w i = on_memory func_ld w i
  funcs InsnType.lbu w i = on_memory func_lbu w i
  funcs InsnType.lhu w i = on_memory func_lhu w i
  funcs InsnType.lwu w i = on_memory func_lwu w i
  funcs InsnType.fence w i = ok (on_state func_empty w i)
  funcs InsnType.fence_i w i = ok (on_state func_empty w i)
  funcs InsnType.addi w i = ok (on_state func_addi w i)
  funcs InsnType.slli w i = ok (on_state func_slli w i)
  funcs InsnType.slti w i = ok (on_state func_slti w i)
  funcs InsnType.sltiu w i = ok (on_state func_sltiu w i)
  funcs InsnType.xori w i = ok (on_state func_xori w i)
  funcs InsnType.srli w i = ok (on_state func_srli w i)
  funcs InsnType.srai w i = ok (on_state func_srai w i)
  funcs InsnType.ori w i = ok (on_state func_ori w i)
  funcs InsnType.andi w i = ok (on_state func_andi w i)
  funcs InsnType.auipc w i = ok (on_state func_auipc w i)
  funcs InsnType.addiw w i = ok (on_state func_addiw w i)
  funcs InsnType.slliw w i = ok (on_state func_slliw w i)
  funcs InsnType.srliw w i = ok (on_state func_srliw w i)
  funcs InsnType.sraiw w i = ok (on_state func_sraiw w i)
  funcs InsnType.sb w i = on_memory func_sb w i
  funcs InsnType.sh w i = on_memory func_sh w i
  funcs InsnType.sw w i = on_memory func_sw w i
  funcs InsnType.sd w i = on_memory func_sd w i
  funcs InsnType.add w i = ok (on_state func_add w i)
  funcs InsnType.sll w i = ok (on_state func_sll w i)
  funcs InsnType.slt w i = ok (on_state func_slt w i)
  funcs InsnType.sltu w i = ok (on_state func_sltu w i)
  funcs InsnType.xor w i = ok (on_state func_xor w i)
  funcs InsnType.srl w i = ok (on_state func_srl w i)
  funcs InsnType.or w i = ok (on_state func_or w i)
  funcs InsnType.and w i = ok (on_state func_and w i)
  funcs InsnType.mul w i = ok (on_state func_mul w i)
  funcs InsnType.mulh w i = ok (on_state func_mulh w i)
  funcs InsnType.mulhsu w i = ok (on_state func_mulhsu w i)
  funcs InsnType.mulhu w i = ok (on_state func_mulhu w i)
  funcs InsnType.div w i = ok (on_state func_div w i)
  funcs InsnType.divu w i = ok (on_state func_divu w i)
  funcs InsnType.rem w i = ok (on_state func_rem w i)
  funcs InsnType.remu w i = ok (on_state func_remu w i)
  funcs InsnType.sub w i = ok (on_state func_sub w i)
  funcs InsnType.sra w i = ok (on_state func_sra w i)
  funcs InsnType.lui w i = ok (on_state func_lui w i)
  funcs InsnType.addw w i = ok (on_state func_addw w i)
  funcs InsnType.sllw w i = ok (on_state func_sllw w i)
  funcs InsnType.srlw w i = ok (on_state func_srlw w i)
  funcs InsnType.mulw w i = ok (on_state func_mulw w i)
  funcs InsnType.divw w i = try_state func_divw w i
  funcs InsnType.divuw w i = try_state func_divuw w i
  funcs InsnType.remw w i = try_state func_remw w i
  funcs InsnType.remuw w i = try_state func_remuw w i
  funcs InsnType.subw w i = ok (on_state func_subw w i)
  funcs InsnType.sraw w i = ok (on_state func_sraw w i)
  funcs InsnType.beq w i = ok (on_branch func_beq w i)
  funcs InsnType.bne w i = ok (on_branch func_bne w i)
  funcs InsnType.blt w i = ok (on_branch func_blt w i)
  funcs InsnType.bge w i = ok (on_branch func_bge w i)
  funcs InsnType.bltu w i = ok (on_branch func_bltu w i)
  funcs InsnType.bgeu w i = ok (on_branch func_bgeu w i)
  funcs InsnType.jalr w i = ok (on_state func_jalr w i)
  funcs InsnType.jal w i = ok (on_state func_jal w i)
  funcs InsnType.ecall w i = ok (on_state func_ecall w i)
  funcs InsnType.csrrc w i = try_state func_csr w i
  funcs InsnType.csrrci w i = try_state func_csr w i
  funcs InsnType.csrrs w i = try_state func_csr w i
  funcs InsnType.csrrsi w i = try_state func_csr w i
  funcs InsnType.csrrw w i = try_state func_csr w i
  funcs InsnType.csrrwi w i = try_state func_csr w i
  funcs InsnType.flw w i = on_memory func_flw w i
  funcs InsnType.fsw w i = on_memory func_fsw w i
  funcs InsnType.fmadd_s w i = ok (on_state (fused_s (fmadd fpu.f32)) w i)
  funcs InsnType.fmsub_s w i = ok (on_state (fused_s (fmsub fpu.f32)) w i)
  funcs InsnType.fnmsub_s w i = ok (on_state (fused_s (fnmsub fpu.f32)) w i)
  funcs InsnType.fnmadd_s w i = ok (on_state (fused_s (fnmadd fpu.f32)) w i)
  funcs InsnType.fadd_s w i = ok (on_state (arith_s fpu.f32.plus) w i)
  funcs InsnType.fsub_s w i = ok (on_state (arith_s fpu.f32.minus) w i)
  funcs InsnType.fmul_s w i = ok (on_state (arith_s fpu.f32.times) w i)
  funcs InsnType.fdiv_s w i = ok (on_state (arith_s fpu.f32.over) w i)
  funcs InsnType.fsqrt_s w i = ok (on_state (arith_s (λ a _. fpu.f32.square_root a)) w i)
  funcs InsnType.fsgnj_s w i = ok (on_state (func_fsgnj_s false false) w i)
  funcs InsnType.fsgnjn_s w i = ok (on_state (func_fsgnj_s true false) w i)
  funcs InsnType.fsgnjx_s w i = ok (on_state (func_fsgnj_s false true) w i)
  funcs InsnType.fmin_s w i = ok (on_state (arith_s (fmin fpu.f32)) w i)
  funcs InsnType.fmax_s w i = ok (on_state (arith_s (fmax fpu.f32)) w i)
  funcs InsnType.fcvt_w_s w i = ok (on_state (to_word_s fpu.f32) w i)
  funcs InsnType.fcvt_wu_s w i = ok (on_state (to_word_s fpu.f32) w i)
  funcs InsnType.fmv_x_w w i = ok (on_state func_fmv_x_w w i)
  funcs InsnType.feq_s w i = ok (on_state (compare_s fpu.f32.eq) w i)
  funcs InsnType.flt_s w i = ok (on_state (compare_s fpu.f32.lt) w i)
  funcs InsnType.fle_s w i = ok (on_state (compare_s fpu.f32.le) w i)
  funcs InsnType.fclass_s w i = ok (on_state func_fclass_s w i)
  funcs InsnType.fcvt_s_w w i = ok (on_state (from_int_s fpu.f32.of_signed i32_of) w i)
  funcs InsnType.fcvt_s_wu w i = ok (on_state (from_int_s fpu.f32.of_unsigned u32) w i)
  funcs InsnType.fmv_w_x w i = ok (on_state func_fmv_w_x w i)
  funcs InsnType.fcvt_l_s w i = ok (on_state (to_long_s fpu.f32) w i)
  funcs InsnType.fcvt_lu_s w i = ok (on_state (to_long_s fpu.f32) w i)
  funcs InsnType.fcvt_s_l w i = ok (on_state (from_int_s fpu.f32.of_signed u64) w i)
  funcs InsnType.fcvt_s_lu w i = ok (on_state (from_int_s fpu.f32.of_unsigned u64) w i)
  funcs InsnType.fld w i = on_memory func_fld w i
  funcs InsnType.fsd w i = on_memory func_fsd w i
  funcs InsnType.fmadd_d w i = ok (on_state (fused_d (fmadd fpu.f64)) w i)
  funcs InsnType.fmsub_d w i = ok (on_state (fused_d (fmsub fpu.f64)) w i)
  funcs InsnType.fnmsub_d w i = ok (on_state (fused_d (fnmsub fpu.f64)) w i)
  funcs InsnType.fnmadd_d w i = ok (on_state (fused_d (fnmadd fpu.f64)) w i)
  funcs InsnType.fadd_d w i = ok (on_state (arith_d fpu.f64.plus) w i)
  funcs InsnType.fsub_d w i = ok (on_state (arith_d fpu.f64.minus) w i)
  funcs InsnType.fmul_d w i = ok (on_state (arith_d fpu.f64.times) w i)
  funcs InsnType.fdiv_d w i = ok (on_state (arith_d fpu.f64.over) w i)
  funcs InsnType.fsqrt_d w i = ok (on_state (arith_d (λ a _. fpu.f64.square_root a)) w i)
  funcs InsnType.fsgnj_d w i = ok (on_state (func_fsgnj_d false false) w i)
  funcs InsnType.fsgnjn_d w i = ok (on_state (func_fsgnj_d true false) w i)
  funcs InsnType.fsgnjx_d w i = ok (on_state (func_fsgnj_d false true) w i)
  funcs InsnType.fmin_d w i = ok (on_state (arith_d (fmin fpu.f64)) w i)
  funcs InsnType.fmax_d w i = ok (on_state (arith_d (fmax fpu.f64)) w i)
  funcs InsnType.fcvt_s_d w i = ok (on_state (func_fcvt_s_d fpu.narrow) w i)
  funcs InsnType.fcvt_d_s w i = ok (on_state (func_fcvt_d_s fpu.widen) w i)
  funcs InsnType.feq_d w i = ok (on_state (compare_d fpu.f64.eq) w i)
  funcs InsnType.flt_d w i = ok (on_state (compare_d fpu.f64.lt) w i)
  funcs InsnType.fle_d w i = ok (on_state (compare_d fpu.f64.le) w i)
  funcs InsnType.fclass_d w i = ok (on_state func_fclass_d w i)
  funcs InsnType.fcvt_w_d w i = ok (on_state (to_word_d fpu.f64) w i)
  funcs InsnType.fcvt_wu_d w i = ok (on_state (to_word_d fpu.f64) w i)
  funcs InsnType.fcvt_d_w w i = ok (on_state (from_int_d fpu.f64.of_signed i32_of) w i)
  funcs InsnType.fcvt_d_wu w i = ok (on_state (from_int_d fpu.f64.of_unsigned u32) w i)
  funcs InsnType.fcvt_l_d w i = ok (on_state (to_long_d fpu.f64) w i)
  funcs InsnType.fcvt_lu_d w i = ok (on_state (to_long_d fpu.f64) w i)
  funcs InsnType.fmv_x_d w i = ok (on_state func_fmv_x_d w i)
  funcs InsnType.fcvt_d_l w i = ok (on_state (from_int_d fpu.f64.of_signed u64) w i)
  funcs InsnType.fcvt_d_lu w i = ok (on_state (from_int_d fpu.f64.of_unsigned u64) w i)
  funcs InsnType.fmv_d_x w i = ok (on_state func_fmv_d_x w i)
