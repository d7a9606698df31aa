-- ===== src/Interp/Frame.antt =====
-- What the operations of the table leave alone, and when they end a block.
use riscvemu_study.Prelude.{ℕ, ◌^◌, ◌<◌, ◌≡◌, ◌≢◌, arith, ok, Bool, true, false}
use riscvemu_study.Prelude.{◌+◌, u64, sext}
use riscvemu_study.Prelude.Bits.{bit_and_high}
use riscvemu_study.Insn.{InsnType, Insn, jalr, lb, sb, sh, sw, sd, fsw, fsd}
use riscvemu_study.State.{
  World, State, ExitReason, direct_branch, indirect_branch, ecall, halt, set_rd,
}
use riscvemu_study.Decode.IsDecoded.{is_jump}
use riscvemu_study.Interp.Float.{Fpu}
use riscvemu_study.Interp.Funcs.{funcs, on_state, try_state, on_branch, on_memory}
use riscvemu_study.Interp.Imm.{
  imm_op, func_addi, func_slli, func_slti, func_sltiu, func_xori, func_srli, func_srai, func_ori,
  func_andi, func_addiw, func_slliw, func_srliw, func_sraiw, func_auipc, func_lui,
}
use riscvemu_study.Interp.Reg.{
  reg_op, func_add, func_sll, func_slt, func_sltu, func_xor, func_srl, func_or, func_and, func_sub,
  func_sra, func_addw, func_sllw, func_srlw, func_subw, func_sraw,
}
use riscvemu_study.Interp.MulDiv.{
  func_mul, func_mulh, func_mulhsu, func_mulhu, func_remu, func_mulw, func_div, func_divu, func_rem,
  word_op, func_divw, func_divuw, func_remw, func_remuw,
}
use riscvemu_study.Interp.Memory.{
  load_op, func_lb, func_lh, func_lw, func_ld, func_lbu, func_lhu, func_lwu, store_op, func_sb,
  func_sh, func_sw, func_sd, set_frd, load_fp_op, func_flw, func_fld, func_fsw, func_fsd,
}
use riscvemu_study.Interp.Control.{
  branch_op, func_beq, func_bne, func_blt, func_bge, func_bltu, func_bgeu, func_jalr, func_jal,
  func_ecall, func_empty, func_csr,
}
use riscvemu_study.Interp.Float.{
  set_f, fused_s, fused_d, arith_s, arith_d, compare_s, compare_d, func_fsgnj_s, func_fsgnj_d,
  to_word_s, to_word_d, to_long_s, to_long_d, from_int_s, from_int_d, func_fmv_x_w, func_fmv_w_x,
  func_fmv_x_d, func_fmv_d_x, func_fclass_s, func_fclass_d, func_fcvt_s_d, func_fcvt_d_s,
}

-- Everything that an operation of the table calls and that writes registers.
unfoldable pub operations : Unit {0}
unfolding set_rd on_state try_state on_branch on_memory imm_op func_addi func_slli func_slti
    func_sltiu func_xori func_srli func_srai func_ori func_andi func_addiw func_slliw func_srliw
    func_sraiw func_auipc func_lui reg_op func_add func_sll func_slt func_sltu func_xor func_srl
    func_or func_and func_sub func_sra func_addw func_sllw func_srlw func_subw func_sraw func_mul
    func_mulh func_mulhsu func_mulhu func_remu func_mulw func_div func_divu func_rem word_op
    func_divw func_divuw func_remw func_remuw load_op func_lb func_lh func_lw func_ld func_lbu
    func_lhu func_lwu store_op func_sb func_sh func_sw func_sd set_frd load_fp_op func_flw func_fld
    func_fsw func_fsd branch_op func_beq func_bne func_blt func_bge func_bltu func_bgeu func_jalr
    func_jal func_ecall func_empty func_csr set_f fused_s fused_d arith_s arith_d compare_s
    compare_d func_fsgnj_s func_fsgnj_d to_word_s to_word_d to_long_s to_long_d from_int_s
    from_int_d func_fmv_x_w func_fmv_w_x func_fmv_x_d func_fmv_d_x func_fclass_s func_fclass_d
    func_fcvt_s_d func_fcvt_d_s
operations = tt

-- No instruction writes an integer register other than `rd`.
pub funcs_registers :
    (fpu : Fpu) (t : InsnType) (w : World) (i : Insn) (k : ℕ) {w' : World} {i' : Insn}
    → k ≢ i.rd
    → funcs fpu t w i ≡ ok (w', i')
    → w'.state.gp_regs k ≡ w.state.gp_regs k
unfolding funcs operations
funcs_registers fpu lb w i k h e = ground arith
funcs_registers fpu _ w i k h e = ground arith

-- The stores.
unfoldable pub is_store : InsnType → Bool
is_store sb = true
is_store sh = true
is_store sw = true
is_store sd = true
is_store fsw = true
is_store fsd = true
is_store t = false

-- No instruction but the six stores changes memory.
pub funcs_memory :
    (fpu : Fpu) (t : InsnType) (w : World) (i : Insn) {w' : World} {i' : Insn}
    → is_store t ≡ false
    → funcs fpu t w i ≡ ok (w', i')
    → w'.memory ≡ w.memory
unfolding funcs operations is_store
funcs_memory fpu lb w i h e = ground arith
funcs_memory fpu _ w i h e = ground arith

-- The reasons with which the interpreter leaves a block.
unfoldable pub leaves_block : ExitReason → Bool
leaves_block direct_branch = true
leaves_block indirect_branch = true
leaves_block ecall = true
leaves_block halt = true
leaves_block r = false

-- An operation that asks the loop to end has set such a reason.
pub funcs_leaves :
    (fpu : Fpu) (t : InsnType) (w : World) (i : Insn) {w' : World} {i' : Insn}
    → i.cont ≡ is_jump t
    → funcs fpu t w i ≡ ok (w', i')
    → i'.cont ≡ true
    → leaves_block w'.state.exit_reason ≡ true
unfolding funcs operations is_jump leaves_block
funcs_leaves fpu lb w i h e c = ground arith
funcs_leaves fpu _ w i h e c = ground arith

-- An operation that does not ask the loop to end leaves the program counter and the size alone.
pub funcs_continues :
    (fpu : Fpu) (t : InsnType) (w : World) (i : Insn) {w' : World} {i' : Insn}
    → i.cont ≡ is_jump t
    → funcs fpu t w i ≡ ok (w', i')
    → i'.cont ≡ false
    → (w'.state.pc ≡ w.state.pc) × (i'.rvc ≡ i.rvc) × (w'.state.exit_reason ≡ w.state.exit_reason)
unfolding funcs operations is_jump
funcs_continues fpu lb w i h e c = ground arith
funcs_continues fpu _ w i h e c = ground arith

-- Every register and counter holds a 64-bit pattern.
pub record IsWide (s : State) : Type 0 where
  pub gp_lt : (k : ℕ) → s.gp_regs k < 2 ^ 64
  pub fp_lt : (k : ℕ) → s.fp_regs k < 2 ^ 64
  pub pc_lt : s.pc < 2 ^ 64
  pub reenter_lt : s.reenter_pc < 2 ^ 64

gp_wide :
    (fpu : Fpu) (t : InsnType) (w : World) (i : Insn) (k : ℕ) {w' : World} {i' : Insn}
    → w.state.gp_regs k < 2 ^ 64
    → funcs fpu t w i ≡ ok (w', i')
    → w'.state.gp_regs k < 2 ^ 64
unfolding funcs operations
gp_wide fpu lb w i k h e = ground arith
gp_wide fpu _ w i k h e = ground arith

fp_wide :
    (fpu : Fpu) (t : InsnType) (w : World) (i : Insn) (k : ℕ) {w' : World} {i' : Insn}
    → w.state.fp_regs k < 2 ^ 64
    → funcs fpu t w i ≡ ok (w', i')
    → w'.state.fp_regs k < 2 ^ 64
unfolding funcs operations
fp_wide fpu lb w i k h e = ground arith
fp_wide fpu _ w i k h e = ground arith

counters_wide :
    (fpu : Fpu) (t : InsnType) (w : World) (i : Insn) {w' : World} {i' : Insn}
    → w.state.pc < 2 ^ 64
    → w.state.reenter_pc < 2 ^ 64
    → funcs fpu t w i ≡ ok (w', i')
    → (w'.state.pc < 2 ^ 64) × (w'.state.reenter_pc < 2 ^ 64)
unfolding funcs operations
counters_wide fpu lb w i p q e = ground arith
counters_wide fpu jalr w i p q e =
    ground (arith, bit_and_high 1 63 (u64 (w.state.gp_regs i.rs1 + sext 32 i.imm)))
counters_wide fpu _ w i p q e = ground arith

-- Every operation of the table keeps the registers and counters within 64 bits.
pub funcs-IsWide :
    (fpu : Fpu) (t : InsnType) (w : World) (i : Insn) {w' : World} {i' : Insn}
    → IsWide w.state
    → funcs fpu t w i ≡ ok (w', i')
    → IsWide w'.state
funcs-IsWide fpu t w i h e =
    let counters = counters_wide fpu t w i h.pc_lt h.reenter_lt e in
    record {
      gp_lt = λ k. gp_wide fpu t w i k (h.gp_lt k) e;
      fp_lt = λ k. fp_wide fpu t w i k (h.fp_lt k) e;
      pc_lt = counters.0;
      reenter_lt = counters.1;
    }
