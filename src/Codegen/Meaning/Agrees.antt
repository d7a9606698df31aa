-- ===== src/Codegen/Meaning/Agrees.antt =====
-- What can be seen of an instruction, in the printed C and in the interpreter.
use mathlib.Core.Bool.{not}
use riscvemu_study.Prelude.{
  ◌&&◌, ℕ, ◌^◌, ◌<◌, ◌≡◌, ◌==◌, Bool, true, false, update, u32, Run, map_run,
}
use riscvemu_study.Insn.{InsnType, Insn}
use riscvemu_study.State.{ExitReason, State, World, Memory}
use riscvemu_study.Interp.Frame.{IsWide}
use riscvemu_study.Decode.IsDecoded.{is_jump}
use riscvemu_study.Codegen.Source.{uint64_t}
use riscvemu_study.Codegen.Meaning.{value}
use riscvemu_study.Codegen.Meaning.Exec.{Flow, next, jump, leave, Frame}

-- How control leaves an instruction: to the next one, to an address in the block, or out of it
-- with a reason and an address to go on at.
pub data Exit : Type 0 where
  stays : Exit
  branches : ℕ → Exit
  leaves : ExitReason → ℕ → Exit

-- The memory, one register of each kind, and the exit
pub record Seen : Type 0 where
  pub memory : Memory
  pub gp : ℕ
  pub fp : ℕ
  pub exit : Exit

abbrev pub exit_of : State → Flow → Exit
exit_of s next = stays
exit_of s (jump pc) = branches pc
exit_of s leave = leaves s.exit_reason s.reenter_pc

-- The interpreter resets register 0 after each instruction; a direct branch stays in the block.
abbrev pub exit_with : State → Bool → Exit
exit_with s false = stays
exit_with s true = elim s.exit_reason [
  | ExitReason.direct_branch ↦ branches s.reenter_pc
  | r ↦ leaves r s.reenter_pc
]

abbrev pub seen_code : ℕ → Run (Frame × Flow) → Run Seen
seen_code k = map_run λ (f, flow). record {
  memory = f.world.memory;
  gp = f.world.state.gp_regs k;
  fp = f.world.state.fp_regs k;
  exit = exit_of f.world.state flow;
}

abbrev pub seen_insn : ℕ → Run (World × Insn) → Run Seen
seen_insn k = map_run λ (w, i). record {
  memory = w.memory;
  gp = update w.state.gp_regs 0 0 k;
  fp = w.state.fp_regs k;
  exit = exit_with w.state i.cont;
}

abbrev pub frame : World → Frame
frame w = record { world = w; locals = λ x. value uint64_t 0 }

-- A division of words that is by zero in its low half only, and whose result is dropped: the
-- interpreter divides all the same, and the printed lines are empty.
abbrev pub divides_words : InsnType → Bool
divides_words InsnType.divw = true
divides_words InsnType.divuw = true
divides_words InsnType.remw = true
divides_words InsnType.remuw = true
divides_words t = false

abbrev pub drops_division : InsnType → Insn → World → Bool
drops_division t i w =
    let divisor = w.state.gp_regs i.rs2 in
    divides_words t && (i.rd == 0) && not (divisor == 0) && (u32 divisor == 0)

-- A state as the loops keep it, and an instruction as the decoder gives it.
pub record IsReady (t : InsnType) (i : Insn) (w : World) : Type 0 where
  pub wide : IsWide w.state
  pub zero_reg : w.state.gp_regs 0 ≡ 0
  pub jumps : i.cont ≡ is_jump t
  pub imm_lt : i.imm < 2 ^ 32
  pub divides : drops_division t i w ≡ false

-- The instructions, in the order of the proofs.
pub data Kind : Type 0 where
  integers : Kind
  divisions : Kind
  quotients : Kind
  rests : Kind
  floats : Kind
  others : Kind

unfoldable pub kind_of : InsnType → Kind
kind_of InsnType.lb = others
kind_of InsnType.lh = others
kind_of InsnType.lw = others
kind_of InsnType.ld = others
kind_of InsnType.lbu = others
kind_of InsnType.lhu = others
kind_of InsnType.lwu = others
kind_of InsnType.sb = others
kind_of InsnType.sh = others
kind_of InsnType.sw = others
kind_of InsnType.sd = others
kind_of InsnType.flw = others
kind_of InsnType.fld = others
kind_of InsnType.fsw = others
kind_of InsnType.fsd = others
kind_of InsnType.fence = others
kind_of InsnType.fence_i = others
kind_of InsnType.beq = others
kind_of InsnType.bne = others
kind_of InsnType.blt = others
kind_of InsnType.bge = others
kind_of InsnType.bltu = others
kind_of InsnType.bgeu = others
kind_of InsnType.jalr = others
kind_of InsnType.jal = others
kind_of InsnType.ecall = others
kind_of InsnType.csrrc = others
kind_of InsnType.csrrci = others
kind_of InsnType.csrrs = others
kind_of InsnType.csrrsi = others
kind_of InsnType.csrrw = others
kind_of InsnType.csrrwi = others
kind_of InsnType.fmadd_s = floats
kind_of InsnType.fmsub_s = floats
kind_of InsnType.fnmsub_s = floats
kind_of InsnType.fnmadd_s = floats
kind_of InsnType.fadd_s = floats
kind_of InsnType.fsub_s = floats
kind_of InsnType.fmul_s = floats
kind_of InsnType.fdiv_s = floats
kind_of InsnType.fsqrt_s = floats
kind_of InsnType.fsgnj_s = floats
kind_of InsnType.fsgnjn_s = floats
kind_of InsnType.fsgnjx_s = floats
kind_of InsnType.fmin_s = floats
kind_of InsnType.fmax_s = floats
kind_of InsnType.fcvt_w_s = floats
kind_of InsnType.fcvt_wu_s = floats
kind_of InsnType.fmv_x_w = floats
kind_of InsnType.feq_s = floats
kind_of InsnType.flt_s = floats
kind_of InsnType.fle_s = floats
kind_of InsnType.fclass_s = floats
kind_of InsnType.fcvt_s_w = floats
kind_of InsnType.fcvt_s_wu = floats
kind_of InsnType.fmv_w_x = floats
kind_of InsnType.fcvt_l_s = floats
kind_of InsnType.fcvt_lu_s = floats
kind_of InsnType.fcvt_s_l = floats
kind_of InsnType.fcvt_s_lu = floats
kind_of InsnType.fmadd_d = floats
kind_of InsnType.fmsub_d = floats
kind_of InsnType.fnmsub_d = floats
kind_of InsnType.fnmadd_d = floats
kind_of InsnType.fadd_d = floats
kind_of InsnType.fsub_d = floats
kind_of InsnType.fmul_d = floats
kind_of InsnType.fdiv_d = floats
kind_of InsnType.fsqrt_d = floats
kind_of InsnType.fsgnj_d = floats
kind_of InsnType.fsgnjn_d = floats
kind_of InsnType.fsgnjx_d = floats
kind_of InsnType.fmin_d = floats
kind_of InsnType.fmax_d = floats
kind_of InsnType.fcvt_s_d = floats
kind_of InsnType.fcvt_d_s = floats
kind_of InsnType.feq_d = floats
kind_of InsnType.flt_d = floats
kind_of InsnType.fle_d = floats
kind_of InsnType.fclass_d = floats
kind_of InsnType.fcvt_w_d = floats
kind_of InsnType.fcvt_wu_d = floats
kind_of InsnType.fcvt_d_w = floats
kind_of InsnType.fcvt_d_wu = floats
kind_of InsnType.fcvt_l_d = floats
kind_of InsnType.fcvt_lu_d = floats
kind_of InsnType.fmv_x_d = floats
kind_of InsnType.fcvt_d_l = floats
kind_of InsnType.fcvt_d_lu = floats
kind_of InsnType.fmv_d_x = floats
kind_of InsnType.divw = divisions
kind_of InsnType.remw = divisions
kind_of InsnType.divuw = divisions
kind_of InsnType.remuw = divisions
kind_of InsnType.div = quotients
kind_of InsnType.rem = rests
kind_of t = integers
