-- ===== src/Codegen/Meaning/Same/Integers.antt =====
-- The operations on integer registers.
use riscvemu_study.Prelude.{ℕ, ◌≡◌, arith, false, ok}
use riscvemu_study.Insn.{InsnType, Insn, lb, slli, srli, srai, slliw, srliw, sraiw, sraw}
use riscvemu_study.State.{World}
use riscvemu_study.Interp.Float.{Fpu}
use riscvemu_study.Interp.Funcs.{funcs}
use riscvemu_study.Interp.Frame
use riscvemu_study.Decode.IsDecoded.{is_jump}
use riscvemu_study.Codegen.Emit.{Emission}
use riscvemu_study.Codegen.Funcs.{emit}
use riscvemu_study.Codegen.Shape.Operations
use riscvemu_study.Codegen.Meaning.Exec.{eval, first_of, exec_line, exec_lines}
use riscvemu_study.Codegen.Meaning.Agrees.{IsReady, seen_code, seen_insn, frame, kind_of, integers}
use riscvemu_study.Codegen.Meaning.Words.{amount64, amount32, small64, small32, sar32_word}

module _ (fpu : Fpu) (k : ℕ) (i : Insn) (w : World) where
  pub same_integers :
      (t : InsnType) {e : Emission}
      → kind_of t ≡ integers
      → IsReady t i w
      → emit t i w.state.pc ≡ ok e
      → e.deferred ≡ false
      → seen_code k (exec_lines fpu e.lines (frame w)) ≡ seen_insn k (funcs fpu t w i)
  unfolding emit Operations.operations eval first_of exec_line exec_lines funcs Frame.operations
      is_jump kind_of
  same_integers lb g h e d = ground arith
  same_integers slli g h e d = ground (arith, amount64 i.imm h.imm_lt, small64 i.imm)
  same_integers srli g h e d = ground (arith, amount64 i.imm h.imm_lt, small64 i.imm)
  same_integers srai g h e d = ground (arith, amount64 i.imm h.imm_lt, small64 i.imm)
  same_integers slliw g h e d = ground (arith, amount32 i.imm h.imm_lt, small32 i.imm)
  same_integers srliw g h e d = ground (arith, amount32 i.imm h.imm_lt, small32 i.imm)
  same_integers sraiw g h e d = ground (arith, amount32 i.imm h.imm_lt, small32 i.imm)
  same_integers sraw g h e d =
      ground (arith, sar32_word (w.state.gp_regs i.rs1) (w.state.gp_regs i.rs2))
  same_integers _ g h e d = ground arith
