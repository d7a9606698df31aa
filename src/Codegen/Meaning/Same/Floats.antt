-- ===== src/Codegen/Meaning/Same/Floats.antt =====
-- The operations on floating-point registers.
use riscvemu_study.Prelude.{ℕ, ◌≡◌, arith, false, ok}
use riscvemu_study.Insn.{InsnType, Insn, lb, fcvt_s_l, fcvt_s_lu, fcvt_d_l, fcvt_d_lu}
use riscvemu_study.State.{World}
use riscvemu_study.Interp.Float.{Fpu}
use riscvemu_study.Interp.Funcs.{funcs}
use riscvemu_study.Interp.Frame
use riscvemu_study.Decode.IsDecoded.{is_jump}
use riscvemu_study.Codegen.Emit.{Emission}
use riscvemu_study.Codegen.Funcs.{emit}
use riscvemu_study.Codegen.Shape.Operations
use riscvemu_study.Codegen.Meaning.Exec.{eval, first_of, exec_line, exec_lines}
use riscvemu_study.Codegen.Meaning.Agrees.{IsReady, seen_code, seen_insn, frame, kind_of, floats}

module _ (fpu : Fpu) (k : ℕ) (i : Insn) (w : World) where
  pub same_floats :
      (t : InsnType) {e : Emission}
      → kind_of t ≡ floats
      → IsReady t i w
      → emit t i w.state.pc ≡ ok e
      → e.deferred ≡ false
      → seen_code k (exec_lines fpu e.lines (frame w)) ≡ seen_insn k (funcs fpu t w i)
  unfolding emit Operations.operations eval first_of exec_line exec_lines funcs Frame.operations
      is_jump kind_of
  same_floats lb g h e d = ground arith
  same_floats fcvt_s_l g h e d = ground (arith, h.wide.gp_lt i.rs1)
  same_floats fcvt_s_lu g h e d = ground (arith, h.wide.gp_lt i.rs1)
  same_floats fcvt_d_l g h e d = ground (arith, h.wide.gp_lt i.rs1)
  same_floats fcvt_d_lu g h e d = ground (arith, h.wide.gp_lt i.rs1)
  same_floats _ g h e d = ground arith
