-- ===== src/Codegen/Meaning/Same/Longs.antt =====
-- The signed divisions.
use riscvemu_study.Prelude.{
  refl, ◌&&◌, ◌-◌, ◌==◌, if◌then◌else◌, fault, sigfpe, ◌^◌, ℕ, ◌≡◌, arith, false, ok,
}
use riscvemu_study.Prelude.Int.{to_i64, quot, remainder, of_ℤ}
use riscvemu_study.Insn.{InsnType, Insn, div, rem}
use riscvemu_study.State.{World}
use riscvemu_study.Interp.Float.{Fpu}
use riscvemu_study.Interp.Funcs.{funcs}
use riscvemu_study.Interp.Frame
use riscvemu_study.Interp.MulDiv.{divide_signed, div_value, rem_value}
use riscvemu_study.Decode.IsDecoded.{is_jump}
use riscvemu_study.Codegen.Emit.{Emission}
use riscvemu_study.Codegen.Funcs.{emit}
use riscvemu_study.Codegen.Shape.Operations
use riscvemu_study.Codegen.Meaning.Exec.{eval, first_of, exec_line, exec_lines}
use riscvemu_study.Codegen.Meaning.Agrees.{
  IsReady, seen_code, seen_insn, frame, kind_of, quotients, rests,
}

module _ (fpu : Fpu) (k : ℕ) (i : Insn) (w : World) where
  divided :
      (f : ℕ → ℕ → ℕ)
      → divide_signed f (2 ^ 63) (w.state.gp_regs i.rs1) (w.state.gp_regs i.rs2) ≡ (
          if w.state.gp_regs i.rs2 == 0
          then fault sigfpe
          else if (w.state.gp_regs i.rs1 == 2 ^ 63) && (w.state.gp_regs i.rs2 == 2 ^ 64 - 1)
          then fault sigfpe
          else ok (f (w.state.gp_regs i.rs1) (w.state.gp_regs i.rs2)))
  unfolding divide_signed
  divided f = refl

  same_div :
      {e : Emission}
      → IsReady InsnType.div i w
      → emit InsnType.div i w.state.pc ≡ ok e
      → e.deferred ≡ false
      → seen_code k (exec_lines fpu e.lines (frame w)) ≡ seen_insn k (funcs fpu InsnType.div w i)
  unfolding emit Operations.operations eval first_of exec_line exec_lines funcs Frame.operations
      is_jump div_value
  same_div h e d = ground (
    arith,
    h.wide.gp_lt i.rs1,
    h.wide.gp_lt i.rs2,
    divided λ a b. of_ℤ (quot (to_i64 a) (to_i64 b)),
  )

  same_rem :
      {e : Emission}
      → IsReady InsnType.rem i w
      → emit InsnType.rem i w.state.pc ≡ ok e
      → e.deferred ≡ false
      → seen_code k (exec_lines fpu e.lines (frame w)) ≡ seen_insn k (funcs fpu InsnType.rem w i)
  unfolding emit Operations.operations eval first_of exec_line exec_lines funcs Frame.operations
      is_jump rem_value
  same_rem h e d = ground (
    arith,
    h.wide.gp_lt i.rs1,
    h.wide.gp_lt i.rs2,
    divided λ a b. of_ℤ (remainder (to_i64 a) (to_i64 b)),
  )

  pub same_quotient :
      (t : InsnType) {e : Emission}
      → kind_of t ≡ quotients
      → IsReady t i w
      → emit t i w.state.pc ≡ ok e
      → e.deferred ≡ false
      → seen_code k (exec_lines fpu e.lines (frame w)) ≡ seen_insn k (funcs fpu t w i)
  unfolding kind_of
  same_quotient div g h e d = same_div h e d
  same_quotient _ g h e d = absurd (ground arith)

  pub same_rest :
      (t : InsnType) {e : Emission}
      → kind_of t ≡ rests
      → IsReady t i w
      → emit t i w.state.pc ≡ ok e
      → e.deferred ≡ false
      → seen_code k (exec_lines fpu e.lines (frame w)) ≡ seen_insn k (funcs fpu t w i)
  unfolding kind_of
  same_rest rem g h e d = same_rem h e d
  same_rest _ g h e d = absurd (ground arith)
