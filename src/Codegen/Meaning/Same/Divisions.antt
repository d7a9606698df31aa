-- ===== src/Codegen/Meaning/Same/Divisions.antt =====
-- The divisions of words.
use riscvemu_study.Prelude.{
  ◌==◌, if◌then◌else◌, fault, sigfpe, ◌^◌, ℕ, ◌≡◌, arith, false, ok, u32, sext,
}
use riscvemu_study.Prelude.Int.{to_i64, to_i32, quot, remainder, of_ℤ}
use riscvemu_study.Insn.{InsnType, Insn, divw, remw, divuw, remuw}
use riscvemu_study.Interp.MulDiv.{divide_signed}
use riscvemu_study.State.{World}
use riscvemu_study.Interp.Float.{Fpu}
use riscvemu_study.Interp.Funcs.{funcs}
use riscvemu_study.Interp.Frame
use riscvemu_study.Decode.IsDecoded.{is_jump}
use riscvemu_study.Codegen.Emit.{Emission}
use riscvemu_study.Codegen.Funcs.{emit}
use riscvemu_study.Codegen.Shape.Operations
use riscvemu_study.Codegen.Meaning.Exec.{eval, first_of, exec_line, exec_lines}
use riscvemu_study.Codegen.Meaning.Agrees.{IsReady, seen_code, seen_insn, frame, kind_of, divisions}
use riscvemu_study.Codegen.Meaning.Words.{divide_signed-words}

module _ (fpu : Fpu) (k : ℕ) (i : Insn) (w : World) where
  quotient :
      divide_signed
        (λ a b. of_ℤ (quot (to_i64 a) (to_i64 b)))
        (2 ^ 63)
        (sext 32 (u32 (w.state.gp_regs i.rs1)))
        (sext 32 (u32 (w.state.gp_regs i.rs2)))
      ≡ (if u32 (w.state.gp_regs i.rs2) == 0
          then fault sigfpe
          else ok (
              of_ℤ (
                quot
                  (to_i32 (u32 (w.state.gp_regs i.rs1)))
                  (to_i32 (u32 (w.state.gp_regs i.rs2))))))
  quotient =
      divide_signed-words (λ a b. of_ℤ (quot a b)) (w.state.gp_regs i.rs1) (w.state.gp_regs i.rs2)

  rest_of :
      divide_signed
        (λ a b. of_ℤ (remainder (to_i64 a) (to_i64 b)))
        (2 ^ 63)
        (sext 32 (u32 (w.state.gp_regs i.rs1)))
        (sext 32 (u32 (w.state.gp_regs i.rs2)))
      ≡ (if u32 (w.state.gp_regs i.rs2) == 0
          then fault sigfpe
          else ok (
              of_ℤ (
                remainder
                  (to_i32 (u32 (w.state.gp_regs i.rs1)))
                  (to_i32 (u32 (w.state.gp_regs i.rs2))))))
  rest_of =
      divide_signed-words (λ a b. of_ℤ (remainder a b)) (w.state.gp_regs i.rs1)
        (w.state.gp_regs i.rs2)

  pub same_divisions :
      (t : InsnType) {e : Emission}
      → kind_of t ≡ divisions
      → IsReady t i w
      → emit t i w.state.pc ≡ ok e
      → e.deferred ≡ false
      → seen_code k (exec_lines fpu e.lines (frame w)) ≡ seen_insn k (funcs fpu t w i)
  unfolding emit Operations.operations eval first_of exec_line exec_lines funcs Frame.operations
      is_jump kind_of
  same_divisions divw g h e d = ground (arith, quotient)
  same_divisions remw g h e d = ground (arith, rest_of)
  same_divisions divuw g h e d = ground arith
  same_divisions remuw g h e d = ground arith
  same_divisions _ g h e d = ground arith
