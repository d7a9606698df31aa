-- ===== src/Codegen/Meaning/Deferred.antt =====
-- The lines of an operation that is left to the interpreter.
use riscvemu_study.Prelude.{◌≡◌, arith, true, ok}
use riscvemu_study.Insn.{InsnType, Insn, lb}
use riscvemu_study.State.{World, ExitReason}
use riscvemu_study.Interp.Float.{Fpu}
use riscvemu_study.Codegen.Emit.{Emission}
use riscvemu_study.Codegen.Funcs.{emit}
use riscvemu_study.Codegen.Shape.Operations
use riscvemu_study.Codegen.Meaning.Exec.{eval, exec_line, exec_lines, leave}
use riscvemu_study.Codegen.Meaning.Agrees.{frame}

-- If `emit` leaves an instruction to the interpreter, then the lines that it prints leave the
-- block with the reason `interp` and the instruction's own address, and change nothing else.
pub exec_lines-deferred :
    (fpu : Fpu) (t : InsnType) (i : Insn) (w : World) {e : Emission}
    → emit t i w.state.pc ≡ ok e
    → e.deferred ≡ true
    → exec_lines fpu e.lines (frame w)
      ≡ ok (
        record (frame w) {
          world = record w {
            state = record (w.state) { exit_reason = ExitReason.interp; reenter_pc = w.state.pc };
          };
        },
        leave,
      )
unfolding emit Operations.operations eval exec_line exec_lines
exec_lines-deferred fpu lb i w e d = ground arith
exec_lines-deferred fpu _ i w e d = ground arith
