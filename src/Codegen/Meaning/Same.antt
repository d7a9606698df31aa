-- ===== src/Codegen/Meaning/Same.antt =====
-- The lines that are printed for an instruction do what the interpreter does.
pub mod Integers
pub mod Divisions
pub mod Longs
pub mod Floats
pub mod Control
use riscvemu_study.Prelude.{ℕ, ◌≡◌, refl, false, ok}
use riscvemu_study.Insn.{InsnType, Insn}
use riscvemu_study.State.{World}
use riscvemu_study.Interp.Float.{Fpu}
use riscvemu_study.Interp.Funcs.{funcs}
use riscvemu_study.Codegen.Emit.{Emission}
use riscvemu_study.Codegen.Funcs.{emit}
use riscvemu_study.Codegen.Meaning.Exec.{exec_lines}
use riscvemu_study.Codegen.Meaning.Agrees.{
  IsReady, seen_code, seen_insn, frame, Kind, kind_of, integers, divisions, quotients, rests,
  floats, others,
}
use riscvemu_study.Codegen.Meaning.Same.Integers.{same_integers}
use riscvemu_study.Codegen.Meaning.Same.Divisions.{same_divisions}
use riscvemu_study.Codegen.Meaning.Same.Longs.{same_quotient, same_rest}
use riscvemu_study.Codegen.Meaning.Same.Floats.{same_floats}
use riscvemu_study.Codegen.Meaning.Same.Control.{same_others}

same_of_kind :
    (c : Kind) (fpu : Fpu) (k : ℕ) (i : Insn) (w : World) (t : InsnType) {e : Emission}
    → kind_of t ≡ c
    → IsReady t i w
    → emit t i w.state.pc ≡ ok e
    → e.deferred ≡ false
    → seen_code k (exec_lines fpu e.lines (frame w)) ≡ seen_insn k (funcs fpu t w i)
same_of_kind integers fpu k i w t = same_integers fpu k i w t
same_of_kind divisions fpu k i w t = same_divisions fpu k i w t
same_of_kind quotients fpu k i w t = same_quotient fpu k i w t
same_of_kind rests fpu k i w t = same_rest fpu k i w t
same_of_kind floats fpu k i w t = same_floats fpu k i w t
same_of_kind others fpu k i w t = same_others fpu k i w t

-- Let a state be as the loops keep it and an instruction as the decoder gives it, and let the
-- instruction be none of `divw`, `divuw`, `remw` and `remuw` to register 0 whose divisor is not 0
-- and has a low half of 0. If `emit` does not leave the instruction to the interpreter, then
-- running the lines that it prints and running the interpreter's operation give the same memory,
-- the same value of each register and the same exit, or the same fault.
pub exec_lines-emit :
    (fpu : Fpu) (k : ℕ) (t : InsnType) (i : Insn) (w : World) {e : Emission}
    → IsReady t i w
    → emit t i w.state.pc ≡ ok e
    → e.deferred ≡ false
    → seen_code k (exec_lines fpu e.lines (frame w)) ≡ seen_insn k (funcs fpu t w i)
exec_lines-emit fpu k t i w h e d = same_of_kind (kind_of t) fpu k i w t refl h e d
