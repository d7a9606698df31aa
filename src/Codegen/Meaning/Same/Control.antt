-- ===== src/Codegen/Meaning/Same/Control.antt =====
-- The loads, stores, branches, jumps and system operations.
use riscvemu_study.Prelude.{ℕ, ◌+◌, ◌%◌, ◌^◌, ◌≡◌, arith, false, ok, u64, sext}
use riscvemu_study.Insn.{InsnType, Insn, lb, sb, sh, sw, fsw}
use riscvemu_study.State.{World, to_host, store_bytes}
use riscvemu_study.Interp.Float.{Fpu}
use riscvemu_study.Interp.Funcs.{funcs}
use riscvemu_study.Interp.Frame
use riscvemu_study.Decode.IsDecoded.{is_jump}
use riscvemu_study.Codegen.Emit.{Emission}
use riscvemu_study.Codegen.Funcs.{emit}
use riscvemu_study.Codegen.Shape.Operations
use riscvemu_study.Codegen.Meaning.Exec.{eval, first_of, exec_line, exec_lines}
use riscvemu_study.Codegen.Meaning.Agrees.{IsReady, seen_code, seen_insn, frame, kind_of, others}
use riscvemu_study.Codegen.Meaning.Words.{store_bytes_same}

module _ (fpu : Fpu) (k : ℕ) (i : Insn) (w : World) where
  stored :
      (n : ℕ) (regs : ℕ → ℕ)
      → store_bytes w.memory
          (to_host (u64 (w.state.gp_regs i.rs1 + sext 32 i.imm)))
          n
          (regs i.rs2 % 256 ^ n)
        ≡ store_bytes w.memory
            (to_host (u64 (w.state.gp_regs i.rs1 + sext 32 i.imm)))
            n
            (regs i.rs2)
  stored n regs =
      store_bytes_same n w.memory (to_host (u64 (w.state.gp_regs i.rs1 + sext 32 i.imm)))
        (regs i.rs2)

  pub same_others :
      (t : InsnType) {e : Emission}
      → kind_of t ≡ others
      → IsReady t i w
      → emit t i w.state.pc ≡ ok e
      → e.deferred ≡ false
      → seen_code k (exec_lines fpu e.lines (frame w)) ≡ seen_insn k (funcs fpu t w i)
  unfolding emit Operations.operations eval first_of exec_line exec_lines funcs Frame.operations
      is_jump kind_of
  same_others lb g h e d = ground arith
  same_others sb g h e d = ground (arith, stored 1 w.state.gp_regs)
  same_others sh g h e d = ground (arith, stored 2 w.state.gp_regs)
  same_others sw g h e d = ground (arith, stored 4 w.state.gp_regs)
  same_others fsw g h e d = ground (arith, stored 4 w.state.fp_regs)
  same_others _ g h e d = ground arith
