-- ===== src/Tests/Meaning.antt =====
-- The lines of one instruction, run.
use riscvemu_study.Prelude.{◌^◌, ◌-◌, update, ◌≡◌, refl, arith, ok}
use riscvemu_study.Insn.{Insn, InsnType, zeroed}
use riscvemu_study.State.{set_rd, World, ExitReason}
use riscvemu_study.Interp.Funcs.{funcs, on_state}
use riscvemu_study.Interp.Reg.{reg_op, func_sra}
use riscvemu_study.Codegen.Control.{emit_deferred}
use riscvemu_study.Codegen.Reg.{emit_sra}
use riscvemu_study.Codegen.Emit.{emit_reg}
use riscvemu_study.Codegen.Funcs.{emit}
use riscvemu_study.Codegen.Meaning.Exec.{exec_lines, leave}
use riscvemu_study.Codegen.Meaning.Agrees.{IsReady, seen_code, seen_insn, frame, stays}
use riscvemu_study.Codegen.Meaning.Same.{exec_lines-emit}
use riscvemu_study.Codegen.Meaning.Deferred.{exec_lines-deferred}
use riscvemu_study.Tests.Program.{host, start}
use riscvemu_study.Decode.IsDecoded.{is_jump}

-- `sra t0, ra, sp` where `ra` holds -16 and `sp` 2, and `mulh` of the same registers
abbrev shifting : World
shifting = record start {
  state = record (start.state) { gp_regs = update (update (λ r. 0) 1 (2 ^ 64 - 16)) 2 2 };
}

abbrev sra_insn : Insn
sra_insn = record zeroed { type = InsnType.sra; rd = 5; rs1 = 1; rs2 = 2 }

is_ready : IsReady InsnType.sra sra_insn shifting
unfolding is_jump
is_ready = record {
  wide = record {
    gp_lt = λ r. ground arith;
    fp_lt = λ r. omega arith;
    pc_lt = omega arith;
    reenter_lt = omega arith;
  };
  zero_reg = refl;
  jumps = refl;
  imm_lt = omega arith;
  divides = refl;
}

exec_lines-emit_example :
    seen_code 5 (exec_lines host (emit_sra sra_insn).lines (frame shifting))
    ≡ seen_insn 5 (funcs host InsnType.sra shifting sra_insn)
unfolding emit emit_reg
exec_lines-emit_example = exec_lines-emit host 5 InsnType.sra sra_insn shifting is_ready refl refl

-- -16 shifted by 2 is -4.
shifted :
    seen_insn 5 (funcs host InsnType.sra shifting sra_insn)
    ≡ ok (record { memory = start.memory; gp = 2 ^ 64 - 4; fp = 0; exit = stays })
unfolding funcs on_state func_sra reg_op set_rd
shifted = refl

exec_lines-deferred_example :
    exec_lines host (emit_deferred sra_insn 0x1000).lines (frame start)
    ≡ ok (
      record (frame start) {
        world = record start {
          state = record (start.state) { exit_reason = ExitReason.interp; reenter_pc = 0x1000 };
        };
      },
      leave,
    )
unfolding emit
exec_lines-deferred_example = exec_lines-deferred host InsnType.mulh sra_insn start refl refl
