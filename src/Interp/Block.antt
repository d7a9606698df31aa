-- ===== src/Interp/Block.antt =====
-- `exec_block_interp` of src/interpret.c.
pub mod Laws
pub mod Ends
use riscvemu_study.Prelude.{
  ℕ, zero, suc, ◌+◌, ◌==◌, if◌then◌else◌, Bool, true, false, u64, update, Option, none, some, Run,
  ok, fault, ◌>>=◌,
}
use riscvemu_study.Insn.{Insn, zeroed}
use riscvemu_study.State.{ExitReason, World, to_host, load_bytes}
use riscvemu_study.Decode.Dispatch.{insn_decode}
use riscvemu_study.Interp.Control.{insn_size}
use riscvemu_study.Interp.Float.{Fpu}
use riscvemu_study.Interp.Funcs.{funcs}

-- What follows the operation in an iteration: `zero` is reset, and the loop ends (`true`) or
-- steps over the instruction.
unfoldable pub finish_insn : World → Insn → Bool × World
finish_insn w i =
    let s = record (w.state) { gp_regs = update w.state.gp_regs 0 0 } in
    if i.cont
    then (true, record w { state = s })
    else (false, record w { state = record s { pc = u64 (s.pc + insn_size i) } })

-- At address 0 the guest halts.
unfoldable pub halted : World → World
halted w = record w { state = record (w.state) { exit_reason = ExitReason.halt; reenter_pc = 0 } }

-- How the loop goes on after an iteration; `again` is the rest of the loop.
unfoldable pub loop_after : (World → Option (Run World)) → Run (Bool × World) → Option (Run World)
loop_after again (fault e) = some (fault e)
loop_after again (ok (true, w)) = some (ok w)
loop_after again (ok (false, w)) = again w

module _ (fpu : Fpu) where
  -- Fetch, decode and execute at the program counter.
  unfoldable pub execute_insn : World → Run (Bool × World)
  execute_insn w = do
    word ← load_bytes w.memory (to_host w.state.pc) 4
    i ← insn_decode zeroed word
    (w', i') ← funcs fpu i.type w i
    ok (finish_insn w' i')

  -- One iteration; the flag says that the loop ends.
  unfoldable pub interp_insn : World → Run (Bool × World)
  interp_insn w = if w.state.pc == 0 then ok (true, halted w) else execute_insn w

  -- The loop, on fuel: `none` is out of fuel.
  unfoldable pub exec_block_interp : ℕ → World → Option (Run World)
  unfolding loop_after
  exec_block_interp zero w = none
  exec_block_interp (suc fuel) w = loop_after (exec_block_interp fuel) (interp_insn w)
