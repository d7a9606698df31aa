-- ===== src/Main.antt =====
-- The main loop of src/riscvemu.c.
pub mod Turn
pub mod Start
use riscvemu_study.Prelude.{ℕ, zero, suc, update, u64, none, some, ok, fault, assertion}
use riscvemu_study.State.{ExitReason, State, World}
use riscvemu_study.Machine.{Partial, ◌>>=◌, lift, Machine, Host, machine_step}
use riscvemu_study.Syscall.{a0, a7, Os, Outcome, returned, exited, do_syscall}

module _ (h : Host) (os : Os) where
  -- How a round ends: the process is over, or the loop goes on.
  pub data Next : Type 0 where
    finished : ℕ → Next
    going : os.Files → Machine → Next

  -- `machine_set_gp_reg(&machine, a0, ret)`
  unfoldable pub resume : Outcome os → Next
  resume (exited code) = finished code
  resume (returned v fs m) =
      let s = m.world.state in
      going fs (record m {
        world = record (m.world) { state = record s { gp_regs = update s.gp_regs a0 (u64 v) } };
      })

  unfoldable pub after_step : ExitReason → os.Files → Machine → Partial Next
  unfolding resume
  after_step ExitReason.halt fs m = some (ok (finished 0))
  after_step ExitReason.ecall fs m = do
    outcome ← lift (do_syscall os (m.world.state.gp_regs a7) fs m)
    some (ok (resume outcome))
  after_step reason fs m = some (fault assertion)

  -- A round of the loop
  unfoldable pub turn : ℕ → os.Files → Machine → Partial Next
  unfolding after_step
  turn fuel fs m = do (reason, m') ← machine_step h fuel m; after_step reason fs m'

  -- The loop, on fuel: the exit status of the process
  unfoldable pub go_on : (os.Files → Machine → Partial ℕ) → Next → Partial ℕ
  go_on again (finished code) = some (ok code)
  go_on again (going fs m) = again fs m

  unfoldable pub main_loop : ℕ → os.Files → Machine → Partial ℕ
  unfolding turn go_on
  main_loop zero fs m = none
  main_loop (suc fuel) fs m = do next ← turn fuel fs m; go_on (main_loop fuel) next
