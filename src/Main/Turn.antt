-- ===== src/Main/Turn.antt =====
-- A round of the main loop of src/riscvemu.c.
use riscvemu_study.Prelude.{ℕ, ◌≡◌, update, u64, some, ok}
use riscvemu_study.State.{ExitReason, State}
use riscvemu_study.Machine.{Machine, Host, machine_step}
use riscvemu_study.Syscall.{a0, a7, Os, returned, do_syscall}
use riscvemu_study.Main.{Next, finished, going}

module _ (h : Host) (os : Os) where
  -- What a round is: `machine_step` stops at an `ecall` with the machine `stop`, the call of `a7`
  -- returns there, and `m` goes on from behind the `ecall`. Its registers and counters are those of
  -- `stop`, with the value of the call in `a0`, and its memory is the one that the call left.
  pub record IsRound (fuel : ℕ) (fs : os.Files) (before : Machine) (fs' : os.Files) (m : Machine)
      : Type 0 where
    pub stop : Machine
    pub stopped : machine_step h fuel before ≡ some (ok (ExitReason.ecall, stop))
    pub value : ℕ
    pub after : Machine
    pub answer : do_syscall os (stop.world.state.gp_regs a7) fs stop ≡ ok (returned value fs' after)
    pub registers :
        (m.world.state
          ≡ record (stop.world.state) { gp_regs = update stop.world.state.gp_regs a0 (u64 value) })
    pub memory : m.world.memory ≡ after.world.memory
    pub cache : m.cache ≡ stop.cache
    pub reason : m.world.state.exit_reason ≡ ExitReason.ecall
    pub counter : m.world.state.pc ≡ m.world.state.reenter_pc

  next_machine : Machine → Next h os → Machine
  next_machine d (finished code) = d
  next_machine d (going fs m) = m
