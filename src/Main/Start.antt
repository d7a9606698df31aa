-- ===== src/Main/Start.antt =====
-- `main` of src/riscvemu.c: the machine before the loop, and the loop.
use riscvemu_study.Prelude.{ℕ, Option, List, ltb, length, assert, ◌>>◌}
use riscvemu_study.State.{Memory, ExitReason}
use riscvemu_study.Cache.{new_cache}
use riscvemu_study.Codegen.Block.{Gen}
use riscvemu_study.Mmu.Load.{File}
use riscvemu_study.Machine.{Partial, ◌>>=◌, lift, Machine, Host}
use riscvemu_study.Machine.Setup.{machine_load_program, machine_setup}
use riscvemu_study.Syscall.{Os}
use riscvemu_study.Main.{main_loop}

-- `machine_t machine = {0}`, with the memory and the static variables of a process that starts
unfoldable pub new_machine : Memory → Gen → Machine
new_machine memory gen = record {
  world = record {
    state = record {
      exit_reason = ExitReason.none;
      reenter_pc = 0;
      gp_regs = λ r. 0;
      fp_regs = λ r. 0;
      pc = 0;
    };
    memory = memory;
  };
  mmu = record { entry = 0; host_alloc = 0; alloc = 0; base = 0 };
  cache = new_cache;
  gen = gen;
}

-- `argv` holds the arguments from `argv[1]` on, `file` what `open` gives for the first of them.
unfoldable pub main :
    (h : Host) (os : Os) → ℕ → Option File → List (List ℕ) → os.Files → Memory → Gen → Partial ℕ
main h os fuel file argv fs memory gen = do
  m ← lift (assert (ltb 0 (length argv)) >> machine_load_program file (new_machine memory gen))
  m' ← lift (machine_setup os.kernel argv m)
  main_loop h os fuel fs m'
