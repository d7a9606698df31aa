-- ===== src/Tests/Syscalls.antt =====
-- System calls of small guests, and the theorems at them.
use riscvemu_study.Prelude.{ℕ, ◌≡◌, ◌==◌, refl, arith, if◌then◌else◌, none, some, ok, fault, fatal}
use riscvemu_study.Stack.View.{contains}
use riscvemu_study.Machine.{Machine, Partial}
use riscvemu_study.Syscall.{
  Os, Stat, returned, host_call, sys_write, select, apply, do_syscall, rewrite_flag, convert_flags,
}
use riscvemu_study.Syscall.Tables.{
  array_size, element, read_table, syscall_table, old_syscall_table,
}
use riscvemu_study.Syscall.Laws.{IsKept, do_syscall_unknown, do_syscall-IsKept}
use riscvemu_study.Main.{Next, finished, going, resume, after_step, turn, go_on, main_loop}
use riscvemu_study.Tests.Program.{start}
use riscvemu_study.Tests.Machine.{stepping, no_compiler, cold}

calling : Unit {0}
unfolding stepping host_call sys_write array_size element read_table syscall_table old_syscall_table
    select apply do_syscall resume after_step turn go_on main_loop
calling = tt

abbrev no_stat : Stat
no_stat = record {
  dev = 0;
  ino = 0;
  mode = 0;
  nlink = 0;
  uid = 0;
  gid = 0;
  rdev = 0;
  size = 0;
  blksize = 0;
  blocks = 0;
  atime = 0;
  mtime = 0;
  ctime = 0;
}

-- A host with the flags of Linux; its files count the bytes that are written.
abbrev linux : Os
linux = record {
  Files = ℕ;
  kernel = record { pagesize = 4096; mmap = λ m a n. some m; munmap = λ m a n. some m };
  flags = record {
    o_wronly = 1;
    o_rdwr = 2;
    o_append = 1024;
    o_creat = 64;
    o_trunc = 512;
    o_excl = 128;
  };
  close = λ fd fs. (0, fs);
  write = λ fd p n fs m. ok (n, n, m);
  read = λ fd p n fs m. ok (0, fs, m);
  lseek = λ fd o w fs. (0, fs);
  fstat = λ fd fs. (0, no_stat);
  gettimeofday = λ tv tz fs m. ok (0, fs, m);
  openat = λ d p f mode fs m. ok (3, fs, m);
  open_path = λ p f mode fs m. ok (3, fs, m);
}

-- newlib's O_WRONLY | O_CREAT | O_TRUNC on Linux
flags_for_writing : convert_flags linux.flags 0x601 ≡ 577
unfolding convert_flags rewrite_flag
flags_for_writing = refl

-- The guest of `start`, with the number of `write` in `a7` and 5 in `a2`
abbrev writing : Machine
writing = cold (record start {
  state = record (start.state) { gp_regs = λ k. if k == 17 then 64 else if k == 12 then 5 else 0 };
})

going_on : Machine → Partial (Next no_compiler linux) → Machine
going_on d (some (ok (going fs m))) = m
going_on d (some (ok (finished code))) = d
going_on d (some (fault e)) = d
going_on d none = d

written : Machine
unfolding going_on calling
written = going_on writing (turn no_compiler linux 5 0 writing)

a0_written : written.world.state.gp_regs 10 ≡ 5
unfolding written going_on calling
a0_written = refl

do_syscall_unknown_example : do_syscall linux 1025 0 writing ≡ fault fatal
do_syscall_unknown_example =
    do_syscall_unknown linux 1025 0 writing (omega arith) (unfold contains in refl)

writes : do_syscall linux 64 0 writing ≡ ok (returned 5 5 writing)
unfolding calling
writes = refl

do_syscall-IsKept_example : IsKept linux 64 writing writing
do_syscall-IsKept_example =
    do_syscall-IsKept linux 64 0 writing {v = 5} {fs' = 5} {m' = writing} writes
