-- ===== src/Syscall.antt =====
-- src/syscall.c: the system calls of the guest, and the main loop of src/riscvemu.c. The host's
-- own calls are a parameter.
pub mod Laws
pub mod Tables
use riscvemu_study.Prelude.{
  ℕ, zero, suc, ◌+◌, ◌-◌, ◌*◌, ◌^◌, ◌==◌, ltb, if◌then◌else◌, bit_and, bit_or, update, u32, u64,
  List, [], ◌∷◌, Option, none, some, Run, ok, fault, fatal, assertion, ◌>>=◌,
}
use riscvemu_study.State.{ExitReason, State, World, Memory, to_host, store_bytes}
use riscvemu_study.Mmu.{Kernel, sys_brk}
use riscvemu_study.Syscall.Tables.{
  Function, null, unimplemented, exit_call, read_call, write_call, openat_call, close_call,
  fstat_call, lseek_call, brk_call, gettimeofday_call, open_call, array_size, read_table,
  syscall_table, old_syscall_table,
}
use riscvemu_study.Machine.{Machine, Host, Partial, machine_step}

abbrev pub a0 : ℕ
a0 = 10

abbrev pub a7 : ℕ
a7 = 17

-- The members of `struct stat` that are passed on.
pub record Stat : Type 0 where
  pub dev : ℕ
  pub ino : ℕ
  pub mode : ℕ
  pub nlink : ℕ
  pub uid : ℕ
  pub gid : ℕ
  pub rdev : ℕ
  pub size : ℕ
  pub blksize : ℕ
  pub blocks : ℕ
  pub atime : ℕ
  pub mtime : ℕ
  pub ctime : ℕ

-- The host's constants for the flags of `open`
pub record OpenFlags : Type 0 where
  pub o_wronly : ℕ
  pub o_rdwr : ℕ
  pub o_append : ℕ
  pub o_creat : ℕ
  pub o_trunc : ℕ
  pub o_excl : ℕ

-- The host's calls, on the files that it keeps and the memory that it shares: the result as a
-- u64, or the signal that a bad pointer raises.
pub record Os : Type 1 where
  pub Files : Type 0
  pub kernel : Kernel
  pub flags : OpenFlags
  pub close : ℕ → Files → ℕ × Files
  pub write : ℕ → ℕ → ℕ → Files → Memory → Run (ℕ × Files × Memory)
  pub read : ℕ → ℕ → ℕ → Files → Memory → Run (ℕ × Files × Memory)
  pub lseek : ℕ → ℕ → ℕ → Files → ℕ × Files
  pub fstat : ℕ → Files → ℕ × Stat
  pub gettimeofday : ℕ → Option ℕ → Files → Memory → Run (ℕ × Files × Memory)
  pub openat : ℕ → ℕ → ℕ → ℕ → Files → Memory → Run (ℕ × Files × Memory)
  pub open_path : ℕ → ℕ → ℕ → Files → Memory → Run (ℕ × Files × Memory)

-- `REWRITE_FLAG`
unfoldable pub rewrite_flag : ℕ → ℕ → ℕ → ℕ → ℕ
rewrite_flag flags newlib flag hostflags =
    if bit_and flags newlib == 0 then hostflags else bit_or hostflags flag

-- `O_RDONLY` is 0 in newlib, so no flags rewrite it.
unfoldable pub convert_flags : OpenFlags → ℕ → ℕ
unfolding rewrite_flag
convert_flags o flags = rewrite_flag flags 0x800 o.o_excl (
    rewrite_flag flags 0x400 o.o_trunc (
      rewrite_flag flags 0x200 o.o_creat (
        rewrite_flag flags 0x8 o.o_append
          (rewrite_flag flags 0x2 o.o_rdwr (rewrite_flag flags 0x1 o.o_wronly 0)))))

-- The members of a packed structure, with the bytes that each takes
unfoldable pub store_members : Memory → ℕ → List (ℕ × ℕ) → Run Memory
store_members mem at [] = ok mem
store_members mem at ((width, value) ∷ rest) = do
  mem' ← store_bytes mem at width value
  store_members mem' (u64 (at + width)) rest

abbrev pub riscv_stat : Stat → List (ℕ × ℕ)
riscv_stat st =
    (8, st.dev)
    ∷ (8, st.ino)
    ∷ (4, st.mode)
    ∷ (4, st.nlink)
    ∷ (4, st.uid)
    ∷ (4, st.gid)
    ∷ (8, st.rdev)
    ∷ (8, 0)
    ∷ (8, st.size)
    ∷ (4, st.blksize)
    ∷ (4, 0)
    ∷ (8, st.blocks)
    ∷ (8, st.atime)
    ∷ (8, 0)
    ∷ (8, st.mtime)
    ∷ (8, 0)
    ∷ (8, st.ctime)
    ∷ (8, 0)
    ∷ (4, 0)
    ∷ (4, 0)
    ∷ []

-- The element that `do_syscall` reads
unfoldable pub select : ℕ → Run Function
select n =
    let old = u64 (n + (2 ^ 64 - 1024)) in
    if ltb n (array_size syscall_table)
    then read_table syscall_table n
    else if ltb old (array_size old_syscall_table)
    then read_table old_syscall_table old
    else ok null

module _ (os : Os) where
  -- A call that returns a value to the guest, or that ends the process.
  pub data Outcome : Type 0 where
    returned : ℕ → os.Files → Machine → Outcome
    exited : ℕ → Outcome

  abbrev pub arg : Machine → ℕ → ℕ
  arg m i = m.world.state.gp_regs (a0 + i)

  abbrev pub with_memory : Machine → Memory → Machine
  with_memory m mem = record m { world = record (m.world) { memory = mem } }

  -- A host call that may write the memory
  unfoldable pub host_call : Machine → Run (ℕ × os.Files × Memory) → Run Outcome
  host_call m r = do (v, fs, mem) ← r; ok (returned v fs (with_memory m mem))

  unfoldable pub sys_close : os.Files → Machine → Run Outcome
  sys_close fs m =
      let (v, fs') = os.close (arg m 0) fs in
      if ltb 2 (arg m 0) then ok (returned v fs' m) else ok (returned 0 fs m)

  unfoldable pub sys_write : os.Files → Machine → Run Outcome
  sys_write fs m = host_call m (os.write (arg m 0) (to_host (arg m 1)) (arg m 2) fs m.world.memory)

  unfoldable pub sys_read : os.Files → Machine → Run Outcome
  sys_read fs m = host_call m (os.read (arg m 0) (to_host (arg m 1)) (arg m 2) fs m.world.memory)

  unfoldable pub sys_lseek : os.Files → Machine → Run Outcome
  sys_lseek fs m = let (v, fs') = os.lseek (arg m 0) (arg m 1) (arg m 2) fs in ok (returned v fs' m)

  unfoldable pub sys_fstat : os.Files → Machine → Run Outcome
  sys_fstat fs m =
      let (rc, st) = os.fstat (u32 (arg m 0)) fs in
      let stored = store_members m.world.memory (to_host (arg m 1)) (riscv_stat st) in
      if rc == 0 then host_call m (stored >>= λ mem. ok (0, fs, mem)) else ok (returned rc fs m)

  unfoldable pub sys_gettimeofday : os.Files → Machine → Run Outcome
  sys_gettimeofday fs m =
      let tz = if arg m 1 == 0 then none else some (to_host (arg m 1)) in
      host_call m (os.gettimeofday (to_host (arg m 0)) tz fs m.world.memory)

  unfoldable pub sys_openat : os.Files → Machine → Run Outcome
  sys_openat fs m = host_call m (
      os.openat (arg m 0) (to_host (arg m 1)) (convert_flags os.flags (u32 (arg m 2))) (arg m 3) fs
        m.world.memory)

  unfoldable pub sys_open : os.Files → Machine → Run Outcome
  sys_open fs m = host_call m (
      os.open_path (to_host (arg m 0)) (convert_flags os.flags (u32 (arg m 1))) (u32 (arg m 2)) fs
        m.world.memory)

  unfoldable pub sys_break : os.Files → Machine → Run Outcome
  sys_break fs m = do
    (v, mmu, mem) ← sys_brk os.kernel m.mmu m.world.memory (arg m 0)
    ok (returned v fs (record (with_memory m mem) { mmu = mmu }))

  -- `f(m)`, where `f` is not NULL
  unfoldable pub apply : Function → os.Files → Machine → Run Outcome
  unfolding sys_close sys_write sys_read sys_lseek sys_fstat sys_gettimeofday sys_openat sys_open
      sys_break
  apply null fs m = fault fatal
  apply unimplemented fs m = fault fatal
  apply exit_call fs m = ok (exited (arg m 0))
  apply read_call fs m = sys_read fs m
  apply write_call fs m = sys_write fs m
  apply openat_call fs m = sys_openat fs m
  apply close_call fs m = sys_close fs m
  apply fstat_call fs m = sys_fstat fs m
  apply lseek_call fs m = sys_lseek fs m
  apply brk_call fs m = sys_break fs m
  apply gettimeofday_call fs m = sys_gettimeofday fs m
  apply open_call fs m = sys_open fs m

  unfoldable pub do_syscall : ℕ → os.Files → Machine → Run Outcome
  unfolding apply select
  do_syscall n fs m = do f ← select n; apply f fs m
