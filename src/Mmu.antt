-- ===== src/Mmu.antt =====
-- src/mmu.c: the break of the guest's heap, and `sys_brk` of src/syscall.c.
pub mod Break
pub mod Brk
pub mod Elf
pub mod Load
pub mod Loaded
use riscvemu_study.Prelude.{
  ℕ, ◌+◌, ◌-◌, ◌^◌, ◌==◌, ltb, leb, if◌then◌else◌, ◌&&◌, u64, bit_and, Option, none, some, Run, ok,
  fault, fatal, ◌>>=◌, ◌>>◌, assert,
}
use riscvemu_study.State.{Memory, guest_memory_offset, to_host}

-- The host's kernel: the size of a page, and its mappings of a range of an address and a length;
-- `none` is a call that fails.
pub record Kernel : Type 0 where
  pub pagesize : ℕ
  pub mmap : Memory → ℕ → ℕ → Option Memory
  pub munmap : Memory → ℕ → ℕ → Option Memory

pub record Mmu : Type 0 where
  pub entry : ℕ
  pub host_alloc : ℕ
  pub alloc : ℕ
  pub base : ℕ

-- `TO_GUEST` and `ROUNDUP`, in u64 arithmetic
unfoldable pub to_guest : ℕ → ℕ
to_guest addr = u64 (addr + (2 ^ 64 - guest_memory_offset))

unfoldable pub round_up : ℕ → ℕ → ℕ
round_up x k = bit_and (u64 (x + k - 1)) (2 ^ 64 - k)

-- A call of the kernel that must succeed.
unfoldable pub checked : Option Memory → Run Memory
checked none = fault fatal
checked (some m) = ok m

-- The two branches of `mmu_alloc`, where `mmu->alloc` is set already.
unfoldable pub grow_host : Kernel → Mmu → Memory → Run (Mmu × Memory)
grow_host k m mem = do
  let len = round_up (u64 (m.alloc + (2 ^ 64 - to_guest m.host_alloc))) k.pagesize
  mem' ← checked (k.mmap mem m.host_alloc len)
  ok (record m { host_alloc = u64 (m.host_alloc + len) }, mem')

unfoldable pub shrink_host : Kernel → Mmu → Memory → Run (Mmu × Memory)
shrink_host k m mem = do
  let end = round_up m.alloc k.pagesize
  let len = u64 (to_guest m.host_alloc + (2 ^ 64 - end))
  mem' ← checked (k.munmap mem (to_host end) len)
  ok (record m { host_alloc = u64 (m.host_alloc + (2 ^ 64 - len)) }, mem')

-- `size` is the pattern of an i64; the old break is returned.
unfoldable pub mmu_alloc : Kernel → Mmu → Memory → ℕ → Run (ℕ × Mmu × Memory)
mmu_alloc k m mem size = do
  assert (leb m.base m.alloc)
  let moved : Mmu = record m { alloc = u64 (m.alloc + size) }
  assert (leb m.base moved.alloc)
  (m', mem') ←
      if ltb 0 size && ltb size (2 ^ 63) && ltb (to_guest m.host_alloc) moved.alloc
      then grow_host k moved mem
      else if leb (2 ^ 63) size && ltb (round_up moved.alloc k.pagesize) (to_guest m.host_alloc)
      then shrink_host k moved mem
      else ok (moved, mem)
  ok (m.alloc, m', mem')

-- `sys_brk` of src/syscall.c on the argument `a0`: the address that it returns.
unfoldable pub sys_brk : Kernel → Mmu → Memory → ℕ → Run (ℕ × Mmu × Memory)
sys_brk k m mem a0 = do
  let addr = if a0 == 0 then m.alloc else a0
  assert (leb m.base addr)
  (_, m', mem') ← mmu_alloc k m mem (u64 (addr + (2 ^ 64 - m.alloc)))
  ok (addr, m', mem')
