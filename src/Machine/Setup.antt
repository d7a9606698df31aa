-- ===== src/Machine/Setup.antt =====
-- `machine_load_program` and `machine_setup` of src/machine.c: the program, the first stack and the
-- arguments.
pub mod Laws
pub mod Copy
use mathlib.Core.Bool.{not}
use riscvemu_study.Prelude.{
  ℕ, zero, suc, ◌+◌, ◌-◌, ◌*◌, ◌^◌, ◌==◌, if◌then◌else◌, update, u64, bit_and, Option, none, some,
  List, [], ◌∷◌, ◌++◌, Run, ok, fault, fatal, ◌>>=◌, length,
}
use riscvemu_study.State.{Memory, State, World, to_host, byte_at, store_bytes}
use riscvemu_study.Mmu.{Kernel, Mmu, mmu_alloc}
use riscvemu_study.Mmu.Load.{File, mmu_load_elf}
use riscvemu_study.Machine.{Machine}
use riscvemu_study.Syscall.{a0}

-- The registers `sp` and `a1` of inc/reg.h
abbrev pub sp : ℕ
sp = 2

abbrev pub a1 : ℕ
a1 = 11

-- `m->state.gp_regs[r] = v`
unfoldable pub set_gp_reg : Machine → ℕ → ℕ → Machine
set_gp_reg m r v =
    let s = m.world.state in
    record m {
      world = record (m.world) { state = record s { gp_regs = update s.gp_regs r (u64 v) } };
    }

abbrev pub get_gp_reg : Machine → ℕ → ℕ
get_gp_reg m r = m.world.state.gp_regs r

-- The file is what `open` gives.
unfoldable pub machine_load_program : Option File → Machine → Run Machine
machine_load_program none m = fault fatal
machine_load_program (some file) m = do
  (mmu, memory) ← mmu_load_elf file m.mmu m.world.memory
  let s = m.world.state
  ok (record m {
    world = record { state = record s { pc = mmu.entry }; memory = memory };
    mmu = mmu;
  })

-- `memcpy`, and `memmove` of `n` bytes, between host addresses
unfoldable pub write_bytes : Memory → ℕ → List ℕ → Run Memory
write_bytes mem at [] = ok mem
write_bytes mem at (b ∷ bytes) = do
  old ← byte_at mem at
  write_bytes (update mem at (some b)) (u64 (at + 1)) bytes

unfoldable pub read_bytes : Memory → ℕ → ℕ → Run (List ℕ)
read_bytes mem at zero = ok []
read_bytes mem at (suc n) = do
  b ← byte_at mem at
  bytes ← read_bytes mem (u64 (at + 1)) n
  ok (b ∷ bytes)

unfoldable pub memmove : Memory → ℕ → ℕ → ℕ → Run Memory
memmove mem to from n = do bytes ← read_bytes mem from n; write_bytes mem to bytes

unfoldable pub mmu_write : ℕ → List ℕ → Machine → Run Machine
mmu_write addr bytes m = do
  memory ← write_bytes m.world.memory (to_host addr) bytes
  ok (record m { world = record (m.world) { memory = memory } })

-- The same for the eight bytes of a number
unfoldable pub mmu_write_u64 : ℕ → ℕ → Machine → Run Machine
mmu_write_u64 addr v m = do
  memory ← store_bytes m.world.memory (to_host addr) 8 v
  ok (record m { world = record (m.world) { memory = memory } })

-- `mmu_alloc(&m->mmu, size)`
unfoldable pub guest_alloc : Kernel → ℕ → Machine → Run (ℕ × Machine)
guest_alloc k size m = do
  (base, mmu, memory) ← mmu_alloc k m.mmu m.world.memory size
  ok (base, record m { world = record (m.world) { memory = memory }; mmu = mmu })

-- A round of the loop over the arguments: a string, without the byte that ends it
unfoldable pub push_arg : Kernel → List ℕ → Machine → Run Machine
push_arg k arg m = do
  (addr, m1) ← guest_alloc k (length arg + 1) m
  m2 ← mmu_write addr arg m1
  let m3 = set_gp_reg m2 sp (get_gp_reg m2 sp + (2 ^ 64 - 8))
  mmu_write_u64 (get_gp_reg m3 sp) addr m3

-- The loop, which takes the last argument first
unfoldable pub push_args : Kernel → List (List ℕ) → Machine → Run Machine
push_args k [] m = ok m
push_args k (arg ∷ args) m = do m' ← push_args k args m; push_arg k arg m'

unfoldable pub align_stack : ℕ → Machine → Run Machine
align_stack top m =
    let sp0 = get_gp_reg m sp in
    let aligned_sp = bit_and sp0 (2 ^ 64 - 16) in
    if aligned_sp == sp0 then ok m else do
      memory ←
          memmove m.world.memory (to_host aligned_sp) (to_host sp0) (u64 (top + (2 ^ 64 - sp0)))
      let moved =
          set_gp_reg (record m { world = record (m.world) { memory = memory } }) sp aligned_sp
      ok (set_gp_reg moved a1 (aligned_sp + 8))

-- `STACK_SIZE`
abbrev pub stack_size : ℕ
stack_size = 32 * 1024 * 1024

-- The arguments are those from `argv[1]` on.
unfoldable pub machine_setup : Kernel → List (List ℕ) → Machine → Run Machine
machine_setup k argv m = do
  (stack, m1) ← guest_alloc k stack_size m
  let top = u64 (stack + stack_size)
  m2 ← push_args k argv (set_gp_reg m1 sp (top + (2 ^ 64 - 24)))
  let args = length argv
  let m3 = set_gp_reg m2 sp (get_gp_reg m2 sp + (2 ^ 64 - 8))
  m4 ← mmu_write_u64 (get_gp_reg m3 sp) args m3
  let m5 = set_gp_reg m4 a0 args
  align_stack top (set_gp_reg m5 a1 (get_gp_reg m5 sp + 8))
