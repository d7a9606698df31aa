-- ===== src/Tests/Heap.antt =====
-- The guest's heap at a small break.
use riscvemu_study.Prelude.{◌≡◌, refl, arith, ◌==◌, if◌then◌else◌, some, none, ok}
use riscvemu_study.State.{Memory}
use riscvemu_study.Mmu.{
  Kernel, Mmu, to_guest, round_up, checked, grow_host, shrink_host, mmu_alloc, sys_brk,
}
use riscvemu_study.Mmu.Break.{IsMmu}
use riscvemu_study.Mmu.Brk.{sys_brk-IsMmu}

-- A kernel that grants every request and whose memory is not looked at.
abbrev kernel : Kernel
kernel = record { pagesize = 4096; mmap = λ m a n. some m; munmap = λ m a n. some m }

abbrev unmapped : Memory
unmapped a = none

-- A break at 0x20000, and the mapping ends there.
abbrev heap : Mmu
heap = record { entry = 0x10000; host_alloc = 0x88800020000; alloc = 0x20000; base = 0x18000 }

abbrev grown : Mmu
grown = record { entry = 0x10000; host_alloc = 0x88800022000; alloc = 0x21234; base = 0x18000 }

heap-IsMmu : IsMmu heap
heap-IsMmu = record {
  base_le = omega arith;
  alloc_le = omega arith;
  aligned = refl;
  bound = omega arith;
}

grows : sys_brk kernel heap unmapped 0x21234 ≡ ok (0x21234, grown, unmapped)
unfolding sys_brk mmu_alloc grow_host shrink_host checked round_up to_guest
grows = refl

sys_brk-IsMmu_example :
    IsMmu grown
    × (0x21234 ≡ (if 0x21234 == 0 then heap.alloc else 0x21234))
    × (grown.alloc ≡ 0x21234)
    × (grown.base ≡ heap.base)
sys_brk-IsMmu_example =
    sys_brk-IsMmu kernel heap unmapped 0x21234 {addr = 0x21234} {m' = grown} {mem' = unmapped} refl
      heap-IsMmu (omega arith) (omega arith) grows
