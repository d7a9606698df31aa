-- ===== src/Tests/Setup.antt =====
-- The program and the first stack of a small guest.
use riscvemu_study.Prelude.{
  zero, suc, ◌++◌, ℕ, ◌+◌, ◌%◌, ◌^◌, ◌<◌, ◌≤◌, ◌≡◌, refl, arith, true, some, List, [], ◌∷◌, Run, ok,
  fault, u64, length,
}
use riscvemu_study.State.{Memory, to_host, byte_at, load_bytes, store_bytes}
use riscvemu_study.Mmu.{Kernel, Mmu, to_guest, round_up, checked, grow_host, shrink_host, mmu_alloc}
use riscvemu_study.Mmu.Break.{IsMmu}
use riscvemu_study.Mmu.Elf.{Ehdr, Phdr, field, ehdr_of, phdr_of, pt_load}
use riscvemu_study.Mmu.Load.{
  File, load_phdr, flags_to_mmap_prot, round_down, map_bss, max, mmu_load_segment, load_segments,
  load_ehdr, mmu_load_elf,
}
use riscvemu_study.Mmu.Loaded.{mmu_load_elf-IsMmu}
use riscvemu_study.Machine.{Machine}
use riscvemu_study.Syscall.{a0}
use riscvemu_study.Machine.Setup.{
  sp, a1, set_gp_reg, get_gp_reg, write_bytes, read_bytes, memmove, mmu_write, mmu_write_u64,
  guest_alloc, push_arg, push_args, align_stack, machine_setup,
}
use riscvemu_study.Machine.Setup.Laws.{machine_setup_lem}
use riscvemu_study.Tests.Program.{start}
use riscvemu_study.Tests.Machine.{cold}

-- An ELF header with two program headers: a note, and a segment of 0x1234 bytes at 0x10040 that takes 0x3000
-- bytes of memory.
header_bytes : List ℕ
header_bytes =
    0x7f ∷ 0x45 ∷ 0x4c ∷ 0x46 ∷ 2 ∷ 1 ∷ 1 ∷ 0 ∷ 0 ∷ 0 ∷ 0 ∷ 0 ∷ 0 ∷ 0 ∷ 0 ∷ 0 ∷ 2 ∷ 0 ∷ 243 ∷ 0 ∷ 1
    ∷ 0 ∷ 0 ∷ 0 ∷ 0x50 ∷ 0 ∷ 1 ∷ 0 ∷ 0 ∷ 0 ∷ 0 ∷ 0 ∷ 64 ∷ 0 ∷ 0 ∷ 0 ∷ 0 ∷ 0 ∷ 0 ∷ 0 ∷ 0 ∷ 0 ∷ 0 ∷ 0
    ∷ 0 ∷ 0 ∷ 0 ∷ 0 ∷ 0 ∷ 0 ∷ 0 ∷ 0 ∷ 64 ∷ 0 ∷ 56 ∷ 0 ∷ 2 ∷ 0 ∷ 0 ∷ 0 ∷ 0 ∷ 0 ∷ 0 ∷ 0 ∷ []

segment_bytes : List ℕ
segment_bytes =
    1 ∷ 0 ∷ 0 ∷ 0 ∷ 6 ∷ 0 ∷ 0 ∷ 0 ∷ 0x40 ∷ 0 ∷ 0 ∷ 0 ∷ 0 ∷ 0 ∷ 0 ∷ 0 ∷ 0x40 ∷ 0 ∷ 1 ∷ 0 ∷ 0 ∷ 0 ∷ 0
    ∷ 0 ∷ 0x40 ∷ 0 ∷ 1 ∷ 0 ∷ 0 ∷ 0 ∷ 0 ∷ 0 ∷ 0x34 ∷ 0x12 ∷ 0 ∷ 0 ∷ 0 ∷ 0 ∷ 0 ∷ 0 ∷ 0 ∷ 0x30 ∷ 0 ∷ 0
    ∷ 0 ∷ 0 ∷ 0 ∷ 0 ∷ 0 ∷ 0x10 ∷ 0 ∷ 0 ∷ 0 ∷ 0 ∷ 0 ∷ 0 ∷ []

-- `n` bytes from an offset on, fewer at the end
part : ℕ → ℕ → List ℕ → List ℕ
part at zero bytes = []
part at (suc n) [] = []
part zero (suc n) (b ∷ bytes) = b ∷ part zero n bytes
part (suc at) (suc n) (b ∷ bytes) = part at (suc n) bytes

zeros : ℕ → List ℕ → List ℕ
zeros zero bytes = bytes
zeros (suc n) bytes = 0 ∷ zeros n bytes

-- The note's header is not loadable.
file_bytes : List ℕ
unfolding header_bytes segment_bytes zeros
file_bytes = header_bytes ++ (4 ∷ zeros 55 segment_bytes)

abbrev mapped : Memory
mapped a = some 0

-- The kernel maps every page where it is asked to.
abbrev file : File
file = record {
  pagesize = 4096;
  prot_read = 1;
  prot_write = 2;
  prot_exec = 4;
  fseek = λ at. true;
  fread = λ at n. part at n file_bytes;
  map_file = λ m at len prot offset. (at, mapped);
  map_zeroed = λ m at len prot. (at, mapped);
}

loading : Unit {0}
unfolding header_bytes segment_bytes part zeros file_bytes to_host to_guest round_up field ehdr_of
    phdr_of load_phdr flags_to_mmap_prot round_down map_bss max mmu_load_segment load_segments
    load_ehdr mmu_load_elf
loading = tt

abbrev unset : Mmu
unset = record { entry = 0; host_alloc = 0; alloc = 0; base = 0 }

abbrev placed : Mmu
placed = record { entry = 0x10050; host_alloc = 0x88800014000; alloc = 0x14000; base = 0x14000 }

loads : mmu_load_elf file unset mapped ≡ ok (placed, mapped)
unfolding loading
loads = refl

abbrev read_header : Ehdr
read_header = ehdr_of header_bytes

abbrev segment : Phdr
segment = phdr_of segment_bytes

counted_segment :
    (i : ℕ) (q : Phdr)
    → i < read_header.e_phnum
    → load_phdr file read_header i ≡ ok q
    → q.p_type ≡ pt_load
    → q.p_vaddr + q.p_memsz < 2 ^ 46
unfolding loading
counted_segment zero q b e t = absurd (ground arith)
counted_segment (suc zero) q b e t = ground arith
counted_segment (suc (suc i)) q b e t = absurd (omega arith)

mmu_load_elf-IsMmu_example :
    IsMmu placed
    × (segment.p_vaddr + segment.p_memsz ≤ placed.base)
    × (placed.alloc ≡ placed.base)
    × (placed.entry ≡ read_header.e_entry)
unfolding loading
mmu_load_elf-IsMmu_example =
    mmu_load_elf-IsMmu file unset mapped read_header 1 segment {m' = placed} {mem' = mapped} refl
      refl refl counted_segment (omega arith) refl refl loads

-- The argument is "hi".
abbrev arguments : List (List ℕ)
arguments = (104 ∷ 105 ∷ []) ∷ []

abbrev kernel : Kernel
kernel = record { pagesize = 4096; mmap = λ m at n. some mapped; munmap = λ m at n. some m }

abbrev loaded : Machine
loaded = record (cold (record start { memory = mapped })) { mmu = placed }

setting_up : Unit {0}
unfolding to_host to_guest round_up checked grow_host shrink_host mmu_alloc byte_at store_bytes
    set_gp_reg write_bytes read_bytes memmove mmu_write mmu_write_u64 guest_alloc push_arg push_args
    align_stack machine_setup
setting_up = tt

machine_of : Run Machine → Machine
machine_of (ok m) = m
machine_of (fault e) = loaded

set_up : Machine
unfolding machine_of setting_up
set_up = machine_of (machine_setup kernel arguments loaded)

sets_up : machine_setup kernel arguments loaded ≡ ok set_up
unfolding set_up machine_of setting_up
sets_up = refl

-- 32 megabytes above 0x14000, less 40 bytes in use and the 8 that align the stack.
stack_pointer : get_gp_reg set_up sp ≡ 0x2013fd0
unfolding set_up machine_of setting_up
stack_pointer = refl

machine_setup_lem_example :
    (get_gp_reg set_up sp % 16 ≡ 0)
    × (load_bytes set_up.world.memory (to_host (get_gp_reg set_up sp)) 8 ≡ ok (length arguments))
    × (get_gp_reg set_up a0 ≡ length arguments)
    × (get_gp_reg set_up a1 ≡ u64 (get_gp_reg set_up sp + 8))
    × (get_gp_reg set_up 1 ≡ get_gp_reg loaded 1)
    × (set_up.world.state.pc ≡ loaded.world.state.pc)
machine_setup_lem_example =
    machine_setup_lem kernel arguments 1 loaded {m' = set_up} (omega arith) (omega arith)
      (omega arith) (omega arith) (omega arith) sets_up
