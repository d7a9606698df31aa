-- ===== src/Mmu/Load.antt =====
-- The ELF loader of src/mmu.c.
use mathlib.Core.Bool.{not}
use riscvemu_study.Prelude.{
  ℕ, zero, suc, ◌+◌, ◌-◌, ◌*◌, ◌^◌, ◌==◌, ltb, if◌then◌else◌, Bool, ◌||◌, List, u64, bit_and,
  bit_or, Run, ok, fault, fatal, ◌>>=◌, ◌>>◌, assert, length,
}
use riscvemu_study.State.{Memory, to_host}
use riscvemu_study.Mmu.{Mmu, to_guest, round_up}
use riscvemu_study.Mmu.Elf.{Ehdr, Phdr, ehdr_of, phdr_of, elfmag, elfclass64, em_riscv, pt_load}

-- The open file: the bytes that `fread` gives at an offset when it is asked for a number of them,
-- fewer at the end of the file; whether `fseek` reaches an offset; and what the kernel does for
-- `mmap` of the file, or of zeroed pages, at a fixed address: the address that it returns, and the
-- memory after it. The arguments are the address, the length, the protection and the offset.
pub record File : Type 0 where
  pub pagesize : ℕ
  pub prot_read : ℕ
  pub prot_write : ℕ
  pub prot_exec : ℕ
  pub fseek : ℕ → Bool
  pub fread : ℕ → ℕ → List ℕ
  pub map_file : Memory → ℕ → ℕ → ℕ → ℕ → ℕ × Memory
  pub map_zeroed : Memory → ℕ → ℕ → ℕ → ℕ × Memory

unfoldable pub load_phdr : File → Ehdr → ℕ → Run Phdr
load_phdr file ehdr i = do
  let offset = u64 (ehdr.e_phoff + i * ehdr.e_phentsize)
  let bytes = file.fread offset 56
  if not (file.fseek offset)
      then fault fatal
      else if not (length bytes == 56)
      then fault fatal
      else ok (phdr_of bytes)

unfoldable pub flags_to_mmap_prot : File → ℕ → ℕ
flags_to_mmap_prot file flags =
    bit_or
      (bit_or (if bit_and flags 4 == 0 then 0 else file.prot_read)
        (if bit_and flags 2 == 0 then 0 else file.prot_write))
      (if bit_and flags 1 == 0 then 0 else file.prot_exec)

-- `ROUNDDOWN`
unfoldable pub round_down : ℕ → ℕ → ℕ
round_down x k = bit_and x (2 ^ 64 - k)

-- The pages of a segment behind those of the file
unfoldable pub map_bss : File → Memory → ℕ → ℕ → ℕ → Run Memory
map_bss file mem at size prot =
    if size == 0
    then ok mem
    else do let (addr, mem') = file.map_zeroed mem at size prot; assert (addr == at); ok mem'

unfoldable pub max : ℕ → ℕ → ℕ
max x y = if ltb y x then x else y

unfoldable pub mmu_load_segment : File → Phdr → Mmu → Memory → Run (Mmu × Memory)
unfolding map_bss max
mmu_load_segment file phdr m mem = do
  let vaddr = to_host phdr.p_vaddr
  let aligned_vaddr = round_down vaddr file.pagesize
  let filesz = u64 (phdr.p_filesz + (vaddr - aligned_vaddr))
  let memsz = u64 (phdr.p_memsz + (vaddr - aligned_vaddr))
  let prot = flags_to_mmap_prot file phdr.p_flags
  let (addr, mem1) =
      file.map_file mem aligned_vaddr filesz prot (round_down phdr.p_offset file.pagesize)
  assert (addr == aligned_vaddr)
  let file_pages = round_up filesz file.pagesize
  let pages = round_up memsz file.pagesize
  mem2 ←
      map_bss file mem1 (u64 (aligned_vaddr + file_pages)) (u64 (pages + (2 ^ 64 - file_pages)))
        prot
  let host_alloc = max m.host_alloc (u64 (aligned_vaddr + pages))
  ok (
    record m { host_alloc = host_alloc; alloc = to_guest host_alloc; base = to_guest host_alloc },
    mem2,
  )

-- The loop, from program header `i` on, with `left` of them to come
unfoldable pub load_segments : File → Ehdr → ℕ → ℕ → Mmu → Memory → Run (Mmu × Memory)
load_segments file ehdr i zero m mem = ok (m, mem)
load_segments file ehdr i (suc left) m mem = do
  phdr ← load_phdr file ehdr i
  (m', mem') ← if phdr.p_type == pt_load then mmu_load_segment file phdr m mem else ok (m, mem)
  load_segments file ehdr (suc i) left m' mem'

-- The checks of `mmu_load_elf`
unfoldable pub load_ehdr : File → Run Ehdr
load_ehdr file =
    let buf = file.fread 0 64 in
    let ehdr = ehdr_of buf in
    if not (length buf == 64)
    then fault fatal
    else if not (ehdr.e_magic == elfmag)
    then fault fatal
    else if not (ehdr.e_machine == em_riscv) || not (ehdr.e_class == elfclass64)
    then fault fatal
    else ok ehdr

unfoldable pub mmu_load_elf : File → Mmu → Memory → Run (Mmu × Memory)
mmu_load_elf file m mem = do
  ehdr ← load_ehdr file
  load_segments file ehdr 0 ehdr.e_phnum (record m { entry = ehdr.e_entry }) mem
