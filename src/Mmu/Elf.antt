-- ===== src/Mmu/Elf.antt =====
-- The structures of inc/elfdef.h that the loader of src/mmu.c reads.
use riscvemu_study.Prelude.{ℕ, zero, suc, ◌+◌, ◌*◌, List, [], ◌∷◌}

-- `elf64_ehdr_t`
pub record Ehdr : Type 0 where
  pub e_magic : ℕ
  pub e_class : ℕ
  pub e_type : ℕ
  pub e_machine : ℕ
  pub e_version : ℕ
  pub e_entry : ℕ
  pub e_phoff : ℕ
  pub e_shoff : ℕ
  pub e_flags : ℕ
  pub e_ehsize : ℕ
  pub e_phentsize : ℕ
  pub e_phnum : ℕ
  pub e_shentsize : ℕ
  pub e_shnum : ℕ
  pub e_shstrndx : ℕ

-- `elf64_phdr_t`
pub record Phdr : Type 0 where
  pub p_type : ℕ
  pub p_flags : ℕ
  pub p_offset : ℕ
  pub p_vaddr : ℕ
  pub p_paddr : ℕ
  pub p_filesz : ℕ
  pub p_memsz : ℕ
  pub p_align : ℕ

-- The number in `n` bytes at an offset, little endian
unfoldable pub field : ℕ → ℕ → List ℕ → ℕ
field zero zero bytes = 0
field zero (suc n) [] = 0
field zero (suc n) (b ∷ bytes) = b + 256 * field zero n bytes
field (suc at) n [] = 0
field (suc at) n (b ∷ bytes) = field at n bytes

-- `e_magic` and `e_class` are the bytes of `e_ident` that are read: the first four, and the one at
-- `EI_CLASS`.
unfoldable pub ehdr_of : List ℕ → Ehdr
ehdr_of bytes = record {
  e_magic = field 0 4 bytes;
  e_class = field 4 1 bytes;
  e_type = field 16 2 bytes;
  e_machine = field 18 2 bytes;
  e_version = field 20 4 bytes;
  e_entry = field 24 8 bytes;
  e_phoff = field 32 8 bytes;
  e_shoff = field 40 8 bytes;
  e_flags = field 48 4 bytes;
  e_ehsize = field 52 2 bytes;
  e_phentsize = field 54 2 bytes;
  e_phnum = field 56 2 bytes;
  e_shentsize = field 58 2 bytes;
  e_shnum = field 60 2 bytes;
  e_shstrndx = field 62 2 bytes;
}

unfoldable pub phdr_of : List ℕ → Phdr
phdr_of bytes = record {
  p_type = field 0 4 bytes;
  p_flags = field 4 4 bytes;
  p_offset = field 8 8 bytes;
  p_vaddr = field 16 8 bytes;
  p_paddr = field 24 8 bytes;
  p_filesz = field 32 8 bytes;
  p_memsz = field 40 8 bytes;
  p_align = field 48 8 bytes;
}

-- `ELFMAG`, `ELFCLASS64`, `EM_RISCV` and `PT_LOAD`
abbrev pub elfmag : ℕ
elfmag = 0x464c457f

abbrev pub elfclass64 : ℕ
elfclass64 = 2

abbrev pub em_riscv : ℕ
em_riscv = 243

abbrev pub pt_load : ℕ
pt_load = 1
