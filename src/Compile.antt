-- ===== src/Compile.antt =====
-- `machine_compile` of src/compile.c. What clang makes of a source is a parameter: the sections
-- of its object file, read already.
pub mod Relocate
use riscvemu_study.Prelude.{
  ℕ, ◌+◌, ◌-◌, ◌/◌, ◌%◌, ◌^◌, ◌==◌, Bool, update, u32, u64, sext, List, [], ◌∷◌, Option, none, some,
  Run, ok, fault, assertion, segfault, leb, if◌then◌else◌, ◌>>=◌, ◌>>◌, assert,
}
use riscvemu_study.Cache.{Cache, cache_size, cache_add}

-- `sh_offset` with `sh_size` as the bytes that they delimit, and `sh_addralign`
pub record Section : Type 0 where
  pub bytes : List ℕ
  pub addralign : ℕ

-- An entry of `.rela.text`, with the value of its symbol; `addend` is the pattern of an i64.
pub record Relocation : Type 0 where
  pub offset : ℕ
  pub type : ℕ
  pub value : ℕ
  pub addend : ℕ

-- The sections that the code looks for; `none` is a section that is not there.
pub record Object : Type 0 where
  pub text : Option Section
  pub rodata : Option Section
  pub rela : Option (List Relocation)
  pub has_symtab : Bool

abbrev pub r_x86_64_pc32 : ℕ
r_x86_64_pc32 = 2

-- `*(u32 *)loc = v`, little endian
unfoldable pub store_u32 : (ℕ → ℕ) → ℕ → ℕ → ℕ → ℕ
store_u32 bytes loc v =
    update
      (update (update (update bytes loc (v % 256)) (loc + 1) (v / 256 % 256)) (loc + 2)
        (v / 65536 % 256))
      (loc + 3) (v / 16777216 % 256)

-- The store through `loc`, inside the mapping of the cache; outside it, a write to a bad address
unfoldable pub write_u32 : (ℕ → ℕ) → ℕ → ℕ → Run (ℕ → ℕ)
write_u32 bytes loc v =
    if leb (loc + 4) cache_size then ok (store_u32 bytes loc v) else fault segfault

-- One round of the loop over the relocations. Addresses are offsets in the mapping of the cache:
-- its address cancels out of every difference.
unfoldable pub relocate : ℕ → ℕ → Relocation → Cache → Run Cache
unfolding write_u32
relocate text_addr rodata_addr rel c = do
  assert (rel.type == r_x86_64_pc32)
  let s = u64 (rodata_addr + rel.value)
  let p = u64 (text_addr + rel.offset)
  let loc = u32 (s + rel.addend + (2 ^ 64 - p))
  jitcode ← write_u32 c.jitcode p loc
  let rip_addr = u64 (p + (2 ^ 64 - rel.addend))
  assert (u64 (rip_addr + sext 32 loc) == s)
  ok (record c { jitcode = jitcode })

unfoldable pub relocate_all : ℕ → ℕ → List Relocation → Cache → Run Cache
relocate_all text_addr rodata_addr [] c = ok c
relocate_all text_addr rodata_addr (rel ∷ rels) c = do
  c' ← relocate text_addr rodata_addr rel c
  relocate_all text_addr rodata_addr rels c'

-- The sections put into the cache, for the block at `pc`; the offset of the code is returned.
unfoldable pub link :
    ℕ → Cache → Section → Option Section → Option (List Relocation) → Run (ℕ × Cache)
link pc c text (some rodata) (some rels) = do
  (rodata_addr, c1) ← cache_add c pc rodata.bytes rodata.addralign
  (text_addr, c2) ← cache_add c1 pc text.bytes text.addralign
  c3 ← relocate_all text_addr rodata_addr rels c2
  ok (text_addr, c3)
link pc c text rodata rela = cache_add c pc text.bytes text.addralign

unfoldable pub machine_compile : ℕ → Cache → Object → Run (ℕ × Cache)
unfolding link
machine_compile pc c object = elim object.text [
  | none ↦ fault assertion
  | some text ↦ (assert object.has_symtab >> link pc c text object.rodata object.rela)
]
