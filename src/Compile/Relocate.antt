-- ===== src/Compile/Relocate.antt =====
-- The relocation of the compiled code.
use mathlib.Core.Bool.{not}
use riscvemu_study.Prelude.{
  ℕ, ◌+◌, ◌-◌, ◌*◌, ◌^◌, ◌<◌, ◌≡◌, arith, ◌==◌, ltb, leb, if◌then◌else◌, true, ◌&&◌, ◌||◌, Bool,
  Bool-cases, ◌⊎◌, inl, inr, ap, ◌∙◌, u32, u64, sext, ok, fault, assertion, segfault,
}
use riscvemu_study.Cache.{Cache, cache_size}
use riscvemu_study.Compile.{Relocation, r_x86_64_pc32, store_u32, write_u32, relocate}

-- The 32-bit word at an offset, little endian
unfoldable pub word_at : (ℕ → ℕ) → ℕ → ℕ
word_at bytes loc =
    bytes loc + 256 * bytes (loc + 1) + 65536 * bytes (loc + 2) + 16777216 * bytes (loc + 3)

pub word_at-store_u32 :
    (bytes : ℕ → ℕ) (loc v : ℕ) → v < 2 ^ 32 → word_at (store_u32 bytes loc v) loc ≡ v
unfolding word_at store_u32
word_at-store_u32 bytes loc v h = ground arith

-- The distance of the symbol, with the addend, from the place of the operand, as a 64-bit pattern
abbrev pub distance : ℕ → ℕ → Relocation → ℕ
distance text_addr rodata_addr rel =
    u64 (rodata_addr + rel.value + rel.addend + (2 ^ 64 - u64 (text_addr + rel.offset)))

distance_fits :
    (s a p : ℕ)
    → s < 2 ^ 64
    → a < 2 ^ 64
    → p < 2 ^ 64
    → let d = u64 (s + a + (2 ^ 64 - p)) in
      (u64 (u64 (p + (2 ^ 64 - a)) + sext 32 (u32 (s + a + (2 ^ 64 - p)))) == s)
      ≡ (ltb d (2 ^ 31) || leb (2 ^ 64 - 2 ^ 31) d)
distance_fits s a p h k l = ground arith

-- The distance fits a signed operand of 32 bits.
abbrev pub reaches : ℕ → ℕ → Relocation → Bool
reaches text_addr rodata_addr rel =
    let d = distance text_addr rodata_addr rel in ltb d (2 ^ 31) || leb (2 ^ 64 - 2 ^ 31) d

distance_s :
    (text_addr rodata_addr : ℕ) (rel : Relocation)
    → u64 (u64 (rodata_addr + rel.value) + rel.addend + (2 ^ 64 - u64 (text_addr + rel.offset)))
      ≡ distance text_addr rodata_addr rel
distance_s text_addr rodata_addr rel = omega arith

sext_word :
    (x d : ℕ) → u64 x ≡ d → (ltb d (2 ^ 31) || leb (2 ^ 64 - 2 ^ 31) d) ≡ true → sext 32 (u32 x) ≡ d
sext_word x d e h = ground arith

-- The operand lies in the mapping of the cache.
abbrev pub is_inside : ℕ → Relocation → Bool
is_inside text_addr rel = leb (u64 (text_addr + rel.offset) + 4) cache_size

relocate_at :
    (text_addr rodata_addr : ℕ) (rel : Relocation) (c : Cache)
    → rel.addend < 2 ^ 64
    → let s = u64 (rodata_addr + rel.value) in
      let p = u64 (text_addr + rel.offset) in
      relocate text_addr rodata_addr rel c ≡ (
        if rel.type == r_x86_64_pc32
        then (if is_inside text_addr rel
            then (if reaches text_addr rodata_addr rel
                then ok (record c {
                  jitcode = store_u32 c.jitcode p (u32 (s + rel.addend + (2 ^ 64 - p)));
                })
                else fault assertion)
            else fault segfault)
        else fault assertion)
unfolding relocate write_u32
relocate_at text_addr rodata_addr rel c h =
    let fits =
      distance_fits (u64 (rodata_addr + rel.value)) rel.addend (u64 (text_addr + rel.offset))
        (omega arith) h (omega arith) in
    let same = distance_s text_addr rodata_addr rel in ground arith

-- For an addend of 64 bits there are three cases. The type is R_X86_64_PC32, the operand lies in the
-- mapping of the cache and the distance fits a signed operand of 32 bits: the relocation leaves an
-- operand that is the distance when its sign is extended. Or the type is that one and the operand
-- lies outside: the store is one to a bad address. Or the type is another one, or the operand lies
-- in the mapping and the distance does not fit: the relocation fails an assertion.
pub relocate_lem :
    (text_addr rodata_addr : ℕ) (rel : Relocation) (c : Cache)
    → rel.addend < 2 ^ 64
    → let known = rel.type == r_x86_64_pc32 in
      let inside = is_inside text_addr rel in
      let fits = reaches text_addr rodata_addr rel in
      let run = relocate text_addr rodata_addr rel c in
      (((known && inside && fits) ≡ true)
        × ((c' : Cache) × (run ≡ ok c')
            × (sext 32 (word_at c'.jitcode (u64 (text_addr + rel.offset)))
                ≡ distance text_addr rodata_addr rel)))
      ⊎ ((((known && not inside) ≡ true) × (run ≡ fault segfault))
          ⊎ (((not known || (inside && not fits)) ≡ true) × (run ≡ fault assertion)))
relocate_lem text_addr rodata_addr rel c h = elim (Bool-cases (rel.type == r_x86_64_pc32)) [
  | inr other ↦ inr (inr (ground arith, ground (arith, run)))
  | inl known ↦ elim (Bool-cases (is_inside text_addr rel)) [
    | inr outside ↦ inr (inl (ground arith, ground (arith, run)))
    | inl inside ↦ elim (Bool-cases (reaches text_addr rodata_addr rel)) [
      | inr misses ↦ inr (inr (ground arith, ground (arith, run)))
      | inl fits ↦ inl (
        ground arith,
        (
          record c { jitcode = store_u32 c.jitcode p (u32 loc) },
          ground (arith, run),
          ap (sext 32) (word_at-store_u32 c.jitcode p (u32 loc) (omega arith))
              ∙ sext_word loc (distance text_addr rodata_addr rel)
                  (distance_s text_addr rodata_addr rel) fits,
        ),
      )
    ]
  ]
]
  where
    p : ℕ
    p = u64 (text_addr + rel.offset)

    loc : ℕ
    loc = u64 (rodata_addr + rel.value) + rel.addend + (2 ^ 64 - p)

    run : relocate text_addr rodata_addr rel c ≡ (
        if rel.type == r_x86_64_pc32
        then (if is_inside text_addr rel
            then (if reaches text_addr rodata_addr rel
                then ok (record c { jitcode = store_u32 c.jitcode p (u32 loc) })
                else fault assertion)
            else fault segfault)
        else fault assertion)
    run = relocate_at text_addr rodata_addr rel c h
