-- ===== src/Cache.antt =====
-- src/cache.c: the code cache, by open addressing over guest addresses, with a counter for each.
pub mod Counter
pub mod Lookup
use mathlib.Core.Bool.{not}
use riscvemu_study.Prelude.{
  ℕ, zero, suc, ◌+◌, ◌-◌, ◌*◌, ◌/◌, ◌%◌, ◌==◌, ltb, leb, if◌then◌else◌, Bool, true, false, ◌&&◌,
  update, u64, bit_and, List, [], ◌∷◌, length, Option, none, some, Run, ok, fault, assertion, ◌>>=◌,
  ◌>>◌, assert,
}

abbrev pub cache_entry_size : ℕ
cache_entry_size = 65536

abbrev pub cache_size : ℕ
cache_size = 67108864

abbrev pub max_search_count : ℕ
max_search_count = 32

abbrev pub cache_hot_count : ℕ
cache_hot_count = 100000

-- `pc` 0 marks a free slot.
pub record CacheItem : Type 0 where
  pub pc : ℕ
  pub hot : ℕ
  pub offset : ℕ

-- `jitcode` holds the bytes of the mapping by offset; a pointer into it is given by its offset.
pub record Cache : Type 0 where
  pub jitcode : ℕ → ℕ
  pub offset : ℕ
  pub table : ℕ → CacheItem

abbrev pub hash : ℕ → ℕ
hash pc = pc % cache_entry_size

-- The state that `calloc` and the anonymous mapping give.
unfoldable pub new_cache : Cache
new_cache = record {
  jitcode = λ i. 0;
  offset = 0;
  table = λ i. record { pc = 0; hot = 0; offset = 0 };
}

-- The loop of `cache_lookup`, on fuel: the slot of `pc`, or `none` within if a free slot ends it.
unfoldable pub lookup_loop : ℕ → Cache → ℕ → ℕ → Option (Option ℕ)
lookup_loop zero c pc index = none
lookup_loop (suc fuel) c pc index =
    let rest = lookup_loop fuel c pc (hash (index + 1)) in
    if (c.table index).pc == 0
    then some none
    else if (c.table index).pc == pc
    then some (some index)
    else rest

-- The code of a hot slot; `none` is NULL.
unfoldable pub code_at : Cache → Option ℕ → Option ℕ
code_at c none = none
code_at c (some index) =
    if leb cache_hot_count (c.table index).hot then some (c.table index).offset else none

unfoldable pub found_code : Cache → Option (Option ℕ) → Option (Option ℕ)
found_code c none = none
found_code c (some slot) = some (code_at c slot)

unfoldable pub cache_lookup : ℕ → Cache → ℕ → Run (Option (Option ℕ))
unfolding found_code code_at
cache_lookup fuel c pc = do
  assert (not (pc == 0))
  ok (found_code c (lookup_loop fuel c pc (hash pc)))

-- The loop of `cache_add` and `cache_hot`, with `left` rounds before `++search_count` fails its
-- assertion: the slot at which it ends, and whether that holds `pc`.
unfoldable pub probe : ℕ → Cache → ℕ → ℕ → Run (Bool × ℕ)
probe zero c pc index =
    if (c.table index).pc == 0
    then ok (false, index)
    else if (c.table index).pc == pc
    then ok (true, index)
    else fault assertion
probe (suc left) c pc index =
    let rest = probe left c pc (hash (index + 1)) in
    if (c.table index).pc == 0
    then ok (false, index)
    else if (c.table index).pc == pc
    then ok (true, index)
    else rest

-- `(val + align - 1) & ~(align - 1)`, where the mask of a u64 is `2 ^ 64 - align`
unfoldable pub align_to : ℕ → ℕ → ℕ
align_to val align =
    if align == 0 then val else bit_and (u64 (val + align - 1)) (18446744073709551616 - align)

-- `memcpy` of the list of bytes to offset `at`
unfoldable pub copy_bytes : (ℕ → ℕ) → ℕ → List ℕ → ℕ → ℕ
copy_bytes bytes at [] = bytes
copy_bytes bytes at (b ∷ code) = copy_bytes (update bytes at b) (at + 1) code

-- The offset of the code that is returned, and the cache after the call.
unfoldable pub cache_add : Cache → ℕ → List ℕ → ℕ → Run (ℕ × Cache)
cache_add c pc code align = do
  let start = align_to c.offset align
  assert (leb (start + length code) cache_size)
  (_, index) ← probe max_search_count c pc (hash pc)
  ok (
    start,
    record {
      jitcode = copy_bytes c.jitcode start code;
      offset = start + length code;
      table = update c.table index (record (c.table index) { pc = pc; offset = start });
    },
  )

-- `MIN(++hot, CACHE_HOT_COUNT)`: the macro evaluates its argument twice if that is the smaller.
unfoldable pub bump : ℕ → ℕ
bump hot = if ltb (u64 (hot + 1)) cache_hot_count then u64 (u64 (hot + 1) + 1) else cache_hot_count

-- `cache_hot` at the slot where the loop ends: count a known address, or claim a free slot.
unfoldable pub count_at : Cache → ℕ → Bool × ℕ → Bool × Cache
count_at c pc (true, index) =
    let hot = bump (c.table index).hot in
    (
      leb cache_hot_count hot,
      record c { table = update c.table index (record (c.table index) { hot = hot }) },
    )
count_at c pc (false, index) =
    (false, record c { table = update c.table index (record (c.table index) { pc = pc; hot = 1 }) })

unfoldable pub cache_hot : Cache → ℕ → Run (Bool × Cache)
unfolding count_at bump
cache_hot c pc = do slot ← probe max_search_count c pc (hash pc); ok (count_at c pc slot)
